-- ===== src/Game/Lobby/Slots.antt =====
-- freeSlot, against what a free slot is.
use rom_server_poc.Prelude.{
  ℕ, zero, suc, ◌+◌, ◌<◌, ◌≤◌, ◌≡◌, inl, inr, true, false, Bool-cases, Option, none, some, List,
  arith, subst, ==_iff, ◌==◌,
}
use rom_server_poc.Persist.{Character}
use rom_server_poc.Game.Lobby.{slot_used, first_free, free_slot, max_character_slots}

-- The first slot from `low` on, below `high`, that no character has; none if all are used.
abbrev pub FirstFree : ℕ → ℕ → List Character → Option ℕ → Type 0
FirstFree low high cs (some slot) =
    (low ≤ slot)
    × (slot < high)
    × (slot_used slot cs ≡ false)
    × ((j : ℕ) → low ≤ j → j < slot → slot_used j cs ≡ true)
FirstFree low high cs none = (j : ℕ) → low ≤ j → j < high → slot_used j cs ≡ true

used-from :
    (low high : ℕ) (cs : List Character)
    → slot_used low cs ≡ true
    → ((j : ℕ) → suc low ≤ j → j < high → slot_used j cs ≡ true)
    → (j : ℕ) → low ≤ j
    → j < high
    → slot_used j cs ≡ true
used-from low high cs used h j above below = elim (Bool-cases (low == j)) [
  | inl same ↦ subst (λ k. slot_used k cs ≡ true) ((==_iff low j).0 same) used
  | inr different ↦ h j (ground arith) below
]

FirstFree-weaken :
    (low high : ℕ) (cs : List Character) (o : Option ℕ)
    → slot_used low cs ≡ true
    → FirstFree (suc low) high cs o
    → FirstFree low high cs o
FirstFree-weaken low high cs none used h = used-from low high cs used h
FirstFree-weaken low high cs (some slot) used (above, below, unused, before) =
    (omega arith, below, unused, used-from low slot cs used before)

first_free-FirstFree :
    (left low : ℕ) (cs : List Character) → FirstFree low (low + left) cs (first_free left low cs)
unfolding first_free
first_free-FirstFree zero low cs = λ j above below. ground (arith, above, below)
first_free-FirstFree (suc left) low cs =
    let high : low + 1 + left ≡ low + suc left = omega arith in
    let next : low + 1 ≡ suc low = omega arith in
    let rest : FirstFree (suc low) (low + suc left) cs (first_free left (low + 1) cs) =
      subst (λ n. FirstFree n (low + suc left) cs (first_free left (low + 1) cs)) next
        (subst (λ m. FirstFree (low + 1) m cs (first_free left (low + 1) cs)) high
          (first_free-FirstFree left (low + 1) cs)) in
    elim (Bool-cases (slot_used low cs)) [
      | inl used ↦
          rw used
            (FirstFree-weaken low (low + suc left) cs (first_free left (low + 1) cs) used rest)
      | inr unused ↦
          rw unused
            (omega arith, omega arith, unused, λ j above below. ground (arith, above, below))
    ]

-- A new character gets the first slot below 3 that none of the account's characters has, and there
-- is no slot only if all three are taken.
pub free_slot-FirstFree : (cs : List Character) → FirstFree 0 max_character_slots cs (free_slot cs)
unfolding free_slot
free_slot-FirstFree cs = first_free-FirstFree 3 0 cs
