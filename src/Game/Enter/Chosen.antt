-- ===== src/Game/Enter/Chosen.antt =====
-- internal/game/enter.go: the search for the character of a slot, and the warp token.
use rom_server_poc.Prelude.{
  ℕ, ◌≡◌, ◌≢◌, ◌⊎◌, refl, sym, ap, ◌∙◌, false, inl, inr, Bool-cases, ==_iff, Option, none, some,
  List, [], ◌∷◌, ◌++◌, ◌==◌, All, arith,
}
use rom_server_poc.Persist.{Character}
use rom_server_poc.Game.Lobby.{wide32}
use rom_server_poc.Prelude.Bytes.{from_le}
use rom_server_poc.Prelude.Result.{ok, err}
use rom_server_poc.Game.Session.{HandlerError}
use rom_server_poc.Game.Enter.{chosen, nonzero, new_warp_token}

-- No character of the list stands in the slot.
abbrev pub NoneInSlot : ℕ → List Character → Type 0
NoneInSlot slot cs = All (λ (c : Character). wide32 c.slot_index ≢ slot) cs

-- `c` is the first of the list in the slot.
pub record IsFirstIn (slot : ℕ) (cs : List Character) (c : Character) : Type 0 where
  pub before : List Character
  pub after : List Character
  pub split : cs ≡ before ++ c ∷ after
  pub here : wide32 c.slot_index ≡ slot
  pub earlier : NoneInSlot slot before

other_slot : {a slot : ℕ} → (a == slot) ≡ false → a ≢ slot
other_slot miss e = ground arith

pub chosen-IsFirstIn :
    (slot : ℕ) (cs : List Character) (c : Character) → chosen slot cs ≡ some c → IsFirstIn slot cs c
unfolding chosen
chosen-IsFirstIn slot [] c e = absurd (ground arith)
chosen-IsFirstIn slot (d ∷ cs) c e = elim (Bool-cases (wide32 d.slot_index == slot)) [
  | inl hit ↦
      let same : d ≡ c = ground arith in
      record {
        before = [];
        after = cs;
        split = ap (λ x. x ∷ cs) same;
        here = ap (λ x. wide32 x.slot_index) (sym same) ∙ (==_iff _ slot).0 hit;
        earlier = tt;
      }
  | inr miss ↦
      let later = chosen-IsFirstIn slot cs c (ground arith) in
      record {
        before = d ∷ later.before;
        after = later.after;
        split = ap (λ xs. d ∷ xs) later.split;
        here = later.here;
        earlier = (other_slot miss, later.earlier);
      }
]

pub chosen-NoneInSlot :
    (slot : ℕ) (cs : List Character) → chosen slot cs ≡ none → NoneInSlot slot cs
unfolding chosen
chosen-NoneInSlot slot [] e = tt
chosen-NoneInSlot slot (d ∷ cs) e = elim (Bool-cases (wide32 d.slot_index == slot)) [
  | inl hit ↦ absurd (ground arith)
  | inr miss ↦ (λ same. other_slot miss same, chosen-NoneInSlot slot cs (ground arith))
]

-- A token drawn from the random bytes: their number, and 1 in place of 0.
abbrev pub IsDrawn : Option (List ℕ) → ℕ → Type 0
IsDrawn random token =
    (buf : List ℕ) × (random ≡ some buf)
    × (token ≢ 0)
    × ((token ≡ from_le buf) ⊎ ((from_le buf ≡ 0) × (token ≡ 1)))

nonzero-IsDrawn :
    (n token : ℕ) → nonzero n ≡ token → (token ≢ 0) × ((token ≡ n) ⊎ ((n ≡ 0) × (token ≡ 1)))
nonzero-IsDrawn n token e = elim (Bool-cases (n == 0)) [
  | inl zero_drawn ↦
      let one : token ≡ 1 = ground arith in
      (λ z. absurd (omega arith), inr ((==_iff n 0).0 zero_drawn, one))
  | inr drawn ↦
      let same : token ≡ n = ground arith in (λ z. other_slot drawn (sym same ∙ z), inl same)
]

pub new_warp_token-IsDrawn :
    (random : Option (List ℕ)) (token : ℕ) → new_warp_token random ≡ ok token → IsDrawn random token
unfolding new_warp_token
new_warp_token-IsDrawn none token e = cc
new_warp_token-IsDrawn (some buf) token e =
    let same : nonzero (from_le buf) ≡ token = cc in
    let (nonzero_token, drawn) = nonzero-IsDrawn (from_le buf) token same in
    (buf, refl, nonzero_token, drawn)

pub new_warp_token-none :
    (random : Option (List ℕ)) (e : HandlerError) → new_warp_token random ≡ err e → random ≡ none
unfolding new_warp_token
new_warp_token-none none e h = refl
new_warp_token-none (some buf) e h = cc
