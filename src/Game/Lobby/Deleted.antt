-- ===== src/Game/Lobby/Deleted.antt =====
-- internal/game/lobby.go: freeSlot over the Postgres store, with deleted characters in the tables.
use mathlib.Core.List.{Memᴰ}
use mathlib.Core.List.Memᴰ
use rom_server_poc.Prelude.{
  ℕ, ◌≡◌, ◌≢◌, sym, ◌∙◌, subst, true, false, ◌⊎◌, inl, inr, Bool-cases, ◌==◌, ==_iff, some, List,
  [], ◌∷◌, arith,
}
use rom_server_poc.Prelude.Result.{ok, err}
use rom_server_poc.Persist.{slot_taken, Character}
use rom_server_poc.Persist.Postgres.{
  Database, holds_slot, get_character, list_characters, create_character,
}
use rom_server_poc.Persist.Postgres.Consistent.{IsConsistent}
use rom_server_poc.Persist.Postgres.Records.{row_of-Memᴰ, Memᴰ-row_of}
use rom_server_poc.Persist.Postgres.Lawful.{get-eq, get-up, postgres_store-IsLawful}
use rom_server_poc.Persist.Postgres.Slots.{
  any_row-found, any_row-there, create_character-taken, create_character-refused,
}
use rom_server_poc.Game.Lobby.{slot_used, free_slot, max_character_slots}
use rom_server_poc.Game.Lobby.Slots.{FirstFree, free_slot-FirstFree}

free_slot-unused :
    (cs : List Character) (slot : ℕ) → free_slot cs ≡ some slot → slot_used slot cs ≡ false
free_slot-unused cs slot e =
    let (_, _, unused, _) = subst (FirstFree 0 max_character_slots cs) e (free_slot-FirstFree cs) in
    unused

slot_used-Memᴰ :
    (slot : ℕ) (c : Character) (cs : List Character)
    → Memᴰ c cs
    → c.slot_index ≡ slot
    → slot_used slot cs ≡ true
unfolding slot_used
slot_used-Memᴰ slot c [] there e = absurd (Memᴰ.not-nil there)
slot_used-Memᴰ slot c (d ∷ cs) there e = elim (Memᴰ.cases_cons there) [
  | inl same ↦
      let e' : d.slot_index ≡ slot = subst (λ x. x.slot_index ≡ slot) same e in ground arith
  | inr later ↦ ground (arith, slot_used-Memᴰ slot c cs later e)
]

module _ (db : Database) (consistent : IsConsistent db) (account slot : ℕ) (cs : List Character)
    (read : list_characters account db ≡ ok cs) (free : free_slot cs ≡ some slot) where
  -- A stored character in the slot that freeSlot picks has been deleted.
  holder_deleted :
      (d : Character)
      → get_character d.id db ≡ ok d
      → d.account_id ≡ account
      → d.slot_index ≡ slot
      → d.deleted_time ≢ 0
  holder_deleted d stored owner holds alive =
      let there =
        (postgres_store-IsLawful.listed account cs db consistent read d).1 (stored, owner, alive) in
      let used = slot_used-Memᴰ slot d cs there holds in
      let unused = free_slot-unused cs slot free in cc

  -- If freeSlot, on the account's listed characters, picks a slot that a stored character of the
  -- account holds, then that character is deleted, no request for a character in this slot succeeds,
  -- and the account's list is the same after it, so that freeSlot picks the slot again.
  pub deleted_slot_blocks :
      (d : Character)
      → get_character d.id db ≡ ok d
      → d.account_id ≡ account
      → d.slot_index ≡ slot
      → (d.deleted_time ≢ 0)
        × ((c : Character)
            → c.account_id ≡ account
            → c.slot_index ≡ slot
            → ((c' : Character) → (create_character c db).0 ≢ ok c')
              × (list_characters account (create_character c db).1 ≡ ok cs))
  deleted_slot_blocks d stored owner holds =
      let up = get-up d.id d db stored in
      let there = Memᴰ-row_of d.id d db.characters (sym (get-eq d.id db up) ∙ stored) in
      (
        holder_deleted d stored owner holds,
        λ c mine wanted.
            let held =
              any_row-there (holds_slot c.account_id c.slot_index) d db.characters there
                (ground arith) in
            let (fails, same) = create_character-refused c db held in (fails, same account ∙ read),
      )

  -- If freeSlot picks a slot on the account's listed characters, and later, whatever has been done to
  -- the tables since, a character in this slot is refused with ErrSlotTaken, then a character of the
  -- account holds the slot, and it was not stored as it is now when the list was read, or it is
  -- deleted.
  pub create_character-deleted :
      (later : Database) (c : Character)
      → IsConsistent later
      → c.account_id ≡ account
      → c.slot_index ≡ slot
      → (create_character c later).0 ≡ err slot_taken
      → (d : Character) × (get_character d.id later ≡ ok d)
        × (d.account_id ≡ account)
        × (d.slot_index ≡ slot)
        × ((get_character d.id db ≢ ok d) ⊎ (d.deleted_time ≢ 0))
  create_character-deleted later c consistent' mine wanted refused =
      let (up, held) = create_character-taken c later refused in
      let (d, there, hit) =
        any_row-found (holds_slot c.account_id c.slot_index) later.characters held in
      let stored = get-eq d.id later up ∙ row_of-Memᴰ d later.characters consistent'.ids there in
      let owner : d.account_id ≡ account = ground arith in
      let holds : d.slot_index ≡ slot = ground arith in
      (
        d,
        stored,
        owner,
        holds,
        elim (Bool-cases (d.deleted_time == 0)) [
          | inl alive ↦
              inl
                (λ before. holder_deleted d before owner holds ((==_iff d.deleted_time 0).0 alive))
          | inr deleted ↦ inr (λ z. deleted_clash d.deleted_time deleted z)
        ],
      )
    where
      deleted_clash : (n : ℕ) → (n == 0) ≡ false → n ≡ 0 → ⊥
      deleted_clash n h e = ground arith
