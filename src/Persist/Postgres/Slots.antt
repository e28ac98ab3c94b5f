-- ===== src/Persist/Postgres/Slots.antt =====
-- internal/persist/postgres/store.go: CreateCharacter on a slot that a row holds.
use mathlib.Core.List.{Memᴰ}
use mathlib.Core.List.Memᴰ
use rom_server_poc.Prelude.{
  ℕ, ◌+◌, ◌^◌, ◌≡◌, ◌≢◌, refl, sym, subst, Bool, true, false, ◌&&◌, Bool-cases, inl, inr, Option,
  none, some, List, [], ◌∷◌, arith, ltb,
}
use rom_server_poc.Prelude.Result.{ok, err, ok-ne-err}
use rom_server_poc.Persist.{slot_taken, Character}
use rom_server_poc.Persist.Postgres.{
  Database, Constraint, primary_key, account_slot_key, name_active_key, failed, storable, any_row,
  holds_slot, of_account, list_characters, insert_character, conflict, with_defaults, inserted,
  scanned, unique_violation, create_character,
}

pub any_row-found :
    (p : Character → Bool) (rows : List Character)
    → any_row p rows ≡ true
    → (c : Character) × Memᴰ c rows × (p c ≡ true)
unfolding any_row
any_row-found p [] h = cc
any_row-found p (c ∷ rows) h = elim (Bool-cases (p c)) [
  | inl hit ↦ (c, Memᴰ.head refl, hit)
  | inr missed ↦
      let (d, there, hit) = any_row-found p rows (rw missed at h) in (d, Memᴰ.tail there, hit)
]

pub any_row-there :
    (p : Character → Bool) (c : Character) (rows : List Character)
    → Memᴰ c rows
    → p c ≡ true
    → any_row p rows ≡ true
unfolding any_row
any_row-there p c [] there h = absurd (Memᴰ.not-nil there)
any_row-there p c (d ∷ rows) there h = elim (Memᴰ.cases_cons there) [
  | inl same ↦ let h' : p d ≡ true = subst (λ x. p x ≡ true) same h in rw h' refl
  | inr later ↦ ground (arith, any_row-there p c rows later h)
]

conflict-slot :
    (c : Character) (rows : List Character)
    → conflict c rows ≡ some account_slot_key
    → any_row (holds_slot c.account_id c.slot_index) rows ≡ true
unfolding conflict
conflict-slot c rows e = ground arith

conflict-taken :
    (c : Character) (rows : List Character)
    → any_row (holds_slot c.account_id c.slot_index) rows ≡ true
    → conflict c rows ≢ none
unfolding conflict
conflict-taken c rows held e = ground arith

taken-slot :
    (o : Option Constraint) (known : Bool) (c : Character) (db : Database)
    → scanned (inserted o known c db).0 ≡ err slot_taken
    → o ≡ some account_slot_key
unfolding unique_violation
taken-slot none true c db e = cc
taken-slot none false c db e = cc
taken-slot (some account_slot_key) known c db e = refl
taken-slot (some primary_key) known c db e = cc
taken-slot (some name_active_key) known c db e = cc

-- ErrSlotTaken is returned only where a row holds the slot.
pub create_character-taken :
    (c : Character) (db : Database)
    → (create_character c db).0 ≡ err slot_taken
    → (db.up ≡ true) × (any_row (holds_slot c.account_id c.slot_index) db.characters ≡ true)
unfolding create_character insert_character
create_character-taken c db e =
    elim (Bool-cases
      (db.up && storable c.name && storable c.guild_name && ltb db.next_id (2 ^ 63))) [
        | inl runs ↦ (
          ground arith,
          conflict-slot (with_defaults c db) db.characters (taken-slot _ _ _ _ (rw runs at e)),
        )
        | inr refused ↦ absurd (other_error (rw refused at e))
      ]
  where
    other_error : scanned (err failed) ≡ err slot_taken → ⊥
    other_error h = unfold unique_violation in cc

refused-rows :
    (o : Option Constraint) (known : Bool) (c : Character) (db : Database)
    → o ≢ none
    → ((c' : Character) → scanned (inserted o known c db).0 ≢ ok c')
      × ((inserted o known c db).1 ≡ db)
refused-rows none known c db taken = absurd (taken refl)
refused-rows (some k) known c db taken = (λ c' e. ok-ne-err (sym e), refl)

-- A slot that a row holds is refused, and the listings stay.
pub create_character-refused :
    (c : Character) (db : Database)
    → any_row (holds_slot c.account_id c.slot_index) db.characters ≡ true
    → ((c' : Character) → (create_character c db).0 ≢ ok c')
      × ((account : ℕ)
          → list_characters account (create_character c db).1 ≡ list_characters account db)
unfolding create_character insert_character list_characters
create_character-refused c db held =
    elim (Bool-cases
      (db.up && storable c.name && storable c.guild_name && ltb db.next_id (2 ^ 63))) [
        | inl runs ↦
            let (fails, same) =
              refused-rows (conflict (with_defaults c db) db.characters)
                (any_row (of_account c.account_id) db.accounts) (with_defaults c db)
                (record db { next_id = db.next_id + 1 })
                (conflict-taken (with_defaults c db) db.characters held) in
            rw runs (fails, λ account. rw same refl)
        | inr refused ↦ rw refused (λ c' e. ok-ne-err (sym e), λ account. refl)
      ]
