-- ===== src/Persist/Postgres/Consistent.antt =====
-- internal/persist/postgres/store.go: the operations, and what the tables' constraints are for.
use rom_server_poc.Prelude.{
  ℕ, ◌+◌, ◌<◌, ◌≡◌, refl, ◌∙◌, Bool, true, false, ◌&&◌, ◌||◌, not, Bool-cases, inl, inr, Option,
  none, some, List, [], ◌∷◌, ◌==◌, arith, All, All-append, ltb, ◌^◌,
}
use rom_server_poc.Prelude.Text.{same_text_comm}
use rom_server_poc.Persist.{Character}
use rom_server_poc.Persist.Postgres.{
  Account, Database, Constraint, storable, any_row, of_account, has_id, holds_slot, holds_name,
  upsert_row, upsert_account, save_options, conflict, with_defaults, inserted, insert_character,
  create_character, save_position,
}
use rom_server_poc.Persist.Postgres.Rows.{
  Apart, Apart-append, Apart-update_rows, any_row-update_rows, All-update_rows, any_row-and,
  All-mono,
}

abbrev pub same_id : Character → Character → Bool
same_id c d = has_id c.id d

abbrev pub same_slot : Character → Character → Bool
same_slot c d = holds_slot c.account_id c.slot_index d

-- Both active, with one name.
abbrev pub same_name : Character → Character → Bool
same_name c d = c.deleted_time == 0 && holds_name c.name d

abbrev pub same_account : Account → Account → Bool
same_account a b = of_account a.account_id b

abbrev pub Known : List Account → List Character → Type 0
Known accounts = All (λ (c : Character). any_row (of_account c.account_id) accounts ≡ true)

abbrev pub Drawn : ℕ → List Character → Type 0
Drawn next = All (λ (c : Character). c.id < next)

pub record IsConsistent (db : Database) : Type 0 where
  pub accounts : Apart same_account db.accounts
  pub drawn : Drawn db.next_id db.characters
  pub ids : Apart same_id db.characters
  pub slots : Apart same_slot db.characters
  pub names : Apart same_name db.characters
  pub known : Known db.accounts db.characters

same_name_comm : (c d : Character) → same_name c d ≡ same_name d c
same_name_comm c d = ground (arith, same_text_comm c.name d.name)

any_row-upsert_row :
    (k id : ℕ) (code : List ℕ) (now : ℕ) (rows : List Account)
    → any_row (of_account k) (upsert_row id code now rows)
      ≡ (any_row (of_account k) rows || id == k)
unfolding any_row upsert_row
any_row-upsert_row k id code now [] = ground arith
any_row-upsert_row k id code now (a ∷ rows) = ground (arith, any_row-upsert_row k id code now rows)

Apart-upsert_row :
    (id : ℕ) (code : List ℕ) (now : ℕ) (rows : List Account)
    → Apart same_account rows
    → Apart same_account (upsert_row id code now rows)
unfolding upsert_row any_row
Apart-upsert_row id code now [] apart = (refl, tt)
Apart-upsert_row id code now (a ∷ rows) apart = elim (Bool-cases (a.account_id == id)) [
  | inl same ↦ rw same apart
  | inr different ↦ rw different (
    any_row-upsert_row a.account_id id code now rows ∙ ground (arith, apart.0, different),
    Apart-upsert_row id code now rows apart.1,
  )
]

Known-upsert_row :
    (id : ℕ) (code : List ℕ) (now : ℕ) (accounts : List Account) (rows : List Character)
    → Known accounts rows
    → Known (upsert_row id code now accounts) rows
Known-upsert_row id code now accounts [] known = tt
Known-upsert_row id code now accounts (c ∷ rows) known = (
  any_row-upsert_row c.account_id id code now accounts ∙ ground (arith, known.0),
  Known-upsert_row id code now accounts rows known.1,
)

pub upsert_account-IsConsistent :
    (id : ℕ) (code : List ℕ) (db : Database)
    → IsConsistent db
    → IsConsistent (upsert_account id code db).1
unfolding upsert_account
upsert_account-IsConsistent id code db h = elim (Bool-cases (db.up && storable code)) [
  | inl writes ↦ rw writes (record {
    accounts = Apart-upsert_row id code db.now db.accounts h.accounts;
    drawn = h.drawn;
    ids = h.ids;
    slots = h.slots;
    names = h.names;
    known = Known-upsert_row id code db.now db.accounts db.characters h.known;
  })
  | inr refused ↦ rw refused h
]

pub save_options-IsConsistent :
    (id options : ℕ) (db : Database) → IsConsistent db → IsConsistent (save_options id options db).1
unfolding save_options
save_options-IsConsistent id options db h = elim (Bool-cases (not db.up)) [
  | inl down ↦ rw down h
  | inr up ↦ rw up (elim (Bool-cases (any_row (of_account id) db.accounts)) [
    | inr missing ↦ rw missing h
    | inl there ↦ rw there (record {
      accounts =
          Apart-update_rows same_account (of_account id) _ (λ a b. refl) (λ a b. refl) db.accounts
            h.accounts;
      drawn = h.drawn;
      ids = h.ids;
      slots = h.slots;
      names = h.names;
      known =
          All-mono _ _
            (λ c e.
              any_row-update_rows (of_account id) (of_account c.account_id) _ (λ a. refl)
                db.accounts
              ∙ e)
            db.characters h.known;
    })
  ])
]

pub save_position-IsConsistent :
    (id map_id x y z dir : ℕ) (db : Database)
    → IsConsistent db
    → IsConsistent (save_position id map_id x y z dir db).1
unfolding save_position
save_position-IsConsistent id map_id x y z dir db h = elim (Bool-cases (not db.up)) [
  | inl down ↦ rw down h
  | inr up ↦ rw up (elim (Bool-cases (any_row (has_id id) db.characters)) [
    | inr missing ↦ rw missing h
    | inl there ↦ rw there (record {
      accounts = h.accounts;
      drawn =
          All-update_rows (λ c. c.id < db.next_id) (has_id id) _ (λ c e. e) db.characters h.drawn;
      ids = Apart-update_rows same_id (has_id id) _ (λ a b. refl) (λ a b. refl) db.characters h.ids;
      slots =
          Apart-update_rows same_slot (has_id id) _ (λ a b. refl) (λ a b. refl) db.characters
            h.slots;
      names =
          Apart-update_rows same_name (has_id id) _ (λ a b. refl) (λ a b. refl) db.characters
            h.names;
      known =
          All-update_rows (λ c. any_row (of_account c.account_id) db.accounts ≡ true) (has_id id) _
            (λ c e. e) db.characters h.known;
    })
  ])
]

-- A row that violates no unique index.
pub conflict-none :
    (c : Character) (rows : List Character)
    → conflict c rows ≡ none
    → (any_row (same_id c) rows ≡ false)
      × (any_row (same_slot c) rows ≡ false)
      × (any_row (same_name c) rows ≡ false)
unfolding conflict
conflict-none c rows e =
    let both = any_row-and (c.deleted_time == 0) (holds_name c.name) rows in
    (ground arith, ground arith, both ∙ ground arith)

module _ (row : Character) (db : Database) (h : IsConsistent db) (fresh : row.id ≡ db.next_id) where
  Drawn-next : Drawn (db.next_id + 1) db.characters
  Drawn-next =
      All-mono (λ c. c.id < db.next_id) (λ c. c.id < db.next_id + 1) (λ c e. omega arith)
        db.characters h.drawn

  inserted-IsConsistent :
      (o : Option Constraint)
      → conflict row db.characters ≡ o
      → (known : Bool) → any_row (of_account row.account_id) db.accounts ≡ known
      → IsConsistent (inserted o known row (record db { next_id = db.next_id + 1 })).1
  inserted-IsConsistent (some k) clash known e = record {
    accounts = h.accounts;
    drawn = Drawn-next;
    ids = h.ids;
    slots = h.slots;
    names = h.names;
    known = h.known;
  }
  inserted-IsConsistent none clear false e = record {
    accounts = h.accounts;
    drawn = Drawn-next;
    ids = h.ids;
    slots = h.slots;
    names = h.names;
    known = h.known;
  }
  inserted-IsConsistent none clear true e =
      let (id, slot, name) = conflict-none row db.characters clear in
      record {
        accounts = h.accounts;
        drawn =
            All-append (λ c. c.id < db.next_id + 1) db.characters (row ∷ []) Drawn-next
              (omega arith, tt);
        ids = Apart-append same_id (λ a b. ground arith) db.characters row h.ids id;
        slots = Apart-append same_slot (λ a b. ground arith) db.characters row h.slots slot;
        names = Apart-append same_name same_name_comm db.characters row h.names name;
        known =
            All-append (λ c. any_row (of_account c.account_id) db.accounts ≡ true) db.characters
              (row ∷ []) h.known (e, tt);
      }

pub create_character-IsConsistent :
    (c : Character) (db : Database) → IsConsistent db → IsConsistent (create_character c db).1
unfolding create_character insert_character
create_character-IsConsistent c db h =
    elim (Bool-cases
      (db.up && storable c.name && storable c.guild_name && ltb db.next_id (2 ^ 63))) [
        | inl runs ↦ rw runs (inserted-IsConsistent (with_defaults c db) db h refl _ refl _ refl)
        | inr refused ↦ rw refused h
      ]
