-- ===== src/Persist/Postgres.antt =====
-- internal/persist/postgres/store.go: the store's operations as their statements act on the tables
-- that the files in migrations create. The connection pool and the scanning of rows are left out; `up`
-- is that the database answers.
mod Rows
pub mod Records
mod Listing
pub mod Consistent
pub mod Lawful
pub mod Slots
pub mod Run
use rom_server_poc.Prelude.{
  ℕ, zero, suc, ◌+◌, ◌%◌, ◌^◌, Bool, true, false, not, ◌&&◌, Option, none, some, List, [], ◌∷◌,
  ◌++◌, ◌==◌, ltb, leb, if◌then◌else◌,
}
use rom_server_poc.Prelude.Text.{same_text}
use rom_server_poc.Prelude.Result.{Result, ok, err}
use rom_server_poc.Persist.Laws.{signed32}
use rom_server_poc.Persist.{StoreError, not_found, name_taken, slot_taken, other, Character, Store}

-- A row of accounts.
pub record Account : Type 0 where
  pub account_id : ℕ
  pub user_code : List ℕ
  pub option_values : ℕ
  pub last_login_at : ℕ
  pub created_at : ℕ

-- The two tables, the sequence behind characters.id, and the database's clock.
pub record Database : Type 0 where
  pub accounts : List Account
  pub characters : List Character
  pub next_id : ℕ
  pub now : ℕ
  pub up : Bool

pub data Constraint : Type 0 where
  primary_key account_slot_key name_active_key : Constraint

-- What a statement fails with: a unique violation, or anything else.
pub data PgError : Type 0 where
  violates : Constraint → PgError
  failed : PgError

-- A TEXT holds no zero.
unfoldable pub storable : List ℕ → Bool
storable [] = true
storable (c ∷ s) = not (c == 0) && storable s

module _ {A : Type 0} where
  -- `UPDATE … WHERE hit`
  unfoldable pub update_rows : (A → Bool) → (A → A) → List A → List A
  update_rows hit f [] = []
  update_rows hit f (a ∷ rows) =
      if hit a then f a ∷ update_rows hit f rows else a ∷ update_rows hit f rows

  unfoldable pub any_row : (A → Bool) → List A → Bool
  any_row hit [] = false
  any_row hit (a ∷ rows) = if hit a then true else any_row hit rows

  -- `SELECT … WHERE hit`, in the order of the rows
  unfoldable pub select_rows : (A → Bool) → List A → List A
  select_rows hit [] = []
  select_rows hit (a ∷ rows) = if hit a then a ∷ select_rows hit rows else select_rows hit rows

abbrev pub of_account : ℕ → Account → Bool
of_account id a = a.account_id == id

abbrev pub has_id : ℕ → Character → Bool
has_id id c = c.id == id

abbrev pub holds_slot : ℕ → ℕ → Character → Bool
holds_slot account slot c = c.account_id == account && c.slot_index == slot

-- A row of characters_name_active_key.
abbrev pub holds_name : List ℕ → Character → Bool
holds_name name c = c.deleted_time == 0 && same_text c.name name

abbrev pub listed : ℕ → Character → Bool
listed account c = c.account_id == account && c.deleted_time == 0

-- `INSERT … ON CONFLICT (account_id) DO UPDATE`
unfoldable pub upsert_row : ℕ → List ℕ → ℕ → List Account → List Account
upsert_row id code now [] =
    record {
      account_id = id;
      user_code = code;
      option_values = 0;
      last_login_at = now;
      created_at = now;
    }
    ∷ []
upsert_row id code now (a ∷ rows) =
    if a.account_id == id
    then record a { user_code = code; last_login_at = now } ∷ rows
    else a ∷ upsert_row id code now rows

unfoldable pub upsert_account : ℕ → List ℕ → Database → Result StoreError (Unit {0}) × Database
unfolding upsert_row storable
upsert_account id code db =
    if db.up && storable code
    then (ok tt, record db { accounts = upsert_row id code db.now db.accounts })
    else (err other, db)

-- No row updated is ErrNotFound.
unfoldable pub save_options : ℕ → ℕ → Database → Result StoreError (Unit {0}) × Database
unfolding update_rows any_row
save_options id options db =
    if not db.up
    then (err other, db)
    else if any_row (of_account id) db.accounts
    then (
      ok tt,
      record db {
        accounts =
            update_rows (of_account id) (λ (a : Account). record a { option_values = options })
              db.accounts;
      },
    )
    else (err not_found, db)

unfoldable pub insert_slot : Character → List Character → List Character
insert_slot c [] = c ∷ []
insert_slot c (d ∷ rows) =
    if leb (signed32 c.slot_index) (signed32 d.slot_index)
    then c ∷ d ∷ rows
    else d ∷ insert_slot c rows

-- `ORDER BY slot_index`
unfoldable pub order_by_slot : List Character → List Character
unfolding insert_slot
order_by_slot [] = []
order_by_slot (c ∷ rows) = insert_slot c (order_by_slot rows)

unfoldable pub list_characters : ℕ → Database → Result StoreError (List Character)
unfolding select_rows order_by_slot
list_characters account db =
    if db.up then ok (order_by_slot (select_rows (listed account) db.characters)) else err other

abbrev pub first_row : List Character → Result StoreError Character
first_row [] = err not_found
first_row (c ∷ _) = ok c

unfoldable pub get_character : ℕ → Database → Result StoreError Character
unfolding select_rows
get_character id db = if db.up then first_row (select_rows (has_id id) db.characters) else err other

-- The first unique index that a new row violates, in the order of their creation.
unfoldable pub conflict : Character → List Character → Option Constraint
unfolding any_row same_text
conflict c rows =
    if any_row (has_id c.id) rows
    then some primary_key
    else if any_row (holds_slot c.account_id c.slot_index) rows
    then some account_slot_key
    else if c.deleted_time == 0 && any_row (holds_name c.name) rows
    then some name_active_key
    else none

abbrev pub inserted :
    Option Constraint → Bool → Character → Database → Result PgError Character × Database
inserted (some k) known c db = (err (violates k), db)
inserted none false c db = (err failed, db)
inserted none true c db = (ok c, record db { characters = db.characters ++ c ∷ [] })

-- `id` and `created_at` by the columns' defaults
abbrev pub with_defaults : Character → Database → Character
with_defaults c db = record c { id = db.next_id; created_at = db.now }

-- The INSERT: the unique indexes, then the foreign key. The number drawn from the sequence is gone
-- also where the row is refused.
unfoldable pub insert_character : Character → Database → Result PgError Character × Database
unfolding storable conflict any_row
insert_character c db =
    if db.up && storable c.name && storable c.guild_name && ltb db.next_id (2 ^ 63)
    then inserted (conflict (with_defaults c db) db.characters)
        (any_row (of_account c.account_id) db.accounts) (with_defaults c db)
        (record db { next_id = db.next_id + 1 })
    else (err failed, db)

-- uniqueViolation: none where the error is no unique violation.
unfoldable pub unique_violation : PgError → Option StoreError
unique_violation failed = none
unique_violation (violates name_active_key) = some name_taken
unique_violation (violates account_slot_key) = some slot_taken
unique_violation (violates primary_key) = some other

abbrev pub or_other : Option StoreError → StoreError
or_other none = other
or_other (some taken) = taken

abbrev pub scanned : Result PgError Character → Result StoreError Character
scanned (ok c) = ok c
scanned (err e) = err (or_other (unique_violation e))

unfoldable pub create_character : Character → Database → Result StoreError Character × Database
unfolding insert_character unique_violation
create_character c db = let (r, db') = insert_character c db in (scanned r, db')

unfoldable pub save_position :
    ℕ → ℕ → ℕ → ℕ → ℕ → ℕ → Database → Result StoreError (Unit {0}) × Database
unfolding update_rows any_row
save_position id map_id x y z dir db =
    if not db.up
    then (err other, db)
    else if any_row (has_id id) db.characters
    then (
      ok tt,
      record db {
        characters =
            update_rows (has_id id)
              (λ (c : Character). record c { map_id = map_id; x = x; y = y; z = z; dir = dir })
              db.characters;
      },
    )
    else (err not_found, db)

abbrev pub postgres_store : Store Database
postgres_store = record {
  upsert_account = upsert_account;
  save_options = save_options;
  list_characters = list_characters;
  get_character = get_character;
  create_character = create_character;
  save_position = save_position;
}
