-- ===== src/Persist/Postgres/Run.antt =====
-- internal/persist/postgres/store.go: the tables through sequences of operations.
use rom_server_poc.Prelude.{ℕ, Bool, true, List, []}
use rom_server_poc.Persist.{Character}
use rom_server_poc.Persist.Postgres.{
  Database, upsert_account, save_options, create_character, save_position,
}
use rom_server_poc.Persist.Postgres.Consistent.{
  IsConsistent, upsert_account-IsConsistent, save_options-IsConsistent,
  create_character-IsConsistent, save_position-IsConsistent,
}

abbrev pub empty_tables : Database
empty_tables = record { accounts = []; characters = []; next_id = 1; now = 0; up = true }

-- One operation, by whatever session; time passes, and the connection is lost and found.
pub data Change : Database → Database → Type 0 where
  upserted : (id : ℕ) (code : List ℕ) (db : Database) → Change db (upsert_account id code db).1
  saved : (id options : ℕ) (db : Database) → Change db (save_options id options db).1
  created : (c : Character) (db : Database) → Change db (create_character c db).1
  positioned :
      (id map_id x y z dir : ℕ) (db : Database) → Change db (save_position id map_id x y z dir db).1
  elapsed : (now : ℕ) (db : Database) → Change db (record db { now = now })
  switched : (up : Bool) (db : Database) → Change db (record db { up = up })

pub data Reach : Database → Type 0 where
  start : Reach empty_tables
  then_change : {db db' : Database} → Reach db → Change db db' → Reach db'

Change-IsConsistent : {db db' : Database} → Change db db' → IsConsistent db → IsConsistent db'
Change-IsConsistent (upserted id code db) h = upsert_account-IsConsistent id code db h
Change-IsConsistent (saved id options db) h = save_options-IsConsistent id options db h
Change-IsConsistent (created c db) h = create_character-IsConsistent c db h
Change-IsConsistent (positioned id map_id x y z dir db) h =
    save_position-IsConsistent id map_id x y z dir db h
Change-IsConsistent (elapsed now db) h = record {
  accounts = h.accounts;
  drawn = h.drawn;
  ids = h.ids;
  slots = h.slots;
  names = h.names;
  known = h.known;
}
Change-IsConsistent (switched up db) h = record {
  accounts = h.accounts;
  drawn = h.drawn;
  ids = h.ids;
  slots = h.slots;
  names = h.names;
  known = h.known;
}

pub empty_tables-IsConsistent : IsConsistent empty_tables
empty_tables-IsConsistent = record {
  accounts = tt;
  drawn = tt;
  ids = tt;
  slots = tt;
  names = tt;
  known = tt;
}

-- In all tables that operations in any order make of empty ones, account ids and character ids are
-- unique, no two characters of an account have one slot, no two active characters have one name,
-- each character's account is there, and its id has been drawn.
pub Reach-IsConsistent : {db : Database} → Reach db → IsConsistent db
Reach-IsConsistent start = empty_tables-IsConsistent
Reach-IsConsistent (then_change r c) = Change-IsConsistent c (Reach-IsConsistent r)
