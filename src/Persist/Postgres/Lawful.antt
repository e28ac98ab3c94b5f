-- ===== src/Persist/Postgres/Lawful.antt =====
-- internal/persist/postgres/store.go: the Postgres store as an instance of the interface.
use mathlib.Core.List.{Memᴰ}
use rom_server_poc.Prelude.{
  ℕ, ◌+◌, ◌^◌, ◌≡◌, ◌↔◌, refl, sym, subst, ◌∙◌, Bool, true, false, ◌&&◌, not, Bool-cases, inl, inr,
  Option, none, some, List, arith, ltb,
}
use rom_server_poc.Prelude.Result.{ok, err, ok-ne-err}
use rom_server_poc.Persist.{StoreError, Character}
use rom_server_poc.Persist.Laws.{BySlot, SameRecords, Created, Moved, IsLawful}
use rom_server_poc.Persist.Postgres.{
  Database, Constraint, storable, any_row, select_rows, has_id, of_account, listed, order_by_slot,
  upsert_account, save_options, list_characters, get_character, conflict, with_defaults, inserted,
  insert_character, scanned, create_character, save_position, postgres_store,
}
use rom_server_poc.Persist.Postgres.Records.{
  row_of, row_of-append_self, row_of-append_ne, row_of-missing, row_of-found, row_of-update_rows,
  row_of-update_rows_ne, row_of-Memᴰ, Memᴰ-row_of,
}
use rom_server_poc.Persist.Postgres.Listing.{
  select_rows-Memᴰ, order_by_slot-Memᴰ, order_by_slot-BySlot,
}
use rom_server_poc.Persist.Postgres.Consistent.{
  IsConsistent, upsert_account-IsConsistent, save_options-IsConsistent, save_position-IsConsistent,
  create_character-IsConsistent, conflict-none,
}

pub get-eq : (id : ℕ) (db : Database) → db.up ≡ true → get_character id db ≡ row_of id db.characters
unfolding get_character row_of
get-eq id db up = rw up refl

pub get-up : (id : ℕ) (c : Character) (db : Database) → get_character id db ≡ ok c → db.up ≡ true
unfolding get_character
get-up id c db e = elim (Bool-cases db.up) [
  | inl up ↦ up
  | inr down ↦ absurd (ok-ne-err (sym (rw down at e)))
]

-- Where the rows and the connection stay, so do the records.
same_rows :
    (db db' : Database)
    → db'.up ≡ db.up
    → db'.characters ≡ db.characters
    → SameRecords postgres_store db db'
unfolding get_character
same_rows db db' up rows id = rw (up, rows) refl

upsert-SameRecords :
    (id : ℕ) (code : List ℕ) (db : Database)
    → SameRecords postgres_store db (upsert_account id code db).1
unfolding upsert_account
upsert-SameRecords id code db = elim (Bool-cases (db.up && storable code)) [
  | inl writes ↦ rw writes (same_rows db _ refl refl)
  | inr refused ↦ rw refused (λ j. refl)
]

options-SameRecords :
    (id options : ℕ) (db : Database) → SameRecords postgres_store db (save_options id options db).1
unfolding save_options
options-SameRecords id options db = elim (Bool-cases (not db.up)) [
  | inl down ↦ rw down (λ j. refl)
  | inr up ↦ rw up (elim (Bool-cases (any_row (of_account id) db.accounts)) [
    | inl there ↦ rw there (same_rows db _ refl refl)
    | inr missing ↦ rw missing (λ j. refl)
  ])
]

abbrev drawn_db : Database → Database
drawn_db db = record db { next_id = db.next_id + 1 }

module _ (c c' : Character) (db : Database) (up : db.up ≡ true) where
  Created-inserted :
      (o : Option Constraint)
      → conflict (with_defaults c db) db.characters ≡ o
      → (known : Bool) → scanned (inserted o known (with_defaults c db) (drawn_db db)).0 ≡ ok c'
      → Created postgres_store c c' db (inserted o known (with_defaults c db) (drawn_db db)).1
  Created-inserted (some k) clash known e = cc
  Created-inserted none clear false e = cc
  Created-inserted none clear true e =
      let (free, _, _) = conflict-none (with_defaults c db) db.characters clear in
      let row : with_defaults c db ≡ c' = cc in
      subst
        (λ r.
          Created postgres_store c r db (inserted none true (with_defaults c db) (drawn_db db)).1)
        row
        (
          refl,
          get-eq db.next_id db up ∙ row_of-missing db.next_id db.characters free,
          get-eq db.next_id _ up ∙ row_of-append_self db.characters (with_defaults c db) free,
          λ id ne.
              get-eq id _ up
              ∙ row_of-append_ne id db.characters (with_defaults c db) ne
              ∙ sym (get-eq id db up),
        )

  refused-inserted :
      (e : StoreError) (o : Option Constraint) (known : Bool)
      → scanned (inserted o known (with_defaults c db) (drawn_db db)).0 ≡ err e
      → SameRecords postgres_store db (inserted o known (with_defaults c db) (drawn_db db)).1
  refused-inserted e (some k) known h = same_rows db _ refl refl
  refused-inserted e none false h = same_rows db _ refl refl
  refused-inserted e none true h = cc

runs-up :
    (c : Character) (db : Database)
    → (db.up && storable c.name && storable c.guild_name && ltb db.next_id (2 ^ 63)) ≡ true
    → db.up ≡ true
runs-up c db h = ground arith

create-Created :
    (c c' : Character) (db : Database)
    → (create_character c db).0 ≡ ok c'
    → Created postgres_store c c' db (create_character c db).1
unfolding create_character insert_character
create-Created c c' db e =
    elim (Bool-cases
      (db.up && storable c.name && storable c.guild_name && ltb db.next_id (2 ^ 63))) [
        | inl runs ↦ rw runs (Created-inserted c c' db (runs-up c db runs) _ refl _ (rw runs at e))
        | inr refused ↦ absurd (ok-ne-err (sym (rw refused at e)))
      ]

create-SameRecords :
    (c : Character) (e : StoreError) (db : Database)
    → (create_character c db).0 ≡ err e
    → SameRecords postgres_store db (create_character c db).1
unfolding create_character insert_character
create-SameRecords c e db h =
    elim (Bool-cases
      (db.up && storable c.name && storable c.guild_name && ltb db.next_id (2 ^ 63))) [
        | inl runs ↦ rw runs (refused-inserted c c db (runs-up c db runs) e _ _ (rw runs at h))
        | inr refused ↦ rw refused (λ j. refl)
      ]

module _ (id map_id x y z dir : ℕ) (db : Database) where
  abbrev moved_to : Character → Character
  moved_to c = record c { map_id = map_id; x = x; y = y; z = z; dir = dir }

  position-Moved :
      (save_position id map_id x y z dir db).0 ≡ ok tt
      → Moved postgres_store id map_id x y z dir db (save_position id map_id x y z dir db).1
  unfolding save_position
  position-Moved e = elim (Bool-cases (not db.up)) [
    | inl down ↦ absurd (ok-ne-err (sym (rw down at e)))
    | inr answers ↦ elim (Bool-cases (any_row (has_id id) db.characters)) [
      | inr missing ↦ absurd (ok-ne-err (sym (rw (answers, missing) at e)))
      | inl there ↦
          let up : db.up ≡ true = ground arith in
          let (c, found, _, _) = row_of-found id db.characters there in
          rw (answers, there)
            (
              c,
              get-eq id db up ∙ found,
              get-eq id _ up ∙ row_of-update_rows id moved_to (λ d. refl) c db.characters found,
              λ j ne.
                  get-eq j _ up
                  ∙ row_of-update_rows_ne id moved_to (λ d. refl) j ne db.characters
                  ∙ sym (get-eq j db up),
            )
    ]
  ]

  position-SameRecords :
      (e : StoreError)
      → (save_position id map_id x y z dir db).0 ≡ err e
      → SameRecords postgres_store db (save_position id map_id x y z dir db).1
  unfolding save_position
  position-SameRecords e h = elim (Bool-cases (not db.up)) [
    | inl down ↦ rw down (λ j. refl)
    | inr answers ↦ elim (Bool-cases (any_row (has_id id) db.characters)) [
      | inr missing ↦ rw (answers, missing) (λ j. refl)
      | inl there ↦ absurd (ok-ne-err (rw (answers, there) at h))
    ]
  ]

list-Memᴰ :
    (account : ℕ) (cs : List Character) (db : Database)
    → IsConsistent db
    → list_characters account db ≡ ok cs
    → (c : Character)
    → Memᴰ c cs ↔ ((get_character c.id db ≡ ok c) × (c.account_id ≡ account) × (c.deleted_time ≡ 0))
unfolding list_characters
list-Memᴰ account cs db h e c = elim (Bool-cases db.up) [
  | inr down ↦ absurd (ok-ne-err (sym (rw down at e)))
  | inl up ↦
      let rows : order_by_slot (select_rows (listed account) db.characters) ≡ cs =
        let e' = rw up at e in cc in
      let (ordered, back) = order_by_slot-Memᴰ c (select_rows (listed account) db.characters) in
      let (selected, select) = select_rows-Memᴰ (listed account) c db.characters in
      (
        λ m.
            let (there, hit) = selected (ordered (subst (Memᴰ c) (sym rows) m)) in
            (
              get-eq c.id db up ∙ row_of-Memᴰ c db.characters h.ids there,
              ground arith,
              ground arith,
            ),
        λ m.
            let found : row_of c.id db.characters ≡ ok c = sym (get-eq c.id db up) ∙ m.0 in
            let there = Memᴰ-row_of c.id c db.characters found in
            subst (Memᴰ c) rows (back (select (there, ground (arith, m.1, m.2)))),
      )
]

list-BySlot :
    (account : ℕ) (cs : List Character) (db : Database)
    → list_characters account db ≡ ok cs
    → BySlot cs
unfolding list_characters
list-BySlot account cs db e = elim (Bool-cases db.up) [
  | inr down ↦ absurd (ok-ne-err (sym (rw down at e)))
  | inl up ↦
      let rows : order_by_slot (select_rows (listed account) db.characters) ≡ cs =
        let e' = rw up at e in cc in
      subst BySlot rows (order_by_slot-BySlot (select_rows (listed account) db.characters))
]

-- The Postgres store keeps the interface's laws while its tables are consistent, which every
-- operation preserves. A created character is the requested one with a fresh id and a creation time,
-- and is then found by its id; a successful SavePosition changes that character's map, position and
-- direction only; all other characters, and all of them after any other operation or a failure, are
-- found as before. A list holds exactly the account's characters that are not deleted, as they are
-- found by their ids, in the order of their slots.
pub postgres_store-IsLawful : IsLawful postgres_store IsConsistent
postgres_store-IsLawful = record {
  upsert_keeps =
      λ id code db h. (upsert_account-IsConsistent id code db h, upsert-SameRecords id code db);
  options_keep = λ id options db h.
      (save_options-IsConsistent id options db h, options-SameRecords id options db);
  create_keeps = create_character-IsConsistent;
  created = λ c c' db h e. create-Created c c' db e;
  refused = λ c e db h. create-SameRecords c e db;
  position_keeps = save_position-IsConsistent;
  moved = λ id map_id x y z dir db h. position-Moved id map_id x y z dir db;
  unmoved = λ id map_id x y z dir e db h. position-SameRecords id map_id x y z dir db e;
  listed = list-Memᴰ;
  ordered = λ account cs db h. list-BySlot account cs db;
}
