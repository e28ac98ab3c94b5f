-- ===== src/Persist/Tests.antt =====
-- Concrete tables: two accounts' rows, a taken slot, a taken name and a deleted character.
use rom_server_poc.Prelude.{ℕ, ◌≡◌, refl, List, [], ◌∷◌}
use rom_server_poc.Prelude.Result.{ok, err}
use rom_server_poc.Persist.{Character, not_found, name_taken, slot_taken, other}
use rom_server_poc.Persist.Postgres.{Database, upsert_account, create_character, save_options}
use rom_server_poc.Persist.Postgres.Consistent.{IsConsistent}
use rom_server_poc.Persist.Postgres.Run.{
  empty_tables, start, then_change, upserted, created, Reach-IsConsistent,
}

abbrev anna : ℕ → ℕ → List ℕ → Character
anna account slot name = record {
  id = 0;
  account_id = account;
  slot_index = slot;
  name = name;
  class_type = 2;
  sub_class_type = 0;
  head_type = 1;
  level = 1;
  exp = 0;
  real_power = 0;
  map_id = 501;
  equip_costume_index = 0;
  equip_costume_step_up = 0;
  weapon_item_index = 0;
  weapon_enchant = 0;
  guild_name = [];
  latest_login_time = 0;
  latest_logout_time = 0;
  deleted_time = 0;
  x = 0;
  y = 0;
  z = 0;
  dir = 0;
  created_at = 0;
}

abbrev with_account : Database
with_account = (upsert_account 7 (97 ∷ []) empty_tables).1

abbrev with_character : Database
with_character = (create_character (anna 7 0 (65 ∷ [])) with_account).1

create_taken_slot : (create_character (anna 7 0 (66 ∷ [])) with_character).0 ≡ err slot_taken
unfolding create_character upsert_account
create_taken_slot = refl

create_taken_name : (create_character (anna 7 1 (65 ∷ [])) with_character).0 ≡ err name_taken
unfolding create_character upsert_account
create_taken_name = refl

-- No account 8: the foreign key.
create_orphan : (create_character (anna 8 1 (66 ∷ [])) with_character).0 ≡ err other
unfolding create_character upsert_account
create_orphan = refl

-- The refused rows have drawn numbers from the sequence.
create_after_refusal :
    (create_character
      (anna 7 1 (66 ∷ []))
      (create_character (anna 7 0 (66 ∷ [])) with_character).1).0
    ≡ ok (record (anna 7 1 (66 ∷ [])) { id = 3 })
unfolding create_character upsert_account
create_after_refusal = refl

options_missing : (save_options 9 1 with_account).0 ≡ err not_found
unfolding save_options upsert_account
options_missing = refl

Reach-IsConsistent_example : IsConsistent with_character
Reach-IsConsistent_example = Reach-IsConsistent (
    then_change (then_change start (upserted 7 (97 ∷ []) empty_tables))
      (created (anna 7 0 (65 ∷ [])) with_account))
