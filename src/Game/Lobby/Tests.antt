-- ===== src/Game/Lobby/Tests.antt =====
-- Character creation over the Postgres store, with and without a deleted character.
use rom_server_poc.Prelude.{◌≡◌, ◌≢◌, ◌⊎◌, refl, true, false, some, [], ◌∷◌, arith}
use rom_server_poc.Prelude.Result.{ok, err}
use rom_server_poc.Protocol.Value.{text, empty, entry}
use rom_server_poc.Persist.{Character, slot_taken}
use rom_server_poc.Persist.Postgres.{
  Database, any_row, get_character, list_characters, create_character, postgres_store,
}
use rom_server_poc.Persist.Postgres.Consistent.{IsConsistent}
use rom_server_poc.Persist.Postgres.Lawful.{postgres_store-IsLawful}
use rom_server_poc.Game.Session.{Env, Conn}
use rom_server_poc.Game.Samples.{sample_env, sample_conn, sample_character}
use rom_server_poc.Game.Lobby.{free_slot, handle_create_player}
use rom_server_poc.Game.Lobby.Keeps.{Kept, handle_create_player-Kept}
use rom_server_poc.Game.Lobby.Deleted.{deleted_slot_blocks, create_character-deleted}

-- Account 7 has deleted its character of slot 0.
abbrev deleted_character : Character
deleted_character = record (sample_character 1 0) { deleted_time = 5 }

abbrev tables : Database
tables = record {
  accounts =
      record {
        account_id = 7;
        user_code = 97 ∷ [];
        option_values = 0;
        last_login_at = 0;
        created_at = 0;
      }
      ∷ [];
  characters = deleted_character ∷ [];
  next_id = 2;
  now = 0;
  up = true;
}

tables-IsConsistent : IsConsistent tables
unfolding any_row
tables-IsConsistent = record {
  accounts = (refl, tt);
  drawn = (omega arith, tt);
  ids = (refl, tt);
  slots = (refl, tt);
  names = (refl, tt);
  known = (refl, tt);
}

listed_none : list_characters 7 tables ≡ ok []
unfolding list_characters
listed_none = refl

slot_offered : free_slot [] ≡ some 0
unfolding free_slot
slot_offered = refl

deleted_slot_blocks_example :
    (deleted_character.deleted_time ≢ 0)
    × ((c : Character)
        → c.account_id ≡ 7
        → c.slot_index ≡ 0
        → ((c' : Character) → (create_character c tables).0 ≢ ok c')
          × (list_characters 7 (create_character c tables).1 ≡ ok []))
unfolding get_character
deleted_slot_blocks_example =
    deleted_slot_blocks tables tables-IsConsistent 7 0 [] listed_none slot_offered deleted_character
      refl refl refl

create_refused : (create_character (sample_character 0 0) tables).0 ≡ err slot_taken
unfolding create_character
create_refused = refl

create_character-deleted_example :
    (d : Character) × (get_character d.id tables ≡ ok d)
    × (d.account_id ≡ 7)
    × (d.slot_index ≡ 0)
    × ((get_character d.id tables ≢ ok d) ⊎ (d.deleted_time ≢ 0))
create_character-deleted_example =
    create_character-deleted tables tables-IsConsistent 7 0 [] listed_none slot_offered tables
      (sample_character 0 0) tables-IsConsistent refl refl create_refused

abbrev postgres_env : Env Database
postgres_env = record {
  validate = sample_env.validate;
  store = postgres_store;
  protocol_ver = sample_env.protocol_ver;
  world_id = sample_env.world_id;
  now_seconds = sample_env.now_seconds;
  now_milli = sample_env.now_milli;
  now_nano = sample_env.now_nano;
  random = sample_env.random;
  context = record { cancelled = false; gives_up = false };
  others = λ db. db;
  writes = λ name. true;
  floats = sample_env.floats;
  catalog = sample_env.catalog;
  fuel = sample_env.fuel;
}

abbrev postgres_conn : Conn Database
postgres_conn = record {
  account_id = sample_conn.account_id;
  account_code = sample_conn.account_code;
  authed = true;
  character = sample_conn.character;
  player_oid = sample_conn.player_oid;
  warp_token = sample_conn.warp_token;
  in_world = sample_conn.in_world;
  conn_id = sample_conn.conn_id;
  socket_uid = sample_conn.socket_uid;
  connection_key = sample_conn.connection_key;
  link_up = true;
  db = tables;
  sent = [];
  commands = [];
}

handle_create_player-Kept_example :
    IsConsistent
      (handle_create_player postgres_env (entry "m_name" (text (66 ∷ [])) empty) postgres_conn).1.db
    × Kept postgres_env
        (entry "m_name" (text (66 ∷ [])) empty)
        postgres_conn
        (handle_create_player postgres_env
          (entry "m_name" (text (66 ∷ [])) empty)
          postgres_conn).1.db
handle_create_player-Kept_example =
    handle_create_player-Kept postgres_env IsConsistent postgres_store-IsLawful (λ db inv. inv)
      (entry "m_name" (text (66 ∷ [])) empty) postgres_conn tables-IsConsistent
