-- ===== src/Game/Samples.antt =====
-- A small store and its surroundings, for concrete runs of the handlers.
use rom_server_poc.Prelude.{ℕ, ◌==◌, true, false, none, some, List, [], ◌∷◌, if◌then◌else◌}
use rom_server_poc.Prelude.Result.{Result, ok, err}
use rom_server_poc.Protocol.Samples.{sample_floats}
use rom_server_poc.Protocol.Messages.{server_catalog}
use rom_server_poc.Persist.{not_found, Character, Store}
use rom_server_poc.Game.Session.{AuthSession, AuthError, auth_failed, Env, Conn}

abbrev pub sample_character : ℕ → ℕ → Character
sample_character id slot = record {
  id = id;
  account_id = 7;
  slot_index = slot;
  name = 65 ∷ 110 ∷ 110 ∷ [];
  class_type = 2;
  sub_class_type = 0;
  head_type = 1;
  level = 1;
  exp = 0;
  real_power = 0;
  map_id = 501;
  equip_costume_index = 0;
  equip_costume_step_up = 0;
  weapon_item_index = 0;
  weapon_enchant = 0;
  guild_name = [];
  latest_login_time = 0;
  latest_logout_time = 0;
  deleted_time = 0;
  x = 0;
  y = 0;
  z = 0;
  dir = 0;
  created_at = 0;
}

-- A store of the characters of one account.
abbrev pub sample_store : Store (List Character)
sample_store = record {
  upsert_account = λ account code db. (ok tt, db);
  save_options = λ account options db. (ok tt, db);
  list_characters = λ account db. ok db;
  get_character = λ id db. err not_found;
  create_character = λ c db. (ok c, c ∷ db);
  save_position = λ id m x y z dir db. (ok tt, db);
}

-- The region service knows the key 5, of account 7 in world 1.
abbrev pub sample_validate : ℕ → List ℕ → Result AuthError AuthSession
sample_validate key code =
    if key == 5
    then ok (record { account_id = 7; user_code = code; world_id = 1 })
    else err auth_failed

abbrev pub sample_env : Env (List Character)
sample_env = record {
  validate = sample_validate;
  store = sample_store;
  protocol_ver = 0;
  world_id = 1;
  now_seconds = 1000;
  now_milli = 1000000;
  now_nano = 1000000000;
  random = some (9 ∷ 0 ∷ 0 ∷ 0 ∷ 0 ∷ 0 ∷ 0 ∷ 0 ∷ []);
  context = record { cancelled = false; gives_up = false };
  others = λ db. db;
  writes = λ name. true;
  floats = sample_floats;
  catalog = server_catalog;
  fuel = 8;
}

abbrev pub sample_conn : Conn (List Character)
sample_conn = record {
  account_id = 0;
  account_code = [];
  authed = false;
  character = none;
  player_oid = 0;
  warp_token = 0;
  in_world = false;
  conn_id = 1;
  socket_uid = 11;
  connection_key = 12;
  link_up = true;
  db = sample_character 30 0 ∷ [];
  sent = [];
  commands = [];
}
