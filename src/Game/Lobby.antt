-- ===== src/Game/Lobby.antt =====
-- internal/game/lobby.go: the character-select screen.
pub mod Slots
pub mod Create
pub mod Keeps
pub mod Deleted
mod Tests
use rom_server_poc.Prelude.{
  ℕ, zero, suc, ◌+◌, ◌%◌, ◌^◌, ◌*◌, Bool, true, false, ◌||◌, ◌&&◌, Option, none, some, List, [],
  ◌∷◌, ◌==◌, if◌then◌else◌, ltb, leb, length, map, String,
}
unfoldable pub use rom_server_poc.Prelude.Text.{trim_space}
use rom_server_poc.Prelude.Result.{Result, ok, err}
use rom_server_poc.Protocol.Value.{
  Value, num, int64, uint64, bool, text, items, values, Items, end, item, Values, empty, entry, get,
  put,
}
use rom_server_poc.Protocol.Primitives.{sign_extend}
use rom_server_poc.Persist.{StoreError, name_taken, slot_taken, not_found, other, Character, Store}
use rom_server_poc.Game.Session.{
  Env, Conn, Action, HandlerError, store_failed, pure, raise, lift_store, ◌>>=◌, ◌>>◌, modify, send,
  zeroed, as_uint64, as_string, to_int32,
}

abbrev pub max_character_slots : ℕ
max_character_slots = 3

abbrev pub min_name_len : ℕ
min_name_len = 1

abbrev pub max_name_len : ℕ
max_name_len = 16

abbrev pub create_result_ok : ℕ
create_result_ok = 0

abbrev pub create_result_invalid_name : ℕ
create_result_invalid_name = 26

abbrev pub create_result_dup_name : ℕ
create_result_dup_name = 50102

abbrev pub create_result_no_free_slot : ℕ
create_result_no_free_slot = 55001

abbrev pub default_start_map : ℕ
default_start_map = 501

-- `startMaps` has the one entry 2 ↦ 501.
unfoldable pub start_map_for_class : ℕ → ℕ
start_map_for_class class_type = if class_type == 2 then 501 else default_start_map

-- `used[slot]`
unfoldable pub slot_used : ℕ → List Character → Bool
slot_used slot [] = false
slot_used slot (c ∷ cs) = c.slot_index == slot || slot_used slot cs

-- The loop of freeSlot, from `slot`.
unfoldable pub first_free : ℕ → ℕ → List Character → Option ℕ
unfolding slot_used
first_free zero slot cs = none
first_free (suc left) slot cs =
    let rest = first_free left (slot + 1) cs in if slot_used slot cs then rest else some slot

unfoldable pub free_slot : List Character → Option ℕ
unfolding first_free
free_slot cs = first_free max_character_slots 0 cs

-- An int32 as int64 and as uint64: the conversion extends the sign.
abbrev pub wide32 : ℕ → ℕ
wide32 = sign_extend 32

unfoldable pub to_lobby_player_info : Character → Values
to_lobby_player_info c = entry "m_slotIndex" (num uint64 (wide32 c.slot_index)) (
    entry "m_classType" (num uint64 (wide32 c.class_type)) (
      entry "m_subClassType" (num uint64 (wide32 c.sub_class_type)) (
        entry "m_name" (text c.name) (
          entry "m_headType" (num uint64 (wide32 c.head_type)) (
            entry "m_equipCostumeIndex" (num int64 (wide32 c.equip_costume_index)) (
              entry "m_equipCostumeStepUp" (num uint64 (wide32 c.equip_costume_step_up)) (
                entry "m_weaponItemIndex" (num int64 (wide32 c.weapon_item_index)) (
                  entry "m_weaponEnchant" (num uint64 (wide32 c.weapon_enchant)) (
                    entry "m_level" (num int64 (wide32 c.level)) (
                      entry "m_exp" (num int64 c.exp) (
                        entry "m_realPower" (num int64 (wide32 c.real_power)) (
                          entry "m_mapIndex" (num int64 (wide32 c.map_id)) (
                            entry "m_latestLoginTime" (num int64 c.latest_login_time) (
                              entry "m_latestLogoutTime" (num int64 c.latest_logout_time) (
                                entry "m_deletedTime" (num int64 c.deleted_time) (
                                  entry "m_createdTime" (num int64 c.created_at)
                                    (entry "m_guildName" (text c.guild_name) empty)))))))))))))))))

-- `length < minNameLen || length > maxNameLen`
abbrev pub bad_name : List ℕ → Bool
bad_name name = ltb (length name) min_name_len || ltb max_name_len (length name)

module _ {S : Type 0} (env : Env S) where
  -- A storage failure is logged, and the reply is none either way.
  unfoldable pub handle_set_options : Values → Action S (Unit {0})
  unfolding get
  handle_set_options vs s =
      let options = as_uint64 (get "m_optionValues" vs) % 2 ^ 32 in
      let (saved, db) = env.store.save_options s.account_id options s.db in
      (ok tt, record s { db = db })

  unfoldable pub handle_waiting_user_count : Action S (Unit {0})
  unfolding zeroed send put
  handle_waiting_user_count = do
    reply ← zeroed env "S2C_WaitingUserCount"
    send env "S2C_WaitingUserCount" (put "m_nowServerTime" (num int64 env.now_seconds) reply)

  unfoldable pub players_of : List Character → Items
  unfolding to_lobby_player_info
  players_of [] = end
  players_of (c ∷ cs) = item (values (to_lobby_player_info c)) (players_of cs)

  abbrev pub player_list_reply : List Character → Values → Values
  player_list_reply characters reply = put "m_enableStoarge" (bool false) (
      put "m_playerList" (items (players_of characters))
        (put "m_maxSlotCount" (num uint64 max_character_slots) reply))

  unfoldable pub handle_player_list : Action S (Unit {0})
  unfolding zeroed send put players_of
  handle_player_list s =
      (do
        characters ← lift_store (env.store.list_characters s.account_id s.db)
        reply ← zeroed env "S2C_PlayerList"
        send env "S2C_PlayerList" (player_list_reply characters reply))
        s

  abbrev with_player : Option Values → Values → Values
  with_player none reply = reply
  with_player (some player) reply = put "m_player" (values player) reply

  unfoldable pub send_create_result : ℕ → Option Values → Action S (Unit {0})
  unfolding zeroed send put
  send_create_result result player = do
    reply ← zeroed env "S2C_CreatePlayer"
    send env "S2C_CreatePlayer" (with_player player (put "m_result" (num int64 result) reply))

  -- The character that handleCreatePlayer asks the store for; the other fields are zero.
  abbrev pub requested : ℕ → ℕ → List ℕ → ℕ → ℕ → Character
  requested account slot name class_type head_type = record {
    id = 0;
    account_id = account;
    slot_index = slot;
    name = name;
    class_type = to_int32 class_type;
    sub_class_type = 0;
    head_type = to_int32 head_type;
    level = 1;
    exp = 0;
    real_power = 0;
    map_id = start_map_for_class (to_int32 class_type);
    equip_costume_index = 0;
    equip_costume_step_up = 0;
    weapon_item_index = 0;
    weapon_enchant = 0;
    guild_name = [];
    latest_login_time = 0;
    latest_logout_time = 0;
    deleted_time = 0;
    x = 0;
    y = 0;
    z = 0;
    dir = 0;
    created_at = 0;
  }

  abbrev pub answer_created : Result StoreError Character → Action S (Unit {0})
  answer_created (ok created) =
      send_create_result create_result_ok (some (to_lobby_player_info created))
  answer_created (err name_taken) = send_create_result create_result_dup_name none
  answer_created (err slot_taken) = send_create_result create_result_no_free_slot none
  answer_created (err not_found) = raise (store_failed not_found)
  answer_created (err other) = raise (store_failed other)

  abbrev pub create_in_slot : List ℕ → ℕ → ℕ → Option ℕ → Action S (Unit {0})
  create_in_slot name class_type head_type none s =
      send_create_result create_result_no_free_slot none s
  create_in_slot name class_type head_type (some slot) s =
      let (created, db) =
        env.store.create_character (requested s.account_id slot name class_type head_type)
          (env.others s.db) in
      answer_created created (record s { db = db })

  unfoldable pub handle_create_player : Values → Action S (Unit {0})
  unfolding get send_create_result trim_space free_slot start_map_for_class to_lobby_player_info
  handle_create_player vs s =
      let name = trim_space (as_string (get "m_name" vs)) in
      let class_type = as_uint64 (get "m_classType" vs) in
      let head_type = as_uint64 (get "m_headType" vs) in
      if bad_name name
      then send_create_result create_result_invalid_name none s
      else (do
        characters ← lift_store (env.store.list_characters s.account_id s.db)
        create_in_slot name class_type head_type (free_slot characters))
          s

  unfoldable pub handle_logout : Action S (Unit {0})
  unfolding zeroed send
  handle_logout = do reply ← zeroed env "S2C_Logout"; send env "S2C_Logout" reply
