-- ===== src/Game/Enter.antt =====
-- internal/game/enter.go: entering the world.
pub mod Chosen
pub mod Token
use rom_server_poc.Prelude.{
  ℕ, ◌+◌, ◌*◌, ◌%◌, ◌^◌, Bool, true, false, Option, none, some, List, [], ◌∷◌, ◌++◌, ◌==◌, not,
  if◌then◌else◌, String,
}
use rom_server_poc.Prelude.Bytes.{from_le}
use rom_server_poc.Prelude.Result.{Result, ok, err}
use rom_server_poc.Protocol.Value.{
  Value, num, int64, uint64, float64, bool, text, values, Values, empty, entry, get, put,
}
use rom_server_poc.Protocol.Primitives.{Floats}
use rom_server_poc.Persist.{Character, Store}
use rom_server_poc.World.{Player, Command, join}
use rom_server_poc.Game.Session.{
  Env, Conn, Action, HandlerError, random_failed, token_mismatch, before_enter, pure, raise,
  lift_store, enqueued, ◌>>=◌, ◌>>◌, modify, send, zeroed, as_int64, as_uint64, to_int32,
  update_struct,
}
use rom_server_poc.Game.Lobby.{wide32}

abbrev pub enter_result_ok : ℕ
enter_result_ok = 0

abbrev pub enter_result_no_char : ℕ
enter_result_no_char = 50101

abbrev pub map_layer_index : ℕ
map_layer_index = 1

abbrev pub oid_world_multiplier : ℕ
oid_world_multiplier = 1000000000

-- The loop that looks for the slot.
unfoldable pub chosen : ℕ → List Character → Option Character
chosen slot [] = none
chosen slot (c ∷ cs) = if wide32 c.slot_index == slot then some c else chosen slot cs

abbrev pub nonzero : ℕ → ℕ
nonzero token = if token == 0 then 1 else token

-- `random` is what the random source fills the buffer with.
unfoldable pub new_warp_token : Option (List ℕ) → Result HandlerError ℕ
new_warp_token none = err random_failed
new_warp_token (some buf) = ok (nonzero (from_le buf))

-- `pos["m_x"] = float64(x)` and the other two.
unfoldable pub place : Floats → ℕ → ℕ → ℕ → Values → Values
unfolding put
place fl x y z pos =
    put "m_z" (float64 (fl.widen z))
      (put "m_y" (float64 (fl.widen y)) (put "m_x" (float64 (fl.widen x)) pos))

unfoldable pub fill_my_player_info : Floats → ℕ → Character → ℕ → Values → Values
unfolding put place update_struct
fill_my_player_info fl world c oid info = update_struct "m_pos" (place fl c.x c.y c.z) (
    put "m_useWorldAuction" (bool true) (
      put "m_dir" (float64 (fl.widen c.dir)) (
        put "m_mapIndex" (num int64 (wide32 c.map_id)) (
          put "m_exp" (num int64 c.exp) (
            put "m_level" (num int64 (wide32 c.level)) (
              put "m_headIndex" (num int64 (wide32 c.head_type)) (
                put "m_subClass" (num uint64 (wide32 c.sub_class_type)) (
                  put "m_class" (num uint64 (wide32 c.class_type)) (
                    put "m_name" (text c.name) (
                      put "m_worldID" (num int64 world) (put "m_OID" (num int64 oid) info)))))))))))

module _ {S : Type 0} (env : Env S) where
  unfoldable pub send_enter_world_result : ℕ → ℕ → Action S (Unit {0})
  unfolding zeroed send put
  send_enter_world_result result slot = do
    reply ← zeroed env "S2C_EnterWorld"
    send env "S2C_EnterWorld" (
        put "m_playerSlotIndex" (num uint64 (wide32 slot))
          (put "m_result" (num int64 result) reply))

  unfoldable pub send_enter_world_complete : Character → Action S (Unit {0})
  unfolding zeroed send put update_struct fill_my_player_info
  send_enter_world_complete c s =
      (do
        reply ← zeroed env "S2C_EnterWorldComplete"
        send env "S2C_EnterWorldComplete" (
            update_struct "m_myPlayerInfo"
              (fill_my_player_info env.floats env.world_id c s.player_oid)
              (put "m_warpToken" (num int64 s.warp_token)
                (put "m_result" (num int64 enter_result_ok) reply))))
        s

  -- `int64(h.WorldID)*oidWorldMultiplier + chosen.ID`, which wraps at 64 bits.
  abbrev pub player_oid_of : Character → ℕ
  player_oid_of c = (env.world_id * oid_world_multiplier + c.id) % 2 ^ 64

  abbrev pub player_of : Character → Conn S → Player
  player_of c s = record {
    oid = player_oid_of c;
    character_id = c.id;
    account_id = s.account_id;
    name = c.name;
    map_id = c.map_id;
    x = c.x;
    y = c.y;
    z = c.z;
    dir = c.dir;
    conn = s.conn_id;
  }

  -- The assignments to the session, and World.Join.
  abbrev pub admit : Character → ℕ → Conn S → Conn S
  admit c token s = record s {
    character = some c;
    player_oid = player_oid_of c;
    warp_token = token;
    in_world = true;
    commands = enqueued env.context (join (player_of c s)) s.commands;
  }

  abbrev pub enter_as : ℕ → Option Character → Action S (Unit {0})
  enter_as slot none = send_enter_world_result enter_result_no_char (to_int32 slot)
  enter_as slot (some c) = do
    token ← λ s. (new_warp_token env.random, s)
    modify (admit c token)
    send_enter_world_result enter_result_ok c.slot_index
    send_enter_world_complete c

  unfoldable pub handle_enter_world : Values → Action S (Unit {0})
  unfolding get chosen new_warp_token send_enter_world_result send_enter_world_complete
  handle_enter_world vs s =
      let slot = as_uint64 (get "m_playerSlotIndex" vs) in
      (do
        characters ← lift_store (env.store.list_characters s.account_id s.db)
        enter_as slot (chosen slot characters))
        s

  abbrev pub map_enter_reply : Character → Values → Values
  map_enter_reply c reply = update_struct "m_startPos" (place env.floats c.x c.y c.z) (
      put "m_serverTick" (num int64 env.now_nano) (
        put "m_serverID" (num int64 env.world_id) (
          put "m_dir" (float64 (env.floats.widen c.dir)) (
            put "m_layerIndex" (num int64 map_layer_index) (
              put "m_mapIndex" (num int64 (wide32 c.map_id))
                (put "m_result" (num int64 enter_result_ok) reply))))))

  -- A map other than the character's is only logged.
  abbrev pub map_enter_as : ℕ → Option Character → Action S (Unit {0})
  map_enter_as token none s = raise before_enter s
  map_enter_as token (some c) s =
      if not (token == s.warp_token)
      then raise token_mismatch s
      else (do reply ← zeroed env "S2C_MapEnter"; send env "S2C_MapEnter" (map_enter_reply c reply))
          s

  unfoldable pub handle_map_enter : Values → Action S (Unit {0})
  unfolding zeroed send put get place update_struct
  handle_map_enter vs s = map_enter_as (as_int64 (get "m_warpToken" vs)) s.character s

  unfoldable pub handle_map_enter_pre_complete : Action S (Unit {0})
  unfolding zeroed send
  handle_map_enter_pre_complete = do
    reply ← zeroed env "S2C_MapEnterPreComplete"
    send env "S2C_MapEnterPreComplete" reply

  abbrev pub complete_as : Option Character → Action S (Unit {0})
  complete_as none s = raise before_enter s
  complete_as (some c) s =
      (do
        reply ← zeroed env "S2C_MapEnterComplete"
        send env "S2C_MapEnterComplete" (
            put "m_playerOID" (num int64 s.player_oid)
              (put "m_result" (num int64 enter_result_ok) reply)))
        s

  unfoldable pub handle_map_enter_complete : Action S (Unit {0})
  unfolding zeroed send put
  handle_map_enter_complete s = complete_as s.character s

  unfoldable pub handle_player_load_first_call : Action S (Unit {0})
  unfolding zeroed send put
  handle_player_load_first_call = do
    reply ← zeroed env "S2C_PlayerLoadFirstCall"
    send env "S2C_PlayerLoadFirstCall" (put "m_result" (num int64 enter_result_ok) reply)
