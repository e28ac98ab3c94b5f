-- ===== src/Game/Handler.antt =====
-- internal/game/handler.go: the login, the dispatch of messages and the life of a connection.
pub mod Keeps
pub mod Life
pub mod Sound
pub mod Switch
use rom_server_poc.Prelude.{
  ℕ, ◌%◌, ◌^◌, Bool, true, false, Option, none, some, List, [], ◌∷◌, ◌++◌, ◌==◌, ◌&&◌, ◌||◌, not,
  if◌then◌else◌, String, str_eq,
}
use rom_server_poc.Prelude.Result.{Result, ok, err}
use rom_server_poc.Protocol.Catalog.{Message}
use rom_server_poc.Protocol.Value.{Value, num, int64, text, Values, get, put}
use rom_server_poc.Persist.{StoreError, Character, Store}
use rom_server_poc.World.{leave}
use rom_server_poc.Game.Session.{
  AuthSession, AuthError, Env, Context, Conn, Action, HandlerError, enqueued, identifiers_mismatch,
  version_mismatch, before_login, pure, raise, ◌>>=◌, ◌>>◌, modify, send, zeroed, as_int64,
  as_string, to_int32,
}
use rom_server_poc.Game.Lobby.{
  wide32, handle_set_options, handle_waiting_user_count, handle_player_list, handle_create_player,
  handle_logout,
}
use rom_server_poc.Game.Enter.{
  handle_enter_world, handle_map_enter, handle_map_enter_pre_complete, handle_map_enter_complete,
  handle_player_load_first_call,
}

abbrev pub result_ok : ℕ
result_ok = 0

abbrev pub result_auth_failed : ℕ
result_auth_failed = 1

module _ {S : Type 0} (env : Env S) where
  abbrev pub version_reply : ℕ → Values → Values
  version_reply client_ver reply = put "m_serverTick" (num int64 env.now_nano) (
      put "m_serverTime" (num int64 env.now_milli) (
        put "m_utcTimeOffset" (num int64 0) (
          put "m_serverID" (num int64 env.world_id)
            (put "m_protocolVer" (num int64 client_ver) reply))))

  unfoldable pub handle_version_check : Values → Action S (Unit {0})
  unfolding get put zeroed send
  handle_version_check vs s =
      let socket_uid = as_int64 (get "m_socketUID" vs) in
      let connection_key = as_int64 (get "m_connectionKey" vs) in
      let client_ver = as_int64 (get "m_protocolVer" vs) in
      if not (socket_uid == s.socket_uid) || not (connection_key == s.connection_key)
      then raise identifiers_mismatch s
      else if not (env.protocol_ver == 0) && not (to_int32 client_ver == env.protocol_ver)
      then raise version_mismatch s
      else (do
        reply ← zeroed env "S2C_VersionCheck"
        send env "S2C_VersionCheck" (version_reply client_ver reply))
          s

  unfoldable pub send_login_result : List ℕ → ℕ → ℕ → Action S (Unit {0})
  unfolding put zeroed send
  send_login_result account_code session_key result = do
    reply ← zeroed env "S2C_SessionAuthLogin"
    send env "S2C_SessionAuthLogin" (
        put "m_sessionKey" (num int64 (wide32 session_key))
          (put "m_accountCode" (text account_code) (put "m_result" (num int64 result) reply)))

  abbrev pub bind_account : AuthSession → Conn S → Conn S
  bind_account session s = record s {
    account_id = session.account_id;
    account_code = session.user_code;
    authed = true;
  }

  abbrev pub upserted :
      List ℕ → ℕ → AuthSession → Result StoreError (Unit {0}) → Action S (Unit {0})
  upserted account_code session_key session (err e) =
      send_login_result account_code session_key result_auth_failed
  upserted account_code session_key session (ok _) = do
    modify (bind_account session)
    send_login_result account_code session_key result_ok

  abbrev pub validated : List ℕ → ℕ → Result AuthError AuthSession → Action S (Unit {0})
  validated account_code session_key (err e) s =
      send_login_result account_code session_key result_auth_failed s
  validated account_code session_key (ok session) s =
      if not (session.world_id == env.world_id)
      then send_login_result account_code session_key result_auth_failed s
      else (let (saved, db) = env.store.upsert_account session.account_id session.user_code s.db in
          upserted account_code session_key session saved (record s { db = db }))

  unfoldable pub handle_login : Values → Action S (Unit {0})
  unfolding get send_login_result
  handle_login vs =
      let account_code = as_string (get "m_accountCode" vs) in
      let session_key = to_int32 (as_int64 (get "m_sessionKey" vs)) in
      validated account_code session_key (env.validate session_key account_code)

  -- The second switch of dispatch.
  unfoldable pub dispatch_authed : String → Values → Action S (Unit {0})
  unfolding handle_set_options handle_waiting_user_count handle_player_list handle_create_player
      handle_logout handle_enter_world handle_map_enter handle_map_enter_pre_complete
      handle_map_enter_complete handle_player_load_first_call
  dispatch_authed name vs s =
      if str_eq name "C2S_SetOptions"
      then handle_set_options env vs s
      else if str_eq name "C2S_WaitingUserCount"
      then handle_waiting_user_count env s
      else if str_eq name "C2S_PlayerList"
      then handle_player_list env s
      else if str_eq name "C2S_CreatePlayer"
      then handle_create_player env vs s
      else if str_eq name "C2S_EnterWorld"
      then handle_enter_world env vs s
      else if str_eq name "C2S_MapEnter"
      then handle_map_enter env vs s
      else if str_eq name "C2S_MapEnterPreComplete"
      then handle_map_enter_pre_complete env s
      else if str_eq name "C2S_MapEnterComplete"
      then handle_map_enter_complete env s
      else if str_eq name "C2S_PlayerLoadFirstCall"
      then handle_player_load_first_call env s
      else if str_eq name "C2S_Logout"
      then handle_logout env s
      else pure tt s

  unfoldable pub dispatch : Message → Values → Action S (Unit {0})
  unfolding handle_version_check handle_login dispatch_authed
  dispatch msg vs s =
      if str_eq msg.name "C2S_VersionCheck"
      then handle_version_check vs s
      else if str_eq msg.name "C2S_SessionAuthLogin"
      then handle_login vs s
      else if not s.authed
      then raise (before_login msg.name) s
      else dispatch_authed msg.name vs s

-- What the loop of Serve meets: a message, a frame of an unknown opcode, or the end (an error of
-- Recv or the context's end). Each message comes with what the handler reads of its surroundings.
-- `stored` is what other connections do to the store in between.
pub data Event (S : Type 0) : Type 0 where
  message : Env S → Message → Values → Event S
  stored : (S → S) → Event S
  unknown_opcode : Event S
  ended : Event S

module _ {S : Type 0} where
  unfoldable pub serve_loop : List (Event S) → Conn S → Conn S
  unfolding dispatch
  serve_loop [] s = s
  serve_loop (ended ∷ events) s = s
  serve_loop (stored others ∷ events) s = serve_loop events (record s { db = others s.db })
  serve_loop (unknown_opcode ∷ events) s = serve_loop events s
  serve_loop (message env msg vs ∷ events) s =
      let (r, s') = dispatch env msg vs s in elim r [ ok _ ↦ serve_loop events s' | err e ↦ s' ]

  abbrev pub leave_as : Context → Bool → Option Character → Conn S → Conn S
  leave_as ctx true (some c) s = record s {
    commands = enqueued ctx (leave c.id) s.commands;
    link_up = false;
  }
  leave_as ctx true none s = record s { link_up = false }
  leave_as ctx false o s = record s { link_up = false }

  -- The deferred function.
  unfoldable pub close : Context → Conn S → Conn S
  close ctx s = leave_as ctx s.in_world s.character s

  -- `ctx` is the context as the deferred function meets it.
  unfoldable pub serve : Context → List (Event S) → Conn S → Conn S
  unfolding serve_loop close
  serve ctx events s = close ctx (serve_loop events s)
