-- ===== src/Game/Handler/Keeps.antt =====
-- The handlers that only answer: what they leave of the session as it was.
use Prim.Native.String.{String}
use rom_server_poc.Prelude.{
  ℕ, ◌≡◌, refl, ◌∙◌, Bool, true, false, Option, none, some, List, ◌==◌, not, ◌||◌, ◌&&◌,
  if◌then◌else◌,
}
use rom_server_poc.Prelude.Result.{Result, ok, err}
use rom_server_poc.Protocol.Primitives.{CodecError}
use rom_server_poc.Protocol.Codec.{encode}
use rom_server_poc.Protocol.Zero.{zero_values}
use rom_server_poc.Protocol.Value.{Values, get}
use rom_server_poc.Persist.{StoreError, name_taken, slot_taken, not_found, other, Character}
use rom_server_poc.World.{Command}
use rom_server_poc.Game.Session.{
  Env, Conn, Action, HandlerError, continue, lift_codec, lift_store, written, ◌>>=◌, send, zeroed,
  as_int64, as_string, to_int32,
}
use rom_server_poc.Game.Lobby.{
  handle_set_options, handle_waiting_user_count, handle_player_list, handle_create_player,
  handle_logout, send_create_result, answer_created, create_in_slot, bad_name, trim_space,
  requested, player_list_reply, free_slot, to_lobby_player_info,
}
use rom_server_poc.Game.Enter.{
  handle_map_enter, handle_map_enter_pre_complete, handle_map_enter_complete,
  handle_player_load_first_call, map_enter_as, complete_as, map_enter_reply,
  send_enter_world_result, send_enter_world_complete,
}
use rom_server_poc.Game.Handler.{handle_version_check, version_reply, send_login_result}

-- The session, less what a reply changes: the messages sent and the store.
pub record View : Type 0 where
  pub account_id : ℕ
  pub account_code : List ℕ
  pub authed : Bool
  pub character : Option Character
  pub player_oid : ℕ
  pub warp_token : ℕ
  pub in_world : Bool
  pub conn_id : ℕ
  pub socket_uid : ℕ
  pub connection_key : ℕ
  pub link_up : Bool
  pub commands : List Command

module _ {S : Type 0} where
  unfoldable pub view : Conn S → View
  view s = record {
    account_id = s.account_id;
    account_code = s.account_code;
    authed = s.authed;
    character = s.character;
    player_oid = s.player_oid;
    warp_token = s.warp_token;
    in_world = s.in_world;
    conn_id = s.conn_id;
    socket_uid = s.socket_uid;
    connection_key = s.connection_key;
    link_up = s.link_up;
    commands = s.commands;
  }

  abbrev pub Keeps : {A : Type 0} → Action S A → Type 0
  Keeps m = (s : Conn S) → view (m s).1 ≡ view s

  pub if-Keeps :
      {A : Type 0} (b : Bool) (x y : Result HandlerError A × Conn S) (v : View)
      → view x.1 ≡ v
      → view y.1 ≡ v
      → view (if b then x else y).1 ≡ v
  if-Keeps true x y v hx hy = hx
  if-Keeps false x y v hx hy = hy

  continue-Keeps :
      {A B : Type 0} (r : Result HandlerError A) (f : A → Action S B) (s : Conn S)
      → ((a : A) → Keeps (f a))
      → view (continue r f s).1 ≡ view s
  continue-Keeps (ok a) f s k = k a s
  continue-Keeps (err e) f s k = refl

  pub bind-Keeps :
      {A B : Type 0} (m : Action S A) (f : A → Action S B)
      → Keeps m
      → ((a : A) → Keeps (f a))
      → Keeps (m >>= f)
  bind-Keeps m f hm hf s = continue-Keeps (m s).0 f (m s).1 hf ∙ hm s

  lift_codec-Keeps : {A : Type 0} (r : Result CodecError A) → Keeps (lift_codec {S = S} r)
  lift_codec-Keeps (ok a) s = refl
  lift_codec-Keeps (err e) s = refl

  pub lift_store-Keeps : {A : Type 0} (r : Result StoreError A) → Keeps (lift_store {S = S} r)
  lift_store-Keeps (ok a) s = refl
  lift_store-Keeps (err e) s = refl

  written-Keeps : (up : Bool) (name : String) (vs : Values) → Keeps (written up name vs)
  unfolding view
  written-Keeps true name vs s = refl
  written-Keeps false name vs s = refl

  module _ (env : Env S) where
    pub send-Keeps : (name : String) (vs : Values) → Keeps (send env name vs)
    unfolding send
    send-Keeps name vs s =
        continue-Keeps (lift_codec (encode env.floats env.catalog env.fuel name vs) s).0
          (λ _. written (s.link_up && env.writes name) name vs) s
          (λ _. written-Keeps (s.link_up && env.writes name) name vs)

    pub zeroed-Keeps : (name : String) → Keeps (zeroed env name)
    unfolding zeroed
    zeroed-Keeps name = lift_codec-Keeps (zero_values env.catalog env.fuel name)

    -- Most handlers answer with a zeroed message in which they set some fields.
    pub reply-Keeps :
        (name : String) (f : Values → Values)
        → Keeps (zeroed env name >>= λ reply. send env name (f reply))
    reply-Keeps name f =
        bind-Keeps (zeroed env name) (λ reply. send env name (f reply)) (zeroed-Keeps name)
          (λ reply. send-Keeps name (f reply))

    pub handle_waiting_user_count-Keeps : Keeps (handle_waiting_user_count env)
    unfolding handle_waiting_user_count
    handle_waiting_user_count-Keeps = reply-Keeps "S2C_WaitingUserCount" _

    pub handle_logout-Keeps : Keeps (handle_logout env)
    unfolding handle_logout
    handle_logout-Keeps = reply-Keeps "S2C_Logout" _

    pub handle_player_list-Keeps : Keeps (handle_player_list env)
    unfolding handle_player_list
    handle_player_list-Keeps s =
        bind-Keeps (lift_store (env.store.list_characters s.account_id s.db)) _ (lift_store-Keeps _)
          (λ characters. reply-Keeps "S2C_PlayerList" (player_list_reply env characters)) s

    pub handle_set_options-Keeps : (vs : Values) → Keeps (handle_set_options env vs)
    unfolding handle_set_options
    handle_set_options-Keeps vs s = unfold view in refl

    pub handle_map_enter_pre_complete-Keeps : Keeps (handle_map_enter_pre_complete env)
    unfolding handle_map_enter_pre_complete
    handle_map_enter_pre_complete-Keeps = reply-Keeps "S2C_MapEnterPreComplete" (λ reply. reply)

    pub handle_player_load_first_call-Keeps : Keeps (handle_player_load_first_call env)
    unfolding handle_player_load_first_call
    handle_player_load_first_call-Keeps = reply-Keeps "S2C_PlayerLoadFirstCall" _

    pub send_login_result-Keeps :
        (code : List ℕ) (key result : ℕ) → Keeps (send_login_result env code key result)
    unfolding send_login_result
    send_login_result-Keeps code key result = reply-Keeps "S2C_SessionAuthLogin" _

    pub send_enter_world_result-Keeps :
        (result slot : ℕ) → Keeps (send_enter_world_result env result slot)
    unfolding send_enter_world_result
    send_enter_world_result-Keeps result slot = reply-Keeps "S2C_EnterWorld" _

    pub send_enter_world_complete-Keeps : (c : Character) → Keeps (send_enter_world_complete env c)
    unfolding send_enter_world_complete
    send_enter_world_complete-Keeps c s = reply-Keeps "S2C_EnterWorldComplete" _ s

    complete_as-Keeps : (o : Option Character) → Keeps (complete_as env o)
    complete_as-Keeps none s = refl
    complete_as-Keeps (some c) s = reply-Keeps "S2C_MapEnterComplete" _ s

    pub handle_map_enter_complete-Keeps : Keeps (handle_map_enter_complete env)
    unfolding handle_map_enter_complete
    handle_map_enter_complete-Keeps s = complete_as-Keeps s.character s

    map_enter_as-Keeps : (token : ℕ) (o : Option Character) → Keeps (map_enter_as env token o)
    map_enter_as-Keeps token none s = refl
    map_enter_as-Keeps token (some c) s =
        if-Keeps (not (token == s.warp_token)) _ _ (view s) refl
          (reply-Keeps "S2C_MapEnter" (map_enter_reply env c) s)

    pub handle_map_enter-Keeps : (vs : Values) → Keeps (handle_map_enter env vs)
    unfolding handle_map_enter
    handle_map_enter-Keeps vs s = map_enter_as-Keeps (as_int64 (get "m_warpToken" vs)) s.character s

    send_create_result-Keeps :
        (result : ℕ) (player : Option Values) → Keeps (send_create_result env result player)
    unfolding send_create_result
    send_create_result-Keeps result player = reply-Keeps "S2C_CreatePlayer" _

    answer_created-Keeps : (r : Result StoreError Character) → Keeps (answer_created env r)
    answer_created-Keeps (ok created) s =
        send_create_result-Keeps 0 (some (to_lobby_player_info created)) s
    answer_created-Keeps (err name_taken) s = send_create_result-Keeps 50102 none s
    answer_created-Keeps (err slot_taken) s = send_create_result-Keeps 55001 none s
    answer_created-Keeps (err not_found) s = refl
    answer_created-Keeps (err other) s = refl

    pub with_db : (db : S) (s : Conn S) → view (record s { db = db }) ≡ view s
    unfolding view
    with_db db s = refl

    create_in_slot-Keeps :
        (name : List ℕ) (class_type head_type : ℕ) (o : Option ℕ)
        → Keeps (create_in_slot env name class_type head_type o)
    create_in_slot-Keeps name class_type head_type none s = send_create_result-Keeps 55001 none s
    create_in_slot-Keeps name class_type head_type (some slot) s =
        let created =
          env.store.create_character (requested env s.account_id slot name class_type head_type)
            (env.others s.db) in
        answer_created-Keeps created.0 (record s { db = created.1 }) ∙ with_db created.1 s

    pub handle_create_player-Keeps : (vs : Values) → Keeps (handle_create_player env vs)
    unfolding handle_create_player
    handle_create_player-Keeps vs s =
        let name = trim_space (as_string (get "m_name" vs)) in
        if-Keeps (bad_name name) _ _ (view s) (send_create_result-Keeps 26 none s) (
          bind-Keeps (lift_store (env.store.list_characters s.account_id s.db)) _
            (lift_store-Keeps _)
            (λ characters. create_in_slot-Keeps name _ _ (free_slot characters)) s)

    pub handle_version_check-Keeps : (vs : Values) → Keeps (handle_version_check env vs)
    unfolding handle_version_check
    handle_version_check-Keeps vs s =
        if-Keeps {A = Unit {0}}
          (not (as_int64 (get "m_socketUID" vs) == s.socket_uid)
            || not (as_int64 (get "m_connectionKey" vs) == s.connection_key))
          _ _ (view s) refl
          (if-Keeps {A = Unit {0}}
            (not (env.protocol_ver == 0)
              && not (to_int32 (as_int64 (get "m_protocolVer" vs)) == env.protocol_ver))
            _ _ (view s) refl
            (reply-Keeps "S2C_VersionCheck" (version_reply env (as_int64 (get "m_protocolVer" vs)))
              s))
