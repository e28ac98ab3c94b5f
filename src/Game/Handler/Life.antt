-- ===== src/Game/Handler/Life.antt =====
-- The life of a connection: what a login and an enter-world change, and what always holds of the
-- session.
use rom_server_poc.Prelude.{
  ℕ, ◌+◌, ◌*◌, ◌%◌, ◌^◌, ◌≡◌, refl, ap, ◌∙◌, ◌⊎◌, inl, inr, true, Bool-cases, ==_iff, Option, none,
  some, List, ◌==◌,
}
use rom_server_poc.Prelude.Result.{Result, ok, err}
use rom_server_poc.Protocol.Value.{Values, get}
use rom_server_poc.Persist.{StoreError, Character}
use rom_server_poc.Game.Session.{
  AuthSession, AuthError, Env, Conn, HandlerError, enqueued, continue, lift_store, ◌>>=◌, ◌>>◌,
  modify, as_int64, as_string, as_uint64, to_int32,
}
use rom_server_poc.Game.Enter.{
  chosen, new_warp_token, admit, enter_as, handle_enter_world, send_enter_world_result,
  send_enter_world_complete, enter_result_ok, enter_result_no_char,
}
use rom_server_poc.World.{Player, join}
use rom_server_poc.Game.Enter.Chosen.{
  NoneInSlot, IsFirstIn, chosen-IsFirstIn, chosen-NoneInSlot, IsDrawn, new_warp_token-IsDrawn,
  new_warp_token-none,
}
use rom_server_poc.Game.Handler.{
  handle_login, bind_account, upserted, validated, result_ok, result_auth_failed,
}
use rom_server_poc.Game.Handler.Keeps.{
  View, view, bind-Keeps, send_login_result-Keeps, send_enter_world_result-Keeps,
  send_enter_world_complete-Keeps, with_db,
}

-- The session of the account.
abbrev pub bound_view : AuthSession → View → View
bound_view session v = record v {
  account_id = session.account_id;
  account_code = session.user_code;
  authed = true;
}

module _ {S : Type 0} (env : Env S) where
  -- The conditions for a login to be accepted.
  pub record Accepted (key : ℕ) (code : List ℕ) (db : S) : Type 0 where
    pub session : AuthSession
    pub valid : env.validate key code ≡ ok session
    pub same_world : session.world_id ≡ env.world_id
    pub saved : (env.store.upsert_account session.account_id session.user_code db).0 ≡ ok tt

  view-bind_account :
      (session : AuthSession) (s : Conn S)
      → view (bind_account env session s) ≡ bound_view session (view s)
  unfolding view
  view-bind_account session s = refl

  upserted-outcome :
      (code : List ℕ) (key : ℕ) (session : AuthSession) (r : Result StoreError (Unit {0}))
      (s : Conn S)
      → (view (upserted env code key session r s).1 ≡ view s)
        ⊎ ((r ≡ ok tt) × (view (upserted env code key session r s).1 ≡ bound_view session (view s)))
  upserted-outcome code key session (err e) s =
      inl (send_login_result-Keeps env code key result_auth_failed s)
  upserted-outcome code key session (ok _) s = inr (
    refl,
    send_login_result-Keeps env code key result_ok (bind_account env session s)
        ∙ view-bind_account session s,
  )

  saved-outcome :
      (code : List ℕ) (key : ℕ) (session : AuthSession) (s : Conn S)
      → env.validate key code ≡ ok session
      → session.world_id ≡ env.world_id
      → (let (saved, db) = env.store.upsert_account session.account_id session.user_code s.db in
          let t = (upserted env code key session saved (record s { db = db })).1 in
          (view t ≡ view s)
          ⊎ ((a : Accepted key code s.db) × (view t ≡ bound_view a.session (view s))))
  saved-outcome code key session s valid same =
      let (saved, db) = env.store.upsert_account session.account_id session.user_code s.db in
      elim (upserted-outcome code key session saved (record s { db = db })) [
        | inl kept ↦ inl (kept ∙ with_db env db s)
        | inr (e, bound) ↦ inr (
          record { session = session; valid = valid; same_world = same; saved = e },
          bound ∙ ap (bound_view session) (with_db env db s),
        )
      ]

  validated-outcome :
      (code : List ℕ) (key : ℕ) (s : Conn S) (r : Result AuthError AuthSession)
      → env.validate key code ≡ r
      → (let t = (validated env code key r s).1 in
          (view t ≡ view s)
          ⊎ ((a : Accepted key code s.db) × (view t ≡ bound_view a.session (view s))))
  validated-outcome code key s (err e) h =
      inl (send_login_result-Keeps env code key result_auth_failed s)
  validated-outcome code key s (ok session) h =
      elim (Bool-cases (session.world_id == env.world_id)) [
        | inl same ↦
            rw same
              (saved-outcome code key session s h ((==_iff session.world_id env.world_id).0 same))
        | inr different ↦
            rw different (inl (send_login_result-Keeps env code key result_auth_failed s))
      ]

  -- A login leaves the session as it was, or binds it to the account that the region service
  -- returned; then the service accepted the key and the code, the account's world is the server's,
  -- and the store has saved the account.
  pub handle_login-outcome :
      (vs : Values) (s : Conn S)
      → (view (handle_login env vs s).1 ≡ view s)
        ⊎ ((a : Accepted
              (to_int32 (as_int64 (get "m_sessionKey" vs)))
              (as_string (get "m_accountCode" vs))
              s.db)
            × (view (handle_login env vs s).1 ≡ bound_view a.session (view s)))
  unfolding handle_login
  handle_login-outcome vs s =
      validated-outcome (as_string (get "m_accountCode" vs))
        (to_int32 (as_int64 (get "m_sessionKey" vs))) s _ refl

  -- The player of a character on the session's connection.
  abbrev pub player_in : Character → View → Player
  player_in c v = record {
    oid = (env.world_id * 1000000000 + c.id) % 2 ^ 64;
    character_id = c.id;
    account_id = v.account_id;
    name = c.name;
    map_id = c.map_id;
    x = c.x;
    y = c.y;
    z = c.z;
    dir = c.dir;
    conn = v.conn_id;
  }

  -- The session with a character in the world.
  abbrev pub entered_view : Character → ℕ → View → View
  entered_view c token v = record v {
    character = some c;
    player_oid = (env.world_id * 1000000000 + c.id) % 2 ^ 64;
    warp_token = token;
    in_world = true;
    commands = enqueued env.context (join (player_in c v)) v.commands;
  }

  view-admit :
      (c : Character) (token : ℕ) (s : Conn S)
      → view (admit env c token s) ≡ entered_view c token (view s)
  unfolding view
  view-admit c token s = refl

  -- The character of the slot, and the token, of an enter-world that is let in.
  pub record Admitted (slot account : ℕ) (db : S) : Type 0 where
    pub characters : List Character
    pub character : Character
    pub token : ℕ
    pub listed : env.store.list_characters account db ≡ ok characters
    pub in_slot : IsFirstIn slot characters character
    pub drawn : IsDrawn env.random token

  -- Why an enter-world is not let in.
  pub data Refused (slot account : ℕ) (db : S) : Type 0 where
    no_list :
        (e : StoreError) → env.store.list_characters account db ≡ err e → Refused slot account db
    no_character :
        (characters : List Character)
        → env.store.list_characters account db ≡ ok characters
        → NoneInSlot slot characters
        → Refused slot account db
    no_random : env.random ≡ none → Refused slot account db

  -- The two ends of an enter-world in the session `s`.
  abbrev EnterEnds : ℕ → Conn S → Conn S → Type 0
  EnterEnds slot s t =
      (Refused slot s.account_id s.db × (view t ≡ view s))
      ⊎ ((a : Admitted slot s.account_id s.db) × (view t
            ≡ entered_view a.character a.token (view s)))

  admitted-outcome :
      (slot : ℕ) (characters : List Character) (c : Character) (r : Result HandlerError ℕ)
      (s : Conn S)
      → env.store.list_characters s.account_id s.db ≡ ok characters
      → IsFirstIn slot characters c
      → new_warp_token env.random ≡ r
      → EnterEnds slot s
          (continue r
            (λ token. do
              modify (admit env c token)
              send_enter_world_result env enter_result_ok c.slot_index
              send_enter_world_complete env c)
            s).1
  admitted-outcome slot characters c (err e) s listed first h =
      inl (no_random (new_warp_token-none env.random e h), refl)
  admitted-outcome slot characters c (ok token) s listed first h = inr (
    record {
      characters = characters;
      character = c;
      token = token;
      listed = listed;
      in_slot = first;
      drawn = new_warp_token-IsDrawn env.random token h;
    },
    bind-Keeps (send_enter_world_result env enter_result_ok c.slot_index)
          (λ _. send_enter_world_complete env c)
          (send_enter_world_result-Keeps env enter_result_ok c.slot_index)
          (λ _. send_enter_world_complete-Keeps env c) (admit env c token s)
        ∙ view-admit c token s,
  )

  enter_as-outcome :
      (slot : ℕ) (characters : List Character) (s : Conn S) (o : Option Character)
      → env.store.list_characters s.account_id s.db ≡ ok characters
      → chosen slot characters ≡ o
      → EnterEnds slot s (enter_as env slot o s).1
  enter_as-outcome slot characters s none listed e = inl (
    no_character characters listed (chosen-NoneInSlot slot characters e),
    send_enter_world_result-Keeps env enter_result_no_char (to_int32 slot) s,
  )
  enter_as-outcome slot characters s (some c) listed e =
      admitted-outcome slot characters c (new_warp_token env.random) s listed
        (chosen-IsFirstIn slot characters c e) refl

  listed-outcome :
      (slot : ℕ) (s : Conn S) (r : Result StoreError (List Character))
      → env.store.list_characters s.account_id s.db ≡ r
      → EnterEnds slot s
          ((lift_store r >>= λ characters. enter_as env slot (chosen slot characters)) s).1
  listed-outcome slot s (err e) h = inl (no_list e h, refl)
  listed-outcome slot s (ok characters) h = enter_as-outcome slot characters s _ h refl

  -- An enter-world leaves the session as it was, or puts a character in the world. In the first case
  -- the account's characters cannot be listed, none of them is in the requested slot, or the random
  -- source fails. In the second the character is the first of the list in the slot, the token is
  -- the number that the random source gave, with 1 for 0, and the session has both, the character's
  -- object id, and its Join enqueued, unless a context that is done drops it.
  pub handle_enter_world-outcome :
      (vs : Values) (s : Conn S)
      → (Refused (as_uint64 (get "m_playerSlotIndex" vs)) s.account_id s.db
          × (view (handle_enter_world env vs s).1 ≡ view s))
        ⊎ ((a : Admitted (as_uint64 (get "m_playerSlotIndex" vs)) s.account_id s.db) × (view
                (handle_enter_world env vs s).1
              ≡ entered_view a.character a.token (view s)))
  unfolding handle_enter_world
  handle_enter_world-outcome vs s = listed-outcome (as_uint64 (get "m_playerSlotIndex" vs)) s _ refl
