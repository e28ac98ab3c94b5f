-- ===== src/Game/Handler/Sound.antt =====
-- What holds of every session, whatever the client sends, and what the connection leaves behind.
use Prim.Native.String.{String}
use rom_server_poc.Prelude.{
  ℕ, ◌≡◌, ◌≢◌, refl, sym, ap, subst, ◌∙◌, inl, inr, ◌⊎◌, Bool-cases, ◌&&◌, Bool, true, false, not,
  Option, none, some, List, [], ◌∷◌, str_eq, if◌then◌else◌, arith,
}
use mathlib.Core.List.{foldl}
use rom_server_poc.Prelude.Result.{Result, ok, err}
use rom_server_poc.Protocol.Catalog.{Message}
use rom_server_poc.Protocol.Value.{Values}
use rom_server_poc.Persist.{Character}
use rom_server_poc.World.{Players, Command, leave, find, execute}
use rom_server_poc.World.Run.{run-leave}
use rom_server_poc.Game.Session.{AuthSession, Context, Env, Conn, HandlerError, enqueued}
use rom_server_poc.Game.Enter.{handle_enter_world}
use rom_server_poc.Game.Handler.{
  handle_login, dispatch, dispatch_authed, Event, message, stored, unknown_opcode, ended,
  serve_loop, leave_as, close, serve,
}
use rom_server_poc.Game.Handler.Life.{
  bound_view, entered_view, handle_login-outcome, handle_enter_world-outcome,
}
use rom_server_poc.Game.Handler.Keeps.{
  View, view, handle_version_check-Keeps, handle_set_options-Keeps, handle_waiting_user_count-Keeps,
  handle_player_list-Keeps, handle_create_player-Keeps, handle_logout-Keeps, handle_map_enter-Keeps,
  handle_map_enter_pre_complete-Keeps, handle_map_enter_complete-Keeps,
  handle_player_load_first_call-Keeps,
}

-- A guest has enqueued nothing; who is in the world has a character and a token other than 0.
pub record IsSound (v : View) : Type 0 where
  pub guest : v.authed ≡ false → (v.in_world ≡ false) × (v.commands ≡ [])
  pub present : v.in_world ≡ true → (c : Character) × (v.character ≡ some c)
  pub token : v.in_world ≡ true → v.warp_token ≢ 0

IsSound-bound : (a : AuthSession) (v : View) → IsSound v → IsSound (bound_view a v)
IsSound-bound a v h = record { guest = λ e. cc; present = h.present; token = h.token }

module _ {S : Type 0} where
  IsSound-entered :
      (env : Env S) (c : Character) (token : ℕ) (v : View)
      → v.authed ≡ true
      → token ≢ 0
      → IsSound (entered_view env c token v)
  IsSound-entered env c token v authed drawn = record {
    guest = λ h. cc;
    present = λ _. (c, refl);
    token = λ _. drawn;
  }

  if-IsSound :
      {A : Type 0} (b : Bool) (x y : Result HandlerError A × Conn S)
      → IsSound (view x.1)
      → IsSound (view y.1)
      → IsSound (view (if b then x else y).1)
  if-IsSound true x y hx hy = hx
  if-IsSound false x y hx hy = hy

  guarded-IsSound :
      {A : Type 0} (b : Bool) (x y : Result HandlerError A × Conn S)
      → IsSound (view x.1)
      → (b ≡ true → IsSound (view y.1))
      → IsSound (view (if not b then x else y).1)
  guarded-IsSound true x y hx hy = hy refl
  guarded-IsSound false x y hx hy = hx

  module _ (env : Env S) (vs : Values) (s : Conn S) (h : IsSound (view s)) where
    handle_login-IsSound : IsSound (view (handle_login env vs s).1)
    handle_login-IsSound = elim (handle_login-outcome env vs s) [
      | inl kept ↦ subst IsSound (sym kept) h
      | inr (a, bound) ↦ subst IsSound (sym bound) (IsSound-bound a.session (view s) h)
    ]

    handle_enter_world-IsSound : s.authed ≡ true → IsSound (view (handle_enter_world env vs s).1)
    unfolding view
    handle_enter_world-IsSound authed = elim (handle_enter_world-outcome env vs s) [
      | inl (_, kept) ↦ subst IsSound (sym kept) h
      | inr (a, entered) ↦
          let (_, _, nonzero_token, _) = a.drawn in
          subst IsSound (sym entered)
            (IsSound-entered env a.character a.token (view s) authed nonzero_token)
    ]

    kept-IsSound : (t : Conn S) → view t ≡ view s → IsSound (view t)
    kept-IsSound t e = subst IsSound (sym e) h

    dispatch_authed-IsSound :
        (name : String) → s.authed ≡ true → IsSound (view (dispatch_authed env name vs s).1)
    unfolding dispatch_authed
    dispatch_authed-IsSound name authed =
        if-IsSound (str_eq name "C2S_SetOptions") _ _
          (kept-IsSound _ (handle_set_options-Keeps env vs s))
          (if-IsSound (str_eq name "C2S_WaitingUserCount") _ _
            (kept-IsSound _ (handle_waiting_user_count-Keeps env s))
            (if-IsSound (str_eq name "C2S_PlayerList") _ _
              (kept-IsSound _ (handle_player_list-Keeps env s))
              (if-IsSound (str_eq name "C2S_CreatePlayer") _ _
                (kept-IsSound _ (handle_create_player-Keeps env vs s))
                (if-IsSound (str_eq name "C2S_EnterWorld") _ _ (handle_enter_world-IsSound authed) (
                  if-IsSound (str_eq name "C2S_MapEnter") _ _
                    (kept-IsSound _ (handle_map_enter-Keeps env vs s))
                    (if-IsSound (str_eq name "C2S_MapEnterPreComplete") _ _
                      (kept-IsSound _ (handle_map_enter_pre_complete-Keeps env s))
                      (if-IsSound (str_eq name "C2S_MapEnterComplete") _ _
                        (kept-IsSound _ (handle_map_enter_complete-Keeps env s))
                        (if-IsSound (str_eq name "C2S_PlayerLoadFirstCall") _ _
                          (kept-IsSound _ (handle_player_load_first_call-Keeps env s))
                          (if-IsSound (str_eq name "C2S_Logout") _ _
                            (kept-IsSound _ (handle_logout-Keeps env s)) h)))))))))

    -- Every message, whatever its outcome, keeps the session sound.
    pub dispatch-IsSound : (msg : Message) → IsSound (view (dispatch env msg vs s).1)
    unfolding dispatch
    dispatch-IsSound msg =
        if-IsSound (str_eq msg.name "C2S_VersionCheck") _ _
          (kept-IsSound _ (handle_version_check-Keeps env vs s))
          (if-IsSound (str_eq msg.name "C2S_SessionAuthLogin") _ _ handle_login-IsSound
            (guarded-IsSound s.authed _ _ h (dispatch_authed-IsSound msg.name)))

  after-IsSound :
      (events : List (Event S)) (r : Result HandlerError (Unit {0})) (t : Conn S)
      → IsSound (view t)
      → IsSound (view (serve_loop events t))
      → IsSound (view (elim r as (λ _. Conn S) [ ok _ ↦ serve_loop events t | err e ↦ t ]))
  after-IsSound events (ok _) t h rest = rest
  after-IsSound events (err e) t h rest = h

  -- From a sound session, whatever the client sends, the session stays sound: a guest has enqueued
  -- nothing and is not in the world; who is in the world has a character and a token other than 0.
  pub serve_loop-IsSound :
      (events : List (Event S)) (s : Conn S)
      → IsSound (view s)
      → IsSound (view (serve_loop events s))
  unfolding serve_loop
  serve_loop-IsSound [] s h = h
  serve_loop-IsSound (ended ∷ events) s h = h
  serve_loop-IsSound (stored others ∷ events) s h =
      serve_loop-IsSound events (record s { db = others s.db }) (unfold view in h)
  serve_loop-IsSound (unknown_opcode ∷ events) s h = serve_loop-IsSound events s h
  serve_loop-IsSound (message env msg vs ∷ events) s h =
      let sound = dispatch-IsSound env vs s h msg in
      after-IsSound events (dispatch env msg vs s).0 (dispatch env msg vs s).1 sound
        (serve_loop-IsSound events (dispatch env msg vs s).1 sound)

-- A connection as it is accepted: nobody has logged in.
abbrev pub IsFresh : View → Type 0
IsFresh v = (v.authed ≡ false) × (v.in_world ≡ false) × (v.commands ≡ [])

pub IsFresh-IsSound : (v : View) → IsFresh v → IsSound v
IsFresh-IsSound v h = record { guest = λ _. (h.1, h.2); present = λ e. cc; token = λ e. cc }

-- What becomes of the leave of a character: the world runs it, or the context is done and it is
-- dropped.
abbrev pub Departed : Context → Character → Players → List Command → List Command → Type 0
Departed ctx c ps before after =
    (find c.id (foldl execute ps after) ≡ none)
    ⊎ ((ctx.cancelled ≡ true) × (ctx.gives_up ≡ true) × (after ≡ before))

enqueued-Departed :
    (ctx : Context) (c : Character) (ps : Players) (cs : List Command)
    → Departed ctx c ps cs (enqueued ctx (leave c.id) cs)
enqueued-Departed ctx c ps cs = elim (Bool-cases (ctx.cancelled && ctx.gives_up)) [
  | inl dropped ↦ rw dropped (inr (ground arith, ground arith, refl))
  | inr kept ↦ rw kept (inl (run-leave c.id ps cs))
]

module _ {S : Type 0} where
  leave_as-authed :
      (ctx : Context) (inside : Bool) (o : Option Character) (s : Conn S)
      → (leave_as ctx inside o s).authed ≡ s.authed
  leave_as-authed ctx true none s = refl
  leave_as-authed ctx true (some c) s = refl
  leave_as-authed ctx false o s = refl

  leave_as-outside :
      (ctx : Context) (inside : Bool) (o : Option Character) (s : Conn S)
      → inside ≡ false
      → (leave_as ctx inside o s).commands ≡ s.commands
  leave_as-outside ctx true o s h = cc
  leave_as-outside ctx false o s h = refl

  pub leave_as-inside :
      (ctx : Context) (inside : Bool) (o : Option Character) (c : Character) (s : Conn S)
      → inside ≡ true
      → o ≡ some c
      → (leave_as ctx inside o s).commands ≡ enqueued ctx (leave c.id) s.commands
  leave_as-inside ctx true none c s h e = cc
  leave_as-inside ctx true (some d) c s h e =
      let same : d ≡ c = cc in ap (λ b. enqueued ctx (leave b.id) s.commands) same
  leave_as-inside ctx false o c s h e = cc

  close-guest :
      (ctx : Context) (t : Conn S)
      → IsSound (view t)
      → (close ctx t).authed ≡ false
      → (close ctx t).commands ≡ []
  unfolding close view
  close-guest ctx t h guest =
      let out = h.guest (sym (leave_as-authed ctx t.in_world t.character t) ∙ guest) in
      leave_as-outside ctx t.in_world t.character t out.0 ∙ out.1

  -- A connection that is accepted, and is closed before a login has been accepted, has never asked
  -- the world for anything, whatever messages it has sent.
  pub serve-guest :
      (ctx : Context) (events : List (Event S)) (s : Conn S)
      → IsFresh (view s)
      → (serve ctx events s).authed ≡ false
      → (serve ctx events s).commands ≡ []
  unfolding serve
  serve-guest ctx events s fresh guest =
      close-guest ctx (serve_loop events s)
        (serve_loop-IsSound events s (IsFresh-IsSound (view s) fresh)) guest

  close-departs :
      (ctx : Context) (t : Conn S) (ps : Players)
      → IsSound (view t)
      → t.in_world ≡ true
      → (c : Character) × (t.character ≡ some c)
        × Departed ctx c ps t.commands (close ctx t).commands
  unfolding close view
  close-departs ctx t ps h inside =
      let (c, e) = h.present inside in
      (
        c,
        e,
        subst (Departed ctx c ps t.commands)
            (sym (leave_as-inside ctx t.in_world t.character c t inside e))
            (enqueued-Departed ctx c ps t.commands),
      )

  -- A fresh connection that is in the world when it ends has a character then. Once the world has
  -- run the commands of the connection that character is not among the players; or the context is
  -- done by then and the leave was dropped, so that the commands are those of before.
  pub serve-departs :
      (ctx : Context) (events : List (Event S)) (s : Conn S) (ps : Players)
      → IsFresh (view s)
      → (serve_loop events s).in_world ≡ true
      → (c : Character) × ((serve_loop events s).character ≡ some c)
        × Departed ctx c ps (serve_loop events s).commands (serve ctx events s).commands
  unfolding serve
  serve-departs ctx events s ps fresh inside =
      close-departs ctx (serve_loop events s) ps
        (serve_loop-IsSound events s (IsFresh-IsSound (view s) fresh)) inside
