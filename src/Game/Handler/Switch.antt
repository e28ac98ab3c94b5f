-- ===== src/Game/Handler/Switch.antt =====
-- A connection that enters the world twice.
use rom_server_poc.Prelude.{
  ℕ, ◌≡◌, ◌≢◌, refl, sym, ap, subst, ◌∙◌, ◌⊎◌, inl, inr, Bool-cases, ◌&&◌, Bool, true, false,
  Option, none, some, List, [], ◌∷◌, arith,
}
use mathlib.Core.List.{foldl, foldl-append}
use rom_server_poc.Prelude.Result.{Result, ok, err}
use rom_server_poc.Protocol.Messages.Enter.{c2s_enter_world}
use rom_server_poc.Protocol.Value.{Values}
use rom_server_poc.Persist.{Character}
use rom_server_poc.World.{Player, Players, Command, join, leave, find, execute}
use rom_server_poc.World.Players.{find-execute}
use rom_server_poc.Game.Session.{Context, Env, Conn, HandlerError, enqueued}
use rom_server_poc.Game.Enter.{handle_enter_world}
use rom_server_poc.Game.Handler.{
  dispatch, dispatch_authed, Event, message, ended, serve_loop, leave_as, close, serve,
}
use rom_server_poc.Game.Handler.Keeps.{view}
use rom_server_poc.Game.Handler.Life.{player_in, handle_enter_world-outcome}

-- A command about another character, dropped or not, leaves the entry alone.
enqueued-apart :
    (ctx : Context) (c : Command) (id : ℕ) (ps : Players) (cs : List Command)
    → ((qs : Players) → find id (execute qs c) ≡ find id qs)
    → find id (foldl execute ps (enqueued ctx c cs)) ≡ find id (foldl execute ps cs)
enqueued-apart ctx c id ps cs apart = elim (Bool-cases (ctx.cancelled && ctx.gives_up)) [
  | inl dropped ↦ rw dropped refl
  | inr kept ↦ rw kept (rw foldl-append (apart (foldl execute ps cs)))
]

leave-apart : (id j : ℕ) (ps : Players) → id ≢ j → find id (execute ps (leave j)) ≡ find id ps
leave-apart id j ps ne = ground (arith, find-execute id (leave j) ps)

join-apart :
    (id : ℕ) (q : Player) (ps : Players)
    → id ≢ q.character_id
    → find id (execute ps (join q)) ≡ find id ps
join-apart id q ps ne = ground (arith, find-execute id (join q) ps)

join-found :
    (ctx : Context) (q : Player) (ps : Players) (cs : List Command)
    → ctx.cancelled ≡ false
    → find q.character_id (foldl execute ps (enqueued ctx (join q) cs)) ≡ some q
join-found ctx q ps cs live =
    rw live
      (rw foldl-append (ground (arith, find-execute q.character_id (join q) (foldl execute ps cs))))

module _ {S : Type 0} where
  leave_as-apart :
      (ctx : Context) (inside : Bool) (o : Option Character) (id : ℕ) (d : Character) (s : Conn S)
      (ps : Players)
      → o ≡ some d
      → id ≢ d.id
      → find id (foldl execute ps (leave_as ctx inside o s).commands)
        ≡ find id (foldl execute ps s.commands)
  leave_as-apart ctx true none id d s ps e ne = refl
  leave_as-apart ctx true (some b) id d s ps e ne =
      let same : b ≡ d = cc in
      enqueued-apart ctx (leave b.id) id ps s.commands
        (λ qs. leave-apart id b.id qs (λ h. ne (h ∙ ap (λ x. x.id) same)))
  leave_as-apart ctx false o id d s ps e ne = refl

  close-apart :
      (ctx : Context) (id : ℕ) (d : Character) (s : Conn S) (ps : Players)
      → s.character ≡ some d
      → id ≢ d.id
      → find id (foldl execute ps (close ctx s).commands) ≡ find id (foldl execute ps s.commands)
  unfolding close
  close-apart ctx id d s ps e ne = leave_as-apart ctx s.in_world s.character id d s ps e ne

  dispatch-enter :
      (env : Env S) (vs : Values) (s : Conn S)
      → s.authed ≡ true
      → dispatch env c2s_enter_world vs s ≡ handle_enter_world env vs s
  unfolding dispatch dispatch_authed
  dispatch-enter env vs s authed = rw authed refl

  -- What an enter-world makes of a session: nothing, or it stands in the world.
  abbrev Entered : Env S → Conn S → Conn S → Type 0
  Entered env s t =
      (c : Character) × (t.character ≡ some c)
      × (t.authed ≡ s.authed)
      × (t.commands ≡ enqueued env.context (join (player_in env c (view s))) s.commands)

  abbrev Untouched : Conn S → Conn S → Type 0
  Untouched s t = (t.character ≡ s.character) × (t.in_world ≡ s.in_world)

  dispatch-Entered :
      (env : Env S) (vs : Values) (s : Conn S)
      → s.authed ≡ true
      → (let t = (dispatch env c2s_enter_world vs s).1 in Untouched s t ⊎ Entered env s t)
  unfolding view
  dispatch-Entered env vs s authed =
      rw (dispatch-enter env vs s authed) (elim (handle_enter_world-outcome env vs s) [
        | inl (_, kept) ↦ inl (ap (λ v. v.character) kept, ap (λ v. v.in_world) kept)
        | inr (a, entered) ↦ inr (
          a.character,
          ap (λ v. v.character) entered,
          ap (λ v. v.authed) entered,
          ap (λ v. v.commands) entered,
        )
      ])

  resumed :
      (r : Result HandlerError (Unit {0})) (rest : List (Event S)) (t : Conn S)
      → r ≡ ok tt
      → elim r as (λ _. Conn S) [ ok _ ↦ serve_loop rest t | err e ↦ t ] ≡ serve_loop rest t
  resumed (ok _) rest t h = refl
  resumed (err e) rest t h = cc

  ended_after :
      (r : Result HandlerError (Unit {0})) (t : Conn S)
      → elim r as (λ _. Conn S) [ ok _ ↦ serve_loop (ended ∷ []) t | err e ↦ t ] ≡ t
  unfolding serve_loop
  ended_after (ok _) t = refl
  ended_after (err e) t = refl

  two_messages :
      (env later : Env S) (vs vs' : Values) (s : Conn S)
      → (dispatch env c2s_enter_world vs s).0 ≡ ok tt
      → serve_loop
          (message env c2s_enter_world vs ∷ message later c2s_enter_world vs' ∷ ended ∷ [])
          s
        ≡ (dispatch later c2s_enter_world vs' (dispatch env c2s_enter_world vs s).1).1
  unfolding serve_loop
  two_messages env later vs vs' s done =
      let t = dispatch env c2s_enter_world vs s in
      let u = dispatch later c2s_enter_world vs' t.1 in
      resumed t.0 (message later c2s_enter_world vs' ∷ ended ∷ []) t.1 done ∙ ended_after u.0 u.1

  -- A session out of the world that enters it with one character, its Join not dropped, and then
  -- with another, and is closed: the first character's player is still in the world after all
  -- commands of the connection.
  pub switch-leaks :
      (ctx : Context) (env later : Env S) (vs vs' : Values) (c d : Character) (s : Conn S)
      (ps : Players)
      → s.authed ≡ true
      → s.in_world ≡ false
      → env.context.cancelled ≡ false
      → (dispatch env c2s_enter_world vs s).0 ≡ ok tt
      → (dispatch env c2s_enter_world vs s).1.in_world ≡ true
      → (dispatch env c2s_enter_world vs s).1.character ≡ some c
      → (dispatch later c2s_enter_world vs' (dispatch env c2s_enter_world vs s).1).1.character
        ≡ some d
      → c.id ≢ d.id
      → find c.id (
          foldl execute ps
            (serve ctx
              (message env c2s_enter_world vs ∷ message later c2s_enter_world vs' ∷ ended ∷ [])
              s).commands)
        ≡ some (player_in env c (view s))
  unfolding serve
  switch-leaks ctx env later vs vs' c d s ps authed out live done inside first second ne =
      let t = (dispatch env c2s_enter_world vs s).1 in
      let u = (dispatch later c2s_enter_world vs' t).1 in
      ap (λ x. find c.id (foldl execute ps (close ctx x).commands))
        (two_messages env later vs vs' s done)
      ∙ close-apart ctx c.id d u ps second ne
      ∙ elim (dispatch-Entered env vs s authed) [
        | inl (_, kept) ↦ absurd (false-ne-true (sym out ∙ sym kept ∙ inside))
        | inr (a, as_a, stays, joined) ↦
            let same : a ≡ c = cc in
            let joined_c : t.commands
                ≡ enqueued env.context (join (player_in env c (view s))) s.commands =
              subst
                (λ x.
                  t.commands ≡ enqueued env.context (join (player_in env x (view s))) s.commands)
                same joined in
            rejoined t u first second joined_c (dispatch-Entered later vs' t (stays ∙ authed))
      ]
    where
      false-ne-true : false ≡ true → ⊥
      false-ne-true e = cc

      rejoined :
          (t u : Conn S)
          → t.character ≡ some c
          → u.character ≡ some d
          → t.commands ≡ enqueued env.context (join (player_in env c (view s))) s.commands
          → Untouched t u ⊎ Entered later t u
          → find c.id (foldl execute ps u.commands) ≡ some (player_in env c (view s))
      rejoined t u one two joined (inl (kept, _)) =
          let same : c ≡ d = cc in absurd (ne (ap (λ x. x.id) same))
      rejoined t u one two joined (inr (b, as_b, _, again)) =
          let same : b ≡ d = cc in
          ap (λ cs. find c.id (foldl execute ps cs)) again
          ∙ enqueued-apart later.context (join (player_in later b (view t))) c.id ps t.commands
              (λ qs.
                join-apart c.id (player_in later b (view t)) qs (λ h. ne (h ∙ ap (λ x. x.id) same)))
          ∙ ap (λ cs. find c.id (foldl execute ps cs)) joined
          ∙ join-found env.context (player_in env c (view s)) ps s.commands live
