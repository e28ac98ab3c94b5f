-- ===== src/Auth/Confirmed.antt =====
-- internal/auth/client.go: Validate behind the login of internal/game/handler.go.
use rom_server_poc.Prelude.{
  ℕ, ◌≡◌, refl, sym, ◌∙◌, ap, subst, ◌⊎◌, Bool-cases, inl, inr, Option, none, some, List, ◌==◌,
  ==_iff,
}
use rom_server_poc.Prelude.Result.{Result, ok, err, ok-ne-err}
use rom_server_poc.Prelude.Text.{same_text, same_text_iff}
use rom_server_poc.Protocol.Value.{Values, get}
use rom_server_poc.Game.Session.{AuthSession, AuthError, Env, Conn, to_int32, as_int64, as_string}
use rom_server_poc.Game.Handler.{handle_login}
use rom_server_poc.Game.Handler.Keeps.{view}
use rom_server_poc.Game.Handler.Life.{bound_view, handle_login-outcome}
use rom_server_poc.Auth.{
  Session, Client, Response, Http, request_for, bound_to, answered, validate, seen, seen_session,
}

-- The region service has answered the request for the key with a session that is bound to the code.
pub record Confirmed (client : Client) (http : Http) (key : ℕ) (code : List ℕ) : Type 0 where
  pub session : Session
  pub response : Response
  pub answer : http (request_for client key) ≡ some response
  pub success : response.status ≡ 200
  pub decoded : response.body ≡ some session
  pub bound : session.user_code ≡ code

bound_to-ok :
    (code : List ℕ) (body : Option Session) (session : Session)
    → bound_to code body ≡ ok session
    → (body ≡ some session) × (session.user_code ≡ code)
bound_to-ok code none session e = absurd (ok-ne-err (sym e))
bound_to-ok code (some s) session e = elim (Bool-cases (same_text s.user_code code)) [
  | inr different ↦ absurd (ok-ne-err (sym (rw different at e)))
  | inl same ↦
      let e' : s ≡ session = let h = rw same at e in cc in
      (ap some e', subst (λ x. x.user_code ≡ code) e' ((same_text_iff s.user_code code).0 same))
]

answered-ok :
    (code : List ℕ) (answer : Option Response) (session : Session)
    → answered code answer ≡ ok session
    → (r : Response) × (answer ≡ some r) × (r.status ≡ 200) × (bound_to code r.body ≡ ok session)
answered-ok code none session e = absurd (ok-ne-err (sym e))
answered-ok code (some r) session e = elim (Bool-cases (r.status == 404)) [
  | inl missing ↦ absurd (ok-ne-err (sym (rw missing at e)))
  | inr found ↦ elim (Bool-cases (r.status == 200)) [
    | inl success ↦ (r, refl, (==_iff r.status 200).0 success, rw (found, success) at e)
    | inr failure ↦ absurd (ok-ne-err (sym (rw (found, failure) at e)))
  ]
]

module _ (client : Client) (http : Http) (key : ℕ) (code : List ℕ) where
  validate-Confirmed :
      (session : Session)
      → validate client http key code ≡ ok session
      → (c : Confirmed client http key code) × (c.session ≡ session)
  unfolding validate
  validate-Confirmed session e =
      let (r, answer, success, rest) = answered-ok code (http (request_for client key)) session e in
      let (decoded, bound) = bound_to-ok code r.body session rest in
      (
        record {
          session = session;
          response = r;
          answer = answer;
          success = success;
          decoded = decoded;
          bound = bound;
        },
        refl,
      )

  seen-Confirmed :
      (r : Result AuthError Session) (session : AuthSession)
      → validate client http key code ≡ r
      → seen r ≡ ok session
      → (c : Confirmed client http key code) × (seen_session c.session ≡ session)
  seen-Confirmed (err e) session h s = absurd (ok-ne-err (sym s))
  seen-Confirmed (ok full) session h s =
      let (c, same) = validate-Confirmed full h in
      let e : seen_session full ≡ session = cc in (c, ap seen_session same ∙ e)

module _ {S : Type 0} (env : Env S) (client : Client) (http : Http)
    (asks : (key : ℕ) (code : List ℕ)
      → env.validate key code ≡ seen (validate client http key code)) where
  -- A handler whose validation is the client's leaves the session as it was at a login, or binds it
  -- to the account of a session that the region service returned with status 200 to the request for
  -- the key of the login message, and whose user code is the account code of that message.
  pub handle_login-Confirmed :
      (vs : Values) (s : Conn S)
      → (view (handle_login env vs s).1 ≡ view s)
        ⊎ ((c : Confirmed client http
              (to_int32 (as_int64 (get "m_sessionKey" vs)))
              (as_string (get "m_accountCode" vs)))
            × (view (handle_login env vs s).1 ≡ bound_view (seen_session c.session) (view s)))
  handle_login-Confirmed vs s =
      let key = to_int32 (as_int64 (get "m_sessionKey" vs)) in
      let code = as_string (get "m_accountCode" vs) in
      elim (handle_login-outcome env vs s) [
        | inl kept ↦ inl kept
        | inr (a, bound) ↦
            let (c, same) =
              seen-Confirmed client http key code (validate client http key code) a.session refl
                (sym (asks key code) ∙ a.valid) in
            inr (
              c,
              subst (λ x. view (handle_login env vs s).1 ≡ bound_view x (view s)) (sym same) bound,
            )
      ]
