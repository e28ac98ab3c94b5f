-- ===== src/Game/Enter/Token.antt =====
-- The warp token of an enter-world: who may load the map.
use Prim.Native.String.{String}
use rom_server_poc.Prelude.{
  ℕ, ◌≡◌, refl, ap, ◌∙◌, Bool, ◌&&◌, true, false, not, ==_iff, Option, none, some, List, ◌==◌,
  if◌then◌else◌,
}
use rom_server_poc.Prelude.Result.{Result, ok, err}
use rom_server_poc.Protocol.Primitives.{CodecError}
use rom_server_poc.Protocol.Codec.{encode}
use rom_server_poc.Protocol.Zero.{zero_values}
use rom_server_poc.Protocol.Value.{Values, get}
use rom_server_poc.Persist.{Character}
use rom_server_poc.Game.Session.{
  Env, Conn, Action, HandlerError, token_mismatch, continue, lift_codec, written, ◌>>=◌, send,
  zeroed, as_int64,
}
use rom_server_poc.Game.Enter.{handle_map_enter, map_enter_as, map_enter_reply}
use rom_server_poc.Game.Handler.Keeps.{view, handle_map_enter-Keeps}

module _ {S : Type 0} where
  -- The answer depends on nothing but the view of the session.
  abbrev SameAnswer : Action S (Unit {0}) → Type 0
  SameAnswer m = (s t : Conn S) → view s ≡ view t → (m s).0 ≡ (m t).0

  token-view : (s t : Conn S) → view s ≡ view t → s.warp_token ≡ t.warp_token
  unfolding view
  token-view s t e = ap (λ v. v.warp_token) e

  character-view : (s t : Conn S) → view s ≡ view t → s.character ≡ t.character
  unfolding view
  character-view s t e = ap (λ v. v.character) e

  link_up-view : (s t : Conn S) → view s ≡ view t → s.link_up ≡ t.link_up
  unfolding view
  link_up-view s t e = ap (λ v. v.link_up) e

  written-answer :
      (b c : Bool) (name : String) (vs : Values) (s t : Conn S)
      → b ≡ c
      → (written b name vs s).0 ≡ (written c name vs t).0
  written-answer true true name vs s t e = refl
  written-answer true false name vs s t e = cc
  written-answer false true name vs s t e = cc
  written-answer false false name vs s t e = refl

  guard-ok :
      (b : Bool) (e : HandlerError) (x : Result HandlerError (Unit {0}) × Conn S) (s : Conn S)
      → (if not b then (err e, s) else x).0 ≡ ok tt
      → b ≡ true
  guard-ok true e x s h = refl
  guard-ok false e x s h = cc

  guard-answer :
      (b c : Bool) (e : HandlerError) (x y : Result HandlerError (Unit {0}) × Conn S) (s t : Conn S)
      → b ≡ c
      → x.0 ≡ y.0
      → (if not b then (err e, s) else x).0 ≡ (if not c then (err e, t) else y).0
  guard-answer true true e x y s t h k = k
  guard-answer true false e x y s t h k = cc
  guard-answer false true e x y s t h k = cc
  guard-answer false false e x y s t h k = refl

  sent-answer :
      (r : Result CodecError (List ℕ)) (name : String) (vs : Values) (s t : Conn S)
      → (b c : Bool) → b ≡ c
      → (continue (lift_codec r s).0 (λ _. written b name vs) s).0
        ≡ (continue (lift_codec r t).0 (λ _. written c name vs) t).0
  sent-answer (ok bytes) name vs s t b c e = written-answer b c name vs s t e
  sent-answer (err f) name vs s t b c e = refl

  module _ (env : Env S) where
    send-answer : (name : String) (vs : Values) → SameAnswer (send env name vs)
    unfolding send
    send-answer name vs s t e =
        sent-answer (encode env.floats env.catalog env.fuel name vs) name vs s t _ _
          (ap (λ b. b && env.writes name) (link_up-view s t e))

    zeroed-answer :
        (r : Result CodecError Values) (name : String) (f : Values → Values)
        → SameAnswer (lift_codec r >>= λ reply. send env name (f reply))
    zeroed-answer (ok reply) name f s t e = send-answer name (f reply) s t e
    zeroed-answer (err c) name f s t e = refl

    zeroed_reply-answer :
        (name : String) (f : Values → Values)
        → SameAnswer (zeroed env name >>= λ reply. send env name (f reply))
    unfolding zeroed
    zeroed_reply-answer name f = zeroed-answer (zero_values env.catalog env.fuel name) name f

    accepted-parts :
        (token : ℕ) (o : Option Character) (s : Conn S)
        → (map_enter_as env token o s).0 ≡ ok tt
        → (c : Character) × (o ≡ some c) × (token ≡ s.warp_token)
    accepted-parts token none s h = cc
    accepted-parts token (some c) s h = (
      c,
      refl,
      (==_iff token s.warp_token).0 (guard-ok (token == s.warp_token) token_mismatch _ s h),
    )

    map_enter_as-answer : (token : ℕ) (o : Option Character) → SameAnswer (map_enter_as env token o)
    map_enter_as-answer token none s t e = refl
    map_enter_as-answer token (some c) s t e =
        guard-answer (token == s.warp_token) (token == t.warp_token) token_mismatch _ _ s t
          (ap (λ w. token == w) (token-view s t e))
          (zeroed_reply-answer "S2C_MapEnter" (map_enter_reply env c) s t e)

    handle_map_enter-answer : (vs : Values) → SameAnswer (handle_map_enter env vs)
    unfolding handle_map_enter
    handle_map_enter-answer vs s t e =
        let token = as_int64 (get "m_warpToken" vs) in
        map_enter_as-answer token s.character s t e
        ∙ ap (λ o. (map_enter_as env token o t).0) (character-view s t e)

    -- A map-enter is answered only to a session with a character, and only if the message carries
    -- the session's warp token. The token is not used up: the same message, in the
    -- same surroundings, is answered again.
    pub handle_map_enter-token :
        (vs : Values) (s : Conn S)
        → (handle_map_enter env vs s).0 ≡ ok tt
        → ((c : Character) × (s.character ≡ some c)
            × (as_int64 (get "m_warpToken" vs) ≡ s.warp_token))
          × ((handle_map_enter env vs (handle_map_enter env vs s).1).0 ≡ ok tt)
    unfolding handle_map_enter
    handle_map_enter-token vs s h = (
      accepted-parts (as_int64 (get "m_warpToken" vs)) s.character s h,
      handle_map_enter-answer vs (handle_map_enter env vs s).1 s (handle_map_enter-Keeps env vs s)
          ∙ h,
    )
