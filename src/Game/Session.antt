-- ===== src/Game/Session.antt =====
-- internal/game/handler.go: what a handler works on. A handler is an action on the connection's
-- state that may fail.
use Prim.Native.String.{String}
use rom_server_poc.Prelude.{
  ℕ, ◌%◌, ◌^◌, Bool, ◌&&◌, if◌then◌else◌, true, false, Option, some, List, [], ◌∷◌, ◌++◌,
}
use rom_server_poc.Prelude.Result.{Result, ok, err}
use rom_server_poc.Protocol.Catalog.{Catalog}
use rom_server_poc.Protocol.Value.{Value, num, int64, uint64, text, values, Values, get, put}
use rom_server_poc.Protocol.Primitives.{Floats, CodecError}
use rom_server_poc.Protocol.Codec.{encode}
use rom_server_poc.Protocol.Zero.{zero_values}
use rom_server_poc.Persist.{StoreError, Character, Store}
use rom_server_poc.World.{Command}

-- The session record that the region service returns.
pub record AuthSession : Type 0 where
  pub account_id : ℕ
  pub user_code : List ℕ
  pub world_id : ℕ

pub data AuthError : Type 0 where
  session_invalid auth_failed : AuthError

pub data HandlerError : Type 0 where
  codec_failed : CodecError → HandlerError
  store_failed : StoreError → HandlerError
  write_failed random_failed : HandlerError
  identifiers_mismatch version_mismatch token_mismatch : HandlerError
  before_login : String → HandlerError
  before_enter : HandlerError

-- A context: whether it is done, and whether a `select` between a send and its end would then take
-- the end.
pub record Context : Type 0 where
  pub cancelled : Bool
  pub gives_up : Bool

-- The handler's dependencies, and what it reads of its surroundings in one call: the clock, eight
-- random bytes (`none` if the source fails), the answers of the region service and the context.
-- `others` is what other connections do to the store between two calls of the store, and `writes`
-- whether the socket takes the write of a message; a handler sends a message at most once.
pub record Env (S : Type 0) : Type 0 where
  pub validate : ℕ → List ℕ → Result AuthError AuthSession
  pub store : Store S
  pub protocol_ver : ℕ
  pub world_id : ℕ
  pub now_seconds : ℕ
  pub now_milli : ℕ
  pub now_nano : ℕ
  pub random : Option (List ℕ)
  pub context : Context
  pub others : S → S
  pub writes : String → Bool
  pub floats : Floats
  pub catalog : Catalog
  pub fuel : ℕ

-- `session`, with the part of its connection that handlers use, the store, and what has been done:
-- the messages sent and the world commands enqueued. `link_up` is that the socket is not closed.
pub record Conn (S : Type 0) : Type 0 where
  pub account_id : ℕ
  pub account_code : List ℕ
  pub authed : Bool
  pub character : Option Character
  pub player_oid : ℕ
  pub warp_token : ℕ
  pub in_world : Bool
  pub conn_id : ℕ
  pub socket_uid : ℕ
  pub connection_key : ℕ
  pub link_up : Bool
  pub db : S
  pub sent : List (String × Values)
  pub commands : List Command

-- `World.do`: the command is enqueued, or dropped, which takes a context that is done.
abbrev pub enqueued : Context → Command → List Command → List Command
enqueued ctx c cs = if ctx.cancelled && ctx.gives_up then cs else cs ++ c ∷ []

abbrev pub Action : Type 0 → Type 0 → Type 0
Action S A = Conn S → Result HandlerError A × Conn S

module _ {S A : Type 0} where
  abbrev pub pure : A → Action S A
  pure a s = (ok a, s)

  abbrev pub raise : HandlerError → Action S A
  raise e s = (err e, s)

  abbrev pub lift_codec : Result CodecError A → Action S A
  lift_codec (ok a) s = (ok a, s)
  lift_codec (err e) s = (err (codec_failed e), s)

  abbrev pub lift_store : Result StoreError A → Action S A
  lift_store (ok a) s = (ok a, s)
  lift_store (err e) s = (err (store_failed e), s)

module _ {S A B : Type 0} where
  abbrev pub continue : Result HandlerError A → (A → Action S B) → Action S B
  continue (ok a) f s = f a s
  continue (err e) f s = (err e, s)

  infixl 5 ◌>>=◌ ◌>>◌
  abbrev pub ◌>>=◌ : Action S A → (A → Action S B) → Action S B
  ◌>>=◌ m f s = let (r, s') = m s in continue r f s'

  abbrev pub ◌>>◌ : Action S A → Action S B → Action S B
  m >> k = m >>= λ _. k

module _ {S : Type 0} where
  abbrev pub modify : (Conn S → Conn S) → Action S (Unit {0})
  modify f s = (ok tt, f s)

  abbrev pub written : Bool → String → Values → Action S (Unit {0})
  written true name vs s = (ok tt, record s { sent = s.sent ++ (name, vs) ∷ [] })
  written false name vs s = (err write_failed, s)

  -- `conn.Send`: the message is encoded, then written.
  unfoldable pub send : Env S → String → Values → Action S (Unit {0})
  unfolding encode
  send env name vs s =
      continue (lift_codec (encode env.floats env.catalog env.fuel name vs) s).0
        (λ _. written (s.link_up && env.writes name) name vs) s

  -- protocol.ZeroValues
  unfoldable pub zeroed : Env S → String → Action S Values
  unfolding zero_values
  zeroed env name = lift_codec (zero_values env.catalog env.fuel name)

-- `v, _ := asInt64(values[name])`: 0 where the value is missing or of another type.
abbrev pub as_int64 : Option Value → ℕ
as_int64 (some (num int64 n)) = n
as_int64 (some (num uint64 n)) = n
as_int64 _ = 0

abbrev pub as_uint64 : Option Value → ℕ
as_uint64 (some (num uint64 n)) = n
as_uint64 (some (num int64 n)) = n
as_uint64 _ = 0

abbrev pub as_string : Option Value → List ℕ
as_string (some (text s)) = s
as_string _ = []

-- int32(n)
abbrev pub to_int32 : ℕ → ℕ
to_int32 n = n % 2 ^ 32

abbrev pub with_struct : (Values → Values) → String → Values → Option Value → Values
with_struct f name vs (some (values inner)) = put name (values (f inner)) vs
with_struct f name vs _ = vs

-- `if inner, ok := vs[name].(Values); ok { f(inner) }`, which changes the map inside `vs`.
unfoldable pub update_struct : String → (Values → Values) → Values → Values
unfolding get put
update_struct name f vs = with_struct f name vs (get name vs)
