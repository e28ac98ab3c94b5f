-- ===== src/Auth.antt =====
-- internal/auth/client.go: the client of the region service. Its HTTP exchange and the JSON decoder
-- are inputs: an answer has its body as decoded into a Session, or none where that fails.
pub mod FlexInt
pub mod Confirmed
mod Tests
use rom_server_poc.Prelude.{
  ℕ, suc, ◌+◌, ◌-◌, ◌%◌, ◌^◌, Bool, true, false, Option, none, some, List, [], ◌∷◌, ◌++◌, ◌==◌, ltb,
  not, if◌then◌else◌,
}
use rom_server_poc.Prelude.Result.{Result, ok, err}
use rom_server_poc.Prelude.Text.{codes, same_text, trim_left, trim_right}
use rom_server_poc.Prelude.Decimal.{ℤ, pos, negate, parse_int, format_int}
use rom_server_poc.Game.Session.{AuthSession, AuthError, session_invalid, auth_failed}

abbrev pub is_quote : ℕ → Bool
is_quote c = c == 34

abbrev is_slash : ℕ → Bool
is_slash c = c == b'/'

abbrev or_zero : Option ℤ → ℤ
or_zero none = pos 0
or_zero (some n) = n

abbrev pub number_in : List ℕ → ℤ
number_in [] = pos 0
number_in (c ∷ s) = or_zero (parse_int (c ∷ s))

-- flexInt64.UnmarshalJSON, on the bytes of a JSON value.
unfoldable pub unmarshal_flex : List ℕ → ℤ
unfolding same_text trim_left trim_right parse_int
unmarshal_flex raw =
    if same_text raw (codes "null")
    then pos 0
    else number_in (trim_right is_quote (trim_left is_quote raw))

-- Integers other than expires_at by their bit patterns.
pub record Session : Type 0 where
  pub session_key : ℕ
  pub account_id : ℕ
  pub user_code : List ℕ
  pub world_id : ℕ
  pub expires_at : ℤ

pub record Client : Type 0 where
  pub base_url : List ℕ
  pub consume : Bool

unfoldable pub new_client : List ℕ → Bool → Client
unfolding trim_right
new_client base_url consume = record { base_url = trim_right is_slash base_url; consume = consume }

pub data Method : Type 0 where
  method_get method_post : Method

pub record Request : Type 0 where
  pub method : Method
  pub url : List ℕ

pub record Response : Type 0 where
  pub status : ℕ
  pub body : Option Session

-- What NewRequestWithContext and Do give: none where either fails.
abbrev pub Http : Type 0
Http = Request → Option Response

-- int64(sessionKey) of an int32's bit pattern.
abbrev pub signed_int32 : ℕ → ℤ
signed_int32 n = if ltb n (2 ^ 31) then pos n else negate (2 ^ 32 - n)

unfoldable pub request_for : Client → ℕ → Request
unfolding format_int
request_for client session_key =
    let url =
      client.base_url ++ (codes "/internal/sessions/" ++ format_int (signed_int32 session_key)) in
    if client.consume
    then record { method = method_post; url = url ++ codes "/consume" }
    else record { method = method_get; url = url }

abbrev pub bound_to : List ℕ → Option Session → Result AuthError Session
bound_to account_code none = err auth_failed
bound_to account_code (some session) =
    if not (same_text session.user_code account_code) then err session_invalid else ok session

abbrev pub answered : List ℕ → Option Response → Result AuthError Session
answered account_code none = err auth_failed
answered account_code (some resp) =
    if resp.status == 404
    then err session_invalid
    else if not (resp.status == 200)
    then err auth_failed
    else bound_to account_code resp.body

unfoldable pub validate : Client → Http → ℕ → List ℕ → Result AuthError Session
unfolding request_for same_text
validate client http session_key account_code =
    answered account_code (http (request_for client session_key))

-- What the handler reads of a session.
abbrev pub seen_session : Session → AuthSession
seen_session session = record {
  account_id = session.account_id;
  user_code = session.user_code;
  world_id = session.world_id;
}

abbrev pub seen : Result AuthError Session → Result AuthError AuthSession
seen (err e) = err e
seen (ok session) = ok (seen_session session)
