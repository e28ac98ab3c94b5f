-- ===== src/Auth/Tests.antt =====
-- A region service that knows one session, and values of expiresAt.
use rom_server_poc.Prelude.{
  ◌≡◌, refl, ◌⊎◌, true, false, none, some, List, [], ◌∷◌, ◌++◌, if◌then◌else◌, arith,
}
use rom_server_poc.Prelude.Result.{ok, err}
use rom_server_poc.Prelude.Text.{codes, same_text}
use rom_server_poc.Prelude.Decimal.{pos, negsuc, format_int}
use rom_server_poc.Protocol.Value.{num, int64, text, Values, entry, empty, get}
use rom_server_poc.Persist.{Character}
use rom_server_poc.Game.Session.{Env, session_invalid, auth_failed}
use rom_server_poc.Game.Samples.{sample_env, sample_conn}
use rom_server_poc.Game.Handler.{handle_login}
use rom_server_poc.Game.Handler.Life.{bound_view}
use rom_server_poc.Game.Handler.Keeps.{view}
use rom_server_poc.Auth.{
  Session, Client, Http, new_client, request_for, validate, seen, seen_session, unmarshal_flex,
  method_get,
}
use rom_server_poc.Auth.FlexInt.{unmarshal_flex-format_int}
use rom_server_poc.Auth.Confirmed.{Confirmed, handle_login-Confirmed}

abbrev region_client : Client
region_client = record { base_url = codes "http://region"; consume = true }

abbrev known_session : Session
known_session = record {
  session_key = 5;
  account_id = 7;
  user_code = 97 ∷ [];
  world_id = 1;
  expires_at = pos 0;
}

abbrev region : Http
region req =
    if same_text req.url (codes "http://region/internal/sessions/5/consume")
    then some (record { status = 200; body = some known_session })
    else some (record { status = 404; body = none })

base_url_trimmed : new_client (codes "http://region//") true ≡ region_client
unfolding new_client
base_url_trimmed = refl

negative_key :
    request_for (record { base_url = []; consume = false }) (4294967295)
    ≡ record { method = method_get; url = codes "/internal/sessions/-1" }
unfolding request_for
negative_key = refl

validate_known : validate region_client region 5 (97 ∷ []) ≡ ok known_session
unfolding validate
validate_known = refl

validate_other_code : validate region_client region 5 (98 ∷ []) ≡ err session_invalid
unfolding validate
validate_other_code = refl

validate_unknown : validate region_client region 6 (97 ∷ []) ≡ err session_invalid
unfolding validate
validate_unknown = refl

validate_silent : validate region_client (λ req. none) 5 (97 ∷ []) ≡ err auth_failed
unfolding validate
validate_silent = refl

flex_null : unmarshal_flex (codes "null") ≡ pos 0
unfolding unmarshal_flex
flex_null = refl

flex_fraction : unmarshal_flex (codes "1.5") ≡ pos 0
unfolding unmarshal_flex
flex_fraction = refl

unmarshal_flex-format_int_example :
    (unmarshal_flex (format_int (negsuc 41)) ≡ negsuc 41)
    × (unmarshal_flex (34 ∷ (format_int (negsuc 41) ++ 34 ∷ [])) ≡ negsuc 41)
unmarshal_flex-format_int_example = unmarshal_flex-format_int (negsuc 41) (omega arith)

abbrev region_env : Env (List Character)
region_env = record sample_env {
  validate = λ key code. seen (validate region_client region key code);
}

abbrev login : Values
login = entry "m_accountCode" (text (97 ∷ [])) (entry "m_sessionKey" (num int64 5) empty)

handle_login-Confirmed_example :
    (view (handle_login region_env login sample_conn).1 ≡ view sample_conn)
    ⊎ ((c : Confirmed region_client region 5 (97 ∷ [])) × (view
            (handle_login region_env login sample_conn).1
          ≡ bound_view (seen_session c.session) (view sample_conn)))
unfolding get
handle_login-Confirmed_example =
    handle_login-Confirmed region_env region_client region (λ key code. refl) login sample_conn
