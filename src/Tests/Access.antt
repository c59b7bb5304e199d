-- ===== src/Tests/Access.antt =====
-- Sessions and tokens of the remote console at concrete inputs. Moments are numbers, and a cookie is its
-- value.
use control_ok_a_v.Base.{
  ℕ, ◌+◌, ◌≡◌, ◌↔◌, refl, Bool, ◌&&◌, not, true, Option, none, some, List, [], ◌∷◌, String,
  if◌then◌else◌, arith, ok, err, leb,
}
use control_ok_a_v.Base.Int.{pos, pos_part}
use control_ok_a_v.Base.Dict.{Dict}
use control_ok_a_v.Remote.Sessions.{
  Clock, RemoteSessionService, init, resolve_session, extract_session_id,
}
use control_ok_a_v.Remote.Sessions.Lifetime.{
  Call, create, resolve, destroy, perform_all, renew_found,
}
use control_ok_a_v.Remote.Sessions.Histories.{
  alone_all, resolve_session_alone, run_out_session_is_gone,
}
use control_ok_a_v.Remote.Access.{
  Library, RemoteApiConfig, RemoteApiTokenBinding, resolve_remote_api_token_bindings,
  authenticate_bearer_request, find_binding, type_error, authorize_remote_api_action,
  parse_authorization_header,
}
use control_ok_a_v.Remote.Access.Permissions.{tecnico, may, authorize_remote_api_action_iff}
use control_ok_a_v.Remote.Access.Bearers.{IsToldApart, authenticate_bearer_request-IsToldApart}
use text.Mathlib.Text.{◌==◌ as text_eq}

abbrev clock : Clock ℕ
clock = record {
  plus = λ t d. t + pos_part d;
  at_most = leb;
  strip = λ s. s;
  cookie_value = λ name raw. some raw;
}

-- One session is used in time, while another runs out.
abbrev calls : List (Call ℕ)
calls =
    create "ana" "a" 0
    ∷ (create "eva" "b" 10 ∷ (resolve (some "a") 250 ∷ (destroy (some "c") ∷ [])))

named_a : extract_session_id clock (some "a") (init clock "" (pos 100)) ≡ some "a"
unfolding extract_session_id
named_a = refl

resolve_session_alone_example :
    (resolve_session clock (some "a") 400 (perform_all clock calls (init clock "" (pos 100)))).0
    ≡ renew_found clock
        (init clock "" (pos 100)).ttl_s
        400
        (alone_all clock "a" (init clock "" (pos 100)) calls none)
resolve_session_alone_example =
    resolve_session_alone clock "a" "" (pos 100) calls (some "a") 400 named_a

leb_trans : (a b c : ℕ) → leb a b ≡ true → leb b c ≡ true → leb a c ≡ true
leb_trans a b c h k = ground arith

-- The other session has run out at 310.
abbrev service : RemoteSessionService ℕ
service = record {
  cookie_name = "session";
  ttl_s = pos 300;
  sessions =
      (
        "b",
        record {
          session_id = "b";
          username = "eva";
          created_at_monotonic = 10;
          expires_at_monotonic = 310;
        },
      )
      ∷ [];
}

named_b : extract_session_id clock (some "b") service ≡ some "b"
unfolding extract_session_id
named_b = refl

run_out_session_is_gone_example :
    (resolve_session clock
      (some "b")
      330
      (perform_all clock (create "ana" "a" 310 ∷ (resolve (some "b") 320 ∷ [])) service)).0
    ≡ none
run_out_session_is_gone_example =
    run_out_session_is_gone clock leb_trans "b" service 310 330
      (create "ana" "a" 310 ∷ (resolve (some "b") 320 ∷ [])) (some "b") (refl, tt) refl
      ((refl, refl), (refl, tt)) refl named_b

-- All texts of these tests but one are ASCII.
abbrev ascii : String → Bool
ascii s = not (text_eq s "señal")

abbrev library : Library
library = record {
  strip = λ s. s;
  lower = λ s. if text_eq s "Bearer" then "bearer" else s;
  split_once = λ s. if text_eq s "Bearer t2" then some ("Bearer", "t2") else none;
  sha256_prefix = λ s. s;
  compare_digest = λ a b. if ascii a && ascii b then some (text_eq a b) else none;
}

authorize_remote_api_action_iff_example :
    (authorize_remote_api_action library "tecnico" "node.request_stat_now" ≡ ok tt)
    ↔ (may tecnico "node.request_stat_now" ≡ true)
authorize_remote_api_action_iff_example =
    authorize_remote_api_action_iff library tecnico "tecnico" "node.request_stat_now" refl

abbrev config : RemoteApiConfig
config = record {
  auth_mode = "bearer_token_inventory";
  token_env_var = "";
  tokens =
      record { env_var = "A"; role = "observador"; label = none }
      ∷ (record { env_var = "B"; role = "admin"; label = some "main" } ∷ []);
}

abbrev environ : Dict String String
environ = ("A", "t1") ∷ (("B", "t2") ∷ [])

abbrev binding : String → String → Option String → String → String → RemoteApiTokenBinding
binding env role label token actor = record {
  env_var = env;
  role = role;
  token_label = label;
  token_value = token;
  actor_id = actor;
  granted_authorization_result = "granted";
}

abbrev bindings : List RemoteApiTokenBinding
bindings =
    binding "A" "observador" none "t1" "remote_api_token:t1"
    ∷ (binding "B" "admin" (some "main") "t2" "remote_api_token:t2" ∷ [])

resolved : resolve_remote_api_token_bindings library config environ ≡ ok bindings
unfolding resolve_remote_api_token_bindings
resolved = refl

parsed : parse_authorization_header library (some "Bearer t2") ≡ some ("Bearer", "t2")
unfolding parse_authorization_header
parsed = refl

authenticate_bearer_request-IsToldApart_example :
    IsToldApart library ascii
      (λ a b. refl)
      "t2"
      bindings
      (authenticate_bearer_request library (some "Bearer t2") bindings)
authenticate_bearer_request-IsToldApart_example =
    authenticate_bearer_request-IsToldApart library ascii (λ a b. refl) config environ bindings
      (some "Bearer t2") "Bearer" "t2" resolved parsed refl

-- A token that is not ASCII is neither known nor refused.
not_ascii_raises : find_binding library "señal" bindings ≡ err type_error
unfolding find_binding
not_ascii_raises = refl
