-- ===== src/Remote/Access/Model.antt =====
-- services/remote_api_auth.py: tokens, roles and actions.
use control_ok_a_v.Base.{
  Bool, true, false, not, ◌&&◌, ◌||◌, Option, none, some, List, [], ◌∷◌, String, if◌then◌else◌,
  Result, ok, err, ◌>>=◌, ◌>>◌, raise_if,
}
use control_ok_a_v.Base.Dict.{Dict, lookup, string_eq}
use text.Mathlib.Text.{◌==◌ as text_eq}
use Prim.Native.String.{◌++◌ as append_text}

-- `RemoteApiAuthConfigError`, `RemoteApiUnauthorizedError` with its `authorization_result` and the
-- actor's identifier, `RemoteApiForbiddenError` with the role, and the `TypeError` of
-- `hmac.compare_digest`.
pub data AccessError : Type 0 where
  config_error type_error : AccessError
  denied_missing_token : AccessError
  denied_invalid_token : String → AccessError
  denied_forbidden_role : String → AccessError

pub record RemoteApiTokenInventoryEntry : Type 0 where
  pub env_var : String
  pub role : String
  pub label : Option String

-- The fields of `RemoteApiConfig` that say who may use the interface.
pub record RemoteApiConfig : Type 0 where
  pub auth_mode : String
  pub token_env_var : String
  pub tokens : List RemoteApiTokenInventoryEntry

pub record RemoteApiTokenBinding : Type 0 where
  pub env_var : String
  pub role : String
  pub token_label : Option String
  pub token_value : String
  pub actor_id : String
  pub granted_authorization_result : String

pub record RemoteApiAuthContext : Type 0 where
  pub actor_type : String
  pub actor_id : String
  pub role : String
  pub token_label : Option String
  pub authorization_result : String

-- Python's texts: `strip`, `lower`, the two parts of `split(None, 1)` where there are two, the first 12
-- digits of a SHA-256, and `hmac.compare_digest`, `none` where it raises.
pub record Library : Type 0 where
  pub strip : String → String
  pub lower : String → String
  pub split_once : String → Option (String × String)
  pub sha256_prefix : String → String
  pub compare_digest : String → String → Option Bool

abbrev pub contains : String → List String → Bool
contains s [] = false
contains s (t ∷ ts) = text_eq t s || contains s ts

abbrev pub valid_remote_api_roles : List String
valid_remote_api_roles = "observador" ∷ ("tecnico" ∷ ("admin" ∷ []))

abbrev pub read_only_actions : List String
read_only_actions = "health.read" ∷ ("runtime.summary.read" ∷ ("nodes.read" ∷ ("node.read" ∷ [])))

abbrev pub authenticated_any_role_actions : List String
authenticated_any_role_actions = "auth.logout" ∷ []

abbrev pub tech_actions : List String
tech_actions = "node.request_stat_now" ∷ []

abbrev pub admin_actions : List String
admin_actions =
    "node.reboot"
    ∷ ("accounts.read"
        ∷ ("account.create"
            ∷ ("account.update" ∷ ("account.change_password" ∷ ("account.delete" ∷ [])))))

abbrev pub is_no_entry : List RemoteApiTokenInventoryEntry → Bool
is_no_entry [] = true
is_no_entry (e ∷ es) = false

abbrev pub is_allowed : String → String → Bool
is_allowed role action =
    contains action read_only_actions
    || (contains action authenticated_any_role_actions
        || ((contains action tech_actions && (text_eq role "tecnico" || text_eq role "admin"))
            || (contains action admin_actions && text_eq role "admin")))

abbrev pub context_of : RemoteApiTokenBinding → RemoteApiAuthContext
context_of b = record {
  actor_type = "technical_token";
  actor_id = b.actor_id;
  role = b.role;
  token_label = b.token_label;
  authorization_result = b.granted_authorization_result;
}

-- The comparison with one binding, and what comes if it fails.
abbrev pub compared :
    Option Bool
    → RemoteApiTokenBinding
    → Result AccessError RemoteApiAuthContext
    → Result AccessError RemoteApiAuthContext
compared none b rest = err type_error
compared (some true) b rest = ok (context_of b)
compared (some false) b rest = rest

module _ (library : Library) where
  unfoldable pub build_token_fingerprint : String → String
  build_token_fingerprint token =
      let name = library.strip token in
      if text_eq name "" then "missing" else library.sha256_prefix name

  unfoldable pub build_actor_id_for_token : String → String
  unfolding build_token_fingerprint
  build_actor_id_for_token token = append_text "remote_api_token:" (build_token_fingerprint token)

  abbrev pub token_text : Option String → Result AccessError String
  token_text none = err config_error
  token_text (some token) = do
    raise_if (text_eq (library.strip token) "") config_error
    ok (library.strip token)

  unfoldable pub resolve_expected_bearer_token :
      String → Dict String String → Result AccessError String
  resolve_expected_bearer_token token_env_var environ = do
    raise_if (text_eq (library.strip token_env_var) "") config_error
    token_text (lookup (library.strip token_env_var) environ)

  -- The loop over the inventory, with the tokens seen.
  unfoldable pub inventory_bindings :
      List RemoteApiTokenInventoryEntry
      → Dict String String
      → List String
      → Result AccessError (List RemoteApiTokenBinding)
  unfolding resolve_expected_bearer_token build_actor_id_for_token
  inventory_bindings [] environ seen = ok []
  inventory_bindings (entry ∷ entries) environ seen = do
    token ← resolve_expected_bearer_token entry.env_var environ
    raise_if (contains token seen) config_error
    rest ← inventory_bindings entries environ (token ∷ seen)
    ok (
        record {
          env_var = entry.env_var;
          role = entry.role;
          token_label = entry.label;
          token_value = token;
          actor_id = build_actor_id_for_token token;
          granted_authorization_result = "granted";
        }
        ∷ rest)

  unfoldable pub legacy_binding :
      RemoteApiConfig → Dict String String → Result AccessError (List RemoteApiTokenBinding)
  unfolding resolve_expected_bearer_token build_actor_id_for_token
  legacy_binding config environ = do
    token ← resolve_expected_bearer_token config.token_env_var environ
    ok (
        record {
          env_var = config.token_env_var;
          role = "admin";
          token_label = some "legacy-admin";
          token_value = token;
          actor_id = build_actor_id_for_token token;
          granted_authorization_result = "granted_legacy_admin";
        }
        ∷ [])

  unfoldable pub resolve_remote_api_token_bindings :
      RemoteApiConfig → Dict String String → Result AccessError (List RemoteApiTokenBinding)
  unfolding legacy_binding inventory_bindings
  resolve_remote_api_token_bindings config environ =
      if text_eq config.auth_mode "human_session_only"
      then ok []
      else (if text_eq config.auth_mode "bearer_token"
          then legacy_binding config environ
          else (raise_if (not (text_eq config.auth_mode "bearer_token_inventory")) config_error
              >> (raise_if (is_no_entry config.tokens) config_error
                  >> inventory_bindings config.tokens environ [])))

  abbrev pub both_parts : Option (String × String) → Option (String × String)
  both_parts none = none
  both_parts (some (scheme, token)) =
      if text_eq (library.strip scheme) "" || text_eq (library.strip token) ""
      then none
      else some (library.strip scheme, library.strip token)

  unfoldable pub parse_authorization_header : Option String → Option (String × String)
  parse_authorization_header none = none
  parse_authorization_header (some value) =
      if text_eq (library.strip value) ""
      then none
      else both_parts (library.split_once (library.strip value))

  unfoldable pub find_binding :
      String → List RemoteApiTokenBinding → Result AccessError RemoteApiAuthContext
  unfolding build_actor_id_for_token
  find_binding token [] = err (denied_invalid_token (build_actor_id_for_token token))
  find_binding token (b ∷ bs) =
      compared (library.compare_digest token b.token_value) b (find_binding token bs)

  abbrev pub with_parts :
      List RemoteApiTokenBinding
      → Option (String × String)
      → Result AccessError RemoteApiAuthContext
  with_parts bindings none = err denied_missing_token
  with_parts bindings (some (scheme, token)) =
      if text_eq (library.lower scheme) "bearer"
      then find_binding token bindings
      else err denied_missing_token

  unfoldable pub authenticate_bearer_request :
      Option String → List RemoteApiTokenBinding → Result AccessError RemoteApiAuthContext
  unfolding parse_authorization_header find_binding
  authenticate_bearer_request authorization_header token_bindings =
      with_parts token_bindings (parse_authorization_header authorization_header)

  unfoldable pub normalize_role : String → Result AccessError String
  normalize_role role = do
    raise_if (not (contains (library.strip role) valid_remote_api_roles)) config_error
    ok (library.strip role)

  unfoldable pub authorize_normalized : String → String → Result AccessError (Unit {0})
  unfolding normalize_role
  authorize_normalized role action = do
    normalized ← normalize_role role
    raise_if (not (is_allowed normalized action)) (denied_forbidden_role normalized)

  unfoldable pub authorize_remote_api_action : String → String → Result AccessError (Unit {0})
  unfolding authorize_normalized
  authorize_remote_api_action role action =
      if text_eq action "request.invalid" then ok tt else authorize_normalized role action

  abbrev pub normalized_label : Option String → Option String
  normalized_label none = none
  normalized_label (some label) =
      if text_eq (library.strip label) "" then none else some (library.strip label)

  unfoldable pub build_remote_api_token_entry :
      String → String → Option String → Result AccessError RemoteApiTokenInventoryEntry
  unfolding normalize_role
  build_remote_api_token_entry env_var role label = do
    raise_if (text_eq (library.strip env_var) "") config_error
    normalized_role ← normalize_role role
    ok (record {
      env_var = library.strip env_var;
      role = normalized_role;
      label = normalized_label label;
    })
