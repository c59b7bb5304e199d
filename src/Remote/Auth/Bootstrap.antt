-- ===== src/Remote/Auth/Bootstrap.antt =====
-- services/remote_auth_service.py: the first accounts (`bootstrap_initial_accounts`).
use control_ok_a_v.Base.{
  Bool, true, false, not, ◌&&◌, Option, none, some, List, [], ◌∷◌, map, String, if◌then◌else◌,
  Result, ok, err, ◌>>=◌, ◌>>◌, raise_if, map_err,
}
use control_ok_a_v.Base.Json.{Json, null, boolean, number, str, array, object, get}
use control_ok_a_v.Remote.Users.{
  RemoteUserRecord, Texts, normalize_remote_username, normalize_remote_role,
  build_remote_user_record,
}
use control_ok_a_v.Remote.Users.{StoreFile, is_true, str_of, notes_of}
use control_ok_a_v.Remote.Users.{bootstrap_users}
use control_ok_a_v.Remote.Auth.Passwords.{
  AuthError, auth_error, store_raised, bootstrap_invalid, Crypt, validate_remote_password,
  hash_remote_password,
}
use control_ok_a_v.Remote.Auth.Accounts.{
  Draw, RemoteAuthenticatedUser, to_authenticated_user, contains, through, and_call,
}

module _ (texts : Texts) (crypt : Crypt) (repr : Json → String) where
  -- `str(value or "")`, and `str(value)` of what `get` gives.
  abbrev pub str_or_blank : Option Json → String
  str_or_blank none = ""
  str_or_blank (some v) = if is_true texts (some v) then str_of repr v else ""

  abbrev pub str_of_got : Option Json → String
  str_of_got none = "None"
  str_of_got (some v) = str_of repr v

  abbrev pub stripped_notes : Option String → Option String
  stripped_notes none = none
  stripped_notes (some s) = some (texts.strip s)

  -- One account of the bootstrap, and its role, unless the role was seen.
  unfoldable pub bootstrap_account :
      List String → Draw → Json → Result AuthError (RemoteUserRecord × String)
  unfolding validate_remote_password hash_remote_password normalize_remote_username
      normalize_remote_role build_remote_user_record
  bootstrap_account seen d (object item) = do
    username ←
        map_err store_raised (normalize_remote_username texts (str_or_blank (get "username" item)))
    role ← map_err store_raised (normalize_remote_role texts (str_or_blank (get "role" item)))
    raise_if (contains role seen) (auth_error bootstrap_invalid)
    validate_remote_password texts crypt (str_or_blank (get "password" item))
    password_hash ← hash_remote_password texts crypt d.salt (str_of_got (get "password" item))
    made ← map_err store_raised (
        build_remote_user_record texts username password_hash role true
          (stripped_notes (notes_of repr (get "notes" item))) d.now)
    ok (made, role)
  bootstrap_account seen d null = err (auth_error bootstrap_invalid)
  bootstrap_account seen d (boolean b) = err (auth_error bootstrap_invalid)
  bootstrap_account seen d (number s) = err (auth_error bootstrap_invalid)
  bootstrap_account seen d (str s) = err (auth_error bootstrap_invalid)
  bootstrap_account seen d (array xs) = err (auth_error bootstrap_invalid)

  -- The loop over the accounts: the records, and the roles seen.
  unfoldable pub bootstrap_accounts :
      List String → List (Draw × Json) → Result AuthError (List RemoteUserRecord × List String)
  unfolding bootstrap_account
  bootstrap_accounts seen [] = ok ([], seen)
  bootstrap_accounts seen ((d, item) ∷ rest) = do
    made ← bootstrap_account seen d item
    others ← bootstrap_accounts (made.1 ∷ seen) rest
    ok (made.0 ∷ others.0, others.1)

  -- `set(REQUIRED_BOOTSTRAP_ROLES) != seen_roles`: a role that was seen is one of the three.
  abbrev pub has_required_roles : List String → Bool
  has_required_roles seen =
      contains "admin" seen && (contains "tecnico" seen && contains "observador" seen)

  abbrev pub is_no_account : List (Draw × Json) → Bool
  is_no_account [] = true
  is_no_account (a ∷ rest) = false

  unfoldable pub bootstrap_records : List (Draw × Json) → Result AuthError (List RemoteUserRecord)
  unfolding bootstrap_accounts
  bootstrap_records accounts = do
    raise_if (is_no_account accounts) (auth_error bootstrap_invalid)
    made ← bootstrap_accounts [] accounts
    raise_if (not (has_required_roles made.1)) (auth_error bootstrap_invalid)
    ok made.0

  unfoldable pub bootstrap_initial_accounts :
      List (Draw × Json)
      → Option String
      → StoreFile
      → Result AuthError (List RemoteAuthenticatedUser) × StoreFile
  unfolding bootstrap_records bootstrap_users
  bootstrap_initial_accounts accounts saving file =
      and_call (bootstrap_records accounts)
        (λ records.
          through (map to_authenticated_user) (bootstrap_users texts repr records saving file))
        file
