-- ===== src/Remote/Auth/Service.antt =====
-- services/remote_auth_service.py: `RemoteAuthService` over the file of users. The salt that is drawn
-- and the time are arguments of a call.
use control_ok_a_v.Base.{
  Bool, not, Option, none, some, List, map, String, Result, ok, err, ◌>>=◌, ◌>>◌, raise_if, map_err,
}
use control_ok_a_v.Base.Json.{Json}
use control_ok_a_v.Remote.Users.{RemoteUserRecord, Texts, build_remote_user_record}
use control_ok_a_v.Remote.Users.{StoreFile, is_bootstrap_required, get_user, list_users}
use control_ok_a_v.Remote.Users.{create_user, update_user, delete_user}
use control_ok_a_v.Remote.Auth.Passwords.{
  AuthError, auth_error, store_raised, bootstrap_required, invalid_credentials, account_disabled,
  caught, Crypt, validate_remote_password, hash_remote_password, verify_remote_password,
}
use control_ok_a_v.Remote.Auth.Accounts.{
  Draw, RemoteAuthenticatedUser, to_authenticated_user, through, and_call, profile_changes,
  password_change,
}

module _ (texts : Texts) (crypt : Crypt) (repr : Json → String) where
  abbrev pub checked_account :
      String → Option RemoteUserRecord → Result AuthError RemoteAuthenticatedUser
  checked_account password none = err (auth_error invalid_credentials)
  checked_account password (some account) = do
    raise_if (not account.enabled) (auth_error account_disabled)
    same ← verify_remote_password texts crypt password account.password_hash
    raise_if (not same) (auth_error invalid_credentials)
    ok (to_authenticated_user account)

  unfoldable pub authenticate_credentials :
      String → String → StoreFile → Result AuthError RemoteAuthenticatedUser
  unfolding is_bootstrap_required get_user verify_remote_password
  authenticate_credentials username password file = do
    required ← map_err store_raised (is_bootstrap_required texts repr file)
    raise_if required (auth_error bootstrap_required)
    account ← map_err caught (get_user texts repr username file)
    checked_account password account

  unfoldable pub get_authenticated_user :
      String → StoreFile → Result AuthError (Option RemoteAuthenticatedUser)
  unfolding get_user
  get_authenticated_user username file = do
    account ← map_err caught (get_user texts repr username file)
    ok (elim account [ none ↦ none | some r ↦ some (to_authenticated_user r) ])

  unfoldable pub list_public_users : StoreFile → Result AuthError (List RemoteAuthenticatedUser)
  unfolding list_users
  list_public_users file = do
    users ← map_err caught (list_users texts repr file)
    ok (map to_authenticated_user users)

  -- The record of a new account, or what its checks raise.
  unfoldable pub new_account :
      Draw → String → String → String → Option String → Bool → Result AuthError RemoteUserRecord
  unfolding validate_remote_password hash_remote_password build_remote_user_record
  new_account d username password role notes enabled = do
    validate_remote_password texts crypt password
    password_hash ← hash_remote_password texts crypt d.salt password
    map_err caught (build_remote_user_record texts username password_hash role enabled notes d.now)

  unfoldable pub create_account :
      Draw
      → String
      → String
      → String
      → Option String
      → Bool
      → Option String
      → StoreFile
      → Result AuthError RemoteAuthenticatedUser × StoreFile
  unfolding new_account create_user
  create_account d username password role notes enabled saving file =
      and_call (new_account d username password role notes enabled)
        (λ r. through to_authenticated_user (create_user texts repr r saving file)) file

  -- `notes` is `none` where the caller gives none.
  unfoldable pub update_user_profile :
      String
      → Option String
      → Option String
      → Option Bool
      → Option (Option String)
      → String
      → Option String
      → StoreFile
      → Result AuthError RemoteAuthenticatedUser × StoreFile
  unfolding update_user
  update_user_profile username new_username role enabled notes now saving file =
      through to_authenticated_user (
        update_user texts repr username (profile_changes new_username role enabled notes) now saving
          file)

  -- The hash of the new password, or what its checks raise.
  unfoldable pub new_hash : Draw → String → Result AuthError String
  unfolding validate_remote_password hash_remote_password
  new_hash d new_password = do
    validate_remote_password texts crypt new_password
    hash_remote_password texts crypt d.salt new_password

  -- `now` is what the clock says in `update_user`, after the draw.
  unfoldable pub change_password :
      Draw
      → String
      → String
      → String
      → Option String
      → StoreFile
      → Result AuthError RemoteAuthenticatedUser × StoreFile
  unfolding new_hash update_user
  change_password d username new_password now saving file =
      and_call (new_hash d new_password)
        (λ password_hash.
          through to_authenticated_user
            (update_user texts repr username (password_change password_hash d.now) now saving file))
        file

  unfoldable pub delete_account :
      String → Option String → StoreFile → Result AuthError (Unit {0}) × StoreFile
  unfolding delete_user
  delete_account username saving file =
      through (λ u. u) (delete_user texts repr username saving file)
