-- ===== src/Remote/Auth/Accounts.antt =====
-- services/remote_auth_service.py: the account that a caller sees, and calls of the store.
use control_ok_a_v.Base.{
  Bool, false, ◌||◌, Option, none, some, List, [], ◌∷◌, String, Result, ok, err,
}
use control_ok_a_v.Base.Bytes.{Bytes}
use control_ok_a_v.Remote.Users.{StoreError, RemoteUserRecord}
use control_ok_a_v.Remote.Users.{StoreFile, Changes}
use control_ok_a_v.Remote.Auth.Passwords.{AuthError, caught}
use text.Mathlib.Text.{◌==◌ as text_eq}

-- What a call draws: a salt, and the time as text.
pub record Draw : Type 0 where
  pub salt : Bytes
  pub now : String

pub record RemoteAuthenticatedUser : Type 0 where
  pub username : String
  pub role : String
  pub enabled : Bool
  pub notes : Option String
  pub created_at : String
  pub updated_at : String
  pub last_password_change_at : String

abbrev pub to_authenticated_user : RemoteUserRecord → RemoteAuthenticatedUser
to_authenticated_user r = record {
  username = r.username;
  role = r.role;
  enabled = r.enabled;
  notes = r.notes;
  created_at = r.created_at;
  updated_at = r.updated_at;
  last_password_change_at = r.last_password_change_at;
}

abbrev pub contains : String → List String → Bool
contains s [] = false
contains s (t ∷ ts) = text_eq t s || contains s ts

-- A call of the store with its exceptions turned into the service's.
abbrev pub through :
    {A B : Type 0} → (A → B) → Result StoreError A × StoreFile → Result AuthError B × StoreFile
through f (ok a, file) = (ok (f a), file)
through f (err e, file) = (err (caught e), file)

-- What comes before a call of the store may raise.
abbrev pub and_call :
    {A B : Type 0}
    → Result AuthError A
    → (A → Result AuthError B × StoreFile)
    → StoreFile
    → Result AuthError B × StoreFile
and_call (err e) call file = (err e, file)
and_call (ok a) call file = call a

-- The keyword arguments with which `update_user_profile` and `change_password` call `update_user`.
abbrev pub profile_changes :
    Option String → Option String → Option Bool → Option (Option String) → Changes
profile_changes new_username role enabled notes = record {
  new_username = new_username;
  new_role = role;
  new_enabled = enabled;
  new_notes = notes;
  new_password_hash = none;
  password_changed_at = none;
}

abbrev pub password_change : String → String → Changes
password_change password_hash changed_at = record {
  new_username = none;
  new_role = none;
  new_enabled = none;
  new_notes = none;
  new_password_hash = some password_hash;
  password_changed_at = some changed_at;
}
