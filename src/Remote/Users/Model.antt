-- ===== src/Remote/Users/Model.antt =====
-- services/remote_user_store.py: a record of a user, and what makes its fields normal.
use control_ok_a_v.Base.{
  Bool, not, ◌||◌, Option, none, some, String, if◌then◌else◌, Result, ok, ◌>>=◌, ◌>>◌, raise_if,
}
use control_ok_a_v.Base.Dict.{string_eq}
use text.Mathlib.Text.{◌==◌ as text_eq}

-- The codes of `RemoteUserStoreError`, and an `OSError` while the file is written.
pub data StoreError : Type 0 where
  invalid_username invalid_role invalid_password_hash invalid_timestamp : StoreError
  username_conflict user_not_found last_admin_violation : StoreError
  invalid_bootstrap bootstrap_already_completed corrupt_store invalid_store : StoreError
  write_failed : StoreError

pub record RemoteUserRecord : Type 0 where
  pub username : String
  pub password_hash : String
  pub role : String
  pub enabled : Bool
  pub created_at : String
  pub updated_at : String
  pub last_password_change_at : String
  pub notes : Option String

-- Python's operations on texts: `strip`, `lower`, whether `_USERNAME_PATTERN` matches, `a <= b`, and
-- whether a number of a JSON text, as it is spelled, equals 1 or 0.
pub record Texts : Type 0 where
  pub strip : String → String
  pub lower : String → String
  pub matches_username : String → Bool
  pub at_most : String → String → Bool
  pub equals_one : String → Bool
  pub equals_zero : String → Bool

abbrev pub is_blank : String → Bool
is_blank s = text_eq s ""

-- `value or otherwise`, where an empty text counts as no value.
abbrev pub or_text : Option String → String → String
or_text none otherwise = otherwise
or_text (some s) otherwise = if is_blank s then otherwise else s

abbrev pub is_remote_role : String → Bool
is_remote_role s = text_eq s "observador" || (text_eq s "tecnico" || text_eq s "admin")

module _ (texts : Texts) where
  unfoldable pub normalize_remote_username : String → Result StoreError String
  normalize_remote_username username = do
    let name = texts.lower (texts.strip username)
    raise_if (not (texts.matches_username name)) invalid_username
    ok name

  unfoldable pub normalize_remote_role : String → Result StoreError String
  normalize_remote_role role = do
    raise_if (not (is_remote_role (texts.strip role))) invalid_role
    ok (texts.strip role)

  unfoldable pub normalize_remote_notes : Option String → Option String
  normalize_remote_notes none = none
  normalize_remote_notes (some notes) =
      if is_blank (texts.strip notes) then none else some (texts.strip notes)

  unfoldable pub normalize_iso_utc : String → Result StoreError String
  normalize_iso_utc value = do
    raise_if (is_blank (texts.strip value)) invalid_timestamp
    ok (texts.strip value)

  -- `password_hash` of `_normalize_record`.
  unfoldable pub normalize_password_hash : String → Result StoreError String
  normalize_password_hash value = do
    raise_if (is_blank (texts.strip value)) invalid_password_hash
    ok (texts.strip value)

  unfoldable pub normalize_record : RemoteUserRecord → Result StoreError RemoteUserRecord
  unfolding normalize_remote_username normalize_remote_role normalize_remote_notes
      normalize_password_hash normalize_iso_utc
  normalize_record r = do
    username ← normalize_remote_username r.username
    role ← normalize_remote_role r.role
    password_hash ← normalize_password_hash r.password_hash
    created_at ← normalize_iso_utc r.created_at
    updated_at ← normalize_iso_utc r.updated_at
    last_password_change_at ← normalize_iso_utc r.last_password_change_at
    ok (record {
      username = username;
      password_hash = password_hash;
      role = role;
      enabled = r.enabled;
      created_at = created_at;
      updated_at = updated_at;
      last_password_change_at = last_password_change_at;
      notes = normalize_remote_notes r.notes;
    })

  -- The keyword arguments of `build_remote_user_record`; `now` is what the clock says.
  unfoldable pub build_remote_user_record :
      String → String → String → Bool → Option String → String → Result StoreError RemoteUserRecord
  unfolding normalize_remote_username normalize_remote_role normalize_remote_notes
  build_remote_user_record username password_hash role enabled notes now = do
    name ← normalize_remote_username username
    resolved_role ← normalize_remote_role role
    ok (record {
      username = name;
      password_hash = texts.strip password_hash;
      role = resolved_role;
      enabled = enabled;
      created_at = now;
      updated_at = now;
      last_password_change_at = now;
      notes = normalize_remote_notes notes;
    })
