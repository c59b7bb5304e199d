-- ===== src/Remote/Users/Store.antt =====
-- services/remote_user_store.py: `RemoteUserStore`. Its file is a value, and what a method writes is
-- the file that it leaves. `saving` is the time at which it is written, or `none` where that fails.
use control_ok_a_v.Base.{
  Bool, true, false, not, ◌&&◌, ◌||◌, Option, none, some, List, [], ◌∷◌, String, if◌then◌else◌,
  Result, ok, err, ◌>>=◌, ◌>>◌, raise_if,
}
use control_ok_a_v.Base.Json.{
  Json, null, boolean, number, str, array, object, Items, no_items, item, no_fields, field, get,
}
use control_ok_a_v.Remote.Users.Model.{
  StoreError, username_conflict, last_admin_violation, corrupt_store, invalid_store, write_failed,
  RemoteUserRecord, Texts, is_blank, normalize_remote_username, normalize_remote_notes,
  normalize_record,
}
use text.Mathlib.Text.{◌==◌ as text_eq}

-- The file: that there is none, one that cannot be read or is no JSON, or what it holds.
pub data StoreFile : Type 0 where
  missing unreadable : StoreFile
  holds : Json → StoreFile

-- The keyword arguments of `update_user`; `none` for `notes` is `_UNSET`.
pub record Changes : Type 0 where
  pub new_username : Option String
  pub new_role : Option String
  pub new_enabled : Option Bool
  pub new_notes : Option (Option String)
  pub new_password_hash : Option String
  pub password_changed_at : Option String

abbrev pub is_none_left : List RemoteUserRecord → Bool
is_none_left [] = true
is_none_left (r ∷ rs) = false

-- `next((item for item in records if item.username == username), None)`
abbrev pub find : String → List RemoteUserRecord → Option RemoteUserRecord
find name [] = none
find name (r ∷ rs) = if text_eq r.username name then some r else find name rs

-- `any(item.username == username for item in records)`
abbrev pub has_username : String → List RemoteUserRecord → Bool
has_username name [] = false
has_username name (r ∷ rs) = text_eq r.username name || has_username name rs

abbrev pub is_enabled_admin : RemoteUserRecord → Bool
is_enabled_admin r = r.enabled && text_eq r.role "admin"

abbrev pub has_enabled_admin : List RemoteUserRecord → Bool
has_enabled_admin [] = false
has_enabled_admin (r ∷ rs) = is_enabled_admin r || has_enabled_admin rs

unfoldable pub assert_enabled_admin_survives : List RemoteUserRecord → Result StoreError (Unit {0})
assert_enabled_admin_survives records =
    raise_if (not (has_enabled_admin records)) last_admin_violation

-- `len(usernames) != len(set(usernames))`
abbrev pub has_duplicates : List RemoteUserRecord → Bool
has_duplicates [] = false
has_duplicates (r ∷ rs) = has_username r.username rs || has_duplicates rs

-- The values that the methods convert: `str(v)` of a value that is there or not, and `bool(v)`.
abbrev pub str_of : (Json → String) → Json → String
str_of repr null = "None"
str_of repr (boolean true) = "True"
str_of repr (boolean false) = "False"
str_of repr (str s) = s
str_of repr (number s) = repr (number s)
str_of repr (array xs) = repr (array xs)
str_of repr (object fs) = repr (object fs)

abbrev pub str_or_empty : (Json → String) → Option Json → String
str_or_empty repr none = ""
str_or_empty repr (some v) = str_of repr v

abbrev pub notes_of : (Json → String) → Option Json → Option String
notes_of repr none = none
notes_of repr (some null) = none
notes_of repr (some (boolean b)) = some (str_of repr (boolean b))
notes_of repr (some (str s)) = some s
notes_of repr (some (number s)) = some (repr (number s))
notes_of repr (some (array xs)) = some (repr (array xs))
notes_of repr (some (object fs)) = some (repr (object fs))

-- What `json.dump` writes of a record.
abbrev pub json_notes : Option String → Json
json_notes none = null
json_notes (some s) = str s

unfoldable pub json_user : RemoteUserRecord → Json
json_user r = object (
    field "username" (str r.username) (
      field "password_hash" (str r.password_hash) (
        field "role" (str r.role) (
          field "enabled" (boolean r.enabled) (
            field "created_at" (str r.created_at) (
              field "updated_at" (str r.updated_at) (
                field "last_password_change_at" (str r.last_password_change_at)
                  (field "notes" (json_notes r.notes) no_fields))))))))

abbrev pub json_users : List RemoteUserRecord → Items
json_users [] = no_items
json_users (r ∷ rs) = item (json_user r) (json_users rs)

-- `bool(v)`, and `v == 1`, of a JSON value.
module _ (texts : Texts) where
  abbrev pub is_true : Option Json → Bool
  is_true none = false
  is_true (some null) = false
  is_true (some (boolean b)) = b
  is_true (some (number s)) = not (texts.equals_zero s)
  is_true (some (str s)) = not (is_blank s)
  is_true (some (array no_items)) = false
  is_true (some (array (item x xs))) = true
  is_true (some (object no_fields)) = false
  is_true (some (object (field k v fs))) = true

  abbrev pub is_one : Option Json → Bool
  is_one none = false
  is_one (some null) = false
  is_one (some (boolean b)) = b
  is_one (some (number s)) = texts.equals_one s
  is_one (some (str s)) = false
  is_one (some (array xs)) = false
  is_one (some (object fs)) = false

  -- `sorted(records, key=lambda item: item.username)`, which is stable.
  abbrev pub insert_sorted : RemoteUserRecord → List RemoteUserRecord → List RemoteUserRecord
  insert_sorted r [] = r ∷ []
  insert_sorted r (s ∷ rs) =
      if texts.at_most r.username s.username then r ∷ (s ∷ rs) else s ∷ insert_sorted r rs

  unfoldable pub sorted : List RemoteUserRecord → List RemoteUserRecord
  sorted [] = []
  sorted (r ∷ rs) = insert_sorted r (sorted rs)

  unfoldable pub json_payload : String → List RemoteUserRecord → Json
  unfolding sorted json_user
  json_payload now records = object (
      field "schema_version" (number "1") (
        field "updated_at_utc" (str now)
          (field "users" (array (json_users (sorted records))) no_fields)))

  -- The temporary file takes the place of the old one, or an `OSError` comes before that.
  unfoldable pub save_records :
      Option String → List RemoteUserRecord → StoreFile → Result StoreError (Unit {0}) × StoreFile
  unfolding json_payload
  save_records (some now) records file = (ok tt, holds (json_payload now records))
  save_records none records file = (err write_failed, file)

  unfoldable pub normalize_records :
      List RemoteUserRecord → Result StoreError (List RemoteUserRecord)
  unfolding normalize_record
  normalize_records [] = ok []
  normalize_records (r ∷ rs) = do
    normalized ← normalize_record texts r
    rest ← normalize_records rs
    ok (normalized ∷ rest)

  unfoldable pub normalize_distinct_records :
      List RemoteUserRecord → Result StoreError (List RemoteUserRecord)
  unfolding normalize_records
  normalize_distinct_records records = do
    normalized ← normalize_records records
    raise_if (has_duplicates normalized) username_conflict
    ok normalized

  -- `repr` is `str` of a number, a list or a dictionary.
  module _ (repr : Json → String) where
    unfoldable pub read_user : Json → Result StoreError RemoteUserRecord
    unfolding normalize_record normalize_remote_notes
    read_user (object fields) = normalize_record texts (record {
      username = str_or_empty repr (get "username" fields);
      password_hash = str_or_empty repr (get "password_hash" fields);
      role = str_or_empty repr (get "role" fields);
      enabled = is_true (get "enabled" fields);
      created_at = str_or_empty repr (get "created_at" fields);
      updated_at = str_or_empty repr (get "updated_at" fields);
      last_password_change_at = str_or_empty repr (get "last_password_change_at" fields);
      notes = normalize_remote_notes texts (notes_of repr (get "notes" fields));
    })
    read_user null = err invalid_store
    read_user (boolean b) = err invalid_store
    read_user (number s) = err invalid_store
    read_user (str s) = err invalid_store
    read_user (array xs) = err invalid_store

    unfoldable pub read_users : Items → Result StoreError (List RemoteUserRecord)
    unfolding read_user
    read_users no_items = ok []
    read_users (item v rest) = do user ← read_user v; users ← read_users rest; ok (user ∷ users)

    unfoldable pub read_user_list : Option Json → Result StoreError (List RemoteUserRecord)
    unfolding read_users
    read_user_list (some (array items)) = read_users items
    read_user_list none = err invalid_store
    read_user_list (some null) = err invalid_store
    read_user_list (some (boolean b)) = err invalid_store
    read_user_list (some (number s)) = err invalid_store
    read_user_list (some (str s)) = err invalid_store
    read_user_list (some (object fs)) = err invalid_store

    unfoldable pub load_payload : Json → Result StoreError (List RemoteUserRecord)
    unfolding read_user_list
    load_payload (object fields) = do
      raise_if (not (is_one (get "schema_version" fields))) invalid_store
      read_user_list (get "users" fields)
    load_payload null = err invalid_store
    load_payload (boolean b) = err invalid_store
    load_payload (number s) = err invalid_store
    load_payload (str s) = err invalid_store
    load_payload (array xs) = err invalid_store

    unfoldable pub load_store_data : StoreFile → Result StoreError (List RemoteUserRecord)
    unfolding load_payload
    load_store_data missing = ok []
    load_store_data unreadable = err corrupt_store
    load_store_data (holds payload) = load_payload payload

    unfoldable pub list_users : StoreFile → Result StoreError (List RemoteUserRecord)
    unfolding load_store_data sorted
    list_users file = do records ← load_store_data file; ok (sorted records)

    unfoldable pub is_bootstrap_required : StoreFile → Result StoreError Bool
    unfolding list_users
    is_bootstrap_required file = do users ← list_users file; ok (is_none_left users)

    unfoldable pub get_user : String → StoreFile → Result StoreError (Option RemoteUserRecord)
    unfolding normalize_remote_username list_users
    get_user username file = do
      name ← normalize_remote_username texts username
      users ← list_users file
      ok (find name users)
