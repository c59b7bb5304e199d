-- ===== src/Remote/Users/Methods.antt =====
-- services/remote_user_store.py: the methods of `RemoteUserStore` that write. Each computes the
-- records to write and its result, or raises; then the file is written.
use control_ok_a_v.Base.{
  Bool, false, not, ◌&&◌, ◌||◌, Option, none, some, List, [], ◌∷◌, ◌++◌, String, if◌then◌else◌,
  Result, ok, err, ◌>>=◌, ◌>>◌, raise_if, length, ◌==◌,
}
use control_ok_a_v.Base.Json.{Json}
use control_ok_a_v.Remote.Users.Model.{
  StoreError, username_conflict, user_not_found, invalid_bootstrap, bootstrap_already_completed,
  RemoteUserRecord, Texts, or_text, normalize_remote_username, normalize_remote_role,
  normalize_remote_notes, normalize_record,
}
use control_ok_a_v.Remote.Users.Store.{
  StoreFile, Changes, is_none_left, find, has_username, assert_enabled_admin_survives, sorted,
  save_records, normalize_distinct_records, list_users,
}
use text.Mathlib.Text.{◌==◌ as text_eq}

-- What a method has worked out, before it writes: the records, and what it will return.
abbrev pub Worked : Type 0 → Type 0
Worked A = Result StoreError (List RemoteUserRecord × A)

abbrev pub changed : {A : Type 0} → Option A → A → A
changed none old = old
changed (some new) old = new

-- `item.username == updated.username and item.username != current.username` for some item.
abbrev pub has_other : String → String → List RemoteUserRecord → Bool
has_other new old [] = false
has_other new old (r ∷ rs) =
    (text_eq r.username new && not (text_eq r.username old)) || has_other new old rs

-- `updated if item.username == current.username else item`
abbrev pub replace : String → RemoteUserRecord → List RemoteUserRecord → List RemoteUserRecord
replace name updated [] = []
replace name updated (r ∷ rs) =
    (if text_eq r.username name then updated else r) ∷ replace name updated rs

-- `item.username != target_username`
abbrev pub without : String → List RemoteUserRecord → List RemoteUserRecord
without name [] = []
without name (r ∷ rs) =
    let rest = without name rs in if text_eq r.username name then rest else r ∷ rest

abbrev pub found_user : Option RemoteUserRecord → Result StoreError RemoteUserRecord
found_user none = err user_not_found
found_user (some r) = ok r

module _ (texts : Texts) where
  unfoldable pub written :
      {A : Type 0} → Option String → StoreFile → Worked A → Result StoreError A × StoreFile
  unfolding save_records
  written saving file (err e) = (err e, file)
  written saving file (ok (records, a)) =
      let saved = save_records texts saving records file in (saved.0 >> ok a, saved.1)

  abbrev pub changed_notes : Option (Option String) → Option String → Option String
  changed_notes none old = old
  changed_notes (some notes) old = normalize_remote_notes texts notes

  unfoldable pub build_updated :
      Changes → String → RemoteUserRecord → Result StoreError RemoteUserRecord
  unfolding normalize_remote_username normalize_remote_role normalize_remote_notes
  build_updated c now current = do
    username ← normalize_remote_username texts (or_text c.new_username current.username)
    role ← normalize_remote_role texts (or_text c.new_role current.role)
    ok (record {
      username = username;
      password_hash = or_text c.new_password_hash current.password_hash;
      role = role;
      enabled = changed c.new_enabled current.enabled;
      created_at = current.created_at;
      updated_at = now;
      last_password_change_at = or_text c.password_changed_at current.last_password_change_at;
      notes = changed_notes c.new_notes current.notes;
    })

  module _ (repr : Json → String) where
    unfoldable pub work_bootstrap :
        List RemoteUserRecord → StoreFile → Worked (List RemoteUserRecord)
    unfolding list_users normalize_distinct_records assert_enabled_admin_survives sorted
    work_bootstrap users file = do
      raise_if (is_none_left users) invalid_bootstrap
      present ← list_users texts repr file
      raise_if (not (is_none_left present)) bootstrap_already_completed
      normalized ← normalize_distinct_records texts users
      assert_enabled_admin_survives normalized
      ok (normalized, sorted texts normalized)

    unfoldable pub work_create : RemoteUserRecord → StoreFile → Worked RemoteUserRecord
    unfolding list_users normalize_record assert_enabled_admin_survives
    work_create r file = do
      records ← list_users texts repr file
      normalized ← normalize_record texts r
      raise_if (has_username normalized.username records) username_conflict
      assert_enabled_admin_survives (records ++ (normalized ∷ []))
      ok (records ++ (normalized ∷ []), normalized)

    unfoldable pub work_update : String → Changes → String → StoreFile → Worked RemoteUserRecord
    unfolding list_users normalize_remote_username build_updated assert_enabled_admin_survives
    work_update username c now file = do
      records ← list_users texts repr file
      target ← normalize_remote_username texts username
      current ← found_user (find target records)
      updated ← build_updated c now current
      raise_if (has_other updated.username current.username records) username_conflict
      assert_enabled_admin_survives (replace current.username updated records)
      ok (replace current.username updated records, updated)

    unfoldable pub work_delete : String → StoreFile → Worked (Unit {0})
    unfolding list_users normalize_remote_username assert_enabled_admin_survives
    work_delete username file = do
      records ← list_users texts repr file
      target ← normalize_remote_username texts username
      raise_if (length (without target records) == length records) user_not_found
      assert_enabled_admin_survives (without target records)
      ok (without target records, tt)

    unfoldable pub bootstrap_users :
        List RemoteUserRecord
        → Option String
        → StoreFile
        → Result StoreError (List RemoteUserRecord) × StoreFile
    unfolding work_bootstrap written
    bootstrap_users users saving file = written saving file (work_bootstrap users file)

    unfoldable pub create_user :
        RemoteUserRecord
        → Option String
        → StoreFile
        → Result StoreError RemoteUserRecord × StoreFile
    unfolding work_create written
    create_user r saving file = written saving file (work_create r file)

    unfoldable pub update_user :
        String
        → Changes
        → String
        → Option String
        → StoreFile
        → Result StoreError RemoteUserRecord × StoreFile
    unfolding work_update written
    update_user username c now saving file = written saving file (work_update username c now file)

    unfoldable pub delete_user :
        String → Option String → StoreFile → Result StoreError (Unit {0}) × StoreFile
    unfolding work_delete written
    delete_user username saving file = written saving file (work_delete username file)
