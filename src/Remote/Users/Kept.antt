-- ===== src/Remote/Users/Kept.antt =====
-- The file of users: what is read from it, and that what is written is read back
-- (services/remote_user_store.py).
use control_ok_a_v.Base.{
  ◌≡◌, refl, ap, ◌∙◌, ◌⊎◌, inr, true, false, Option, none, some, List, [], ◌∷◌, String, ok, err,
  All, >>=-eq-ok, raise_if-eq-ok,
}
use control_ok_a_v.Base.Json.{
  Json, null, boolean, number, str, array, object, Items, no_items, item, get,
}
use control_ok_a_v.Remote.Users.Model.{
  StoreError, RemoteUserRecord, Texts, normalize_record, normalize_remote_notes,
  normalize_remote_username,
}
use control_ok_a_v.Remote.Users.Store.{
  StoreFile, missing, unreadable, holds, find, has_enabled_admin, has_duplicates, sorted, json_user,
  json_users, json_notes, notes_of, json_payload, save_records, read_user, read_users,
  read_user_list, load_payload, load_store_data, list_users, get_user,
}
use control_ok_a_v.Remote.Users.Methods.{Worked, written}
use control_ok_a_v.Remote.Users.Sorting.{
  has_duplicates-sorted, has_enabled_admin-sorted, find-sorted, All-sorted,
}
use control_ok_a_v.Remote.Users.Normal.{
  TextLaws, IsValid, IsNormal, normalize_record-IsValid, IsNormal-normalize_record,
}

-- Normal records with distinct names, one of them of an enabled admin.
pub record IsSound (texts : Texts) (rs : List RemoteUserRecord) : Type 0 where
  pub are_normal : All (IsNormal texts) rs
  pub are_distinct : has_duplicates rs ≡ false
  pub admin_stays : has_enabled_admin rs ≡ true

module _ (texts : Texts) (repr : Json → String) where
  -- There is no file yet, or it is read as a sound list of users.
  abbrev pub IsStored : StoreFile → Type 0
  IsStored file =
      (file ≡ missing)
      ⊎ ((rs : List RemoteUserRecord) × (load_store_data texts repr file ≡ ok rs)
          × IsSound texts rs)

  read_user-IsValid :
      (v : Json) {r : RemoteUserRecord} → read_user texts repr v ≡ ok r → IsValid texts r
  unfolding read_user
  read_user-IsValid (object d) h = normalize_record-IsValid texts _ h
  read_user-IsValid null h = absurd (cc h)
  read_user-IsValid (boolean b) h = absurd (cc h)
  read_user-IsValid (number s) h = absurd (cc h)
  read_user-IsValid (str s) h = absurd (cc h)
  read_user-IsValid (array xs) h = absurd (cc h)

  read_users-AreValid :
      (items : Items) {rs : List RemoteUserRecord}
      → read_users texts repr items ≡ ok rs
      → All (IsValid texts) rs
  unfolding read_users
  read_users-AreValid no_items {rs} h = let e : [] ≡ rs = cc h in rw (← e) tt
  read_users-AreValid (item v rest) {rs} h =
      let (r, e, h') = >>=-eq-ok (read_user texts repr v) _ h in
      let (others, e', h'') = >>=-eq-ok (read_users texts repr rest) _ h' in
      let same : r ∷ others ≡ rs = cc h'' in
      rw (← same) (read_user-IsValid v e, read_users-AreValid rest e')

  read_user_list-AreValid :
      (v : Option Json) {rs : List RemoteUserRecord}
      → read_user_list texts repr v ≡ ok rs
      → All (IsValid texts) rs
  unfolding read_user_list
  read_user_list-AreValid (some (array items)) h = read_users-AreValid items h
  read_user_list-AreValid none h = absurd (cc h)
  read_user_list-AreValid (some null) h = absurd (cc h)
  read_user_list-AreValid (some (boolean b)) h = absurd (cc h)
  read_user_list-AreValid (some (number s)) h = absurd (cc h)
  read_user_list-AreValid (some (str s)) h = absurd (cc h)
  read_user_list-AreValid (some (object fs)) h = absurd (cc h)

  load_payload-AreValid :
      (v : Json) {rs : List RemoteUserRecord}
      → load_payload texts repr v ≡ ok rs
      → All (IsValid texts) rs
  unfolding load_payload
  load_payload-AreValid (object d) h =
      read_user_list-AreValid (get "users" d) (raise_if-eq-ok _ _ _ h).1
  load_payload-AreValid null h = absurd (cc h)
  load_payload-AreValid (boolean b) h = absurd (cc h)
  load_payload-AreValid (number s) h = absurd (cc h)
  load_payload-AreValid (str s) h = absurd (cc h)
  load_payload-AreValid (array xs) h = absurd (cc h)

  load_store_data-AreValid :
      (file : StoreFile) {rs : List RemoteUserRecord}
      → load_store_data texts repr file ≡ ok rs
      → All (IsValid texts) rs
  unfolding load_store_data
  load_store_data-AreValid missing {rs} h = let e : [] ≡ rs = cc h in rw (← e) tt
  load_store_data-AreValid unreadable h = absurd (cc h)
  load_store_data-AreValid (holds v) h = load_payload-AreValid v h

  -- Whatever stands in the file: if its users are listed, then each has a name that the pattern takes,
  -- one of the three roles, a password hash and times that are not blank, and no blank note.
  pub list_users-AreValid :
      (file : StoreFile) {rs : List RemoteUserRecord}
      → list_users texts repr file ≡ ok rs
      → All (IsValid texts) rs
  unfolding list_users
  list_users-AreValid file {rs} h =
      let (loaded, e, h') = >>=-eq-ok (load_store_data texts repr file) _ h in
      let same : sorted texts loaded ≡ rs = cc h' in
      rw (← same) (All-sorted (IsValid texts) texts loaded (load_store_data-AreValid file e))

module _ (texts : Texts) (repr : Json → String) (laws : TextLaws texts) where
  notes_of-json_notes : (notes : Option String) → notes_of repr (some (json_notes notes)) ≡ notes
  notes_of-json_notes none = refl
  notes_of-json_notes (some s) = refl

  read_user-json_user :
      (r : RemoteUserRecord) → IsNormal texts r → read_user texts repr (json_user r) ≡ ok r
  unfolding read_user json_user
  read_user-json_user r n =
      ap (λ o. normalize_record texts (record r { notes = normalize_remote_notes texts o }))
        (notes_of-json_notes r.notes)
      ∙ ap (λ o. normalize_record texts (record r { notes = o })) n.normal_notes
      ∙ IsNormal-normalize_record texts r n

  read_users-json_users :
      (rs : List RemoteUserRecord)
      → All (IsNormal texts) rs
      → read_users texts repr (json_users rs) ≡ ok rs
  unfolding read_users
  read_users-json_users [] h = refl
  read_users-json_users (r ∷ rs) h = simp (read_user-json_user r h.0, read_users-json_users rs h.1)

  pub load_store_data-json_payload :
      (now : String) (rs : List RemoteUserRecord)
      → All (IsNormal texts) rs
      → load_store_data texts repr (holds (json_payload texts now rs)) ≡ ok (sorted texts rs)
  unfolding load_store_data load_payload json_payload read_user_list
  load_store_data-json_payload now rs h =
      rw laws.one_is_one
        (read_users-json_users (sorted texts rs) (All-sorted (IsNormal texts) texts rs h))

  pub sorted-IsSound :
      (rs : List RemoteUserRecord) → IsSound texts rs → IsSound texts (sorted texts rs)
  sorted-IsSound rs s = record {
    are_normal = All-sorted (IsNormal texts) texts rs s.are_normal;
    are_distinct = has_duplicates-sorted texts rs ∙ s.are_distinct;
    admin_stays = has_enabled_admin-sorted texts rs ∙ s.admin_stays;
  }

  -- What a method writes is sound, if it has worked out a sound list.
  pub written-IsStored :
      {A : Type 0} (saving : Option String) (file : StoreFile) (worked : Worked A)
      → IsStored texts repr file
      → ((rs : List RemoteUserRecord) (a : A) → worked ≡ ok (rs, a) → IsSound texts rs)
      → IsStored texts repr (written texts saving file worked).1
  unfolding written save_records
  written-IsStored saving file (err e) stored sound = stored
  written-IsStored none file (ok (rs, a)) stored sound = stored
  written-IsStored (some now) file (ok (rs, a)) stored sound = inr (
    sorted texts rs,
    load_store_data-json_payload now rs (sound rs a refl).are_normal,
    sorted-IsSound rs (sound rs a refl),
  )

  -- A method that raises leaves the file as it was.
  pub written_raises :
      {A : Type 0} (saving : Option String) (file : StoreFile) (worked : Worked A) {e : StoreError}
      → (written texts saving file worked).0 ≡ err e
      → (written texts saving file worked).1 ≡ file
  unfolding written save_records
  written_raises saving file (err e) h = refl
  written_raises none file (ok (rs, a)) h = refl
  written_raises (some now) file (ok (rs, a)) h = absurd (cc h)

  -- A method that returns has written what it worked out.
  pub written_returns :
      {A : Type 0} (saving : Option String) (file : StoreFile) (worked : Worked A) {a : A}
      → (written texts saving file worked).0 ≡ ok a
      → (rs : List RemoteUserRecord) × (now : String) × (worked ≡ ok (rs, a))
        × ((written texts saving file worked).1 ≡ holds (json_payload texts now rs))
  unfolding written save_records
  written_returns saving file (err e) h = absurd (cc h)
  written_returns none file (ok (rs, b)) h = absurd (cc h)
  written_returns (some now) file (ok (rs, b)) h = (rs, now, cc h, refl)

  -- In a sound file a name finds what it finds in the list.
  pub get_user-json_payload :
      (username name now : String) (rs : List RemoteUserRecord)
      → IsSound texts rs
      → normalize_remote_username texts username ≡ ok name
      → get_user texts repr username (holds (json_payload texts now rs)) ≡ ok (find name rs)
  unfolding get_user list_users
  get_user-json_payload username name now rs s h = simp (
    h,
    load_store_data-json_payload now rs s.are_normal,
    find-sorted texts name (sorted texts rs) (sorted-IsSound rs s).are_distinct,
    find-sorted texts name rs s.are_distinct,
  )
