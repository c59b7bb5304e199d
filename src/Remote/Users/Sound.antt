-- ===== src/Remote/Users/Sound.antt =====
-- The methods that write: what they work out on a stored file is sound
-- (services/remote_user_store.py).
use control_ok_a_v.Base.{
  ◌≡◌, refl, ◌∙◌, inl, inr, true, false, not, Option, none, some, List, [], ◌∷◌, ◌++◌, String,
  arith, Result, ok, All, >>=-eq-ok, raise_if-eq-ok, Bool-cases, ◌>>◌,
}
use control_ok_a_v.Base.Json.{Json}
use control_ok_a_v.Remote.Users.Model.{
  StoreError, invalid_bootstrap, bootstrap_already_completed, RemoteUserRecord, Texts,
  normalize_record, normalize_remote_username, or_text, normalize_iso_utc, normalize_password_hash,
  is_blank,
}
use control_ok_a_v.Remote.Users.Store.{
  StoreFile, Changes, find, has_username, has_enabled_admin, has_duplicates, sorted,
  normalize_records, normalize_distinct_records, assert_enabled_admin_survives, load_store_data,
  list_users, is_none_left,
}
use control_ok_a_v.Remote.Users.Methods.{
  replace, without, has_other, found_user, build_updated, work_bootstrap, work_create, work_update,
  work_delete,
}
use control_ok_a_v.Remote.Users.Sorting.{All-sorted, has_duplicates-sorted}
use control_ok_a_v.Remote.Users.Normal.{IsNormal}
use control_ok_a_v.Remote.Users.Kept.{IsStored}

module _ (texts : Texts) where
  -- The texts that a caller of `update_user` gives for a hash and a time, and the clock's, are normal
  -- where they are given.
  pub record AreNormal (c : Changes) (now : String) : Type 0 where
    pub hash_given :
        (h : String) → c.new_password_hash ≡ some h → normalize_password_hash texts h ≡ ok h
    pub time_given :
        (t : String) → c.password_changed_at ≡ some t → normalize_iso_utc texts t ≡ ok t
    pub now_given : normalize_iso_utc texts now ≡ ok now

  pub or_text_keeps :
      (P : String → Type 0) (given : Option String) (old : String)
      → ((s : String) → given ≡ some s → P s)
      → P old
      → P (or_text given old)
  or_text_keeps P none old g h = h
  or_text_keeps P (some s) old g h = elim (Bool-cases (is_blank s)) [
    | inl e ↦ rw e h
    | inr e ↦ rw e (g s refl)
  ]

  survives :
      {A : Type 0} (rs : List RemoteUserRecord) (rest : Result StoreError A) {a : A}
      → (assert_enabled_admin_survives rs >> rest) ≡ ok a
      → (has_enabled_admin rs ≡ true) × (rest ≡ ok a)
  unfolding assert_enabled_admin_survives
  survives rs rest h = ground arith

  module _ (repr : Json → String) where
    -- What the users of a stored file are: normal and distinct, though there may be none.
    pub list_users_stored :
        (file : StoreFile) {rs : List RemoteUserRecord}
        → IsStored texts repr file
        → list_users texts repr file ≡ ok rs
        → (All (IsNormal texts) rs) × (has_duplicates rs ≡ false)
    unfolding list_users load_store_data sorted
    list_users_stored file {rs} (inl e) h = let e' : [] ≡ rs = ground arith in rw (← e') (tt, refl)
    list_users_stored file {rs} (inr (stored, e, s)) h =
        let same : sorted texts stored ≡ rs = ground arith in
        rw (← same) (
          All-sorted (IsNormal texts) texts stored s.are_normal,
          has_duplicates-sorted texts stored ∙ s.are_distinct,
        )

    pub work_create_parts :
        (r : RemoteUserRecord) (file : StoreFile) {rs : List RemoteUserRecord}
        {n : RemoteUserRecord}
        → work_create texts repr r file ≡ ok (rs, n)
        → (old : List RemoteUserRecord) × (list_users texts repr file ≡ ok old)
          × (normalize_record texts r ≡ ok n)
          × (has_username n.username old ≡ false)
          × (has_enabled_admin rs ≡ true)
          × (rs ≡ old ++ (n ∷ []))
    unfolding work_create assert_enabled_admin_survives
    work_create_parts r file h =
        let (old, listed, h') = >>=-eq-ok (list_users texts repr file) _ h in
        let (n', normal, h'') = >>=-eq-ok (normalize_record texts r) _ h' in
        (old, listed, ground arith, ground arith, ground arith, ground arith)

    pub work_update_parts :
        (username : String) (c : Changes) (now : String) (file : StoreFile)
        {rs : List RemoteUserRecord} {updated : RemoteUserRecord}
        → work_update texts repr username c now file ≡ ok (rs, updated)
        → (old : List RemoteUserRecord) × (target : String) × (current : RemoteUserRecord)
          × (list_users texts repr file ≡ ok old)
          × (normalize_remote_username texts username ≡ ok target)
          × (find target old ≡ some current)
          × (build_updated texts c now current ≡ ok updated)
          × (has_other updated.username current.username old ≡ false)
          × (has_enabled_admin rs ≡ true)
          × (rs ≡ replace current.username updated old)
    unfolding work_update assert_enabled_admin_survives
    work_update_parts username c now file h =
        let (old, listed, h1) = >>=-eq-ok (list_users texts repr file) _ h in
        let (target, named, h2) = >>=-eq-ok (normalize_remote_username texts username) _ h1 in
        let (current, found, h3) = >>=-eq-ok (found_user (find target old)) _ h2 in
        let (u, built, h4) = >>=-eq-ok (build_updated texts c now current) _ h3 in
        (
          old,
          target,
          current,
          listed,
          named,
          ground arith,
          ground arith,
          ground arith,
          ground arith,
          ground arith,
        )

    pub work_delete_parts :
        (username : String) (file : StoreFile) {rs : List RemoteUserRecord} {u : Unit {0}}
        → work_delete texts repr username file ≡ ok (rs, u)
        → (old : List RemoteUserRecord) × (target : String) × (list_users texts repr file ≡ ok old)
          × (normalize_remote_username texts username ≡ ok target)
          × (has_enabled_admin rs ≡ true)
          × (rs ≡ without target old)
    unfolding work_delete assert_enabled_admin_survives
    work_delete_parts username file h =
        let (old, listed, h1) = >>=-eq-ok (list_users texts repr file) _ h in
        let (target, named, h2) = >>=-eq-ok (normalize_remote_username texts username) _ h1 in
        (old, target, listed, named, ground arith, ground arith)

    pub work_bootstrap_parts :
        (users : List RemoteUserRecord) (file : StoreFile) {rs made : List RemoteUserRecord}
        → work_bootstrap texts repr users file ≡ ok (rs, made)
        → (normalize_records texts users ≡ ok rs)
          × (has_duplicates rs ≡ false)
          × (has_enabled_admin rs ≡ true)
          × (made ≡ sorted texts rs)
    unfolding work_bootstrap assert_enabled_admin_survives normalize_distinct_records
    work_bootstrap_parts users file h =
        let (present, listed, h2) =
          >>=-eq-ok (list_users texts repr file) _
            (raise_if-eq-ok (is_none_left users) invalid_bootstrap _ h).1 in
        let (ns, normal, h4) =
          >>=-eq-ok (normalize_distinct_records texts users) _
            (raise_if-eq-ok (not (is_none_left present)) bootstrap_already_completed _ h2).1 in
        (ground arith, ground arith, ground arith, ground arith)
