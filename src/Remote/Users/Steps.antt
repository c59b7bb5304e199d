-- ===== src/Remote/Users/Steps.antt =====
-- Each method that writes keeps the file sound, and changes what names find as a map does
-- (services/remote_user_store.py).
use control_ok_a_v.Base.{◌≡◌, Option, none, some, List, [], ◌∷◌, String, arith, ok, All-append}
use control_ok_a_v.Base.Json.{Json}
use control_ok_a_v.Remote.Users.Model.{
  RemoteUserRecord, Texts, normalize_remote_username, normalize_remote_role, normalize_remote_notes,
  normalize_iso_utc, normalize_password_hash, or_text,
}
use control_ok_a_v.Remote.Users.Store.{StoreFile, Changes}
use control_ok_a_v.Remote.Users.Methods.{
  changed_notes, build_updated, work_bootstrap, work_create, work_update, work_delete,
}
use control_ok_a_v.Remote.Users.Records.{
  has_duplicates-append, has_duplicates-replace, has_duplicates-without, All-replace, All-without,
  All-find,
}
use control_ok_a_v.Remote.Users.Normal.{
  TextLaws, IsNormal, normalize_record-IsNormal, normalize_records-AreNormal,
  normalize_username_again, normalize_role_again, normalize_notes_again,
}
use control_ok_a_v.Remote.Users.Kept.{IsSound, IsStored}
use control_ok_a_v.Remote.Users.Sound.{
  AreNormal, or_text_keeps, list_users_stored, work_create_parts, work_update_parts,
  work_delete_parts, work_bootstrap_parts,
}

module _ (texts : Texts) (laws : TextLaws texts) where
  pub build_updated_parts :
      (c : Changes) (now : String) (current : RemoteUserRecord) {updated : RemoteUserRecord}
      → build_updated texts c now current ≡ ok updated
      → (normalize_remote_username texts (or_text c.new_username current.username)
          ≡ ok updated.username)
        × (normalize_remote_role texts (or_text c.new_role current.role) ≡ ok updated.role)
        × (updated.password_hash ≡ or_text c.new_password_hash current.password_hash)
        × (updated.created_at ≡ current.created_at)
        × (updated.updated_at ≡ now)
        × (updated.last_password_change_at
            ≡ or_text c.password_changed_at current.last_password_change_at)
        × (updated.notes ≡ changed_notes texts c.new_notes current.notes)
  unfolding build_updated
  build_updated_parts c now current h = ground arith

  changed_notes_again :
      (given : Option (Option String)) (old : Option String)
      → normalize_remote_notes texts old ≡ old
      → normalize_remote_notes texts (changed_notes texts given old) ≡ changed_notes texts given old
  changed_notes_again none old h = h
  changed_notes_again (some notes) old h = normalize_notes_again texts laws notes

  build_updated-IsNormal :
      (c : Changes) (now : String) (current : RemoteUserRecord) {updated : RemoteUserRecord}
      → AreNormal texts c now
      → IsNormal texts current
      → build_updated texts c now current ≡ ok updated
      → IsNormal texts updated
  build_updated-IsNormal c now current {updated} g n h =
      let (u, o, p, m, w, l, e) = build_updated_parts c now current h in
      record {
        normal_name =
            normalize_username_again texts laws (or_text c.new_username current.username)
              updated.username u;
        normal_role =
            normalize_role_again texts laws (or_text c.new_role current.role) updated.role o;
        normal_hash = rw p (
            or_text_keeps texts (λ s. normalize_password_hash texts s ≡ ok s) c.new_password_hash
              current.password_hash g.hash_given n.normal_hash);
        normal_created_at = rw m n.normal_created_at;
        normal_updated_at = rw w g.now_given;
        normal_change_at = rw l (
            or_text_keeps texts (λ s. normalize_iso_utc texts s ≡ ok s) c.password_changed_at
              current.last_password_change_at g.time_given n.normal_change_at);
        normal_notes = rw e (changed_notes_again c.new_notes current.notes n.normal_notes);
      }

  module _ (repr : Json → String) where
    pub work_create-IsSound :
        (r : RemoteUserRecord) (file : StoreFile) {rs : List RemoteUserRecord}
        {n : RemoteUserRecord}
        → IsStored texts repr file
        → work_create texts repr r file ≡ ok (rs, n)
        → IsSound texts rs
    work_create-IsSound r file {rs} {n} stored h =
        let (old, listed, normal, new, admin, e) = work_create_parts texts repr r file h in
        let (are_normal, are_distinct) = list_users_stored texts repr file stored listed in
        record {
          are_normal = rw e (
              All-append (IsNormal texts) old (n ∷ []) are_normal
                (normalize_record-IsNormal texts laws r normal, tt));
          are_distinct = rw e (has_duplicates-append n old new are_distinct);
          admin_stays = admin;
        }

    pub work_update-IsSound :
        (username : String) (c : Changes) (now : String) (file : StoreFile)
        {rs : List RemoteUserRecord} {updated : RemoteUserRecord}
        → AreNormal texts c now
        → IsStored texts repr file
        → work_update texts repr username c now file ≡ ok (rs, updated)
        → IsSound texts rs
    work_update-IsSound username c now file {rs} {updated} given stored h =
        let (old, target, current, listed, named, found, built, alone, admin, e) =
          work_update_parts texts repr username c now file h in
        let (are_normal, are_distinct) = list_users_stored texts repr file stored listed in
        let current_normal = (All-find (IsNormal texts) target old are_normal found).0 in
        record {
          are_normal = rw e (
              All-replace (IsNormal texts) current.username updated old
                (build_updated-IsNormal c now current given current_normal built) are_normal);
          are_distinct =
              rw e (has_duplicates-replace current.username updated old alone are_distinct);
          admin_stays = admin;
        }

    pub work_delete-IsSound :
        (username : String) (file : StoreFile) {rs : List RemoteUserRecord} {u : Unit {0}}
        → IsStored texts repr file
        → work_delete texts repr username file ≡ ok (rs, u)
        → IsSound texts rs
    work_delete-IsSound username file stored h =
        let (old, target, listed, named, admin, e) = work_delete_parts texts repr username file h in
        let (are_normal, are_distinct) = list_users_stored texts repr file stored listed in
        record {
          are_normal = rw e (All-without (IsNormal texts) target old are_normal);
          are_distinct = rw e (has_duplicates-without target old are_distinct);
          admin_stays = admin;
        }

    pub work_bootstrap-IsSound :
        (users : List RemoteUserRecord) (file : StoreFile) {rs made : List RemoteUserRecord}
        → work_bootstrap texts repr users file ≡ ok (rs, made)
        → IsSound texts rs
    work_bootstrap-IsSound users file h =
        let (normal, distinct, admin, e) = work_bootstrap_parts texts repr users file h in
        record {
          are_normal = normalize_records-AreNormal texts laws users normal;
          are_distinct = distinct;
          admin_stays = admin;
        }
