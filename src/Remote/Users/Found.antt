-- ===== src/Remote/Users/Found.antt =====
-- Each method that writes changes what names find as a map does (services/remote_user_store.py).
use control_ok_a_v.Base.{◌≡◌, ◌∙◌, Option, none, some, List, String, if◌then◌else◌, arith, ok}
use control_ok_a_v.Base.Json.{Json}
use control_ok_a_v.Remote.Users.Model.{RemoteUserRecord, Texts, normalize_remote_username, or_text}
use control_ok_a_v.Remote.Users.Store.{StoreFile, Changes, find, list_users, get_user}
use control_ok_a_v.Remote.Users.Methods.{
  changed, build_updated, work_create, work_update, work_delete, create_user, update_user,
  delete_user,
}
use control_ok_a_v.Remote.Users.Records.{
  All-find, find-append, find-replace, find-without, has_username-find,
}
use control_ok_a_v.Remote.Users.Normal.{TextLaws, IsNormal}
use control_ok_a_v.Remote.Users.Kept.{IsStored, written_returns, get_user-json_payload}
use text.Mathlib.Text.{◌==◌ as text_eq}
use control_ok_a_v.Remote.Users.Sound.{
  AreNormal, list_users_stored, work_create_parts, work_update_parts, work_delete_parts,
}
use control_ok_a_v.Remote.Users.Steps.{
  work_create-IsSound, work_update-IsSound, work_delete-IsSound, build_updated_parts,
}

module _ (texts : Texts) (laws : TextLaws texts) where
  module _ (repr : Json → String) where
    -- What a name finds in a stored file is what it finds in the list of its users.
    get_user_stored :
        (username name : String) (file : StoreFile) {old : List RemoteUserRecord}
        → list_users texts repr file ≡ ok old
        → normalize_remote_username texts username ≡ ok name
        → get_user texts repr username file ≡ ok (find name old)
    unfolding get_user
    get_user_stored username name file listed named = simp (listed, named)

    -- After `create_user` has returned on a stored file, a name finds the new user if it is that user's,
    -- and what it found before if not.
    pub get_user-create_user :
        (r : RemoteUserRecord) (saving : Option String) (file : StoreFile) (n : RemoteUserRecord)
        (username name : String)
        → IsStored texts repr file
        → (create_user texts repr r saving file).0 ≡ ok n
        → normalize_remote_username texts username ≡ ok name
        → get_user texts repr username (create_user texts repr r saving file).1
          ≡ (if text_eq n.username name then ok (some n) else get_user texts repr username file)
    unfolding create_user
    get_user-create_user r saving file n username name stored h named =
        let (rs, now, worked, wrote) =
          written_returns texts repr laws saving file (work_create texts repr r file) h in
        let (old, listed, normal, new, admin, e) = work_create_parts texts repr r file worked in
        rw wrote (
          get_user-json_payload texts repr laws username name now rs
            (work_create-IsSound texts laws repr r file stored worked) named
          ∙ ground
              (arith, find-append name n old new, get_user_stored username name file listed named))

    -- Let the texts that an update gives be as reading them leaves them: the new hash and the times are
    -- not blank, and are stripped. After `update_user` has returned on a stored file, the new name finds the updated user, the old
    -- name no user unless it is the new one, and any other name what it found before.
    pub get_user-update_user :
        (target : String) (c : Changes) (at : String) (saving : Option String) (file : StoreFile)
        (updated : RemoteUserRecord) (old_name username name : String)
        → AreNormal texts c at
        → IsStored texts repr file
        → (update_user texts repr target c at saving file).0 ≡ ok updated
        → normalize_remote_username texts target ≡ ok old_name
        → normalize_remote_username texts username ≡ ok name
        → get_user texts repr username (update_user texts repr target c at saving file).1 ≡ (
            if text_eq updated.username name
            then ok (some updated)
            else (if text_eq old_name name then ok none else get_user texts repr username file))
    unfolding update_user
    get_user-update_user target c at saving file updated old_name username name given stored h
          targeted named =
        let worked_out = work_update texts repr target c at file in
        let (rs, now, worked, wrote) = written_returns texts repr laws saving file worked_out h in
        let (old, other, current, listed, other_named, found, built, alone, admin, e) =
          work_update_parts texts repr target c at file worked in
        let same : other ≡ old_name = cc in
        let has_name =
          (All-find (IsNormal texts) other old (list_users_stored texts repr file stored listed).0
            found).1 in
        rw wrote (
          get_user-json_payload texts repr laws username name now rs
            (work_update-IsSound texts laws repr target c at file given stored worked) named
          ∙ ground (
            arith,
            find-replace name current.username updated old alone,
            has_username-find current.username old,
            has_name,
            same,
            get_user_stored username name file listed named,
          ))

    -- After `delete_user` has returned on a stored file, the name of the user finds none, and any other
    -- name what it found before.
    pub get_user-delete_user :
        (target : String) (saving : Option String) (file : StoreFile)
        (old_name username name : String)
        → IsStored texts repr file
        → (delete_user texts repr target saving file).0 ≡ ok tt
        → normalize_remote_username texts target ≡ ok old_name
        → normalize_remote_username texts username ≡ ok name
        → get_user texts repr username (delete_user texts repr target saving file).1
          ≡ (if text_eq old_name name then ok none else get_user texts repr username file)
    unfolding delete_user
    get_user-delete_user target saving file old_name username name stored h targeted named =
        let worked_out = work_delete texts repr target file in
        let (rs, now, worked, wrote) = written_returns texts repr laws saving file worked_out h in
        let (old, other, listed, other_named, admin, e) =
          work_delete_parts texts repr target file worked in
        let same : other ≡ old_name = cc in
        rw wrote (
          get_user-json_payload texts repr laws username name now rs
            (work_delete-IsSound texts laws repr target file stored worked) named
          ∙ ground (
            arith,
            find-without name other old,
            same,
            get_user_stored username name file listed named,
          ))

    -- An update that gives no new name keeps the name of the user.
    pub update_user_keeps_name :
        (target : String) (c : Changes) (at : String) (saving : Option String) (file : StoreFile)
        (updated : RemoteUserRecord) (old_name : String)
        → IsStored texts repr file
        → (update_user texts repr target c at saving file).0 ≡ ok updated
        → normalize_remote_username texts target ≡ ok old_name
        → c.new_username ≡ none
        → updated.username ≡ old_name
    unfolding update_user
    update_user_keeps_name target c at saving file updated old_name stored h targeted no_name =
        let worked_out = work_update texts repr target c at file in
        let (rs, now, worked, wrote) = written_returns texts repr laws saving file worked_out h in
        let (old, other, current, listed, other_named, found, built, alone, admin, e) =
          work_update_parts texts repr target c at file worked in
        let same : other ≡ old_name = cc in
        let (normal, has_name) =
          All-find (IsNormal texts) other old (list_users_stored texts repr file stored listed).0
            found in
        let kept = (build_updated_parts texts laws c at current built).0 in
        let named = normal.normal_name in ground arith

    -- The other fields of an updated user that the changes give, or that it had.
    pub update_user_fields :
        (target : String) (c : Changes) (at : String) (saving : Option String) (file : StoreFile)
        (updated : RemoteUserRecord)
        → (update_user texts repr target c at saving file).0 ≡ ok updated
        → (current : RemoteUserRecord) × (old_name : String) × (normalize_remote_username texts
              target
            ≡ ok old_name)
          × (updated.password_hash ≡ or_text c.new_password_hash current.password_hash)
          × (updated.enabled ≡ changed c.new_enabled current.enabled)
    unfolding update_user build_updated
    update_user_fields target c at saving file updated h =
        let worked_out = work_update texts repr target c at file in
        let (rs, now, worked, wrote) = written_returns texts repr laws saving file worked_out h in
        let (old, other, current, listed, other_named, found, built, alone, admin, e) =
          work_update_parts texts repr target c at file worked in
        (
          current,
          other,
          other_named,
          (build_updated_parts texts laws c at current built).2,
          ground arith,
        )
