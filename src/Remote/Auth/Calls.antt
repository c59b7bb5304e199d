-- ===== src/Remote/Auth/Calls.antt =====
-- Any calls of the service of accounts, one after another (services/remote_auth_service.py): what they
-- leave in the file of users.
use control_ok_a_v.Base.{
  ◌≡◌, refl, inl, Bool, Option, List, [], ◌∷◌, String, Result, ok, err, All, >>=-eq-ok,
}
use control_ok_a_v.Base.Json.{Json}
use control_ok_a_v.Remote.Users.{
  StoreError, Texts, normalize_iso_utc, normalize_password_hash, StoreFile, missing, work_bootstrap,
  work_create, work_update, work_delete, create_user, update_user, delete_user, bootstrap_users,
}
use control_ok_a_v.Remote.Users.Normal.{TextLaws}
use control_ok_a_v.Remote.Users.Kept.{IsStored, written-IsStored}
use control_ok_a_v.Remote.Users.Sound.{AreNormal}
use control_ok_a_v.Remote.Users.Steps.{
  work_create-IsSound, work_update-IsSound, work_delete-IsSound, work_bootstrap-IsSound,
}
use Prim.Derive.{subst}
use control_ok_a_v.Remote.Auth.Hashes.{HashTexts, hash_remote_password-IsNormal}
use control_ok_a_v.Remote.Auth.Passwords.{AuthError, Crypt, validate_remote_password}
use control_ok_a_v.Remote.Auth.Accounts.{Draw, through, and_call, password_change, profile_changes}
use control_ok_a_v.Remote.Auth.Service.{
  new_hash, new_account, create_account, update_user_profile, change_password, delete_account,
}
use control_ok_a_v.Remote.Auth.Bootstrap.{bootstrap_records, bootstrap_initial_accounts}

-- The calls that may write, with what the clock and the file system say to each.
pub data Call : Type 0 where
  bootstrap : List (Draw × Json) → Option String → Call
  create : Draw → String → String → String → Option String → Bool → Option String → Call
  update_profile :
      String
      → Option String
      → Option String
      → Option Bool
      → Option (Option String)
      → String
      → Option String
      → Call
  set_password : Draw → String → String → String → Option String → Call
  remove : String → Option String → Call

abbrev pub finished :
    {A : Type 0} → Result AuthError A × StoreFile → Result AuthError (Unit {0}) × StoreFile
finished (ok a, file) = (ok tt, file)
finished (err e, file) = (err e, file)

module _ (texts : Texts) (crypt : Crypt) (repr : Json → String) where
  unfoldable pub perform : Call → StoreFile → Result AuthError (Unit {0}) × StoreFile
  perform (bootstrap accounts saving) file =
      finished (bootstrap_initial_accounts texts crypt repr accounts saving file)
  perform (create d username password role notes enabled saving) file =
      finished (create_account texts crypt repr d username password role notes enabled saving file)
  perform (update_profile username new_username role enabled notes now saving) file = finished (
      update_user_profile texts crypt repr username new_username role enabled notes now saving file)
  perform (set_password d username new_password now saving) file =
      finished (change_password texts crypt repr d username new_password now saving file)
  perform (remove username saving) file =
      finished (delete_account texts crypt repr username saving file)

  unfoldable pub perform_all : List Call → StoreFile → StoreFile
  perform_all [] file = file
  perform_all (call ∷ calls) file = perform_all calls (perform call file).1

  -- The clock gives a text that is not blank.
  abbrev pub IsTime : String → Type 0
  IsTime now = normalize_iso_utc texts now ≡ ok now

  abbrev pub HasTimes : Call → Type 0
  HasTimes (bootstrap accounts saving) = Unit
  HasTimes (create d username password role notes enabled saving) = Unit
  HasTimes (update_profile username new_username role enabled notes now saving) = IsTime now
  HasTimes (set_password d username new_password now saving) = IsTime d.now × IsTime now
  HasTimes (remove username saving) = Unit

  finished-through :
      {A B : Type 0} (f : A → B) (m : Result StoreError A × StoreFile)
      → (finished (through f m)).1 ≡ m.1
  finished-through f (ok a, file) = refl
  finished-through f (err e, file) = refl

  and_call_keeps :
      {A B : Type 0} (P : StoreFile → Type 0) (m : Result AuthError A)
      (call : A → Result AuthError B × StoreFile) (file : StoreFile)
      → P file
      → ((a : A) → m ≡ ok a → P (finished (call a)).1)
      → P (finished (and_call m call file)).1
  and_call_keeps P (err e) call file h k = h
  and_call_keeps P (ok a) call file h k = k a refl

  through_keeps :
      {A B : Type 0} (P : StoreFile → Type 0) (f : A → B) (m : Result StoreError A × StoreFile)
      → P m.1
      → P (finished (through f m)).1
  through_keeps P f (ok a, file) h = h
  through_keeps P f (err e, file) h = h

module _ (texts : Texts) (crypt : Crypt) (repr : Json → String) (laws : TextLaws texts)
    (hashes : HashTexts texts crypt) where
  new_hash_normal :
      (d : Draw) (password hash : String)
      → new_hash texts crypt repr d password ≡ ok hash
      → normalize_password_hash texts hash ≡ ok hash
  unfolding new_hash
  new_hash_normal d password hash h =
      let (u, checked, h1) = >>=-eq-ok (validate_remote_password texts crypt password) _ h in
      hash_remote_password-IsNormal texts crypt hashes d.salt password hash h1

  pub password_change-AreNormal :
      (d : Draw) (password hash now : String)
      → IsTime texts crypt repr d.now × IsTime texts crypt repr now
      → new_hash texts crypt repr d password ≡ ok hash
      → AreNormal texts (password_change hash d.now) now
  password_change-AreNormal d password hash now t made = record {
    hash_given =
        λ x same. let e : hash ≡ x = cc same in rw (← e) (new_hash_normal d password hash made);
    time_given =
        λ x same. let e : d.now ≡ x = cc same in subst (λ y. IsTime texts crypt repr y) e t.0;
    now_given = t.1;
  }

  pub profile_changes-AreNormal :
      (new_username role : Option String) (enabled : Option Bool) (notes : Option (Option String))
      (now : String)
      → IsTime texts crypt repr now
      → AreNormal texts (profile_changes new_username role enabled notes) now
  profile_changes-AreNormal new_username role enabled notes now t = record {
    hash_given = λ x e. absurd (cc e);
    time_given = λ x e. absurd (cc e);
    now_given = t;
  }

  perform-IsStored :
      (call : Call) (file : StoreFile)
      → HasTimes texts crypt repr call
      → IsStored texts repr file
      → IsStored texts repr (perform texts crypt repr call file).1
  unfolding perform bootstrap_initial_accounts create_account update_user_profile change_password
      delete_account bootstrap_users create_user update_user delete_user
  perform-IsStored (bootstrap accounts saving) file t s =
      and_call_keeps texts crypt repr (IsStored texts repr)
        (bootstrap_records texts crypt repr accounts) _ file s
        (λ records e. through_keeps texts crypt repr (IsStored texts repr) _ _ (
          written-IsStored texts repr laws saving file (work_bootstrap texts repr records file) s
            (λ rs a. work_bootstrap-IsSound texts laws repr records file)))
  perform-IsStored (create d username password role notes enabled saving) file t s =
      and_call_keeps texts crypt repr (IsStored texts repr)
        (new_account texts crypt repr d username password role notes enabled) _ file s
        (λ r e. through_keeps texts crypt repr (IsStored texts repr) _ _ (
          written-IsStored texts repr laws saving file (work_create texts repr r file) s
            (λ rs a. work_create-IsSound texts laws repr r file s)))
  perform-IsStored (update_profile username new_username role enabled notes now saving) file t s =
      through_keeps texts crypt repr (IsStored texts repr) _ _ (
        written-IsStored texts repr laws saving file
          (work_update texts repr username (profile_changes new_username role enabled notes) now
            file)
          s
          (λ rs a.
            work_update-IsSound texts laws repr username
              (profile_changes new_username role enabled notes) now file
              (profile_changes-AreNormal new_username role enabled notes now t) s))
  perform-IsStored (set_password d username new_password now saving) file t s =
      and_call_keeps texts crypt repr (IsStored texts repr)
        (new_hash texts crypt repr d new_password) _ file s
        (λ hash e. through_keeps texts crypt repr (IsStored texts repr) _ _ (
          written-IsStored texts repr laws saving file
            (work_update texts repr username (password_change hash d.now) now file) s
            (λ rs a.
              work_update-IsSound texts laws repr username (password_change hash d.now) now file
                (password_change-AreNormal d new_password hash now t e) s)))
  perform-IsStored (remove username saving) file t s =
      through_keeps texts crypt repr (IsStored texts repr) _ _ (
        written-IsStored texts repr laws saving file (work_delete texts repr username file) s
          (λ rs a. work_delete-IsSound texts laws repr username file s))

  from :
      (calls : List Call) (file : StoreFile)
      → All (HasTimes texts crypt repr) calls
      → IsStored texts repr file
      → IsStored texts repr (perform_all texts crypt repr calls file)
  unfolding perform_all
  from [] file t s = s
  from (call ∷ calls) file t s =
      from calls (perform texts crypt repr call file).1 t.1 (perform-IsStored call file t.0 s)

  -- Whatever calls are made from the time on when there is no file, failed ones included: there is no
  -- file, or it is read as normal users with distinct names, one of them an enabled admin.
  pub perform_all-IsStored :
      (calls : List Call)
      → All (HasTimes texts crypt repr) calls
      → IsStored texts repr (perform_all texts crypt repr calls missing)
  perform_all-IsStored calls t = from calls missing t (inl refl)
