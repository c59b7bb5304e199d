-- ===== src/Remote/Auth/Signing.antt =====
-- Who can sign in after a call of the service (services/remote_auth_service.py).
use control_ok_a_v.Base.{
  ◌≡◌, refl, ap, ◌∙◌, Bool, true, false, Option, none, some, List, [], ◌∷◌, String, if◌then◌else◌,
  arith, Result, ok, err, >>=-eq-ok,
}
use control_ok_a_v.Base.Bytes.{Bytes}
use control_ok_a_v.Base.Json.{Json}
use control_ok_a_v.Remote.Users.{
  StoreError, RemoteUserRecord, Texts, normalize_remote_username, is_blank, StoreFile, update_user,
  get_user, list_users, is_bootstrap_required, find, is_none_left,
}
use control_ok_a_v.Remote.Users.Normal.{TextLaws}
use control_ok_a_v.Remote.Users.Kept.{IsStored}
use control_ok_a_v.Remote.Users.Found.{
  get_user-update_user, update_user_keeps_name, update_user_fields,
}
use control_ok_a_v.Remote.Auth.Passwords.{
  AuthError, auth_error, invalid_credentials, account_disabled, Crypt, hash_remote_password,
  validate_remote_password,
}
use control_ok_a_v.Remote.Auth.Hashes.{
  HashTexts, HashLaws, digest, hash_remote_password_parts, verify-hash,
}
use control_ok_a_v.Remote.Auth.Accounts.{
  Draw, RemoteAuthenticatedUser, to_authenticated_user, through, and_call, password_change,
  profile_changes,
}
use control_ok_a_v.Remote.Auth.Service.{
  new_hash, update_user_profile, change_password, checked_account, authenticate_credentials,
}
use control_ok_a_v.Remote.Auth.Calls.{IsTime, password_change-AreNormal, profile_changes-AreNormal}
use text.Mathlib.Text.{◌==◌ as text_eq}
use text.Mathlib.TextEquality.{eq_iff}

-- What signing in gives: the account if it is enabled and the password's digest is the right one.
abbrev pub signs_in : Bool → RemoteAuthenticatedUser → Result AuthError RemoteAuthenticatedUser
signs_in same u =
    if u.enabled
    then (if same then ok u else err (auth_error invalid_credentials))
    else err (auth_error account_disabled)

if_true : {A : Type 0} (b : Bool) (x y : A) → b ≡ true → (if b then x else y) ≡ x
if_true b x y h = ap (λ c. if c then x else y) h

module _ (texts : Texts) (crypt : Crypt) (repr : Json → String) where
  found_some :
      (name : String) (users : List RemoteUserRecord) {r : RemoteUserRecord}
      → find name users ≡ some r
      → is_none_left users ≡ false
  found_some name [] h = absurd (cc h)
  found_some name (u ∷ users) h = refl

  found_bootstrapped :
      (username : String) (file : StoreFile) {r : RemoteUserRecord}
      → get_user texts repr username file ≡ ok (some r)
      → is_bootstrap_required texts repr file ≡ ok false
  unfolding get_user is_bootstrap_required
  found_bootstrapped username file {r} h =
      let (name, named, h1) = >>=-eq-ok (normalize_remote_username texts username) _ h in
      let (users, listed, h2) = >>=-eq-ok (list_users texts repr file) _ h1 in
      simp (listed, found_some name users {r = r} (cc h2))

  -- A name that finds an account is checked against it.
  authenticate_found :
      (username password : String) (file : StoreFile) (r : RemoteUserRecord)
      → get_user texts repr username file ≡ ok (some r)
      → authenticate_credentials texts crypt repr username password file
        ≡ checked_account texts crypt repr password (some r)
  unfolding authenticate_credentials
  authenticate_found username password file r h = simp (found_bootstrapped username file h, h)

  -- What a call that returned has returned from the store.
  through-eq-ok :
      {A B : Type 0} (f : A → B) (m : Result StoreError A × StoreFile) {b : B}
      → (through f m).0 ≡ ok b
      → (a : A) × (m.0 ≡ ok a) × (f a ≡ b) × ((through f m).1 ≡ m.1)
  through-eq-ok f (ok a, file) h = (a, refl, cc h, refl)
  through-eq-ok f (err e, file) h = absurd (cc h)

  and_call-eq-ok :
      {A B : Type 0} (m : Result AuthError A) (call : A → Result AuthError B × StoreFile)
      (file : StoreFile) {b : B}
      → (and_call m call file).0 ≡ ok b
      → (a : A) × (m ≡ ok a) × ((call a).0 ≡ ok b) × (and_call m call file ≡ call a)
  and_call-eq-ok (err e) call file h = absurd (cc h)
  and_call-eq-ok (ok a) call file h = (a, refl, h, refl)

module _ (texts : Texts) (crypt : Crypt) (repr : Json → String) (laws : TextLaws texts)
    (hashes : HashTexts texts crypt) where
  checked_account_lem :
      (salt : Bytes) (salted : HashLaws texts crypt salt) (new password hash : String)
      (derived other : Bytes) (r : RemoteUserRecord)
      → hash_remote_password texts crypt salt new ≡ ok hash
      → digest texts crypt new salt ≡ some derived
      → digest texts crypt password salt ≡ some other
      → r.password_hash ≡ hash
      → checked_account texts crypt repr password (some r)
        ≡ signs_in (text_eq (crypt.to_hex other) (crypt.to_hex derived)) (to_authenticated_user r)
  checked_account_lem salt salted new password hash derived other r made d o e =
      ground (arith, verify-hash texts crypt salt salted new password hash derived other made d o)

  new_hash_made :
      (d : Draw) (new hash : String)
      → new_hash texts crypt repr d new ≡ ok hash
      → (hash_remote_password texts crypt d.salt new ≡ ok hash) × (is_blank hash ≡ false)
  unfolding new_hash
  new_hash_made d new hash h =
      let (u, checked, made) = >>=-eq-ok (validate_remote_password texts crypt new) _ h in
      let (derived, e, same) = hash_remote_password_parts texts crypt d.salt new made in
      (made, rw same (hashes.hash_not_blank d.salt derived))

  -- After `change_password` has returned, the user signs in by a password just if the account is
  -- enabled and the digest of the password, with the salt that was drawn, is that of the new one.
  pub change_password-authenticate :
      (d : Draw) (username new_password now : String) (saving : Option String) (file : StoreFile)
      (u : RemoteAuthenticatedUser) (password : String) (derived other : Bytes)
      → HashLaws texts crypt d.salt
      → IsTime texts crypt repr d.now × IsTime texts crypt repr now
      → IsStored texts repr file
      → (change_password texts crypt repr d username new_password now saving file).0 ≡ ok u
      → digest texts crypt new_password d.salt ≡ some derived
      → digest texts crypt password d.salt ≡ some other
      → authenticate_credentials texts crypt repr username password
          (change_password texts crypt repr d username new_password now saving file).1
        ≡ signs_in (text_eq (crypt.to_hex other) (crypt.to_hex derived)) u
  unfolding change_password
  change_password-authenticate d username new now saving file u password derived other salted t s h
        dn dp =
      let (hash, hashed, h1, left) =
        and_call-eq-ok texts crypt repr (new_hash texts crypt repr d new) _ file h in
      let (r, updated, made, left') =
        through-eq-ok texts crypt repr to_authenticated_user
          (update_user texts repr username (password_change hash d.now) now saving file) h1 in
      let (current, name, named, hash_kept, enabled_kept) =
        update_user_fields texts laws repr username (password_change hash d.now) now saving file r
          updated in
      let has_name =
        update_user_keeps_name texts laws repr username (password_change hash d.now) now saving file
          r name s updated named refl in
      let found =
        get_user-update_user texts laws repr username (password_change hash d.now) now saving file r
          name username name
          (password_change-AreNormal texts crypt repr laws hashes d new hash now t hashed) s updated
          named named in
      let (hash_made, not_blank) = new_hash_made d new hash hashed in
      let hash_same : r.password_hash ≡ hash =
        hash_kept ∙ ap (λ b. if b then current.password_hash else hash) not_blank in
      let there : text_eq r.username name ≡ true = (eq_iff r.username name).1 has_name in
      ap (authenticate_credentials texts crypt repr username password) (ap (λ p. p.1) left ∙ left')
      ∙ authenticate_found texts crypt repr username password _ r (found ∙ if_true _ _ _ there)
      ∙ checked_account_lem d.salt salted new password hash derived other r hash_made dn dp
          hash_same
      ∙ ap (signs_in (text_eq (crypt.to_hex other) (crypt.to_hex derived))) made

  -- After `update_user_profile` has disabled a stored account under its old name, nobody signs in by
  -- that name, whatever the password.
  pub update_user_profile-authenticate :
      (username : String) (role : Option String) (notes : Option (Option String)) (now : String)
      (saving : Option String) (file : StoreFile) (u : RemoteAuthenticatedUser) (password : String)
      → IsTime texts crypt repr now
      → IsStored texts repr file
      → (update_user_profile texts crypt repr username none role
          (some false)
          notes
          now
          saving
          file).0
        ≡ ok u
      → authenticate_credentials texts crypt repr username password
          (update_user_profile texts crypt repr username none role
            (some false)
            notes
            now
            saving
            file).1
        ≡ err (auth_error account_disabled)
  unfolding update_user_profile
  update_user_profile-authenticate username role notes now saving file u password t s h =
      let c = profile_changes none role (some false) notes in
      let (r, updated, made, left) =
        through-eq-ok texts crypt repr to_authenticated_user
          (update_user texts repr username c now saving file) h in
      let (current, name, named, hash_kept, enabled_kept) =
        update_user_fields texts laws repr username c now saving file r updated in
      let has_name =
        update_user_keeps_name texts laws repr username c now saving file r name s updated named
          refl in
      let found =
        get_user-update_user texts laws repr username c now saving file r name username name
          (profile_changes-AreNormal texts crypt repr laws hashes none role (some false) notes now
            t)
          s updated named named in
      let there : text_eq r.username name ≡ true = (eq_iff r.username name).1 has_name in
      ap (authenticate_credentials texts crypt repr username password) left
      ∙ authenticate_found texts crypt repr username password _ r (found ∙ if_true _ _ _ there)
      ∙ ground (arith, enabled_kept)
