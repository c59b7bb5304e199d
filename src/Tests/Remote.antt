-- ===== src/Tests/Remote.antt =====
-- The remote console at concrete inputs. Texts are taken as they stand, hashes of two salts are told
-- apart, and moments are numbers.
use control_ok_a_v.Base.{
  ◌≡◌, refl, Bool, true, false, not, none, some, List, [], ◌∷◌, String, if◌then◌else◌, ok, err, All,
}
use control_ok_a_v.Base.Bytes.{Bytes}
use control_ok_a_v.Base.Int.{pos}
use control_ok_a_v.Base.Json.{Json, number, str, array, object, no_items, item, no_fields, field}
use control_ok_a_v.Remote.Users.{
  Texts, StoreFile, missing, holds, RemoteUserRecord, Changes, list_users, get_user, update_user,
  normalize_iso_utc, normalize_remote_username, is_blank, last_admin_violation,
}
use control_ok_a_v.Remote.Users.Normal.{TextLaws, IsValid}
use control_ok_a_v.Remote.Users.Kept.{list_users-AreValid, IsStored}
use control_ok_a_v.Remote.Auth.{
  Crypt, Draw, RemoteAuthenticatedUser, hash_text, store_code, change_password, update_user_profile,
  bootstrap_initial_accounts, delete_account, authenticate_credentials, auth_error,
  account_disabled, create_account,
}
use control_ok_a_v.Remote.Auth.Hashes.{HashTexts, HashLaws}
use control_ok_a_v.Remote.Auth.Calls.{
  Call, bootstrap, create, remove, perform, perform_all, perform_all-IsStored,
}
use control_ok_a_v.Remote.Users.Sound.{AreNormal}
use control_ok_a_v.Remote.Users.Found.{get_user-update_user}
use control_ok_a_v.Remote.Auth.Signing.{
  signs_in, change_password-authenticate, update_user_profile-authenticate,
}
use text.Mathlib.Text.{◌==◌ as text_eq}
use Prim.Native.String.{compare}
use Prim.Native.Nat.{Ordering}

abbrev texts : Texts
texts = record {
  strip = λ s. s;
  lower = λ s. s;
  matches_username = λ s. not (text_eq s "");
  at_most = λ a b. elim (compare a b) [ Ordering.gt ↦ false | other ↦ true ];
  equals_one = λ s. text_eq s "1";
  equals_zero = λ s. text_eq s "0";
}

abbrev repr : Json → String
repr v = "?"

texts_laws : TextLaws texts
texts_laws = record { strip_again = λ s. refl; name_again = λ s h. refl; one_is_one = refl }

abbrev hex : Bytes → String
hex [] = "00"
hex (b ∷ bs) = "01"

abbrev parts : String → List String
parts s =
    if text_eq s "scrypt$16384$8$1$00$00"
    then "scrypt" ∷ ("16384" ∷ ("8" ∷ ("1" ∷ ("00" ∷ ("00" ∷ [])))))
    else "scrypt" ∷ ("16384" ∷ ("8" ∷ ("1" ∷ ("00" ∷ ("01" ∷ [])))))

abbrev crypt : Crypt
crypt = record {
  text_length = λ s. if text_eq s "" then 0 else 8;
  split = parts;
  int_of = λ s.
      if text_eq s "16384"
      then some (pos 16384)
      else (if text_eq s "8" then some (pos 8) else some (pos 1));
  to_hex = hex;
  from_hex = λ s. if text_eq s "00" then some [] else none;
  scrypt = λ password salt n r p. if text_eq password "new secret" then some [] else some (1 ∷ []);
  compare_digest = λ a b. some (text_eq a b);
}

crypt-HashTexts : HashTexts texts crypt
unfolding hash_text
crypt-HashTexts = record { hash_stripped = λ salt derived. refl; hash_not_blank = not_blank }
  where
    not_blank : (salt derived : Bytes) → is_blank (hash_text texts crypt salt derived) ≡ false
    not_blank [] [] = refl
    not_blank [] (b ∷ bs) = refl
    not_blank (a ∷ as_) [] = refl
    not_blank (a ∷ as_) (b ∷ bs) = refl

crypt_laws : HashLaws texts crypt []
unfolding hash_text
crypt_laws = record {
  hash_splits = splits;
  n_converts = refl;
  r_converts = refl;
  p_converts = refl;
  salt_converts = refl;
  digests_compare = λ a b. refl;
}
  where
    splits :
        (derived : Bytes)
        → crypt.split (hash_text texts crypt [] derived)
          ≡ "scrypt" ∷ ("16384" ∷ ("8" ∷ ("1" ∷ ("00" ∷ (hex derived ∷ [])))))
    splits [] = refl
    splits (b ∷ bs) = refl

abbrev draw : Draw
draw = record { salt = []; now = "2024-01-01T00:00:00Z" }

abbrev drawn_later : Draw
drawn_later = record { salt = []; now = "later" }

abbrev account : String → String → Json
account username role = object (
    field "username" (str username)
      (field "password" (str "old secret") (field "role" (str role) no_fields)))

abbrev accounts : List (Draw × Json)
accounts =
    (draw, account "root" "admin")
    ∷ ((draw, account "obs" "observador") ∷ ((draw, account "tec" "tecnico") ∷ []))

abbrev calls : List Call
calls =
    bootstrap accounts (some "2024-01-01T00:00:00Z")
    ∷ (create draw "other" "old secret" "admin" none true (some "2024-01-01T00:00:01Z")
        ∷ (remove "nobody" (some "2024-01-01T00:00:02Z") ∷ []))

abbrev file : StoreFile
file = perform_all texts crypt repr calls missing

perform_all-IsStored_calls : IsStored texts repr file
perform_all-IsStored_calls =
    perform_all-IsStored texts crypt repr texts_laws crypt-HashTexts calls (tt, (tt, (tt, tt)))

timed : normalize_iso_utc texts "later" ≡ ok "later"
unfolding normalize_iso_utc
timed = refl

named : normalize_remote_username texts "obs" ≡ ok "obs"
unfolding normalize_remote_username
named = refl

perform_all-IsStored_example : IsStored texts repr file
perform_all-IsStored_example =
    perform_all-IsStored texts crypt repr texts_laws crypt-HashTexts calls (tt, (tt, (tt, tt)))

-- The last admin cannot go.
last_admin_refused :
    (perform texts crypt repr
      (remove "root" (some "now"))
      (perform_all texts crypt repr (bootstrap accounts (some "now") ∷ []) missing)).0
    ≡ err (store_code last_admin_violation)
unfolding perform perform_all bootstrap_initial_accounts delete_account
last_admin_refused = refl

abbrev user : Bool → String → RemoteAuthenticatedUser
user enabled changed_at = record {
  username = "obs";
  role = "observador";
  enabled = enabled;
  notes = none;
  created_at = "2024-01-01T00:00:00Z";
  updated_at = "later";
  last_password_change_at = changed_at;
}

changed_password :
    (change_password texts crypt repr drawn_later "obs" "new secret" "later" (some "later") file).0
    ≡ ok (user true "later")
unfolding change_password perform_all perform bootstrap_initial_accounts create_account
    delete_account
changed_password = refl

change_password-authenticate_example :
    authenticate_credentials texts crypt repr "obs" "old secret"
      (change_password texts crypt repr drawn_later "obs" "new secret" "later"
        (some "later")
        file).1
    ≡ signs_in (text_eq "01" "00") (user true "later")
change_password-authenticate_example =
    change_password-authenticate texts crypt repr texts_laws crypt-HashTexts drawn_later "obs"
      "new secret" "later" (some "later") file (user true "later") "old secret" [] (1 ∷ [])
      crypt_laws (timed, timed) perform_all-IsStored_calls changed_password refl refl

disabled :
    (update_user_profile texts crypt repr "obs" none none
      (some false)
      none
      "later"
      (some "later")
      file).0
    ≡ ok (user false "2024-01-01T00:00:00Z")
unfolding update_user_profile perform_all perform bootstrap_initial_accounts create_account
    delete_account
disabled = refl

update_user_profile-authenticate_example :
    authenticate_credentials texts crypt repr "obs" "old secret"
      (update_user_profile texts crypt repr "obs" none none
        (some false)
        none
        "later"
        (some "later")
        file).1
    ≡ err (auth_error account_disabled)
update_user_profile-authenticate_example =
    update_user_profile-authenticate texts crypt repr texts_laws crypt-HashTexts "obs" none none
      "later" (some "later") file (user false "2024-01-01T00:00:00Z") "old secret" timed
      perform_all-IsStored_calls disabled

abbrev renamed : Changes
renamed = record {
  new_username = some "guest";
  new_role = none;
  new_enabled = none;
  new_notes = none;
  new_password_hash = none;
  password_changed_at = none;
}

abbrev guest : RemoteUserRecord
guest = record {
  username = "guest";
  password_hash = "scrypt$16384$8$1$00$01";
  role = "observador";
  enabled = true;
  created_at = "2024-01-01T00:00:00Z";
  updated_at = "later";
  last_password_change_at = "2024-01-01T00:00:00Z";
  notes = none;
}

renamed_obs : (update_user texts repr "obs" renamed "later" (some "later") file).0 ≡ ok guest
unfolding update_user perform_all perform bootstrap_initial_accounts create_account delete_account
renamed_obs = refl

renamed-AreNormal : AreNormal texts renamed "later"
renamed-AreNormal = record {
  hash_given = λ h e. absurd (cc e);
  time_given = λ t e. absurd (cc e);
  now_given = timed;
}

get_user-update_user_example :
    get_user texts repr "obs" (update_user texts repr "obs" renamed "later" (some "later") file).1
    ≡ ok none
get_user-update_user_example =
    get_user-update_user texts texts_laws repr "obs" renamed "later" (some "later") file guest "obs"
      "obs" "obs" renamed-AreNormal perform_all-IsStored_calls renamed_obs named named

-- A file that another program wrote.
abbrev foreign : StoreFile
foreign = holds (
    object (
      field "schema_version" (number "1") (
        field "users"
          (array (
            item
              (object (
                field "username" (str "root") (
                  field "password_hash" (str "x") (
                    field "role" (str "admin") (
                      field "created_at" (str "t") (
                        field "updated_at" (str "t")
                          (field "last_password_change_at" (str "t") no_fields)))))))
              no_items))
          no_fields)))

abbrev foreign_root : RemoteUserRecord
foreign_root = record {
  username = "root";
  password_hash = "x";
  role = "admin";
  enabled = false;
  created_at = "t";
  updated_at = "t";
  last_password_change_at = "t";
  notes = none;
}

foreign_listed : list_users texts repr foreign ≡ ok (foreign_root ∷ [])
unfolding list_users
foreign_listed = refl

list_users-AreValid_example : All (IsValid texts) (foreign_root ∷ [])
list_users-AreValid_example = list_users-AreValid texts repr foreign foreign_listed
