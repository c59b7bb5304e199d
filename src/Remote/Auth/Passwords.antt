-- ===== src/Remote/Auth/Passwords.antt =====
-- services/remote_auth_service.py: the errors, and passwords and their hashes.
use control_ok_a_v.Base.{
  Bool, false, ◌||◌, Option, none, some, List, [], ◌∷◌, ℕ, String, if◌then◌else◌, Result, ok, err,
  ◌>>=◌, ◌>>◌, raise_if, ltb,
}
use control_ok_a_v.Base.Int.{ℤ, pos}
use control_ok_a_v.Base.Bytes.{Bytes}
use control_ok_a_v.Remote.Users.{StoreError, write_failed, Texts, is_blank}
use Prim.Native.String.{◌++◌ as append_text}
use text.Mathlib.Text.{◌==◌ as text_eq}

-- The codes of `RemoteAuthServiceError` that are the service's own.
pub data AuthCode : Type 0 where
  bootstrap_invalid bootstrap_required invalid_credentials account_disabled invalid_password :
      AuthCode

-- A `RemoteAuthServiceError` with a code of its own or of the store, what the store raises past the
-- service, and the `ValueError` or `TypeError` of a library on a password or a digest.
pub data AuthError : Type 0 where
  auth_error : AuthCode → AuthError
  store_code store_raised : StoreError → AuthError
  value_error type_error : AuthError

-- `except RemoteUserStoreError`: an `OSError` is not caught.
abbrev pub caught : StoreError → AuthError
caught e = elim e [ write_failed ↦ store_raised write_failed | other ↦ store_code other ]

-- The libraries that passwords go through: `len`, `str.split("$", 5)`, `int`, `bytes.hex`,
-- `bytes.fromhex`, `hashlib.scrypt` on the UTF-8 of a text, and `hmac.compare_digest`; `none` is that
-- they raise.
pub record Crypt : Type 0 where
  pub text_length : String → ℕ
  pub split : String → List String
  pub int_of : String → Option ℤ
  pub to_hex : Bytes → String
  pub from_hex : String → Option Bytes
  pub scrypt : String → Bytes → ℤ → ℤ → ℤ → Option Bytes
  pub compare_digest : String → String → Option Bool

abbrev pub password_scrypt_n : ℕ
password_scrypt_n = 16384

abbrev pub password_scrypt_r : ℕ
password_scrypt_r = 8

abbrev pub password_scrypt_p : ℕ
password_scrypt_p = 1

abbrev pub min_remote_password_length : ℕ
min_remote_password_length = 8

-- A value, or the exception for `none`.
abbrev pub or_raise : {A : Type 0} → AuthError → Option A → Result AuthError A
or_raise e none = err e
or_raise e (some a) = ok a

module _ (texts : Texts) (crypt : Crypt) where
  unfoldable pub validate_remote_password : String → Result AuthError (Unit {0})
  validate_remote_password password =
      raise_if
        (ltb (crypt.text_length password) min_remote_password_length
          || is_blank (texts.strip password))
        (auth_error invalid_password)

  -- The text of a hash.
  unfoldable pub hash_text : Bytes → Bytes → String
  hash_text salt derived =
      append_text "scrypt$16384$8$1$"
        (append_text (crypt.to_hex salt) (append_text "$" (crypt.to_hex derived)))

  unfoldable pub hash_remote_password : Bytes → String → Result AuthError String
  unfolding validate_remote_password hash_text
  hash_remote_password salt password = do
    validate_remote_password password
    derived ← or_raise value_error (
        crypt.scrypt password salt (pos password_scrypt_n) (pos password_scrypt_r)
          (pos password_scrypt_p))
    ok (hash_text salt derived)

  -- The digest of a password under the parameters of a stored hash.
  unfoldable pub derive : String → String → String → String → String → Option Bytes
  derive password n_text r_text p_text salt_hex = elim (crypt.from_hex salt_hex) [
    | none ↦ none
    | some salt ↦ elim (crypt.int_of n_text) [
      | none ↦ none
      | some n ↦ elim (crypt.int_of r_text) [
        | none ↦ none
        | some r ↦ elim (crypt.int_of p_text) [
          | none ↦ none
          | some p ↦ crypt.scrypt password salt n r p
        ]
      ]
    ]
  ]

  unfoldable pub compare_derived : Option Bytes → String → Result AuthError Bool
  compare_derived none hash_hex = ok false
  compare_derived (some derived) hash_hex =
      or_raise type_error (crypt.compare_digest (crypt.to_hex derived) hash_hex)

  unfoldable pub verify_parts : String → List String → Result AuthError Bool
  unfolding derive compare_derived
  verify_parts password (algorithm ∷ (n ∷ (r ∷ (p ∷ (salt ∷ (hash ∷ [])))))) =
      if text_eq algorithm "scrypt"
      then compare_derived (derive password n r p salt) hash
      else ok false
  verify_parts password others = ok false

  unfoldable pub verify_remote_password : String → String → Result AuthError Bool
  unfolding verify_parts
  verify_remote_password password stored_hash = verify_parts password (crypt.split stored_hash)
