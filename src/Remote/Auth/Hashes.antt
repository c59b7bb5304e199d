-- ===== src/Remote/Auth/Hashes.antt =====
-- Hashes of passwords: what a hash is made of, and which passwords it verifies
-- (services/remote_auth_service.py).
use control_ok_a_v.Base.{
  ◌≡◌, ap, ◌∙◌, false, Option, some, [], ◌∷◌, String, arith, ok, >>=-eq-ok, Option-cases, inl, inr,
}
use control_ok_a_v.Base.Bytes.{Bytes}
use control_ok_a_v.Base.Int.{pos}
use control_ok_a_v.Remote.Users.{Texts, is_blank, normalize_password_hash}
use control_ok_a_v.Remote.Auth.Passwords.{
  Crypt, hash_text, hash_remote_password, validate_remote_password, derive, compare_derived,
  verify_remote_password, verify_parts,
}
use text.Mathlib.Text.{◌==◌ as text_eq}

-- The text of a hash has no blanks around it.
pub record HashTexts (texts : Texts) (crypt : Crypt) : Type 0 where
  pub hash_stripped :
      (salt derived : Bytes)
      → texts.strip (hash_text texts crypt salt derived) ≡ hash_text texts crypt salt derived
  pub hash_not_blank :
      (salt derived : Bytes) → is_blank (hash_text texts crypt salt derived) ≡ false

-- Of the libraries: the six parts of a hash with a salt are split and converted back, and digests as
-- hexadecimal digits are compared as texts.
pub record HashLaws (texts : Texts) (crypt : Crypt) (salt : Bytes) : Type 0 where
  pub hash_splits :
      (derived : Bytes)
      → crypt.split (hash_text texts crypt salt derived)
        ≡ "scrypt" ∷ ("16384" ∷ ("8" ∷ ("1" ∷ (crypt.to_hex salt ∷ (crypt.to_hex derived ∷ [])))))
  pub n_converts : crypt.int_of "16384" ≡ some (pos 16384)
  pub r_converts : crypt.int_of "8" ≡ some (pos 8)
  pub p_converts : crypt.int_of "1" ≡ some (pos 1)
  pub salt_converts : crypt.from_hex (crypt.to_hex salt) ≡ some salt
  pub digests_compare :
      (a b : Bytes)
      → crypt.compare_digest (crypt.to_hex a) (crypt.to_hex b)
        ≡ some (text_eq (crypt.to_hex a) (crypt.to_hex b))

module _ (texts : Texts) (crypt : Crypt) where
  -- The digest of a password with a salt, as `hash_remote_password` takes it.
  abbrev pub digest : String → Bytes → Option Bytes
  digest password salt = crypt.scrypt password salt (pos 16384) (pos 8) (pos 1)

  pub hash_remote_password_parts :
      (salt : Bytes) (password : String) {hash : String}
      → hash_remote_password texts crypt salt password ≡ ok hash
      → (derived : Bytes) × (digest password salt ≡ some derived)
        × (hash ≡ hash_text texts crypt salt derived)
  unfolding hash_remote_password
  hash_remote_password_parts salt password h =
      let (u, checked, h1) = >>=-eq-ok (validate_remote_password texts crypt password) _ h in
      elim (Option-cases (digest password salt)) [
        | inl e ↦ absurd (ground arith)
        | inr (derived, e) ↦ (derived, e, ground arith)
      ]

module _ (texts : Texts) (crypt : Crypt) (hashes : HashTexts texts crypt) where
  pub hash_remote_password-IsNormal :
      (salt : Bytes) (password hash : String)
      → hash_remote_password texts crypt salt password ≡ ok hash
      → normalize_password_hash texts hash ≡ ok hash
  unfolding normalize_password_hash
  hash_remote_password-IsNormal salt password hash h =
      let (derived, e, same) = hash_remote_password_parts texts crypt salt password h in
      rw same (simp (hashes.hash_stripped salt derived, hashes.hash_not_blank salt derived))

module _ (texts : Texts) (crypt : Crypt) (salt : Bytes) (hashes : HashLaws texts crypt salt) where
  derive_lem :
      (password : String)
      → derive texts crypt password "16384" "8" "1" (crypt.to_hex salt)
        ≡ digest texts crypt password salt
  unfolding derive
  derive_lem password =
      ground (arith, hashes.salt_converts, hashes.n_converts, hashes.r_converts, hashes.p_converts)

  compare_digests :
      (password : String) (other derived : Bytes)
      → digest texts crypt password salt ≡ some other
      → compare_derived texts crypt
          (derive texts crypt password "16384" "8" "1" (crypt.to_hex salt))
          (crypt.to_hex derived)
        ≡ ok (text_eq (crypt.to_hex other) (crypt.to_hex derived))
  unfolding compare_derived
  compare_digests password other derived tried =
      rw derive_lem (rw tried (rw hashes.digests_compare))

  -- A password is verified against the hash of another just if both have the same digest.
  pub verify-hash :
      (new password hash : String) (derived other : Bytes)
      → hash_remote_password texts crypt salt new ≡ ok hash
      → digest texts crypt new salt ≡ some derived
      → digest texts crypt password salt ≡ some other
      → verify_remote_password texts crypt password hash
        ≡ ok (text_eq (crypt.to_hex other) (crypt.to_hex derived))
  unfolding verify_remote_password verify_parts
  verify-hash new password hash derived other h made tried =
      let (d, e, same) = hash_remote_password_parts texts crypt salt new h in
      let d_same : d ≡ derived = cc in
      ap (λ s. verify_parts texts crypt password (crypt.split s)) same
      ∙ ap (λ x. verify_parts texts crypt password (crypt.split (hash_text texts crypt salt x)))
          d_same
      ∙ ap (verify_parts texts crypt password) (hashes.hash_splits derived)
      ∙ compare_digests password other derived tried
