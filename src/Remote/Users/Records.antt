-- ===== src/Remote/Users/Records.antt =====
-- Lists of users under the operations of the store: what is found by a name, and what stays distinct
-- (services/remote_user_store.py).
use control_ok_a_v.Base.{
  ◌≡◌, refl, Bool, true, false, ◌&&◌, ◌||◌, Option, none, some, List, [], ◌∷◌, ◌++◌, String,
  if◌then◌else◌, arith, All, inl, inr, Bool-cases,
}
use control_ok_a_v.Remote.Users.Model.{RemoteUserRecord}
use control_ok_a_v.Remote.Users.Store.{find, has_username, has_duplicates}
use control_ok_a_v.Remote.Users.Methods.{has_other, replace, without}
use text.Mathlib.Text.{◌==◌ as text_eq}
use text.Mathlib.TextEquality.{eq_iff}

abbrev pub is_some : Option RemoteUserRecord → Bool
is_some none = false
is_some (some r) = true

pub has_username-find :
    (name : String) (rs : List RemoteUserRecord) → has_username name rs ≡ is_some (find name rs)
has_username-find name [] = refl
has_username-find name (r ∷ rs) = ground (arith, has_username-find name rs)

pub find-append :
    (name : String) (r : RemoteUserRecord) (rs : List RemoteUserRecord)
    → has_username r.username rs ≡ false
    → find name (rs ++ (r ∷ [])) ≡ (if text_eq r.username name then some r else find name rs)
find-append name r [] h = refl
find-append name r (s ∷ rs) h = ground (
  arith,
  eq_iff s.username name,
  eq_iff r.username name,
  eq_iff s.username r.username,
  find-append name r rs,
)

pub has_username-append :
    (name : String) (r : RemoteUserRecord) (rs : List RemoteUserRecord)
    → has_username name (rs ++ (r ∷ [])) ≡ (text_eq r.username name || has_username name rs)
has_username-append name r [] = ground arith
has_username-append name r (s ∷ rs) = ground (arith, has_username-append name r rs)

pub has_duplicates-append :
    (r : RemoteUserRecord) (rs : List RemoteUserRecord)
    → has_username r.username rs ≡ false
    → has_duplicates rs ≡ false
    → has_duplicates (rs ++ (r ∷ [])) ≡ false
has_duplicates-append r [] h d = refl
has_duplicates-append r (s ∷ rs) h d = ground (
  arith,
  eq_iff s.username r.username,
  eq_iff r.username s.username,
  has_username-append s.username r rs,
  has_duplicates-append r rs,
)

pub find-without :
    (name target : String) (rs : List RemoteUserRecord)
    → find name (without target rs) ≡ (if text_eq target name then none else find name rs)
find-without name target [] = ground arith
find-without name target (r ∷ rs) = ground (
  arith,
  eq_iff r.username name,
  eq_iff target name,
  eq_iff r.username target,
  find-without name target rs,
)

pub has_duplicates-without :
    (target : String) (rs : List RemoteUserRecord)
    → has_duplicates rs ≡ false
    → has_duplicates (without target rs) ≡ false
has_duplicates-without target [] d = refl
has_duplicates-without target (r ∷ rs) d = ground (
  arith,
  has_username-find r.username (without target rs),
  has_username-find r.username rs,
  find-without r.username target rs,
  has_duplicates-without target rs,
)

-- A name that no other user has, of a user that is not there, is no user's.
find-of_no_other :
    (new old : String) (rs : List RemoteUserRecord)
    → has_other new old rs ≡ false
    → has_username old rs ≡ false
    → find new rs ≡ none
find-of_no_other new old [] h k = refl
find-of_no_other new old (r ∷ rs) h k = ground (arith, find-of_no_other new old rs)

pub find-replace :
    (name old : String) (updated : RemoteUserRecord) (rs : List RemoteUserRecord)
    → has_other updated.username old rs ≡ false
    → find name (replace old updated rs) ≡ (
        if text_eq updated.username name && has_username old rs
        then some updated
        else (if text_eq old name then none else find name rs))
find-replace name old updated [] h = ground arith
find-replace name old updated (r ∷ rs) h = elim (Bool-cases (text_eq r.username old)) [
  | inl same ↦ rw same (
      ground (
        arith,
        (eq_iff r.username old).0 same,
        eq_iff old name,
        eq_iff updated.username name,
        find-replace name old updated rs,
      ))
  | inr other ↦ rw other (
      ground (
        arith,
        eq_iff r.username name,
        eq_iff old name,
        eq_iff r.username old,
        eq_iff updated.username name,
        eq_iff r.username updated.username,
        find-replace name old updated rs,
      ))
]

pub has_duplicates-replace :
    (old : String) (updated : RemoteUserRecord) (rs : List RemoteUserRecord)
    → has_other updated.username old rs ≡ false
    → has_duplicates rs ≡ false
    → has_duplicates (replace old updated rs) ≡ false
has_duplicates-replace old updated [] h d = refl
has_duplicates-replace old updated (r ∷ rs) h d = ground (
  arith,
  eq_iff r.username old,
  eq_iff updated.username r.username,
  eq_iff r.username updated.username,
  has_username-find r.username (replace old updated rs),
  has_username-find updated.username (replace old updated rs),
  has_username-find r.username rs,
  find-replace r.username old updated rs,
  find-replace updated.username old updated rs,
  find-of_no_other updated.username old rs,
  has_duplicates-replace old updated rs,
)

module _ {κ} (P : RemoteUserRecord → Type κ) where
  pub All-without :
      (target : String) (rs : List RemoteUserRecord) → All P rs → All P (without target rs)
  All-without target [] h = tt
  All-without target (r ∷ rs) h = elim (Bool-cases (text_eq r.username target)) [
    | inl e ↦ rw e (All-without target rs h.1)
    | inr e ↦ rw e (h.0, All-without target rs h.1)
  ]

  pub All-replace :
      (old : String) (updated : RemoteUserRecord) (rs : List RemoteUserRecord)
      → P updated
      → All P rs
      → All P (replace old updated rs)
  All-replace old updated [] u h = tt
  All-replace old updated (r ∷ rs) u h = elim (Bool-cases (text_eq r.username old)) [
    | inl e ↦ rw e (u, All-replace old updated rs u h.1)
    | inr e ↦ rw e (h.0, All-replace old updated rs u h.1)
  ]

  pub All-find :
      (name : String) (rs : List RemoteUserRecord) {r : RemoteUserRecord}
      → All P rs
      → find name rs ≡ some r
      → (P r) × (r.username ≡ name)
  All-find name [] h e = absurd (cc e)
  All-find name (s ∷ rs) {r} h e = elim (Bool-cases (text_eq s.username name)) [
    | inl same ↦ let e' : s ≡ r = ground arith in rw (← e') (h.0, (eq_iff s.username name).0 same)
    | inr other ↦ All-find name rs h.1 (ground arith)
  ]
