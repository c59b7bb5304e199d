-- ===== src/Remote/Users/Sorting.antt =====
-- Lists of users under `sorted` (services/remote_user_store.py).
use control_ok_a_v.Base.{
  ◌≡◌, refl, false, ◌||◌, some, List, [], ◌∷◌, String, if◌then◌else◌, arith, All, inl, inr,
  Bool-cases,
}
use control_ok_a_v.Remote.Users.Model.{RemoteUserRecord, Texts}
use control_ok_a_v.Remote.Users.Store.{
  find, has_username, is_enabled_admin, has_enabled_admin, has_duplicates, insert_sorted, sorted,
}
use text.Mathlib.Text.{◌==◌ as text_eq}
use text.Mathlib.TextEquality.{eq_iff}

module _ (texts : Texts) where
  has_username-insert :
      (name : String) (r : RemoteUserRecord) (rs : List RemoteUserRecord)
      → has_username name (insert_sorted texts r rs)
        ≡ (text_eq r.username name || has_username name rs)
  has_username-insert name r [] = refl
  has_username-insert name r (s ∷ rs) = ground (arith, has_username-insert name r rs)

  pub has_username-sorted :
      (name : String) (rs : List RemoteUserRecord)
      → has_username name (sorted texts rs) ≡ has_username name rs
  unfolding sorted
  has_username-sorted name [] = refl
  has_username-sorted name (r ∷ rs) =
      ground (arith, has_username-insert name r (sorted texts rs), has_username-sorted name rs)

  has_duplicates-insert :
      (r : RemoteUserRecord) (rs : List RemoteUserRecord)
      → has_duplicates (insert_sorted texts r rs)
        ≡ (has_username r.username rs || has_duplicates rs)
  has_duplicates-insert r [] = refl
  has_duplicates-insert r (s ∷ rs) = ground (
    arith,
    eq_iff r.username s.username,
    eq_iff s.username r.username,
    has_username-insert s.username r rs,
    has_duplicates-insert r rs,
  )

  pub has_duplicates-sorted :
      (rs : List RemoteUserRecord) → has_duplicates (sorted texts rs) ≡ has_duplicates rs
  unfolding sorted
  has_duplicates-sorted [] = refl
  has_duplicates-sorted (r ∷ rs) = ground (
    arith,
    has_duplicates-insert r (sorted texts rs),
    has_username-sorted r.username rs,
    has_duplicates-sorted rs,
  )

  has_enabled_admin-insert :
      (r : RemoteUserRecord) (rs : List RemoteUserRecord)
      → has_enabled_admin (insert_sorted texts r rs) ≡ (is_enabled_admin r || has_enabled_admin rs)
  has_enabled_admin-insert r [] = refl
  has_enabled_admin-insert r (s ∷ rs) = ground (arith, has_enabled_admin-insert r rs)

  pub has_enabled_admin-sorted :
      (rs : List RemoteUserRecord) → has_enabled_admin (sorted texts rs) ≡ has_enabled_admin rs
  unfolding sorted
  has_enabled_admin-sorted [] = refl
  has_enabled_admin-sorted (r ∷ rs) =
      ground (arith, has_enabled_admin-insert r (sorted texts rs), has_enabled_admin-sorted rs)

  find-insert :
      (name : String) (r : RemoteUserRecord) (rs : List RemoteUserRecord)
      → has_username r.username rs ≡ false
      → find name (insert_sorted texts r rs)
        ≡ (if text_eq r.username name then some r else find name rs)
  find-insert name r [] h = refl
  find-insert name r (s ∷ rs) h = ground (
    arith,
    eq_iff s.username name,
    eq_iff r.username name,
    eq_iff s.username r.username,
    find-insert name r rs,
  )

  -- Sorting changes nothing of what a name finds, where names are distinct.
  pub find-sorted :
      (name : String) (rs : List RemoteUserRecord)
      → has_duplicates rs ≡ false
      → find name (sorted texts rs) ≡ find name rs
  unfolding sorted
  find-sorted name [] h = refl
  find-sorted name (r ∷ rs) h = ground (
    arith,
    has_username-sorted r.username rs,
    find-insert name r (sorted texts rs),
    find-sorted name rs,
  )

module _ {κ} (P : RemoteUserRecord → Type κ) (texts : Texts) where
  All-insert :
      (r : RemoteUserRecord) (rs : List RemoteUserRecord)
      → P r
      → All P rs
      → All P (insert_sorted texts r rs)
  All-insert r [] p h = (p, tt)
  All-insert r (s ∷ rs) p h = elim (Bool-cases (texts.at_most r.username s.username)) [
    | inl e ↦ rw e (p, h)
    | inr e ↦ rw e (h.0, All-insert r rs p h.1)
  ]

  pub All-sorted : (rs : List RemoteUserRecord) → All P rs → All P (sorted texts rs)
  unfolding sorted
  All-sorted [] h = tt
  All-sorted (r ∷ rs) h = All-insert r (sorted texts rs) h.0 (All-sorted rs h.1)
