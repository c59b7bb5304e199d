-- ===== src/Remote/Users/Normal.antt =====
-- Normal records: what `_normalize_record` makes, and leaves as it is
-- (services/remote_user_store.py).
use control_ok_a_v.Base.{
  ◌≡◌, refl, Bool, true, false, Option, none, some, List, [], ◌∷◌, String, arith, ok, All,
  >>=-eq-ok,
}
use control_ok_a_v.Remote.Users.Model.{
  RemoteUserRecord, Texts, is_blank, is_remote_role, normalize_remote_username,
  normalize_remote_role, normalize_remote_notes, normalize_iso_utc, normalize_password_hash,
  normalize_record,
}
use control_ok_a_v.Remote.Users.Store.{normalize_records}

-- Python's texts: stripping once is enough, lowering and stripping a name that the pattern takes
-- changes nothing more, and the number 1 is read as 1.
pub record TextLaws (texts : Texts) : Type 0 where
  pub strip_again : (s : String) → texts.strip (texts.strip s) ≡ texts.strip s
  pub name_again :
      (s : String)
      → texts.matches_username (texts.lower (texts.strip s)) ≡ true
      → texts.lower (texts.strip (texts.lower (texts.strip s))) ≡ texts.lower (texts.strip s)
  pub one_is_one : texts.equals_one "1" ≡ true

abbrev pub is_blank_note : Option String → Bool
is_blank_note none = false
is_blank_note (some s) = is_blank s

-- A name that the pattern takes, one of the three roles, a password hash, times, and no blank note.
pub record IsValid (texts : Texts) (r : RemoteUserRecord) : Type 0 where
  pub has_name : texts.matches_username r.username ≡ true
  pub has_role : is_remote_role r.role ≡ true
  pub has_hash : is_blank r.password_hash ≡ false
  pub has_created_at : is_blank r.created_at ≡ false
  pub has_updated_at : is_blank r.updated_at ≡ false
  pub has_change_at : is_blank r.last_password_change_at ≡ false
  pub has_note : is_blank_note r.notes ≡ false

pub record IsNormal (texts : Texts) (r : RemoteUserRecord) : Type 0 where
  pub normal_name : normalize_remote_username texts r.username ≡ ok r.username
  pub normal_role : normalize_remote_role texts r.role ≡ ok r.role
  pub normal_hash : normalize_password_hash texts r.password_hash ≡ ok r.password_hash
  pub normal_created_at : normalize_iso_utc texts r.created_at ≡ ok r.created_at
  pub normal_updated_at : normalize_iso_utc texts r.updated_at ≡ ok r.updated_at
  pub normal_change_at :
      normalize_iso_utc texts r.last_password_change_at ≡ ok r.last_password_change_at
  pub normal_notes : normalize_remote_notes texts r.notes ≡ r.notes

module _ (texts : Texts) where
  pub normalize_remote_notes-is_blank_note :
      (notes : Option String) → is_blank_note (normalize_remote_notes texts notes) ≡ false
  unfolding normalize_remote_notes
  normalize_remote_notes-is_blank_note none = refl
  normalize_remote_notes-is_blank_note (some s) = ground arith

  pub normalize_record-IsValid :
      (r : RemoteUserRecord) {n : RemoteUserRecord}
      → normalize_record texts r ≡ ok n
      → IsValid texts n
  unfolding normalize_record normalize_remote_username normalize_remote_role normalize_iso_utc
      normalize_password_hash
  normalize_record-IsValid r h = ground (arith, normalize_remote_notes-is_blank_note r.notes)

  -- What came of each field of a record that was normalised.
  pub normalize_record_parts :
      (r : RemoteUserRecord) {n : RemoteUserRecord}
      → normalize_record texts r ≡ ok n
      → (normalize_remote_username texts r.username ≡ ok n.username)
        × (normalize_remote_role texts r.role ≡ ok n.role)
        × (normalize_password_hash texts r.password_hash ≡ ok n.password_hash)
        × (normalize_iso_utc texts r.created_at ≡ ok n.created_at)
        × (normalize_iso_utc texts r.updated_at ≡ ok n.updated_at)
        × (normalize_iso_utc texts r.last_password_change_at ≡ ok n.last_password_change_at)
        × (n.notes ≡ normalize_remote_notes texts r.notes)
  unfolding normalize_record
  normalize_record_parts r h = ground arith

  pub IsNormal-normalize_record :
      (r : RemoteUserRecord) → IsNormal texts r → normalize_record texts r ≡ ok r
  unfolding normalize_record
  IsNormal-normalize_record r n = simp (
    n.normal_name, n.normal_role, n.normal_hash, n.normal_created_at, n.normal_updated_at,
    n.normal_change_at, n.normal_notes,
  )

module _ (texts : Texts) (laws : TextLaws texts) where
  pub normalize_username_again :
      (s t : String)
      → normalize_remote_username texts s ≡ ok t
      → normalize_remote_username texts t ≡ ok t
  unfolding normalize_remote_username
  normalize_username_again s t h = ground (arith, laws.name_again s)

  pub normalize_role_again :
      (s t : String) → normalize_remote_role texts s ≡ ok t → normalize_remote_role texts t ≡ ok t
  unfolding normalize_remote_role
  normalize_role_again s t h = ground (arith, laws.strip_again s)

  normalize_time_again :
      (s t : String) → normalize_iso_utc texts s ≡ ok t → normalize_iso_utc texts t ≡ ok t
  unfolding normalize_iso_utc
  normalize_time_again s t h = ground (arith, laws.strip_again s)

  normalize_hash_again :
      (s t : String)
      → normalize_password_hash texts s ≡ ok t
      → normalize_password_hash texts t ≡ ok t
  unfolding normalize_password_hash
  normalize_hash_again s t h = ground (arith, laws.strip_again s)

  pub normalize_notes_again :
      (notes : Option String)
      → normalize_remote_notes texts (normalize_remote_notes texts notes)
        ≡ normalize_remote_notes texts notes
  unfolding normalize_remote_notes
  normalize_notes_again none = refl
  normalize_notes_again (some s) = ground (arith, laws.strip_again s)

  pub normalize_record-IsNormal :
      (r : RemoteUserRecord) {n : RemoteUserRecord}
      → normalize_record texts r ≡ ok n
      → IsNormal texts n
  normalize_record-IsNormal r {n} h =
      let (u, o, p, c, w, l, e) = normalize_record_parts texts r h in
      record {
        normal_name = normalize_username_again r.username n.username u;
        normal_role = normalize_role_again r.role n.role o;
        normal_hash = normalize_hash_again r.password_hash n.password_hash p;
        normal_created_at = normalize_time_again r.created_at n.created_at c;
        normal_updated_at = normalize_time_again r.updated_at n.updated_at w;
        normal_change_at =
            normalize_time_again r.last_password_change_at n.last_password_change_at l;
        normal_notes = rw e (normalize_notes_again r.notes);
      }

  pub normalize_records-AreNormal :
      (rs : List RemoteUserRecord) {ns : List RemoteUserRecord}
      → normalize_records texts rs ≡ ok ns
      → All (IsNormal texts) ns
  unfolding normalize_records
  normalize_records-AreNormal [] {ns} h = let e : [] ≡ ns = cc h in rw (← e) tt
  normalize_records-AreNormal (r ∷ rs) {ns} h =
      let (n, e, h') = >>=-eq-ok (normalize_record texts r) _ h in
      let (rest, e', h'') = >>=-eq-ok (normalize_records texts rs) _ h' in
      let same : n ∷ rest ≡ ns = cc h'' in
      rw (← same) (normalize_record-IsNormal r e, normalize_records-AreNormal rs e')
