-- ===== src/Remote/Sessions/Model.antt =====
-- services/remote_session_service.py: `RemoteSessionService`. Times are of any type; the token that is
-- drawn for a session and what the clock says are arguments.
use control_ok_a_v.Base.{Bool, true, false, Option, none, some, [], String, if◌then◌else◌}
use control_ok_a_v.Base.Int.{ℤ, pos, ltb_ℤ}
use control_ok_a_v.Base.Dict.{Dict, lookup, insert, erase, string_eq}
use text.Mathlib.Text.{◌==◌ as text_eq}

pub record RemoteSessionRecord (Time : Type 0) : Type 0 where
  pub session_id : String
  pub username : String
  pub created_at_monotonic : Time
  pub expires_at_monotonic : Time

pub record RemoteSessionService (Time : Type 0) : Type 0 where
  pub cookie_name : String
  pub ttl_s : ℤ
  pub sessions : Dict String (RemoteSessionRecord Time)

-- `now + ttl` and `a <= b`; `strip`; and the value that `SimpleCookie` reads under a name, if it
-- reads the text and the name is there.
pub record Clock (Time : Type 0) : Type 0 where
  pub plus : Time → ℤ → Time
  pub at_most : Time → Time → Bool
  pub strip : String → String
  pub cookie_value : String → String → Option String

-- `text or None`
abbrev pub not_empty : String → Option String
not_empty s = if text_eq s "" then none else some s

abbrev pub or_empty : Option String → String
or_empty none = ""
or_empty (some s) = s

module _ {Time : Type 0} (clock : Clock Time) where
  unfoldable pub init : String → ℤ → RemoteSessionService Time
  init cookie_name ttl_s =
      let name = clock.strip cookie_name in
      record {
        cookie_name = if text_eq name "" then "ckv2_remote_session" else name;
        ttl_s = if ltb_ℤ (pos 300) ttl_s then ttl_s else pos 300;
        sessions = [];
      }

  unfoldable pub create_session :
      String
      → String
      → Time
      → RemoteSessionService Time
      → RemoteSessionRecord Time × RemoteSessionService Time
  create_session username session_id now s =
      let made : RemoteSessionRecord Time = record {
        session_id = session_id;
        username = clock.strip username;
        created_at_monotonic = now;
        expires_at_monotonic = clock.plus now s.ttl_s;
      } in
      (made, record s { sessions = insert session_id made s.sessions })

  abbrev pub value_of : Option String → Option String
  value_of none = none
  value_of (some value) = not_empty (clock.strip value)

  abbrev pub id_of : String → Option String → Option String
  id_of cookie_name none = none
  id_of cookie_name (some raw) = value_of (clock.cookie_value cookie_name raw)

  unfoldable pub extract_session_id : Option String → RemoteSessionService Time → Option String
  extract_session_id cookie_header s =
      id_of s.cookie_name (not_empty (clock.strip (or_empty cookie_header)))

  unfoldable pub has_session_cookie : Option String → RemoteSessionService Time → Bool
  unfolding extract_session_id
  has_session_cookie cookie_header s = elim (extract_session_id cookie_header s) [
    | none ↦ false
    | some session_id ↦ true
  ]

  -- The session that stands under the identifier, if one does: too old, it goes; else it is renewed.
  abbrev pub resolve_found :
      String
      → Time
      → RemoteSessionService Time
      → Option (RemoteSessionRecord Time)
      → Option (RemoteSessionRecord Time) × RemoteSessionService Time
  resolve_found session_id now s none = (none, s)
  resolve_found session_id now s (some r) =
      let refreshed : RemoteSessionRecord Time = record r {
        expires_at_monotonic = clock.plus now s.ttl_s;
      } in
      if clock.at_most r.expires_at_monotonic now
      then (none, record s { sessions = erase session_id s.sessions })
      else (some refreshed, record s { sessions = insert session_id refreshed s.sessions })

  unfoldable pub resolve_id :
      Option String
      → Time
      → RemoteSessionService Time
      → Option (RemoteSessionRecord Time) × RemoteSessionService Time
  resolve_id none now s = (none, s)
  resolve_id (some session_id) now s = resolve_found session_id now s (lookup session_id s.sessions)

  unfoldable pub resolve_session :
      Option String
      → Time
      → RemoteSessionService Time
      → Option (RemoteSessionRecord Time) × RemoteSessionService Time
  unfolding extract_session_id resolve_id
  resolve_session cookie_header now s = resolve_id (extract_session_id cookie_header s) now s

  unfoldable pub destroy_session :
      Option String → RemoteSessionService Time → RemoteSessionService Time
  destroy_session session_id s =
      let name = clock.strip (or_empty session_id) in
      if text_eq name "" then s else record s { sessions = erase name s.sessions }

  unfoldable pub destroy_session_from_cookie :
      Option String → RemoteSessionService Time → RemoteSessionService Time
  unfolding destroy_session extract_session_id
  destroy_session_from_cookie cookie_header s =
      destroy_session (extract_session_id cookie_header s) s
