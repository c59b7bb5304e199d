-- ===== src/Remote/Sessions/Lifetime.antt =====
-- How long a session lives, whatever happens to others (services/remote_session_service.py).
use control_ok_a_v.Base.{
  ◌≡◌, refl, Bool, false, not, ◌&&◌, Option, none, some, List, [], ◌∷◌, String, if◌then◌else◌,
  arith, inl, inr, Option-cases, Bool-cases,
}
use control_ok_a_v.Base.Int.{ℤ}
use control_ok_a_v.Base.Dict.{
  lookup, string_eq, HasDistinctKeys, lookup-insert, lookup-erase, insert-HasDistinctKeys,
  erase-HasDistinctKeys,
}
use control_ok_a_v.Remote.Sessions.Model.{
  RemoteSessionRecord, RemoteSessionService, Clock, or_empty, resolve_found, resolve_id,
  create_session, resolve_session, extract_session_id, destroy_session, destroy_session_from_cookie,
}
use text.Mathlib.Text.{◌==◌ as text_eq}
use text.Mathlib.TextEquality.{eq_iff}

-- The calls that change sessions: the cookie's header, a token and the time are what a call is given.
pub data Call (Time : Type 0) : Type 0 where
  create : String → String → Time → Call Time
  resolve : Option String → Time → Call Time
  destroy : Option String → Call Time
  destroy_cookie : Option String → Call Time

module _ {Time : Type 0} (clock : Clock Time) where
  unfoldable pub perform : Call Time → RemoteSessionService Time → RemoteSessionService Time
  perform (create username token now) s = (create_session clock username token now s).1
  perform (resolve header now) s = (resolve_session clock header now s).1
  perform (destroy session_id) s = destroy_session clock session_id s
  perform (destroy_cookie header) s = destroy_session_from_cookie clock header s

  unfoldable pub perform_all :
      List (Call Time) → RemoteSessionService Time → RemoteSessionService Time
  perform_all [] s = s
  perform_all (call ∷ calls) s = perform_all calls (perform call s)

  -- One session on its own: what each call makes of it. The settings of the service do not change.
  abbrev pub names : String → Option String → Bool
  names id none = false
  names id (some other) = text_eq other id

  -- An empty name destroys nothing.
  abbrev pub drops : String → String → Bool
  drops id name = not (text_eq name "") && text_eq name id

  abbrev pub renew : ℤ → Time → RemoteSessionRecord Time → Option (RemoteSessionRecord Time)
  renew ttl now r =
      if clock.at_most r.expires_at_monotonic now
      then none
      else some (record r { expires_at_monotonic = clock.plus now ttl })

  abbrev pub renew_found :
      ℤ → Time → Option (RemoteSessionRecord Time) → Option (RemoteSessionRecord Time)
  renew_found ttl now none = none
  renew_found ttl now (some r) = renew ttl now r

  abbrev pub alone :
      String
      → RemoteSessionService Time
      → Call Time
      → Option (RemoteSessionRecord Time)
      → Option (RemoteSessionRecord Time)
  alone id s (create username token now) old =
      if text_eq token id
      then some (record {
        session_id = token;
        username = clock.strip username;
        created_at_monotonic = now;
        expires_at_monotonic = clock.plus now s.ttl_s;
      })
      else old
  alone id s (resolve header now) old =
      if names id (extract_session_id clock header s) then renew_found s.ttl_s now old else old
  alone id s (destroy session_id) old =
      if drops id (clock.strip (or_empty session_id)) then none else old
  alone id s (destroy_cookie header) old =
      if drops id (clock.strip (or_empty (extract_session_id clock header s))) then none else old

  resolve_found-alone :
      (id other : String) (now : Time) (s : RemoteSessionService Time)
      (found : Option (RemoteSessionRecord Time))
      → HasDistinctKeys s.sessions
      → lookup other s.sessions ≡ found
      → lookup id (resolve_found clock other now s found).1.sessions
        ≡ (if text_eq other id then renew_found s.ttl_s now found else lookup id s.sessions)
  resolve_found-alone id other now s none h e = elim (Bool-cases (text_eq other id)) [
    | inl same ↦ rw same (rw (← (eq_iff other id).0 same) e)
    | inr differs ↦ rw differs
  ]
  resolve_found-alone id other now s (some r) h e =
      elim (Bool-cases (clock.at_most r.expires_at_monotonic now)) [
        | inl old ↦ rw old (lookup-erase other id s.sessions h)
        | inr live ↦ rw live (lookup-insert other id _ s.sessions)
      ]

  resolve_id-alone :
      (id : String) (named : Option String) (now : Time) (s : RemoteSessionService Time)
      → HasDistinctKeys s.sessions
      → lookup id (resolve_id clock named now s).1.sessions ≡ (
          if names id named
          then renew_found s.ttl_s now (lookup id s.sessions)
          else lookup id s.sessions)
  unfolding resolve_id
  resolve_id-alone id none now s h = refl
  resolve_id-alone id (some other) now s h =
      ground (
        arith,
        resolve_found-alone id other now s (lookup other s.sessions) h refl,
        eq_iff other id,
      )

  destroy_session-alone :
      (id : String) (session_id : Option String) (s : RemoteSessionService Time)
      → HasDistinctKeys s.sessions
      → lookup id (destroy_session clock session_id s).sessions
        ≡ (if drops id (clock.strip (or_empty session_id)) then none else lookup id s.sessions)
  unfolding destroy_session
  destroy_session-alone id session_id s h =
      ground (arith, lookup-erase (clock.strip (or_empty session_id)) id s.sessions h)

  -- What a call leaves of one session depends on that session alone.
  pub perform-alone :
      (id : String) (call : Call Time) (s : RemoteSessionService Time)
      → HasDistinctKeys s.sessions
      → lookup id (perform call s).sessions ≡ alone id s call (lookup id s.sessions)
  unfolding perform create_session resolve_session destroy_session_from_cookie
  perform-alone id (create username token now) s h = lookup-insert token id _ s.sessions
  perform-alone id (resolve header now) s h =
      resolve_id-alone id (extract_session_id clock header s) now s h
  perform-alone id (destroy session_id) s h = destroy_session-alone id session_id s h
  perform-alone id (destroy_cookie header) s h =
      destroy_session-alone id (extract_session_id clock header s) s h

  resolve_id-HasDistinctKeys :
      (named : Option String) (now : Time) (s : RemoteSessionService Time)
      → HasDistinctKeys s.sessions
      → HasDistinctKeys (resolve_id clock named now s).1.sessions
  unfolding resolve_id
  resolve_id-HasDistinctKeys none now s h = h
  resolve_id-HasDistinctKeys (some other) now s h = elim (Option-cases (lookup other s.sessions)) [
    | inl e ↦ rw e h
    | inr (r, e) ↦ rw e (elim (Bool-cases (clock.at_most r.expires_at_monotonic now)) [
      | inl old ↦ rw old (erase-HasDistinctKeys other s.sessions h)
      | inr live ↦ rw live (insert-HasDistinctKeys other _ s.sessions h)
    ])
  ]

  destroy-HasDistinctKeys :
      (session_id : Option String) (s : RemoteSessionService Time)
      → HasDistinctKeys s.sessions
      → HasDistinctKeys (destroy_session clock session_id s).sessions
  unfolding destroy_session
  destroy-HasDistinctKeys session_id s h =
      elim (Bool-cases (text_eq (clock.strip (or_empty session_id)) "")) [
        | inl e ↦ rw e h
        | inr e ↦ rw e (erase-HasDistinctKeys (clock.strip (or_empty session_id)) s.sessions h)
      ]

  pub perform-HasDistinctKeys :
      (call : Call Time) (s : RemoteSessionService Time)
      → HasDistinctKeys s.sessions
      → HasDistinctKeys (perform call s).sessions
  unfolding perform create_session resolve_session destroy_session_from_cookie
  perform-HasDistinctKeys (create username token now) s h =
      insert-HasDistinctKeys token _ s.sessions h
  perform-HasDistinctKeys (resolve header now) s h =
      resolve_id-HasDistinctKeys (extract_session_id clock header s) now s h
  perform-HasDistinctKeys (destroy session_id) s h = destroy-HasDistinctKeys session_id s h
  perform-HasDistinctKeys (destroy_cookie header) s h =
      destroy-HasDistinctKeys (extract_session_id clock header s) s h
