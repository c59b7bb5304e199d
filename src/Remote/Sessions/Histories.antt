-- ===== src/Remote/Sessions/Histories.antt =====
-- Whole histories of sessions (services/remote_session_service.py).
use control_ok_a_v.Base.{
  ◌≡◌, refl, ap, ◌∙◌, true, false, Option, none, some, List, [], ◌∷◌, String, arith, All, inl, inr,
  Bool-cases,
}
use control_ok_a_v.Base.Int.{ℤ}
use control_ok_a_v.Base.Dict.{lookup, string_eq, HasDistinctKeys}
use control_ok_a_v.Remote.Sessions.Model.{
  RemoteSessionRecord, RemoteSessionService, Clock, or_empty, resolve_found, resolve_id, init,
  create_session, resolve_session, extract_session_id, destroy_session, destroy_session_from_cookie,
}
use control_ok_a_v.Remote.Sessions.Lifetime.{
  Call, create, resolve, destroy, destroy_cookie, perform, perform_all, alone, names, drops,
  renew_found, perform-alone, perform-HasDistinctKeys,
}
use text.Mathlib.Text.{◌==◌ as text_eq}

module _ {Time : Type 0} (clock : Clock Time) where
  -- One session on its own over many calls, under the settings of a service.
  abbrev pub alone_all :
      String
      → RemoteSessionService Time
      → List (Call Time)
      → Option (RemoteSessionRecord Time)
      → Option (RemoteSessionRecord Time)
  alone_all id s [] old = old
  alone_all id s (call ∷ calls) old = alone_all id s calls (alone clock id s call old)

  -- The settings of a service.
  abbrev pub SameSettings : RemoteSessionService Time → RemoteSessionService Time → Type 0
  SameSettings s t = (s.cookie_name ≡ t.cookie_name) × (s.ttl_s ≡ t.ttl_s)

  destroy-SameSettings :
      (session_id : Option String) (s : RemoteSessionService Time)
      → SameSettings (destroy_session clock session_id s) s
  unfolding destroy_session
  destroy-SameSettings session_id s = ground arith

  resolve_id-SameSettings :
      (named : Option String) (now : Time) (s : RemoteSessionService Time)
      → SameSettings (resolve_id clock named now s).1 s
  unfolding resolve_id
  resolve_id-SameSettings none now s = (refl, refl)
  resolve_id-SameSettings (some other) now s = ground arith

  perform-SameSettings :
      (call : Call Time) (s : RemoteSessionService Time) → SameSettings (perform clock call s) s
  unfolding perform create_session resolve_session destroy_session_from_cookie
  perform-SameSettings (create username token now) s = (refl, refl)
  perform-SameSettings (resolve header now) s =
      resolve_id-SameSettings (extract_session_id clock header s) now s
  perform-SameSettings (destroy session_id) s = destroy-SameSettings session_id s
  perform-SameSettings (destroy_cookie header) s =
      destroy-SameSettings (extract_session_id clock header s) s

  alone_settings :
      (id : String) (s t : RemoteSessionService Time) (call : Call Time)
      (old : Option (RemoteSessionRecord Time))
      → SameSettings s t
      → alone clock id s call old ≡ alone clock id t call old
  unfolding extract_session_id
  alone_settings id s t (create username token now) old h = ground arith
  alone_settings id s t (resolve header now) old h = rw h.0 (rw h.1)
  alone_settings id s t (destroy session_id) old h = refl
  alone_settings id s t (destroy_cookie header) old h = rw h.0

  alone_all_settings :
      (id : String) (s t : RemoteSessionService Time) (calls : List (Call Time))
      (old : Option (RemoteSessionRecord Time))
      → SameSettings s t
      → alone_all id s calls old ≡ alone_all id t calls old
  alone_all_settings id s t [] old h = refl
  alone_all_settings id s t (call ∷ calls) old h =
      ap (alone_all id s calls) (alone_settings id s t call old h)
      ∙ alone_all_settings id s t calls (alone clock id t call old) h

  -- After any calls, one session is what the calls make of it alone, and keys stay distinct.
  pub perform_all-alone_all :
      (id : String) (calls : List (Call Time)) (s : RemoteSessionService Time)
      → HasDistinctKeys s.sessions
      → (lookup id (perform_all clock calls s).sessions
          ≡ alone_all id s calls (lookup id s.sessions))
        × HasDistinctKeys (perform_all clock calls s).sessions
        × SameSettings (perform_all clock calls s) s
  unfolding perform_all
  perform_all-alone_all id [] s h = (refl, h, (refl, refl))
  perform_all-alone_all id (call ∷ calls) s h =
      let s' = perform clock call s in
      let settings = perform-SameSettings call s in
      let (found, distinct, same) =
        perform_all-alone_all id calls s' (perform-HasDistinctKeys clock call s h) in
      (
        found
            ∙ alone_all_settings id s' s calls (lookup id s'.sessions) settings
            ∙ ap (alone_all id s calls) (perform-alone clock id call s h),
        distinct,
        (same.0 ∙ settings.0, same.1 ∙ settings.1),
      )

  resolved_found :
      (id : String) (now : Time) (s : RemoteSessionService Time)
      (found : Option (RemoteSessionRecord Time))
      → (resolve_found clock id now s found).0 ≡ renew_found clock s.ttl_s now found
  resolved_found id now s none = refl
  resolved_found id now s (some r) = ground arith

  extract_settings :
      (header : Option String) (s t : RemoteSessionService Time)
      → s.cookie_name ≡ t.cookie_name
      → extract_session_id clock header s ≡ extract_session_id clock header t
  unfolding extract_session_id
  extract_settings header s t h = rw h

  resolved :
      (id : String) (header : Option String) (now : Time) (s : RemoteSessionService Time)
      → extract_session_id clock header s ≡ some id
      → (resolve_session clock header now s).0
        ≡ renew_found clock s.ttl_s now (lookup id s.sessions)
  unfolding resolve_session resolve_id
  resolved id header now s h =
      ap (λ n. (resolve_id clock n now s).0) h ∙ resolved_found id now s (lookup id s.sessions)

  -- From a new service on, with any calls between: a cookie that names a session resolves to what the
  -- calls that concern it made of it alone (created, renewed by each use before it runs out, gone
  -- once it has run out or was destroyed), if its time has not run out.
  pub resolve_session_alone :
      (id cookie_name : String) (ttl_s : ℤ) (calls : List (Call Time)) (header : Option String)
      (now : Time)
      → extract_session_id clock header (init clock cookie_name ttl_s) ≡ some id
      → (resolve_session clock header now
          (perform_all clock calls (init clock cookie_name ttl_s))).0
        ≡ renew_found clock
            (init clock cookie_name ttl_s).ttl_s
            now
            (alone_all id (init clock cookie_name ttl_s) calls none)
  unfolding init
  resolve_session_alone id cookie_name ttl_s calls header now h =
      let s = init clock cookie_name ttl_s in
      let (found, distinct, same) = perform_all-alone_all id calls s tt in
      resolved id header now (perform_all clock calls s)
        (extract_settings header (perform_all clock calls s) s same.0 ∙ h)
      ∙ ap (λ ttl. renew_found clock ttl now (lookup id (perform_all clock calls s).sessions))
          same.1
      ∙ ap (renew_found clock s.ttl_s now) found

-- A session that has run out: the clock never goes back, so it is never resolved again.
module _ {Time : Type 0} (clock : Clock Time)
    (trans : (a b c : Time)
      → clock.at_most a b ≡ true
      → clock.at_most b c ≡ true
      → clock.at_most a c ≡ true) where
  -- There is no such session, or it has run out by then.
  abbrev pub HasRunOut : Time → Option (RemoteSessionRecord Time) → Type 0
  HasRunOut t none = Unit
  HasRunOut t (some r) = clock.at_most r.expires_at_monotonic t ≡ true

  -- A call at that time or later that does not create the session.
  abbrev pub IsLater : String → Time → Call Time → Type 0
  IsLater id t (create username token now) =
      (text_eq token id ≡ false) × (clock.at_most t now ≡ true)
  IsLater id t (resolve header now) = clock.at_most t now ≡ true
  IsLater id t (destroy session_id) = Unit
  IsLater id t (destroy_cookie header) = Unit

  renew-HasRunOut :
      (t now : Time) (ttl : ℤ) (old : Option (RemoteSessionRecord Time))
      → clock.at_most t now ≡ true
      → HasRunOut t old
      → renew_found clock ttl now old ≡ none
  renew-HasRunOut t now ttl none later h = refl
  renew-HasRunOut t now ttl (some r) later h = rw (trans r.expires_at_monotonic t now h later)

  alone-HasRunOut :
      (id : String) (s : RemoteSessionService Time) (t : Time) (call : Call Time)
      (old : Option (RemoteSessionRecord Time))
      → IsLater id t call
      → HasRunOut t old
      → HasRunOut t (alone clock id s call old)
  alone-HasRunOut id s t (create username token now) old later h = rw later.0 h
  alone-HasRunOut id s t (resolve header now) old later h =
      elim (Bool-cases (names clock id (extract_session_id clock header s))) [
        | inl e ↦ rw e (rw (renew-HasRunOut t now s.ttl_s old later h) tt)
        | inr e ↦ rw e h
      ]
  alone-HasRunOut id s t (destroy session_id) old later h =
      elim (Bool-cases (drops clock id (clock.strip (or_empty session_id)))) [
        | inl e ↦ rw e tt
        | inr e ↦ rw e h
      ]
  alone-HasRunOut id s t (destroy_cookie header) old later h =
      elim (Bool-cases
        (drops clock id (clock.strip (or_empty (extract_session_id clock header s))))) [
          | inl e ↦ rw e tt
          | inr e ↦ rw e h
        ]

  alone_all-HasRunOut :
      (id : String) (s : RemoteSessionService Time) (t : Time) (calls : List (Call Time))
      (old : Option (RemoteSessionRecord Time))
      → All (IsLater id t) calls
      → HasRunOut t old
      → HasRunOut t (alone_all clock id s calls old)
  alone_all-HasRunOut id s t [] old later h = h
  alone_all-HasRunOut id s t (call ∷ calls) old later h =
      alone_all-HasRunOut id s t calls (alone clock id s call old) later.1
        (alone-HasRunOut id s t call old later.0 h)

  -- A session that has run out by some time, or is not there, is not resolved at that time or later,
  -- whatever calls come in between, if the clock does not go back and none of them creates it.
  pub run_out_session_is_gone :
      (id : String) (s : RemoteSessionService Time) (t now : Time) (calls : List (Call Time))
      (header : Option String)
      → HasDistinctKeys s.sessions
      → HasRunOut t (lookup id s.sessions)
      → All (IsLater id t) calls
      → clock.at_most t now ≡ true
      → extract_session_id clock header s ≡ some id
      → (resolve_session clock header now (perform_all clock calls s)).0 ≡ none
  run_out_session_is_gone id s t now calls header distinct old later ahead h =
      let (found, kept, same) = perform_all-alone_all clock id calls s distinct in
      resolved clock id header now (perform_all clock calls s)
        (extract_settings clock header (perform_all clock calls s) s same.0 ∙ h)
      ∙ ap (renew_found clock _ now) found
      ∙ renew-HasRunOut t now _ (alone_all clock id s calls (lookup id s.sessions)) ahead
          (alone_all-HasRunOut id s t calls (lookup id s.sessions) later old)
