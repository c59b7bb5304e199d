-- ===== src/Session/Lifecycle.antt =====
-- Sessions never overlap, and what the snapshot offers is what the machine takes
-- (core/session/session_state_machine.py, core/session/session_models.py).
use control_ok_a_v.Base.{
  ℕ, ◌+◌, ◌≡◌, refl, Bool, true, false, ◌&&◌, ◌||◌, List, [], ◌∷◌, Option, some, String, arith,
}
use control_ok_a_v.Session.Machine.{
  SessionState, idle, SessionEvent, request_start, request_stop, backend_stopped, reset_error,
  SessionErrorInfo, SessionSpec, can_transition, apply_session_event, transitions,
  allowed_events_for_state, build_session_snapshot, event_beq, invalid_transition,
}

-- The state after these events, those that are not allowed included.
pub after : List (SessionEvent × Option String) → SessionState → SessionState
after [] s = s
after ((e, d) ∷ rest) s = after rest (apply_session_event s e d).to_state

weight : SessionEvent → Bool → ℕ
weight request_start true = 1
weight _ _ = 0

close_weight : SessionEvent → Bool → ℕ
close_weight backend_stopped true = 1
close_weight reset_error true = 1
close_weight _ _ = 0

-- How many of the events opened a session, and how many closed one.
pub opened : List (SessionEvent × Option String) → SessionState → ℕ
opened [] s = 0
opened ((e, d) ∷ rest) s =
    weight e (apply_session_event s e d).is_valid + opened rest (apply_session_event s e d).to_state

pub closed : List (SessionEvent × Option String) → SessionState → ℕ
closed [] s = 0
closed ((e, d) ∷ rest) s =
    close_weight e (apply_session_event s e d).is_valid
    + closed rest (apply_session_event s e d).to_state

pub open_sessions : SessionState → ℕ
open_sessions idle = 0
open_sessions _ = 1

step-balance :
    (s : SessionState) (e : SessionEvent) (d : Option String)
    → weight e (apply_session_event s e d).is_valid + open_sessions s
      ≡ close_weight e (apply_session_event s e d).is_valid
        + open_sessions (apply_session_event s e d).to_state
unfolding apply_session_event weight close_weight open_sessions transitions
step-balance s e d = ground arith

-- From any state, and whatever events arrive, the sessions that were opened are those that were
-- closed, plus one just if the machine is not idle. So from the initial state there is never more
-- than one session, and none in the state idle.
pub sessions_balance :
    (log : List (SessionEvent × Option String)) (s : SessionState)
    → opened log s + open_sessions s ≡ closed log s + open_sessions (after log s)
unfolding opened closed after
sessions_balance [] s = refl
sessions_balance ((e, d) ∷ rest) s =
    omega (arith, step-balance s e d, sessions_balance rest (apply_session_event s e d).to_state)

-- The start button of a snapshot is on just if the profile is valid and a start would be taken, and
-- the stop button just if a stop would be taken; both are never on together.
pub build_session_snapshot_lem :
    (s : SessionState) (spec : SessionSpec) (x : Option SessionErrorInfo) (d : Option String)
    → ((build_session_snapshot s spec x).can_start
        ≡ (spec.is_valid && (apply_session_event s request_start d).is_valid))
      × ((build_session_snapshot s spec x).can_stop
          ≡ (apply_session_event s request_stop d).is_valid)
      × (((build_session_snapshot s spec x).can_start && (build_session_snapshot s spec x).can_stop)
          ≡ false)
unfolding build_session_snapshot apply_session_event transitions
build_session_snapshot_lem s spec x d = ground arith

pub is_member : SessionEvent → List SessionEvent → Bool
is_member e [] = false
is_member e (x ∷ rest) = event_beq x e || is_member e rest

-- An event is applied just if it is listed for the state. One that is not keeps the state and
-- reports it, and one that is reports only a failure.
pub apply_session_event_lem :
    (s : SessionState) (e : SessionEvent) (d : Option String)
    → ((apply_session_event s e d).is_valid ≡ can_transition s e)
      × (can_transition s e ≡ is_member e (allowed_events_for_state s))
      × (can_transition s e ≡ false
          → ((apply_session_event s e d).to_state ≡ s)
            × ((apply_session_event s e d).error ≡ some (invalid_transition s e)))
unfolding apply_session_event transitions can_transition allowed_events_for_state is_member
apply_session_event_lem s e d = ground arith
