-- ===== src/Session/Machine.antt =====
-- core/session/session_state_machine.py, and the snapshot of core/session/session_models.py. The texts
-- for the operator are left out.
use control_ok_a_v.Base.{Bool, true, false, ◌&&◌, List, [], ◌∷◌, Option, none, some, String}

pub data SessionState : Type 0 where
  idle starting running stopping error : SessionState

pub data SessionEvent : Type 0 where
  request_start backend_started start_failed request_stop backend_stopped stop_failed : SessionEvent
  reset_error : SessionEvent

-- The codes; the detail of an invalid transition names the state and the event.
pub data SessionErrorInfo : Type 0 where
  invalid_transition : SessionState → SessionEvent → SessionErrorInfo
  start_failed_with : Option String → SessionErrorInfo
  stop_failed_with : Option String → SessionErrorInfo

pub record SessionTransition : Type 0 where
  pub from_state : SessionState
  pub event : SessionEvent
  pub to_state : SessionState
  pub is_valid : Bool
  pub error : Option SessionErrorInfo

-- `_TRANSITIONS[state]`, in the order of the source
unfoldable pub transitions : SessionState → List (SessionEvent × SessionState)
transitions idle = (request_start, starting) ∷ []
transitions starting = (backend_started, running) ∷ (start_failed, error) ∷ []
transitions running = (request_stop, stopping) ∷ []
transitions stopping = (backend_stopped, idle) ∷ (stop_failed, error) ∷ []
transitions error = (reset_error, idle) ∷ []

abbrev pub event_beq : SessionEvent → SessionEvent → Bool
event_beq request_start request_start = true
event_beq backend_started backend_started = true
event_beq start_failed start_failed = true
event_beq request_stop request_stop = true
event_beq backend_stopped backend_stopped = true
event_beq stop_failed stop_failed = true
event_beq reset_error reset_error = true
event_beq _ _ = false

abbrev pub get : SessionEvent → List (SessionEvent × SessionState) → Option SessionState
get event [] = none
get event ((e, s) ∷ rest) =
    let found = get event rest in elim (event_beq e event) [ true ↦ some s | false ↦ found ]

abbrev pub is_some : Option SessionState → Bool
is_some none = false
is_some (some s) = true

unfoldable pub initial_session_state : SessionState
initial_session_state = idle

unfoldable pub can_transition : SessionState → SessionEvent → Bool
unfolding transitions
can_transition state event = is_some (get event (transitions state))

abbrev pub error_of : SessionEvent → Option String → Option SessionErrorInfo
error_of start_failed detail = some (start_failed_with detail)
error_of stop_failed detail = some (stop_failed_with detail)
error_of _ detail = none

abbrev pub transition_to :
    SessionState → SessionEvent → Option String → Option SessionState → SessionTransition
transition_to state event detail none = record {
  from_state = state;
  event = event;
  to_state = state;
  is_valid = false;
  error = some (invalid_transition state event);
}
transition_to state event detail (some next_state) = record {
  from_state = state;
  event = event;
  to_state = next_state;
  is_valid = true;
  error = error_of event detail;
}

unfoldable pub apply_session_event : SessionState → SessionEvent → Option String → SessionTransition
unfolding transitions
apply_session_event state event detail =
    transition_to state event detail (get event (transitions state))

abbrev pub events_of : List (SessionEvent × SessionState) → List SessionEvent
events_of [] = []
events_of ((e, s) ∷ rest) = e ∷ events_of rest

unfoldable pub allowed_events_for_state : SessionState → List SessionEvent
unfolding transitions
allowed_events_for_state state = events_of (transitions state)

pub data BackendKind : Type 0 where
  serial udp lab : BackendKind

pub record SessionSpec : Type 0 where
  pub profile_id : Option String
  pub mode : Option String
  pub backend : Option BackendKind
  pub is_valid : Bool

pub record SessionSnapshot : Type 0 where
  pub state : SessionState
  pub active_profile : Option String
  pub mode : Option String
  pub backend : Option BackendKind
  pub error : Option SessionErrorInfo
  pub can_start : Bool
  pub can_stop : Bool

abbrev pub is_idle : SessionState → Bool
is_idle idle = true
is_idle _ = false

abbrev pub is_running : SessionState → Bool
is_running running = true
is_running _ = false

unfoldable pub build_session_snapshot :
    SessionState → SessionSpec → Option SessionErrorInfo → SessionSnapshot
build_session_snapshot state spec reported = record {
  state = state;
  active_profile = spec.profile_id;
  mode = spec.mode;
  backend = spec.backend;
  error = reported;
  can_start = spec.is_valid && is_idle state;
  can_stop = is_running state;
}
