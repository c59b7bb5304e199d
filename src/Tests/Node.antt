-- ===== src/Tests/Node.antt =====
-- Nodes and sessions on concrete inputs.
use control_ok_a_v.Base.{ℕ, ◌+◌, ◌≡◌, true, [], ◌∷◌, none, some, String, Option, List}
use control_ok_a_v.Session.{
  idle, SessionEvent, request_start, start_failed, reset_error, SessionSpec,
}
use control_ok_a_v.Session.Lifecycle.{after, opened, closed, open_sessions, sessions_balance}

abbrev node : ℕ
node = 7

abbrev log : List (SessionEvent × Option String)
log =
    (request_start, none)
    ∷ (request_start, none)
    ∷ (start_failed, some "port")
    ∷ (reset_error, none)
    ∷ []

sessions_balance_example :
    opened log idle + open_sessions idle ≡ closed log idle + open_sessions (after log idle)
sessions_balance_example = sessions_balance log idle

abbrev spec : SessionSpec
spec = record { profile_id = none; mode = none; backend = none; is_valid = true }
