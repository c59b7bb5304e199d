-- ===== src/Services/Transaction/Waiting.antt =====
-- The loop that waits for the acknowledgement of one attempt. It runs on fuel: a round reads the
-- clock once more, so with a clock that gets past every deadline there is enough.
use control_ok_a_v.Base.{
  ℕ, zero, suc, ◌+◌, true, Option, none, some, Result, ok, err, if◌then◌else◌,
}
use control_ok_a_v.ControlPlane.Audit.{invalid_ack_seen, unmatched_ack_seen}
use control_ok_a_v.ControlPlane.Protocol.{ParsedOkuaAck}
use control_ok_a_v.ControlPlane.Pending.{
  SentOkuaCommand, AckCorrelationResult, AckCorrelationStatus, matched, unmatched_ack, invalid_ack,
}
use control_ok_a_v.Services.AckListener.{ListenerError, poll_once}
use control_ok_a_v.Services.Transaction.Model.{
  Environment, TimeOps, World, Progress, same_command_identity, event_of, ack_event, log, tick,
}

-- How the waiting of one attempt ends.
pub data Waited : Type 0 where
  acked : Option ParsedOkuaAck → SentOkuaCommand → Waited
  broken : ListenerError → Waited
  expired : Waited

abbrev pub saw_unmatched : SentOkuaCommand → ℕ → Progress → Progress
saw_unmatched sent i p = record (log (event_of unmatched_ack_seen sent i) p) {
  has_seen_unmatched = true;
}

abbrev pub saw_invalid : SentOkuaCommand → ℕ → Progress → Progress
saw_invalid sent i p = record (log (event_of invalid_ack_seen sent i) p) { has_seen_invalid = true }

-- A match, of this command or of another one that is pending.
unfoldable pub heed_match :
    Option SentOkuaCommand
    → Option ParsedOkuaAck
    → SentOkuaCommand
    → ℕ
    → Progress
    → Option Waited × Progress
unfolding same_command_identity event_of ack_event
heed_match none ack sent i p = (none, saw_unmatched sent i p)
heed_match (some command) ack sent i p =
    if same_command_identity command sent
    then (some (acked ack command), log (ack_event ack sent i) p)
    else (none, saw_unmatched sent i p)

module _ {Time : Type 0} where
  unfoldable pub heed_status :
      AckCorrelationStatus
      → AckCorrelationResult Time
      → SentOkuaCommand
      → ℕ
      → Progress
      → Option Waited × Progress
  unfolding heed_match event_of
  heed_status matched observed sent i p = heed_match observed.sent_command observed.ack sent i p
  heed_status invalid_ack observed sent i p = (none, saw_invalid sent i p)
  heed_status unmatched_ack observed sent i p = (none, saw_unmatched sent i p)

  -- What a poll observed: `none` to go on.
  unfoldable pub heed :
      Result ListenerError (Option (AckCorrelationResult Time))
      → SentOkuaCommand
      → ℕ
      → Progress
      → Option Waited × Progress
  unfolding heed_status
  heed (err e) sent i p = (some (broken e), p)
  heed (ok none) sent i p = (none, p)
  heed (ok (some observed)) sent i p = heed_status observed.status observed sent i p

  -- The loop goes on, or it has ended.
  unfoldable pub go_on :
      Option Waited
      → Progress
      → World Time
      → (Progress → World Time → Option (Waited × Progress × World Time))
      → Option (Waited × Progress × World Time)
  go_on (some waited) p w rest = some (waited, p, w)
  go_on none p w rest = rest p w

  module _ (ops : TimeOps Time) (env : Environment Time) where
    unfoldable pub poll :
        SentOkuaCommand → ℕ → Progress → World Time → Option Waited × Progress × World Time
    unfolding heed poll_once
    poll sent i p w =
        let polled = poll_once (env.received w.at) (env.clock w.at) w.listener in
        let heeded = heed polled.0 sent i p in
        (heeded.0, heeded.1, record w { at = w.at + 1; listener = polled.1 })

    -- One test of `clock() < deadline`, and the poll behind it.
    unfoldable pub round :
        Time → SentOkuaCommand → ℕ → Progress → World Time → Option Waited × Progress × World Time
    unfolding poll
    round deadline sent i p w =
        if ops.before (env.clock w.at) deadline
        then poll sent i p (tick w)
        else (some expired, p, tick w)

    -- `while clock() < deadline`
    unfoldable pub wait :
        ℕ
        → Time
        → SentOkuaCommand
        → ℕ
        → Progress
        → World Time
        → Option (Waited × Progress × World Time)
    unfolding round go_on
    wait zero deadline sent i p w = none
    wait (suc fuel) deadline sent i p w =
        let played = round deadline sent i p w in
        go_on played.0 played.1 played.2 (λ p' w'. wait fuel deadline sent i p' w')
