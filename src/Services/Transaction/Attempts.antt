-- ===== src/Services/Transaction/Attempts.antt =====
-- `_execute_transaction`: the attempts, and the result.
use control_ok_a_v.Base.{
  ℕ, zero, suc, ◌+◌, false, [], Option, none, some, String, Result, ok, err, if◌then◌else◌, ◌>>=◌,
  ◌>>◌, map_err,
}
use control_ok_a_v.Base.Bytes.{Bytes}
use control_ok_a_v.ControlPlane.Audit.{
  ControlAuditEventType, command_sent, command_retry, command_timeout, build_control_audit_event,
}
use control_ok_a_v.ControlPlane.Audit as Audit
use control_ok_a_v.ControlPlane.Pending.{SentOkuaCommand}
use control_ok_a_v.Services.AckListener.{is_running, start}
use control_ok_a_v.Services.Cmd.{send_new_command, resend_sent_command}
use control_ok_a_v.Services.Transaction.Model.{
  Environment, TimeOps, World, listener_not_running, send_error, LastError, cannot_start,
  left_not_running, send_raised, no_ack, Progress, ArgumentError, validate_timeout_ms,
  validate_poll_interval_ms, validate_max_retries, assert_retry_identity, event_of, log, tick,
}
use control_ok_a_v.Services.Transaction.Waiting.{wait}
use control_ok_a_v.Services.Transaction.Results.{
  Request, final_status_of, register, Outcome, Attempt, over, timed_out, result_of, result_unsent,
  request_event, settle_waited,
}

module _ {Time : Type 0} where
  module _ (ops : TimeOps Time) (env : Environment Time) (tx_started : Time) where
    -- A command that has left: it is pending, the attempt is logged, and its time starts.
    unfoldable pub await_ack :
        ℕ
        → ℕ
        → ControlAuditEventType
        → SentOkuaCommand
        → ℕ
        → Progress
        → World Time
        → Option (Attempt Time)
    unfolding register event_of wait settle_waited
    await_ack fuel timeout_ms event_type sent i p w =
        settle_waited ops env tx_started
          (wait ops env fuel (ops.later (env.clock (w.at + 1)) timeout_ms) sent i
            (log (event_of event_type sent i) p)
            (record (register (env.clock w.at) sent w) { at = w.at + 2 }))
          sent i

    -- What became of a send. A retry that is not the same command raises too.
    unfoldable pub after_send :
        ℕ
        → ℕ
        → ControlAuditEventType
        → Request
        → Option SentOkuaCommand
        → Result LastError SentOkuaCommand
        → ℕ
        → Progress
        → World Time
        → Option (Attempt Time)
    unfolding await_ack request_event result_unsent
    after_send fuel timeout_ms event_type r active (ok sent) i p w =
        await_ack fuel timeout_ms event_type sent i p w
    after_send fuel timeout_ms event_type r active (err e) i p w = some (
        over (
          result_unsent ops env tx_started send_error r active e i
            (request_event Audit.send_error r active i p) w))

    module _ (stripped : String → Option String) (hmac : Bytes → Bytes → Bytes) where
      unfoldable pub first_attempt : ℕ → ℕ → Request → Progress → World Time → Option (Attempt Time)
      unfolding after_send send_new_command
      first_attempt fuel timeout_ms r p w =
          let sent =
            send_new_command stripped hmac w.service r.command r.node_ip r.node_id r.source
              (env.socket w.at) in
          after_send fuel timeout_ms command_sent r none (map_err send_raised sent.0) 1 p
            (record w { at = w.at + 1; service = sent.1 })

      unfoldable pub resend : SentOkuaCommand → World Time → Result LastError SentOkuaCommand
      unfolding resend_sent_command assert_retry_identity
      resend active w = do
        resent ← map_err send_raised (resend_sent_command stripped active "retry" (env.socket w.at))
        assert_retry_identity active resent
        ok resent

      unfoldable pub retry_attempt :
          ℕ → ℕ → Request → SentOkuaCommand → ℕ → Progress → World Time → Option (Attempt Time)
      unfolding after_send resend
      retry_attempt fuel timeout_ms r active i p w =
          after_send fuel timeout_ms command_retry r (some active) (resend active w) i p (tick w)

      -- No acknowledgement in any attempt.
      unfoldable pub conclude : SentOkuaCommand → ℕ → Progress → World Time → Outcome Time
      unfolding result_of
      conclude sent i p w =
          result_of ops env tx_started (final_status_of p) sent none sent (some (no_ack i)) i p w

      -- The attempts from number `i` on, with `left` more after it.
      unfoldable pub attempts :
          ℕ → ℕ → ℕ → Request → ℕ → Option (Attempt Time) → Option (Outcome Time)
      unfolding retry_attempt conclude
      attempts left fuel timeout_ms r i none = none
      attempts left fuel timeout_ms r i (some (over outcome)) = some outcome
      attempts zero fuel timeout_ms r i (some (timed_out sent p w)) = some (conclude sent i p w)
      attempts (suc left) fuel timeout_ms r i (some (timed_out sent p w)) =
          attempts left fuel timeout_ms r (i + 1) (retry_attempt fuel timeout_ms r sent (i + 1) p w)

  module _ (env : Environment Time) where
    -- `_ensure_listener_running` asks, starts, and asks again.
    unfoldable pub ensure_listener_running : World Time → Option LastError × World Time
    unfolding is_running start
    ensure_listener_running w =
        if is_running (env.fileno w.at) w.listener
        then (none, tick w)
        else let started = start (env.fileno (w.at + 1)) (env.opening (w.at + 1)) w.listener in
          (
            elim started.0 [
              | err e ↦ some (cannot_start e)
              | ok _ ↦
                  if is_running (env.fileno (w.at + 2)) started.1
                  then none
                  else some left_not_running
            ],
            record w { at = w.at + 3; listener = started.1 },
          )

  module _ (ops : TimeOps Time) (env : Environment Time) (stripped : String → Option String)
      (hmac : Bytes → Bytes → Bytes) where
    unfoldable pub run_attempts :
        ℕ → ℕ → ℕ → Request → Time → Option LastError → World Time → Option (Outcome Time)
    unfolding attempts first_attempt request_event result_unsent
    run_attempts fuel timeout_ms retries r tx_started (some e) w = some (
        result_unsent ops env tx_started listener_not_running r none e 0
          (request_event Audit.listener_not_running r none 0
            (record { events = []; has_seen_invalid = false; has_seen_unmatched = false }))
          w)
    run_attempts fuel timeout_ms retries r tx_started none w =
        attempts ops env tx_started stripped hmac retries fuel timeout_ms r 1 (
          first_attempt ops env tx_started stripped hmac fuel timeout_ms r
            (record { events = []; has_seen_invalid = false; has_seen_unmatched = false }) w)

    -- The whole call: the checks raise, and what is not enough fuel gives `none`.
    unfoldable pub execute_transaction :
        ℕ → Request → World Time → Result ArgumentError (Option (Outcome Time))
    unfolding run_attempts ensure_listener_running validate_timeout_ms validate_poll_interval_ms
        validate_max_retries
    execute_transaction fuel r w = do
      timeout_ms ← validate_timeout_ms r.ack_timeout_ms
      poll_interval_ms ← validate_poll_interval_ms r.poll_interval_ms
      retries ← validate_max_retries r.max_retries
      let ready = ensure_listener_running env (tick w)
      ok (run_attempts fuel timeout_ms retries r (env.clock w.at) ready.0 ready.1)
