-- ===== src/Services/Transaction/Results.antt =====
-- The result of a transaction, and how a wait turns into one.
use control_ok_a_v.Base.{ℕ, ◌%◌, ◌^◌, Option, none, some, String, if◌then◌else◌}
use control_ok_a_v.Base.Int.{ℤ, mask}
use control_ok_a_v.ControlPlane.Audit.{
  ControlAuditEventType, command_sent, command_retry, command_timeout, build_control_audit_event,
}
use control_ok_a_v.ControlPlane.Audit as Audit
use control_ok_a_v.ControlPlane.Protocol.{ParsedOkuaAck}
use control_ok_a_v.ControlPlane.Pending.{
  SentOkuaCommand, register_sent_command, discard_sent_command,
}
use control_ok_a_v.Services.Cmd.{Command, command_name, command_id}
use control_ok_a_v.Services.Transaction.Model.{
  Environment, TimeOps, World, ControlTransactionFinalStatus, ack_matched, timeout,
  invalid_ack_seen, unmatched_ack_seen, listener_not_running, LastError, poll_raised,
  ControlTransactionResult, Progress, event_of, log, tick,
}
use control_ok_a_v.Services.Transaction.Waiting.{Waited, acked, broken, expired}

-- The arguments of a method `send_*_and_wait_ack`.
pub record Request : Type 0 where
  pub command : Command
  pub node_ip : String
  pub node_id : ℤ
  pub source : String
  pub ack_timeout_ms : ℤ
  pub max_retries : ℤ
  pub poll_interval_ms : ℤ

abbrev pub seq_of : Option SentOkuaCommand → Option ℕ
seq_of none = none
seq_of (some sent) = some sent.cmd_seq

abbrev pub nonce_of : Option SentOkuaCommand → Option ℕ
nonce_of none = none
nonce_of (some sent) = some sent.nonce

-- The status of a transaction that got no acknowledgement in any attempt.
abbrev pub final_status_of : Progress → ControlTransactionFinalStatus
final_status_of p =
    if p.has_seen_invalid
    then invalid_ack_seen
    else if p.has_seen_unmatched
    then unmatched_ack_seen
    else timeout

-- An event that names the arguments.
unfoldable pub request_event :
    ControlAuditEventType → Request → Option SentOkuaCommand → ℕ → Progress → Progress
unfolding build_control_audit_event command_name command_id
request_event event_type r active i p =
    log
      (build_control_audit_event event_type (command_name r.command) (command_id r.command)
        r.node_ip r.node_id (seq_of active) (nonce_of active) i none none none)
      p

-- A transaction that is over: the result, and the world after it.
abbrev pub Outcome : Type 0 → Type 0
Outcome Time = ControlTransactionResult Time × World Time

-- One attempt ended the transaction, or its time ran out.
pub data Attempt (Time : Type 0) : Type 0 where
  over : Outcome Time → Attempt Time
  timed_out : SentOkuaCommand → Progress → World Time → Attempt Time

module _ {Time : Type 0} where
  unfoldable pub register : Time → SentOkuaCommand → World Time → World Time
  register now sent w = record w {
    listener = record w.listener {
      pending_store = register_sent_command sent none now w.listener.pending_store;
    };
  }

  unfoldable pub discard : SentOkuaCommand → World Time → World Time
  discard sent w = record w {
    listener = record w.listener {
      pending_store = (discard_sent_command sent w.listener.pending_store).1;
    };
  }

  module _ (ops : TimeOps Time) (env : Environment Time) (tx_started : Time) where
    -- `_build_result` reads the clock.
    unfoldable pub result_of :
        ControlTransactionFinalStatus
        → SentOkuaCommand
        → Option ParsedOkuaAck
        → SentOkuaCommand
        → Option LastError
        → ℕ
        → Progress
        → World Time
        → Outcome Time
    result_of status sent ack matched_sent last_error attempt_count p w = (
      record {
        command_name = sent.command_name;
        cmd_id = sent.cmd_id % 2 ^ 8;
        node_ip = sent.node_ip;
        node_id = sent.node_id % 2 ^ 16;
        cmd_seq = some sent.cmd_seq;
        nonce = some sent.nonce;
        attempt_count = attempt_count;
        final_status = status;
        ack = ack;
        matched_sent_command = some matched_sent;
        elapsed_ms = ops.elapsed_ms tx_started (env.clock w.at);
        last_error = last_error;
        events = p.events;
      },
      tick w,
    )

    -- A result that names the arguments, and the command that was sent before, if one was.
    unfoldable pub result_unsent :
        ControlTransactionFinalStatus
        → Request
        → Option SentOkuaCommand
        → LastError
        → ℕ
        → Progress
        → World Time
        → Outcome Time
    unfolding command_name command_id
    result_unsent status r active last_error attempt_count p w = (
      record {
        command_name = command_name r.command;
        cmd_id = command_id r.command % 2 ^ 8;
        node_ip = r.node_ip;
        node_id = mask r.node_id (2 ^ 16);
        cmd_seq = seq_of active;
        nonce = nonce_of active;
        attempt_count = attempt_count;
        final_status = status;
        ack = none;
        matched_sent_command = active;
        elapsed_ms = ops.elapsed_ms tx_started (env.clock w.at);
        last_error = some last_error;
        events = p.events;
      },
      tick w,
    )

    -- After the wait: the command is no longer pending, unless its acknowledgement took it away.
    unfoldable pub settle : Waited → SentOkuaCommand → ℕ → Progress → World Time → Attempt Time
    unfolding discard result_of event_of
    settle (acked ack command) sent i p w = over (result_of ack_matched sent ack command none i p w)
    settle (broken e) sent i p w = over (
        result_of listener_not_running sent none sent (some (poll_raised e)) i
          (log (event_of Audit.listener_not_running sent i) p) (discard sent w))
    settle expired sent i p w =
        timed_out sent (log (event_of command_timeout sent i) p) (discard sent w)

    unfoldable pub settle_waited :
        Option (Waited × Progress × World Time) → SentOkuaCommand → ℕ → Option (Attempt Time)
    unfolding settle
    settle_waited none sent i = none
    settle_waited (some (waited, p, w)) sent i = some (settle waited sent i p w)
