-- ===== src/Services/Transaction/Model.antt =====
-- The world that a transaction runs in, its progress, and its results.
use control_ok_a_v.Base.{
  ℕ, ◌+◌, Bool, true, false, not, List, [], ◌∷◌, ◌++◌, Option, none, some, String, Result, ok, ◌>>◌,
  raise_if, ◌==◌, ◌&&◌,
}
use control_ok_a_v.Base.Int.{ℤ, pos, pos_part, ltb_ℤ}
use control_ok_a_v.Base.Bytes.{Bytes}
use control_ok_a_v.ControlPlane.Audit.{
  ControlAuditEvent, ControlAuditEventType, command_ack, build_control_audit_event,
}
use control_ok_a_v.ControlPlane.Protocol.{ParsedOkuaAck}
use control_ok_a_v.ControlPlane.Pending.{SentOkuaCommand, key_beq, command_key}
use control_ok_a_v.Services.AckListener.{AckListener, ListenerError, Received, FileNo, Opening}
use control_ok_a_v.Services.Cmd.{CmdService, CmdError, Socket}

-- What the program gets from outside, moment by moment: each call to the outside takes the next one.
pub record Environment (Time : Type 0) : Type 0 where
  pub clock : ℕ → Time
  pub received : ℕ → Received
  pub socket : ℕ → Socket
  pub fileno : ℕ → FileNo
  pub opening : ℕ → Opening

-- The operations on times that the code uses.
pub record TimeOps (Time : Type 0) : Type 0 where
  -- `a < b`
  pub before : Time → Time → Bool
  -- `t + ms / 1000.0`
  pub later : Time → ℕ → Time
  -- `max(0.0, (b - a) * 1000.0)`
  pub elapsed_ms : Time → Time → Time

pub record World (Time : Type 0) : Type 0 where
  pub at : ℕ
  pub service : CmdService
  pub listener : AckListener Time

pub data ControlTransactionFinalStatus : Type 0 where
  ack_matched timeout invalid_ack_seen unmatched_ack_seen : ControlTransactionFinalStatus
  listener_not_running send_error : ControlTransactionFinalStatus

-- The texts of errors, as what they say.
pub data LastError : Type 0 where
  cannot_start : ListenerError → LastError
  left_not_running : LastError
  send_raised : CmdError → LastError
  retry_differs : LastError
  poll_raised : ListenerError → LastError
  no_ack : ℕ → LastError

pub record ControlTransactionResult (Time : Type 0) : Type 0 where
  pub command_name : String
  pub cmd_id : ℕ
  pub node_ip : String
  pub node_id : ℕ
  pub cmd_seq : Option ℕ
  pub nonce : Option ℕ
  pub attempt_count : ℕ
  pub final_status : ControlTransactionFinalStatus
  pub ack : Option ParsedOkuaAck
  pub matched_sent_command : Option SentOkuaCommand
  pub elapsed_ms : Time
  pub last_error : Option LastError
  pub events : List ControlAuditEvent

-- The locals of `_execute_transaction` that grow.
pub record Progress : Type 0 where
  pub events : List ControlAuditEvent
  pub has_seen_invalid : Bool
  pub has_seen_unmatched : Bool

-- The `ValueError`s of the three checks.
pub data ArgumentError : Type 0 where
  bad_timeout bad_poll_interval bad_retries : ArgumentError

unfoldable pub validate_timeout_ms : ℤ → Result ArgumentError ℕ
validate_timeout_ms value = do raise_if (ltb_ℤ value (pos 1)) bad_timeout; ok (pos_part value)

unfoldable pub validate_poll_interval_ms : ℤ → Result ArgumentError ℕ
validate_poll_interval_ms value = do
  raise_if (ltb_ℤ value (pos 0)) bad_poll_interval
  ok (pos_part value)

unfoldable pub validate_max_retries : ℤ → Result ArgumentError ℕ
validate_max_retries value = do raise_if (ltb_ℤ value (pos 0)) bad_retries; ok (pos_part value)

-- Equality of packets
abbrev pub same_bytes : Bytes → Bytes → Bool
same_bytes [] [] = true
same_bytes (a ∷ xs) (b ∷ ys) = let rest = same_bytes xs ys in a == b && rest
same_bytes _ _ = false

unfoldable pub assert_retry_identity :
    SentOkuaCommand → SentOkuaCommand → Result LastError (Unit {0})
assert_retry_identity previous resent = do
  raise_if (not (resent.cmd_seq == previous.cmd_seq)) retry_differs
  raise_if (not (resent.nonce == previous.nonce)) retry_differs
  raise_if (not (same_bytes resent.packet previous.packet)) retry_differs

unfoldable pub same_command_identity : SentOkuaCommand → SentOkuaCommand → Bool
unfolding command_key
same_command_identity left right =
    key_beq (command_key left.cmd_seq left.cmd_id left.nonce)
      (command_key right.cmd_seq right.cmd_id right.nonce)

-- An event about the command that was sent.
unfoldable pub event_of : ControlAuditEventType → SentOkuaCommand → ℕ → ControlAuditEvent
unfolding build_control_audit_event
event_of event_type sent attempt_index =
    build_control_audit_event event_type sent.command_name sent.cmd_id sent.node_ip
      (pos sent.node_id) (some sent.cmd_seq) (some sent.nonce) attempt_index none none none

unfoldable pub ack_event : Option ParsedOkuaAck → SentOkuaCommand → ℕ → ControlAuditEvent
unfolding build_control_audit_event
ack_event none sent attempt_index =
    build_control_audit_event command_ack sent.command_name sent.cmd_id sent.node_ip
      (pos sent.node_id) (some sent.cmd_seq) (some sent.nonce) attempt_index none none none
ack_event (some ack) sent attempt_index =
    build_control_audit_event command_ack sent.command_name sent.cmd_id sent.node_ip
      (pos sent.node_id) (some sent.cmd_seq) (some sent.nonce) attempt_index (some ack.ack_stage)
      (some ack.status_code) (some ack.err_detail)

abbrev pub log : ControlAuditEvent → Progress → Progress
log event p = record p { events = p.events ++ (event ∷ []) }

abbrev pub tick : {Time : Type 0} → World Time → World Time
tick w = record w { at = w.at + 1 }
