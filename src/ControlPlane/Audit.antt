-- ===== src/ControlPlane/Audit.antt =====
-- core/control_plane/audit.py: the events of a transaction. The time stamp and the detail text are
-- left out.
use control_ok_a_v.Base.{ℕ, ◌%◌, ◌^◌, Option, none, some, String}
use control_ok_a_v.Base.Int.{ℤ, mask}

pub data ControlAuditEventType : Type 0 where
  command_sent command_retry command_ack command_timeout : ControlAuditEventType
  invalid_ack_seen unmatched_ack_seen listener_not_running send_error : ControlAuditEventType

pub record ControlAuditEvent : Type 0 where
  pub event_type : ControlAuditEventType
  pub command_name : String
  pub cmd_id : ℕ
  pub node_ip : String
  pub node_id : ℕ
  pub cmd_seq : Option ℕ
  pub nonce : Option ℕ
  pub attempt_index : ℕ
  pub ack_stage : Option ℕ
  pub status_code : Option ℕ
  pub err_detail : Option ℕ

-- `None if value is None else int(value) & (limit - 1)`
abbrev pub masked : ℕ → Option ℕ → Option ℕ
masked limit none = none
masked limit (some value) = some (value % limit)

unfoldable pub build_control_audit_event :
    ControlAuditEventType
    → String
    → ℕ
    → String
    → ℤ
    → Option ℕ
    → Option ℕ
    → ℕ
    → Option ℕ
    → Option ℕ
    → Option ℕ
    → ControlAuditEvent
build_control_audit_event event_type command_name cmd_id node_ip node_id cmd_seq nonce attempt_index
      ack_stage status_code err_detail =
    record {
      event_type = event_type;
      command_name = command_name;
      cmd_id = cmd_id % 2 ^ 8;
      node_ip = node_ip;
      node_id = mask node_id (2 ^ 16);
      cmd_seq = masked (2 ^ 16) cmd_seq;
      nonce = masked (2 ^ 64) nonce;
      attempt_index = attempt_index;
      ack_stage = masked (2 ^ 8) ack_stage;
      status_code = masked (2 ^ 8) status_code;
      err_detail = masked (2 ^ 16) err_detail;
    }
