-- ===== src/Runtime/Model.antt =====
-- `ControlPlaneRuntime` (core/control_plane/runtime.py): what it keeps of a result.
use control_ok_a_v.Base.{
  ℕ, ◌+◌, Bool, true, false, List, [], ◌∷◌, ◌++◌, Option, none, some, String, leb, if◌then◌else◌,
  length, drop,
}
use control_ok_a_v.Base.Int.{ℤ, pos, pos_part, ltb_ℤ}
use control_ok_a_v.Base.Dict.{Dict, lookup, insert, nat_eq}
use control_ok_a_v.ControlPlane.Audit.{
  ControlAuditEvent, ControlAuditEventType, command_sent, command_retry, command_ack,
  command_timeout, invalid_ack_seen, unmatched_ack_seen, listener_not_running, send_error,
}
use control_ok_a_v.ControlPlane.Protocol.{ParsedOkuaAck}
use control_ok_a_v.Services.Transaction.{
  ControlTransactionResult, ControlTransactionFinalStatus, LastError, ack_matched, timeout,
}
use control_ok_a_v.Runtime.Choice.{ControlPlaneNodeStatusSnapshot, select_effective_node_status}

abbrev pub final_status_value : ControlTransactionFinalStatus → String
final_status_value ack_matched = "ack_matched"
final_status_value timeout = "timeout"
final_status_value ControlTransactionFinalStatus.invalid_ack_seen = "invalid_ack_seen"
final_status_value ControlTransactionFinalStatus.unmatched_ack_seen = "unmatched_ack_seen"
final_status_value ControlTransactionFinalStatus.listener_not_running = "listener_not_running"
final_status_value ControlTransactionFinalStatus.send_error = "send_error"

pub record ControlPlaneResultSummary (Time : Type 0) : Type 0 where
  pub command_name : String
  pub node_id : ℕ
  pub node_ip : String
  pub cmd_seq : Option ℕ
  pub nonce : Option ℕ
  pub attempt_count : ℕ
  pub final_status : String
  pub ack_stage : Option ℕ
  pub status_code : Option ℕ
  pub err_detail : Option ℕ
  pub elapsed_ms : Time
  pub ts_utc : String

-- The payload for the recording, without the time stamp and the detail of the event.
pub record Recorded (Time : Type 0) : Type 0 where
  pub session_id : Option String
  pub event : ControlAuditEvent
  pub elapsed_ms : Time
  pub final_status : String

pub record ControlPlaneRuntime (Time : Type 0) : Type 0 where
  pub recent_results_limit : ℕ
  pub has_recording_sink : Bool
  pub commands_sent_total : ℕ
  pub command_retry_total : ℕ
  pub command_ack_total : ℕ
  pub command_timeout_total : ℕ
  pub invalid_ack_total : ℕ
  pub unmatched_ack_total : ℕ
  pub last_command : Option (ControlPlaneResultSummary Time)
  pub last_result : Option (ControlPlaneResultSummary Time)
  pub recent_results : List (ControlPlaneResultSummary Time)
  pub per_node_last_status : Dict ℕ ControlPlaneNodeStatusSnapshot
  pub recording : List (Recorded Time)

abbrev pub init : {Time : Type 0} → ℤ → Bool → ControlPlaneRuntime Time
init recent_results_limit has_recording_sink = record {
  recent_results_limit =
      if ltb_ℤ recent_results_limit (pos 1) then 1 else pos_part recent_results_limit;
  has_recording_sink = has_recording_sink;
  commands_sent_total = 0;
  command_retry_total = 0;
  command_ack_total = 0;
  command_timeout_total = 0;
  invalid_ack_total = 0;
  unmatched_ack_total = 0;
  last_command = none;
  last_result = none;
  recent_results = [];
  per_node_last_status = [];
  recording = [];
}

abbrev pub ack_field : (ParsedOkuaAck → ℕ) → Option ParsedOkuaAck → Option ℕ
ack_field get none = none
ack_field get (some ack) = some (get ack)

-- `append` on a deque with a greatest length
abbrev pub append_recent : {A : Type 0} → ℕ → List A → A → List A
append_recent limit xs x =
    if leb (length xs + 1) limit then xs ++ (x ∷ []) else drop 1 (xs ++ (x ∷ []))

-- The kinds of events that are recorded.
abbrev pub is_recorded : ControlAuditEventType → Bool
is_recorded command_sent = true
is_recorded command_retry = true
is_recorded command_ack = true
is_recorded command_timeout = true
is_recorded _ = false

module _ {Time : Type 0} where
  abbrev pub count_event :
      ControlAuditEventType → ControlPlaneRuntime Time → ControlPlaneRuntime Time
  count_event command_sent r = record r { commands_sent_total = r.commands_sent_total + 1 }
  count_event command_retry r = record r { command_retry_total = r.command_retry_total + 1 }
  count_event command_ack r = record r { command_ack_total = r.command_ack_total + 1 }
  count_event command_timeout r = record r { command_timeout_total = r.command_timeout_total + 1 }
  count_event invalid_ack_seen r = record r { invalid_ack_total = r.invalid_ack_total + 1 }
  count_event unmatched_ack_seen r = record r { unmatched_ack_total = r.unmatched_ack_total + 1 }
  count_event listener_not_running r = r
  count_event send_error r = r

  abbrev pub record_event : Recorded Time → ControlPlaneRuntime Time → ControlPlaneRuntime Time
  record_event payload r =
      if is_recorded payload.event.event_type
      then (if r.has_recording_sink
          then record r { recording = r.recording ++ (payload ∷ []) }
          else r)
      else r

  -- The loop over the events of a result.
  unfoldable pub consume_events :
      List ControlAuditEvent
      → Option String
      → Time
      → String
      → ControlPlaneRuntime Time
      → ControlPlaneRuntime Time
  consume_events [] session_id elapsed_ms final_status r = r
  consume_events (event ∷ events) session_id elapsed_ms final_status r =
      consume_events events session_id elapsed_ms final_status (
        record_event
          (record {
            session_id = session_id;
            event = event;
            elapsed_ms = elapsed_ms;
            final_status = final_status;
          })
          (count_event event.event_type r))

-- What the runtime gets of the outside: the texts of times and errors, `max(0.0, x)`, `str.strip` with
-- `none` where that leaves nothing, and the order of texts.
pub record Texts (Time Utc : Type 0) : Type 0 where
  pub at_least_zero : Time → Time
  -- `_format_utc`, and the moment that many milliseconds before.
  pub format_utc : Utc → String
  pub before : Utc → Time → Utc
  pub error_text : LastError → String
  pub stripped : String → Option String
  pub at_most : String → String → Bool

module _ {Time Utc : Type 0} (texts : Texts Time Utc) where
  abbrev pub error_message : Option LastError → Option String
  error_message none = none
  error_message (some e) = some (texts.error_text e)

  abbrev pub summary_of : ControlTransactionResult Time → Utc → ControlPlaneResultSummary Time
  summary_of result finished = record {
    command_name = result.command_name;
    node_id = result.node_id;
    node_ip = result.node_ip;
    cmd_seq = result.cmd_seq;
    nonce = result.nonce;
    attempt_count = result.attempt_count;
    final_status = final_status_value result.final_status;
    ack_stage = ack_field (λ a. a.ack_stage) result.ack;
    status_code = ack_field (λ a. a.status_code) result.ack;
    err_detail = ack_field (λ a. a.err_detail) result.ack;
    elapsed_ms = texts.at_least_zero result.elapsed_ms;
    ts_utc = texts.format_utc finished;
  }

  abbrev pub candidate_of : ControlTransactionResult Time → Utc → ControlPlaneNodeStatusSnapshot
  candidate_of result finished = record {
    node_id = result.node_id;
    node_ip = result.node_ip;
    command_name = result.command_name;
    cmd_seq = result.cmd_seq;
    nonce = result.nonce;
    final_status = final_status_value result.final_status;
    ack_stage = ack_field (λ a. a.ack_stage) result.ack;
    status_code = ack_field (λ a. a.status_code) result.ack;
    err_detail = ack_field (λ a. a.err_detail) result.ack;
    last_error_message = error_message result.last_error;
    tx_started_at_utc =
        some (texts.format_utc (texts.before finished (texts.at_least_zero result.elapsed_ms)));
    tx_finished_at_utc = some (texts.format_utc finished);
    ts_utc = texts.format_utc finished;
  }

  abbrev pub keep_status :
      ControlPlaneNodeStatusSnapshot
      → Dict ℕ ControlPlaneNodeStatusSnapshot
      → Dict ℕ ControlPlaneNodeStatusSnapshot
  keep_status candidate statuses =
      insert candidate.node_id
        (select_effective_node_status texts.stripped texts.at_most
          (lookup candidate.node_id statuses) candidate)
        statuses

  -- `finished` is `self._utc_now()`.
  unfoldable pub record_transaction_result :
      ControlTransactionResult Time
      → Utc
      → Option String
      → ControlPlaneRuntime Time
      → ControlPlaneRuntime Time
  unfolding consume_events
  record_transaction_result result finished session_id r =
      let summary = summary_of result finished in
      consume_events result.events session_id result.elapsed_ms
        (final_status_value result.final_status)
        (record r {
          last_command = some summary;
          last_result = some summary;
          recent_results = append_recent r.recent_results_limit r.recent_results summary;
          per_node_last_status = keep_status (candidate_of result finished) r.per_node_last_status;
        })
