-- ===== src/Runtime/Dispatch.antt =====
-- `ControlPlaneRuntime` (core/control_plane/runtime.py): commands to a node by its number, and what the
-- runtime tells.
use control_ok_a_v.Base.{
  ℕ, Bool, true, false, ◌||◌, List, [], ◌∷◌, Option, none, some, String, ltb, leb, ◌==◌,
  if◌then◌else◌, Result, ok, err, ◌>>=◌, ◌>>◌, raise_if, map_err,
}
use control_ok_a_v.Base.Int.{ℤ, pos, pos_part, ltb_ℤ}
use control_ok_a_v.Base.Bytes.{Bytes}
use control_ok_a_v.Base.Dict.{Dict, lookup, nat_eq}
use control_ok_a_v.ControlPlane.Pending.{PendingCommand, pending_count, list_pending}
use control_ok_a_v.Services.AckListener.{AckListener, FileNo, is_running, stop}
use control_ok_a_v.Services.Cmd.{Command}
use control_ok_a_v.Services.Transaction.{
  Environment, TimeOps, World, ArgumentError, Outcome, ControlTransactionResult,
  execute_transaction,
}
use control_ok_a_v.Runtime.Choice.{ControlPlaneNodeStatusSnapshot}
use control_ok_a_v.Runtime.Model.{
  ControlPlaneResultSummary, ControlPlaneRuntime, Texts, record_transaction_result,
}

-- What the resolver of addresses gives: an exception, no text, or a text.
pub data Resolving : Type 0 where
  resolver_raises no_text : Resolving
  text : String → Resolving

-- `ControlPlaneNodeResolutionError`, by its reasons, and a `ValueError` of a transaction.
pub data RuntimeError : Type 0 where
  out_of_range resolver_raised not_resolved : RuntimeError
  bad_argument : ArgumentError → RuntimeError

abbrev pub or_not_resolved : Option String → Result RuntimeError String
or_not_resolved none = err not_resolved
or_not_resolved (some node_ip) = ok node_ip

abbrev pub ip_of : (String → Option String) → Resolving → Result RuntimeError String
ip_of stripped resolver_raises = err resolver_raised
ip_of stripped no_text = err not_resolved
ip_of stripped (text raw_ip) = or_not_resolved (stripped raw_ip)

-- `stripped` is `str.strip`, with `none` where that leaves nothing.
unfoldable pub resolve_node_ip :
    (String → Option String) → (ℕ → Resolving) → ℤ → Result RuntimeError String
resolve_node_ip stripped resolver node_id = do
  raise_if (ltb_ℤ node_id (pos 1) || ltb_ℤ (pos 0xFFFF) node_id) out_of_range
  ip_of stripped (resolver (pos_part node_id))

pub record ControlPlaneRuntimeSnapshot (Time : Type 0) : Type 0 where
  pub is_available : Bool
  pub listener_active : Bool
  pub ack_port : ℕ
  pub pending_count : ℕ
  pub commands_sent_total : ℕ
  pub command_retry_total : ℕ
  pub command_ack_total : ℕ
  pub command_timeout_total : ℕ
  pub invalid_ack_total : ℕ
  pub unmatched_ack_total : ℕ
  pub last_command : Option (ControlPlaneResultSummary Time)
  pub last_result : Option (ControlPlaneResultSummary Time)
  pub per_node_last_status : List ControlPlaneNodeStatusSnapshot
  pub recent_results : List (ControlPlaneResultSummary Time)

abbrev pub build_unavailable_control_plane_snapshot :
    {Time : Type 0} → ℕ → ControlPlaneRuntimeSnapshot Time
build_unavailable_control_plane_snapshot ack_port = record {
  is_available = false;
  listener_active = false;
  ack_port = ack_port;
  pending_count = 0;
  commands_sent_total = 0;
  command_retry_total = 0;
  command_ack_total = 0;
  command_timeout_total = 0;
  invalid_ack_total = 0;
  unmatched_ack_total = 0;
  last_command = none;
  last_result = none;
  per_node_last_status = [];
  recent_results = [];
}

-- A number into a sorted list without doubles.
abbrev pub insert_once : ℕ → List ℕ → List ℕ
insert_once k [] = k ∷ []
insert_once k (j ∷ ks) =
    let rest = insert_once k ks in
    if k == j then j ∷ ks else if leb k j then k ∷ (j ∷ ks) else j ∷ rest

-- `sorted` of the keys
abbrev pub sorted_keys : {A : Type 0} → Dict ℕ A → List ℕ
sorted_keys [] = []
sorted_keys ((k, a) ∷ d) = insert_once k (sorted_keys d)

abbrev pub statuses_at :
    List ℕ → Dict ℕ ControlPlaneNodeStatusSnapshot → List ControlPlaneNodeStatusSnapshot
statuses_at [] statuses = []
statuses_at (k ∷ ks) statuses = also (lookup k statuses) (statuses_at ks statuses)
  where
    also :
        Option ControlPlaneNodeStatusSnapshot
        → List ControlPlaneNodeStatusSnapshot
        → List ControlPlaneNodeStatusSnapshot
    also none rest = rest
    also (some s) rest = s ∷ rest

module _ {Time : Type 0} where
  unfoldable pub snapshot :
      FileNo → AckListener Time → ControlPlaneRuntime Time → ControlPlaneRuntimeSnapshot Time
  unfolding pending_count is_running
  snapshot fileno l r = record {
    is_available = true;
    listener_active = is_running fileno l;
    ack_port = l.ack_port;
    pending_count = pending_count l.pending_store;
    commands_sent_total = r.commands_sent_total;
    command_retry_total = r.command_retry_total;
    command_ack_total = r.command_ack_total;
    command_timeout_total = r.command_timeout_total;
    invalid_ack_total = r.invalid_ack_total;
    unmatched_ack_total = r.unmatched_ack_total;
    last_command = r.last_command;
    last_result = r.last_result;
    per_node_last_status = statuses_at (sorted_keys r.per_node_last_status) r.per_node_last_status;
    recent_results = r.recent_results;
  }

  -- The loop of `active_node_ids`: the numbers of nodes in range, sorted, each once.
  abbrev pub active_ids : List (PendingCommand Time) → List ℕ
  active_ids [] = []
  active_ids (row ∷ rows) =
      let k = row.sent_command.node_id in
      if ltb k 1 || ltb 0xFFFF k then active_ids rows else insert_once k (active_ids rows)

  unfoldable pub active_node_ids : AckListener Time → List ℕ
  unfolding list_pending
  active_node_ids l = active_ids (list_pending l.pending_store)

  -- `stop`: an error of the listener is passed over.
  unfoldable pub stop_listener : Bool → AckListener Time → AckListener Time
  unfolding stop
  stop_listener close_raises l = (stop close_raises l).1

module _ {Time Utc : Type 0} (ops : TimeOps Time) (env : Environment Time)
    (stripped : String → Option String) (hmac : Bytes → Bytes → Bytes) (texts : Texts Time Utc)
    (resolver : ℕ → Resolving) where
  -- The result is recorded, and returned.
  abbrev pub recorded_outcome :
      Option (Outcome Time)
      → Utc
      → Option String
      → ControlPlaneRuntime Time
      → Option (ControlTransactionResult Time × World Time × ControlPlaneRuntime Time)
  recorded_outcome none finished session_id runtime = none
  recorded_outcome (some (result, w)) finished session_id runtime =
      some (result, w, record_transaction_result texts result finished session_id runtime)

  -- The methods send_*, by the command; `none` where the fuel does not reach.
  unfoldable pub send :
      ℕ
      → Command
      → ℤ
      → ℤ
      → ℤ
      → String
      → World Time
      → Utc
      → Option String
      → ControlPlaneRuntime Time
      → Result RuntimeError
          (Option (ControlTransactionResult Time × World Time × ControlPlaneRuntime Time))
  unfolding resolve_node_ip execute_transaction record_transaction_result
  send fuel command node_id ack_timeout_ms max_retries source w finished session_id runtime = do
    node_ip ← resolve_node_ip stripped resolver node_id
    outcome ← map_err bad_argument (
        execute_transaction ops env stripped hmac fuel
          (record {
            command = command;
            node_ip = node_ip;
            node_id = node_id;
            source = source;
            ack_timeout_ms = ack_timeout_ms;
            max_retries = max_retries;
            poll_interval_ms = pos 20;
          })
          w)
    ok (recorded_outcome outcome finished session_id runtime)
