-- ===== src/Registry/Snapshots.antt =====
-- What `NodeRegistry` tells of its nodes: `NodeSnapshot`, `get_node_snapshot` and
-- `get_all_node_snapshots`.
use Prim.Native.String.{◌++◌ as append_text}
use text.Mathlib.Text.{◌==◌ as text_eq}
use control_ok_a_v.Base.{
  ℕ, Bool, not, ◌&&◌, List, [], ◌∷◌, ◌++◌, Option, none, some, String, leb, if◌then◌else◌,
}
use control_ok_a_v.Base.Int.{ℤ}
use control_ok_a_v.Base.Dict.{Dict, lookup, nat_eq}
use control_ok_a_v.Udp.Packet.{StateKey, ErrorKey}
use control_ok_a_v.Registry.Float.{FloatOps, age_since}
use control_ok_a_v.Registry.Models.{
  NodeStatus, NodeRegistryConfig, NodeState, NodeRuntimeEvent, event_type_value,
}
use control_ok_a_v.Registry.Policy.{is_within}
use control_ok_a_v.Registry.Node.{refresh_node}
use control_ok_a_v.Registry.Nodes.{NodeRegistry, put_node, resolve_ts}

pub record NodeSnapshot (F : Type 0) : Type 0 where
  pub node_id : ℕ
  pub label : Option String
  pub node_type : Option String
  pub last_seen_pc_ts : Option F
  pub last_seq_evt : Option ℕ
  pub last_seq_stat : Option ℕ
  pub pps_evt : F
  pub pps_stat : F
  pub loss_evt_pct : F
  pub loss_stat_pct : F
  pub rssi_dbm : Option ℤ
  pub last_note : Option ℕ
  pub last_velocity : Option ℕ
  pub last_evt_ts_ms : Option ℕ
  pub last_evt_flags : Option ℕ
  pub last_state_flags : Option ℕ
  pub last_uptime_s : Option ℕ
  pub reported_pps_x10 : Option ℕ
  pub status : NodeStatus
  pub vbat_mv : Option ℕ
  pub free_heap : Option ℕ
  pub fw_major : Option ℕ
  pub fw_minor : Option ℕ
  pub reset_reason : Option ℕ
  pub status_reason : String
  pub health_summary : String
  pub ota_state_code : Option ℕ
  pub ota_error_code : Option ℕ
  pub ota_flags : Option ℕ
  pub ota_state_key : StateKey
  pub ota_error_key : ErrorKey
  pub ota_check_pending : Bool
  pub ota_pending_reboot : Bool
  pub ota_pending_verify : Bool
  pub ota_health_confirmed : Bool
  pub last_status_change_pc_ts : Option F
  pub last_reboot_detected_pc_ts : Option F
  pub last_seen_age_s : Option F
  pub last_stat_age_s : Option F
  pub status_age_s : Option F
  pub reboot_age_s : Option F
  pub reboot_recent : Bool
  pub recovering : Bool
  pub last_transition_summary : String
  pub recent_events : List (NodeRuntimeEvent F)
  pub last_boot_marker : Option ℕ

-- `bool(text)`
abbrev pub is_nonempty : String → Bool
is_nonempty text = not (text_eq text "")

abbrev pub joined : List String → String
joined [] = ""
joined (text ∷ texts) = append_text text (joined texts)

-- `sorted`, by insertion
abbrev pub insert_sorted : ℕ → List ℕ → List ℕ
insert_sorted k [] = k ∷ []
insert_sorted k (j ∷ ks) =
    let rest = insert_sorted k ks in if leb k j then k ∷ (j ∷ ks) else j ∷ rest

module _ {F : Type 0} where
  abbrev pub reversed : List (NodeRuntimeEvent F) → List (NodeRuntimeEvent F)
  reversed [] = []
  reversed (e ∷ events) = reversed events ++ (e ∷ [])

  unfoldable pub event_summary_text : NodeRuntimeEvent F → String
  event_summary_text event =
      let name = event_type_value event.event_type in
      if is_nonempty event.details && is_nonempty event.reason
      then joined (name ∷ (": " ∷ (event.reason ∷ (" (" ∷ (event.details ∷ (")" ∷ []))))))
      else if is_nonempty event.reason
      then joined (name ∷ (": " ∷ (event.reason ∷ [])))
      else if is_nonempty event.details
      then joined (name ∷ (": " ∷ (event.details ∷ [])))
      else name

  -- The text of the latest event.
  abbrev pub summary_of : List (NodeRuntimeEvent F) → String
  unfolding event_summary_text
  summary_of [] = ""
  summary_of (e ∷ events) = event_summary_text e

  unfoldable pub sorted_keys : Dict ℕ (NodeState F) → List ℕ
  sorted_keys [] = []
  sorted_keys ((k, node) ∷ nodes) = insert_sorted k (sorted_keys nodes)

module _ {F : Type 0} (ops : FloatOps F) where
  unfoldable pub to_snapshot : NodeRegistryConfig F → NodeState F → F → NodeSnapshot F
  to_snapshot config node now =
      let reboot_age = age_since ops node.last_reboot_detected_pc_ts now in
      let events = reversed node.recent_events in
      record {
        node_id = node.node_id;
        label = node.label;
        node_type = node.node_type;
        last_seen_pc_ts = node.last_seen_pc_ts;
        last_seq_evt = node.last_seq_evt;
        last_seq_stat = node.last_seq_stat;
        pps_evt = node.pps_evt;
        pps_stat = node.pps_stat;
        loss_evt_pct = node.loss_evt_pct;
        loss_stat_pct = node.loss_stat_pct;
        rssi_dbm = node.rssi_dbm;
        last_note = node.last_note;
        last_velocity = node.last_velocity;
        last_evt_ts_ms = node.last_evt_ts_ms;
        last_evt_flags = node.last_evt_flags;
        last_state_flags = node.last_state_flags;
        last_uptime_s = node.last_uptime_s;
        reported_pps_x10 = node.reported_pps_x10;
        status = node.status;
        vbat_mv = node.vbat_mv;
        free_heap = node.free_heap;
        fw_major = node.fw_major;
        fw_minor = node.fw_minor;
        reset_reason = node.reset_reason;
        status_reason = node.status_reason;
        health_summary = node.health_summary;
        ota_state_code = node.ota_state_code;
        ota_error_code = node.ota_error_code;
        ota_flags = node.ota_flags;
        ota_state_key = node.ota_state_key;
        ota_error_key = node.ota_error_key;
        ota_check_pending = node.ota_check_pending;
        ota_pending_reboot = node.ota_pending_reboot;
        ota_pending_verify = node.ota_pending_verify;
        ota_health_confirmed = node.ota_health_confirmed;
        last_status_change_pc_ts = node.last_status_change_pc_ts;
        last_reboot_detected_pc_ts = node.last_reboot_detected_pc_ts;
        last_seen_age_s = age_since ops node.last_seen_pc_ts now;
        last_stat_age_s = age_since ops node.last_stat_pc_ts now;
        status_age_s = age_since ops node.last_status_change_pc_ts now;
        reboot_age_s = reboot_age;
        reboot_recent = is_within ops reboot_age config.calibrating_hold_s;
        recovering = node.recovering;
        last_transition_summary = summary_of events;
        recent_events = events;
        last_boot_marker = node.last_boot_marker;
      }

  -- A node that is refreshed, kept, and told of.
  abbrev pub snapshot_of :
      Option (NodeState F) → NodeRegistry F → ℕ → F → Option (NodeSnapshot F) × NodeRegistry F
  snapshot_of none registry node_id now = (none, registry)
  snapshot_of (some node) registry node_id now =
      let refreshed = refresh_node ops registry.config node now in
      (some (to_snapshot registry.config refreshed now), put_node ops registry node_id refreshed)

  unfoldable pub get_node_snapshot :
      NodeRegistry F → ℕ → Option F → F → Option (NodeSnapshot F) × NodeRegistry F
  unfolding to_snapshot
  get_node_snapshot registry node_id now clock =
      snapshot_of (lookup node_id registry.nodes) registry node_id (resolve_ts ops now clock)

  abbrev pub also : {A : Type 0} → Option A → List A → List A
  also none xs = xs
  also (some x) xs = x ∷ xs

  -- The loop of `get_all_node_snapshots`, over the numbers of nodes.
  unfoldable pub snapshots_of : List ℕ → NodeRegistry F → F → List (NodeSnapshot F) × NodeRegistry F
  unfolding to_snapshot
  snapshots_of [] registry now = ([], registry)
  snapshots_of (node_id ∷ ids) registry now =
      let (snapshot, refreshed) =
        snapshot_of (lookup node_id registry.nodes) registry node_id now in
      let (snapshots, last) = snapshots_of ids refreshed now in (also snapshot snapshots, last)

  unfoldable pub get_all_node_snapshots :
      NodeRegistry F → Option F → F → List (NodeSnapshot F) × NodeRegistry F
  unfolding sorted_keys
  get_all_node_snapshots registry now clock =
      snapshots_of (sorted_keys registry.nodes) registry (resolve_ts ops now clock)
