-- ===== src/Registry/Models.antt =====
-- core/registry/node_models.py and node_runtime_events.py: the configuration, what is kept of a node,
-- and the events of a node.
use control_ok_a_v.Base.{ℕ, Bool, false, List, [], Option, none, String, Result, ok, ◌>>◌, raise_if}
use control_ok_a_v.Base.Int.{ℤ, pos, ltb_ℤ}
use control_ok_a_v.Udp.Packet.{StateKey, ErrorKey, idle, no_error}
use control_ok_a_v.Registry.Float.{FloatOps}

pub data NodeStatus : Type 0 where
  online calibrating degraded offline : NodeStatus

-- The value of a status
abbrev pub status_value : NodeStatus → String
status_value online = "online"
status_value calibrating = "calibrating"
status_value degraded = "degraded"
status_value offline = "offline"

pub data NodeRuntimeEventType : Type 0 where
  status_changed reboot_detected calibrating_entered : NodeRuntimeEventType
  recovered_online moved_degraded moved_offline : NodeRuntimeEventType

abbrev pub event_type_value : NodeRuntimeEventType → String
event_type_value status_changed = "status_changed"
event_type_value reboot_detected = "reboot_detected"
event_type_value calibrating_entered = "calibrating_entered"
event_type_value recovered_online = "recovered_online"
event_type_value moved_degraded = "moved_degraded"
event_type_value moved_offline = "moved_offline"

pub record NodeRuntimeEvent (F : Type 0) : Type 0 where
  pub occurred_at_pc_ts : F
  pub event_type : NodeRuntimeEventType
  pub status_key : String
  pub reason : String
  pub details : String

pub record NodeRegistryConfig (F : Type 0) : Type 0 where
  pub t_green_s : F
  pub t_red_s : F
  pub pps_min_yellow : F
  pub pps_window_s : F
  pub stat_loss_yellow_pct : F
  pub t_recover_s : F
  pub calibrating_hold_s : F
  pub calibrating_uptime_s : ℤ
  pub stat_recovery_packets_online : ℤ
  pub evt_recovery_packets_online : ℤ
  pub max_runtime_events_per_node : ℤ

-- The `ValueError`s, by the field that each is about.
pub data ConfigError : Type 0 where
  bad_t_green_s bad_t_red_s bad_pps_window_s bad_pps_min_yellow : ConfigError
  bad_stat_loss_yellow_pct bad_t_recover_s bad_calibrating_hold_s : ConfigError
  bad_calibrating_uptime_s bad_stat_recovery_packets_online : ConfigError
  bad_evt_recovery_packets_online bad_max_runtime_events_per_node : ConfigError

unfoldable pub post_init :
    {F : Type 0} → FloatOps F → NodeRegistryConfig F → Result ConfigError (NodeRegistryConfig F)
post_init ops c = do
  raise_if (ops.at_most c.t_green_s ops.zero) bad_t_green_s
  raise_if (ops.at_most c.t_red_s c.t_green_s) bad_t_red_s
  raise_if (ops.at_most c.pps_window_s ops.zero) bad_pps_window_s
  raise_if (ops.below c.pps_min_yellow ops.zero) bad_pps_min_yellow
  raise_if (ops.below c.stat_loss_yellow_pct ops.zero) bad_stat_loss_yellow_pct
  raise_if (ops.at_most c.t_recover_s ops.zero) bad_t_recover_s
  raise_if (ops.below c.t_green_s c.t_recover_s) bad_t_recover_s
  raise_if (ops.at_most c.calibrating_hold_s ops.zero) bad_calibrating_hold_s
  raise_if (ltb_ℤ c.calibrating_uptime_s (pos 0)) bad_calibrating_uptime_s
  raise_if (ltb_ℤ c.stat_recovery_packets_online (pos 1)) bad_stat_recovery_packets_online
  raise_if (ltb_ℤ c.evt_recovery_packets_online (pos 1)) bad_evt_recovery_packets_online
  raise_if (ltb_ℤ c.max_runtime_events_per_node (pos 1)) bad_max_runtime_events_per_node
  ok c

pub record NodeState (F : Type 0) : Type 0 where
  pub node_id : ℕ
  pub label : Option String
  pub node_type : Option String
  pub last_seen_pc_ts : Option F
  pub last_seq_evt : Option ℕ
  pub last_seq_stat : Option ℕ
  pub pps_evt : F
  pub pps_stat : F
  pub loss_evt_pct : F
  pub loss_stat_pct : F
  pub rssi_dbm : Option ℤ
  pub last_note : Option ℕ
  pub last_velocity : Option ℕ
  pub last_evt_ts_ms : Option ℕ
  pub last_evt_flags : Option ℕ
  pub last_state_flags : Option ℕ
  pub last_uptime_s : Option ℕ
  pub reported_pps_x10 : Option ℕ
  pub status : NodeStatus
  pub vbat_mv : Option ℕ
  pub free_heap : Option ℕ
  pub fw_major : Option ℕ
  pub fw_minor : Option ℕ
  pub reset_reason : Option ℕ
  pub last_stat_pc_ts : Option F
  pub status_reason : String
  pub health_summary : String
  pub ota_state_code : Option ℕ
  pub ota_error_code : Option ℕ
  pub ota_flags : Option ℕ
  pub ota_state_key : StateKey
  pub ota_error_key : ErrorKey
  pub ota_check_pending : Bool
  pub ota_pending_reboot : Bool
  pub ota_pending_verify : Bool
  pub ota_health_confirmed : Bool
  pub last_status_change_pc_ts : Option F
  pub last_reboot_detected_pc_ts : Option F
  pub last_boot_marker : Option ℕ
  pub recovering : Bool
  pub evt_seen_forward : ℕ
  pub evt_missing_packets : ℕ
  pub stat_seen_forward : ℕ
  pub stat_missing_packets : ℕ
  pub evt_recovery_streak : ℕ
  pub stat_recovery_streak : ℕ
  pub evt_timestamps : List F
  pub stat_timestamps : List F
  pub recent_events : List (NodeRuntimeEvent F)

-- `NodeState(node_id=...)`
abbrev pub new_node : {F : Type 0} → FloatOps F → ℕ → NodeState F
new_node ops node_id = record {
  node_id = node_id;
  label = none;
  node_type = none;
  last_seen_pc_ts = none;
  last_seq_evt = none;
  last_seq_stat = none;
  pps_evt = ops.zero;
  pps_stat = ops.zero;
  loss_evt_pct = ops.zero;
  loss_stat_pct = ops.zero;
  rssi_dbm = none;
  last_note = none;
  last_velocity = none;
  last_evt_ts_ms = none;
  last_evt_flags = none;
  last_state_flags = none;
  last_uptime_s = none;
  reported_pps_x10 = none;
  status = offline;
  vbat_mv = none;
  free_heap = none;
  fw_major = none;
  fw_minor = none;
  reset_reason = none;
  last_stat_pc_ts = none;
  status_reason = "no recent packets";
  health_summary = "no recent packets";
  ota_state_code = none;
  ota_error_code = none;
  ota_flags = none;
  ota_state_key = idle;
  ota_error_key = no_error;
  ota_check_pending = false;
  ota_pending_reboot = false;
  ota_pending_verify = false;
  ota_health_confirmed = false;
  last_status_change_pc_ts = none;
  last_reboot_detected_pc_ts = none;
  last_boot_marker = none;
  recovering = false;
  evt_seen_forward = 0;
  evt_missing_packets = 0;
  stat_seen_forward = 0;
  stat_missing_packets = 0;
  evt_recovery_streak = 0;
  stat_recovery_streak = 0;
  evt_timestamps = [];
  stat_timestamps = [];
  recent_events = [];
}
