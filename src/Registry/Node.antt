-- ===== src/Registry/Node.antt =====
-- What the registry does to one node (core/registry/node_registry.py).
use control_ok_a_v.Base.{ℕ, Bool, not, ◌||◌, List, [], ◌∷◌, ◌++◌, some, if◌then◌else◌, length}
use control_ok_a_v.Udp.Packet.{OkuaEvtPacket, OkuaStatPacket, OkuaOtaRuntimeInfo}
use control_ok_a_v.Registry.Float.{FloatOps}
use control_ok_a_v.Registry.Models.{
  NodeStatus, status_value, NodeRegistryConfig, NodeState, NodeRuntimeEvent, reboot_detected,
}
use control_ok_a_v.Registry.Policy.{
  NodeStatusInputs, NodeStatusEvaluation, evaluate_node_status, is_some,
}
use control_ok_a_v.Registry.Losses.{evt_stream, stat_stream, update_seq_loss}
use control_ok_a_v.Registry.Events.{
  append_bounded, same_status, resolve_boot_marker, detects_reboot, reboot_detection_details,
  transition_event_type,
}

-- `while queue and queue[0] < cutoff: queue.popleft()`
unfoldable pub drop_old : {F : Type 0} → FloatOps F → F → List F → List F
drop_old ops cutoff [] = []
drop_old ops cutoff (t ∷ queue) =
    let rest = drop_old ops cutoff queue in if ops.below t cutoff then rest else t ∷ queue

module _ {F : Type 0} (ops : FloatOps F) (config : NodeRegistryConfig F) where
  unfoldable pub append_event : NodeState F → NodeRuntimeEvent F → NodeState F
  unfolding append_bounded
  append_event node event = record node {
    recent_events = append_bounded config.max_runtime_events_per_node node.recent_events event;
  }

  -- The queue that is left, and the rate.
  unfoldable pub compute_pps : List F → F → List F × F
  compute_pps queue now =
      let left = drop_old ops (ops.minus now config.pps_window_s) queue in
      (left, ops.over (ops.of_count (length left)) config.pps_window_s)

  unfoldable pub record_pps_sample : List F → F → List F × F
  record_pps_sample queue sample_ts = compute_pps (queue ++ (sample_ts ∷ [])) sample_ts

  abbrev pub put_evt_pps : List F × F → NodeState F → NodeState F
  put_evt_pps (queue, pps) node = record node { evt_timestamps = queue; pps_evt = pps }

  abbrev pub put_stat_pps : List F × F → NodeState F → NodeState F
  put_stat_pps (queue, pps) node = record node { stat_timestamps = queue; pps_stat = pps }

  abbrev pub build_status_inputs : NodeState F → NodeStatusInputs F
  build_status_inputs node = record {
    last_seen_pc_ts = node.last_seen_pc_ts;
    last_stat_pc_ts = node.last_stat_pc_ts;
    pps_evt = node.pps_evt;
    pps_stat = node.pps_stat;
    loss_evt_pct = node.loss_evt_pct;
    loss_stat_pct = node.loss_stat_pct;
    last_seq_evt = node.last_seq_evt;
    last_seq_stat = node.last_seq_stat;
    last_uptime_s = node.last_uptime_s;
    last_reboot_detected_pc_ts = node.last_reboot_detected_pc_ts;
    evt_recovery_streak = node.evt_recovery_streak;
    stat_recovery_streak = node.stat_recovery_streak;
  }

  unfoldable pub append_status_transition_event : NodeState F → F → NodeStatus → Bool → NodeState F
  append_status_transition_event node occurred_at previous_status is_initial =
      append_event node (record {
        occurred_at_pc_ts = occurred_at;
        event_type = transition_event_type previous_status node.status is_initial;
        status_key = status_value node.status;
        reason = node.status_reason;
        details = node.health_summary;
      })

  -- The fields that an evaluation sets.
  abbrev pub put_evaluation : NodeStatusEvaluation F → NodeState F → NodeState F
  put_evaluation e node = record node {
    status = e.status;
    status_reason = e.reason;
    health_summary = e.health_summary;
    recovering = e.is_recovering;
  }

  unfoldable pub apply_evaluation : NodeState F → NodeStatusEvaluation F → F → NodeState F
  apply_evaluation node e now =
      let is_initial = not (is_some node.last_status_change_pc_ts) in
      if is_initial || not (same_status node.status e.status)
      then append_status_transition_event
          (put_evaluation e (record node { last_status_change_pc_ts = some now })) now node.status
          is_initial
      else put_evaluation e node

  unfoldable pub apply_status_evaluation : NodeState F → F → NodeState F
  apply_status_evaluation node now =
      apply_evaluation node (evaluate_node_status ops (build_status_inputs node) config now) now

  unfoldable pub refresh_node : NodeState F → F → NodeState F
  refresh_node node now =
      apply_status_evaluation
        (put_stat_pps (compute_pps node.stat_timestamps now)
          (put_evt_pps (compute_pps node.evt_timestamps now) node))
        now

  unfoldable pub update_reboot_tracking : NodeState F → ℕ → ℕ → ℕ → F → NodeState F
  update_reboot_tracking node uptime_s reset_reason state_flags observed_at =
      let marker = resolve_boot_marker (some state_flags) in
      let tracked =
        if detects_reboot node.last_uptime_s uptime_s node.reset_reason reset_reason
          node.last_boot_marker marker config.calibrating_uptime_s
        then append_event (record node { last_reboot_detected_pc_ts = some observed_at })
            (record {
              occurred_at_pc_ts = observed_at;
              event_type = reboot_detected;
              status_key = "";
              reason = "";
              details =
                  reboot_detection_details node.last_uptime_s uptime_s node.reset_reason
                    reset_reason node.last_boot_marker marker;
            })
        else node in
      record tracked { last_boot_marker = marker }

  abbrev pub put_evt : OkuaEvtPacket → F → NodeState F → NodeState F
  put_evt packet now node = record node {
    last_seen_pc_ts = some now;
    rssi_dbm = some packet.rssi_dbm;
    last_note = some packet.note;
    last_velocity = some packet.vel;
    last_evt_ts_ms = some packet.ts_ms;
    last_evt_flags = some packet.flags;
  }

  -- What `observe_evt` does to the node.
  unfoldable pub evt_seen : OkuaEvtPacket → F → NodeState F → NodeState F
  evt_seen packet now node =
      let counted = update_seq_loss ops (put_evt packet now node) packet.header.seq evt_stream in
      let sampled = put_evt_pps (record_pps_sample counted.evt_timestamps now) counted in
      apply_status_evaluation (put_stat_pps (compute_pps sampled.stat_timestamps now) sampled) now

  abbrev pub put_stat : OkuaStatPacket → F → NodeState F → NodeState F
  put_stat packet now node = record node {
    last_seen_pc_ts = some now;
    last_stat_pc_ts = some now;
    rssi_dbm = some packet.rssi_dbm;
    last_state_flags = some packet.state_flags;
    last_uptime_s = some packet.uptime_s;
    reported_pps_x10 = some packet.pps_x10;
    vbat_mv = some packet.vbat_mv;
    free_heap = some packet.free_heap;
    fw_major = some packet.fw_major;
    fw_minor = some packet.fw_minor;
    reset_reason = some packet.reset_reason;
  }

  abbrev pub put_ota : OkuaOtaRuntimeInfo → NodeState F → NodeState F
  put_ota ota_runtime node = record node {
    ota_state_code = some ota_runtime.state_code;
    ota_error_code = some ota_runtime.error_code;
    ota_flags = some ota_runtime.flags;
    ota_state_key = ota_runtime.state_key;
    ota_error_key = ota_runtime.error_key;
    ota_check_pending = ota_runtime.check_pending;
    ota_pending_reboot = ota_runtime.pending_reboot;
    ota_pending_verify = ota_runtime.pending_verify;
    ota_health_confirmed = ota_runtime.health_confirmed;
  }

  -- What `observe_stat` does to the node before it reads the reserved bytes, and after.
  unfoldable pub stat_begun : OkuaStatPacket → F → NodeState F → NodeState F
  stat_begun packet now node =
      put_stat packet now
        (update_reboot_tracking node packet.uptime_s packet.reset_reason packet.state_flags now)

  unfoldable pub stat_seen : OkuaStatPacket → OkuaOtaRuntimeInfo → F → NodeState F → NodeState F
  stat_seen packet ota_runtime now node =
      let counted = update_seq_loss ops (put_ota ota_runtime node) packet.header.seq stat_stream in
      let sampled = put_stat_pps (record_pps_sample counted.stat_timestamps now) counted in
      apply_status_evaluation (put_evt_pps (compute_pps sampled.evt_timestamps now) sampled) now
