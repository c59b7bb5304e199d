-- ===== src/Registry/Policy.antt =====
-- core/registry/node_status_policy.py: how a node fares, from what was seen of it.
use control_ok_a_v.Base.{
  ℕ, Bool, true, false, not, ◌&&◌, Option, none, some, String, ltb, if◌then◌else◌,
}
use control_ok_a_v.Base.Int.{ℤ, pos, leb_ℤ}
use control_ok_a_v.Registry.Float.{FloatOps, age, age_since}
use control_ok_a_v.Registry.Models.{
  NodeStatus, online, calibrating, degraded, offline, NodeRegistryConfig,
}

pub record NodeStatusInputs (F : Type 0) : Type 0 where
  pub last_seen_pc_ts : Option F
  pub last_stat_pc_ts : Option F
  pub pps_evt : F
  pub pps_stat : F
  pub loss_evt_pct : F
  pub loss_stat_pct : F
  pub last_seq_evt : Option ℕ
  pub last_seq_stat : Option ℕ
  pub last_uptime_s : Option ℕ
  pub last_reboot_detected_pc_ts : Option F
  pub evt_recovery_streak : ℕ
  pub stat_recovery_streak : ℕ

pub record NodeStatusEvaluation (F : Type 0) : Type 0 where
  pub status : NodeStatus
  pub reason : String
  pub health_summary : String
  pub age_s : Option F
  pub last_stat_age_s : Option F
  pub is_recent_reboot : Bool
  pub is_recovering : Bool

abbrev pub is_some {ℓ} : {A : Type ℓ} → Option A → Bool
is_some none = false
is_some (some a) = true

module _ {F : Type 0} (ops : FloatOps F) where
  -- `x is not None and x <= bound`
  abbrev pub is_within : Option F → F → Bool
  is_within none bound = false
  is_within (some x) bound = ops.at_most x bound

  abbrev pub is_low_uptime : Option ℕ → ℤ → Bool
  is_low_uptime none bound = false
  is_low_uptime (some uptime) bound = leb_ℤ (pos uptime) bound

  unfoldable pub is_recent_reboot : NodeStatusInputs F → NodeRegistryConfig F → F → F → Bool
  is_recent_reboot inputs config age_s now =
      if ops.below config.t_green_s age_s
      then false
      else if is_within (age_since ops inputs.last_reboot_detected_pc_ts now)
          config.calibrating_hold_s
      then true
      else is_low_uptime inputs.last_uptime_s config.calibrating_uptime_s

  unfoldable pub is_evt_only_degraded : NodeStatusInputs F → NodeRegistryConfig F → Bool
  is_evt_only_degraded inputs config =
      if ops.at_most config.pps_min_yellow ops.zero
      then false
      else if not (is_some inputs.last_seq_evt)
      then false
      else if ops.at_most config.pps_min_yellow inputs.pps_evt
      then false
      else ops.at_most (ops.of_count 50) inputs.loss_evt_pct

  -- The evaluations of a node that was seen at some time, behind the test on a recent reboot.
  abbrev pub evaluation :
      NodeStatus → String → String → F → Option F → Bool → NodeStatusEvaluation F
  evaluation status reason health_summary age_s last_stat_age_s is_recovering = record {
    status = status;
    reason = reason;
    health_summary = health_summary;
    age_s = some age_s;
    last_stat_age_s = last_stat_age_s;
    is_recent_reboot = false;
    is_recovering = is_recovering;
  }

  abbrev pub healthy : F → Option F → NodeStatusEvaluation F
  healthy age_s last_stat_age_s =
      evaluation online "healthy traffic" "healthy traffic" age_s last_stat_age_s false

  -- From the test on `stat_loss_active` on.
  unfoldable pub evaluate_traffic :
      NodeStatusInputs F → NodeRegistryConfig F → F → Option F → NodeStatusEvaluation F
  unfolding is_evt_only_degraded
  evaluate_traffic inputs config age_s last_stat_age_s =
      let stat_loss_active =
        is_some inputs.last_seq_stat
        && ops.at_most config.stat_loss_yellow_pct inputs.loss_stat_pct in
      let has_recent_stat = is_within last_stat_age_s config.t_recover_s in
      if stat_loss_active
      then (if has_recent_stat
            && leb_ℤ config.stat_recovery_packets_online (pos inputs.stat_recovery_streak)
          then healthy age_s last_stat_age_s
          else if ltb 0 inputs.stat_recovery_streak
          then evaluation degraded "recovering" "recovering" age_s last_stat_age_s true
          else evaluation degraded "elevated loss" "elevated loss" age_s last_stat_age_s false)
      else if has_recent_stat
      then healthy age_s last_stat_age_s
      else if is_evt_only_degraded inputs config
      then (if ops.at_most age_s config.t_recover_s
            && leb_ℤ config.evt_recovery_packets_online (pos inputs.evt_recovery_streak)
          then healthy age_s last_stat_age_s
          else if ltb 0 inputs.evt_recovery_streak
          then evaluation degraded "recovering" "recovering" age_s last_stat_age_s true
          else evaluation degraded "partial traffic" "activity partial" age_s last_stat_age_s false)
      else healthy age_s last_stat_age_s

  -- From the first test on the age on.
  unfoldable pub evaluate_seen :
      NodeStatusInputs F → NodeRegistryConfig F → F → F → Option F → Bool → NodeStatusEvaluation F
  unfolding evaluate_traffic
  evaluate_seen inputs config now age_s last_stat_age_s recent_reboot =
      if ops.at_most config.t_red_s age_s
      then record (evaluation offline "no recent packets" "no recent packets" age_s last_stat_age_s
          false) { is_recent_reboot = recent_reboot }
      else if recent_reboot
      then record (evaluation calibrating "calibrating" "reboot recent" age_s last_stat_age_s
          false) { is_recent_reboot = true }
      else if ops.at_most config.t_green_s age_s
      then evaluation degraded "partial traffic" "activity partial" age_s last_stat_age_s false
      else evaluate_traffic inputs config age_s last_stat_age_s

  abbrev pub evaluate_last_seen :
      Option F → NodeStatusInputs F → NodeRegistryConfig F → F → NodeStatusEvaluation F
  unfolding evaluate_seen is_recent_reboot
  evaluate_last_seen none inputs config now = record {
    status = offline;
    reason = "no recent packets";
    health_summary = "no recent packets";
    age_s = none;
    last_stat_age_s = none;
    is_recent_reboot = false;
    is_recovering = false;
  }
  evaluate_last_seen (some last_seen) inputs config now =
      let age_s = age ops now last_seen in
      evaluate_seen inputs config now age_s (age_since ops inputs.last_stat_pc_ts now)
        (is_recent_reboot inputs config age_s now)

  unfoldable pub evaluate_node_status :
      NodeStatusInputs F → NodeRegistryConfig F → F → NodeStatusEvaluation F
  unfolding evaluate_seen is_recent_reboot
  evaluate_node_status inputs config now =
      evaluate_last_seen inputs.last_seen_pc_ts inputs config now
