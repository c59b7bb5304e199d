-- ===== src/Ota/Campaign/Aggregate.antt =====
-- services/ota_campaign_service.py: the status of a campaign (`_collect_campaign_details`).
use control_ok_a_v.Base.{
  Bool, true, false, Option, none, some, List, [], ◌∷◌, String, if◌then◌else◌,
}
use control_ok_a_v.Base.Dict.{nat_eq}
use control_ok_a_v.Ota.Campaign.Gate.{
  HealthGate, not_evaluated, gate_pending, gate_passed, gate_failed, inconclusive,
}
use control_ok_a_v.Ota.Campaign.Service.{
  planned, canary_running, wave_running, paused, status_failed, completed, aborted,
  OtaCampaignWaveResult, Details, last_executed_wave, next_pending_wave,
}
use text.Mathlib.Text.{◌==◌ as text_eq}
use Prim.Native.String.{◌++◌ as append_text}

-- The status of a campaign, from the gate of the last wave and whether one is pending.
unfoldable pub pending_details : Bool → OtaCampaignWaveResult → Details
pending_details is_paused last = record {
  success = true;
  campaign_status =
      if is_paused then paused else (if last.wave.is_canary then canary_running else wave_running);
  current_phase = last.wave.label;
  continue_allowed = false;
  finished_at_utc = "";
  more_warnings =
      if is_paused
      then "Campaña OTA pausada manualmente mientras la ola sigue observándose." ∷ []
      else [];
}

abbrev pub is_passed : HealthGate → Bool
is_passed gate_passed = true
is_passed other = false

unfoldable pub last_details : String → HealthGate → Details
last_details now gate = record {
  success = is_passed gate;
  campaign_status = if is_passed gate then completed else status_failed;
  current_phase = "completed";
  continue_allowed = false;
  finished_at_utc = now;
  more_warnings = [];
}

unfoldable pub next_details : OtaCampaignWaveResult → HealthGate → Details
next_details next gate = record {
  success = is_passed gate;
  campaign_status = if is_passed gate then paused else status_failed;
  current_phase = append_text "awaiting_" next.wave.label;
  continue_allowed = is_passed gate;
  finished_at_utc = "";
  more_warnings = [];
}

abbrev pub settled_details : String → HealthGate → Option OtaCampaignWaveResult → Details
settled_details now gate none = last_details now gate
settled_details now gate (some next) = next_details next gate

unfoldable pub executed_details :
    String → Bool → OtaCampaignWaveResult → HealthGate → Option OtaCampaignWaveResult → Details
unfolding pending_details last_details next_details
executed_details now is_paused last gate_pending next = pending_details is_paused last
executed_details now is_paused last not_evaluated next = settled_details now not_evaluated next
executed_details now is_paused last gate_passed next = settled_details now gate_passed next
executed_details now is_paused last gate_failed next = settled_details now gate_failed next
executed_details now is_paused last inconclusive next = settled_details now inconclusive next

abbrev pub planned_details : Details
planned_details = record {
  success = true;
  campaign_status = planned;
  current_phase = "planned";
  continue_allowed = false;
  finished_at_utc = "";
  more_warnings = [];
}

abbrev pub live_details :
    String → Bool → Option OtaCampaignWaveResult → Option OtaCampaignWaveResult → Details
live_details now is_paused none next = planned_details
live_details now is_paused (some last) next =
    executed_details now is_paused last last.health_gate next

unfoldable pub collect_details : String → Bool → String → List OtaCampaignWaveResult → Details
unfolding executed_details last_executed_wave next_pending_wave
collect_details now is_paused abort_reason results =
    if text_eq abort_reason ""
    then live_details now is_paused (last_executed_wave results) (next_pending_wave results)
    else record {
      success = false;
      campaign_status = aborted;
      current_phase = "aborted";
      continue_allowed = false;
      finished_at_utc = now;
      more_warnings = abort_reason ∷ [];
    }
