-- ===== src/Ota/Campaign/Gate.antt =====
-- services/ota_campaign_service.py: the health gate of a wave, from what its deploy says of the nodes
-- (core/firmware/ota_deploy_models.py).
use control_ok_a_v.Base.{
  ℕ, Bool, true, false, not, ◌&&◌, ◌||◌, List, [], ◌∷◌, String, if◌then◌else◌,
}
use control_ok_a_v.Ota.Campaign.Nodes.{Texts, normalize_text}
use text.Mathlib.Text.{◌==◌ as text_eq}

-- `OtaNodeDeployPhase`
pub data Phase : Type 0 where
  pending triggered acknowledged checking_manifest downloading : Phase
  installing boot_validating confirmed failed timeout : Phase

-- `OtaCampaignHealthGate`
pub data HealthGate : Type 0 where
  not_evaluated gate_pending gate_passed gate_failed inconclusive : HealthGate

-- `OtaCampaignNodeOutcome`
pub data NodeOutcome : Type 0 where
  outcome_pending in_progress outcome_confirmed outcome_failed outcome_timeout : NodeOutcome
  outcome_aborted : NodeOutcome

-- The fields of `OtaNodeDeployStatus` that a campaign reads.
pub record OtaNodeDeployStatus : Type 0 where
  pub node_id : ℕ
  pub node_label : String
  pub phase : Phase
  pub ack_received : Bool
  pub control_final_status : String
  pub runtime_status : String
  pub ota_state_key : String
  pub ota_error_key : String
  pub rollout_token : String
  pub artifact_id : String
  pub last_message : String
  pub observed_at_utc : String

abbrev pub has_failed : Phase → Bool
has_failed failed = true
has_failed timeout = true
has_failed confirmed = false
has_failed other = false

abbrev pub is_running : Phase → Bool
is_running confirmed = false
is_running failed = false
is_running timeout = false
is_running other = true

abbrev pub is_confirmed : Phase → Bool
is_confirmed confirmed = true
is_confirmed other = false

unfoldable pub outcome_from_phase : Phase → NodeOutcome
outcome_from_phase confirmed = outcome_confirmed
outcome_from_phase failed = outcome_failed
outcome_from_phase timeout = outcome_timeout
outcome_from_phase pending = outcome_pending
outcome_from_phase other = in_progress

abbrev pub any_status : (OtaNodeDeployStatus → Bool) → List OtaNodeDeployStatus → Bool
any_status p [] = false
any_status p (s ∷ ss) = p s || any_status p ss

module _ (texts : Texts) where
  -- `normalize_text(status.runtime_status).lower()`
  abbrev pub runtime_of : OtaNodeDeployStatus → String
  runtime_of s = texts.lower (normalize_text texts s.runtime_status "")

  -- The text is in the set `runtime_statuses`, which leaves out blank ones.
  abbrev pub has_runtime : String → OtaNodeDeployStatus → Bool
  has_runtime name s =
      not (text_eq (normalize_text texts s.runtime_status "") "") && text_eq (runtime_of s) name

  abbrev pub is_bad : OtaNodeDeployStatus → Bool
  is_bad s = has_failed s.phase || not (text_eq s.ota_error_key "none")

  abbrev pub is_waiting : OtaNodeDeployStatus → Bool
  is_waiting s = is_running s.phase || text_eq (runtime_of s) "calibrating"

  unfoldable pub gate_of : List OtaNodeDeployStatus → HealthGate
  gate_of statuses =
      if any_status is_bad statuses
      then gate_failed
      else (if any_status is_waiting statuses
          then gate_pending
          else (if any_status (has_runtime "offline") statuses
              then gate_failed
              else (if any_status (has_runtime "degraded") statuses
                  then inconclusive
                  else (if any_status (λ s. not (is_confirmed s.phase)) statuses
                      then inconclusive
                      else gate_passed))))

  unfoldable pub evaluate_wave_gate : List OtaNodeDeployStatus → HealthGate
  unfolding gate_of
  evaluate_wave_gate [] = not_evaluated
  evaluate_wave_gate (s ∷ ss) = gate_of (s ∷ ss)
