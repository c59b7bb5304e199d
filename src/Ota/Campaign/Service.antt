-- ===== src/Ota/Campaign/Service.antt =====
-- services/ota_campaign_service.py: `OtaCampaignService`. What the orchestrator answers to a deploy and
-- to a refresh, and the time, are arguments; a call that deploys gives the request that it made. The
-- audit file and the messages are left out.
use control_ok_a_v.Base.{
  false, ℕ, Bool, true, Option, none, some, List, [], ◌∷◌, String, if◌then◌else◌, ◌==◌, ltb,
}
use control_ok_a_v.Base.Int.{ℤ}
use control_ok_a_v.Base.Dict.{nat_eq}
use control_ok_a_v.Ota.Campaign.Nodes.{OtaCampaignWave, is_empty}
use control_ok_a_v.Ota.Campaign.Plan.{OtaCampaignPlan}
use control_ok_a_v.Ota.Campaign.Gate.{
  Phase, HealthGate, not_evaluated, NodeOutcome, OtaNodeDeployStatus,
}
use text.Mathlib.Text.{◌==◌ as text_eq}

-- `OtaCampaignStatus`
pub data CampaignStatus : Type 0 where
  planned canary_running wave_running paused status_failed completed aborted : CampaignStatus

-- `OtaDeployRequest`, whose checks repeat those of the plan.
pub record OtaDeployRequest : Type 0 where
  pub artifact_id : String
  pub node_ids : List ℕ
  pub advertise_host : String
  pub bind_host : String
  pub port : ℕ
  pub rollout_token : String
  pub rollout_id : String
  pub rollout_channel : String
  pub ack_timeout_ms : ℤ
  pub max_retries : ℤ
  pub allow_downgrade : Bool

-- The paths and addresses of what a deploy has published.
pub record Published : Type 0 where
  pub published_dir : String
  pub manifest_path : String
  pub firmware_path : String
  pub manifest_url : String
  pub download_url : String

-- The fields of `OtaDeployResult` that a campaign reads.
pub record OtaDeployResult : Type 0 where
  pub rollout_id : String
  pub rollout_channel : String
  pub node_statuses : List OtaNodeDeployStatus
  pub published : Published
  pub warnings : List String
  pub errors : List String
  pub created_at_utc : String

pub record OtaCampaignWaveResult : Type 0 where
  pub wave : OtaCampaignWave
  pub deploy_result : Option OtaDeployResult
  pub health_gate : HealthGate
  pub started_at_utc : String
  pub finished_at_utc : String

pub record OtaCampaignNodeStatus : Type 0 where
  pub node_id : ℕ
  pub node_label : String
  pub wave_index : ℕ
  pub wave_label : String
  pub is_canary : Bool
  pub phase : Phase
  pub outcome : NodeOutcome
  pub ack_received : Bool
  pub control_final_status : String
  pub runtime_status : String
  pub ota_state_key : String
  pub ota_error_key : String
  pub rollout_token : String
  pub artifact_id : String
  pub last_message : String
  pub observed_at_utc : String

-- What `_collect_campaign_details` works out.
pub record Details : Type 0 where
  pub success : Bool
  pub campaign_status : CampaignStatus
  pub current_phase : String
  pub continue_allowed : Bool
  pub finished_at_utc : String
  pub more_warnings : List String

-- `OtaCampaignResult`: the plan that it was made from, and the rest of its fields.
pub record OtaCampaignResult : Type 0 where
  pub plan : OtaCampaignPlan
  pub rollout_id : String
  pub rollout_channel : String
  pub wave_results : List OtaCampaignWaveResult
  pub node_statuses : List OtaCampaignNodeStatus
  pub health_gate : HealthGate
  pub details : Details
  pub paused_by_operator : Bool
  pub abort_reason : String
  pub published : Published
  pub started_at_utc : String
  pub warnings : List String
  pub errors : List String

abbrev pub or_text : String → String → String
or_text s otherwise = if text_eq s "" then otherwise else s

-- `max(executed, key=...)` and `min(pending, key=...)`: the first of equals.
abbrev pub later : OtaCampaignWaveResult → Option OtaCampaignWaveResult → OtaCampaignWaveResult
later r none = r
later r (some s) = if ltb r.wave.wave_index s.wave.wave_index then s else r

abbrev pub earlier : OtaCampaignWaveResult → Option OtaCampaignWaveResult → OtaCampaignWaveResult
earlier r none = r
earlier r (some s) = if ltb s.wave.wave_index r.wave.wave_index then s else r

abbrev pub if_executed :
    Option OtaDeployResult
    → OtaCampaignWaveResult
    → Option OtaCampaignWaveResult
    → Option OtaCampaignWaveResult
if_executed none r rest = rest
if_executed (some d) r rest = some (later r rest)

abbrev pub if_pending :
    Option OtaDeployResult
    → OtaCampaignWaveResult
    → Option OtaCampaignWaveResult
    → Option OtaCampaignWaveResult
if_pending none r rest = some (earlier r rest)
if_pending (some d) r rest = rest

unfoldable pub last_executed_wave : List OtaCampaignWaveResult → Option OtaCampaignWaveResult
last_executed_wave [] = none
last_executed_wave (r ∷ rs) = if_executed r.deploy_result r (last_executed_wave rs)

unfoldable pub next_pending_wave : List OtaCampaignWaveResult → Option OtaCampaignWaveResult
next_pending_wave [] = none
next_pending_wave (r ∷ rs) = if_pending r.deploy_result r (next_pending_wave rs)

unfoldable pub replace_wave_result :
    OtaCampaignWaveResult → List OtaCampaignWaveResult → List OtaCampaignWaveResult
replace_wave_result new [] = []
replace_wave_result new (r ∷ rs) =
    (if r.wave.wave_index == new.wave.wave_index then new else r) ∷ replace_wave_result new rs

unfoldable pub all_waves : OtaCampaignPlan → List OtaCampaignWave
all_waves plan =
    if is_empty plan.canary_nodes
    then plan.waves
    else record { wave_index = 0; label = "canary"; node_ids = plan.canary_nodes; is_canary = true }
      ∷ plan.waves

unfoldable pub build_wave_request : OtaCampaignPlan → OtaCampaignWave → OtaDeployRequest
build_wave_request plan wave = record {
  artifact_id = plan.artifact_id;
  node_ids = wave.node_ids;
  advertise_host = plan.settings.advertise_host;
  bind_host = plan.settings.bind_host;
  port = plan.settings.port;
  rollout_token = plan.settings.rollout_token;
  rollout_id = plan.settings.rollout_id;
  rollout_channel = plan.settings.rollout_channel;
  ack_timeout_ms = plan.settings.ack_timeout_ms;
  max_retries = plan.settings.max_retries;
  allow_downgrade = false;
}

abbrev pub gate_of_last : Option OtaCampaignWaveResult → HealthGate
gate_of_last none = not_evaluated
gate_of_last (some r) = r.health_gate

abbrev pub nothing_published : Published
nothing_published = record {
  published_dir = "";
  manifest_path = "";
  firmware_path = "";
  manifest_url = "";
  download_url = "";
}

abbrev pub deploy_of_last : Option OtaCampaignWaveResult → Option OtaDeployResult
deploy_of_last none = none
deploy_of_last (some r) = r.deploy_result
