-- ===== src/Ota/Campaign/Statuses.antt =====
-- services/ota_campaign_service.py: what a campaign says of each node
-- (`_build_campaign_node_statuses`).
use control_ok_a_v.Base.{
  ℕ, Bool, false, ◌&&◌, ◌||◌, Option, none, some, List, [], ◌∷◌, String, if◌then◌else◌, ◌==◌, ltb,
  leb,
}
use control_ok_a_v.Base.Dict.{Dict, insert, nat_eq}
use control_ok_a_v.Ota.Campaign.Nodes.{Texts, OtaCampaignWave, normalize_text}
use control_ok_a_v.Ota.Campaign.Plan.{OtaCampaignPlan}
use control_ok_a_v.Ota.Campaign.Gate.{
  pending, outcome_pending, outcome_aborted, OtaNodeDeployStatus, outcome_from_phase,
}
use control_ok_a_v.Ota.Campaign.Service.{
  OtaDeployResult, OtaCampaignWaveResult, OtaCampaignNodeStatus,
}
use control_ok_a_v.Base.Int.{pos}
use control_ok_a_v.NodeIdentity.{
  number, Prefix, eb, ec, ed, ee, ef, NodeLabel, unknown_node, label, resolve_node_label,
}
use text.Mathlib.Text.{◌==◌ as text_eq}
use Prim.Native.String.{◌++◌ as append_text}

-- `sorted(..., key=lambda item: (item.wave_index, item.node_id))`
abbrev pub comes_before : OtaCampaignNodeStatus → OtaCampaignNodeStatus → Bool
comes_before a b =
    ltb a.wave_index b.wave_index || ((a.wave_index == b.wave_index) && leb a.node_id b.node_id)

abbrev pub insert_status :
    OtaCampaignNodeStatus → List OtaCampaignNodeStatus → List OtaCampaignNodeStatus
insert_status s [] = s ∷ []
insert_status s (t ∷ ts) = if comes_before s t then s ∷ (t ∷ ts) else t ∷ insert_status s ts

abbrev pub sort_statuses : Dict ℕ OtaCampaignNodeStatus → List OtaCampaignNodeStatus
sort_statuses [] = []
sort_statuses ((n, s) ∷ ss) = insert_status s (sort_statuses ss)

unfoldable pub campaign_node_status_from_deploy :
    OtaCampaignWave → OtaNodeDeployStatus → OtaCampaignNodeStatus
unfolding outcome_from_phase
campaign_node_status_from_deploy wave s = record {
  node_id = s.node_id;
  node_label = s.node_label;
  wave_index = wave.wave_index;
  wave_label = wave.label;
  is_canary = wave.is_canary;
  phase = s.phase;
  outcome = outcome_from_phase s.phase;
  ack_received = s.ack_received;
  control_final_status = s.control_final_status;
  runtime_status = s.runtime_status;
  ota_state_key = s.ota_state_key;
  ota_error_key = s.ota_error_key;
  rollout_token = s.rollout_token;
  artifact_id = s.artifact_id;
  last_message = s.last_message;
  observed_at_utc = s.observed_at_utc;
}

unfoldable pub put_deployed :
    OtaCampaignWave
    → List OtaNodeDeployStatus
    → Dict ℕ OtaCampaignNodeStatus
    → Dict ℕ OtaCampaignNodeStatus
unfolding campaign_node_status_from_deploy
put_deployed wave [] d = d
put_deployed wave (s ∷ ss) d =
    put_deployed wave ss (insert s.node_id (campaign_node_status_from_deploy wave s) d)

-- The texts of the prefixes.
abbrev pub prefix_text : Prefix → String
prefix_text eb = "EB"
prefix_text ec = "EC"
prefix_text ed = "ED"
prefix_text ee = "EE"
prefix_text ef = "EF"

module _ (texts : Texts) where
  -- The text of a label.
  abbrev pub label_text : NodeLabel → String
  label_text unknown_node = "Nodo desconocido"
  label_text (label p n) = append_text (prefix_text p) (texts.decimal n)

  unfoldable pub pending_node_status :
      String → OtaCampaignWave → ℕ → String → String → String → OtaCampaignNodeStatus
  unfolding resolve_node_label
  pending_node_status now wave node_id artifact_id rollout_token abort_reason = record {
    node_id = node_id;
    node_label = label_text (resolve_node_label (number (pos node_id)));
    wave_index = wave.wave_index;
    wave_label = wave.label;
    is_canary = wave.is_canary;
    phase = pending;
    outcome = if text_eq abort_reason "" then outcome_pending else outcome_aborted;
    ack_received = false;
    control_final_status = "";
    runtime_status = "";
    ota_state_key = "idle";
    ota_error_key = "none";
    rollout_token = rollout_token;
    artifact_id = artifact_id;
    last_message =
        if text_eq abort_reason ""
        then "Pendiente de ola manual."
        else normalize_text texts abort_reason "Campaña abortada antes de ejecutar esta ola.";
    observed_at_utc = now;
  }

  unfoldable pub put_pending :
      String
      → OtaCampaignPlan
      → String
      → OtaCampaignWave
      → List ℕ
      → Dict ℕ OtaCampaignNodeStatus
      → Dict ℕ OtaCampaignNodeStatus
  unfolding pending_node_status
  put_pending now plan abort_reason wave [] d = d
  put_pending now plan abort_reason wave (n ∷ ns) d = put_pending now plan abort_reason wave ns (
      insert n
        (pending_node_status now wave n plan.artifact_id plan.settings.rollout_token abort_reason)
        d)

  abbrev pub put_wave :
      String
      → OtaCampaignPlan
      → String
      → OtaCampaignWave
      → Option OtaDeployResult
      → Dict ℕ OtaCampaignNodeStatus
      → Dict ℕ OtaCampaignNodeStatus
  put_wave now plan abort_reason wave none d =
      put_pending now plan abort_reason wave wave.node_ids d
  put_wave now plan abort_reason wave (some r) d = put_deployed wave r.node_statuses d

  unfoldable pub put_results :
      String
      → OtaCampaignPlan
      → String
      → List OtaCampaignWaveResult
      → Dict ℕ OtaCampaignNodeStatus
      → Dict ℕ OtaCampaignNodeStatus
  unfolding put_pending put_deployed
  put_results now plan abort_reason [] d = d
  put_results now plan abort_reason (r ∷ rs) d =
      put_results now plan abort_reason rs (put_wave now plan abort_reason r.wave r.deploy_result d)
