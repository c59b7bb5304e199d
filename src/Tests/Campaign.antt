-- ===== src/Tests/Campaign.antt =====
-- Campaigns of updates at concrete inputs.
use control_ok_a_v.Base.{
  ℕ, ◌+◌, ◌≤◌, ◌≡◌, ◌↔◌, refl, true, false, some, List, [], ◌∷◌, ok, All, length,
}
use control_ok_a_v.Base.Int.{pos}
use control_ok_a_v.Ota.Campaign.{
  Texts, OtaCampaignWave, normalize_node_ids, normalize_optional_node_ids, build_campaign_waves,
  OtaCampaignPlan, PlanArguments, token_number, make_plan, confirmed, gate_passed,
  OtaNodeDeployStatus, evaluate_wave_gate, completed, OtaDeployRequest, OtaDeployResult,
  OtaCampaignResult, nothing_published, rebuild, build_initial_wave_results, start_campaign,
  continue_campaign,
}
use control_ok_a_v.Ota.Campaign.Waves.{nodes_of}
use control_ok_a_v.Ota.Campaign.Cutting.{AreWaves, build_campaign_waves_lem}
use control_ok_a_v.Ota.Campaign.Counted.{count}
use control_ok_a_v.Ota.Campaign.Assigned.{make_plan-count}
use control_ok_a_v.Ota.Campaign.Health.{IsHealthy, evaluate_wave_gate_iff}
use control_ok_a_v.Ota.Campaign.Reached.{started}
use control_ok_a_v.Ota.Campaign.Continuing.{IsDue, continue_campaign-IsDue}
use control_ok_a_v.Ota.Campaign.Skipping.{wave_zero_is_passed_over}

abbrev texts : Texts
texts = record {
  strip = λ s. s;
  lower = λ s. s;
  decimal = λ n. "n";
  hex8 = λ n. "00000001";
  hex_int = λ s. some (pos 1);
}

normal :
    normalize_node_ids (pos 7 ∷ (pos 3 ∷ (pos 7 ∷ (pos 5 ∷ (pos 9 ∷ [])))))
    ≡ ok (7 ∷ (3 ∷ (5 ∷ (9 ∷ []))))
unfolding normalize_node_ids
normal = refl

allowed : normalize_optional_node_ids (some (pos 3 ∷ [])) ≡ ok (3 ∷ [])
unfolding normalize_optional_node_ids
allowed = refl

build_campaign_waves_lem_example :
    (ws : List OtaCampaignWave) × (build_campaign_waves texts
        (pos 7 ∷ (pos 3 ∷ (pos 7 ∷ (pos 5 ∷ (pos 9 ∷ [])))))
        (some (pos 3 ∷ []))
        (pos 2)
      ≡ ok ws)
    × (nodes_of ws ≡ 7 ∷ (5 ∷ (9 ∷ [])))
    × AreWaves 1 2 ws
build_campaign_waves_lem_example =
    build_campaign_waves_lem texts (pos 7 ∷ (pos 3 ∷ (pos 7 ∷ (pos 5 ∷ (pos 9 ∷ [])))))
      (some (pos 3 ∷ [])) (pos 2) (7 ∷ (3 ∷ (5 ∷ (9 ∷ [])))) (3 ∷ []) normal allowed refl

abbrev wave : ℕ → List ℕ → OtaCampaignWave
wave index nodes = record {
  wave_index = index;
  label = "wave";
  node_ids = nodes;
  is_canary = false;
}

abbrev arguments : ℕ → PlanArguments
arguments index = record {
  artifact = "fw";
  nodes = pos 3 ∷ (pos 5 ∷ (pos 7 ∷ []));
  canary = pos 3 ∷ [];
  given_waves = wave index (5 ∷ (7 ∷ [])) ∷ [];
  host = "10.0.0.1";
  token = token_number (pos 1);
  rollout = "";
  channel = "stable";
  bind = "0.0.0.0";
  http_port = pos 18080;
  timeout_ms = pos 600;
  retries = pos 0;
  campaign = "campaign-1";
  require_canary = true;
}

abbrev plan : ℕ → OtaCampaignPlan
plan index = record {
  artifact_id = "fw";
  node_ids = 3 ∷ (5 ∷ (7 ∷ []));
  canary_nodes = 3 ∷ [];
  waves = wave index (5 ∷ (7 ∷ [])) ∷ [];
  settings = record {
    advertise_host = "10.0.0.1";
    rollout_token = "00000001";
    rollout_id = "";
    rollout_channel = "stable";
    bind_host = "0.0.0.0";
    port = 18080;
    ack_timeout_ms = pos 600;
    max_retries = pos 0;
  };
  campaign_id = "campaign-1";
}

planned : make_plan texts (arguments 1) ≡ ok (plan 1)
unfolding make_plan
planned = refl

-- The number 0 is accepted for a wave.
planned_with_zero : make_plan texts (arguments 0) ≡ ok (plan 0)
unfolding make_plan
planned_with_zero = refl

make_plan-count_example :
    (count 5 (plan 1).node_ids ≤ 1)
    × (count 5 (plan 1).canary_nodes + count 5 (nodes_of (plan 1).waves)
        ≡ count 5 (plan 1).node_ids)
make_plan-count_example = make_plan-count texts (arguments 1) (plan 1) 5 planned

abbrev status : ℕ → OtaNodeDeployStatus
status node = record {
  node_id = node;
  node_label = "node";
  phase = confirmed;
  ack_received = true;
  control_final_status = "ok";
  runtime_status = "online";
  ota_state_key = "idle";
  ota_error_key = "none";
  rollout_token = "00000001";
  artifact_id = "fw";
  last_message = "";
  observed_at_utc = "t";
}

evaluate_wave_gate_iff_example :
    (evaluate_wave_gate texts (status 3 ∷ []) ≡ gate_passed)
    ↔ ((1 ≤ length (status 3 ∷ [])) × All (IsHealthy texts) (status 3 ∷ []))
evaluate_wave_gate_iff_example = evaluate_wave_gate_iff texts (status 3 ∷ [])

abbrev deploy : OtaDeployResult
deploy = record {
  rollout_id = "r1";
  rollout_channel = "stable";
  node_statuses = status 3 ∷ [];
  published = nothing_published;
  warnings = [];
  errors = [];
  created_at_utc = "t";
}

passes : evaluate_wave_gate texts deploy.node_statuses ≡ gate_passed
unfolding evaluate_wave_gate
passes = refl

wave_zero_is_passed_over_example :
    (r : OtaCampaignResult) × (request : OtaDeployRequest) × (start_campaign texts "t"
        (plan 0)
        (ok deploy)
      ≡ (some request, ok r))
    × (request.node_ids ≡ (plan 0).canary_nodes)
    × (r.details.campaign_status ≡ completed)
wave_zero_is_passed_over_example =
    wave_zero_is_passed_over texts "t" (plan 0) (wave 0 (5 ∷ (7 ∷ []))) deploy refl refl refl passes

abbrev canary : OtaCampaignWave
canary = record { wave_index = 0; label = "canary"; node_ids = 3 ∷ []; is_canary = true }

-- The canary is confirmed, and the wave waits.
abbrev campaign : OtaCampaignResult
campaign =
    rebuild texts (plan 1)
      (build_initial_wave_results texts "t" canary deploy (canary ∷ (wave 1 (5 ∷ (7 ∷ [])) ∷ [])))
      "t" "t" false ""

begun : (start_campaign texts "t" (plan 1) (ok deploy)).1 ≡ ok campaign
unfolding start_campaign
begun = refl

abbrev second : OtaDeployRequest
second = record {
  artifact_id = "fw";
  node_ids = 5 ∷ (7 ∷ []);
  advertise_host = "10.0.0.1";
  bind_host = "0.0.0.0";
  port = 18080;
  rollout_token = "00000001";
  rollout_id = "r1";
  rollout_channel = "stable";
  ack_timeout_ms = pos 600;
  max_retries = pos 0;
  allow_downgrade = false;
}

goes_on : (continue_campaign texts "u" (ok deploy) campaign).0 ≡ some second
unfolding continue_campaign build_initial_wave_results
goes_on = refl

continue_campaign-IsDue_example : (false ≡ false) × IsDue texts campaign second
continue_campaign-IsDue_example =
    continue_campaign-IsDue texts "u" (ok deploy) false campaign second
      (started "t" (plan 1) (ok deploy) begun) goes_on
