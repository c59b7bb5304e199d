-- ===== src/Ota/Campaign/Operations.antt =====
-- services/ota_campaign_service.py: the operations of `OtaCampaignService` on a campaign. A result's
-- host and port are those of a plan, so that `_plan_from_result` never falls back on the manifest's URL.
use control_ok_a_v.Base.{
  Bool, false, not, Option, none, some, List, [], ◌∷◌, ◌++◌, String, if◌then◌else◌, Result, ok, err,
  ◌>>=◌, ◌==◌,
}
use control_ok_a_v.Base.Int.{pos}
use control_ok_a_v.Base.Dict.{nat_eq}
use control_ok_a_v.Ota.Campaign.Nodes.{
  CampaignError, no_waves, Texts, OtaCampaignWave, is_empty, to_ints, normalize_text,
}
use control_ok_a_v.Ota.Campaign.Plan.{OtaCampaignPlan, token_text, make_plan}
use control_ok_a_v.Ota.Campaign.Gate.{
  HealthGate, not_evaluated, gate_pending, gate_passed, gate_failed, inconclusive,
  evaluate_wave_gate,
}
use control_ok_a_v.Ota.Campaign.Service.{
  OtaDeployRequest, OtaDeployResult, OtaCampaignWaveResult, OtaCampaignResult, or_text,
  last_executed_wave, all_waves, build_wave_request, gate_of_last, nothing_published,
  deploy_of_last, Published,
}
use control_ok_a_v.Ota.Campaign.Statuses.{sort_statuses, put_results}
use control_ok_a_v.Ota.Campaign.Aggregate.{collect_details}
use text.Mathlib.Text.{◌==◌ as text_eq}

-- What a result takes from the last deploy.
abbrev pub deploy_field : {A : Type 0} → (OtaDeployResult → A) → A → Option OtaDeployResult → A
deploy_field f otherwise none = otherwise
deploy_field f otherwise (some d) = f d

unfoldable pub finished_at : String → HealthGate → String → String
finished_at now gate_passed fallback = now
finished_at now gate_failed fallback = now
finished_at now inconclusive fallback = now
finished_at now not_evaluated fallback = fallback
finished_at now gate_pending fallback = fallback

module _ (texts : Texts) where
  -- `tuple(normalize_text(item) for item in items if normalize_text(item))`
  abbrev pub clean_texts : List String → List String
  clean_texts [] = []
  clean_texts (s ∷ ss) =
      let cleaned = normalize_text texts s "" in
      if text_eq cleaned "" then clean_texts ss else cleaned ∷ clean_texts ss

  abbrev pub clean_published : Published → Published
  clean_published p = record {
    published_dir = normalize_text texts p.published_dir "";
    manifest_path = normalize_text texts p.manifest_path "";
    firmware_path = normalize_text texts p.firmware_path "";
    manifest_url = normalize_text texts p.manifest_url "";
    download_url = normalize_text texts p.download_url "";
  }

  -- `_rebuild_campaign_result` and `_collect_campaign_details`. The reason is stripped before.
  unfoldable pub rebuild :
      OtaCampaignPlan
      → List OtaCampaignWaveResult
      → String
      → String
      → Bool
      → String
      → OtaCampaignResult
  unfolding collect_details put_results last_executed_wave
  rebuild plan results now started is_paused abort_reason =
      let last = last_executed_wave results in
      let deploy = deploy_of_last last in
      let details = collect_details now is_paused abort_reason results in
      record {
        plan = plan;
        rollout_id =
            normalize_text texts
              (deploy_field (λ d. or_text d.rollout_id plan.settings.rollout_id)
                plan.settings.rollout_id deploy)
              "";
        rollout_channel = texts.lower (
            normalize_text texts
              (deploy_field (λ d. or_text d.rollout_channel plan.settings.rollout_channel)
                plan.settings.rollout_channel deploy)
              "");
        wave_results = results;
        node_statuses = sort_statuses (put_results texts now plan abort_reason results []);
        health_gate = gate_of_last last;
        details = details;
        paused_by_operator = is_paused;
        abort_reason = abort_reason;
        published = clean_published (deploy_field (λ d. d.published) nothing_published deploy);
        started_at_utc = normalize_text texts started now;
        warnings = clean_texts (deploy_field (λ d. d.warnings) [] deploy ++ details.more_warnings);
        errors = clean_texts (deploy_field (λ d. d.errors) [] deploy);
      }

  unfoldable pub plan_from_result : OtaCampaignResult → Result CampaignError OtaCampaignPlan
  unfolding make_plan
  plan_from_result r = make_plan texts (record {
    artifact = r.plan.artifact_id;
    nodes = to_ints r.plan.node_ids;
    canary = to_ints r.plan.canary_nodes;
    given_waves = r.plan.waves;
    host = r.plan.settings.advertise_host;
    token = token_text r.plan.settings.rollout_token;
    rollout = r.rollout_id;
    channel = r.rollout_channel;
    bind = r.plan.settings.bind_host;
    http_port = pos r.plan.settings.port;
    timeout_ms = r.plan.settings.ack_timeout_ms;
    retries = r.plan.settings.max_retries;
    campaign = r.plan.campaign_id;
    require_canary = not (is_empty r.plan.canary_nodes);
  })

  -- The result of a wave that has just been deployed.
  unfoldable pub deployed_wave : String → OtaCampaignWave → OtaDeployResult → OtaCampaignWaveResult
  unfolding evaluate_wave_gate finished_at
  deployed_wave now wave d =
      let gate = evaluate_wave_gate texts d.node_statuses in
      record {
        wave = wave;
        deploy_result = some d;
        health_gate = gate;
        started_at_utc = normalize_text texts d.created_at_utc "";
        finished_at_utc = finished_at now gate "";
      }

  abbrev pub pending_wave : OtaCampaignWave → OtaCampaignWaveResult
  pending_wave wave = record {
    wave = wave;
    deploy_result = none;
    health_gate = not_evaluated;
    started_at_utc = "";
    finished_at_utc = "";
  }

  unfoldable pub build_initial_wave_results :
      String → OtaCampaignWave → OtaDeployResult → List OtaCampaignWave → List OtaCampaignWaveResult
  unfolding deployed_wave
  build_initial_wave_results now first d [] = []
  build_initial_wave_results now first d (w ∷ ws) =
      (if w.wave_index == first.wave_index then deployed_wave now w d else pending_wave w)
      ∷ build_initial_wave_results now first d ws

  abbrev pub start_waves :
      String
      → OtaCampaignPlan
      → List OtaCampaignWave
      → Result CampaignError OtaDeployResult
      → Option OtaDeployRequest × Result CampaignError OtaCampaignResult
  start_waves now plan [] answer = (none, err no_waves)
  start_waves now plan (first ∷ ws) answer = (
    some (build_wave_request plan first),
    (answer >>= λ d.
        ok (rebuild plan (build_initial_wave_results now first d (first ∷ ws)) now now false "")),
  )

  unfoldable pub start_campaign :
      String
      → OtaCampaignPlan
      → Result CampaignError OtaDeployResult
      → Option OtaDeployRequest × Result CampaignError OtaCampaignResult
  unfolding all_waves build_wave_request build_initial_wave_results rebuild
  start_campaign now plan answer = start_waves now plan (all_waves plan) answer
