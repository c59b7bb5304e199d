-- ===== src/Ota/Campaign/Running.antt =====
-- services/ota_campaign_service.py: what an operator does with a campaign that has started.
use control_ok_a_v.Base.{
  Bool, true, false, not, Option, none, some, List, [], ◌∷◌, ◌++◌, String, if◌then◌else◌, Result,
  ok, err, ◌>>=◌, ◌>>◌, raise_if,
}
use control_ok_a_v.Ota.Campaign.Nodes.{
  CampaignError, is_aborted, is_completed, is_failed, not_allowed, no_pending_wave, Texts,
  normalize_text,
}
use control_ok_a_v.Ota.Campaign.Plan.{OtaCampaignPlan}
use control_ok_a_v.Ota.Campaign.Gate.{evaluate_wave_gate}
use control_ok_a_v.Ota.Campaign.Service.{
  CampaignStatus, planned, canary_running, wave_running, paused, status_failed, completed, aborted,
  OtaDeployRequest, OtaDeployResult, OtaCampaignWaveResult, OtaCampaignResult, or_text,
  next_pending_wave, replace_wave_result, build_wave_request,
}
use control_ok_a_v.Ota.Campaign.Operations.{rebuild, plan_from_result, deployed_wave, finished_at}
use text.Mathlib.Text.{◌==◌ as text_eq}

-- The checks of `continue_campaign` on the status.
abbrev pub check_status : CampaignStatus → Result CampaignError (Unit {0})
check_status aborted = err is_aborted
check_status completed = err is_completed
check_status status_failed = err is_failed
check_status planned = ok tt
check_status canary_running = ok tt
check_status wave_running = ok tt
check_status paused = ok tt

abbrev pub is_over : CampaignStatus → Bool
is_over aborted = true
is_over completed = true
is_over other = false

abbrev pub found_wave : Option OtaCampaignWaveResult → Result CampaignError OtaCampaignWaveResult
found_wave none = err no_pending_wave
found_wave (some r) = ok r

module _ (texts : Texts) where
  unfoldable pub refreshed_result :
      String → OtaCampaignWaveResult → OtaDeployResult → OtaCampaignWaveResult
  unfolding evaluate_wave_gate finished_at
  refreshed_result now r fresh =
      let gate = evaluate_wave_gate texts fresh.node_statuses in
      record {
        wave = r.wave;
        deploy_result = some fresh;
        health_gate = gate;
        started_at_utc = normalize_text texts (or_text r.started_at_utc fresh.created_at_utc) "";
        finished_at_utc = finished_at now gate (normalize_text texts r.finished_at_utc "");
      }

  -- What one wave becomes when it is refreshed, by what the orchestrator says of a deploy.
  abbrev pub refreshed_wave :
      String
      → OtaCampaignWaveResult
      → Option OtaDeployResult
      → (OtaDeployResult → Result CampaignError OtaDeployResult)
      → Result CampaignError OtaCampaignWaveResult
  refreshed_wave now r none refresh = ok r
  refreshed_wave now r (some d) refresh = do fresh ← refresh d; ok (refreshed_result now r fresh)

  unfoldable pub refresh_waves :
      String
      → (OtaDeployResult → Result CampaignError OtaDeployResult)
      → List OtaCampaignWaveResult
      → Result CampaignError (List OtaCampaignWaveResult)
  unfolding refreshed_result
  refresh_waves now refresh [] = ok []
  refresh_waves now refresh (r ∷ rs) = do
    wave ← refreshed_wave now r r.deploy_result refresh
    rest ← refresh_waves now refresh rs
    ok (wave ∷ rest)

  unfoldable pub refresh_campaign :
      String
      → (OtaDeployResult → Result CampaignError OtaDeployResult)
      → OtaCampaignResult
      → Result CampaignError OtaCampaignResult
  unfolding refresh_waves plan_from_result rebuild
  refresh_campaign now refresh r = do
    waves ← refresh_waves now refresh r.wave_results
    plan ← plan_from_result texts r
    ok (rebuild texts plan waves now r.started_at_utc r.paused_by_operator r.abort_reason)

  -- The wave that `continue_campaign` deploys, and the plan.
  unfoldable pub next_step :
      OtaCampaignResult → Result CampaignError (OtaCampaignWaveResult × OtaCampaignPlan)
  unfolding next_pending_wave plan_from_result
  next_step r = do
    check_status r.details.campaign_status
    raise_if (not r.details.continue_allowed) not_allowed
    next ← found_wave (next_pending_wave r.wave_results)
    plan ← plan_from_result texts r
    ok (next, plan)

  abbrev pub take_step :
      String
      → OtaCampaignResult
      → Result CampaignError OtaDeployResult
      → Result CampaignError (OtaCampaignWaveResult × OtaCampaignPlan)
      → Option OtaDeployRequest × Result CampaignError OtaCampaignResult
  take_step now r answer (err e) = (none, err e)
  take_step now r answer (ok (next, plan)) = (
    some (build_wave_request plan next.wave),
    (answer >>= λ d. ok (
        rebuild texts plan
          (replace_wave_result (deployed_wave texts now next.wave d) r.wave_results) now
          r.started_at_utc false "")),
  )

  unfoldable pub continue_campaign :
      String
      → Result CampaignError OtaDeployResult
      → OtaCampaignResult
      → Option OtaDeployRequest × Result CampaignError OtaCampaignResult
  unfolding next_step build_wave_request replace_wave_result deployed_wave rebuild
  continue_campaign now answer r = take_step now r answer (next_step r)

  unfoldable pub pause_campaign :
      String → String → OtaCampaignResult → Result CampaignError OtaCampaignResult
  unfolding plan_from_result rebuild
  pause_campaign now reason r =
      if is_over r.details.campaign_status
      then ok r
      else (plan_from_result texts r >>= λ plan.
          let halted = rebuild texts plan r.wave_results now r.started_at_utc true r.abort_reason in
          let warning = normalize_text texts reason "" in
          ok (
            if text_eq warning ""
            then halted
            else record halted { warnings = halted.warnings ++ (warning ∷ []) }))

  unfoldable pub abort_campaign :
      String → String → OtaCampaignResult → Result CampaignError OtaCampaignResult
  unfolding plan_from_result rebuild
  abort_campaign now reason r = do
    plan ← plan_from_result texts r
    ok (
        rebuild texts plan r.wave_results now r.started_at_utc false
          (normalize_text texts reason "Campaña abortada."))
