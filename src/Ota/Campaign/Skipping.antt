-- ===== src/Ota/Campaign/Skipping.antt =====
-- A wave that a campaign passes over (services/ota_campaign_service.py).
use control_ok_a_v.Base.{
  ◌≡◌, refl, ap, ◌∙◌, true, false, some, [], ◌∷◌, String, arith, ok, ltb, ==_iff, Bool-cases, inl,
  inr,
}
use control_ok_a_v.Ota.Campaign.Nodes.{Texts, OtaCampaignWave, is_empty}
use control_ok_a_v.Ota.Campaign.Plan.{OtaCampaignPlan}
use control_ok_a_v.Ota.Campaign.Gate.{gate_passed, evaluate_wave_gate}
use control_ok_a_v.Ota.Campaign.Service.{
  OtaDeployRequest, OtaDeployResult, OtaCampaignResult, completed, last_executed_wave,
  next_pending_wave, all_waves, build_wave_request,
}
use control_ok_a_v.Ota.Campaign.Aggregate.{executed_details, collect_details, last_details}
use control_ok_a_v.Ota.Campaign.Operations.{
  rebuild, deployed_wave, build_initial_wave_results, start_waves, start_campaign,
}

module _ (texts : Texts) where
  all_waves_lem :
      (plan : OtaCampaignPlan) (w : OtaCampaignWave)
      → is_empty plan.canary_nodes ≡ false
      → plan.waves ≡ w ∷ []
      → all_waves plan
        ≡ record {
          wave_index = 0;
          label = "canary";
          node_ids = plan.canary_nodes;
          is_canary = true;
        }
          ∷ (w ∷ [])
  unfolding all_waves
  all_waves_lem plan w canary only = rw canary (rw only)

  both_deployed :
      (now : String) (first w : OtaCampaignWave) (d : OtaDeployResult)
      → w.wave_index ≡ first.wave_index
      → build_initial_wave_results texts now first d (first ∷ (w ∷ []))
        ≡ deployed_wave texts now first d ∷ (deployed_wave texts now w d ∷ [])
  unfolding build_initial_wave_results
  both_deployed now first w d same = ground (
    arith,
    (==_iff first.wave_index first.wave_index).1 refl,
    (==_iff w.wave_index first.wave_index).1 same,
  )

  all_deployed :
      (now : String) (first w : OtaCampaignWave) (d : OtaDeployResult)
      → evaluate_wave_gate texts d.node_statuses ≡ gate_passed
      → (collect_details now false ""
          (deployed_wave texts now first d ∷ (deployed_wave texts now w d ∷ []))).campaign_status
        ≡ completed
  unfolding collect_details last_executed_wave next_pending_wave deployed_wave executed_details
      last_details
  all_deployed now first w d passed = elim (Bool-cases (ltb first.wave_index w.wave_index)) [
    | inl e ↦ rw e (rw passed)
    | inr e ↦ rw e (rw passed)
  ]

  -- A plan with canaries whose only wave has the number 0: if the gate of the canaries
  -- passes, the campaign is completed, and its one deploy was to the canaries.
  pub wave_zero_is_passed_over :
      (now : String) (plan : OtaCampaignPlan) (w : OtaCampaignWave) (d : OtaDeployResult)
      → is_empty plan.canary_nodes ≡ false
      → plan.waves ≡ w ∷ []
      → w.wave_index ≡ 0
      → evaluate_wave_gate texts d.node_statuses ≡ gate_passed
      → (r : OtaCampaignResult) × (request : OtaDeployRequest) × (start_campaign texts now plan
            (ok d)
          ≡ (some request, ok r))
        × (request.node_ids ≡ plan.canary_nodes)
        × (r.details.campaign_status ≡ completed)
  unfolding start_campaign rebuild build_wave_request
  wave_zero_is_passed_over now plan w d canary only zero passed =
      let first : OtaCampaignWave = record {
        wave_index = 0;
        label = "canary";
        node_ids = plan.canary_nodes;
        is_canary = true;
      } in
      let waves : all_waves plan ≡ first ∷ (w ∷ []) = all_waves_lem plan w canary only in
      let both = both_deployed now first w d zero in
      (
        rebuild texts plan (build_initial_wave_results texts now first d (first ∷ (w ∷ []))) now now
            false "",
        build_wave_request plan first,
        ap (λ ws. start_waves texts now plan ws (ok d)) waves,
        refl,
        ap (λ rs. (collect_details now false "" rs).campaign_status) both
            ∙ all_deployed now first w d passed,
      )
