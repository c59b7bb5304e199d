-- ===== src/Ota/Campaign/Continuing.antt =====
-- When a campaign goes on (services/ota_campaign_service.py).
use control_ok_a_v.Base.{
  Bool, false, ◌≤◌, ◌≡◌, refl, sym, ap, ◌∙◌, true, some, String, Result, ok, err, All, length,
  Bool-cases, inl, inr,
}
use control_ok_a_v.Ota.Campaign.Nodes.{CampaignError, Texts}
use control_ok_a_v.Ota.Campaign.Plan.{OtaCampaignPlan}
use control_ok_a_v.Ota.Campaign.Service.{
  OtaDeployRequest, OtaDeployResult, OtaCampaignWaveResult, OtaCampaignResult, build_wave_request,
}
use control_ok_a_v.Ota.Campaign.Running.{next_step, take_step, continue_campaign}
use control_ok_a_v.Ota.Campaign.Health.{IsHealthy, evaluate_wave_gate_iff}
use control_ok_a_v.Ota.Campaign.Safety.{IsGated, IsSafe, last_executed_wave_lem}
use text.Mathlib.Text.{◌==◌ as text_eq}
use control_ok_a_v.Ota.Campaign.Reached.{
  Reachable, Reachable-IsSafe, next_step_parts, aborted_reason,
}
use control_ok_a_v.Ota.Campaign.Chosen.{
  IsLastExecuted, IsNextPending, last_executed_wave-IsLastExecuted, next_pending_wave-IsNextPending,
}

module _ (texts : Texts) where
  -- What a deploy that a campaign goes on with stands on.
  abbrev pub IsDue : OtaCampaignResult → OtaDeployRequest → Type 0
  IsDue r request =
      ((last : OtaCampaignWaveResult) × (d : OtaDeployResult) × IsLastExecuted r.wave_results last
        × (last.deploy_result ≡ some d)
        × (1 ≤ length d.node_statuses)
        × All (IsHealthy texts) d.node_statuses)
      × ((next : OtaCampaignWaveResult) × IsNextPending r.wave_results next
          × (request.node_ids ≡ next.wave.node_ids))

  take_step-IsDue :
      (now : String) (r : OtaCampaignResult) (answer : Result CampaignError OtaDeployResult)
      (step : Result CampaignError (OtaCampaignWaveResult × OtaCampaignPlan))
      (request : OtaDeployRequest)
      → IsSafe texts r
      → next_step texts r ≡ step
      → (take_step texts now r answer step).0 ≡ some request
      → (text_eq r.abort_reason "" ≡ true) × IsDue r request
  unfolding build_wave_request
  take_step-IsDue now r answer (err e) request safe taken h = absurd (cc h)
  take_step-IsDue now r answer (ok (next, plan)) request safe taken h =
      let (allowed, found) = next_step_parts texts r taken in
      let (live, (last, executed, passed)) = safe.may_go_on allowed in
      let (gated, (d, deployed)) =
        last_executed_wave_lem (IsGated texts) r.wave_results safe.are_gated executed in
      let (some_nodes, healthy) =
        (evaluate_wave_gate_iff texts d.node_statuses).0 (sym (gated d deployed) ∙ passed) in
      let same : build_wave_request plan next.wave ≡ request = cc h in
      (
        live,
        (
          (
            last,
            d,
            last_executed_wave-IsLastExecuted r.wave_results executed,
            deployed,
            some_nodes,
            healthy,
          ),
          (
            next,
            next_pending_wave-IsNextPending r.wave_results found,
            sym (ap (λ q. q.node_ids) same),
          ),
        ),
      )

  -- However a campaign was started, refreshed, continued, paused and aborted: if it is continued with a
  -- deploy, then it was never aborted before. Of its waves that were deployed, the one with the largest
  -- number tells of some nodes, all of them healthy; and the deploy is of the nodes of the wave with
  -- the smallest number of those that were not deployed.
  pub continue_campaign-IsDue :
      (now : String) (answer : Result CampaignError OtaDeployResult) (gone : Bool)
      (r : OtaCampaignResult) (request : OtaDeployRequest)
      → Reachable texts gone r
      → (continue_campaign texts now answer r).0 ≡ some request
      → (gone ≡ false) × IsDue r request
  unfolding continue_campaign
  continue_campaign-IsDue now answer gone r request reached h =
      let (live, due) =
        take_step-IsDue now r answer (next_step texts r) request (Reachable-IsSafe texts reached)
          refl h in
      elim (Bool-cases gone) [
        | inl e ↦ let not_live = aborted_reason texts reached e in absurd (cc)
        | inr e ↦ (e, due)
      ]
