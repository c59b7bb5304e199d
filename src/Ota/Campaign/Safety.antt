-- ===== src/Ota/Campaign/Safety.antt =====
-- When a campaign goes on to its next wave (services/ota_campaign_service.py).
use control_ok_a_v.Base.{
  ◌≡◌, refl, ap, Bool, true, false, Option, none, some, List, [], ◌∷◌, String, arith, Result, ok,
  err, All, ltb, ◌==◌, >>=-eq-ok, Bool-cases, Option-cases, inl, inr,
}
use Prim.Derive.{subst}
use control_ok_a_v.Ota.Campaign.Nodes.{CampaignError, Texts, OtaCampaignWave}
use control_ok_a_v.Ota.Campaign.Plan.{OtaCampaignPlan}
use control_ok_a_v.Ota.Campaign.Gate.{
  HealthGate, not_evaluated, gate_pending, gate_passed, gate_failed, inconclusive,
  evaluate_wave_gate,
}
use control_ok_a_v.Ota.Campaign.Service.{
  OtaDeployResult, OtaCampaignWaveResult, OtaCampaignResult, last_executed_wave, next_pending_wave,
  replace_wave_result,
}
use control_ok_a_v.Ota.Campaign.Aggregate.{
  is_passed, settled_details, executed_details, live_details, collect_details, last_details,
  next_details, pending_details,
}
use control_ok_a_v.Ota.Campaign.Operations.{
  rebuild, deployed_wave, build_initial_wave_results, start_waves,
}
use control_ok_a_v.Ota.Campaign.Running.{refreshed_result, refreshed_wave, refresh_waves, take_step}
use text.Mathlib.Text.{◌==◌ as text_eq}

settled_allows :
    (now : String) (gate : HealthGate) (next : Option OtaCampaignWaveResult)
    → (settled_details now gate next).continue_allowed ≡ true
    → is_passed gate ≡ true
unfolding last_details next_details
settled_allows now gate none h = absurd (cc h)
settled_allows now gate (some next) h = h

executed_allows :
    (now : String) (is_paused : Bool) (last : OtaCampaignWaveResult) (gate : HealthGate)
    (next : Option OtaCampaignWaveResult)
    → (executed_details now is_paused last gate next).continue_allowed ≡ true
    → gate ≡ gate_passed
unfolding executed_details pending_details
executed_allows now is_paused last gate_pending next h = absurd (cc h)
executed_allows now is_paused last not_evaluated next h =
    absurd (cc (settled_allows now not_evaluated next h))
executed_allows now is_paused last gate_passed next h = refl
executed_allows now is_paused last gate_failed next h =
    absurd (cc (settled_allows now gate_failed next h))
executed_allows now is_paused last inconclusive next h =
    absurd (cc (settled_allows now inconclusive next h))

live_allows :
    (now : String) (is_paused : Bool) (last next : Option OtaCampaignWaveResult)
    → (live_details now is_paused last next).continue_allowed ≡ true
    → (r : OtaCampaignWaveResult) × (last ≡ some r) × (r.health_gate ≡ gate_passed)
live_allows now is_paused none next h = absurd (cc h)
live_allows now is_paused (some r) next h =
    (r, refl, executed_allows now is_paused r r.health_gate next h)

-- Details that allow to go on: nobody has aborted, and the gate of the last wave has passed.
collect_details_allows :
    (now : String) (is_paused : Bool) (abort_reason : String) (results : List OtaCampaignWaveResult)
    → (collect_details now is_paused abort_reason results).continue_allowed ≡ true
    → (text_eq abort_reason "" ≡ true)
      × ((last : OtaCampaignWaveResult) × (last_executed_wave results ≡ some last)
          × (last.health_gate ≡ gate_passed))
unfolding collect_details
collect_details_allows now is_paused abort_reason results h =
    elim (Bool-cases (text_eq abort_reason "")) [
      | inl live ↦ (
        live,
        live_allows now is_paused (last_executed_wave results) (next_pending_wave results)
            (ground arith),
      )
      | inr gone ↦ absurd (ground arith)
    ]

-- The last executed wave is one of the waves, and was deployed.
pub last_executed_wave_lem :
    (P : OtaCampaignWaveResult → Type 0) (results : List OtaCampaignWaveResult)
    {last : OtaCampaignWaveResult}
    → All P results
    → last_executed_wave results ≡ some last
    → P last × ((d : OtaDeployResult) × (last.deploy_result ≡ some d))
unfolding last_executed_wave
last_executed_wave_lem P [] h e = absurd (cc e)
last_executed_wave_lem P (r ∷ rs) {last} h e =
    let Found =
      λ (w : OtaCampaignWaveResult). P w × ((d : OtaDeployResult) × (w.deploy_result ≡ some d)) in
    elim (Option-cases r.deploy_result) [
      | inl waits ↦ last_executed_wave_lem P rs h.1 (ground arith)
      | inr (d, deployed) ↦ elim (Option-cases (last_executed_wave rs)) [
        | inl alone ↦ let same : r ≡ last = ground arith in subst Found same (h.0, (d, deployed))
        | inr (s, others) ↦ elim (Bool-cases (ltb r.wave.wave_index s.wave.wave_index)) [
          | inl below ↦
              let same : s ≡ last = ground arith in
              subst Found same (last_executed_wave_lem P rs h.1 others)
          | inr above ↦ let same : r ≡ last = ground arith in subst Found same (h.0, (d, deployed))
        ]
      ]
    ]

module _ (texts : Texts) where
  -- The gate of a wave that was deployed is that of what its deploy says.
  abbrev pub IsGated : OtaCampaignWaveResult → Type 0
  IsGated r =
      (d : OtaDeployResult)
      → r.deploy_result ≡ some d
      → r.health_gate ≡ evaluate_wave_gate texts d.node_statuses

  deployed_wave-IsGated :
      (now : String) (w : OtaCampaignWave) (d : OtaDeployResult)
      → IsGated (deployed_wave texts now w d)
  unfolding deployed_wave
  deployed_wave-IsGated now w d d' e =
      let same : d ≡ d' = cc e in ap (λ x. evaluate_wave_gate texts x.node_statuses) same

  build_initial_wave_results-AreGated :
      (now : String) (first : OtaCampaignWave) (d : OtaDeployResult) (ws : List OtaCampaignWave)
      → All IsGated (build_initial_wave_results texts now first d ws)
  unfolding build_initial_wave_results
  build_initial_wave_results-AreGated now first d [] = tt
  build_initial_wave_results-AreGated now first d (w ∷ ws) = (
    elim (Bool-cases (w.wave_index == first.wave_index)) [
      | inl e ↦ rw e (deployed_wave-IsGated now w d)
      | inr e ↦ rw e (λ d' k. absurd (cc k))
    ],
    build_initial_wave_results-AreGated now first d ws,
  )

  replace_wave_result-AreGated :
      (new : OtaCampaignWaveResult) (rs : List OtaCampaignWaveResult)
      → IsGated new
      → All IsGated rs
      → All IsGated (replace_wave_result new rs)
  unfolding replace_wave_result
  replace_wave_result-AreGated new [] g h = tt
  replace_wave_result-AreGated new (r ∷ rs) g h = (
    elim (Bool-cases (r.wave.wave_index == new.wave.wave_index)) [
      | inl e ↦ rw e g
      | inr e ↦ rw e h.0
    ],
    replace_wave_result-AreGated new rs g h.1,
  )

  refreshed_result-IsGated :
      (now : String) (r : OtaCampaignWaveResult) (d : OtaDeployResult)
      → IsGated (refreshed_result texts now r d)
  unfolding refreshed_result
  refreshed_result-IsGated now r d d' e =
      let same : d ≡ d' = cc e in ap (λ x. evaluate_wave_gate texts x.node_statuses) same

  refreshed_wave-IsGated :
      (now : String) (r : OtaCampaignWaveResult) (deploy : Option OtaDeployResult)
      (refresh : OtaDeployResult → Result CampaignError OtaDeployResult)
      {fresh : OtaCampaignWaveResult}
      → IsGated r
      → refreshed_wave texts now r deploy refresh ≡ ok fresh
      → IsGated fresh
  refreshed_wave-IsGated now r none refresh {fresh} g h =
      let same : r ≡ fresh = cc h in subst IsGated same g
  refreshed_wave-IsGated now r (some d) refresh {fresh} g h =
      let (d', answered, h1) = >>=-eq-ok (refresh d) _ h in
      let same : refreshed_result texts now r d' ≡ fresh = cc h1 in
      subst IsGated same (refreshed_result-IsGated now r d')

  pub refresh_waves-AreGated :
      (now : String) (refresh : OtaDeployResult → Result CampaignError OtaDeployResult)
      (rs : List OtaCampaignWaveResult) {fresh : List OtaCampaignWaveResult}
      → All IsGated rs
      → refresh_waves texts now refresh rs ≡ ok fresh
      → All IsGated fresh
  unfolding refresh_waves
  refresh_waves-AreGated now refresh [] {fresh} g h = let e : [] ≡ fresh = cc h in rw (← e) tt
  refresh_waves-AreGated now refresh (r ∷ rs) {fresh} g h =
      let (wave, one, h1) = >>=-eq-ok (refreshed_wave texts now r r.deploy_result refresh) _ h in
      let (rest, others, h2) = >>=-eq-ok (refresh_waves texts now refresh rs) _ h1 in
      let same : wave ∷ rest ≡ fresh = cc h2 in
      subst (All IsGated) same (
        refreshed_wave-IsGated now r r.deploy_result refresh g.0 one,
        refresh_waves-AreGated now refresh rs g.1 others,
      )

  -- What holds of a campaign at any time: gates are those of the deploys, and where it may go on, nobody
  -- has aborted it and the gate of the last wave has passed.
  pub record IsSafe (r : OtaCampaignResult) : Type 0 where
    pub are_gated : All IsGated r.wave_results
    pub may_go_on :
        r.details.continue_allowed ≡ true
        → (text_eq r.abort_reason "" ≡ true)
          × ((last : OtaCampaignWaveResult) × (last_executed_wave r.wave_results ≡ some last)
              × (last.health_gate ≡ gate_passed))

  pub rebuild-IsSafe :
      (plan : OtaCampaignPlan) (results : List OtaCampaignWaveResult) (now started : String)
      (is_paused : Bool) (abort_reason : String)
      → All IsGated results
      → IsSafe (rebuild texts plan results now started is_paused abort_reason)
  unfolding rebuild
  rebuild-IsSafe plan results now started is_paused abort_reason g = record {
    are_gated = g;
    may_go_on = collect_details_allows now is_paused abort_reason results;
  }

  pub start_campaign-IsSafe :
      (now : String) (plan : OtaCampaignPlan) (ws : List OtaCampaignWave)
      (answer : Result CampaignError OtaDeployResult) {r : OtaCampaignResult}
      → (start_waves texts now plan ws answer).1 ≡ ok r
      → IsSafe r
  start_campaign-IsSafe now plan [] answer h = absurd (cc h)
  start_campaign-IsSafe now plan (first ∷ ws) answer {r} h =
      let (d, answered, h1) = >>=-eq-ok answer _ h in
      let same : rebuild texts plan (build_initial_wave_results texts now first d (first ∷ ws)) now
            now false ""
          ≡ r =
        cc h1 in
      subst IsSafe same (
        rebuild-IsSafe plan _ now now false ""
          (build_initial_wave_results-AreGated now first d (first ∷ ws)))

  pub take_step-IsSafe :
      (now : String) (r : OtaCampaignResult) (answer : Result CampaignError OtaDeployResult)
      (step : Result CampaignError (OtaCampaignWaveResult × OtaCampaignPlan))
      {s : OtaCampaignResult}
      → IsSafe r
      → (take_step texts now r answer step).1 ≡ ok s
      → IsSafe s
  take_step-IsSafe now r answer (err e) safe h = absurd (cc h)
  take_step-IsSafe now r answer (ok (next, plan)) {s} safe h =
      let (d, answered, h1) = >>=-eq-ok answer _ h in
      let new = deployed_wave texts now next.wave d in
      let same : rebuild texts plan (replace_wave_result new r.wave_results) now r.started_at_utc
            false ""
          ≡ s =
        cc h1 in
      subst IsSafe same (
        rebuild-IsSafe plan _ now r.started_at_utc false "" (
          replace_wave_result-AreGated new r.wave_results (deployed_wave-IsGated now next.wave d)
            safe.are_gated))
