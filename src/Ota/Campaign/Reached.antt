-- ===== src/Ota/Campaign/Reached.antt =====
-- The campaigns that an operator gets, from the start on (services/ota_campaign_service.py).
use control_ok_a_v.Base.{
  Bool, List, refl, sym, ap, ◌∙◌, some, err, not, raise_if-eq-ok, ◌≡◌, true, false, [], ◌∷◌, ◌++◌,
  String, if◌then◌else◌, arith, Result, ok, ◌>>=◌, >>=-eq-ok, Bool-cases, inl, inr,
}
use Prim.Derive.{subst}
use control_ok_a_v.Ota.Campaign.Nodes.{CampaignError, not_allowed, Texts, normalize_text}
use control_ok_a_v.Ota.Campaign.Plan.{OtaCampaignPlan}
use control_ok_a_v.Ota.Campaign.Service.{
  OtaCampaignWaveResult, next_pending_wave, OtaDeployResult, OtaCampaignResult, all_waves,
}
use control_ok_a_v.Ota.Campaign.Operations.{rebuild, plan_from_result, start_campaign}
use control_ok_a_v.Ota.Campaign.Running.{
  check_status, found_wave, take_step, is_over, refresh_waves, refresh_campaign, next_step,
  continue_campaign, pause_campaign, abort_campaign,
}
use control_ok_a_v.Ota.Campaign.Safety.{
  IsSafe, refresh_waves-AreGated, rebuild-IsSafe, start_campaign-IsSafe, take_step-IsSafe,
}
use text.Mathlib.Text.{◌==◌ as text_eq}

module _ (texts : Texts) where
  -- The campaigns that an operator gets, whatever the orchestrator answers and the clock says, and
  -- whether they were aborted at any time before.
  pub data Reachable : Bool → OtaCampaignResult → Type 0 where
    started :
        {r : OtaCampaignResult} (now : String) (plan : OtaCampaignPlan)
        (answer : Result CampaignError OtaDeployResult)
        → (start_campaign texts now plan answer).1 ≡ ok r
        → Reachable false r
    refreshed :
        {gone : Bool} {r s : OtaCampaignResult} (now : String)
        (refresh : OtaDeployResult → Result CampaignError OtaDeployResult)
        → Reachable gone r
        → refresh_campaign texts now refresh r ≡ ok s
        → Reachable gone s
    continued :
        {gone : Bool} {r s : OtaCampaignResult} (now : String)
        (answer : Result CampaignError OtaDeployResult)
        → Reachable gone r
        → (continue_campaign texts now answer r).1 ≡ ok s
        → Reachable gone s
    halted :
        {gone : Bool} {r s : OtaCampaignResult} (now reason : String)
        → Reachable gone r
        → pause_campaign texts now reason r ≡ ok s
        → Reachable gone s
    given_up :
        {gone : Bool} {r s : OtaCampaignResult} (now reason : String)
        → Reachable gone r
        → abort_campaign texts now reason r ≡ ok s
        → Reachable true s

  -- A campaign that is paused is rebuilt, and gets a warning.
  with_warning-IsSafe :
      (reason : String) (r : OtaCampaignResult)
      → IsSafe texts r
      → IsSafe texts
          (if text_eq reason "" then r else record r { warnings = r.warnings ++ (reason ∷ []) })
  with_warning-IsSafe reason r safe = elim (Bool-cases (text_eq reason "")) [
    | inl e ↦ rw e safe
    | inr e ↦ rw e (record { are_gated = safe.are_gated; may_go_on = safe.may_go_on })
  ]

  paused_from :
      (now reason : String) (r : OtaCampaignResult) {s : OtaCampaignResult}
      → IsSafe texts r
      → (plan_from_result texts r >>= λ plan.
          let halted = rebuild texts plan r.wave_results now r.started_at_utc true r.abort_reason in
          let warning = normalize_text texts reason "" in
          ok (
            if text_eq warning ""
            then halted
            else record halted { warnings = halted.warnings ++ (warning ∷ []) }))
        ≡ ok s
      → IsSafe texts s
  paused_from now reason r {s} safe h =
      let (plan, planned, h1) = >>=-eq-ok (plan_from_result texts r) _ h in
      let back = rebuild texts plan r.wave_results now r.started_at_utc true r.abort_reason in
      let warning = normalize_text texts reason "" in
      let same : (if text_eq warning ""
            then back
            else record back { warnings = back.warnings ++ (warning ∷ []) })
          ≡ s =
        cc h1 in
      subst (IsSafe texts) same (
        with_warning-IsSafe warning back (
          rebuild-IsSafe texts plan r.wave_results now r.started_at_utc true r.abort_reason
            safe.are_gated))

  pause-IsSafe :
      (now reason : String) (r : OtaCampaignResult) {s : OtaCampaignResult}
      → IsSafe texts r
      → pause_campaign texts now reason r ≡ ok s
      → IsSafe texts s
  unfolding pause_campaign
  pause-IsSafe now reason r {s} safe h = elim (Bool-cases (is_over r.details.campaign_status)) [
    | inl over ↦ let same : r ≡ s = ground arith in subst (IsSafe texts) same safe
    | inr live ↦ paused_from now reason r safe (ground arith)
  ]

  pub Reachable-IsSafe : {gone : Bool} {r : OtaCampaignResult} → Reachable gone r → IsSafe texts r
  unfolding start_campaign refresh_campaign continue_campaign abort_campaign
  Reachable-IsSafe (started now plan answer h) =
      start_campaign-IsSafe texts now plan (all_waves plan) answer h
  Reachable-IsSafe (refreshed {r = r} {s = s} now refresh reached h) =
      let (waves, fresh, h1) = >>=-eq-ok (refresh_waves texts now refresh r.wave_results) _ h in
      let (plan, planned, h2) = >>=-eq-ok (plan_from_result texts r) _ h1 in
      let same : rebuild texts plan waves now r.started_at_utc r.paused_by_operator r.abort_reason
          ≡ s =
        cc h2 in
      subst (IsSafe texts) same (
        rebuild-IsSafe texts plan waves now r.started_at_utc r.paused_by_operator r.abort_reason (
          refresh_waves-AreGated texts now refresh r.wave_results
            (Reachable-IsSafe reached).are_gated fresh))
  Reachable-IsSafe (continued {r = r} {s = s} now answer reached h) =
      take_step-IsSafe texts now r answer (next_step texts r) (Reachable-IsSafe reached) h
  Reachable-IsSafe (halted {r = r} {s = s} now reason reached h) =
      pause-IsSafe now reason r (Reachable-IsSafe reached) h
  Reachable-IsSafe (given_up {r = r} {s = s} now reason reached h) =
      let (plan, planned, h1) = >>=-eq-ok (plan_from_result texts r) _ h in
      let why = normalize_text texts reason "Campaña abortada." in
      let same : rebuild texts plan r.wave_results now r.started_at_utc false why ≡ s = cc h1 in
      subst (IsSafe texts) same (
        rebuild-IsSafe texts plan r.wave_results now r.started_at_utc false why
          (Reachable-IsSafe reached).are_gated)

  pub next_step_parts :
      (r : OtaCampaignResult) {next : OtaCampaignWaveResult} {plan : OtaCampaignPlan}
      → next_step texts r ≡ ok (next, plan)
      → (r.details.continue_allowed ≡ true) × (next_pending_wave r.wave_results ≡ some next)
  unfolding next_step
  next_step_parts r {next} {plan} h =
      let (u, status, h1) = >>=-eq-ok (check_status r.details.campaign_status) _ h in
      let (allowed, h2) = raise_if-eq-ok (not r.details.continue_allowed) not_allowed _ h1 in
      let (w, found, h3) = >>=-eq-ok (found_wave (next_pending_wave r.wave_results)) _ h2 in
      let (p, planned, h4) = >>=-eq-ok (plan_from_result texts r) _ h3 in
      let same : w ≡ next = cc h4 in (ground arith, ground arith)

  step_allowed :
      (now : String) (r : OtaCampaignResult) (answer : Result CampaignError OtaDeployResult)
      (step : Result CampaignError (OtaCampaignWaveResult × OtaCampaignPlan))
      {s : OtaCampaignResult}
      → next_step texts r ≡ step
      → (take_step texts now r answer step).1 ≡ ok s
      → r.details.continue_allowed ≡ true
  step_allowed now r answer (err e) taken h = absurd (cc h)
  step_allowed now r answer (ok (next, plan)) taken h = (next_step_parts r taken).0

  -- The reason of an abort is not empty.
  reason_lem :
      (reason : String) → text_eq (normalize_text texts reason "Campaña abortada.") "" ≡ false
  reason_lem reason = elim (Bool-cases (text_eq (texts.strip reason) "")) [
    | inl e ↦ rw e refl
    | inr e ↦ rw e e
  ]

  rebuild_reason :
      (plan : OtaCampaignPlan) (results : List OtaCampaignWaveResult) (now since : String)
      (is_paused : Bool) (why : String)
      → (rebuild texts plan results now since is_paused why).abort_reason ≡ why
  unfolding rebuild
  rebuild_reason plan results now since is_paused why = refl

  warned_reason :
      (b : Bool) (back : OtaCampaignResult) (warnings : List String)
      → (if b then back else record back { warnings = warnings }).abort_reason ≡ back.abort_reason
  warned_reason true back warnings = refl
  warned_reason false back warnings = refl

  paused_from_reason :
      (now reason : String) (r : OtaCampaignResult) {s : OtaCampaignResult}
      → (plan_from_result texts r >>= λ plan.
          let halted = rebuild texts plan r.wave_results now r.started_at_utc true r.abort_reason in
          let warning = normalize_text texts reason "" in
          ok (
            if text_eq warning ""
            then halted
            else record halted { warnings = halted.warnings ++ (warning ∷ []) }))
        ≡ ok s
      → s.abort_reason ≡ r.abort_reason
  paused_from_reason now reason r {s} h =
      let (plan, planned, h1) = >>=-eq-ok (plan_from_result texts r) _ h in
      let back = rebuild texts plan r.wave_results now r.started_at_utc true r.abort_reason in
      let warning = normalize_text texts reason "" in
      let same : (if text_eq warning ""
            then back
            else record back { warnings = back.warnings ++ (warning ∷ []) })
          ≡ s =
        cc h1 in
      sym (ap (λ q. q.abort_reason) same)
      ∙ warned_reason (text_eq warning "") back (back.warnings ++ (warning ∷ []))
      ∙ rebuild_reason plan r.wave_results now r.started_at_utc true r.abort_reason

  paused_reason :
      (now reason : String) (r : OtaCampaignResult) {s : OtaCampaignResult}
      → pause_campaign texts now reason r ≡ ok s
      → s.abort_reason ≡ r.abort_reason
  unfolding pause_campaign
  paused_reason now reason r {s} h = elim (Bool-cases (is_over r.details.campaign_status)) [
    | inl over ↦ let same : r ≡ s = ground arith in sym (ap (λ q. q.abort_reason) same)
    | inr live ↦ paused_from_reason now reason r {s = s} (ground arith)
  ]

  -- A campaign that was aborted at any time has a reason for it.
  pub aborted_reason :
      {gone : Bool} {r : OtaCampaignResult}
      → Reachable gone r
      → gone ≡ true
      → text_eq r.abort_reason "" ≡ false
  unfolding refresh_campaign continue_campaign abort_campaign rebuild
  aborted_reason (started now plan answer h) e = absurd (cc e)
  aborted_reason (refreshed {r = r} {s = s} now refresh reached h) e =
      let (waves, fresh, h1) = >>=-eq-ok (refresh_waves texts now refresh r.wave_results) _ h in
      let (plan, planned, h2) = >>=-eq-ok (plan_from_result texts r) _ h1 in
      let same : rebuild texts plan waves now r.started_at_utc r.paused_by_operator r.abort_reason
          ≡ s =
        cc h2 in
      rw (← ap (λ q. q.abort_reason) same) (aborted_reason reached e)
  aborted_reason (continued {r = r} {s = s} now answer reached h) e =
      let live =
        ((Reachable-IsSafe reached).may_go_on
          (step_allowed now r answer (next_step texts r) refl h)).0 in
      let gone = aborted_reason reached e in absurd (cc)
  aborted_reason (halted {r = r} {s = s} now reason reached h) e =
      rw (paused_reason now reason r h) (aborted_reason reached e)
  aborted_reason (given_up {r = r} {s = s} now reason reached h) e =
      let (plan, planned, h1) = >>=-eq-ok (plan_from_result texts r) _ h in
      let why = normalize_text texts reason "Campaña abortada." in
      let same : rebuild texts plan r.wave_results now r.started_at_utc false why ≡ s = cc h1 in
      rw (← ap (λ q. q.abort_reason) same) (reason_lem reason)
