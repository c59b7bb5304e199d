-- ===== src/Ota/Campaign/Assigned.antt =====
-- An accepted plan has each of its nodes in one place (core/firmware/ota_campaign_models.py).
use control_ok_a_v.Base.{
  ℕ, ◌+◌, ◌≤◌, ◌≡◌, ap, ◌∙◌, true, false, not, ◌&&◌, some, List, [], arith, ok, >>=-eq-ok,
  raise_if-eq-ok, Bool-cases, inl, inr,
}
use control_ok_a_v.Base.Int.{ℤ}
use control_ok_a_v.Ota.Campaign.Nodes.{
  no_artifact, no_canary, unknown_canary, normalize_text, is_empty, unassigned_nodes, Texts,
  contains, normalize_node_ids, normalize_optional_node_ids, OtaCampaignWave, remaining,
}
use control_ok_a_v.Ota.Campaign.Plan.{
  OtaCampaignPlan, PlanArguments, make_settings, covers, assign_waves, sorted_waves, check_waves,
  make_plan,
}
use text.Mathlib.Text.{◌==◌ as text_eq}
use control_ok_a_v.Ota.Campaign.Waves.{nodes_of}
use control_ok_a_v.Ota.Campaign.Cutting.{normalize_node_ids-AreNodes}
use control_ok_a_v.Ota.Campaign.Counted.{
  count, count_pos, count_zero, AreNodes-count, normalize_canary_once, covers_lem, remaining_lem,
}
use control_ok_a_v.Ota.Campaign.Assigning.{AreAssigned, assign_waves_lem, count-sorted_waves}

check_waves_lem :
    (node_ids canary : List ℕ) (given : List OtaCampaignWave) {waves : List OtaCampaignWave} (n : ℕ)
    → check_waves node_ids canary given ≡ ok waves
    → count n node_ids ≤ 1
    → count n canary ≤ 1
    → covers node_ids canary ≡ true
    → count n canary + count n (nodes_of waves) ≡ count n node_ids
unfolding check_waves
check_waves_lem node_ids canary given {waves} n h once once_canary known =
    let (assigned, put, h1) = >>=-eq-ok (assign_waves node_ids canary [] [] given) _ h in
    let (all_there, h2) =
      raise_if-eq-ok (not (covers assigned (remaining canary node_ids))) unassigned_nodes _ h1 in
    let same : sorted_waves given ≡ waves = ground arith in
    let (good, counted) = assign_waves_lem node_ids canary n [] [] given put (record {
      once = omega arith;
      known = λ e. absurd (cc e);
      no_canary_node = λ e. absurd (cc e);
    }) in
    let sorted_count = count-sorted_waves n given in
    let placed : count n (nodes_of waves) ≡ count n assigned =
      let moved = ap (λ ws. count n (nodes_of ws)) same in omega (arith, moved) in
    elim (Bool-cases (contains n canary)) [
      | inl is_canary ↦
          let there = count_pos n canary is_canary in
          let here = count_pos n node_ids (covers_lem node_ids canary n known is_canary) in
          let gone = count_zero n assigned (not_assigned is_canary good) in omega arith
      | inr plain ↦
          let no_canary_here = count_zero n canary plain in
          elim (Bool-cases (contains n node_ids)) [
            | inl here ↦
                let there = count_pos n node_ids here in
                let put_there = count_pos n assigned (
                  covers_lem assigned (remaining canary node_ids) n (ground arith)
                    (remaining_lem canary node_ids n here plain)) in
                let limit = good.once in omega arith
            | inr absent ↦
                let gone = count_zero n node_ids absent in
                let not_there = count_zero n assigned (not_known absent good) in omega arith
          ]
    ]
  where
    not_assigned :
        {node_ids canary assigned : List ℕ} {n : ℕ}
        → contains n canary ≡ true
        → AreAssigned node_ids canary assigned n
        → contains n assigned ≡ false
    not_assigned {assigned = assigned} {n = n} e a = elim (Bool-cases (contains n assigned)) [
      | inl t ↦ absurd (cc (a.no_canary_node t))
      | inr f ↦ f
    ]

    not_known :
        {node_ids canary assigned : List ℕ} {n : ℕ}
        → contains n node_ids ≡ false
        → AreAssigned node_ids canary assigned n
        → contains n assigned ≡ false
    not_known {assigned = assigned} {n = n} e a = elim (Bool-cases (contains n assigned)) [
      | inl t ↦ absurd (cc (a.known t))
      | inr f ↦ f
    ]

make_plan_parts :
    (texts : Texts) (a : PlanArguments) {plan : OtaCampaignPlan}
    → make_plan texts a ≡ ok plan
    → (normalize_node_ids a.nodes ≡ ok plan.node_ids)
      × (normalize_optional_node_ids (some a.canary) ≡ ok plan.canary_nodes)
      × (covers plan.node_ids plan.canary_nodes ≡ true)
      × (check_waves plan.node_ids plan.canary_nodes a.given_waves ≡ ok plan.waves)
unfolding make_plan
make_plan_parts texts a {plan} h =
    let artifact = normalize_text texts a.artifact "" in
    let (named, h1) = raise_if-eq-ok (text_eq artifact "") no_artifact _ h in
    let (nodes, e_nodes, h2) = >>=-eq-ok (normalize_node_ids a.nodes) _ h1 in
    let (canary, e_canary, h3) = >>=-eq-ok (normalize_optional_node_ids (some a.canary)) _ h2 in
    let (required, h4) = raise_if-eq-ok (a.require_canary && is_empty canary) no_canary _ h3 in
    let (known, h5) = raise_if-eq-ok (not (covers nodes canary)) unknown_canary _ h4 in
    let (waves, e_waves, h6) = >>=-eq-ok (check_waves nodes canary a.given_waves) _ h5 in
    let (settings, e_settings, h7) = >>=-eq-ok (make_settings texts a) _ h6 in
    let same_nodes : nodes ≡ plan.node_ids = cc h7 in
    let same_canary : canary ≡ plan.canary_nodes = cc h7 in
    let same_waves : waves ≡ plan.waves = cc h7 in
    (e_nodes ∙ ap ok same_nodes, e_canary ∙ ap ok same_canary, ground arith, ground arith)

canary_once :
    (values : List ℤ) (n : ℕ) {ns : List ℕ}
    → normalize_optional_node_ids (some values) ≡ ok ns
    → count n ns ≤ 1
unfolding normalize_optional_node_ids
canary_once values n h = (normalize_canary_once n [] values h).0

-- In a plan that is accepted, any number stands among the nodes at most once, and as often as among the
-- canaries and the nodes of the waves together.
pub make_plan-count :
    (texts : Texts) (a : PlanArguments) (plan : OtaCampaignPlan) (n : ℕ)
    → make_plan texts a ≡ ok plan
    → (count n plan.node_ids ≤ 1)
      × (count n plan.canary_nodes + count n (nodes_of plan.waves) ≡ count n plan.node_ids)
make_plan-count texts a plan n h =
    let (nodes, canary, known, waves) = make_plan_parts texts a h in
    let once = (AreNodes-count n [] plan.node_ids (normalize_node_ids-AreNodes a.nodes nodes)).0 in
    let once_canary = canary_once a.canary n canary in
    (
      once,
      check_waves_lem plan.node_ids plan.canary_nodes a.given_waves n waves once once_canary known,
    )
