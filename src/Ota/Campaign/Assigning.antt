-- ===== src/Ota/Campaign/Assigning.antt =====
-- The loops over the waves of a plan keep each node in one place
-- (core/firmware/ota_campaign_models.py).
use control_ok_a_v.Base.{
  ℕ, ◌+◌, ◌≤◌, ◌≡◌, refl, true, false, not, List, [], ◌∷◌, arith, ok, ◌==◌, leb, >>=-eq-ok,
  raise_if-eq-ok, Bool-cases, inl, inr,
}
use control_ok_a_v.Ota.Campaign.Nodes.{
  canary_in_waves, duplicate_wave_index, unknown_wave_node, canary_wave_node, repeated_wave_node,
  contains, OtaCampaignWave,
}
use control_ok_a_v.Ota.Campaign.Plan.{assign_nodes, assign_waves, insert_wave, sorted_waves}
use control_ok_a_v.Ota.Campaign.Waves.{nodes_of}
use control_ok_a_v.Ota.Campaign.Counted.{count, count-append, count_zero}

-- What the waves have so far: each node once, of the plan, and none a canary.
pub record AreAssigned (node_ids canary assigned : List ℕ) (n : ℕ) : Type 0 where
  pub once : count n assigned ≤ 1
  pub known : contains n assigned ≡ true → contains n node_ids ≡ true
  pub no_canary_node : contains n assigned ≡ true → contains n canary ≡ false

module _ (node_ids canary : List ℕ) (n : ℕ) where
  assign_nodes_lem :
      (assigned ns : List ℕ) {out : List ℕ}
      → assign_nodes node_ids canary assigned ns ≡ ok out
      → AreAssigned node_ids canary assigned n
      → AreAssigned node_ids canary out n × (count n out ≡ count n assigned + count n ns)
  unfolding assign_nodes
  assign_nodes_lem assigned [] {out} h a =
      let e : assigned ≡ out = cc h in rw (← e) (a, omega arith)
  assign_nodes_lem assigned (m ∷ ns) {out} h a =
      let (here, h1) = raise_if-eq-ok (not (contains m node_ids)) unknown_wave_node _ h in
      let (plain, h2) = raise_if-eq-ok (contains m canary) canary_wave_node _ h1 in
      let (new, h3) = raise_if-eq-ok (contains m assigned) repeated_wave_node _ h2 in
      let (good, counted) =
        assign_nodes_lem (m ∷ assigned) ns h3 (more m assigned (ground arith) plain new a) in
      (good, omega (arith, counted))
    where
      more :
          (m : ℕ) (assigned : List ℕ)
          → contains m node_ids ≡ true
          → contains m canary ≡ false
          → contains m assigned ≡ false
          → AreAssigned node_ids canary assigned n
          → AreAssigned node_ids canary (m ∷ assigned) n
      more m assigned here plain new a = elim (Bool-cases (m == n)) [
        | inl same ↦
            let e : m ≡ n = ground arith in
            let gone = count_zero m assigned new in
            record {
              once = ground arith;
              known = λ k. ground arith;
              no_canary_node = λ k. ground arith;
            }
        | inr differs ↦
            let limit = a.once in
            record {
              once = ground arith;
              known = λ k. a.known (ground arith);
              no_canary_node = λ k. a.no_canary_node (ground arith);
            }
      ]

  pub assign_waves_lem :
      (seen assigned : List ℕ) (ws : List OtaCampaignWave) {out : List ℕ}
      → assign_waves node_ids canary seen assigned ws ≡ ok out
      → AreAssigned node_ids canary assigned n
      → AreAssigned node_ids canary out n × (count n out ≡ count n assigned + count n (nodes_of ws))
  unfolding assign_waves
  assign_waves_lem seen assigned [] {out} h a =
      let e : assigned ≡ out = cc h in rw (← e) (a, omega arith)
  assign_waves_lem seen assigned (w ∷ ws) {out} h a =
      let (plain, h1) = raise_if-eq-ok w.is_canary canary_in_waves _ h in
      let (new, h2) = raise_if-eq-ok (contains w.wave_index seen) duplicate_wave_index _ h1 in
      let (out', put, h3) = >>=-eq-ok (assign_nodes node_ids canary assigned w.node_ids) _ h2 in
      let (a', counted) = assign_nodes_lem assigned w.node_ids put a in
      let (good, counted') = assign_waves_lem (w.wave_index ∷ seen) out' ws h3 a' in
      (good, omega (arith, counted, counted', count-append n w.node_ids (nodes_of ws)))

count-insert_wave :
    (n : ℕ) (w : OtaCampaignWave) (ws : List OtaCampaignWave)
    → count n (nodes_of (insert_wave w ws)) ≡ count n w.node_ids + count n (nodes_of ws)
count-insert_wave n w [] = count-append n w.node_ids []
count-insert_wave n w (v ∷ ws) = elim (Bool-cases (leb w.wave_index v.wave_index)) [
  | inl e ↦ rw e (count-append n w.node_ids (nodes_of (v ∷ ws)))
  | inr e ↦ rw e (
      omega (
        arith,
        count-append n v.node_ids (nodes_of (insert_wave w ws)),
        count-append n v.node_ids (nodes_of ws),
        count-insert_wave n w ws,
      ))
]

pub count-sorted_waves :
    (n : ℕ) (ws : List OtaCampaignWave)
    → count n (nodes_of (sorted_waves ws)) ≡ count n (nodes_of ws)
unfolding sorted_waves
count-sorted_waves n [] = refl
count-sorted_waves n (w ∷ ws) = omega (
  arith,
  count-insert_wave n w (sorted_waves ws),
  count-sorted_waves n ws,
  count-append n w.node_ids (nodes_of ws),
)
