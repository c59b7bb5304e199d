-- ===== src/Registry/Keeping.antt =====
-- Nodes under their numbers: what putting, refreshing and counting them keeps.
use Prim.Derive.{subst}
use control_ok_a_v.Base.{
  ℕ, ◌+◌, ◌≡◌, refl, ◌∙◌, ◌==◌, [], ◌∷◌, none, length, Bool-cases, inl, inr, arith,
}
use control_ok_a_v.Base.Int.{pos, ◌≤ℤ◌}
use control_ok_a_v.Base.Dict.{Dict, lookup, insert, nat_eq, HasDistinctKeys, insert-HasDistinctKeys}
use control_ok_a_v.Registry.Float.{FloatOps}
use control_ok_a_v.Registry.Models.{
  NodeStatus, online, calibrating, degraded, offline, NodeRegistryConfig, NodeState,
}
use control_ok_a_v.Registry.Nodes.{
  NodeRegistry, NodeRegistrySummary, node_or, put_node, refresh_all, summarize, count_status,
}
use control_ok_a_v.Registry.Frames.{IsKept, refresh_node-IsKept}

abbrev pub AreKept : {F : Type 0} → NodeRegistryConfig F → Dict ℕ (NodeState F) → Type 0
AreKept config [] = Unit
AreKept config ((k, node) ∷ nodes) = IsKept config k node × AreKept config nodes

-- Every node stands once, under its own number, and has no more events than configured.
pub record IsInOrder {F : Type 0} (config : NodeRegistryConfig F) (nodes : Dict ℕ (NodeState F))
    : Type 0 where
  pub distinct : HasDistinctKeys nodes
  pub kept : AreKept config nodes

abbrev pub is_online : NodeStatus → ℕ
is_online online = 1
is_online other = 0

abbrev pub is_calibrating : NodeStatus → ℕ
is_calibrating calibrating = 1
is_calibrating other = 0

abbrev pub is_degraded : NodeStatus → ℕ
is_degraded degraded = 1
is_degraded other = 0

abbrev pub is_offline : NodeStatus → ℕ
is_offline offline = 1
is_offline other = 0

-- How many nodes have a status, by a test that gives 1 or 0.
abbrev pub nodes_with : {F : Type 0} → (NodeStatus → ℕ) → Dict ℕ (NodeState F) → ℕ
nodes_with test [] = 0
nodes_with test ((k, node) ∷ nodes) = test node.status + nodes_with test nodes

-- The nodes that a summary has counted.
abbrev pub counted_nodes : {F : Type 0} → NodeRegistrySummary F → ℕ
counted_nodes s = s.online_count + s.calibrating_count + s.degraded_count + s.offline_count

module _ {F : Type 0} (ops : FloatOps F) (config : NodeRegistryConfig F) where
  insert-AreKept :
      (k : ℕ) (node : NodeState F) (nodes : Dict ℕ (NodeState F))
      → IsKept config k node
      → AreKept config nodes
      → AreKept config (insert k node nodes)
  insert-AreKept k node [] h hs = (h, tt)
  insert-AreKept k node ((j, old) ∷ nodes) h (g, hs) = elim (Bool-cases (j == k)) [
    | inl e ↦
        let same : k ≡ j = ground arith in simp e (subst (λ i. IsKept config i node) same h, hs)
    | inr e ↦ simp e (g, insert-AreKept k node nodes h hs)
  ]

  pub put_node-IsInOrder :
      (k : ℕ) (node : NodeState F) (r : NodeRegistry F)
      → IsKept config k node
      → IsInOrder config r.nodes
      → IsInOrder config (put_node ops r k node).nodes
  put_node-IsInOrder k node r h o = record {
    distinct = insert-HasDistinctKeys k node r.nodes o.distinct;
    kept = insert-AreKept k node r.nodes h o.kept;
  }

  lookup-refresh_all :
      (k : ℕ) (now : F) (nodes : Dict ℕ (NodeState F))
      → lookup k nodes ≡ none
      → lookup k (refresh_all ops config now nodes) ≡ none
  unfolding refresh_all
  lookup-refresh_all k now [] h = refl
  lookup-refresh_all k now ((j, node) ∷ nodes) h = elim (Bool-cases (j == k)) [
    | inl e ↦ absurd (ground arith)
    | inr e ↦ simp e (lookup-refresh_all k now nodes (ground arith))
  ]

  pub refresh_all-distinct :
      (now : F) (nodes : Dict ℕ (NodeState F))
      → HasDistinctKeys nodes
      → HasDistinctKeys (refresh_all ops config now nodes)
  unfolding refresh_all
  refresh_all-distinct now [] h = tt
  refresh_all-distinct now ((k, node) ∷ nodes) (new, h) =
      (lookup-refresh_all k now nodes new, refresh_all-distinct now nodes h)

  pub refresh_all-length :
      (now : F) (nodes : Dict ℕ (NodeState F))
      → length (refresh_all ops config now nodes) ≡ length nodes
  unfolding refresh_all
  refresh_all-length now [] = refl
  refresh_all-length now ((k, node) ∷ nodes) = omega (arith, refresh_all-length now nodes)

  count_status-own :
      (status : NodeStatus) (s : NodeRegistrySummary F)
      → ((count_status ops status s).online_count ≡ s.online_count + is_online status)
        × ((count_status ops status s).calibrating_count
            ≡ s.calibrating_count + is_calibrating status)
        × ((count_status ops status s).degraded_count ≡ s.degraded_count + is_degraded status)
        × ((count_status ops status s).offline_count ≡ s.offline_count + is_offline status)
  count_status-own online s = (omega arith, omega arith, omega arith, omega arith)
  count_status-own calibrating s = (omega arith, omega arith, omega arith, omega arith)
  count_status-own degraded s = (omega arith, omega arith, omega arith, omega arith)
  count_status-own offline s = (omega arith, omega arith, omega arith, omega arith)

  -- The loop of a summary counts under every status the nodes that have it.
  pub summarize-counts :
      (nodes : Dict ℕ (NodeState F)) (s : NodeRegistrySummary F)
      → ((summarize ops nodes s).online_count ≡ s.online_count + nodes_with is_online nodes)
        × ((summarize ops nodes s).calibrating_count
            ≡ s.calibrating_count + nodes_with is_calibrating nodes)
        × ((summarize ops nodes s).degraded_count ≡ s.degraded_count + nodes_with is_degraded nodes)
        × ((summarize ops nodes s).offline_count ≡ s.offline_count + nodes_with is_offline nodes)
  unfolding summarize
  summarize-counts [] s = (omega arith, omega arith, omega arith, omega arith)
  summarize-counts ((k, node) ∷ nodes) s =
      let added = record s {
        total_pps_evt = ops.plus s.total_pps_evt node.pps_evt;
        total_pps_stat = ops.plus s.total_pps_stat node.pps_stat;
      } in
      let (a, b, c, d) = summarize-counts nodes (count_status ops node.status added) in
      let (a1, b1, c1, d1) = count_status-own node.status added in
      (omega (arith, a, a1), omega (arith, b, b1), omega (arith, c, c1), omega (arith, d, d1))

  count_status-counted :
      (status : NodeStatus) (s : NodeRegistrySummary F)
      → (counted_nodes (count_status ops status s) ≡ counted_nodes s + 1)
        × ((count_status ops status s).total_nodes ≡ s.total_nodes)
  count_status-counted online s = (omega arith, refl)
  count_status-counted calibrating s = (omega arith, refl)
  count_status-counted degraded s = (omega arith, refl)
  count_status-counted offline s = (omega arith, refl)

  -- The loop of a summary counts every node once.
  pub summarize-total :
      (nodes : Dict ℕ (NodeState F)) (s : NodeRegistrySummary F)
      → (counted_nodes (summarize ops nodes s) ≡ counted_nodes s + length nodes)
        × ((summarize ops nodes s).total_nodes ≡ s.total_nodes)
  unfolding summarize
  summarize-total [] s = (omega arith, refl)
  summarize-total ((k, node) ∷ nodes) s =
      let added = record s {
        total_pps_evt = ops.plus s.total_pps_evt node.pps_evt;
        total_pps_stat = ops.plus s.total_pps_stat node.pps_stat;
      } in
      let (more, same) = count_status-counted node.status added in
      let (all, total) = summarize-total nodes (count_status ops node.status added) in
      (omega (arith, more, all), total ∙ same)

  module _ (one : pos 1 ≤ℤ config.max_runtime_events_per_node) where
    pub node_or-IsKept :
        (k : ℕ) (nodes : Dict ℕ (NodeState F))
        → AreKept config nodes
        → IsKept config k (node_or ops (lookup k nodes) k)
    node_or-IsKept k [] hs = record { own = refl; short = omega (arith, one) }
    node_or-IsKept k ((j, node) ∷ nodes) (h, hs) = elim (Bool-cases (j == k)) [
      | inl e ↦ let same : j ≡ k = ground arith in simp e (subst (λ i. IsKept config i node) same h)
      | inr e ↦ simp e (node_or-IsKept k nodes hs)
    ]

    pub refresh_all-AreKept :
        (now : F) (nodes : Dict ℕ (NodeState F))
        → AreKept config nodes
        → AreKept config (refresh_all ops config now nodes)
    unfolding refresh_all
    refresh_all-AreKept now [] hs = tt
    refresh_all-AreKept now ((k, node) ∷ nodes) (h, hs) =
        (refresh_node-IsKept ops config one k node now h, refresh_all-AreKept now nodes hs)
