-- ===== src/Registry/Calls.antt =====
-- The calls of a registry (core/registry/node_registry.py), and what each does to one node.
use control_ok_a_v.Base.{
  ℕ, ◌≡◌, refl, ap, sym, ◌∙◌, List, [], ◌∷◌, Option, none, some, if◌then◌else◌, ◌==◌, Bool-cases,
  inl, inr, arith,
}
use control_ok_a_v.Base.Dict.{Dict, lookup, nat_eq, lookup-insert}
use control_ok_a_v.Udp.Packet.{OkuaEvtPacket, OkuaStatPacket, decode_okua_ota_runtime}
use control_ok_a_v.Registry.Float.{FloatOps}
use control_ok_a_v.Registry.Models.{NodeRegistryConfig, NodeState, new_node}
use control_ok_a_v.Registry.Losses.{advance, loss_pct}
use control_ok_a_v.Registry.Node.{refresh_node}
use control_ok_a_v.Registry.Nodes.{
  NodeRegistry, node_or, get_or_create_node, put_node, resolve_ts, observe_evt, observe_stat,
  refresh_all, recompute_statuses, get_summary, clear,
}
use control_ok_a_v.Registry.Snapshots.{
  snapshot_of, get_node_snapshot, snapshots_of, get_all_node_snapshots,
}
use control_ok_a_v.Registry.Frames.{
  Core, core, refresh_node-core, evt_seen-core, stat_begun-core, stat_seen-core,
}

-- A call, with the time that is given and what the clock would say.
pub data Call (F : Type 0) : Type 0 where
  evt_observed : OkuaEvtPacket → Option F → F → Call F
  stat_observed : OkuaStatPacket → Option F → F → Call F
  snapshot_asked : ℕ → Option F → F → Call F
  snapshots_asked summary_asked recomputed : Option F → F → Call F
  cleared : Call F

module _ {F : Type 0} (ops : FloatOps F) where
  -- The registry that a call leaves.
  unfoldable pub play : Call F → NodeRegistry F → NodeRegistry F
  play (evt_observed packet received_at clock) r = observe_evt ops r packet received_at clock
  play (stat_observed packet received_at clock) r = (observe_stat ops r packet received_at clock).1
  play (snapshot_asked k now clock) r = (get_node_snapshot ops r k now clock).1
  play (snapshots_asked now clock) r = (get_all_node_snapshots ops r now clock).1
  play (summary_asked now clock) r = (get_summary ops r now clock).1
  play (recomputed now clock) r = recompute_statuses ops r now clock
  play cleared r = clear ops r

  -- What the counts and the age of node `k` depend on.
  abbrev pub view : ℕ → NodeRegistry F → Core F
  view k r = core (get_or_create_node ops r k)

  view-put_node :
      (k j : ℕ) (r : NodeRegistry F) (node : NodeState F)
      → view k (put_node ops r j node) ≡ (if j == k then core node else view k r)
  unfolding get_or_create_node
  view-put_node k j r node = elim (Bool-cases (j == k)) [
    | inl e ↦ rw (lookup-insert j k node r.nodes) (simp e refl)
    | inr e ↦ rw (lookup-insert j k node r.nodes) (simp e refl)
  ]

  view-refresh_all :
      (k : ℕ) (config : NodeRegistryConfig F) (now : F) (nodes : Dict ℕ (NodeState F))
      → core (node_or ops (lookup k (refresh_all ops config now nodes)) k)
        ≡ core (node_or ops (lookup k nodes) k)
  unfolding refresh_all
  view-refresh_all k config now [] = refl
  view-refresh_all k config now ((j, node) ∷ nodes) = elim (Bool-cases (j == k)) [
    | inl e ↦ simp e (refresh_node-core ops config node now)
    | inr e ↦ simp e (view-refresh_all k config now nodes)
  ]

  view-recompute_statuses :
      (k : ℕ) (r : NodeRegistry F) (now : Option F) (clock : F)
      → view k (recompute_statuses ops r now clock) ≡ view k r
  unfolding recompute_statuses get_or_create_node
  view-recompute_statuses k r now clock = view-refresh_all k r.config _ r.nodes

  view-snapshot_of :
      (k j : ℕ) (o : Option (NodeState F)) (r : NodeRegistry F) (now : F)
      → lookup j r.nodes ≡ o
      → view k (snapshot_of ops o r j now).1 ≡ view k r
  unfolding get_or_create_node
  view-snapshot_of k j none r now e = refl
  view-snapshot_of k j (some node) r now e = elim (Bool-cases (j == k)) [
    | inl f ↦
        let same : j ≡ k = ground arith in
        view-put_node k j r (refresh_node ops r.config node now)
        ∙ simp f (
            refresh_node-core ops r.config node now
            ∙ sym (ap (λ o. core (node_or ops o k)) (ap (λ i. lookup i r.nodes) (sym same) ∙ e)))
    | inr f ↦ view-put_node k j r (refresh_node ops r.config node now) ∙ simp f refl
  ]

  view-snapshots_of :
      (k : ℕ) (ids : List ℕ) (r : NodeRegistry F) (now : F)
      → view k (snapshots_of ops ids r now).1 ≡ view k r
  unfolding snapshots_of
  view-snapshots_of k [] r now = refl
  view-snapshots_of k (j ∷ ids) r now =
      view-snapshots_of k ids (snapshot_of ops (lookup j r.nodes) r j now).1 now
      ∙ view-snapshot_of k j (lookup j r.nodes) r now refl

  -- A packet of one stream, and then of the other.
  abbrev pub count_evt : ℕ → F → Core F → Core F
  count_evt seq now v = record v {
    last_seen = some now;
    evt_counts = advance seq v.evt_counts;
    evt_pct = loss_pct ops (advance seq v.evt_counts);
  }

  abbrev pub count_stat : ℕ → Core F → Core F
  count_stat seq v = record v {
    stat_counts = advance seq v.stat_counts;
    stat_pct = loss_pct ops (advance seq v.stat_counts);
  }

  -- What a call does to the view of node `k`: only packets of that node count, and a clear.
  abbrev pub after_call : ℕ → Call F → Core F → Core F
  after_call k (evt_observed packet received_at clock) v =
      if packet.header.node_id == k
      then count_evt packet.header.seq (resolve_ts ops received_at clock) v
      else v
  after_call k (stat_observed packet received_at clock) v =
      if packet.header.node_id == k
      then count_stat packet.header.seq
          (record v { last_seen = some (resolve_ts ops received_at clock) })
      else v
  after_call k cleared v = core (new_node ops k)
  after_call k _ v = v

  pub view-play :
      (k : ℕ) (c : Call F) (r : NodeRegistry F) → view k (play c r) ≡ after_call k c (view k r)
  unfolding play observe_evt observe_stat get_node_snapshot get_all_node_snapshots get_summary clear
      get_or_create_node decode_okua_ota_runtime
  view-play k (evt_observed packet received_at clock) r =
      elim (Bool-cases (packet.header.node_id == k)) [
        | inl e ↦
            let same : packet.header.node_id ≡ k = ground arith in
            view-put_node k packet.header.node_id r _
            ∙ simp e (
                evt_seen-core ops r.config packet _ _
                ∙ ap
                    (λ j. count_evt packet.header.seq (resolve_ts ops received_at clock) (view j r))
                    same)
        | inr e ↦ view-put_node k packet.header.node_id r _ ∙ simp e refl
      ]
  view-play k (stat_observed packet received_at clock) r =
      elim (Bool-cases (packet.header.node_id == k)) [
        | inl e ↦
            let same : packet.header.node_id ≡ k = ground arith in
            view-put_node k packet.header.node_id r _
            ∙ simp e (
                stat_seen-core ops r.config packet _ _ _
                ∙ ap (count_stat packet.header.seq) (stat_begun-core ops r.config packet _ _)
                ∙ ap
                    (λ j.
                      count_stat packet.header.seq
                        (record (view j r) { last_seen = some (resolve_ts ops received_at clock) }))
                    same)
        | inr e ↦ view-put_node k packet.header.node_id r _ ∙ simp e refl
      ]
  view-play k (snapshot_asked j now clock) r = view-snapshot_of k j (lookup j r.nodes) r _ refl
  view-play k (snapshots_asked now clock) r = view-snapshots_of k _ r _
  view-play k (summary_asked now clock) r = view-recompute_statuses k r now clock
  view-play k (recomputed now clock) r = view-recompute_statuses k r now clock
  view-play k cleared r = refl
