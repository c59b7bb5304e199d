-- ===== src/Registry/Invariant.antt =====
-- What holds of every registry (core/registry/node_registry.py): its keys, its events, its summary.
use control_ok_a_v.Base.{ℕ, ◌≡◌, List, [], ◌∷◌, Option, none, some, length, ok, arith}
use control_ok_a_v.Base.Int.{pos, ◌≤ℤ◌}
use control_ok_a_v.Base.Dict.{lookup, nat_eq}
use control_ok_a_v.Udp.Packet.{decode_okua_ota_runtime}
use control_ok_a_v.Registry.Float.{FloatOps}
use control_ok_a_v.Registry.Models.{NodeRegistryConfig, NodeState, post_init}
use control_ok_a_v.Registry.Nodes.{
  NodeRegistrySummary, NodeRegistry, init, resolve_ts, empty_summary, node_or, get_or_create_node,
  put_node, observe_evt, observe_stat, refresh_all, recompute_statuses, get_summary, clear,
}
use control_ok_a_v.Registry.Snapshots.{
  snapshot_of, get_node_snapshot, snapshots_of, get_all_node_snapshots,
}
use control_ok_a_v.Registry.Frames.{
  IsKept, refresh_node-IsKept, evt_seen-IsKept, stat_begun-IsKept, stat_seen-IsKept,
}
use control_ok_a_v.Registry.Calls.{
  Call, evt_observed, stat_observed, snapshot_asked, snapshots_asked, summary_asked, recomputed,
  cleared, play,
}
use control_ok_a_v.Registry.Silence.{play_each}
use control_ok_a_v.Registry.Keeping.{
  IsInOrder, nodes_with, is_online, is_calibrating, is_degraded, is_offline, summarize-counts,
  put_node-IsInOrder, refresh_all-distinct, refresh_all-length, summarize-total, node_or-IsKept,
  refresh_all-AreKept,
}

-- A registry in order, whose configuration leaves room for an event.
pub record IsSound {F : Type 0} (r : NodeRegistry F) : Type 0 where
  pub room : pos 1 ≤ℤ r.config.max_runtime_events_per_node
  pub ordered : IsInOrder r.config r.nodes

module _ {F : Type 0} (ops : FloatOps F) where
  put_node-IsSound :
      (k : ℕ) (node : NodeState F) (r : NodeRegistry F)
      → IsKept r.config k node
      → IsSound r
      → IsSound (put_node ops r k node)
  put_node-IsSound k node r h s = record {
    room = s.room;
    ordered = put_node-IsInOrder ops r.config k node r h s.ordered;
  }

  snapshot_of-IsSound :
      (o : Option (NodeState F)) (k : ℕ) (r : NodeRegistry F) (now : F)
      → IsKept r.config k (node_or ops o k)
      → IsSound r
      → IsSound (snapshot_of ops o r k now).1
  snapshot_of-IsSound none k r now h s = s
  snapshot_of-IsSound (some node) k r now h s =
      put_node-IsSound k _ r (refresh_node-IsKept ops r.config s.room k node now h) s

  stored-IsKept :
      (k : ℕ) (r : NodeRegistry F)
      → IsSound r
      → IsKept r.config k (node_or ops (lookup k r.nodes) k)
  stored-IsKept k r s = node_or-IsKept ops r.config s.room k r.nodes s.ordered.kept

  snapshots_of-IsSound :
      (ids : List ℕ) (r : NodeRegistry F) (now : F)
      → IsSound r
      → IsSound (snapshots_of ops ids r now).1
  unfolding snapshots_of
  snapshots_of-IsSound [] r now s = s
  snapshots_of-IsSound (k ∷ ids) r now s =
      snapshots_of-IsSound ids _ now
        (snapshot_of-IsSound (lookup k r.nodes) k r now (stored-IsKept k r s) s)

  recompute_statuses-IsSound :
      (r : NodeRegistry F) (now : Option F) (clock : F)
      → IsSound r
      → IsSound (recompute_statuses ops r now clock)
  unfolding recompute_statuses
  recompute_statuses-IsSound r now clock s = record {
    room = s.room;
    ordered = record {
      distinct = refresh_all-distinct ops r.config _ r.nodes s.ordered.distinct;
      kept = refresh_all-AreKept ops r.config s.room _ r.nodes s.ordered.kept;
    };
  }

  pub play-IsSound : (c : Call F) (r : NodeRegistry F) → IsSound r → IsSound (play ops c r)
  unfolding play observe_evt observe_stat get_node_snapshot get_all_node_snapshots get_summary clear
      get_or_create_node decode_okua_ota_runtime
  play-IsSound (evt_observed packet received_at clock) r s =
      let k = packet.header.node_id in
      put_node-IsSound k _ r
        (evt_seen-IsKept ops r.config s.room k packet _ _ (stored-IsKept k r s)) s
  play-IsSound (stat_observed packet received_at clock) r s =
      let k = packet.header.node_id in
      put_node-IsSound k _ r
        (stat_seen-IsKept ops r.config s.room k packet _ _ _
          (stat_begun-IsKept ops r.config s.room k packet _ _ (stored-IsKept k r s)))
        s
  play-IsSound (snapshot_asked k now clock) r s =
      snapshot_of-IsSound (lookup k r.nodes) k r _ (stored-IsKept k r s) s
  play-IsSound (snapshots_asked now clock) r s = snapshots_of-IsSound _ r _ s
  play-IsSound (summary_asked now clock) r s = recompute_statuses-IsSound r now clock s
  play-IsSound (recomputed now clock) r s = recompute_statuses-IsSound r now clock s
  play-IsSound cleared r s = record { room = s.room; ordered = record { distinct = tt; kept = tt } }

  play_each-IsSound_from :
      (calls : List (Call F)) (r : NodeRegistry F) → IsSound r → IsSound (play_each ops calls r)
  play_each-IsSound_from [] r s = s
  play_each-IsSound_from (c ∷ calls) r s =
      play_each-IsSound_from calls (play ops c r) (play-IsSound c r s)

  post_init-room :
      (config c : NodeRegistryConfig F)
      → post_init ops config ≡ ok c
      → pos 1 ≤ℤ c.max_runtime_events_per_node
  unfolding post_init
  post_init-room config c h = ground arith

  -- What a summary counts under every status is the number of nodes of the registry with that status,
  -- and in total it is the number of its nodes.
  abbrev pub CountsAll : NodeRegistrySummary F × NodeRegistry F → Type 0
  CountsAll (s, r) =
      (s.total_nodes ≡ length r.nodes)
      × (s.online_count ≡ nodes_with is_online r.nodes)
      × (s.calibrating_count ≡ nodes_with is_calibrating r.nodes)
      × (s.degraded_count ≡ nodes_with is_degraded r.nodes)
      × (s.offline_count ≡ nodes_with is_offline r.nodes)

  -- After any calls on a new registry whose configuration is accepted, each node stands once, under its
  -- own number, with no more events than configured. A summary that is asked for then gives for each
  -- status the number of nodes that the refreshed registry has with it, and in total the number of
  -- its nodes, which is as many as before.
  pub play_each-IsSound :
      (config c : NodeRegistryConfig F) (calls : List (Call F)) (now : Option F) (clock : F)
      → post_init ops config ≡ ok c
      → IsSound (play_each ops calls (init ops c))
        × CountsAll (get_summary ops (play_each ops calls (init ops c)) now clock)
        × (length (get_summary ops (play_each ops calls (init ops c)) now clock).1.nodes
            ≡ length (play_each ops calls (init ops c)).nodes)
  unfolding get_summary recompute_statuses
  play_each-IsSound config c calls now clock h =
      let last = play_each ops calls (init ops c) in
      let fresh = refresh_all ops last.config (resolve_ts ops now clock) last.nodes in
      let (all, total) = summarize-total ops c fresh (empty_summary ops (length fresh)) in
      let (on, cal, deg, off) = summarize-counts ops c fresh (empty_summary ops (length fresh)) in
      (
        play_each-IsSound_from calls (init ops c) (record {
          room = post_init-room config c h;
          ordered = record { distinct = tt; kept = tt };
        }),
        (total, omega (arith, on), omega (arith, cal), omega (arith, deg), omega (arith, off)),
        refresh_all-length ops last.config (resolve_ts ops now clock) last.nodes,
      )
