-- ===== src/Registry/Nodes.antt =====
-- `NodeRegistry` (core/registry/node_registry.py). A method takes what the clock would say.
use control_ok_a_v.Base.{ℕ, ◌+◌, [], ◌∷◌, Option, none, some, length, Result, ok, err}
use control_ok_a_v.Base.Int.{pos}
use control_ok_a_v.Base.Dict.{Dict, lookup, insert, nat_eq}
use control_ok_a_v.Udp.Packet.{
  OkuaEvtPacket, OkuaStatPacket, OkuaOtaRuntimeInfo, RsvError, decode_okua_ota_runtime,
}
use control_ok_a_v.Registry.Float.{FloatOps}
use control_ok_a_v.Registry.Models.{
  NodeStatus, online, calibrating, degraded, offline, NodeRegistryConfig, NodeState, new_node,
}
use control_ok_a_v.Registry.Node.{evt_seen, stat_begun, stat_seen, refresh_node}

pub record NodeRegistry (F : Type 0) : Type 0 where
  pub config : NodeRegistryConfig F
  pub nodes : Dict ℕ (NodeState F)

pub record NodeRegistrySummary (F : Type 0) : Type 0 where
  pub total_nodes : ℕ
  pub online_count : ℕ
  pub degraded_count : ℕ
  pub offline_count : ℕ
  pub total_pps_evt : F
  pub total_pps_stat : F
  pub calibrating_count : ℕ

module _ {F : Type 0} (ops : FloatOps F) where
  abbrev pub init : NodeRegistryConfig F → NodeRegistry F
  init config = record { config = config; nodes = [] }

  abbrev pub resolve_ts : Option F → F → F
  resolve_ts none clock = clock
  resolve_ts (some supplied) clock = supplied

  abbrev pub node_or : Option (NodeState F) → ℕ → NodeState F
  node_or none node_id = new_node ops node_id
  node_or (some node) node_id = node

  unfoldable pub get_or_create_node : NodeRegistry F → ℕ → NodeState F
  get_or_create_node registry node_id = node_or (lookup node_id registry.nodes) node_id

  -- A node that is kept under its number.
  abbrev pub put_node : NodeRegistry F → ℕ → NodeState F → NodeRegistry F
  put_node registry node_id node = record registry { nodes = insert node_id node registry.nodes }

  unfoldable pub observe_evt : NodeRegistry F → OkuaEvtPacket → Option F → F → NodeRegistry F
  unfolding get_or_create_node
  observe_evt registry packet received_at clock =
      let node_id = packet.header.node_id in
      put_node registry node_id (
        evt_seen ops registry.config packet (resolve_ts received_at clock)
          (get_or_create_node registry node_id))

  -- From the reading of the reserved bytes on.
  abbrev pub observe_ota :
      Result RsvError OkuaOtaRuntimeInfo
      → NodeRegistry F
      → OkuaStatPacket
      → F
      → NodeState F
      → Result RsvError (Unit {0}) × NodeRegistry F
  observe_ota (err e) registry packet now node =
      (err e, put_node registry packet.header.node_id node)
  observe_ota (ok ota_runtime) registry packet now node = (
    ok tt,
    put_node registry packet.header.node_id
        (stat_seen ops registry.config packet ota_runtime now node),
  )

  unfoldable pub observe_stat :
      NodeRegistry F → OkuaStatPacket → Option F → F → Result RsvError (Unit {0}) × NodeRegistry F
  unfolding get_or_create_node decode_okua_ota_runtime
  observe_stat registry packet received_at clock =
      let now = resolve_ts received_at clock in
      observe_ota
        (decode_okua_ota_runtime (pos packet.rsv.0 ∷ (pos packet.rsv.1 ∷ (pos packet.rsv.2 ∷ []))))
        registry packet now
        (stat_begun ops registry.config packet now
          (get_or_create_node registry packet.header.node_id))

  -- Every node, at one time.
  unfoldable pub refresh_all :
      NodeRegistryConfig F → F → Dict ℕ (NodeState F) → Dict ℕ (NodeState F)
  refresh_all config now [] = []
  refresh_all config now ((k, node) ∷ nodes) =
      (k, refresh_node ops config node now) ∷ refresh_all config now nodes

  unfoldable pub recompute_statuses : NodeRegistry F → Option F → F → NodeRegistry F
  recompute_statuses registry now clock = record registry {
    nodes = refresh_all registry.config (resolve_ts now clock) registry.nodes;
  }

  -- The locals of `get_summary` at its start.
  abbrev pub empty_summary : ℕ → NodeRegistrySummary F
  empty_summary total_nodes = record {
    total_nodes = total_nodes;
    online_count = 0;
    degraded_count = 0;
    offline_count = 0;
    total_pps_evt = ops.zero;
    total_pps_stat = ops.zero;
    calibrating_count = 0;
  }

  abbrev pub count_status : NodeStatus → NodeRegistrySummary F → NodeRegistrySummary F
  count_status online s = record s { online_count = s.online_count + 1 }
  count_status calibrating s = record s { calibrating_count = s.calibrating_count + 1 }
  count_status degraded s = record s { degraded_count = s.degraded_count + 1 }
  count_status offline s = record s { offline_count = s.offline_count + 1 }

  -- The loop of `get_summary`, over nodes that are refreshed.
  unfoldable pub summarize : Dict ℕ (NodeState F) → NodeRegistrySummary F → NodeRegistrySummary F
  summarize [] s = s
  summarize ((k, node) ∷ nodes) s = summarize nodes (
      count_status node.status (record s {
        total_pps_evt = ops.plus s.total_pps_evt node.pps_evt;
        total_pps_stat = ops.plus s.total_pps_stat node.pps_stat;
      }))

  unfoldable pub get_summary :
      NodeRegistry F → Option F → F → NodeRegistrySummary F × NodeRegistry F
  unfolding recompute_statuses
  get_summary registry now clock =
      let refreshed = recompute_statuses registry now clock in
      (summarize refreshed.nodes (empty_summary (length refreshed.nodes)), refreshed)

  unfoldable pub clear : NodeRegistry F → NodeRegistry F
  clear registry = record registry { nodes = [] }
