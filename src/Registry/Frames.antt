-- ===== src/Registry/Frames.antt =====
-- Which fields of a node the steps of the registry touch.
use control_ok_a_v.Base.{
  ℕ, ◌≡◌, refl, not, ◌||◌, List, [], ◌∷◌, Option, some, length, length-append, Bool-cases, inl, inr,
  arith,
}
use control_ok_a_v.Base.Int.{ℤ, pos, ◌≤ℤ◌}
use control_ok_a_v.Udp.Packet.{OkuaEvtPacket, OkuaStatPacket, OkuaOtaRuntimeInfo}
use control_ok_a_v.Registry.Float.{FloatOps}
use control_ok_a_v.Registry.Models.{NodeRegistryConfig, NodeState, NodeRuntimeEvent}
use control_ok_a_v.Registry.Policy.{NodeStatusEvaluation, is_some}
use control_ok_a_v.Registry.Losses.{
  SeqLoss, evt_stream, stat_stream, advance, seq_loss, loss_pct, update_seq_loss,
}
use control_ok_a_v.Registry.Events.{
  append_bounded, same_status, detects_reboot, resolve_boot_marker,
}
use control_ok_a_v.Registry.Node.{
  append_event, append_status_transition_event, apply_evaluation, apply_status_evaluation,
  refresh_node, update_reboot_tracking, evt_seen, stat_begun, stat_seen,
}

-- A deque that has at most its greatest length keeps to it.
append_bounded-length :
    {A : Type 0} (maxlen : ℤ) (xs : List A) (x : A)
    → pos 1 ≤ℤ maxlen
    → pos (length xs) ≤ℤ maxlen
    → pos (length (append_bounded maxlen xs x)) ≤ℤ maxlen
unfolding append_bounded
append_bounded-length maxlen [] x one le = ground arith
append_bounded-length maxlen (y ∷ xs) x one le = ground (arith, length-append xs (x ∷ []))

-- What the counts and the age of a node depend on.
pub record Core (F : Type 0) : Type 0 where
  pub node_id : ℕ
  pub last_seen : Option F
  pub evt_counts : SeqLoss
  pub evt_pct : F
  pub stat_counts : SeqLoss
  pub stat_pct : F

module _ {F : Type 0} where
  abbrev pub core : NodeState F → Core F
  core node = record {
    node_id = node.node_id;
    last_seen = node.last_seen_pc_ts;
    evt_counts = seq_loss evt_stream node;
    evt_pct = node.loss_evt_pct;
    stat_counts = seq_loss stat_stream node;
    stat_pct = node.loss_stat_pct;
  }

-- How a node stands to what is kept: its own number, and no more events than configured.
pub record IsKept {F : Type 0} (config : NodeRegistryConfig F) (k : ℕ) (node : NodeState F)
    : Type 0 where
  pub own : node.node_id ≡ k
  pub short : pos (length node.recent_events) ≤ℤ config.max_runtime_events_per_node

module _ {F : Type 0} (ops : FloatOps F) (config : NodeRegistryConfig F) where
  apply_evaluation-core :
      (node : NodeState F) (e : NodeStatusEvaluation F) (now : F)
      → core (apply_evaluation ops config node e now) ≡ core node
  unfolding apply_evaluation append_status_transition_event append_event
  apply_evaluation-core node e now =
      elim (Bool-cases
        (not (is_some node.last_status_change_pc_ts) || not (same_status node.status e.status))) [
          | inl c ↦ simp c refl
          | inr c ↦ simp c refl
        ]

  pub refresh_node-core :
      (node : NodeState F) (now : F) → core (refresh_node ops config node now) ≡ core node
  unfolding refresh_node apply_status_evaluation
  refresh_node-core node now = apply_evaluation-core _ _ now

  pub evt_seen-core :
      (packet : OkuaEvtPacket) (now : F) (node : NodeState F)
      → core (evt_seen ops config packet now node) ≡ record (core node) {
        last_seen = some now;
        evt_counts = advance packet.header.seq (seq_loss evt_stream node);
        evt_pct = loss_pct ops (advance packet.header.seq (seq_loss evt_stream node));
      }
  unfolding evt_seen apply_status_evaluation update_seq_loss
  evt_seen-core packet now node = apply_evaluation-core _ _ now

  pub stat_begun-core :
      (packet : OkuaStatPacket) (now : F) (node : NodeState F)
      → core (stat_begun ops config packet now node) ≡ record (core node) { last_seen = some now }
  unfolding stat_begun update_reboot_tracking append_event
  stat_begun-core packet now node =
      elim (Bool-cases (
        detects_reboot node.last_uptime_s packet.uptime_s node.reset_reason packet.reset_reason
          node.last_boot_marker (resolve_boot_marker (some packet.state_flags))
          config.calibrating_uptime_s)) [ inl c ↦ simp c refl | inr c ↦ simp c refl ]

  pub stat_seen-core :
      (packet : OkuaStatPacket) (info : OkuaOtaRuntimeInfo) (now : F) (node : NodeState F)
      → core (stat_seen ops config packet info now node) ≡ record (core node) {
        stat_counts = advance packet.header.seq (seq_loss stat_stream node);
        stat_pct = loss_pct ops (advance packet.header.seq (seq_loss stat_stream node));
      }
  unfolding stat_seen apply_status_evaluation update_seq_loss
  stat_seen-core packet info now node = apply_evaluation-core _ _ now

  module _ (one : pos 1 ≤ℤ config.max_runtime_events_per_node) where
    append_event-IsKept :
        (k : ℕ) (node : NodeState F) (e : NodeRuntimeEvent F)
        → IsKept config k node
        → IsKept config k (append_event ops config node e)
    unfolding append_event
    append_event-IsKept k node e h = record {
      own = h.own;
      short = append_bounded-length _ node.recent_events e one h.short;
    }

    apply_evaluation-IsKept :
        (k : ℕ) (node : NodeState F) (e : NodeStatusEvaluation F) (now : F)
        → IsKept config k node
        → IsKept config k (apply_evaluation ops config node e now)
    unfolding apply_evaluation append_status_transition_event
    apply_evaluation-IsKept k node e now h =
        elim (Bool-cases
          (not (is_some node.last_status_change_pc_ts) || not (same_status node.status e.status))) [
            | inl c ↦ simp c (append_event-IsKept k _ _ (record { own = h.own; short = h.short }))
            | inr c ↦ simp c (record { own = h.own; short = h.short })
          ]

    pub refresh_node-IsKept :
        (k : ℕ) (node : NodeState F) (now : F)
        → IsKept config k node
        → IsKept config k (refresh_node ops config node now)
    unfolding refresh_node apply_status_evaluation
    refresh_node-IsKept k node now h =
        apply_evaluation-IsKept k _ _ now (record { own = h.own; short = h.short })

    pub evt_seen-IsKept :
        (k : ℕ) (packet : OkuaEvtPacket) (now : F) (node : NodeState F)
        → IsKept config k node
        → IsKept config k (evt_seen ops config packet now node)
    unfolding evt_seen apply_status_evaluation update_seq_loss
    evt_seen-IsKept k packet now node h =
        apply_evaluation-IsKept k _ _ now (record { own = h.own; short = h.short })

    pub stat_begun-IsKept :
        (k : ℕ) (packet : OkuaStatPacket) (now : F) (node : NodeState F)
        → IsKept config k node
        → IsKept config k (stat_begun ops config packet now node)
    unfolding stat_begun update_reboot_tracking append_event
    stat_begun-IsKept k packet now node h =
        elim (Bool-cases (
          detects_reboot node.last_uptime_s packet.uptime_s node.reset_reason packet.reset_reason
            node.last_boot_marker (resolve_boot_marker (some packet.state_flags))
            config.calibrating_uptime_s)) [
              | inl c ↦ simp c (record {
                own = h.own;
                short = append_bounded-length _ node.recent_events _ one h.short;
              })
              | inr c ↦ simp c (record { own = h.own; short = h.short })
            ]

    pub stat_seen-IsKept :
        (k : ℕ) (packet : OkuaStatPacket) (info : OkuaOtaRuntimeInfo) (now : F) (node : NodeState F)
        → IsKept config k node
        → IsKept config k (stat_seen ops config packet info now node)
    unfolding stat_seen apply_status_evaluation update_seq_loss
    stat_seen-IsKept k packet info now node h =
        apply_evaluation-IsKept k _ _ now (record { own = h.own; short = h.short })
