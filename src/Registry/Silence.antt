-- ===== src/Registry/Silence.antt =====
-- Nodes that fall silent (core/registry/node_status_policy.py and node_registry.py).
use Prim.Derive.{subst}
use control_ok_a_v.Base.{
  ℕ, ◌≡◌, ◌≢◌, ◌↔◌, refl, ap, sym, ◌∙◌, Bool, true, not, ◌||◌, List, [], ◌∷◌, All, Option, none,
  some, Bool-cases, Option-cases, inl, inr, arith,
}
use control_ok_a_v.Base.Dict.{lookup, nat_eq}
use control_ok_a_v.Registry.Float.{FloatOps, age, age_since}
use control_ok_a_v.Registry.Models.{offline, NodeRegistryConfig, NodeState}
use control_ok_a_v.Registry.Policy.{
  NodeStatusInputs, NodeStatusEvaluation, is_recent_reboot, is_evt_only_degraded, evaluate_traffic,
  evaluate_seen, evaluate_node_status, is_some,
}
use control_ok_a_v.Registry.Events.{same_status}
use control_ok_a_v.Registry.Node.{
  apply_evaluation, append_status_transition_event, append_event, apply_status_evaluation,
  refresh_node,
}
use control_ok_a_v.Udp.Packet.{decode_okua_ota_runtime}
use control_ok_a_v.Registry.Nodes.{
  NodeRegistry, node_or, get_or_create_node, observe_evt, observe_stat, recompute_statuses,
  get_summary, clear,
}
use control_ok_a_v.Registry.Snapshots.{
  NodeSnapshot, to_snapshot, snapshot_of, get_node_snapshot, snapshots_of, get_all_node_snapshots,
}
use control_ok_a_v.Registry.Frames.{Core}
use control_ok_a_v.Registry.Calls.{
  Call, evt_observed, stat_observed, snapshot_asked, snapshots_asked, summary_asked, recomputed,
  cleared, play, view, after_call, view-play,
}

module _ {F : Type 0} (ops : FloatOps F) where
  evaluate_traffic-ne :
      (inputs : NodeStatusInputs F) (config : NodeRegistryConfig F) (age_s : F)
      (stat_age : Option F)
      → (evaluate_traffic ops inputs config age_s stat_age).status ≢ offline
  unfolding evaluate_traffic is_evt_only_degraded
  evaluate_traffic-ne inputs config age_s stat_age h = ground arith

  evaluate_seen-offline_iff :
      (inputs : NodeStatusInputs F) (config : NodeRegistryConfig F) (now age_s : F)
      (stat_age : Option F) (reboot : Bool)
      → ((evaluate_seen ops inputs config now age_s stat_age reboot).status ≡ offline)
        ↔ (ops.at_most config.t_red_s age_s ≡ true)
  unfolding evaluate_seen
  evaluate_seen-offline_iff inputs config now age_s stat_age reboot =
      ground (arith, evaluate_traffic-ne inputs config age_s stat_age)

  apply_evaluation-status :
      (config : NodeRegistryConfig F) (node : NodeState F) (e : NodeStatusEvaluation F) (now : F)
      → (apply_evaluation ops config node e now).status ≡ e.status
  unfolding apply_evaluation append_status_transition_event append_event
  apply_evaluation-status config node e now =
      elim (Bool-cases
        (not (is_some node.last_status_change_pc_ts) || not (same_status node.status e.status))) [
          | inl c ↦ simp c refl
          | inr c ↦ simp c refl
        ]

  evaluate_node_status-offline_iff :
      (inputs : NodeStatusInputs F) (config : NodeRegistryConfig F) (t now : F)
      → inputs.last_seen_pc_ts ≡ some t
      → ((evaluate_node_status ops inputs config now).status ≡ offline)
        ↔ (ops.at_most config.t_red_s (age ops now t) ≡ true)
  unfolding evaluate_node_status
  evaluate_node_status-offline_iff inputs config t now e = rw e (
      evaluate_seen-offline_iff inputs config now (age ops now t)
        (age_since ops inputs.last_stat_pc_ts now)
        (is_recent_reboot ops inputs config (age ops now t) now))

  refresh_node-offline_iff :
      (config : NodeRegistryConfig F) (node : NodeState F) (t now : F)
      → node.last_seen_pc_ts ≡ some t
      → ((refresh_node ops config node now).status ≡ offline)
        ↔ (ops.at_most config.t_red_s (age ops now t) ≡ true)
  unfolding refresh_node apply_status_evaluation
  refresh_node-offline_iff config node t now e =
      rw (apply_evaluation-status config _ _ now)
        (evaluate_node_status-offline_iff _ config t now e)

  -- A call that neither brings a packet of node `k` nor clears the registry.
  abbrev pub IsQuiet : ℕ → Call F → Type 0
  IsQuiet k (evt_observed packet received_at clock) = packet.header.node_id ≢ k
  IsQuiet k (stat_observed packet received_at clock) = packet.header.node_id ≢ k
  IsQuiet k cleared = ⊥
  IsQuiet k _ = Unit

  after_call-quiet : (k : ℕ) (c : Call F) (v : Core F) → IsQuiet k c → after_call ops k c v ≡ v
  after_call-quiet k (evt_observed packet received_at clock) v q = ground arith
  after_call-quiet k (stat_observed packet received_at clock) v q = ground arith
  after_call-quiet k (snapshot_asked j now clock) v q = refl
  after_call-quiet k (snapshots_asked now clock) v q = refl
  after_call-quiet k (summary_asked now clock) v q = refl
  after_call-quiet k (recomputed now clock) v q = refl
  after_call-quiet k cleared v q = absurd q

  snapshot_of-config :
      (o : Option (NodeState F)) (r : NodeRegistry F) (k : ℕ) (now : F)
      → (snapshot_of ops o r k now).1.config ≡ r.config
  snapshot_of-config none r k now = refl
  snapshot_of-config (some node) r k now = refl

  snapshots_of-config :
      (ids : List ℕ) (r : NodeRegistry F) (now : F)
      → (snapshots_of ops ids r now).1.config ≡ r.config
  unfolding snapshots_of
  snapshots_of-config [] r now = refl
  snapshots_of-config (k ∷ ids) r now =
      snapshots_of-config ids (snapshot_of ops (lookup k r.nodes) r k now).1 now
      ∙ snapshot_of-config (lookup k r.nodes) r k now

  pub play-config : (c : Call F) (r : NodeRegistry F) → (play ops c r).config ≡ r.config
  unfolding play observe_evt observe_stat get_node_snapshot get_all_node_snapshots get_summary
      recompute_statuses clear decode_okua_ota_runtime
  play-config (evt_observed packet received_at clock) r = refl
  play-config (stat_observed packet received_at clock) r = refl
  play-config (snapshot_asked k now clock) r = snapshot_of-config (lookup k r.nodes) r k _
  play-config (snapshots_asked now clock) r = snapshots_of-config _ r _
  play-config (summary_asked now clock) r = refl
  play-config (recomputed now clock) r = refl
  play-config cleared r = refl

  -- The calls in turn.
  abbrev pub play_each : List (Call F) → NodeRegistry F → NodeRegistry F
  play_each [] r = r
  play_each (c ∷ calls) r = play_each calls (play ops c r)

  play_each-quiet :
      (k : ℕ) (calls : List (Call F)) (r : NodeRegistry F)
      → All (IsQuiet k) calls
      → (view ops k (play_each calls r) ≡ view ops k r) × ((play_each calls r).config ≡ r.config)
  play_each-quiet k [] r h = (refl, refl)
  play_each-quiet k (c ∷ calls) r (q, h) =
      let (same, config) = play_each-quiet k calls (play ops c r) h in
      (same ∙ view-play ops k c r ∙ after_call-quiet k c (view ops k r) q, config ∙ play-config c r)

  none-ne : {a : F} → none ≡ some a → ⊥
  none-ne h = cc

  known :
      (k : ℕ) (t : F) (r : NodeRegistry F)
      → (view ops k r).last_seen ≡ some t
      → (node : NodeState F) × (lookup k r.nodes ≡ some node) × (node.last_seen_pc_ts ≡ some t)
  unfolding get_or_create_node
  known k t r seen = elim (Option-cases (lookup k r.nodes)) [
    | inl e ↦ absurd (none-ne (sym (ap (λ o. (node_or ops o k).last_seen_pc_ts) e) ∙ seen))
    | inr (node, e) ↦ (node, e, sym (ap (λ o. (node_or ops o k).last_seen_pc_ts) e) ∙ seen)
  ]

  -- Let node `k` be in the registry, last seen at `t`, and let calls follow that neither bring a packet
  -- of it nor clear the registry. The snapshot that is asked for then at the time `now` is there, and
  -- says offline just if the age of `t`, `max(0.0, now - t)`, is at least `t_red_s`.
  pub silence_is_offline :
      (k : ℕ) (t now clock : F) (calls : List (Call F)) (r : NodeRegistry F) (node : NodeState F)
      → lookup k r.nodes ≡ some node
      → node.last_seen_pc_ts ≡ some t
      → All (IsQuiet k) calls
      → (s : NodeSnapshot F) × ((get_node_snapshot ops (play_each calls r) k (some now) clock).0
          ≡ some s)
        × ((s.status ≡ offline) ↔ (ops.at_most r.config.t_red_s (age ops now t) ≡ true))
  unfolding get_node_snapshot to_snapshot get_or_create_node
  silence_is_offline k t now clock calls r node there seen quiet =
      let last = play_each calls r in
      let (same, config) = play_each-quiet k calls r quiet in
      let before : (view ops k r).last_seen ≡ some t =
        ap (λ o. (node_or ops o k).last_seen_pc_ts) there ∙ seen in
      let (n, is, at) = known k t last (ap (λ v. v.last_seen) same ∙ before) in
      (
        to_snapshot ops last.config (refresh_node ops last.config n now) now,
        ap (λ o. (snapshot_of ops o last k now).0) is,
        subst
            (λ c.
              ((refresh_node ops last.config n now).status ≡ offline)
              ↔ (ops.at_most c.t_red_s (age ops now t) ≡ true))
            config (refresh_node-offline_iff last.config n t now at),
      )
