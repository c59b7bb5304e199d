-- ===== src/Ota/Campaign/Health.antt =====
-- When the health gate of a wave passes (services/ota_campaign_service.py).
use control_ok_a_v.Base.{
  ◌≤◌, ◌≡◌, ◌↔◌, refl, ap, Bool, false, not, List, [], ◌∷◌, arith, All, length,
}
use control_ok_a_v.Ota.Campaign.Nodes.{Texts}
use control_ok_a_v.Ota.Campaign.Gate.{
  confirmed, gate_passed, OtaNodeDeployStatus, is_confirmed, any_status, has_runtime, runtime_of,
  is_bad, is_waiting, gate_of, evaluate_wave_gate,
}
use text.Mathlib.Text.{◌==◌ as text_eq}
use text.Mathlib.TextEquality.{eq_iff}

any_status_iff :
    (p : OtaNodeDeployStatus → Bool) (ss : List OtaNodeDeployStatus)
    → (any_status p ss ≡ false) ↔ All (λ s. p s ≡ false) ss
any_status_iff p [] = (λ e. tt, λ e. refl)
any_status_iff p (s ∷ ss) =
    let rest = any_status_iff p ss in
    (
      λ e. (ground arith, rest.0 (ground arith)),
      λ h. let others = rest.1 h.1 in ground (arith, h.0),
    )

module _ (texts : Texts) where
  -- The node has the update confirmed, without an error, and is neither calibrating nor offline nor
  -- degraded.
  pub record IsHealthy (s : OtaNodeDeployStatus) : Type 0 where
    pub is_updated : s.phase ≡ confirmed
    pub has_no_error : s.ota_error_key ≡ "none"
    pub not_calibrating : text_eq (runtime_of texts s) "calibrating" ≡ false
    pub not_offline : has_runtime texts "offline" s ≡ false
    pub not_degraded : has_runtime texts "degraded" s ≡ false

  gate_of_iff :
      (ss : List OtaNodeDeployStatus)
      → (gate_of texts ss ≡ gate_passed) ↔ (
          (any_status (is_bad texts) ss ≡ false)
          × (any_status (is_waiting texts) ss ≡ false)
          × (any_status (has_runtime texts "offline") ss ≡ false)
          × (any_status (has_runtime texts "degraded") ss ≡ false)
          × (any_status (λ s. not (is_confirmed s.phase)) ss ≡ false))
  unfolding gate_of
  gate_of_iff ss = ground arith

  gate_passed-IsHealthy :
      (s : OtaNodeDeployStatus)
      → is_bad texts s ≡ false
      → is_waiting texts s ≡ false
      → has_runtime texts "offline" s ≡ false
      → has_runtime texts "degraded" s ≡ false
      → not (is_confirmed s.phase) ≡ false
      → IsHealthy s
  gate_passed-IsHealthy s b w o d c = record {
    is_updated = ground arith;
    has_no_error = (eq_iff s.ota_error_key "none").0 (ground arith);
    not_calibrating = ground arith;
    not_offline = o;
    not_degraded = d;
  }

  all-IsHealthy :
      (ss : List OtaNodeDeployStatus)
      → All (λ s. is_bad texts s ≡ false) ss
      → All (λ s. is_waiting texts s ≡ false) ss
      → All (λ s. has_runtime texts "offline" s ≡ false) ss
      → All (λ s. has_runtime texts "degraded" s ≡ false) ss
      → All (λ s. not (is_confirmed s.phase) ≡ false) ss
      → All IsHealthy ss
  all-IsHealthy [] b w o d c = tt
  all-IsHealthy (s ∷ ss) b w o d c =
      (gate_passed-IsHealthy s b.0 w.0 o.0 d.0 c.0, all-IsHealthy ss b.1 w.1 o.1 d.1 c.1)

  -- The tests that each fail of a healthy node.
  All-healthy :
      (p : OtaNodeDeployStatus → Bool) (ss : List OtaNodeDeployStatus)
      → ((s : OtaNodeDeployStatus) → IsHealthy s → p s ≡ false)
      → All IsHealthy ss
      → any_status p ss ≡ false
  All-healthy p [] f h = refl
  All-healthy p (s ∷ ss) f h = ground (arith, f s h.0, All-healthy p ss f h.1)

  healthy_not_bad : (s : OtaNodeDeployStatus) → IsHealthy s → is_bad texts s ≡ false
  healthy_not_bad s h = ground (arith, eq_iff s.ota_error_key "none", h.is_updated, h.has_no_error)

  healthy_not_waiting : (s : OtaNodeDeployStatus) → IsHealthy s → is_waiting texts s ≡ false
  healthy_not_waiting s h = ground (arith, h.is_updated, h.not_calibrating)

  -- The gate of a wave passes just if its deploy tells of some nodes and all of them are healthy.
  pub evaluate_wave_gate_iff :
      (ss : List OtaNodeDeployStatus)
      → (evaluate_wave_gate texts ss ≡ gate_passed) ↔ ((1 ≤ length ss) × All IsHealthy ss)
  unfolding evaluate_wave_gate
  evaluate_wave_gate_iff [] = (λ e. absurd (cc e), λ h. absurd (omega arith))
  evaluate_wave_gate_iff (s ∷ ss) =
      let all = s ∷ ss in
      (
        λ e.
            let (b, w, o, d, c) = (gate_of_iff all).0 e in
            (
              omega arith,
              all-IsHealthy all ((any_status_iff (is_bad texts) all).0 b)
                  ((any_status_iff (is_waiting texts) all).0 w)
                  ((any_status_iff (has_runtime texts "offline") all).0 o)
                  ((any_status_iff (has_runtime texts "degraded") all).0 d)
                  ((any_status_iff (λ t. not (is_confirmed t.phase)) all).0 c),
            ),
        λ h. (gate_of_iff all).1 (
          All-healthy (is_bad texts) all healthy_not_bad h.1,
          All-healthy (is_waiting texts) all healthy_not_waiting h.1,
          All-healthy (has_runtime texts "offline") all (λ t k. k.not_offline) h.1,
          All-healthy (has_runtime texts "degraded") all (λ t k. k.not_degraded) h.1,
          All-healthy (λ t. not (is_confirmed t.phase)) all
              (λ t k. ap (λ q. not (is_confirmed q)) k.is_updated) h.1,
        ),
      )
