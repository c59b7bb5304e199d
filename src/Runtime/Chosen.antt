-- ===== src/Runtime/Chosen.antt =====
-- Of two statuses of a node the one of the newer command stays (core/control_plane/runtime.py).
use control_ok_a_v.Base.{
  ℕ, ◌+◌, ◌%◌, ◌≤◌, ◌<◌, ◌≡◌, ◌⊎◌, refl, ap, ◌∙◌, Bool, true, false, ◌==◌, Option, none, some,
  String, ltb, if◌then◌else◌, Bool-cases, inl, inr, arith,
}
use control_ok_a_v.Base.Dict.{nat_eq}
use control_ok_a_v.Registry.Tracks.{delta_ahead}
use control_ok_a_v.Runtime.Choice.{
  ControlPlaneNodeStatusSnapshot, is_cmd_seq_newer, node_status_completeness_score, select_by_time,
  select_by_score, select_by_seq, select_effective_node_status,
}

-- The greatest number of a command so far.
abbrev pub newest : ℕ → Option ℕ → ℕ
newest q none = q
newest q (some h) = if ltb h q then q else h

-- A number less than 2^15 after the newest, or at most 2^15 before it.
abbrev pub IsNear : ℕ → Option ℕ → Type 0
IsNear q none = Unit
IsNear q (some h) = (q < h + 0x8000) × (h ≤ q + 0x8000)

is_cmd_seq_newer-lt :
    (q h : ℕ) → h < q → q < h + 0x8000 → is_cmd_seq_newer (q % 0x1_0000) (h % 0x1_0000) ≡ true
unfolding is_cmd_seq_newer
is_cmd_seq_newer-lt q h lt near = ground (arith, delta_ahead q h)

is_cmd_seq_newer-ge :
    (q h : ℕ) → q ≤ h → h ≤ q + 0x8000 → is_cmd_seq_newer (q % 0x1_0000) (h % 0x1_0000) ≡ false
unfolding is_cmd_seq_newer
is_cmd_seq_newer-ge q h le near = ground arith

module _ (stripped : String → Option String) (at_most : String → String → Bool) where
  select_by_time-either :
      (a b : Option String) (x y : ControlPlaneNodeStatusSnapshot)
      → (select_by_time stripped at_most a b x y ≡ x)
        ⊎ (select_by_time stripped at_most a b x y ≡ y)
  select_by_time-either (some a) (some b) x y = elim (Bool-cases (at_most a b)) [
    | inl e ↦ inr (simp e refl)
    | inr e ↦ inl (simp e refl)
  ]
  select_by_time-either none (some b) x y = inr refl
  select_by_time-either (some a) none x y = inl refl
  select_by_time-either none none x y = inr refl

  select_by_score-either :
      (x y : ControlPlaneNodeStatusSnapshot)
      → (select_by_score stripped at_most x y ≡ x) ⊎ (select_by_score stripped at_most x y ≡ y)
  unfolding select_by_score
  select_by_score-either x y =
      elim (Bool-cases (
        ltb (node_status_completeness_score stripped at_most x)
          (node_status_completeness_score stripped at_most y))) [
            | inl e ↦ inr (simp e refl)
            | inr e ↦
                elim (Bool-cases (
                  ltb (node_status_completeness_score stripped at_most y)
                    (node_status_completeness_score stripped at_most x))) [
                      | inl f ↦ inl (simp (e, f) refl)
                      | inr f ↦ simp (e, f) (select_by_time-either _ _ x y)
                    ]
          ]

  -- Of two statuses with the same sequence number either has it.
  select_by_score-seq :
      (o : Option ℕ) (x y : ControlPlaneNodeStatusSnapshot)
      → x.cmd_seq ≡ o
      → y.cmd_seq ≡ o
      → (select_by_score stripped at_most x y).cmd_seq ≡ o
  select_by_score-seq o x y e f = elim (select_by_score-either x y) [
    | inl is ↦ ap (λ s. s.cmd_seq) is ∙ e
    | inr is ↦ ap (λ s. s.cmd_seq) is ∙ f
  ]

  select_by_seq-newest :
      (q h : ℕ) (x y : ControlPlaneNodeStatusSnapshot)
      → IsNear q (some h)
      → x.cmd_seq ≡ some (h % 0x1_0000)
      → y.cmd_seq ≡ some (q % 0x1_0000)
      → (select_by_seq stripped at_most (some (h % 0x1_0000)) (some (q % 0x1_0000)) x y).cmd_seq
        ≡ some (newest q (some h) % 0x1_0000)
  select_by_seq-newest q h x y (near, far) e f = elim (Bool-cases (h % 0x1_0000 == q % 0x1_0000)) [
    | inl same ↦
        let equal : h % 0x1_0000 ≡ q % 0x1_0000 = ground arith in
        let either : some (h % 0x1_0000) ≡ some (newest q (some h) % 0x1_0000) =
          ground (arith, equal) in
        simp same (select_by_score-seq (some (h % 0x1_0000)) x y e (rw equal f) ∙ either)
    | inr differ ↦ elim (Bool-cases (ltb h q)) [
      | inl lt ↦ simp (differ, is_cmd_seq_newer-lt q h (ground arith) near, lt) f
      | inr ge ↦ simp (differ, is_cmd_seq_newer-ge q h (ground arith) far, ge) e
    ]
  ]

-- The newest number behind a command that did or did not get a sequence number.
abbrev pub after_seq : Option ℕ → ℕ → Option ℕ → Option ℕ
after_seq none q h = h
after_seq (some seq) q h = some (newest q h)

-- The status that is kept has the low 16 bits of the newest number, and none without a number.
abbrev pub IsOfNewest : Option ℕ → Option ControlPlaneNodeStatusSnapshot → Type 0
IsOfNewest none none = Unit
IsOfNewest none (some s) = s.cmd_seq ≡ none
IsOfNewest (some h) none = ⊥
IsOfNewest (some h) (some s) = s.cmd_seq ≡ some (h % 0x1_0000)

-- A sequence number that is there is the low 16 bits of a number near the newest.
abbrev pub IsNumberedSeq : Option ℕ → ℕ → Option ℕ → Type 0
IsNumberedSeq none q h = Unit
IsNumberedSeq (some seq) q h = (seq ≡ q % 0x1_0000) × IsNear q h

module _ (stripped : String → Option String) (at_most : String → String → Bool) where
  selected :
      (a b : Option ℕ) (x y : ControlPlaneNodeStatusSnapshot)
      → x.cmd_seq ≡ a
      → y.cmd_seq ≡ b
      → (select_effective_node_status stripped at_most (some x) y).cmd_seq
        ≡ (select_by_seq stripped at_most a b x y).cmd_seq
  selected a b x y e f =
      ap (λ p. (select_by_seq stripped at_most p y.cmd_seq x y).cmd_seq) e
      ∙ ap (λ p. (select_by_seq stripped at_most a p x y).cmd_seq) f

  pub select-IsOfNewest :
      (o : Option ℕ) (q : ℕ) (h : Option ℕ) (old : Option ControlPlaneNodeStatusSnapshot)
      (y : ControlPlaneNodeStatusSnapshot)
      → y.cmd_seq ≡ o
      → IsNumberedSeq o q h
      → IsOfNewest h old
      → IsOfNewest (after_seq o q h) (some (select_effective_node_status stripped at_most old y))
  select-IsOfNewest none q none none y e num held = e
  select-IsOfNewest none q none (some x) y e num held =
      selected none none x y held e ∙ select_by_score-seq stripped at_most none x y held e
  select-IsOfNewest none q (some h) none y e num held = absurd held
  select-IsOfNewest none q (some h) (some x) y e num held = selected (some _) none x y held e ∙ held
  select-IsOfNewest (some seq) q none none y e (same, near) held = e ∙ ap some same
  select-IsOfNewest (some seq) q none (some x) y e (same, near) held =
      selected none (some seq) x y held e ∙ e ∙ ap some same
  select-IsOfNewest (some seq) q (some h) none y e (same, near) held = absurd held
  select-IsOfNewest (some seq) q (some h) (some x) y e (same, near) held =
      selected (some (h % 0x1_0000)) (some (q % 0x1_0000)) x y held (e ∙ ap some same)
      ∙ select_by_seq-newest stripped at_most q h x y near held (e ∙ ap some same)
