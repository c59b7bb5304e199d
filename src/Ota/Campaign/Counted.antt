-- ===== src/Ota/Campaign/Counted.antt =====
-- How often a node stands in a list of nodes (core/firmware/ota_campaign_models.py).
use control_ok_a_v.Base.{
  ℕ, ◌+◌, ◌≤◌, ◌<◌, ◌≡◌, refl, true, false, List, [], ◌∷◌, ◌++◌, if◌then◌else◌, arith, ok, ◌==◌,
  >>=-eq-ok, raise_if-eq-ok, Bool-cases, inl, inr,
}
use control_ok_a_v.Base.Int.{ℤ, pos_part}
use control_ok_a_v.Ota.Campaign.Nodes.{
  bad_campaign_node_id, duplicate_node, contains, is_out_of_range, normalize_canary, remaining,
}
use control_ok_a_v.Ota.Campaign.Plan.{covers}
use control_ok_a_v.Ota.Campaign.Waves.{AreNodes}

-- How often a number stands in a list.
abbrev pub count : ℕ → List ℕ → ℕ
count n [] = 0
count n (m ∷ ms) = (if m == n then 1 else 0) + count n ms

pub count-append : (n : ℕ) (ms ns : List ℕ) → count n (ms ++ ns) ≡ count n ms + count n ns
count-append n [] ns = omega arith
count-append n (m ∷ ms) ns = omega (arith, count-append n ms ns)

pub count_pos : (n : ℕ) (ms : List ℕ) → contains n ms ≡ true → 0 < count n ms
count_pos n [] h = cc
count_pos n (m ∷ ms) h = ground (arith, count_pos n ms)

pub count_zero : (n : ℕ) (ms : List ℕ) → contains n ms ≡ false → count n ms ≡ 0
count_zero n [] h = refl
count_zero n (m ∷ ms) h = ground (arith, count_zero n ms)

-- No more than once, and not at all if it was seen.
pub AreNodes-count :
    (n : ℕ) (seen ns : List ℕ)
    → AreNodes seen ns
    → (count n ns ≤ 1) × (contains n seen ≡ true → count n ns ≡ 0)
AreNodes-count n seen [] h = (omega arith, λ e. refl)
AreNodes-count n seen (m ∷ ms) h =
    let (once, never) = AreNodes-count n (m ∷ seen) ms h.2 in
    elim (Bool-cases (m == n)) [
      | inl same ↦
          let gone = never (ground arith) in
          rw same (omega arith, λ e. absurd (ground (arith, h.0)))
      | inr differs ↦ rw differs (omega arith, λ e. ground (arith, never))
    ]

pub normalize_canary_once :
    (n : ℕ) (seen : List ℕ) (vs : List ℤ) {ns : List ℕ}
    → normalize_canary seen vs ≡ ok ns
    → (count n ns ≤ 1) × (contains n seen ≡ true → count n ns ≡ 0)
unfolding normalize_canary
normalize_canary_once n seen [] {ns} h = let e : [] ≡ ns = cc h in rw (← e) (omega arith, λ e. refl)
normalize_canary_once n seen (v ∷ vs) {ns} h =
    let (fits, h1) = raise_if-eq-ok (is_out_of_range v) bad_campaign_node_id _ h in
    let (new, h2) = raise_if-eq-ok (contains (pos_part v) seen) duplicate_node _ h1 in
    let (rest, others, h3) = >>=-eq-ok (normalize_canary (pos_part v ∷ seen) vs) _ h2 in
    let (once, never) = normalize_canary_once n (pos_part v ∷ seen) vs others in
    let same : pos_part v ∷ rest ≡ ns = cc h3 in
    rw (← same) (elim (Bool-cases (pos_part v == n)) [
      | inl same ↦
          let gone = never (ground arith) in rw same (omega arith, λ e. absurd (ground arith))
      | inr differs ↦ rw differs (omega arith, λ e. ground (arith, never))
    ])

pub covers_lem :
    (ms ns : List ℕ) (n : ℕ) → covers ms ns ≡ true → contains n ns ≡ true → contains n ms ≡ true
covers_lem ms [] n h k = absurd (cc k)
covers_lem ms (m ∷ ns) n h k = elim (Bool-cases (m == n)) [
  | inl same ↦ let e : m ≡ n = ground arith in ground arith
  | inr differs ↦ covers_lem ms ns n (ground arith) (ground arith)
]

pub remaining_lem :
    (canary ns : List ℕ) (n : ℕ)
    → contains n ns ≡ true
    → contains n canary ≡ false
    → contains n (remaining canary ns) ≡ true
remaining_lem canary [] n h k = absurd (cc h)
remaining_lem canary (m ∷ ns) n h k = elim (Bool-cases (m == n)) [
  | inl same ↦ let e : m ≡ n = ground arith in ground arith
  | inr differs ↦ let there = remaining_lem canary ns n (ground arith) k in ground arith
]
