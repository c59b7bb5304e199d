-- ===== src/Ota/Campaign/Waves.antt =====
-- How nodes are cut into waves (core/firmware/ota_campaign_models.py).
use control_ok_a_v.Base.{
  ℕ, zero, suc, ◌≤◌, ◌≡◌, refl, ap, ◌∙◌, false, List, [], ◌∷◌, ◌++◌, arith, ok, All, >>=-eq-ok,
  raise_if-eq-ok, Bool-cases, inl, inr, ◌==◌, length, take, drop, take-append-drop, length-drop,
  length-take,
}
use control_ok_a_v.Base.Int.{ℤ, pos, pos_part}
use control_ok_a_v.Ota.Campaign.Nodes.{
  bad_node_id, contains, is_out_of_range, normalize_nodes, OtaCampaignWave, remaining, to_ints,
  chunks,
}

-- The nodes of waves, one after another.
abbrev pub nodes_of : List OtaCampaignWave → List ℕ
nodes_of [] = []
nodes_of (w ∷ ws) = w.node_ids ++ nodes_of ws

abbrev pub flatten : List (List ℕ) → List ℕ
flatten [] = []
flatten (c ∷ cs) = c ++ flatten cs

pub chunks_lem :
    (rounds size : ℕ) (ns : List ℕ)
    → 1 ≤ size
    → length ns ≤ rounds
    → flatten (chunks rounds size ns) ≡ ns
unfolding chunks
chunks_lem zero size [] h k = refl
chunks_lem zero size (n ∷ ns) h k = absurd (omega arith)
chunks_lem (suc rounds) size [] h k = refl
chunks_lem (suc rounds) size (n ∷ ns) h k =
    ap (λ rest. take size (n ∷ ns) ++ rest)
      (chunks_lem rounds size (drop size (n ∷ ns)) h (omega (arith, length-drop {0} size (n ∷ ns))))
    ∙ take-append-drop size (n ∷ ns)

-- A list of numbers as `normalize_node_ids` leaves them: in range, each once, none of those seen.
abbrev pub AreNodes : List ℕ → List ℕ → Type 0
AreNodes seen [] = Unit
AreNodes seen (n ∷ ns) =
    (contains n seen ≡ false) × (is_out_of_range (pos n) ≡ false) × AreNodes (n ∷ seen) ns

AreNodes-fewer :
    (seen fewer : List ℕ) (ns : List ℕ)
    → ((n : ℕ) → contains n seen ≡ false → contains n fewer ≡ false)
    → AreNodes seen ns
    → AreNodes fewer ns
AreNodes-fewer seen fewer [] h k = tt
AreNodes-fewer seen fewer (n ∷ ns) h k = (
  h n k.0,
  k.1,
  AreNodes-fewer (n ∷ seen) (n ∷ fewer) ns
      (λ m e. elim (Bool-cases (n == m)) [
        | inl same ↦ absurd (ground arith)
        | inr differs ↦ let old = h m (ground arith) in ground arith
      ])
      k.2,
)

contains-cons_false :
    (m n : ℕ) (seen : List ℕ) → contains m (n ∷ seen) ≡ false → contains m seen ≡ false
contains-cons_false m n seen h = ground arith

AreNodes-tail : (n : ℕ) (seen ns : List ℕ) → AreNodes (n ∷ seen) ns → AreNodes seen ns
AreNodes-tail n seen ns h = AreNodes-fewer (n ∷ seen) seen ns (λ m. contains-cons_false m n seen) h

pub normalize_nodes-AreNodes :
    (seen : List ℕ) (vs : List ℤ) {ns : List ℕ} → normalize_nodes seen vs ≡ ok ns → AreNodes seen ns
unfolding normalize_nodes
normalize_nodes-AreNodes seen [] {ns} h = let e : [] ≡ ns = cc h in rw (← e) tt
normalize_nodes-AreNodes seen (v ∷ vs) {ns} h =
    let (fits, h1) = raise_if-eq-ok (is_out_of_range v) bad_node_id _ h in
    let (rest, others, h2) = >>=-eq-ok (normalize_nodes (pos_part v ∷ seen) vs) _ h1 in
    let ih = normalize_nodes-AreNodes (pos_part v ∷ seen) vs others in
    elim (Bool-cases (contains (pos_part v) seen)) [
      | inl old ↦
          let same : rest ≡ ns = ground arith in
          rw (← same) (AreNodes-tail (pos_part v) seen rest ih)
      | inr new ↦
          let same : pos_part v ∷ rest ≡ ns = ground arith in rw (← same) (new, in_range v fits, ih)
    ]
  where
    in_range : (v : ℤ) → is_out_of_range v ≡ false → is_out_of_range (pos (pos_part v)) ≡ false
    in_range v h = ground arith

pub normalize_nodes-to_ints :
    (seen ns : List ℕ) → AreNodes seen ns → normalize_nodes seen (to_ints ns) ≡ ok ns
unfolding normalize_nodes
normalize_nodes-to_ints seen [] h = refl
normalize_nodes-to_ints seen (n ∷ ns) h =
    rw h.1 (rw (normalize_nodes-to_ints (n ∷ seen) ns h.2) (rw h.0))

AreNodes-take : (size : ℕ) (seen ns : List ℕ) → AreNodes seen ns → AreNodes seen (take size ns)
AreNodes-take zero seen ns h = tt
AreNodes-take (suc size) seen [] h = tt
AreNodes-take (suc size) seen (n ∷ ns) h = (h.0, h.1, AreNodes-take size (n ∷ seen) ns h.2)

AreNodes-drop : (size : ℕ) (seen ns : List ℕ) → AreNodes seen ns → AreNodes seen (drop size ns)
AreNodes-drop zero seen ns h = h
AreNodes-drop (suc size) seen [] h = tt
AreNodes-drop (suc size) seen (n ∷ ns) h = AreNodes-drop size seen ns (AreNodes-tail n seen ns h.2)

pub AreNodes-remaining :
    (canary seen ns : List ℕ) → AreNodes seen ns → AreNodes seen (remaining canary ns)
AreNodes-remaining canary seen [] h = tt
AreNodes-remaining canary seen (n ∷ ns) h = elim (Bool-cases (contains n canary)) [
  | inl e ↦
      rw e
        (AreNodes-tail n seen (remaining canary ns) (AreNodes-remaining canary (n ∷ seen) ns h.2))
  | inr e ↦ rw e (h.0, h.1, AreNodes-remaining canary (n ∷ seen) ns h.2)
]

-- A chunk for a wave: nodes in range, each once, at least one and at most `size`.
pub record IsChunk (size : ℕ) (ns : List ℕ) : Type 0 where
  pub are_nodes : AreNodes [] ns
  pub not_empty : 1 ≤ length ns
  pub fits : length ns ≤ size

pub chunks-AreChunks :
    (rounds size : ℕ) (ns : List ℕ)
    → 1 ≤ size
    → AreNodes [] ns
    → All (IsChunk size) (chunks rounds size ns)
unfolding chunks
chunks-AreChunks zero size ns h k = tt
chunks-AreChunks (suc rounds) size [] h k = tt
chunks-AreChunks (suc rounds) size (n ∷ ns) h k = (
  record {
    are_nodes = AreNodes-take size [] (n ∷ ns) k;
    not_empty = omega (arith, length-take {0} size (n ∷ ns));
    fits = omega (arith, length-take {0} size (n ∷ ns));
  },
  chunks-AreChunks rounds size (drop size (n ∷ ns)) h (AreNodes-drop size [] (n ∷ ns) k),
)
