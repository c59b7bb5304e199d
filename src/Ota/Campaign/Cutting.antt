-- ===== src/Ota/Campaign/Cutting.antt =====
-- The waves that `build_campaign_waves` makes (core/firmware/ota_campaign_models.py).
use control_ok_a_v.Base.{
  ℕ, ◌+◌, ◌≤◌, ◌≡◌, refl, ◌∙◌, false, Option, List, [], ◌∷◌, String, arith, ok, All, >>=-eq-ok,
  length,
}
use control_ok_a_v.Base.Int.{ℤ, pos, pos_part, ltb_ℤ}
use control_ok_a_v.Ota.Campaign.Nodes.{
  Texts, normalize_nodes, normalize_node_ids, normalize_optional_node_ids, OtaCampaignWave,
  remaining, to_ints, chunks, make_wave, number_waves, build_campaign_waves, normalize_text,
  default_label,
}
use Prim.Native.String.{◌++◌ as append_text}
use control_ok_a_v.Ota.Campaign.Waves.{
  nodes_of, flatten, chunks_lem, AreNodes, normalize_nodes-AreNodes, normalize_nodes-to_ints,
  AreNodes-remaining, IsChunk, chunks-AreChunks,
}

-- Waves with the numbers from some number on, none of them a canary, each with at least one node and
-- no more than `size`.
abbrev pub AreWaves : ℕ → ℕ → List OtaCampaignWave → Type 0
AreWaves index size [] = Unit
AreWaves index size (w ∷ ws) =
    (w.wave_index ≡ index)
    × (w.is_canary ≡ false)
    × (1 ≤ length w.node_ids)
    × (length w.node_ids ≤ size)
    × AreWaves (index + 1) size ws

pub normalize_node_ids-AreNodes :
    (values : List ℤ) {ns : List ℕ} → normalize_node_ids values ≡ ok ns → AreNodes [] ns
unfolding normalize_node_ids
normalize_node_ids-AreNodes values {ns} h =
    let (ids, normal, h1) = >>=-eq-ok (normalize_nodes [] values) _ h in
    let same : ids ≡ ns = ground arith in rw (← same) (normalize_nodes-AreNodes [] values normal)

normalize_node_ids-to_ints :
    (ns : List ℕ) → AreNodes [] ns → 1 ≤ length ns → normalize_node_ids (to_ints ns) ≡ ok ns
unfolding normalize_node_ids
normalize_node_ids-to_ints [] h k = absurd (omega arith)
normalize_node_ids-to_ints (n ∷ ns) h k = rw (normalize_nodes-to_ints [] (n ∷ ns) h)

module _ (texts : Texts) where
  make_wave_lem :
      (index : ℕ) (label : String) (c : List ℕ)
      → AreNodes [] c
      → 1 ≤ length c
      → (w : OtaCampaignWave) × (make_wave texts (pos index) label (to_ints c) false ≡ ok w)
        × (w.wave_index ≡ index)
        × (w.is_canary ≡ false)
        × (w.node_ids ≡ c)
  unfolding make_wave
  make_wave_lem index label c h k = (
    record {
      wave_index = index;
      label = texts.lower (normalize_text texts label (default_label texts false index));
      node_ids = c;
      is_canary = false;
    },
    rw (normalize_node_ids-to_ints c h k) (ground arith),
    refl,
    refl,
    refl,
  )

  number_waves_lem :
      (index size : ℕ) (cs : List (List ℕ))
      → All (IsChunk size) cs
      → (ws : List OtaCampaignWave) × (number_waves texts index cs ≡ ok ws)
        × (nodes_of ws ≡ flatten cs)
        × AreWaves index size ws
  unfolding number_waves
  number_waves_lem index size [] h = ([], refl, refl, tt)
  number_waves_lem index size (c ∷ cs) h =
      let (ws, numbered, nodes, good) = number_waves_lem (index + 1) size cs h.1 in
      let label = append_text "wave_" (texts.decimal index) in
      let (w, made, numbered_w, no_canary, own) =
        make_wave_lem index label c h.0.are_nodes h.0.not_empty in
      (
        w ∷ ws,
        rw made (rw numbered),
        rw own (rw nodes),
        (numbered_w, no_canary, rw own h.0.not_empty, rw own h.0.fits, good),
      )

  -- Nodes and canaries that are accepted, and a size of at least 1, are cut into waves: the nodes that
  -- are no canaries stand in them in order, each once, the waves count from 1, none is a canary's, and
  -- each has at least one node and no more than the size.
  pub build_campaign_waves_lem :
      (node_ids : List ℤ) (canary_nodes : Option (List ℤ)) (wave_size : ℤ) (nodes canary : List ℕ)
      → normalize_node_ids node_ids ≡ ok nodes
      → normalize_optional_node_ids canary_nodes ≡ ok canary
      → ltb_ℤ wave_size (pos 1) ≡ false
      → (ws : List OtaCampaignWave) × (build_campaign_waves texts node_ids canary_nodes wave_size
          ≡ ok ws)
        × (nodes_of ws ≡ remaining canary nodes)
        × AreWaves 1 (pos_part wave_size) ws
  unfolding build_campaign_waves
  build_campaign_waves_lem node_ids canary_nodes wave_size nodes canary normal allowed sized =
      let left = remaining canary nodes in
      let at_least : 1 ≤ pos_part wave_size = ground arith in
      let fit =
        chunks-AreChunks (length left) (pos_part wave_size) left at_least
          (AreNodes-remaining canary [] nodes (normalize_node_ids-AreNodes node_ids normal)) in
      let (ws, numbered, cut, good) =
        number_waves_lem 1 (pos_part wave_size) (chunks (length left) (pos_part wave_size) left)
          fit in
      (
        ws,
        rw normal (rw allowed (rw sized numbered)),
        cut ∙ chunks_lem (length left) (pos_part wave_size) left at_least (omega arith),
        good,
      )
