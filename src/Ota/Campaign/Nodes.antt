-- ===== src/Ota/Campaign/Nodes.antt =====
-- Lists of nodes, and the waves that they are cut into (core/firmware/ota_deploy_models.py and
-- ota_campaign_models.py).
use control_ok_a_v.Base.{
  ℕ, zero, suc, ◌+◌, Bool, true, false, ◌||◌, Option, none, some, List, [], ◌∷◌, String,
  if◌then◌else◌, Result, ok, ◌>>=◌, ◌>>◌, raise_if, ◌==◌, length, take, drop,
}
use control_ok_a_v.Base.Int.{ℤ, pos, pos_part, ltb_ℤ}
use text.Mathlib.Text.{◌==◌ as text_eq}
use Prim.Native.String.{◌++◌ as append_text}

-- `OtaDeployValidationError` (the first two), `OtaManifestValidationError`, which becomes the next,
-- `OtaCampaignValidationError`, and from `not_startable` on `OtaCampaignServiceError`, with what the
-- orchestrator raises.
pub data CampaignError : Type 0 where
  bad_node_id no_nodes : CampaignError
  bad_host bad_port bad_token bad_channel : CampaignError
  bad_campaign_node_id duplicate_node bad_wave_index bad_wave_size : CampaignError
  no_artifact no_canary unknown_canary canary_in_waves duplicate_wave_index : CampaignError
  unknown_wave_node canary_wave_node repeated_wave_node unassigned_nodes extra_nodes : CampaignError
  no_bind_host bad_timeout bad_retries no_waves : CampaignError
  is_aborted is_completed is_failed not_allowed no_pending_wave deploy_failed : CampaignError

-- Python's texts: `strip`, `lower`, a number in decimal digits and in eight hexadecimal digits, and
-- the number that hexadecimal digits with or without `0x` spell.
pub record Texts : Type 0 where
  pub strip : String → String
  pub lower : String → String
  pub decimal : ℕ → String
  pub hex8 : ℕ → String
  pub hex_int : String → Option ℤ

abbrev pub contains : ℕ → List ℕ → Bool
contains n [] = false
contains n (m ∷ ms) = (m == n) || contains n ms

abbrev pub is_empty : List ℕ → Bool
is_empty [] = true
is_empty (n ∷ ns) = false

-- Not a unicast node number.
abbrev pub is_out_of_range : ℤ → Bool
is_out_of_range v = ltb_ℤ v (pos 1) || ltb_ℤ (pos 0xFFFF) v

-- The loop of `normalize_node_ids`, with the numbers seen: one that comes again is passed over.
unfoldable pub normalize_nodes : List ℕ → List ℤ → Result CampaignError (List ℕ)
normalize_nodes seen [] = ok []
normalize_nodes seen (v ∷ vs) = do
  raise_if (is_out_of_range v) bad_node_id
  rest ← normalize_nodes (pos_part v ∷ seen) vs
  ok (if contains (pos_part v) seen then rest else pos_part v ∷ rest)

unfoldable pub normalize_node_ids : List ℤ → Result CampaignError (List ℕ)
unfolding normalize_nodes
normalize_node_ids values = do
  ids ← normalize_nodes [] values
  raise_if (is_empty ids) no_nodes
  ok ids

-- The loop of `normalize_optional_node_ids`: a number that comes again is an error.
unfoldable pub normalize_canary : List ℕ → List ℤ → Result CampaignError (List ℕ)
normalize_canary seen [] = ok []
normalize_canary seen (v ∷ vs) = do
  raise_if (is_out_of_range v) bad_campaign_node_id
  raise_if (contains (pos_part v) seen) duplicate_node
  rest ← normalize_canary (pos_part v ∷ seen) vs
  ok (pos_part v ∷ rest)

unfoldable pub normalize_optional_node_ids : Option (List ℤ) → Result CampaignError (List ℕ)
unfolding normalize_canary
normalize_optional_node_ids none = ok []
normalize_optional_node_ids (some values) = normalize_canary [] values

pub record OtaCampaignWave : Type 0 where
  pub wave_index : ℕ
  pub label : String
  pub node_ids : List ℕ
  pub is_canary : Bool

-- `[node_id for node_id in node_ids if node_id not in canary]`
abbrev pub remaining : List ℕ → List ℕ → List ℕ
remaining canary [] = []
remaining canary (n ∷ ns) =
    let rest = remaining canary ns in if contains n canary then rest else n ∷ rest

abbrev pub to_ints : List ℕ → List ℤ
to_ints [] = []
to_ints (n ∷ ns) = pos n ∷ to_ints ns

-- The slices `remaining[start : start + size]`, over a number of rounds.
unfoldable pub chunks : ℕ → ℕ → List ℕ → List (List ℕ)
chunks zero size ns = []
chunks (suc rounds) size [] = []
chunks (suc rounds) size (n ∷ ns) = take size (n ∷ ns) ∷ chunks rounds size (drop size (n ∷ ns))

module _ (texts : Texts) where
  -- `normalize_text(value, fallback=...)` of a text.
  abbrev pub normalize_text : String → String → String
  normalize_text value fallback =
      if text_eq (texts.strip value) "" then fallback else texts.strip value

  abbrev pub default_label : Bool → ℕ → String
  default_label true index = "canary"
  default_label false index = append_text "wave_" (texts.decimal index)

  -- The checks of `OtaCampaignWave`.
  unfoldable pub make_wave : ℤ → String → List ℤ → Bool → Result CampaignError OtaCampaignWave
  unfolding normalize_node_ids
  make_wave wave_index label node_ids is_canary = do
    raise_if (ltb_ℤ wave_index (pos 0)) bad_wave_index
    ids ← normalize_node_ids node_ids
    ok (record {
      wave_index = pos_part wave_index;
      label = texts.lower (normalize_text label (default_label is_canary (pos_part wave_index)));
      node_ids = ids;
      is_canary = is_canary;
    })

  unfoldable pub number_waves : ℕ → List (List ℕ) → Result CampaignError (List OtaCampaignWave)
  unfolding make_wave
  number_waves index [] = ok []
  number_waves index (chunk ∷ rest) = do
    wave ← make_wave (pos index) (append_text "wave_" (texts.decimal index)) (to_ints chunk) false
    waves ← number_waves (index + 1) rest
    ok (wave ∷ waves)

  unfoldable pub build_campaign_waves :
      List ℤ → Option (List ℤ) → ℤ → Result CampaignError (List OtaCampaignWave)
  unfolding normalize_node_ids normalize_optional_node_ids chunks number_waves
  build_campaign_waves node_ids canary_nodes wave_size = do
    nodes ← normalize_node_ids node_ids
    canary ← normalize_optional_node_ids canary_nodes
    raise_if (ltb_ℤ wave_size (pos 1)) bad_wave_size
    let left = remaining canary nodes
    number_waves 1 (chunks (length left) (pos_part wave_size) left)
