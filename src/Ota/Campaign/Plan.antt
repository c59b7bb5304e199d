-- ===== src/Ota/Campaign/Plan.antt =====
-- core/firmware/ota_campaign_models.py: `OtaCampaignPlan`, with the checks of its settings in
-- ota_manifest_models.py. The campaign's name is taken as it stands.
use control_ok_a_v.Base.{
  ℕ, Bool, true, not, ◌&&◌, ◌||◌, none, some, List, [], ◌∷◌, String, if◌then◌else◌, Result, ok, err,
  ◌>>=◌, ◌>>◌, raise_if, leb,
}
use control_ok_a_v.Base.Int.{ℤ, pos, pos_part, ltb_ℤ}
use control_ok_a_v.Ota.Campaign.Nodes.{
  CampaignError, bad_host, bad_port, bad_token, bad_channel, no_artifact, no_canary, unknown_canary,
  canary_in_waves, duplicate_wave_index, unknown_wave_node, canary_wave_node, repeated_wave_node,
  unassigned_nodes, extra_nodes, no_bind_host, bad_timeout, bad_retries, Texts, contains, is_empty,
  remaining, OtaCampaignWave, normalize_text, normalize_node_ids, normalize_optional_node_ids,
}
use text.Mathlib.Text.{◌==◌ as text_eq}

-- A rollout token as a caller gives it.
pub data RawToken : Type 0 where
  token_number : ℤ → RawToken
  token_text : String → RawToken

-- The fields of a plan that say how it is carried out.
pub record PlanSettings : Type 0 where
  pub advertise_host : String
  pub rollout_token : String
  pub rollout_id : String
  pub rollout_channel : String
  pub bind_host : String
  pub port : ℕ
  pub ack_timeout_ms : ℤ
  pub max_retries : ℤ

pub record OtaCampaignPlan : Type 0 where
  pub artifact_id : String
  pub node_ids : List ℕ
  pub canary_nodes : List ℕ
  pub waves : List OtaCampaignWave
  pub settings : PlanSettings
  pub campaign_id : String

-- The arguments of `OtaCampaignPlan`; a wave that is given as a dictionary is built before.
pub record PlanArguments : Type 0 where
  pub artifact : String
  pub nodes : List ℤ
  pub canary : List ℤ
  pub given_waves : List OtaCampaignWave
  pub host : String
  pub token : RawToken
  pub rollout : String
  pub channel : String
  pub bind : String
  pub http_port : ℤ
  pub timeout_ms : ℤ
  pub retries : ℤ
  pub campaign : String
  pub require_canary : Bool

-- Every number of the second list stands in the first.
abbrev pub covers : List ℕ → List ℕ → Bool
covers ms [] = true
covers ms (n ∷ ns) = contains n ms && covers ms ns

-- The loop over the nodes of a wave, with the nodes that waves have so far.
unfoldable pub assign_nodes : List ℕ → List ℕ → List ℕ → List ℕ → Result CampaignError (List ℕ)
assign_nodes node_ids canary assigned [] = ok assigned
assign_nodes node_ids canary assigned (n ∷ ns) = do
  raise_if (not (contains n node_ids)) unknown_wave_node
  raise_if (contains n canary) canary_wave_node
  raise_if (contains n assigned) repeated_wave_node
  assign_nodes node_ids canary (n ∷ assigned) ns

-- The loop over the waves.
unfoldable pub assign_waves :
    List ℕ → List ℕ → List ℕ → List ℕ → List OtaCampaignWave → Result CampaignError (List ℕ)
unfolding assign_nodes
assign_waves node_ids canary seen assigned [] = ok assigned
assign_waves node_ids canary seen assigned (w ∷ ws) = do
  raise_if w.is_canary canary_in_waves
  raise_if (contains w.wave_index seen) duplicate_wave_index
  more ← assign_nodes node_ids canary assigned w.node_ids
  assign_waves node_ids canary (w.wave_index ∷ seen) more ws

-- `sorted(waves, key=lambda item: item.wave_index)`
abbrev pub insert_wave : OtaCampaignWave → List OtaCampaignWave → List OtaCampaignWave
insert_wave w [] = w ∷ []
insert_wave w (v ∷ ws) =
    if leb w.wave_index v.wave_index then w ∷ (v ∷ ws) else v ∷ insert_wave w ws

unfoldable pub sorted_waves : List OtaCampaignWave → List OtaCampaignWave
sorted_waves [] = []
sorted_waves (w ∷ ws) = insert_wave w (sorted_waves ws)

-- The waves of a plan over its nodes and canaries.
unfoldable pub check_waves :
    List ℕ → List ℕ → List OtaCampaignWave → Result CampaignError (List OtaCampaignWave)
unfolding assign_waves sorted_waves
check_waves node_ids canary waves = do
  assigned ← assign_waves node_ids canary [] [] waves
  raise_if (not (covers assigned (remaining canary node_ids))) unassigned_nodes
  raise_if (not (covers (remaining canary node_ids) assigned)) extra_nodes
  ok (sorted_waves waves)

unfoldable pub normalize_http_port : ℤ → Result CampaignError ℕ
normalize_http_port value = do
  raise_if (ltb_ℤ value (pos 1) || ltb_ℤ (pos 65535) value) bad_port
  ok (pos_part value)

module _ (texts : Texts) where
  unfoldable pub normalize_http_host : String → Result CampaignError String
  normalize_http_host value = do
    raise_if (text_eq (normalize_text texts value "") "") bad_host
    raise_if (text_eq (normalize_text texts value "") "0.0.0.0") bad_host
    ok (normalize_text texts value "")

  abbrev pub token_value : RawToken → Result CampaignError ℤ
  token_value (token_number value) = ok value
  token_value (token_text value) = elim (texts.hex_int (texts.lower (texts.strip value))) [
    | none ↦ err bad_token
    | some n ↦ ok n
  ]

  unfoldable pub normalize_rollout_token_hex : RawToken → Result CampaignError String
  normalize_rollout_token_hex token = do
    value ← token_value token
    raise_if (ltb_ℤ value (pos 1) || ltb_ℤ (pos 0xFFFF_FFFF) value) bad_token
    ok (texts.hex8 (pos_part value))

  unfoldable pub normalize_rollout_channel : String → Result CampaignError String
  normalize_rollout_channel value = do
    let name = texts.lower (normalize_text texts value "")
    raise_if (not (text_eq name "stable" || (text_eq name "beta" || text_eq name "situational")))
        bad_channel
    ok name

  unfoldable pub channel_or_none : String → Result CampaignError String
  unfolding normalize_rollout_channel
  channel_or_none name = if text_eq name "" then ok name else normalize_rollout_channel name

  -- The checks of a plan's settings, which come after those of its nodes.
  unfoldable pub make_settings : PlanArguments → Result CampaignError PlanSettings
  unfolding normalize_http_host normalize_http_port normalize_rollout_token_hex channel_or_none
  make_settings a = do
    host ← normalize_http_host a.host
    port ← normalize_http_port a.http_port
    token ← normalize_rollout_token_hex a.token
    channel ← channel_or_none (texts.lower (normalize_text texts a.channel ""))
    let bind = normalize_text texts a.bind ""
    raise_if (text_eq bind "") no_bind_host
    raise_if (ltb_ℤ a.timeout_ms (pos 1)) bad_timeout
    raise_if (ltb_ℤ a.retries (pos 0)) bad_retries
    ok (record {
      advertise_host = host;
      rollout_token = token;
      rollout_id = normalize_text texts a.rollout "";
      rollout_channel = channel;
      bind_host = bind;
      port = port;
      ack_timeout_ms = a.timeout_ms;
      max_retries = a.retries;
    })

  -- The plan's constructor.
  unfoldable pub make_plan : PlanArguments → Result CampaignError OtaCampaignPlan
  unfolding normalize_node_ids normalize_optional_node_ids check_waves make_settings
  make_plan a = do
    let artifact = normalize_text texts a.artifact ""
    raise_if (text_eq artifact "") no_artifact
    nodes ← normalize_node_ids a.nodes
    canary ← normalize_optional_node_ids (some a.canary)
    raise_if (a.require_canary && is_empty canary) no_canary
    raise_if (not (covers nodes canary)) unknown_canary
    waves ← check_waves nodes canary a.given_waves
    settings ← make_settings a
    ok (record {
      artifact_id = artifact;
      node_ids = nodes;
      canary_nodes = canary;
      waves = waves;
      settings = settings;
      campaign_id = a.campaign;
    })
