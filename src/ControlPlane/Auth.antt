-- ===== src/ControlPlane/Auth.antt =====
-- `_normalize_secret` and `compute_auth_tag32` of core/control_plane/auth.py. HMAC-SHA256 is a
-- parameter: the key and the message give the digest.
use mathlib.Core.List.{reverse}
use control_ok_a_v.Base.{
  ℕ, ◌≡◌, Bool, true, false, not, ◌&&◌, ◌||◌, [], ◌∷◌, leb, ◌==◌, if◌then◌else◌, length, take, All,
  Result, ok, ◌>>=◌, ◌>>◌, raise_if,
}
use control_ok_a_v.Base.Bytes.{Bytes, IsByte, from_le}

-- What is wrong with an argument, for a `ValueError`.
pub data Invalid : Type 0 where
  bad_node_id bad_cmd_seq bad_cmd_id bad_arg0 bad_arg1 bad_nonce bad_delay bad_stat_rate : Invalid
  bad_throttle bad_rollout_token bad_start_seq unicast_only broadcast_required : Invalid
  broadcast_refused bad_auth_prefix bad_epoch bad_counter bad_node_ip : Invalid

-- The exceptions that building a command raises.
pub data BuildError : Type 0 where
  value_error : Invalid → BuildError
  secret_not_configured : BuildError
  bad_packet_size : BuildError

-- The bytes that `bytes.strip()` removes.
abbrev pub is_space : ℕ → Bool
is_space b = b == 32 || leb 9 b && leb b 13

abbrev pub lstrip : Bytes → Bytes
lstrip [] = []
lstrip (b ∷ bs) = let rest = lstrip bs in if is_space b then rest else b ∷ bs

abbrev pub strip : Bytes → Bytes
strip bs = reverse (lstrip (reverse (lstrip bs)))

abbrev pub is_empty : Bytes → Bool
is_empty [] = true
is_empty (b ∷ bs) = false

unfoldable pub normalize_secret : Bytes → Result BuildError Bytes
normalize_secret raw = do
  let secret = strip raw
  raise_if (is_empty secret) secret_not_configured
  ok secret

-- What the code relies on of HMAC-SHA256: the digest has 32 bytes.
abbrev pub IsDigest : (Bytes → Bytes → Bytes) → Type 0
IsDigest hmac =
    (key message : Bytes) → (length (hmac key message) ≡ 32) × All IsByte (hmac key message)

module _ (hmac : Bytes → Bytes → Bytes) where
  unfoldable pub compute_auth_tag32 : Bytes → Bytes → Result BuildError ℕ
  unfolding normalize_secret
  compute_auth_tag32 secret packet_first_24 = do
    normalized_secret ← normalize_secret secret
    raise_if (not (length packet_first_24 == 24)) (value_error bad_auth_prefix)
    ok (from_le (take 4 (hmac normalized_secret packet_first_24)))
