-- ===== src/ControlPlane/Protocol/Commands.antt =====
-- The commands that take a parameter, as a node reads them off the wire
-- (core/control_plane/protocol.py).
use control_ok_a_v.Base.{
  ℕ, ◌+◌, ◌*◌, ◌%◌, ◌/◌, ◌^◌, ◌≤◌, ◌<◌, ◌≡◌, ◌⊎◌, Bool, false, Result, ok, arith, ◌>>=◌, >>=-eq-ok,
  ap, sym, ◌∙◌,
}
use control_ok_a_v.Base.Int.{ℤ, pos}
use control_ok_a_v.Base.Bytes.{Bytes, field}
use control_ok_a_v.ControlPlane.Auth.{BuildError, IsDigest}
use control_ok_a_v.ControlPlane.Protocol.Build.{
  build_okua_cmd_bytes, build_reboot_soft_command, build_set_stat_rate_command,
  build_set_throttle_command, build_ota_check_now_command, validate_unicast_target,
  validate_reboot_delay_ms, validate_set_stat_rate_ms, validate_set_throttle_percent,
  validate_rollout_token,
}
use control_ok_a_v.ControlPlane.Protocol.Wire.{tag_of, flag_sum, build_okua_cmd_bytes-IsCmdPacket}

pub validate_unicast_target-eq_ok :
    (v : ℤ) (n : ℕ) → validate_unicast_target v ≡ ok n → (v ≡ pos n) × (1 ≤ n)
unfolding validate_unicast_target
validate_unicast_target-eq_ok v n h = ground arith

validate_reboot_delay_ms-eq_ok :
    (v : ℤ) (n : ℕ)
    → validate_reboot_delay_ms v ≡ ok n
    → (v ≡ pos n) × ((n ≡ 0) ⊎ ((50 ≤ n) × (n ≤ 5000)))
unfolding validate_reboot_delay_ms
validate_reboot_delay_ms-eq_ok v n h = ground arith

validate_set_stat_rate_ms-eq_ok :
    (v : ℤ) (n : ℕ)
    → validate_set_stat_rate_ms v ≡ ok n
    → (v ≡ pos n) × ((n ≡ 1000) ⊎ (n ≡ 2000) ⊎ (n ≡ 5000))
unfolding validate_set_stat_rate_ms
validate_set_stat_rate_ms-eq_ok v n h = ground arith

validate_set_throttle_percent-eq_ok :
    (v : ℤ) (n : ℕ)
    → validate_set_throttle_percent v ≡ ok n
    → (v ≡ pos n) × ((n ≡ 25) ⊎ (n ≡ 50) ⊎ (n ≡ 100))
unfolding validate_set_throttle_percent
validate_set_throttle_percent-eq_ok v n h = ground arith

validate_rollout_token-eq_ok :
    (v : ℤ) (n : ℕ) → validate_rollout_token v ≡ ok n → (v ≡ pos n) × (1 ≤ n) × (n < 2 ^ 32)
unfolding validate_rollout_token
validate_rollout_token-eq_ok v n h = ground arith

-- A packet to the one node that the caller named, with no broadcast flag and a valid tag.
pub record IsUnicast (hmac : Bytes → Bytes → Bytes) (secret packet : Bytes) (node : ℤ) (cmd_id : ℕ)
    (is_retry : Bool) : Type 0 where
  pub target : pos (field packet 4 2) ≡ node
  pub someone : 1 ≤ field packet 4 2
  pub command : field packet 8 1 ≡ cmd_id
  pub flags : field packet 9 1 ≡ flag_sum is_retry false
  pub tag : field packet 24 4 ≡ tag_of hmac secret packet

module _ (hmac : Bytes → Bytes → Bytes) (secret : Bytes) (digest : IsDigest hmac) where
  module _ (node seq nonce : ℤ) (r : Bool) (p : Bytes) where
    packet-IsUnicast :
        (n id first second : ℕ)
        → node ≡ pos n
        → 1 ≤ n
        → build_okua_cmd_bytes hmac secret
            (pos n)
            seq
            (pos id)
            nonce
            (pos first)
            (pos second)
            r
            false
          ≡ ok p
        → IsUnicast hmac secret p node id r × (field p 10 2 ≡ first) × (field p 12 2 ≡ second)
    packet-IsUnicast n id first second e h built =
        let w =
          build_okua_cmd_bytes-IsCmdPacket hmac secret (pos n) seq (pos id) nonce (pos first)
            (pos second) r false digest p built in
        (
          record {
            target = rw (w.target, e);
            someone = rw w.target h;
            command = w.command;
            flags = w.flags;
            tag = w.tag;
          },
          w.first,
          w.second,
        )

    -- The shape that three of the builders share: a check of the target, a check of the parameter.
    with_parameter :
        (validate : ℤ → Result BuildError ℕ) (v : ℤ) (id : ℕ)
        → (do
          n ← validate_unicast_target node
          d ← validate v
          build_okua_cmd_bytes hmac secret (pos n) seq (pos id) nonce (pos d) (pos 0) r false)
          ≡ ok p
        → (d : ℕ) × (validate v ≡ ok d) × IsUnicast hmac secret p node id r × (field p 10 2 ≡ d)
    with_parameter validate v id h =
        let (n, target, h1) = >>=-eq-ok (validate_unicast_target node) _ h in
        let (d, parameter, built) = >>=-eq-ok (validate v) _ h1 in
        let (e, some) = validate_unicast_target-eq_ok node n target in
        let (u, first, _) = packet-IsUnicast n id d 0 e some built in (d, parameter, u, first)

    -- A REBOOT_SOFT that is built goes to the one node named, and its delay is the caller's: 0 or
    -- 50..5000.
    pub build_reboot_soft_command-wire :
        (delay_ms : ℤ)
        → build_reboot_soft_command hmac secret node seq nonce delay_ms r ≡ ok p
        → IsUnicast hmac secret p node 2 r
          × (pos (field p 10 2) ≡ delay_ms)
          × ((field p 10 2 ≡ 0) ⊎ ((50 ≤ field p 10 2) × (field p 10 2 ≤ 5000)))
    unfolding build_reboot_soft_command
    build_reboot_soft_command-wire delay_ms h =
        let (d, parameter, u, first) = with_parameter validate_reboot_delay_ms delay_ms 2 h in
        let (f, range) = validate_reboot_delay_ms-eq_ok delay_ms d parameter in
        (u, ap pos first ∙ sym f, rw first range)

    -- A SET_STAT_RATE that is built goes to the one node named, and its period is the caller's:
    -- 1000, 2000 or 5000.
    pub build_set_stat_rate_command-wire :
        (stat_rate_ms : ℤ)
        → build_set_stat_rate_command hmac secret node seq nonce stat_rate_ms r ≡ ok p
        → IsUnicast hmac secret p node 5 r
          × (pos (field p 10 2) ≡ stat_rate_ms)
          × ((field p 10 2 ≡ 1000) ⊎ (field p 10 2 ≡ 2000) ⊎ (field p 10 2 ≡ 5000))
    unfolding build_set_stat_rate_command
    build_set_stat_rate_command-wire stat_rate_ms h =
        let (d, parameter, u, first) = with_parameter validate_set_stat_rate_ms stat_rate_ms 5 h in
        let (f, range) = validate_set_stat_rate_ms-eq_ok stat_rate_ms d parameter in
        (u, ap pos first ∙ sym f, rw first range)

    -- A SET_THROTTLE that is built goes to the one node named, and its percentage is the caller's:
    -- 25, 50 or 100.
    pub build_set_throttle_command-wire :
        (throttle_percent : ℤ)
        → build_set_throttle_command hmac secret node seq nonce throttle_percent r ≡ ok p
        → IsUnicast hmac secret p node 4 r
          × (pos (field p 10 2) ≡ throttle_percent)
          × ((field p 10 2 ≡ 25) ⊎ (field p 10 2 ≡ 50) ⊎ (field p 10 2 ≡ 100))
    unfolding build_set_throttle_command
    build_set_throttle_command-wire throttle_percent h =
        let (d, parameter, u, first) =
          with_parameter validate_set_throttle_percent throttle_percent 4 h in
        let (f, range) = validate_set_throttle_percent-eq_ok throttle_percent d parameter in
        (u, ap pos first ∙ sym f, rw first range)

    -- An OTA_CHECK_NOW that is built goes to the one node named. Its two arguments, read as one
    -- 32-bit little-endian number, are the caller's rollout token, which is not 0.
    pub build_ota_check_now_command-wire :
        (rollout_token : ℤ)
        → build_ota_check_now_command hmac secret node seq nonce rollout_token r ≡ ok p
        → IsUnicast hmac secret p node 8 r
          × (pos (field p 10 2 + 2 ^ 16 * field p 12 2) ≡ rollout_token)
          × (1 ≤ field p 10 2 + 2 ^ 16 * field p 12 2)
    unfolding build_ota_check_now_command
    build_ota_check_now_command-wire rollout_token h =
        let (n, target, h1) = >>=-eq-ok (validate_unicast_target node) _ h in
        let (t, token, built) = >>=-eq-ok (validate_rollout_token rollout_token) _ h1 in
        let (e, some) = validate_unicast_target-eq_ok node n target in
        let (f, low, high) = validate_rollout_token-eq_ok rollout_token t token in
        let (u, first, second) =
          packet-IsUnicast n 8 (t % 0x1_0000) (t / 2 ^ 16 % 0x1_0000) e some built in
        let whole : field p 10 2 + 2 ^ 16 * field p 12 2 ≡ t =
          omega (arith, low, high, first, second) in
        (u, ap pos whole ∙ sym f, omega (arith, whole, low))
