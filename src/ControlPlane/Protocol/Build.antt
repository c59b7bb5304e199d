-- ===== src/ControlPlane/Protocol/Build.antt =====
-- `build_okua_cmd_bytes` and the builders of the six commands, with their checks.
use Prim.Native.Nat.{bit_or}
use control_ok_a_v.Base.{
  ℕ, ◌%◌, ◌/◌, ◌^◌, Bool, false, not, ◌&&◌, ◌||◌, ◌∷◌, ◌++◌, leb, ltb, ◌==◌, if◌then◌else◌, length,
  take, Result, ok, err, ◌>>=◌, ◌>>◌, raise_if,
}
use control_ok_a_v.Base.Int.{ℤ, pos, pos_part, ltb_ℤ}
use control_ok_a_v.Base.Bytes.{Bytes, to_le}
use control_ok_a_v.ControlPlane.Auth.{
  Invalid, BuildError, value_error, bad_packet_size, compute_auth_tag32, bad_node_id, bad_cmd_seq,
  bad_cmd_id, bad_arg0, bad_arg1, bad_nonce, bad_delay, bad_stat_rate, bad_throttle,
  bad_rollout_token, unicast_only, broadcast_required, broadcast_refused,
}

-- core/udp/packet_models.py
abbrev pub okua_magic : ℕ
okua_magic = 0x4B4F

abbrev pub okua_version : ℕ
okua_version = 1

abbrev pub okua_type_cmd : ℕ
okua_type_cmd = 3

abbrev pub okua_type_ack : ℕ
okua_type_ack = 4

abbrev pub okua_cmd_packet_size : ℕ
okua_cmd_packet_size = 28

abbrev pub okua_ack_packet_size : ℕ
okua_ack_packet_size = 28

abbrev pub cmd_flag_ack_required : ℕ
cmd_flag_ack_required = 0x01

abbrev pub cmd_flag_is_retry : ℕ
cmd_flag_is_retry = 0x02

abbrev pub cmd_flag_broadcast_intent : ℕ
cmd_flag_broadcast_intent = 0x04

pub data OkuaCmdId : Type 0 where
  ping reboot_soft set_throttle set_stat_rate request_stat_now ota_check_now : OkuaCmdId

-- `int(OkuaCmdId.X)`
abbrev pub cmd_id_value : OkuaCmdId → ℕ
cmd_id_value ping = 0x01
cmd_id_value reboot_soft = 0x02
cmd_id_value set_throttle = 0x04
cmd_id_value set_stat_rate = 0x05
cmd_id_value request_stat_now = 0x07
cmd_id_value ota_check_now = 0x08

-- An integer in 0..limit, or the `ValueError` about it.
abbrev pub validate_upto : ℕ → Invalid → ℤ → Result BuildError ℕ
validate_upto limit what value =
    if ltb_ℤ value (pos 0) || ltb_ℤ (pos limit) value
    then err (value_error what)
    else ok (pos_part value)

abbrev pub validate_u8 : Invalid → ℤ → Result BuildError ℕ
validate_u8 = validate_upto 0xFF

abbrev pub validate_u16 : Invalid → ℤ → Result BuildError ℕ
validate_u16 = validate_upto 0xFFFF

abbrev pub validate_u64 : Invalid → ℤ → Result BuildError ℕ
validate_u64 = validate_upto 0xFFFF_FFFF_FFFF_FFFF

unfoldable pub validate_broadcast_flags : ℕ → Bool → Result BuildError (Unit {0})
validate_broadcast_flags node_id_target broadcast_intent = do
  raise_if (node_id_target == 0 && not broadcast_intent) (value_error broadcast_required)
  raise_if (not (node_id_target == 0) && broadcast_intent) (value_error broadcast_refused)

unfoldable pub build_cmd_flags : Bool → Bool → ℕ
build_cmd_flags is_retry broadcast_intent =
    let flags =
      if is_retry then bit_or cmd_flag_ack_required cmd_flag_is_retry else cmd_flag_ack_required in
    if broadcast_intent then bit_or flags cmd_flag_broadcast_intent else flags

-- `_CMD_STRUCT.pack`: "<HBBHHBBHHQ2sI"
abbrev pub pack_cmd : ℕ → ℕ → ℕ → ℕ → ℕ → ℕ → ℕ → ℕ → Bytes
pack_cmd node_id cmd_seq cmd_id cmd_flags arg0 arg1 nonce auth_tag32 =
    to_le 2 okua_magic
    ++ (to_le 1 okua_version
        ++ (to_le 1 okua_type_cmd
            ++ (to_le 2 node_id
                ++ (to_le 2 cmd_seq
                    ++ (to_le 1 cmd_id
                        ++ (to_le 1 cmd_flags
                            ++ (to_le 2 arg0
                                ++ (to_le 2 arg1
                                    ++ (to_le 8 nonce ++ (0 ∷ 0 ∷ to_le 4 auth_tag32))))))))))

unfoldable pub validate_reboot_delay_ms : ℤ → Result BuildError ℕ
validate_reboot_delay_ms delay_ms = do
  resolved_delay ← validate_u16 bad_delay delay_ms
  if resolved_delay == 0
      then ok 0
      else if leb 50 resolved_delay && leb resolved_delay 5000
      then ok resolved_delay
      else err (value_error bad_delay)

unfoldable pub validate_set_stat_rate_ms : ℤ → Result BuildError ℕ
validate_set_stat_rate_ms stat_rate_ms = do
  resolved ← validate_u16 bad_stat_rate stat_rate_ms
  if resolved == 1000 || resolved == 2000 || resolved == 5000
      then ok resolved
      else err (value_error bad_stat_rate)

unfoldable pub validate_set_throttle_percent : ℤ → Result BuildError ℕ
validate_set_throttle_percent throttle_percent = do
  resolved ← validate_u16 bad_throttle throttle_percent
  if resolved == 25 || resolved == 50 || resolved == 100
      then ok resolved
      else err (value_error bad_throttle)

unfoldable pub validate_rollout_token : ℤ → Result BuildError ℕ
validate_rollout_token rollout_token = do
  resolved ← validate_u64 bad_rollout_token rollout_token
  raise_if (ltb resolved 1 || ltb 0xFFFF_FFFF resolved) (value_error bad_rollout_token)
  ok resolved

-- `node_id_target` of a command that only goes to one node.
unfoldable pub validate_unicast_target : ℤ → Result BuildError ℕ
validate_unicast_target node_id_target = do
  resolved_node_id ← validate_u16 bad_node_id node_id_target
  raise_if (resolved_node_id == 0) (value_error unicast_only)
  ok resolved_node_id

module _ (hmac : Bytes → Bytes → Bytes) (secret : Bytes) where
  -- The arguments follow the source's: target, sequence, command, nonce, arguments, flags.
  unfoldable pub build_okua_cmd_bytes :
      ℤ → ℤ → ℤ → ℤ → ℤ → ℤ → Bool → Bool → Result BuildError Bytes
  unfolding validate_broadcast_flags compute_auth_tag32
  build_okua_cmd_bytes node_id_target cmd_seq cmd_id nonce arg0 arg1 is_retry broadcast_intent = do
    resolved_node_id ← validate_u16 bad_node_id node_id_target
    resolved_cmd_seq ← validate_u16 bad_cmd_seq cmd_seq
    resolved_cmd_id ← validate_u8 bad_cmd_id cmd_id
    resolved_arg0 ← validate_u16 bad_arg0 arg0
    resolved_arg1 ← validate_u16 bad_arg1 arg1
    resolved_nonce ← validate_u64 bad_nonce nonce
    validate_broadcast_flags resolved_node_id broadcast_intent
    let cmd_flags = build_cmd_flags is_retry broadcast_intent
    let pack =
        pack_cmd resolved_node_id resolved_cmd_seq resolved_cmd_id cmd_flags resolved_arg0
          resolved_arg1 resolved_nonce
    auth_tag32 ← compute_auth_tag32 hmac secret (take 24 (pack 0))
    let packet = pack auth_tag32
    raise_if (not (length packet == okua_cmd_packet_size)) bad_packet_size
    ok packet

  unfoldable pub build_ping_command : ℤ → ℤ → ℤ → Bool → Bool → Result BuildError Bytes
  build_ping_command node_id_target cmd_seq nonce is_retry broadcast_intent =
      build_okua_cmd_bytes node_id_target cmd_seq (pos (cmd_id_value ping)) nonce (pos 0) (pos 0)
        is_retry broadcast_intent

  unfoldable pub build_request_stat_now_command : ℤ → ℤ → ℤ → Bool → Bool → Result BuildError Bytes
  build_request_stat_now_command node_id_target cmd_seq nonce is_retry broadcast_intent =
      build_okua_cmd_bytes node_id_target cmd_seq (pos (cmd_id_value request_stat_now)) nonce
        (pos 0) (pos 0) is_retry broadcast_intent

  unfoldable pub build_reboot_soft_command : ℤ → ℤ → ℤ → ℤ → Bool → Result BuildError Bytes
  unfolding validate_unicast_target validate_reboot_delay_ms
  build_reboot_soft_command node_id_target cmd_seq nonce delay_ms is_retry = do
    resolved_node_id ← validate_unicast_target node_id_target
    resolved_delay ← validate_reboot_delay_ms delay_ms
    build_okua_cmd_bytes (pos resolved_node_id) cmd_seq (pos (cmd_id_value reboot_soft)) nonce
        (pos resolved_delay) (pos 0) is_retry false

  unfoldable pub build_set_stat_rate_command : ℤ → ℤ → ℤ → ℤ → Bool → Result BuildError Bytes
  unfolding validate_unicast_target validate_set_stat_rate_ms
  build_set_stat_rate_command node_id_target cmd_seq nonce stat_rate_ms is_retry = do
    resolved_node_id ← validate_unicast_target node_id_target
    resolved_stat_rate ← validate_set_stat_rate_ms stat_rate_ms
    build_okua_cmd_bytes (pos resolved_node_id) cmd_seq (pos (cmd_id_value set_stat_rate)) nonce
        (pos resolved_stat_rate) (pos 0) is_retry false

  unfoldable pub build_set_throttle_command : ℤ → ℤ → ℤ → ℤ → Bool → Result BuildError Bytes
  unfolding validate_unicast_target validate_set_throttle_percent
  build_set_throttle_command node_id_target cmd_seq nonce throttle_percent is_retry = do
    resolved_node_id ← validate_unicast_target node_id_target
    resolved_throttle_percent ← validate_set_throttle_percent throttle_percent
    build_okua_cmd_bytes (pos resolved_node_id) cmd_seq (pos (cmd_id_value set_throttle)) nonce
        (pos resolved_throttle_percent) (pos 0) is_retry false

  unfoldable pub build_ota_check_now_command : ℤ → ℤ → ℤ → ℤ → Bool → Result BuildError Bytes
  unfolding validate_unicast_target validate_rollout_token
  build_ota_check_now_command node_id_target cmd_seq nonce rollout_token is_retry = do
    resolved_node_id ← validate_unicast_target node_id_target
    resolved_rollout_token ← validate_rollout_token rollout_token
    let low = resolved_rollout_token % 0x1_0000
    let high = resolved_rollout_token / 2 ^ 16 % 0x1_0000
    build_okua_cmd_bytes (pos resolved_node_id) cmd_seq (pos (cmd_id_value ota_check_now)) nonce
        (pos low) (pos high) is_retry false
