-- ===== src/Tests/Command.antt =====
-- Commands on concrete inputs. The digest of these tests is the message itself, in 32 bytes.
use control_ok_a_v.Base.{
  ℕ, ◌+◌, ◌*◌, ◌<◌, ◌≡◌, refl, false, [], ◌∷◌, Option, some, String, ok, arith, ◌↔◌,
}
use control_ok_a_v.Base.Int.{pos}
use control_ok_a_v.Base.Bytes.{Bytes, to_le, from_le, length-to_le, to_le-IsByte}
use control_ok_a_v.ControlPlane.Auth.{IsDigest}
use control_ok_a_v.ControlPlane.Protocol.{
  build_okua_cmd_bytes, build_cmd_flags, build_reboot_soft_command, build_set_stat_rate_command,
  build_set_throttle_command, build_ota_check_now_command,
}
use control_ok_a_v.ControlPlane.Protocol.Wire.{
  IsAccepted, IsCmdPacket, flag_sum, tag_of, build_okua_cmd_bytes_iff,
  build_okua_cmd_bytes-IsCmdPacket,
}
use control_ok_a_v.ControlPlane.Nonce.Order.{IsLive}
use control_ok_a_v.ControlPlane.Pending.{SentOkuaCommand}
use control_ok_a_v.Services.Cmd.{
  CmdService, returns, raises_on_send, send_ping, send_reboot_soft, send_new_command,
  resend_sent_command,
}
use control_ok_a_v.Services.Cmd.Replay.{
  IsSent, Calls, done, call, send_new_command-IsSent, sent_nonces_grow,
}

abbrev pub digest : Bytes → Bytes → Bytes
digest key message = to_le 32 (from_le message)

pub digest-IsDigest : IsDigest digest
digest-IsDigest key message = (length-to_le 32 (from_le message), to_le-IsByte 32 (from_le message))

abbrev pub secret : Bytes
secret = 0x6B ∷ []

abbrev pub as_is : String → Option String
as_is text = some text

abbrev pub service : ℕ → ℕ → CmdService
service seq counter = record {
  secret = secret;
  nonce_manager = record { control_epoch_s = 5; cmd_counter = counter };
  seq_manager = record { next_seq = seq };
  cmd_port = 5007;
}

abbrev pub ping_packet : ℕ → ℕ → Bytes
ping_packet seq counter =
    0x4F ∷ 0x4B ∷ 1 ∷ 3 ∷ 3 ∷ 0 ∷ seq ∷ 0 ∷ 1 ∷ 1 ∷ 0 ∷ 0 ∷ 0 ∷ 0 ∷ counter ∷ 0 ∷ 0 ∷ 0 ∷ 5 ∷ 0 ∷ 0
    ∷ 0 ∷ 0 ∷ 0 ∷ 0x4F ∷ 0x4B ∷ 1 ∷ 3 ∷ []

abbrev pub sent_ping : ℕ → ℕ → SentOkuaCommand
sent_ping seq counter = record {
  source = "manual";
  command_name = "PING";
  cmd_id = 1;
  node_ip = "10.0.0.3";
  node_id = 3;
  cmd_seq = seq;
  nonce = 5 * 0x1_0000_0000 + counter;
  target_port = 5007;
  packet = ping_packet seq counter;
  bytes_sent = 28;
}

ping_sent :
    send_new_command as_is digest
      (service 7 0)
      send_ping
      "10.0.0.3"
      (pos 3)
      "manual"
      (returns (pos 28))
    ≡ (ok (sent_ping 7 0), service 8 1)
unfolding send_new_command build_okua_cmd_bytes build_cmd_flags
ping_sent = refl

send_new_command-IsSent_example :
    IsSent send_ping (service 7 0) (service 8 1) (sent_ping 7 0) × (pos 3 ≡ pos 3)
send_new_command-IsSent_example =
    send_new_command-IsSent digest as_is digest-IsDigest (service 7 0) (service 8 1) send_ping
      "10.0.0.3" (pos 3) "manual" (returns (pos 28)) (sent_ping 7 0) ping_sent

next_ping_sent :
    send_new_command as_is digest
      (service 9 2)
      send_ping
      "10.0.0.3"
      (pos 3)
      "manual"
      (returns (pos 28))
    ≡ (ok (sent_ping 9 2), service 10 3)
unfolding send_new_command build_okua_cmd_bytes build_cmd_flags
next_ping_sent = refl

-- A call that fails on the wire spends its numbers.
failed_call : Calls digest as_is (service 8 1) (service 9 2)
unfolding send_new_command build_okua_cmd_bytes build_cmd_flags
failed_call = call (send_reboot_soft (pos 100)) "10.0.0.3" (pos 3) "manual" raises_on_send done

service-IsLive : IsLive (service 7 0).nonce_manager
service-IsLive = record { epoch = omega arith; counter = omega arith }

sent_nonces_grow_example : (sent_ping 7 0).nonce < (sent_ping 9 2).nonce
sent_nonces_grow_example =
    sent_nonces_grow digest as_is digest-IsDigest (service 7 0) (service 8 1) (service 9 2)
      (service 10 3) send_ping send_ping "10.0.0.3" "10.0.0.3" (pos 3) (pos 3) "manual" "manual"
      (returns (pos 28)) (returns (pos 28)) (sent_ping 7 0) (sent_ping 9 2) service-IsLive ping_sent
      failed_call next_ping_sent

resent : SentOkuaCommand
resent = record (sent_ping 7 0) { source = "again" }

ping_resent : resend_sent_command as_is (sent_ping 7 0) "again" (returns (pos 28)) ≡ ok resent
unfolding resend_sent_command resent
ping_resent = refl

abbrev nonce : ℕ
nonce = 5 * 0x1_0000_0000

ping_built :
    build_okua_cmd_bytes digest secret
      (pos 3)
      (pos 7)
      (pos 1)
      (pos nonce)
      (pos 0)
      (pos 0)
      false
      false
    ≡ ok (ping_packet 7 0)
unfolding build_okua_cmd_bytes build_cmd_flags
ping_built = refl

build_okua_cmd_bytes-IsCmdPacket_example :
    IsCmdPacket
      (ping_packet 7 0)
      3
      7
      1
      (flag_sum false false)
      0
      0
      nonce
      (tag_of digest secret (ping_packet 7 0))
build_okua_cmd_bytes-IsCmdPacket_example =
    build_okua_cmd_bytes-IsCmdPacket digest secret (pos 3) (pos 7) (pos 1) (pos nonce) (pos 0)
      (pos 0) false false digest-IsDigest (ping_packet 7 0) ping_built

build_okua_cmd_bytes_iff_example :
    IsAccepted secret (pos 3) (pos 7) (pos 1) (pos nonce) (pos 0) (pos 0) false ↔ (
      (p : Bytes) × (build_okua_cmd_bytes digest secret
          (pos 3)
          (pos 7)
          (pos 1)
          (pos nonce)
          (pos 0)
          (pos 0)
          false
          false
        ≡ ok p))
build_okua_cmd_bytes_iff_example =
    build_okua_cmd_bytes_iff digest secret (pos 3) (pos 7) (pos 1) (pos nonce) (pos 0) (pos 0) false
      false

-- A unicast packet with a parameter.
abbrev packet_of : ℕ → ℕ → ℕ → ℕ → ℕ → Bytes
packet_of id a0 a1 b0 b1 =
    0x4F ∷ 0x4B ∷ 1 ∷ 3 ∷ 3 ∷ 0 ∷ 7 ∷ 0 ∷ id ∷ 1 ∷ a0 ∷ a1 ∷ b0 ∷ b1 ∷ 0 ∷ 0 ∷ 0 ∷ 0 ∷ 5 ∷ 0 ∷ 0 ∷ 0
    ∷ 0 ∷ 0 ∷ 0x4F ∷ 0x4B ∷ 1 ∷ 3 ∷ []

reboot_built :
    build_reboot_soft_command digest secret (pos 3) (pos 7) (pos nonce) (pos 300) false
    ≡ ok (packet_of 2 44 1 0 0)
unfolding build_reboot_soft_command build_okua_cmd_bytes build_cmd_flags
reboot_built = refl

stat_rate_built :
    build_set_stat_rate_command digest secret (pos 3) (pos 7) (pos nonce) (pos 1000) false
    ≡ ok (packet_of 5 232 3 0 0)
unfolding build_set_stat_rate_command build_okua_cmd_bytes build_cmd_flags
stat_rate_built = refl

throttle_built :
    build_set_throttle_command digest secret (pos 3) (pos 7) (pos nonce) (pos 50) false
    ≡ ok (packet_of 4 50 0 0 0)
unfolding build_set_throttle_command build_okua_cmd_bytes build_cmd_flags
throttle_built = refl

ota_built :
    build_ota_check_now_command digest secret (pos 3) (pos 7) (pos nonce) (pos 0x12345) false
    ≡ ok (packet_of 8 0x45 0x23 1 0)
unfolding build_ota_check_now_command build_okua_cmd_bytes build_cmd_flags
ota_built = refl
