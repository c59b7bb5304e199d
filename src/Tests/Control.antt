-- ===== src/Tests/Control.antt =====
-- Acknowledgements, pending commands, nonces and sequence numbers on concrete inputs.
use control_ok_a_v.Base.{ℕ, ◌≡◌, ◌≢◌, refl, [], ◌∷◌, All, none, some, ok, err, arith}
use control_ok_a_v.Base.Bytes.{Bytes, IsByte}
use control_ok_a_v.Base.Dict.{lookup}
use control_ok_a_v.ControlPlane.Protocol.{ParsedOkuaAck, parse_okua_ack_bytes, invalid_size}
use control_ok_a_v.ControlPlane.Protocol.AckLayout.{
  IsInRange, ack_bytes, parse_okua_ack_bytes-ack_bytes, parse_okua_ack_bytes_sound,
}
use control_ok_a_v.ControlPlane.Pending.{
  SentOkuaCommand, CommandKey, PendingCommandStore, key_eq, key_of_sent, key_of_ack, matched,
  register_sent_command, correlate_ack_datagram,
}
use control_ok_a_v.ControlPlane.Pending.Correlation.{
  Reachable, fresh, registered, Reachable-IsWellFiled, correlate_ack_datagram-IsMatchOf,
  register-acknowledge,
}
use control_ok_a_v.ControlPlane.Pending.Echo.{IsMatchOf}
use control_ok_a_v.ControlPlane.Pending.WellFiled.{IsWellFiled}

abbrev ack : ParsedOkuaAck
ack = record {
  node_id_source = 3;
  cmd_seq = 7;
  cmd_id_echo = 1;
  nonce_echo = 0x1_0000_0002;
  ack_stage = 2;
  status_code = 0;
  ack_flags = 0;
  err_detail = 0;
  retry_after_ms = 0;
  auth_tag32 = 0xDEADBEEF;
}

ack-IsInRange : IsInRange ack
ack-IsInRange = record {
  node = omega arith;
  sequence = omega arith;
  command = omega arith;
  number = omega arith;
  stage = omega arith;
  status = omega arith;
  flags = omega arith;
  detail = omega arith;
  retry = omega arith;
  tag = omega arith;
}

parse_okua_ack_bytes-ack_bytes_example : parse_okua_ack_bytes (ack_bytes ack) ≡ ok ack
parse_okua_ack_bytes-ack_bytes_example = parse_okua_ack_bytes-ack_bytes ack ack-IsInRange

abbrev datagram : Bytes
datagram =
    0x4F ∷ 0x4B ∷ 1 ∷ 4 ∷ 3 ∷ 0 ∷ 7 ∷ 0 ∷ 1 ∷ 2 ∷ 0 ∷ 0 ∷ 0 ∷ 0 ∷ 0 ∷ 0 ∷ 2 ∷ 0 ∷ 0 ∷ 0 ∷ 1 ∷ 0 ∷ 0
    ∷ 0 ∷ 0xEF ∷ 0xBE ∷ 0xAD ∷ 0xDE ∷ []

datagram_bytes : All IsByte datagram
datagram_bytes = omega arith

datagram_read : parse_okua_ack_bytes datagram ≡ ok ack
unfolding parse_okua_ack_bytes
datagram_read = refl

parse_okua_ack_bytes_sound_example : datagram ≡ ack_bytes ack
parse_okua_ack_bytes_sound_example =
    parse_okua_ack_bytes_sound datagram ack datagram_bytes datagram_read

abbrev sent : SentOkuaCommand
sent = record {
  source = "manual";
  command_name = "PING";
  cmd_id = 1;
  node_ip = "10.0.0.3";
  node_id = 3;
  cmd_seq = 7;
  nonce = 0x1_0000_0002;
  target_port = 5007;
  packet = [];
  bytes_sent = 28;
}

same_key : key_of_sent sent ≡ key_of_ack ack
unfolding key_of_sent key_of_ack
same_key = refl

abbrev filed : PendingCommandStore ℕ
filed = register_sent_command sent none 10 []

filed-Reachable : Reachable filed
filed-Reachable = registered sent none 10 fresh

Reachable-IsWellFiled_example : IsWellFiled filed
Reachable-IsWellFiled_example = Reachable-IsWellFiled filed-Reachable

datagram_matched :
    (correlate_ack_datagram datagram "10.0.0.3" 5008 none 20 filed).0.status ≡ matched
unfolding correlate_ack_datagram register_sent_command parse_okua_ack_bytes key_of_sent key_of_ack
datagram_matched = refl

correlate_ack_datagram-IsMatchOf_example :
    (a : ParsedOkuaAck) × (parse_okua_ack_bytes datagram ≡ ok a)
    × IsMatchOf a filed (correlate_ack_datagram datagram "10.0.0.3" 5008 none 20 filed)
correlate_ack_datagram-IsMatchOf_example =
    correlate_ack_datagram-IsMatchOf datagram "10.0.0.3" 5008 none 20 filed filed-Reachable
      datagram_matched

short_refused : parse_okua_ack_bytes (1 ∷ []) ≡ err invalid_size
unfolding parse_okua_ack_bytes
short_refused = refl

abbrev other_key : CommandKey
other_key = record { seq_part = 8; id_part = 1; nonce_part = 3 }

register-acknowledge_example :
    let (r, store') =
      correlate_ack_datagram
        (ack_bytes ack)
        "10.0.0.3"
        5008
        none
        20
        (register_sent_command sent none 10 filed) in
    (r.status ≡ matched)
    × (r.sent_command ≡ some sent)
    × (r.ack ≡ some ack)
    × (lookup (key_of_sent sent) store' ≡ none)
    × (other_key ≢ key_of_sent sent → lookup other_key store' ≡ lookup other_key filed)
register-acknowledge_example =
    register-acknowledge sent ack "10.0.0.3" 5008 none none 10 20 filed other_key filed-Reachable
      ack-IsInRange same_key
