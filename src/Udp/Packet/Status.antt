-- ===== src/Udp/Packet/Status.antt =====
-- An OKUA_STAT packet, from the sender to the reader (tools/udp_okua_v1_sender.py,
-- core/udp/packet_parser.py).
use control_ok_a_v.Base.{ℕ, ◌%◌, ◌≡◌, ap, ◌∙◌, [], ◌∷◌, ◌++◌, false, Option, some, ok, arith}
use control_ok_a_v.Base.Int.{mask}
use control_ok_a_v.Base.Bytes.{Bytes, IsByte, to_le, from_le}
use control_ok_a_v.Udp.Packet.Ota.{decode_okua_ota_runtime}
use control_ok_a_v.Udp.Packet.Reader.{
  OkuaPacketType, stat, OkuaStatPacket, stat_packet, signed_byte, is_unexpected, parse_okua_header,
  parse_okua_packet, parse_body,
}
use control_ok_a_v.Udp.Packet.Sender.{StatFields, build_okua_stat_packet, normalize_bytes}
use control_ok_a_v.Udp.Packet.Events.{IsI8, signed_byte-mask, one_byte, word, pack_signed_byte-eq}

-- What the sender means: every number cut to its field, the signal strength as it is, and the
-- reserved bytes also as the state of an update.
pub stat_of : StatFields → ℕ → ℕ → ℕ → OkuaStatPacket
stat_of f a b c = record {
  header = record {
    magic = 0x4B4F;
    version = 1;
    packet_type = stat;
    node_id = mask f.node_id 0x10000;
    seq = mask f.seq 0x10000;
  };
  uptime_s = mask f.uptime_s 0x100000000;
  rssi_dbm = f.rssi_dbm;
  state_flags = mask f.state_flags 256;
  pps_x10 = mask f.pps_x10 0x10000;
  vbat_mv = mask f.vbat_mv 0x10000;
  free_heap = mask f.free_heap 0x100000000;
  fw_major = mask f.fw_major 256;
  fw_minor = mask f.fw_minor 256;
  reset_reason = mask f.reset_reason 256;
  rsv = (a, b, c);
  ota_state_code = some a;
  ota_error_code = some b;
  ota_flags = some c;
}

stat_packet_bytes : StatFields → ℕ → ℕ → ℕ → Bytes
stat_packet_bytes f a b c =
    0x4F
    ∷ 0x4B
    ∷ 1
    ∷ 2
    ∷ (to_le 2 (mask f.node_id 0x10000)
        ++ (to_le 2 (mask f.seq 0x10000)
            ++ (to_le 4 (mask f.uptime_s 0x100000000)
                ++ (mask f.rssi_dbm 256
                    ∷ mask f.state_flags 256
                    ∷ (to_le 2 (mask f.pps_x10 0x10000)
                        ++ (to_le 2 (mask f.vbat_mv 0x10000)
                            ++ (to_le 4 (mask f.free_heap 0x100000000)
                                ++ (mask f.fw_major 256
                                    ∷ mask f.fw_minor 256
                                    ∷ mask f.reset_reason 256
                                    ∷ a
                                    ∷ b
                                    ∷ c
                                    ∷ []))))))))

build-stat :
    (f : StatFields) (a b c : ℕ)
    → f.rsv ≡ a ∷ b ∷ c ∷ []
    → IsI8 f.rssi_dbm
    → build_okua_stat_packet f ≡ ok (stat_packet_bytes f a b c)
unfolding build_okua_stat_packet normalize_bytes stat_packet_bytes
build-stat f a b c e h = simp (e, pack_signed_byte-eq f.rssi_dbm h)

reserved_byte : (b : ℕ) → IsByte b → from_le (b ∷ []) % 256 ≡ b
reserved_byte b h = omega arith

parse-stat :
    (f : StatFields) (a b c : ℕ) (expected : Option OkuaPacketType)
    → IsByte a
    → IsByte b
    → IsByte c
    → IsI8 f.rssi_dbm
    → is_unexpected expected stat ≡ false
    → parse_okua_packet (stat_packet_bytes f a b c) expected ≡ ok (stat_packet (stat_of f a b c))
unfolding parse_okua_packet parse_body parse_okua_header decode_okua_ota_runtime stat_packet_bytes
    stat_of
parse-stat f a b c expected ha hb hc h u = rw u (λ i. ok (
    stat_packet (record {
      header = record {
        magic = 0x4B4F;
        version = 1;
        packet_type = stat;
        node_id = word 2 f.node_id 0x10000 (omega arith) (omega arith) i;
        seq = word 2 f.seq 0x10000 (omega arith) (omega arith) i;
      };
      uptime_s = word 4 f.uptime_s 0x100000000 (omega arith) (omega arith) i;
      rssi_dbm =
          (ap signed_byte (one_byte (mask f.rssi_dbm 256)) ∙ signed_byte-mask f.rssi_dbm h) i;
      state_flags = one_byte (mask f.state_flags 256) i;
      pps_x10 = word 2 f.pps_x10 0x10000 (omega arith) (omega arith) i;
      vbat_mv = word 2 f.vbat_mv 0x10000 (omega arith) (omega arith) i;
      free_heap = word 4 f.free_heap 0x100000000 (omega arith) (omega arith) i;
      fw_major = one_byte (mask f.fw_major 256) i;
      fw_minor = one_byte (mask f.fw_minor 256) i;
      reset_reason = one_byte (mask f.reset_reason 256) i;
      rsv = (one_byte a i, one_byte b i, one_byte c i);
      ota_state_code = some (reserved_byte a ha i);
      ota_error_code = some (reserved_byte b hb i);
      ota_flags = some (reserved_byte c hc i);
    })))

-- With three reserved bytes and a signal strength of -128..127, any numbers are sent, and the reader
-- gets back each of them cut to its field, and the reserved bytes as the state of an update, if it
-- expects an OKUA_STAT or nothing in particular.
pub parse_okua_packet-build_okua_stat_packet :
    (f : StatFields) (a b c : ℕ) (expected : Option OkuaPacketType)
    → f.rsv ≡ a ∷ b ∷ c ∷ []
    → IsByte a
    → IsByte b
    → IsByte c
    → IsI8 f.rssi_dbm
    → is_unexpected expected stat ≡ false
    → (p : Bytes) × (build_okua_stat_packet f ≡ ok p)
      × (parse_okua_packet p expected ≡ ok (stat_packet (stat_of f a b c)))
parse_okua_packet-build_okua_stat_packet f a b c expected e ha hb hc h u =
    (stat_packet_bytes f a b c, build-stat f a b c e h, parse-stat f a b c expected ha hb hc h u)
