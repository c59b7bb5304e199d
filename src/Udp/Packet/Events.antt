-- ===== src/Udp/Packet/Events.antt =====
-- An OKUA_EVT packet, from the sender to the reader (tools/udp_okua_v1_sender.py,
-- core/udp/packet_parser.py).
use control_ok_a_v.Base.{
  ℕ, ◌-◌, ◌%◌, ◌^◌, ◌≤◌, ◌<◌, ◌≡◌, ap, ◌∙◌, [], ◌∷◌, ◌++◌, false, Option, ltb, ok, arith,
}
use control_ok_a_v.Base.Int.{ℤ, pos, negsuc, ◌≤ℤ◌, mask}
use control_ok_a_v.Base.Bytes.{Bytes, to_le, from_le, from_le-to_le}
use control_ok_a_v.Udp.Packet.Reader.{
  OkuaPacketType, evt, OkuaEvtPacket, evt_packet, signed_byte, is_unexpected, parse_okua_header,
  parse_okua_packet, parse_body,
}
use control_ok_a_v.Udp.Packet.Sender.{
  EvtFields, pack_signed_byte, build_okua_evt_packet, normalize_bytes,
}

abbrev pub IsI8 : ℤ → Type 0
IsI8 v = (negsuc 127 ≤ℤ v) × (v ≤ℤ pos 127)

pub signed_byte-mask : (v : ℤ) → IsI8 v → signed_byte (mask v 256) ≡ v
signed_byte-mask (pos n) h = ground arith
signed_byte-mask (negsuc n) h =
    let e : 255 - (255 - n % 256) ≡ n = omega arith in
    let t : ltb (255 - n % 256) 128 ≡ false = ground arith in rw t (ap negsuc e)

pub one_byte : (b : ℕ) → from_le (b ∷ []) ≡ b
one_byte b = omega arith

-- What the sender means: every number cut to its field, the signal strength as it is.
pub evt_of : EvtFields → ℕ → ℕ → OkuaEvtPacket
evt_of f a b = record {
  header = record {
    magic = 0x4B4F;
    version = 1;
    packet_type = evt;
    node_id = mask f.node_id 0x10000;
    seq = mask f.seq 0x10000;
  };
  midi_bus = mask f.midi_bus 256;
  midi_ch = mask f.midi_ch 256;
  note = mask f.note 256;
  vel = mask f.vel 256;
  ts_ms = mask f.ts_ms 0x100000000;
  rssi_dbm = f.rssi_dbm;
  flags = mask f.flags 256;
  rsv = (a, b);
}

pub mask-lt : (v : ℤ) (m : ℕ) → 0 < m → mask v m < m
mask-lt (pos n) m h = omega arith
mask-lt (negsuc n) m h = omega arith

pub word : (n : ℕ) (v : ℤ) (m : ℕ) → 0 < m → m ≤ 256 ^ n → from_le (to_le n (mask v m)) ≡ mask v m
word n v m h k = from_le-to_le n (mask v m) (omega (arith, mask-lt v m h))

pub pack_signed_byte-eq : (v : ℤ) → IsI8 v → pack_signed_byte v ≡ ok (mask v 256)
pack_signed_byte-eq v h = ground arith

-- The packet that is sent, once the signal strength is packed.
evt_packet_bytes : EvtFields → ℕ → ℕ → Bytes
evt_packet_bytes f a b =
    0x4F
    ∷ 0x4B
    ∷ 1
    ∷ 1
    ∷ (to_le 2 (mask f.node_id 0x10000)
        ++ (to_le 2 (mask f.seq 0x10000)
            ++ (mask f.midi_bus 256
                ∷ mask f.midi_ch 256
                ∷ mask f.note 256
                ∷ mask f.vel 256
                ∷ (to_le 4 (mask f.ts_ms 0x100000000)
                    ++ (mask f.rssi_dbm 256 ∷ mask f.flags 256 ∷ a ∷ b ∷ [])))))

build-evt :
    (f : EvtFields) (a b : ℕ)
    → f.rsv ≡ a ∷ b ∷ []
    → IsI8 f.rssi_dbm
    → build_okua_evt_packet f ≡ ok (evt_packet_bytes f a b)
unfolding build_okua_evt_packet normalize_bytes evt_packet_bytes
build-evt f a b e h = simp (e, pack_signed_byte-eq f.rssi_dbm h)

parse-evt :
    (f : EvtFields) (a b : ℕ) (expected : Option OkuaPacketType)
    → IsI8 f.rssi_dbm
    → is_unexpected expected evt ≡ false
    → parse_okua_packet (evt_packet_bytes f a b) expected ≡ ok (evt_packet (evt_of f a b))
unfolding parse_okua_packet parse_body parse_okua_header evt_packet_bytes evt_of
parse-evt f a b expected h u = rw u (λ i. ok (
    evt_packet (record {
      header = record {
        magic = 0x4B4F;
        version = 1;
        packet_type = evt;
        node_id = word 2 f.node_id 0x10000 (omega arith) (omega arith) i;
        seq = word 2 f.seq 0x10000 (omega arith) (omega arith) i;
      };
      midi_bus = one_byte (mask f.midi_bus 256) i;
      midi_ch = one_byte (mask f.midi_ch 256) i;
      note = one_byte (mask f.note 256) i;
      vel = one_byte (mask f.vel 256) i;
      ts_ms = word 4 f.ts_ms 0x100000000 (omega arith) (omega arith) i;
      rssi_dbm =
          (ap signed_byte (one_byte (mask f.rssi_dbm 256)) ∙ signed_byte-mask f.rssi_dbm h) i;
      flags = one_byte (mask f.flags 256) i;
      rsv = (one_byte a i, one_byte b i);
    })))

-- With two reserved bytes and a signal strength of -128..127, any numbers are sent, and the reader
-- gets back each of them cut to its field, if it expects an OKUA_EVT or nothing in particular.
pub parse_okua_packet-build_okua_evt_packet :
    (f : EvtFields) (a b : ℕ) (expected : Option OkuaPacketType)
    → f.rsv ≡ a ∷ b ∷ []
    → IsI8 f.rssi_dbm
    → is_unexpected expected evt ≡ false
    → (p : Bytes) × (build_okua_evt_packet f ≡ ok p)
      × (parse_okua_packet p expected ≡ ok (evt_packet (evt_of f a b)))
parse_okua_packet-build_okua_evt_packet f a b expected e h u =
    (evt_packet_bytes f a b, build-evt f a b e h, parse-evt f a b expected h u)
