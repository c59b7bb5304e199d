-- ===== src/Udp/Packet/Accepted.antt =====
-- Which datagrams are read as packets of nodes (core/udp/packet_parser.py).
use control_ok_a_v.Base.{
  ℕ, ◌≡◌, ◌↔◌, refl, ◌⊎◌, inl, inr, false, Option, ok, >>=-eq-ok, raise_if-eq-ok, not, ltb, ◌==◌,
  length, arith,
}
use control_ok_a_v.Base.Bytes.{Bytes, field}
use control_ok_a_v.Udp.Packet.Ota.{decode_okua_ota_runtime}
use control_ok_a_v.Udp.Packet.Reader.{
  OkuaPacketType, evt, stat, cmd, ack, OkuaPacket, is_unexpected, OkuaHeader, packet_type_value,
  parse_body, parse_okua_header, parse_okua_packet,
}

-- A datagram of the size of its type, with the header of the protocol, that the channel expects.
pub IsNodePacket : Bytes → Option OkuaPacketType → Type 0
IsNodePacket p expected =
    (field p 0 2 ≡ 0x4B4F)
    × (field p 2 1 ≡ 1)
    × (((length p ≡ 20) × (field p 3 1 ≡ 1) × (is_unexpected expected evt ≡ false))
        ⊎ ((length p ≡ 28) × (field p 3 1 ≡ 2) × (is_unexpected expected stat ≡ false)))

same_size : (n m : ℕ) → not (n == m) ≡ false → n ≡ m
same_size n m h = ground arith

header-inv :
    (p : Bytes) (h : OkuaHeader)
    → parse_okua_header p ≡ ok h
    → (field p 0 2 ≡ 0x4B4F) × (field p 2 1 ≡ 1) × (field p 3 1 ≡ packet_type_value h.packet_type)
unfolding parse_okua_header
header-inv p h e = ground arith

body-inv :
    (kind : OkuaPacketType) (magic version node seq : ℕ) (p : Bytes)
    (expected : Option OkuaPacketType) (packet : OkuaPacket)
    → parse_body
        (record { magic = magic; version = version; packet_type = kind; node_id = node; seq = seq })
        p
        expected
      ≡ ok packet
    → ((length p ≡ 20) × (packet_type_value kind ≡ 1) × (is_unexpected expected evt ≡ false))
      ⊎ ((length p ≡ 28) × (packet_type_value kind ≡ 2) × (is_unexpected expected stat ≡ false))
unfolding parse_body
body-inv evt magic version node seq p expected packet e =
    let (wanted, e1) = raise_if-eq-ok (is_unexpected expected evt) _ _ e in
    let (_, e2) = raise_if-eq-ok (ltb (length p) 20) _ _ e1 in
    let (size, _) = raise_if-eq-ok (not (length p == 20)) _ _ e2 in
    inl (same_size (length p) 20 size, refl, wanted)
body-inv stat magic version node seq p expected packet e =
    let (wanted, e1) = raise_if-eq-ok (is_unexpected expected stat) _ _ e in
    let (_, e2) = raise_if-eq-ok (ltb (length p) 28) _ _ e1 in
    let (size, _) = raise_if-eq-ok (not (length p == 28)) _ _ e2 in
    inr (same_size (length p) 28 size, refl, wanted)
body-inv cmd magic version node seq p expected packet e = cc
body-inv ack magic version node seq p expected packet e = cc

accepted-inv :
    (p : Bytes) (expected : Option OkuaPacketType) (packet : OkuaPacket)
    → parse_okua_packet p expected ≡ ok packet
    → IsNodePacket p expected
unfolding parse_okua_packet IsNodePacket
accepted-inv p expected packet e =
    let (h, header, rest) = >>=-eq-ok (parse_okua_header p) _ e in
    let (magic, version, kind) = header-inv p h header in
    (
      magic,
      version,
      rw kind (body-inv h.packet_type h.magic h.version h.node_id h.seq p expected packet rest),
    )

accepts :
    (p : Bytes) (expected : Option OkuaPacketType)
    → IsNodePacket p expected
    → (packet : OkuaPacket) × (parse_okua_packet p expected ≡ ok packet)
unfolding parse_okua_packet parse_body parse_okua_header decode_okua_ota_runtime IsNodePacket
accepts p expected (magic, version, inl (size, kind, wanted)) =
    rw (size, magic, version, kind, wanted) (_, refl)
accepts p expected (magic, version, inr (size, kind, wanted)) =
    rw (size, magic, version, kind, wanted) (_, refl)

-- The reader accepts exactly the datagrams of 20 or 28 bytes with the magic, the version and the type
-- of that size, where the channel expects that type or nothing in particular.
pub parse_okua_packet_iff :
    (p : Bytes) (expected : Option OkuaPacketType)
    → ((packet : OkuaPacket) × (parse_okua_packet p expected ≡ ok packet)) ↔ IsNodePacket p expected
parse_okua_packet_iff p expected = (λ q. accepted-inv p expected q.0 q.1, accepts p expected)
