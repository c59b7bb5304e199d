-- ===== src/Udp/Packet/Reader.antt =====
-- `parse_okua_header` and `parse_okua_packet`.
use control_ok_a_v.Base.{
  ℕ, ◌-◌, Bool, true, false, not, List, [], ◌∷◌, Option, none, some, ltb, ◌==◌, if◌then◌else◌,
  length, Result, ok, err, ◌>>=◌, ◌>>◌, raise_if, map_err,
}
use control_ok_a_v.Base.Int.{ℤ, pos, negsuc}
use control_ok_a_v.Base.Bytes.{Bytes, field}
use control_ok_a_v.Udp.Packet.Ota.{OkuaOtaRuntimeInfo, decode_okua_ota_runtime}

abbrev pub okua_magic : ℕ
okua_magic = 0x4B4F

abbrev pub okua_version : ℕ
okua_version = 1

abbrev pub okua_header_size : ℕ
okua_header_size = 8

abbrev pub okua_evt_packet_size : ℕ
okua_evt_packet_size = 20

abbrev pub okua_stat_packet_size : ℕ
okua_stat_packet_size = 28

pub data OkuaPacketType : Type 0 where
  evt stat cmd ack : OkuaPacketType

abbrev pub packet_type_value : OkuaPacketType → ℕ
packet_type_value evt = 1
packet_type_value stat = 2
packet_type_value cmd = 3
packet_type_value ack = 4

-- `OkuaPacketType(raw)`; `none` is its `ValueError`
abbrev pub packet_type_of : ℕ → Option OkuaPacketType
packet_type_of raw =
    if raw == 1
    then some evt
    else if raw == 2
    then some stat
    else if raw == 3
    then some cmd
    else if raw == 4
    then some ack
    else none

pub record OkuaHeader : Type 0 where
  pub magic : ℕ
  pub version : ℕ
  pub packet_type : OkuaPacketType
  pub node_id : ℕ
  pub seq : ℕ

pub record OkuaEvtPacket : Type 0 where
  pub header : OkuaHeader
  pub midi_bus : ℕ
  pub midi_ch : ℕ
  pub note : ℕ
  pub vel : ℕ
  pub ts_ms : ℕ
  pub rssi_dbm : ℤ
  pub flags : ℕ
  pub rsv : ℕ × ℕ

pub record OkuaStatPacket : Type 0 where
  pub header : OkuaHeader
  pub uptime_s : ℕ
  pub rssi_dbm : ℤ
  pub state_flags : ℕ
  pub pps_x10 : ℕ
  pub vbat_mv : ℕ
  pub free_heap : ℕ
  pub fw_major : ℕ
  pub fw_minor : ℕ
  pub reset_reason : ℕ
  pub rsv : ℕ × ℕ × ℕ
  pub ota_state_code : Option ℕ
  pub ota_error_code : Option ℕ
  pub ota_flags : Option ℕ

pub data OkuaPacket : Type 0 where
  evt_packet : OkuaEvtPacket → OkuaPacket
  stat_packet : OkuaStatPacket → OkuaPacket

-- The codes of `OkuaPacketParseError`, and the `ValueError` of `decode_okua_ota_runtime`.
pub data ParseError : Type 0 where
  truncated_header invalid_magic unsupported_version unknown_packet_type : ParseError
  unsupported_packet_type unexpected_packet_type truncated_packet invalid_length : ParseError
  bad_rsv : ParseError

-- A byte under the format "b"
abbrev pub signed_byte : ℕ → ℤ
signed_byte b = if ltb b 128 then pos b else negsuc (255 - b)

abbrev pub or_raise : Option OkuaPacketType → Result ParseError OkuaPacketType
or_raise none = err unknown_packet_type
or_raise (some t) = ok t

unfoldable pub parse_okua_header : Bytes → Result ParseError OkuaHeader
parse_okua_header payload = do
  raise_if (ltb (length payload) okua_header_size) truncated_header
  raise_if (not (field payload 0 2 == okua_magic)) invalid_magic
  raise_if (not (field payload 2 1 == okua_version)) unsupported_version
  packet_type ← or_raise (packet_type_of (field payload 3 1))
  ok (record {
    magic = field payload 0 2;
    version = field payload 2 1;
    packet_type = packet_type;
    node_id = field payload 4 2;
    seq = field payload 6 2;
  })

abbrev pub is_evt : OkuaPacketType → Bool
is_evt evt = true
is_evt _ = false

abbrev pub is_evt_or_stat : OkuaPacketType → Bool
is_evt_or_stat evt = true
is_evt_or_stat stat = true
is_evt_or_stat _ = false

-- `expected_type is not None and header.packet_type is not expected_type`
abbrev pub is_unexpected : Option OkuaPacketType → OkuaPacketType → Bool
is_unexpected none t = false
is_unexpected (some e) t = not (packet_type_value e == packet_type_value t)

-- `_EVT_PAYLOAD_STRUCT.unpack`: "<BBBBIbB2s", behind the header
abbrev pub unpack_evt : OkuaHeader → Bytes → OkuaEvtPacket
unpack_evt header payload = record {
  header = header;
  midi_bus = field payload 8 1;
  midi_ch = field payload 9 1;
  note = field payload 10 1;
  vel = field payload 11 1;
  ts_ms = field payload 12 4;
  rssi_dbm = signed_byte (field payload 16 1);
  flags = field payload 17 1;
  rsv = (field payload 18 1, field payload 19 1);
}

-- `_STAT_PAYLOAD_STRUCT.unpack`: "<IbBHHIBBB3s", behind the header
abbrev pub unpack_stat : OkuaHeader → OkuaOtaRuntimeInfo → Bytes → OkuaStatPacket
unpack_stat header ota_runtime payload = record {
  header = header;
  uptime_s = field payload 8 4;
  rssi_dbm = signed_byte (field payload 12 1);
  state_flags = field payload 13 1;
  pps_x10 = field payload 14 2;
  vbat_mv = field payload 16 2;
  free_heap = field payload 18 4;
  fw_major = field payload 22 1;
  fw_minor = field payload 23 1;
  reset_reason = field payload 24 1;
  rsv = (field payload 25 1, field payload 26 1, field payload 27 1);
  ota_state_code = some ota_runtime.state_code;
  ota_error_code = some ota_runtime.error_code;
  ota_flags = some ota_runtime.flags;
}

-- `tuple(rsv_raw)` of a STAT
abbrev pub stat_rsv : Bytes → List ℤ
stat_rsv payload =
    pos (field payload 25 1) ∷ (pos (field payload 26 1) ∷ (pos (field payload 27 1) ∷ []))

-- What follows the header.
unfoldable pub parse_body :
    OkuaHeader → Bytes → Option OkuaPacketType → Result ParseError OkuaPacket
unfolding decode_okua_ota_runtime
parse_body header payload expected_type = do
  raise_if (not (is_evt_or_stat header.packet_type)) unsupported_packet_type
  raise_if (is_unexpected expected_type header.packet_type) unexpected_packet_type
  let expected_len =
      if is_evt header.packet_type then okua_evt_packet_size else okua_stat_packet_size
  raise_if (ltb (length payload) expected_len) truncated_packet
  raise_if (not (length payload == expected_len)) invalid_length
  if is_evt header.packet_type then ok (evt_packet (unpack_evt header payload)) else do
    ota_runtime ← map_err (λ e. bad_rsv) (decode_okua_ota_runtime (stat_rsv payload))
    ok (stat_packet (unpack_stat header ota_runtime payload))

unfoldable pub parse_okua_packet : Bytes → Option OkuaPacketType → Result ParseError OkuaPacket
unfolding parse_okua_header parse_body
parse_okua_packet payload expected_type = do
  header ← parse_okua_header payload
  parse_body header payload expected_type
