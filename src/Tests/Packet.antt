-- ===== src/Tests/Packet.antt =====
-- Packets of nodes on concrete inputs.
use control_ok_a_v.Base.{◌↔◌, ◌≡◌, refl, [], ◌∷◌, none, some, ok, arith}
use control_ok_a_v.Base.Int.{pos, negsuc}
use control_ok_a_v.Base.Bytes.{Bytes}
use control_ok_a_v.Udp.Packet.{
  OkuaPacket, EvtFields, StatFields, evt, evt_packet, stat_packet, build_okua_evt_packet,
  build_okua_stat_packet, parse_okua_packet,
}
use control_ok_a_v.Udp.Packet.Accepted.{IsNodePacket, parse_okua_packet_iff}
use control_ok_a_v.Udp.Packet.Events.{IsI8, evt_of, parse_okua_packet-build_okua_evt_packet}
use control_ok_a_v.Udp.Packet.Status.{stat_of, parse_okua_packet-build_okua_stat_packet}

signal-IsI8 : IsI8 (negsuc 49)
signal-IsI8 = omega arith

abbrev note : EvtFields
note = record {
  node_id = pos 3;
  seq = pos 0x1_0002;
  midi_bus = pos 0;
  midi_ch = pos 9;
  note = pos 60;
  vel = pos 100;
  ts_ms = negsuc 0;
  rssi_dbm = negsuc 49;
  flags = pos 0;
  rsv = 1 ∷ 2 ∷ [];
}

parse_okua_packet-build_okua_evt_packet_example :
    (p : Bytes) × (build_okua_evt_packet note ≡ ok p)
    × (parse_okua_packet p (some evt) ≡ ok (evt_packet (evt_of note 1 2)))
parse_okua_packet-build_okua_evt_packet_example =
    parse_okua_packet-build_okua_evt_packet note 1 2 (some evt) refl signal-IsI8 refl

abbrev report : StatFields
report = record {
  node_id = pos 3;
  seq = pos 2;
  uptime_s = pos 3600;
  rssi_dbm = negsuc 49;
  state_flags = pos 0;
  pps_x10 = pos 10;
  vbat_mv = pos 3700;
  free_heap = pos 256000;
  fw_major = pos 1;
  fw_minor = pos 0;
  reset_reason = pos 0;
  rsv = 4 ∷ 0 ∷ 1 ∷ [];
}

parse_okua_packet-build_okua_stat_packet_example :
    (p : Bytes) × (build_okua_stat_packet report ≡ ok p)
    × (parse_okua_packet p none ≡ ok (stat_packet (stat_of report 4 0 1)))
parse_okua_packet-build_okua_stat_packet_example =
    parse_okua_packet-build_okua_stat_packet report 4 0 1 none refl (omega arith) (omega arith)
      (omega arith) signal-IsI8 refl

abbrev short_packet : Bytes
short_packet = 0x4F ∷ 0x4B ∷ 1 ∷ 1 ∷ 3 ∷ 0 ∷ 2 ∷ 0 ∷ 9 ∷ []

parse_okua_packet_iff_example :
    ((packet : OkuaPacket) × (parse_okua_packet short_packet (some evt) ≡ ok packet))
    ↔ IsNodePacket short_packet (some evt)
parse_okua_packet_iff_example = parse_okua_packet_iff short_packet (some evt)
