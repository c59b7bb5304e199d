-- ===== src/Udp/Packet/Sender.antt =====
-- `build_okua_evt_packet` and `build_okua_stat_packet` (tools/udp_okua_v1_sender.py).
use control_ok_a_v.Base.{ℕ, not, ◌||◌, ◌∷◌, ◌++◌, ◌==◌, length, Result, ok, ◌>>=◌, ◌>>◌, raise_if}
use control_ok_a_v.Base.Int.{ℤ, pos, negsuc, ltb_ℤ, mask}
use control_ok_a_v.Base.Bytes.{Bytes, to_le}
use control_ok_a_v.Udp.Packet.Reader.{
  okua_magic, okua_version, okua_evt_packet_size, okua_stat_packet_size,
}

-- The `ValueError` of `_normalize_bytes`, the `struct.error` of the format "b", the `RuntimeError`.
pub data SendError : Type 0 where
  bad_reserve bad_rssi bad_size : SendError

unfoldable pub normalize_bytes : Bytes → ℕ → Result SendError Bytes
normalize_bytes raw size = do raise_if (not (length raw == size)) bad_reserve; ok raw

-- `struct` refuses a number that does not fit "b".
abbrev pub pack_signed_byte : ℤ → Result SendError ℕ
pack_signed_byte v = do
  raise_if (ltb_ℤ v (negsuc 127) || ltb_ℤ (pos 127) v) bad_rssi
  ok (mask v 256)

pub record EvtFields : Type 0 where
  pub node_id : ℤ
  pub seq : ℤ
  pub midi_bus : ℤ
  pub midi_ch : ℤ
  pub note : ℤ
  pub vel : ℤ
  pub ts_ms : ℤ
  pub rssi_dbm : ℤ
  pub flags : ℤ
  pub rsv : Bytes

pub record StatFields : Type 0 where
  pub node_id : ℤ
  pub seq : ℤ
  pub uptime_s : ℤ
  pub rssi_dbm : ℤ
  pub state_flags : ℤ
  pub pps_x10 : ℤ
  pub vbat_mv : ℤ
  pub free_heap : ℤ
  pub fw_major : ℤ
  pub fw_minor : ℤ
  pub reset_reason : ℤ
  pub rsv : Bytes

abbrev pub pack_header : ℕ → ℤ → ℤ → Bytes → Bytes
pack_header kind node_id seq rest =
    to_le 2 okua_magic
    ++ (okua_version
        ∷ kind
        ∷ (to_le 2 (mask node_id 0x10000) ++ (to_le 2 (mask seq 0x10000) ++ rest)))

unfoldable pub build_okua_evt_packet : EvtFields → Result SendError Bytes
unfolding normalize_bytes
build_okua_evt_packet f = do
  rsv ← normalize_bytes f.rsv 2
  rssi ← pack_signed_byte f.rssi_dbm
  let packet = pack_header 1 f.node_id f.seq (
      mask f.midi_bus 256
      ∷ mask f.midi_ch 256
      ∷ mask f.note 256
      ∷ mask f.vel 256
      ∷ (to_le 4 (mask f.ts_ms 0x100000000) ++ (rssi ∷ mask f.flags 256 ∷ rsv)))
  raise_if (not (length packet == okua_evt_packet_size)) bad_size
  ok packet

unfoldable pub build_okua_stat_packet : StatFields → Result SendError Bytes
unfolding normalize_bytes
build_okua_stat_packet f = do
  rsv ← normalize_bytes f.rsv 3
  rssi ← pack_signed_byte f.rssi_dbm
  let packet = pack_header 2 f.node_id f.seq (
      to_le 4 (mask f.uptime_s 0x100000000)
      ++ (rssi
          ∷ mask f.state_flags 256
          ∷ (to_le 2 (mask f.pps_x10 0x10000)
              ++ (to_le 2 (mask f.vbat_mv 0x10000)
                  ++ (to_le 4 (mask f.free_heap 0x100000000)
                      ++ (mask f.fw_major 256
                          ∷ mask f.fw_minor 256
                          ∷ mask f.reset_reason 256
                          ∷ rsv))))))
  raise_if (not (length packet == okua_stat_packet_size)) bad_size
  ok packet
