-- ===== src/ControlPlane/Protocol/AckLayout.antt =====
-- The layout of an OKUA_ACK packet, as docs/protocol gives it, against `parse_okua_ack_bytes`
-- (core/control_plane/protocol.py).
use control_ok_a_v.Base.{
  ℕ, ◌+◌, ◌^◌, ◌≤◌, ◌<◌, ◌≡◌, ◌∷◌, ◌++◌, length, drop, drop_of_le, All, ok, arith,
}
use control_ok_a_v.Base.Bytes.{Bytes, IsByte, to_le, field, field-rest, from_le-to_le}
use control_ok_a_v.ControlPlane.Protocol.Ack.{ParsedOkuaAck, unpack_ack, parse_okua_ack_bytes}

-- Every field fits its width.
pub record IsInRange (a : ParsedOkuaAck) : Type 0 where
  pub node : a.node_id_source < 2 ^ 16
  pub sequence : a.cmd_seq < 2 ^ 16
  pub command : a.cmd_id_echo < 2 ^ 8
  pub number : a.nonce_echo < 2 ^ 64
  pub stage : a.ack_stage < 2 ^ 8
  pub status : a.status_code < 2 ^ 8
  pub flags : a.ack_flags < 2 ^ 8
  pub detail : a.err_detail < 2 ^ 16
  pub retry : a.retry_after_ms < 2 ^ 16
  pub tag : a.auth_tag32 < 2 ^ 32

-- What a node sends to say `a`.
pub ack_bytes : ParsedOkuaAck → Bytes
ack_bytes a =
    0x4F
    ∷ 0x4B
    ∷ 1
    ∷ 4
    ∷ (to_le 2 a.node_id_source
        ++ (to_le 2 a.cmd_seq
            ++ (to_le 1 a.cmd_id_echo
                ++ (to_le 1 a.ack_stage
                    ++ (to_le 1 a.status_code
                        ++ (to_le 1 a.ack_flags
                            ++ (to_le 2 a.err_detail
                                ++ (to_le 2 a.retry_after_ms
                                    ++ (to_le 8 a.nonce_echo ++ to_le 4 a.auth_tag32)))))))))

-- The reader gets back the acknowledgement that was sent, when every field fits its width.
pub parse_okua_ack_bytes-ack_bytes :
    (a : ParsedOkuaAck) → IsInRange a → parse_okua_ack_bytes (ack_bytes a) ≡ ok a
unfolding parse_okua_ack_bytes ack_bytes
parse_okua_ack_bytes-ack_bytes a h = λ i. ok (record {
  node_id_source = from_le-to_le 2 a.node_id_source h.node i;
  cmd_seq = from_le-to_le 2 a.cmd_seq h.sequence i;
  cmd_id_echo = from_le-to_le 1 a.cmd_id_echo h.command i;
  nonce_echo = from_le-to_le 8 a.nonce_echo h.number i;
  ack_stage = from_le-to_le 1 a.ack_stage h.stage i;
  status_code = from_le-to_le 1 a.status_code h.status i;
  ack_flags = from_le-to_le 1 a.ack_flags h.flags i;
  err_detail = from_le-to_le 2 a.err_detail h.detail i;
  retry_after_ms = from_le-to_le 2 a.retry_after_ms h.retry i;
  auth_tag32 = from_le-to_le 4 a.auth_tag32 h.tag i;
})

parse-inv :
    (p : Bytes) (a : ParsedOkuaAck)
    → parse_okua_ack_bytes p ≡ ok a
    → (length p ≡ 28)
      × (field p 0 2 ≡ 0x4B4F)
      × (field p 2 1 ≡ 1)
      × (field p 3 1 ≡ 4)
      × (unpack_ack p ≡ a)
unfolding parse_okua_ack_bytes
parse-inv p a h = ground arith

-- A datagram that is read as `a` is the one that says `a`: every byte of it is accounted for.
pub parse_okua_ack_bytes_sound :
    (p : Bytes) (a : ParsedOkuaAck) → All IsByte p → parse_okua_ack_bytes p ≡ ok a → p ≡ ack_bytes a
parse_okua_ack_bytes_sound p a bytes h =
    let (size, magic, version, kind, e) = parse-inv p a h in
    let rest : (i n : ℕ) → i + n ≤ 28 → to_le n (field p i n) ++ drop (i + n) p ≡ drop i p =
      λ i n fits. field-rest i n p (omega arith) bytes in
    rw (← e) (
      unfold ack_bytes in
      cc (
        drop_of_le 28 p (omega arith),
        rw magic at (rest 0 2 (omega arith)),
        rw version at (rest 2 1 (omega arith)),
        rw kind at (rest 3 1 (omega arith)),
        rest 4 2 (omega arith),
        rest 6 2 (omega arith),
        rest 8 1 (omega arith),
        rest 9 1 (omega arith),
        rest 10 1 (omega arith),
        rest 11 1 (omega arith),
        rest 12 2 (omega arith),
        rest 14 2 (omega arith),
        rest 16 8 (omega arith),
        rest 24 4 (omega arith),
      ))
