-- ===== src/ControlPlane/Protocol/Ack.antt =====
-- `parse_okua_ack_bytes`: the strict reader of OKUA_ACK datagrams.
use control_ok_a_v.Base.{ℕ, not, length, ◌==◌, Result, ok, ◌>>◌, raise_if}
use control_ok_a_v.Base.Bytes.{Bytes, field}
use control_ok_a_v.ControlPlane.Protocol.Build.{
  okua_magic, okua_version, okua_type_ack, okua_ack_packet_size,
}

pub data AckParseErrorCode : Type 0 where
  invalid_size invalid_magic invalid_version invalid_type : AckParseErrorCode

pub record ParsedOkuaAck : Type 0 where
  pub node_id_source : ℕ
  pub cmd_seq : ℕ
  pub cmd_id_echo : ℕ
  pub nonce_echo : ℕ
  pub ack_stage : ℕ
  pub status_code : ℕ
  pub ack_flags : ℕ
  pub err_detail : ℕ
  pub retry_after_ms : ℕ
  pub auth_tag32 : ℕ

-- `_ACK_STRUCT.unpack`: "<HBBHHBBBBHHQI", past the magic, the version and the type
abbrev pub unpack_ack : Bytes → ParsedOkuaAck
unpack_ack payload = record {
  node_id_source = field payload 4 2;
  cmd_seq = field payload 6 2;
  cmd_id_echo = field payload 8 1;
  nonce_echo = field payload 16 8;
  ack_stage = field payload 9 1;
  status_code = field payload 10 1;
  ack_flags = field payload 11 1;
  err_detail = field payload 12 2;
  retry_after_ms = field payload 14 2;
  auth_tag32 = field payload 24 4;
}

unfoldable pub parse_okua_ack_bytes : Bytes → Result AckParseErrorCode ParsedOkuaAck
parse_okua_ack_bytes payload = do
  raise_if (not (length payload == okua_ack_packet_size)) invalid_size
  raise_if (not (field payload 0 2 == okua_magic)) invalid_magic
  raise_if (not (field payload 2 1 == okua_version)) invalid_version
  raise_if (not (field payload 3 1 == okua_type_ack)) invalid_type
  ok (unpack_ack payload)
