-- ===== src/Services/Cmd/Traced.antt =====
-- What a sent command's record says is what its packet says, and no nonce is sent twice
-- (services/cmd_service.py).
use control_ok_a_v.Base.{
  ℕ, ◌^◌, ◌/◌, ◌%◌, ◌≡◌, refl, false, Option, String, length, Result, ok, ◌>>=◌, >>=-eq-ok, map_err,
  map_err-eq-ok, arith,
}
use control_ok_a_v.Base.Int.{ℤ, pos}
use control_ok_a_v.Base.Bytes.{Bytes, field}
use control_ok_a_v.ControlPlane.Auth.{BuildError, IsDigest}
use control_ok_a_v.ControlPlane.Protocol.{
  build_okua_cmd_bytes, build_ping_command, build_request_stat_now_command,
  build_reboot_soft_command, build_set_stat_rate_command, build_set_throttle_command,
  build_ota_check_now_command, validate_unicast_target, validate_reboot_delay_ms,
  validate_set_stat_rate_ms, validate_set_throttle_percent, validate_rollout_token,
}
use control_ok_a_v.ControlPlane.Protocol.Wire.{build_okua_cmd_bytes-IsCmdPacket}
use control_ok_a_v.ControlPlane.Protocol.Commands.{validate_unicast_target-eq_ok}
use control_ok_a_v.ControlPlane.Pending.{SentOkuaCommand, key_of_sent}
use control_ok_a_v.Services.Cmd.Sending.{
  build_error, Socket, CmdService, Command, command_name, command_id, source_or, send_packet,
  resend_sent_command, packet_builder, build_and_send, send_ping, send_request_stat_now,
  send_reboot_soft, send_set_stat_rate, send_set_throttle, send_ota_check_now,
}

-- The record names the packet that it stands for.
pub record IsTraced (c : SentOkuaCommand) : Type 0 where
  pub size : (length c.packet ≡ 28) × (c.bytes_sent ≡ 28)
  pub target : field c.packet 4 2 ≡ c.node_id
  pub sequence : field c.packet 6 2 ≡ c.cmd_seq
  pub command : field c.packet 8 1 ≡ c.cmd_id
  pub number : field c.packet 14 8 ≡ c.nonce

send_packet-eq_ok :
    (p : Bytes) (s : Socket) (n : ℕ) → send_packet p s ≡ ok n → (length p ≡ 28) × (n ≡ 28)
unfolding send_packet
send_packet-eq_ok p s n h = ground arith

module _ (stripped : String → Option String) where
  -- A resend that returns has sent the same packet, its record has the same key for the
  -- acknowledgement, and it still says what the packet says.
  pub resend_sent_command_lem :
      (c c' : SentOkuaCommand) (source : String) (socket : Socket)
      → resend_sent_command stripped c source socket ≡ ok c'
      → (c'.packet ≡ c.packet) × (key_of_sent c' ≡ key_of_sent c) × (IsTraced c → IsTraced c')
  unfolding resend_sent_command key_of_sent
  resend_sent_command_lem c c' source socket h =
      let (n, sent, e) = >>=-eq-ok (send_packet c.packet socket) _ h in
      let same : record c { source = source_or stripped source "retry"; bytes_sent = n } ≡ c' =
        cc in
      rw (← same) (
        refl,
        refl,
        λ t. record {
          size = (t.size.0, (send_packet-eq_ok c.packet socket n sent).1);
          target = t.target;
          sequence = t.sequence;
          command = t.command;
          number = t.number;
        },
      )

module _ (hmac : Bytes → Bytes → Bytes) where
  -- The packet of a command, for some arguments.
  IsBuilt : Bytes → ℕ → ℕ → ℕ → ℕ → Bytes → Type 0
  IsBuilt secret node seq id nonce p =
      (a : ℤ) × (b : ℤ) × (build_okua_cmd_bytes hmac secret (pos node) (pos seq) (pos id)
          (pos nonce) a b false false
        ≡ ok p)

  with_parameter :
      (validate : ℤ → Result BuildError ℕ) (secret : Bytes) (v : ℤ) (a b : ℕ → ℤ)
      (node seq id nonce : ℕ) (p : Bytes)
      → (do
        n ← validate_unicast_target (pos node)
        d ← validate v
        build_okua_cmd_bytes hmac secret
            (pos n)
            (pos seq)
            (pos id)
            (pos nonce)
            (a d)
            (b d)
            false
            false)
        ≡ ok p
      → IsBuilt secret node seq id nonce p
  unfolding IsBuilt
  with_parameter validate secret v a b node seq id nonce p h =
      let (n, target, h1) = >>=-eq-ok (validate_unicast_target (pos node)) _ h in
      let (d, _, built) = >>=-eq-ok (validate v) _ h1 in
      (a d, b d, rw (validate_unicast_target-eq_ok (pos node) n target).0 built)

  -- What the builders of all six commands have in common.
  packet_builder-IsBuilt :
      (secret : Bytes) (c : Command) (node seq nonce : ℕ) (p : Bytes)
      → packet_builder hmac secret c (pos node) (pos seq) (pos nonce) ≡ ok p
      → IsBuilt secret node seq (command_id c) nonce p
  unfolding packet_builder command_id build_ping_command build_request_stat_now_command
      build_reboot_soft_command build_set_stat_rate_command build_set_throttle_command
      build_ota_check_now_command IsBuilt
  packet_builder-IsBuilt secret send_ping node seq nonce p h = (_, _, h)
  packet_builder-IsBuilt secret send_request_stat_now node seq nonce p h = (_, _, h)
  packet_builder-IsBuilt secret (send_reboot_soft v) node seq nonce p h =
      with_parameter validate_reboot_delay_ms secret v pos (λ d. pos 0) node seq _ nonce p h
  packet_builder-IsBuilt secret (send_set_stat_rate v) node seq nonce p h =
      with_parameter validate_set_stat_rate_ms secret v pos (λ d. pos 0) node seq _ nonce p h
  packet_builder-IsBuilt secret (send_set_throttle v) node seq nonce p h =
      with_parameter validate_set_throttle_percent secret v pos (λ d. pos 0) node seq _ nonce p h
  packet_builder-IsBuilt secret (send_ota_check_now v) node seq nonce p h =
      with_parameter validate_rollout_token secret v (λ d. pos (d % 0x1_0000))
        (λ d. pos (d / 2 ^ 16 % 0x1_0000)) node seq _ nonce p h

  pub build_and_send-IsTraced :
      IsDigest hmac
      → (s : CmdService) (k : Command) (source ip : String) (node seq nonce : ℕ) (socket : Socket)
      → (c : SentOkuaCommand) → build_and_send hmac s k source ip node seq nonce socket ≡ ok c
      → IsTraced c
        × (c.node_id ≡ node)
        × (c.cmd_seq ≡ seq)
        × (c.nonce ≡ nonce)
        × (c.cmd_id ≡ command_id k)
        × (c.target_port ≡ s.cmd_port)
  unfolding build_and_send IsBuilt
  build_and_send-IsTraced digest s k source ip node seq nonce socket c h =
      let (p, mapped, h1) =
        >>=-eq-ok
          (map_err build_error (packet_builder hmac s.secret k (pos node) (pos seq) (pos nonce))) _
          h in
      let (n, sent, e) = >>=-eq-ok (send_packet p socket) _ h1 in
      let e' : (record {
        source = source;
        command_name = command_name k;
        cmd_id = command_id k;
        node_ip = ip;
        node_id = node;
        cmd_seq = seq;
        nonce = nonce;
        target_port = s.cmd_port;
        packet = p;
        bytes_sent = n;
      })
          ≡ c =
        cc in
      let (a, b, built) =
        packet_builder-IsBuilt s.secret k node seq nonce p (map_err-eq-ok _ _ mapped) in
      let w =
        build_okua_cmd_bytes-IsCmdPacket hmac s.secret (pos node) (pos seq) (pos (command_id k))
          (pos nonce) a b false false digest p built in
      rw (← e') (
        record {
          size = send_packet-eq_ok p socket n sent;
          target = w.target;
          sequence = w.sequence;
          command = w.command;
          number = w.number;
        },
        refl,
        refl,
        refl,
        refl,
        refl,
      )
