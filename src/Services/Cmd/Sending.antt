-- ===== src/Services/Cmd/Sending.antt =====
-- `CmdService`. A call gives its result and the service that it leaves: numbers that it drew stay
-- drawn when it raises.
use control_ok_a_v.Base.{
  ℕ, false, not, ◌||◌, Option, none, some, String, ◌==◌, length, Result, ok, err, ◌>>=◌, ◌>>◌,
  raise_if, map_err,
}
use control_ok_a_v.Base.Int.{ℤ, pos, pos_part, ltb_ℤ}
use control_ok_a_v.Base.Bytes.{Bytes}
use control_ok_a_v.ControlPlane.Auth.{BuildError}
use control_ok_a_v.ControlPlane.Protocol.{
  ping, reboot_soft, set_throttle, set_stat_rate, request_stat_now, ota_check_now, cmd_id_value,
  okua_cmd_packet_size, build_ping_command, build_request_stat_now_command,
  build_reboot_soft_command, build_set_stat_rate_command, build_set_throttle_command,
  build_ota_check_now_command,
}
use control_ok_a_v.ControlPlane.Protocol.Sequence.{CmdSequenceManager, next_cmd_seq}
use control_ok_a_v.ControlPlane.Nonce.{NonceError, NonceManager, next_nonce}
use control_ok_a_v.ControlPlane.Pending.{SentOkuaCommand}

-- `ValueError` for the target, what the managers and the builders raise, the `CmdServiceSendError`s,
-- an `OSError` of the socket's creation, and the `CmdServiceConfigError`s of the constructor.
pub data CmdError : Type 0 where
  bad_node_ip bad_node_id bad_length send_failed short_send no_socket : CmdError
  bad_secret bad_port : CmdError
  nonce_error : NonceError → CmdError
  build_error : BuildError → CmdError

-- What the socket does with a datagram.
pub data Socket : Type 0 where
  returns : ℤ → Socket
  raises_on_send : Socket
  raises_on_open : Socket

pub record CmdService : Type 0 where
  pub secret : Bytes
  pub nonce_manager : NonceManager
  pub seq_manager : CmdSequenceManager
  pub cmd_port : ℕ

-- The methods `send_*`, with their parameters.
pub data Command : Type 0 where
  send_ping send_request_stat_now : Command
  send_reboot_soft send_set_stat_rate send_set_throttle send_ota_check_now : ℤ → Command

unfoldable pub command_name : Command → String
command_name send_ping = "PING"
command_name send_request_stat_now = "REQUEST_STAT_NOW"
command_name (send_reboot_soft delay_ms) = "REBOOT_SOFT"
command_name (send_set_stat_rate stat_rate_ms) = "SET_STAT_RATE"
command_name (send_set_throttle throttle_percent) = "SET_THROTTLE"
command_name (send_ota_check_now rollout_token) = "OTA_CHECK_NOW"

unfoldable pub command_id : Command → ℕ
command_id send_ping = cmd_id_value ping
command_id send_request_stat_now = cmd_id_value request_stat_now
command_id (send_reboot_soft delay_ms) = cmd_id_value reboot_soft
command_id (send_set_stat_rate stat_rate_ms) = cmd_id_value set_stat_rate
command_id (send_set_throttle throttle_percent) = cmd_id_value set_throttle
command_id (send_ota_check_now rollout_token) = cmd_id_value ota_check_now

abbrev pub validate_udp_port : ℤ → Result CmdError ℕ
validate_udp_port port = do
  raise_if (ltb_ℤ port (pos 1) || ltb_ℤ (pos 65535) port) bad_port
  ok (pos_part port)

abbrev pub validate_unicast_node_id : ℤ → Result CmdError ℕ
validate_unicast_node_id node_id = do
  raise_if (ltb_ℤ node_id (pos 1) || ltb_ℤ (pos 0xFFFF) node_id) bad_node_id
  ok (pos_part node_id)

-- The constructor: the secret as it was resolved, or that it was not, and the two managers.
unfoldable pub init :
    Option Bytes → NonceManager → CmdSequenceManager → ℤ → Result CmdError CmdService
init none nonce_manager seq_manager cmd_port = err bad_secret
init (some secret) nonce_manager seq_manager cmd_port = do
  port ← validate_udp_port cmd_port
  ok (record {
    secret = secret;
    nonce_manager = nonce_manager;
    seq_manager = seq_manager;
    cmd_port = port;
  })

-- A socket is made, sends once, and is closed; a fault of `close` is dropped.
unfoldable pub send_packet : Bytes → Socket → Result CmdError ℕ
send_packet payload socket = do
  raise_if (not (length payload == okua_cmd_packet_size)) bad_length
  sent ← answer socket
  raise_if (ltb_ℤ sent (pos (length payload)) || ltb_ℤ (pos (length payload)) sent) short_send
  ok (pos_part sent)
  where
    answer : Socket → Result CmdError ℤ
    answer (returns n) = ok n
    answer raises_on_send = err send_failed
    answer raises_on_open = err no_socket

module _ (hmac : Bytes → Bytes → Bytes) where
  unfoldable pub packet_builder : Bytes → Command → ℤ → ℤ → ℤ → Result BuildError Bytes
  unfolding build_ping_command build_request_stat_now_command build_reboot_soft_command
      build_set_stat_rate_command build_set_throttle_command build_ota_check_now_command
  packet_builder secret send_ping node seq nonce =
      build_ping_command hmac secret node seq nonce false false
  packet_builder secret send_request_stat_now node seq nonce =
      build_request_stat_now_command hmac secret node seq nonce false false
  packet_builder secret (send_reboot_soft delay_ms) node seq nonce =
      build_reboot_soft_command hmac secret node seq nonce delay_ms false
  packet_builder secret (send_set_stat_rate stat_rate_ms) node seq nonce =
      build_set_stat_rate_command hmac secret node seq nonce stat_rate_ms false
  packet_builder secret (send_set_throttle throttle_percent) node seq nonce =
      build_set_throttle_command hmac secret node seq nonce throttle_percent false
  packet_builder secret (send_ota_check_now rollout_token) node seq nonce =
      build_ota_check_now_command hmac secret node seq nonce rollout_token false

  -- The packet is built and sent, with both numbers drawn.
  unfoldable pub build_and_send :
      CmdService → Command → String → String → ℕ → ℕ → ℕ → Socket → Result CmdError SentOkuaCommand
  unfolding packet_builder send_packet command_name command_id
  build_and_send service command source node_ip node_id cmd_seq nonce socket = do
    packet ←
        map_err build_error
          (packet_builder service.secret command (pos node_id) (pos cmd_seq) (pos nonce))
    bytes_sent ← send_packet packet socket
    ok (record {
      source = source;
      command_name = command_name command;
      cmd_id = command_id command;
      node_ip = node_ip;
      node_id = node_id;
      cmd_seq = cmd_seq;
      nonce = nonce;
      target_port = service.cmd_port;
      packet = packet;
      bytes_sent = bytes_sent;
    })

  -- The rest of a call whose nonce was drawn, or could not be drawn.
  unfoldable pub with_nonce :
      CmdService
      → Command
      → String
      → String
      → ℕ
      → ℕ
      → Socket
      → Result NonceError (ℕ × NonceManager)
      → Result CmdError SentOkuaCommand × CmdService
  unfolding build_and_send
  with_nonce service command source node_ip node_id cmd_seq socket (err e) =
      (err (nonce_error e), service)
  with_nonce service command source node_ip node_id cmd_seq socket (ok (nonce, nonce_manager)) = (
    build_and_send service command source node_ip node_id cmd_seq nonce socket,
    record service { nonce_manager = nonce_manager },
  )

  -- A sequence number is drawn first, and then a nonce.
  unfoldable pub draw_and_send :
      CmdService
      → Command
      → String
      → String
      → ℕ
      → Socket
      → Result CmdError SentOkuaCommand × CmdService
  unfolding next_cmd_seq next_nonce with_nonce
  draw_and_send service command source node_ip node_id socket =
      with_nonce (record service { seq_manager = (next_cmd_seq service.seq_manager).1 }) command
        source node_ip node_id (next_cmd_seq service.seq_manager).0 socket
        (next_nonce service.nonce_manager)

  -- The two checks of the target come before anything is drawn, the address first.
  unfoldable pub to_target :
      CmdService
      → Command
      → String
      → Socket
      → Result CmdError String
      → Result CmdError ℕ
      → Result CmdError SentOkuaCommand × CmdService
  unfolding draw_and_send
  to_target service command source socket (err e) node_id = (err e, service)
  to_target service command source socket (ok node_ip) (err e) = (err e, service)
  to_target service command source socket (ok node_ip) (ok node_id) =
      draw_and_send service command source node_ip node_id socket

-- `text.strip()`, or `none` where that is empty.
module _ (stripped : String → Option String) where
  abbrev pub source_or : String → String → String
  source_or source otherwise = elim (stripped source) [ none ↦ otherwise | some s ↦ s ]

  abbrev pub normalize_node_ip : String → Result CmdError String
  normalize_node_ip node_ip = elim (stripped node_ip) [ none ↦ err bad_node_ip | some s ↦ ok s ]

  -- The same logical command again: only the source and the count of bytes are new.
  unfoldable pub resend_sent_command :
      SentOkuaCommand → String → Socket → Result CmdError SentOkuaCommand
  unfolding send_packet
  resend_sent_command sent_command source socket = do
    bytes_sent ← send_packet sent_command.packet socket
    ok (record sent_command { source = source_or source "retry"; bytes_sent = bytes_sent })

  module _ (hmac : Bytes → Bytes → Bytes) where
    unfoldable pub send_new_command :
        CmdService
        → Command
        → String
        → ℤ
        → String
        → Socket
        → Result CmdError SentOkuaCommand × CmdService
    unfolding to_target
    send_new_command service command node_ip node_id source socket =
        to_target hmac service command (source_or source "manual") socket
          (normalize_node_ip node_ip) (validate_unicast_node_id node_id)
