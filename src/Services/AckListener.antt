-- ===== src/Services/AckListener.antt =====
-- services/ack_listener.py: the socket that acknowledgements arrive at. What the socket does is an
-- argument of each call; times are of any type.
use control_ok_a_v.Base.{
  ℕ, Bool, true, false, not, ◌&&◌, ◌||◌, Option, none, some, String, if◌then◌else◌, Result, ok, err,
  ◌>>=◌, ◌>>◌, raise_if,
}
use control_ok_a_v.Base.Int.{ℤ, pos, negsuc, pos_part, ltb_ℤ}
use control_ok_a_v.Base.Bytes.{Bytes}
use control_ok_a_v.ControlPlane.Pending.{
  SentOkuaCommand, PendingCommandStore, AckCorrelationResult, register_sent_command,
  correlate_ack_datagram,
}

-- `AckListenerConfigError`, `AckListenerOpenError`, `AckListenerError`, and an `OSError` of the
-- factory, which passes through.
pub data ListenerError : Type 0 where
  bad_bind_ip bad_port bad_recv_size bad_timeout : ListenerError
  open_failed close_failed not_started receive_failed no_socket : ListenerError

-- What `fileno()` gives.
pub data FileNo : Type 0 where
  number : ℤ → FileNo
  os_error : FileNo

-- What making, setting up and binding a socket gives.
pub data Opening : Type 0 where
  opens factory_raises bind_raises : Opening

-- The address of a datagram: a tuple of fewer than two elements, or a host and a port.
pub data Address : Type 0 where
  short_tuple : Address
  host_port : String → ℕ → Address

-- What `recvfrom` gives.
pub data Received : Type 0 where
  timeout receive_raises : Received
  datagram : Bytes → Address → Received

pub record AckListener (Time : Type 0) : Type 0 where
  pub bind_ip : String
  pub ack_port : ℕ
  pub recv_size : ℕ
  pub timeout_s : Time
  pub pending_store : PendingCommandStore Time
  -- `_socket is not None`
  pub has_socket : Bool

abbrev pub normalize_address : Address → String × ℕ
normalize_address short_tuple = ("0.0.0.0", 0)
normalize_address (host_port host port) = (host, port)

abbrev pub validate_port : ℤ → Result ListenerError ℕ
validate_port port = do
  raise_if (ltb_ℤ port (pos 1) || ltb_ℤ (pos 65535) port) bad_port
  ok (pos_part port)

abbrev pub validate_positive_int : ℤ → Result ListenerError ℕ
validate_positive_int value = do raise_if (ltb_ℤ value (pos 1)) bad_recv_size; ok (pos_part value)

-- `text.strip()` or `none` where that is empty, and whether `ipaddress` reads it.
module _ (stripped : String → Option String) (is_ip_address : String → Bool) where
  abbrev pub validate_bind_ip : String → Result ListenerError String
  validate_bind_ip bind_ip = elim (stripped bind_ip) [
    | none ↦ err bad_bind_ip
    | some resolved ↦ if is_ip_address resolved then ok resolved else err bad_bind_ip
  ]

  -- `is_positive` is the test that a timeout is more than zero.
  unfoldable pub init :
      {Time : Type 0}
      → (Time → Bool)
      → String
      → ℤ
      → ℤ
      → Time
      → PendingCommandStore Time
      → Result ListenerError (AckListener Time)
  init is_positive bind_ip ack_port recv_size timeout_s pending_store = do
    ip ← validate_bind_ip bind_ip
    port ← validate_port ack_port
    size ← validate_positive_int recv_size
    raise_if (not (is_positive timeout_s)) bad_timeout
    ok (record {
      bind_ip = ip;
      ack_port = port;
      recv_size = size;
      timeout_s = timeout_s;
      pending_store = pending_store;
      has_socket = false;
    })

abbrev pub is_open : FileNo → Bool
is_open os_error = false
is_open (number (pos n)) = true
is_open (number (negsuc n)) = false

module _ {Time : Type 0} where
  unfoldable pub is_running : FileNo → AckListener Time → Bool
  is_running fileno l = l.has_socket && is_open fileno

  unfoldable pub open_socket :
      Opening → AckListener Time → Result ListenerError Bool × AckListener Time
  open_socket opens l = (ok true, record l { has_socket = true })
  open_socket factory_raises l = (err no_socket, l)
  open_socket bind_raises l = (err open_failed, l)

  unfoldable pub start :
      FileNo → Opening → AckListener Time → Result ListenerError Bool × AckListener Time
  unfolding is_running open_socket
  start fileno opening l = if is_running fileno l then (ok false, l) else open_socket opening l

  -- `closes` is whether `close()` returns.
  unfoldable pub stop : Bool → AckListener Time → Result ListenerError (Unit {0}) × AckListener Time
  stop closes l = (
    if not l.has_socket || closes then ok tt else err close_failed,
    record l { has_socket = false },
  )

  unfoldable pub register_pending_command :
      SentOkuaCommand → Time → AckListener Time → AckListener Time
  register_pending_command sent_command clock l = record l {
    pending_store = register_sent_command sent_command none clock l.pending_store;
  }

  -- A datagram that has come, received at `now`.
  unfoldable pub correlate :
      Bytes → Address → Time → AckListener Time → AckCorrelationResult Time × AckListener Time
  correlate payload address now l =
      let found =
        correlate_ack_datagram payload (normalize_address address).0 (normalize_address address).1
          (some now) now l.pending_store in
      (found.0, record l { pending_store = found.1 })

  unfoldable pub receive :
      Received
      → Time
      → AckListener Time
      → Result ListenerError (Option (AckCorrelationResult Time)) × AckListener Time
  unfolding correlate
  receive timeout now l = (ok none, l)
  receive receive_raises now l = (err receive_failed, l)
  receive (datagram payload address) now l =
      let found = correlate payload address now l in (ok (some found.0), found.1)

  unfoldable pub poll_once :
      Received
      → Time
      → AckListener Time
      → Result ListenerError (Option (AckCorrelationResult Time)) × AckListener Time
  unfolding receive
  poll_once received now l = if l.has_socket then receive received now l else (err not_started, l)
