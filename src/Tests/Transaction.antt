-- ===== src/Tests/Transaction.antt =====
-- Transactions on concrete inputs. Times are numbers, and the clock goes on by one at each reading.
use control_ok_a_v.Base.{
  ℕ, ◌+◌, ◌-◌, ◌*◌, ◌≡◌, refl, ◌≤◌, true, false, [], ◌∷◌, none, some, ok, ltb, arith,
}
use control_ok_a_v.Base.Int.{pos}
use control_ok_a_v.ControlPlane.Protocol.{
  ParsedOkuaAck, build_okua_cmd_bytes, build_cmd_flags, parse_okua_ack_bytes,
}
use control_ok_a_v.ControlPlane.Audit.{
  ControlAuditEvent, ControlAuditEventType, command_sent, command_retry, command_timeout,
  command_ack,
}
use control_ok_a_v.ControlPlane.Pending.{
  register_sent_command, discard_sent_command, correlate_ack_datagram, key_of_sent, key_of_ack,
}
use control_ok_a_v.ControlPlane.Pending.Correlation.{fresh, Reachable-IsWellFiled}
use control_ok_a_v.Services.AckListener.{Received, timeout, datagram, host_port, number, opens}
use control_ok_a_v.Services.Cmd.{returns, send_ping}
use control_ok_a_v.Services.Transaction.{
  Environment, TimeOps, World, Request, Outcome, ControlTransactionResult,
  ControlTransactionFinalStatus, ack_matched, no_ack, execute_transaction,
}
use control_ok_a_v.Services.Transaction.Own.{IsClean}
use control_ok_a_v.Services.Transaction.Clean.{execute_transaction-IsClean}
use control_ok_a_v.Services.Transaction.Returning.{IsPassing, execute_transaction_returns}
use control_ok_a_v.Services.Transaction.Bounds.{IsBounded, execute_transaction-IsBounded}
use control_ok_a_v.Tests.Command.{digest, digest-IsDigest, as_is, service, sent_ping}

abbrev ops : TimeOps ℕ
ops = record { before = ltb; later = λ t ms. t + ms; elapsed_ms = λ a b. b - a }

abbrev world : World ℕ
world = record {
  at = 0;
  service = service 7 0;
  listener = record {
    bind_ip = "0.0.0.0";
    ack_port = 5008;
    recv_size = 2048;
    timeout_s = 1;
    pending_store = [];
    has_socket = false;
  };
}

-- A network that sends every packet in full.
abbrev environment : (ℕ → Received) → Environment ℕ
environment received = record {
  clock = λ k. k;
  received = received;
  socket = λ k. returns (pos 28);
  fileno = λ k. number (pos 4);
  opening = λ k. opens;
}

abbrev silence : ℕ → Received
silence k = timeout

abbrev answer : ℕ → Received
answer k =
    datagram
      (0x4F ∷ 0x4B ∷ 1 ∷ 4 ∷ 3 ∷ 0 ∷ 7 ∷ 0 ∷ 1 ∷ 2 ∷ 0 ∷ 0 ∷ 0 ∷ 0 ∷ 0 ∷ 0 ∷ 0 ∷ 0 ∷ 0 ∷ 0 ∷ 5 ∷ 0
        ∷ 0 ∷ 0 ∷ 0xEF ∷ 0xBE ∷ 0xAD ∷ 0xDE ∷ [])
      (host_port "10.0.0.3" 5008)

abbrev ack_of_ping : ParsedOkuaAck
ack_of_ping = record {
  node_id_source = 3;
  cmd_seq = 7;
  cmd_id_echo = 1;
  nonce_echo = 5 * 0x1_0000_0000;
  ack_stage = 2;
  status_code = 0;
  ack_flags = 0;
  err_detail = 0;
  retry_after_ms = 0;
  auth_tag32 = 0xDEADBEEF;
}

abbrev request : Request
request = record {
  command = send_ping;
  node_ip = "10.0.0.3";
  node_id = pos 3;
  source = "manual";
  ack_timeout_ms = pos 3;
  max_retries = pos 1;
  poll_interval_ms = pos 1;
}

abbrev event : ControlAuditEventType → ℕ → ControlAuditEvent
event event_type attempt_index = record {
  event_type = event_type;
  command_name = "PING";
  cmd_id = 1;
  node_ip = "10.0.0.3";
  node_id = 3;
  cmd_seq = some 7;
  nonce = some (5 * 0x1_0000_0000);
  attempt_index = attempt_index;
  ack_stage = none;
  status_code = none;
  err_detail = none;
}

abbrev listening : World ℕ → ℕ → World ℕ
listening w at = record w {
  at = at;
  service = service 8 1;
  listener = record w.listener { has_socket = true };
}

-- No answer, twice.
abbrev pub unanswered : ControlTransactionResult ℕ
unanswered = record {
  command_name = "PING";
  cmd_id = 1;
  node_ip = "10.0.0.3";
  node_id = 3;
  cmd_seq = some 7;
  nonce = some (5 * 0x1_0000_0000);
  attempt_count = 2;
  final_status = ControlTransactionFinalStatus.timeout;
  ack = none;
  matched_sent_command = some (record (sent_ping 7 0) { source = "retry" });
  elapsed_ms = 16;
  last_error = some (no_ack 2);
  events =
      event command_sent 1
      ∷ event command_timeout 1
      ∷ event command_retry 2
      ∷ event command_timeout 2
      ∷ [];
}

abbrev pub answered : ControlTransactionResult ℕ
answered = record unanswered {
  attempt_count = 1;
  final_status = ack_matched;
  ack = some ack_of_ping;
  matched_sent_command = some (sent_ping 7 0);
  elapsed_ms = 9;
  last_error = none;
  events =
      event command_sent 1
      ∷ record (event command_ack 1) {
        ack_stage = some 2;
        status_code = some 0;
        err_detail = some 0;
      }
      ∷ [];
}

silent_run :
    execute_transaction ops (environment silence) as_is digest 9 request world
    ≡ ok (some (unanswered, listening world 17))
unfolding execute_transaction build_okua_cmd_bytes build_cmd_flags register_sent_command
    discard_sent_command key_of_sent
silent_run = refl

answered_run :
    execute_transaction ops (environment answer) as_is digest 9 request world
    ≡ ok (some (answered, listening world 10))
unfolding execute_transaction build_okua_cmd_bytes build_cmd_flags parse_okua_ack_bytes
    register_sent_command correlate_ack_datagram key_of_sent key_of_ack
answered_run = refl

execute_transaction-IsClean_example :
    IsClean request world.service answered (listening world 10).listener.pending_store
execute_transaction-IsClean_example =
    execute_transaction-IsClean ops (environment answer) as_is digest digest-IsDigest 9 request
      world (listening world 10) answered (Reachable-IsWellFiled fresh) answered_run

execute_transaction-IsBounded_example :
    IsBounded (service 7 0).nonce_manager 2 unanswered (listening world 17)
execute_transaction-IsBounded_example =
    execute_transaction-IsBounded ops (environment silence) as_is digest 9 request world
      (listening world 17) unanswered silent_run

silence_passes : IsPassing ops (environment silence)
silence_passes deadline = (deadline, λ k le. ground arith)

execute_transaction_returns_example :
    (n : ℕ) × (o : Outcome ℕ) × ((fuel : ℕ)
      → n ≤ fuel
      → execute_transaction ops (environment silence) as_is digest fuel request world ≡ ok (some o))
execute_transaction_returns_example =
    execute_transaction_returns ops (environment silence) as_is digest request world silence_passes
      (omega arith) (omega arith) (omega arith)
