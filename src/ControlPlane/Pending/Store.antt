-- ===== src/ControlPlane/Pending/Store.antt =====
-- `PendingCommandStore`. Times are of any type: the store only keeps them.
use control_ok_a_v.Base.{
  ℕ, ◌%◌, ◌^◌, ◌≡◌, ◌↔◌, Bool, true, false, ◌&&◌, List, [], map, Option, none, some, String, length,
  ◌==◌, arith, Result, ok, err,
}
use control_ok_a_v.Base.Bytes.{Bytes}
use control_ok_a_v.Base.Dict.{Eq, Dict, lookup, insert, erase}
use control_ok_a_v.ControlPlane.Protocol.{AckParseErrorCode, ParsedOkuaAck, parse_okua_ack_bytes}

-- `SentOkuaCommand` of services/cmd_service.py, which is the `SentCommandLike` of the store.
pub record SentOkuaCommand : Type 0 where
  pub source : String
  pub command_name : String
  pub cmd_id : ℕ
  pub node_ip : String
  pub node_id : ℕ
  pub cmd_seq : ℕ
  pub nonce : ℕ
  pub target_port : ℕ
  pub packet : Bytes
  pub bytes_sent : ℕ

pub record CommandKey : Type 0 where
  pub seq_part : ℕ
  pub id_part : ℕ
  pub nonce_part : ℕ

abbrev pub key_beq : CommandKey → CommandKey → Bool
key_beq a b = a.seq_part == b.seq_part && (a.id_part == b.id_part && a.nonce_part == b.nonce_part)

pub key_beq_iff : (a b : CommandKey) → (key_beq a b ≡ true) ↔ (a ≡ b)
key_beq_iff a b = ground arith

instance abbrev pub key_eq : Eq CommandKey
key_eq = record { beq = key_beq; beq_iff = key_beq_iff }

unfoldable pub command_key : ℕ → ℕ → ℕ → CommandKey
command_key cmd_seq cmd_id nonce = record {
  seq_part = cmd_seq % 2 ^ 16;
  id_part = cmd_id % 2 ^ 8;
  nonce_part = nonce % 2 ^ 64;
}

unfoldable pub key_of_sent : SentOkuaCommand → CommandKey
unfolding command_key
key_of_sent c = command_key c.cmd_seq c.cmd_id c.nonce

unfoldable pub key_of_ack : ParsedOkuaAck → CommandKey
unfolding command_key
key_of_ack a = command_key a.cmd_seq a.cmd_id_echo a.nonce_echo

pub data AckCorrelationStatus : Type 0 where
  matched unmatched_ack invalid_ack : AckCorrelationStatus

module _ (Time : Type 0) where
  pub record PendingCommand : Type 0 where
    pub sent_command : SentOkuaCommand
    pub registered_ts : Time

  -- The text of a parse error is a function of its code and the datagram, and is left out.
  pub record AckCorrelationResult : Type 0 where
    pub status : AckCorrelationStatus
    pub ack : Option ParsedOkuaAck
    pub sent_command : Option SentOkuaCommand
    pub parse_error_code : Option AckParseErrorCode
    pub source_ip : Option String
    pub source_port : Option ℕ
    pub received_ts : Option Time
    pub raw_len : Option ℕ

  abbrev pub PendingCommandStore : Type 0
  PendingCommandStore = Dict CommandKey PendingCommand

module _ {Time : Type 0} where
  -- `clock` is what `self._clock()` gives at the call, used where no time is supplied.
  abbrev pub resolve_ts : Option Time → Time → Time
  resolve_ts none clock = clock
  resolve_ts (some ts) clock = ts

  unfoldable pub pending_count : PendingCommandStore Time → ℕ
  pending_count store = length store

  -- The record that the source returns is the one that it files.
  unfoldable pub register_sent_command :
      SentOkuaCommand → Option Time → Time → PendingCommandStore Time → PendingCommandStore Time
  register_sent_command sent_command registered_ts clock store =
      insert (key_of_sent sent_command)
        (record { sent_command = sent_command; registered_ts = resolve_ts registered_ts clock })
        store

  -- The result, by whether a command was filed under the key of the acknowledgement.
  abbrev pub correlation :
      ParsedOkuaAck
      → Option String
      → Option ℕ
      → Time
      → Option (PendingCommand Time)
      → AckCorrelationResult Time
  correlation ack source_ip source_port ts none = record {
    status = unmatched_ack;
    ack = some ack;
    sent_command = none;
    parse_error_code = none;
    source_ip = source_ip;
    source_port = source_port;
    received_ts = some ts;
    raw_len = none;
  }
  correlation ack source_ip source_port ts (some pending) = record {
    status = matched;
    ack = some ack;
    sent_command = some pending.sent_command;
    parse_error_code = none;
    source_ip = source_ip;
    source_port = source_port;
    received_ts = some ts;
    raw_len = none;
  }

  unfoldable pub correlate_parsed_ack :
      ParsedOkuaAck
      → Option String
      → Option ℕ
      → Option Time
      → Time
      → PendingCommandStore Time
      → AckCorrelationResult Time × PendingCommandStore Time
  correlate_parsed_ack ack source_ip source_port received_ts clock store = (
    correlation ack source_ip source_port (resolve_ts received_ts clock)
        (lookup (key_of_ack ack) store),
    erase (key_of_ack ack) store,
  )

  -- What `correlate_ack_datagram` does with the parsed datagram, or with the parse error.
  unfoldable pub correlate_parsed :
      Result AckParseErrorCode ParsedOkuaAck
      → ℕ
      → String
      → ℕ
      → Time
      → Time
      → PendingCommandStore Time
      → AckCorrelationResult Time × PendingCommandStore Time
  unfolding correlate_parsed_ack
  correlate_parsed (err code) raw_len source_ip source_port ts clock store = (
    record {
      status = invalid_ack;
      ack = none;
      sent_command = none;
      parse_error_code = some code;
      source_ip = some source_ip;
      source_port = some source_port;
      received_ts = some ts;
      raw_len = some raw_len;
    },
    store,
  )
  correlate_parsed (ok ack) raw_len source_ip source_port ts clock store =
      correlate_parsed_ack ack (some source_ip) (some source_port) (some ts) clock store

  unfoldable pub correlate_ack_datagram :
      Bytes
      → String
      → ℕ
      → Option Time
      → Time
      → PendingCommandStore Time
      → AckCorrelationResult Time × PendingCommandStore Time
  unfolding correlate_parsed
  correlate_ack_datagram payload source_ip source_port received_ts clock store =
      correlate_parsed (parse_okua_ack_bytes payload) (length payload) source_ip source_port
        (resolve_ts received_ts clock) clock store

  unfoldable pub clear : PendingCommandStore Time → PendingCommandStore Time
  clear store = []

  unfoldable pub list_pending : PendingCommandStore Time → List (PendingCommand Time)
  list_pending store = map (λ entry. entry.1) store

  unfoldable pub discard_sent_command :
      SentOkuaCommand → PendingCommandStore Time → Bool × PendingCommandStore Time
  discard_sent_command sent_command store = (
    elim (lookup (key_of_sent sent_command) store) [ none ↦ false | some p ↦ true ],
    erase (key_of_sent sent_command) store,
  )
