-- ===== src/ControlPlane/Pending/WellFiled.antt =====
-- What every step of a pending store keeps (core/control_plane/pending.py).
use control_ok_a_v.Base.{ℕ, ◌≡◌, [], Option, none, some, String, arith, Result, ok, err, length}
use control_ok_a_v.Base.Bytes.{Bytes}
use control_ok_a_v.Base.Dict.{
  lookup, erase, HasDistinctKeys, lookup-insert, lookup-erase, insert-HasDistinctKeys,
  erase-HasDistinctKeys,
}
use control_ok_a_v.ControlPlane.Protocol.{AckParseErrorCode, ParsedOkuaAck, parse_okua_ack_bytes}
use control_ok_a_v.ControlPlane.Pending.Store.{
  SentOkuaCommand, CommandKey, key_eq, key_beq_iff, key_of_sent, key_of_ack, PendingCommandStore,
  PendingCommand, register_sent_command, correlate_parsed, correlate_ack_datagram,
  discard_sent_command, resolve_ts,
}

module _ {Time : Type 0} where
  -- Each command is filed once, under its own key.
  pub record IsWellFiled (store : PendingCommandStore Time) : Type 0 where
    pub distinct : HasDistinctKeys store
    pub own_key :
        (k : CommandKey) (p : PendingCommand Time)
        → lookup k store ≡ some p
        → key_of_sent p.sent_command ≡ k

  pub empty-IsWellFiled : IsWellFiled []
  empty-IsWellFiled = record { distinct = tt; own_key = λ k p e. cc }

  pub register-IsWellFiled :
      (c : SentOkuaCommand) (ts : Option Time) (now : Time) (store : PendingCommandStore Time)
      → IsWellFiled store
      → IsWellFiled (register_sent_command c ts now store)
  unfolding register_sent_command
  register-IsWellFiled c ts now store h = record {
    distinct = insert-HasDistinctKeys (key_of_sent c) _ store h.distinct;
    own_key =
        λ k p. rw lookup-insert (ground (arith, key_beq_iff (key_of_sent c) k, h.own_key k p));
  }

  pub erase-IsWellFiled :
      (j : CommandKey) (store : PendingCommandStore Time)
      → IsWellFiled store
      → IsWellFiled (erase j store)
  erase-IsWellFiled j store h = record {
    distinct = erase-HasDistinctKeys j store h.distinct;
    own_key = λ k p.
        rw (lookup-erase j k store h.distinct) (ground (arith, key_beq_iff j k, h.own_key k p));
  }

  pub correlate_parsed-IsWellFiled :
      (r : Result AckParseErrorCode ParsedOkuaAck) (n : ℕ) (ip : String) (port : ℕ) (ts now : Time)
      (store : PendingCommandStore Time)
      → IsWellFiled store
      → IsWellFiled (correlate_parsed r n ip port ts now store).1
  unfolding correlate_parsed
  correlate_parsed-IsWellFiled (ok a) n ip port ts now store h =
      erase-IsWellFiled (key_of_ack a) store h
  correlate_parsed-IsWellFiled (err e) n ip port ts now store h = h

  pub datagram-IsWellFiled :
      (payload : Bytes) (ip : String) (port : ℕ) (ts : Option Time) (now : Time)
      (store : PendingCommandStore Time)
      → IsWellFiled store
      → IsWellFiled (correlate_ack_datagram payload ip port ts now store).1
  unfolding correlate_ack_datagram
  datagram-IsWellFiled payload ip port ts now store h =
      correlate_parsed-IsWellFiled (parse_okua_ack_bytes payload) (length payload) ip port
        (resolve_ts ts now) now store h

  -- A command that was discarded is not pending, and nothing else has changed.
  pub discard-IsWellFiled :
      (c : SentOkuaCommand) (store : PendingCommandStore Time)
      → IsWellFiled store
      → IsWellFiled (discard_sent_command c store).1
        × (lookup (key_of_sent c) (discard_sent_command c store).1 ≡ none)
  unfolding discard_sent_command
  discard-IsWellFiled c store h = (
    erase-IsWellFiled (key_of_sent c) store h,
    rw (lookup-erase (key_of_sent c) (key_of_sent c) store h.distinct)
        (ground (arith, key_beq_iff (key_of_sent c) (key_of_sent c))),
  )
