-- ===== src/ControlPlane/Pending/Echo.antt =====
-- A match by the numbers that an acknowledgement echoes (core/control_plane/pending.py).
use control_ok_a_v.Base.{
  ℕ, ◌%◌, ◌^◌, ◌↔◌, ◌≡◌, refl, ap, Option, none, some, String, arith, Result, ok, err, Option-cases,
  inl, inr,
}
use control_ok_a_v.Base.Dict.{lookup, lookup-erase}
use control_ok_a_v.ControlPlane.Protocol.{AckParseErrorCode, ParsedOkuaAck}
use control_ok_a_v.ControlPlane.Pending.Store.{
  command_key, SentOkuaCommand, CommandKey, key_eq, key_beq_iff, key_of_sent, key_of_ack,
  PendingCommandStore, PendingCommand, matched, AckCorrelationResult, correlate_parsed_ack,
  correlate_parsed, resolve_ts, correlation,
}
use control_ok_a_v.ControlPlane.Pending.WellFiled.{IsWellFiled}

-- The command has the numbers that the acknowledgement echoes, each cut to its width.
pub record IsEchoOf (a : ParsedOkuaAck) (c : SentOkuaCommand) : Type 0 where
  pub sequence : c.cmd_seq % 2 ^ 16 ≡ a.cmd_seq % 2 ^ 16
  pub command : c.cmd_id % 2 ^ 8 ≡ a.cmd_id_echo % 2 ^ 8
  pub number : c.nonce % 2 ^ 64 ≡ a.nonce_echo % 2 ^ 64

-- The key is made of these three numbers, and of nothing else.
pub IsEchoOf_iff :
    (a : ParsedOkuaAck) (c : SentOkuaCommand) → (key_of_sent c ≡ key_of_ack a) ↔ IsEchoOf a c
unfolding key_of_sent key_of_ack command_key
IsEchoOf_iff a c = (
  (λ e. record {
    sequence = ap (λ k. k.seq_part) e;
    command = ap (λ k. k.id_part) e;
    number = ap (λ k. k.nonce_part) e;
  }),
  (λ h. λ i. record { seq_part = h.sequence i; id_part = h.command i; nonce_part = h.number i }),
)

module _ {Time : Type 0} where
  -- No pending command has the numbers that the acknowledgement echoes.
  abbrev pub IsAnswered : ParsedOkuaAck → PendingCommandStore Time → Type 0
  IsAnswered a store =
      (k : CommandKey) (p : PendingCommand Time)
      → lookup k store ≡ some p
      → ¬ IsEchoOf a p.sent_command

  -- What a match of the acknowledgement `a` says: the command that is returned was pending, with the
  -- numbers that `a` echoes, and from now on no command with these is pending.
  abbrev pub IsMatchOf :
      ParsedOkuaAck
      → PendingCommandStore Time
      → AckCorrelationResult Time × PendingCommandStore Time
      → Type 0
  IsMatchOf a before (r, store) =
      (c : SentOkuaCommand) × (k : CommandKey) × (p : PendingCommand Time) × (lookup k before
        ≡ some p)
      × (p.sent_command ≡ c)
      × (r.sent_command ≡ some c)
      × (r.ack ≡ some a)
      × IsEchoOf a c
      × IsAnswered a store

  answered :
      (a : ParsedOkuaAck) (store : PendingCommandStore Time)
      → IsWellFiled store
      → lookup (key_of_ack a) store ≡ none
      → IsAnswered a store
  answered a store h gone k p e echo =
      let same : key_of_sent p.sent_command ≡ k = h.own_key k p e in
      let key : key_of_sent p.sent_command ≡ key_of_ack a =
        (IsEchoOf_iff a p.sent_command).1 echo in
      cc

  correlate_parsed_ack-IsMatchOf :
      (a : ParsedOkuaAck) (ip : Option String) (port : Option ℕ) (ts : Option Time) (now : Time)
      (store : PendingCommandStore Time)
      → IsWellFiled store
      → IsWellFiled (correlate_parsed_ack a ip port ts now store).1
      → (correlate_parsed_ack a ip port ts now store).0.status ≡ matched
      → IsMatchOf a store (correlate_parsed_ack a ip port ts now store)
  unfolding correlate_parsed_ack
  correlate_parsed_ack-IsMatchOf a ip port ts now store h after m =
      elim (Option-cases (lookup (key_of_ack a) store)) [
        | inl e ↦ absurd (cc e)
        | inr (p, e) ↦ (
          p.sent_command,
          key_of_ack a,
          p,
          e,
          refl,
          ap (λ o. (correlation a ip port (resolve_ts ts now) o).sent_command) e,
          ap (λ o. (correlation a ip port (resolve_ts ts now) o).ack) e,
          (IsEchoOf_iff a p.sent_command).0 (h.own_key (key_of_ack a) p e),
          answered a _ after (
              rw (lookup-erase (key_of_ack a) (key_of_ack a) store h.distinct)
                (ground (arith, key_beq_iff (key_of_ack a) (key_of_ack a)))),
        )
      ]

  pub parsed-IsMatchOf :
      (q : Result AckParseErrorCode ParsedOkuaAck) (n : ℕ) (ip : String) (port : ℕ) (ts now : Time)
      (store : PendingCommandStore Time)
      → IsWellFiled store
      → IsWellFiled (correlate_parsed q n ip port ts now store).1
      → (correlate_parsed q n ip port ts now store).0.status ≡ matched
      → (a : ParsedOkuaAck) × (q ≡ ok a)
        × IsMatchOf a store (correlate_parsed q n ip port ts now store)
  unfolding correlate_parsed
  parsed-IsMatchOf (ok a) n ip port ts now store h after m = (
    a,
    refl,
    correlate_parsed_ack-IsMatchOf a (some ip) (some port) (some ts) now store h after m,
  )
  parsed-IsMatchOf (err e) n ip port ts now store h after m = absurd (cc m)
