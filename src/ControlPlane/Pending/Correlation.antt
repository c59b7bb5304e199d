-- ===== src/ControlPlane/Pending/Correlation.antt =====
-- An acknowledgement is matched to the command that it answers, and only once
-- (core/control_plane/pending.py).
use control_ok_a_v.Base.{
  ℕ, ◌≡◌, ◌≢◌, refl, ap, [], Option, none, some, String, if◌then◌else◌, arith, Result, ok, err,
  Option-cases, inl, inr, length,
}
use control_ok_a_v.Base.Bytes.{Bytes}
use control_ok_a_v.Base.Dict.{lookup, lookup-insert, lookup-erase}
use control_ok_a_v.ControlPlane.Protocol.{AckParseErrorCode, ParsedOkuaAck, parse_okua_ack_bytes}
use control_ok_a_v.ControlPlane.Protocol.AckLayout.{
  IsInRange, ack_bytes, parse_okua_ack_bytes-ack_bytes,
}
use control_ok_a_v.ControlPlane.Pending.Store.{
  SentOkuaCommand, CommandKey, key_eq, key_beq, key_beq_iff, key_of_sent, key_of_ack,
  PendingCommandStore, PendingCommand, matched, invalid_ack, AckCorrelationResult,
  register_sent_command, correlate_parsed_ack, correlate_parsed, correlate_ack_datagram, clear,
  discard_sent_command, resolve_ts, correlation,
}
use control_ok_a_v.ControlPlane.Pending.WellFiled.{
  IsWellFiled, empty-IsWellFiled, register-IsWellFiled, datagram-IsWellFiled, discard-IsWellFiled,
}
use control_ok_a_v.ControlPlane.Pending.Echo.{IsMatchOf, parsed-IsMatchOf}

module _ {Time : Type 0} where
  -- The stores that the operations reach, in any order, from the empty one.
  pub data Reachable : PendingCommandStore Time → Type 0 where
    fresh : Reachable []
    registered :
        {store : PendingCommandStore Time} (c : SentOkuaCommand) (ts : Option Time) (now : Time)
        → Reachable store
        → Reachable (register_sent_command c ts now store)
    received :
        {store : PendingCommandStore Time} (payload : Bytes) (ip : String) (port : ℕ)
        (ts : Option Time) (now : Time)
        → Reachable store
        → Reachable (correlate_ack_datagram payload ip port ts now store).1
    discarded :
        {store : PendingCommandStore Time} (c : SentOkuaCommand)
        → Reachable store
        → Reachable (discard_sent_command c store).1
    cleared : {store : PendingCommandStore Time} → Reachable store → Reachable (clear store)

  -- However commands are registered, acknowledged, discarded and cleared, each pending command is
  -- filed once, under its own key.
  pub Reachable-IsWellFiled :
      {store : PendingCommandStore Time} → Reachable store → IsWellFiled store
  unfolding correlate_ack_datagram discard_sent_command clear
  Reachable-IsWellFiled fresh = empty-IsWellFiled
  Reachable-IsWellFiled (registered {store} c ts now r) =
      register-IsWellFiled c ts now store (Reachable-IsWellFiled r)
  Reachable-IsWellFiled (received {store} payload ip port ts now r) =
      datagram-IsWellFiled payload ip port ts now store (Reachable-IsWellFiled r)
  Reachable-IsWellFiled (discarded {store} c r) =
      (discard-IsWellFiled c store (Reachable-IsWellFiled r)).0
  Reachable-IsWellFiled (cleared r) = empty-IsWellFiled

  -- What a match says: the command that is returned has the key of the acknowledgement, and from
  -- now on no command is pending under that key.
  abbrev pub MatchesOwn : AckCorrelationResult Time × PendingCommandStore Time → Type 0
  MatchesOwn (r, store) =
      (c : SentOkuaCommand) × (a : ParsedOkuaAck) × (r.sent_command ≡ some c)
      × (r.ack ≡ some a)
      × (key_of_sent c ≡ key_of_ack a)
      × (lookup (key_of_ack a) store ≡ none)

  pub correlate_parsed_ack-MatchesOwn :
      (a : ParsedOkuaAck) (ip : Option String) (port : Option ℕ) (ts : Option Time) (now : Time)
      (store : PendingCommandStore Time)
      → IsWellFiled store
      → (correlate_parsed_ack a ip port ts now store).0.status ≡ matched
      → MatchesOwn (correlate_parsed_ack a ip port ts now store)
  unfolding correlate_parsed_ack
  correlate_parsed_ack-MatchesOwn a ip port ts now store h m =
      elim (Option-cases (lookup (key_of_ack a) store)) [
        | inl e ↦ absurd (cc e)
        | inr (p, e) ↦ (
          p.sent_command,
          a,
          ap (λ o. (correlation a ip port (resolve_ts ts now) o).sent_command) e,
          ap (λ o. (correlation a ip port (resolve_ts ts now) o).ack) e,
          h.own_key (key_of_ack a) p e,
          rw (lookup-erase (key_of_ack a) (key_of_ack a) store h.distinct)
              (ground (arith, key_beq_iff (key_of_ack a) (key_of_ack a))),
        )
      ]

  parsed-MatchesOwn :
      (q : Result AckParseErrorCode ParsedOkuaAck) (n : ℕ) (ip : String) (port : ℕ) (ts now : Time)
      (store : PendingCommandStore Time)
      → IsWellFiled store
      → (correlate_parsed q n ip port ts now store).0.status ≡ matched
      → MatchesOwn (correlate_parsed q n ip port ts now store)
  unfolding correlate_parsed
  parsed-MatchesOwn (ok a) n ip port ts now store h m =
      correlate_parsed_ack-MatchesOwn a (some ip) (some port) (some ts) now store h m
  parsed-MatchesOwn (err e) n ip port ts now store h m = absurd (cc m)

  pub datagram-MatchesOwn :
      (payload : Bytes) (ip : String) (port : ℕ) (ts : Option Time) (now : Time)
      (store : PendingCommandStore Time)
      → IsWellFiled store
      → (correlate_ack_datagram payload ip port ts now store).0.status ≡ matched
      → MatchesOwn (correlate_ack_datagram payload ip port ts now store)
  unfolding correlate_ack_datagram
  datagram-MatchesOwn payload ip port ts now store h m =
      parsed-MatchesOwn (parse_okua_ack_bytes payload) (length payload) ip port (resolve_ts ts now)
        now store h m

  -- In every reachable store, a datagram that is reported as matched reads as an acknowledgement. The
  -- command that it is matched to was pending, and has the sequence number, the command and the nonce
  -- that the acknowledgement echoes, each cut to its width. From then on no command with these
  -- numbers is pending.
  pub correlate_ack_datagram-IsMatchOf :
      (payload : Bytes) (ip : String) (port : ℕ) (ts : Option Time) (now : Time)
      (store : PendingCommandStore Time)
      → Reachable store
      → (correlate_ack_datagram payload ip port ts now store).0.status ≡ matched
      → (a : ParsedOkuaAck) × (parse_okua_ack_bytes payload ≡ ok a)
        × IsMatchOf a store (correlate_ack_datagram payload ip port ts now store)
  unfolding correlate_ack_datagram
  correlate_ack_datagram-IsMatchOf payload ip port ts now store r m =
      parsed-IsMatchOf (parse_okua_ack_bytes payload) (length payload) ip port (resolve_ts ts now)
        now store (Reachable-IsWellFiled r)
        (Reachable-IsWellFiled (received payload ip port ts now r)) m

  -- A datagram that is no acknowledgement is reported with its parse error, and changes nothing.
  pub correlate_ack_datagram_invalid :
      (payload : Bytes) (ip : String) (port : ℕ) (ts : Option Time) (now : Time)
      (store : PendingCommandStore Time) (code : AckParseErrorCode)
      → parse_okua_ack_bytes payload ≡ err code
      → let (r, store') = correlate_ack_datagram payload ip port ts now store in
        (r.status ≡ invalid_ack)
        × (r.parse_error_code ≡ some code)
        × (r.sent_command ≡ none)
        × (r.raw_len ≡ some (length payload))
        × (store' ≡ store)
  unfolding correlate_ack_datagram correlate_parsed
  correlate_ack_datagram_invalid payload ip port ts now store code e =
      rw e (refl, refl, refl, refl, refl)

  lookup-register :
      (c : SentOkuaCommand) (k : CommandKey) (ts : Option Time) (now : Time)
      (store : PendingCommandStore Time)
      → lookup k (register_sent_command c ts now store) ≡ (
          if key_beq (key_of_sent c) k
          then some (record { sent_command = c; registered_ts = resolve_ts ts now })
          else lookup k store)
  unfolding register_sent_command
  lookup-register c k ts now store = lookup-insert (key_of_sent c) k _ store

  -- The acknowledgement that a node sends for a command that has just been registered is matched to
  -- that command. Only its key is freed: every other pending command stays as it was.
  pub register-acknowledge :
      (c : SentOkuaCommand) (a : ParsedOkuaAck) (ip : String) (port : ℕ) (ts ts' : Option Time)
      (now now' : Time) (store : PendingCommandStore Time) (k : CommandKey)
      → Reachable store
      → IsInRange a
      → key_of_sent c ≡ key_of_ack a
      → let (r, store') =
          correlate_ack_datagram
            (ack_bytes a)
            ip
            port
            ts'
            now'
            (register_sent_command c ts now store) in
        (r.status ≡ matched)
        × (r.sent_command ≡ some c)
        × (r.ack ≡ some a)
        × (lookup (key_of_sent c) store' ≡ none)
        × (k ≢ key_of_sent c → lookup k store' ≡ lookup k store)
  unfolding correlate_ack_datagram correlate_parsed
  register-acknowledge c a ip port ts ts' now now' store k reach range same =
      rw (parse_okua_ack_bytes-ack_bytes a range) (
        ap (λ o. (answer o).status) found,
        ap (λ o. (answer o).sent_command) found,
        ap (λ o. (answer o).ack) found,
        rw (← same) (
            rw (lookup-erase (key_of_sent c) (key_of_sent c) _ filed.distinct)
              (ground (arith, key_beq_iff (key_of_sent c) (key_of_sent c)))),
        λ ne. rw (← same) (
            rw (lookup-erase (key_of_sent c) k _ filed.distinct) (
              rw (lookup-register c k ts now store)
                (ground (arith, key_beq_iff (key_of_sent c) k)))),
      )
    where
      filed : IsWellFiled (register_sent_command c ts now store)
      filed = register-IsWellFiled c ts now store (Reachable-IsWellFiled reach)

      answer : Option (PendingCommand Time) → AckCorrelationResult Time
      answer = correlation a (some ip) (some port) (resolve_ts ts' now')

      found :
          lookup (key_of_ack a) (register_sent_command c ts now store)
          ≡ some (record { sent_command = c; registered_ts = resolve_ts ts now })
      found = rw (← same) (
          rw (lookup-register c (key_of_sent c) ts now store)
            (ground (arith, key_beq_iff (key_of_sent c) (key_of_sent c))))
