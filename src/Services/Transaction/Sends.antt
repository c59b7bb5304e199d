-- ===== src/Services/Transaction/Sends.antt =====
-- The events of a transaction that say that a command was sent
-- (services/control_transaction_service.py).
use control_ok_a_v.Base.{
  ℕ, ◌+◌, ◌≡◌, refl, List, [], ◌∷◌, ◌++◌, Option, none, some, Result, ok, err, Bool-cases, inl, inr,
  arith,
}
use control_ok_a_v.ControlPlane.Audit.{
  ControlAuditEvent, ControlAuditEventType, command_sent, command_retry, invalid_ack_seen,
  unmatched_ack_seen,
}
use control_ok_a_v.ControlPlane.Protocol.{ParsedOkuaAck}
use control_ok_a_v.ControlPlane.Pending.{
  SentOkuaCommand, AckCorrelationResult, AckCorrelationStatus, matched, unmatched_ack, invalid_ack,
}
use control_ok_a_v.Services.AckListener.{ListenerError}
use control_ok_a_v.Services.Transaction.Model.{Progress, event_of, ack_event, same_command_identity}
use control_ok_a_v.Services.Transaction.Waiting.{heed, heed_status, heed_match}

abbrev pub is_send : ControlAuditEventType → ℕ
is_send command_sent = 1
is_send command_retry = 1
is_send _ = 0

-- How many of the events say that a command was sent.
unfoldable pub sends : List ControlAuditEvent → ℕ
sends [] = 0
sends (e ∷ rest) = is_send e.event_type + sends rest

pub sends-append :
    (xs : List ControlAuditEvent) (e : ControlAuditEvent)
    → sends (xs ++ (e ∷ [])) ≡ sends xs + is_send e.event_type
unfolding sends
sends-append [] e = omega arith
sends-append (x ∷ xs) e = omega (arith, sends-append xs e)

sends-ack_event :
    (xs : List ControlAuditEvent) (a : Option ParsedOkuaAck) (sent : SentOkuaCommand) (i : ℕ)
    → sends (xs ++ (ack_event a sent i ∷ [])) ≡ sends xs
unfolding ack_event
sends-ack_event xs none sent i = omega (arith, sends-append xs (ack_event none sent i))
sends-ack_event xs (some a) sent i = omega (arith, sends-append xs (ack_event (some a) sent i))

pub sends-event_of :
    (xs : List ControlAuditEvent) (t : ControlAuditEventType) (sent : SentOkuaCommand) (i : ℕ)
    → sends (xs ++ (event_of t sent i ∷ [])) ≡ sends xs + is_send t
unfolding event_of
sends-event_of xs t sent i = sends-append xs (event_of t sent i)

heed_match-sends :
    (o : Option SentOkuaCommand) (a : Option ParsedOkuaAck) (sent : SentOkuaCommand) (i : ℕ)
    (p : Progress)
    → sends (heed_match o a sent i p).1.events ≡ sends p.events
unfolding heed_match
heed_match-sends none a sent i p = omega (arith, sends-event_of p.events unmatched_ack_seen sent i)
heed_match-sends (some c) a sent i p = elim (Bool-cases (same_command_identity c sent)) [
  | inl e ↦ simp e (sends-ack_event p.events a sent i)
  | inr e ↦ simp e (omega (arith, sends-event_of p.events unmatched_ack_seen sent i))
]

module _ {Time : Type 0} where
  heed_status-sends :
      (status : AckCorrelationStatus) (r : AckCorrelationResult Time) (sent : SentOkuaCommand)
      (i : ℕ) (p : Progress)
      → sends (heed_status status r sent i p).1.events ≡ sends p.events
  unfolding heed_status
  heed_status-sends matched r sent i p = heed_match-sends r.sent_command r.ack sent i p
  heed_status-sends invalid_ack r sent i p =
      omega (arith, sends-event_of p.events invalid_ack_seen sent i)
  heed_status-sends unmatched_ack r sent i p =
      omega (arith, sends-event_of p.events unmatched_ack_seen sent i)

  pub heed-sends :
      (o : Result ListenerError (Option (AckCorrelationResult Time))) (sent : SentOkuaCommand)
      (i : ℕ) (p : Progress)
      → sends (heed o sent i p).1.events ≡ sends p.events
  unfolding heed
  heed-sends (err e) sent i p = refl
  heed-sends (ok none) sent i p = refl
  heed-sends (ok (some r)) sent i p = heed_status-sends r.status r sent i p
