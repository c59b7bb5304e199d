-- ===== src/Services/Transaction/Settled.antt =====
-- A transaction leaves nothing of its own behind, and an acknowledgement that it reports is its own
-- (services/control_transaction_service.py).
use control_ok_a_v.Base.{
  ℕ, ◌+◌, ◌≡◌, refl, sym, ◌∙◌, true, Option, none, some, Result, ok, err, Bool-cases, inl, inr,
}
use control_ok_a_v.Base.Dict.{lookup}
use control_ok_a_v.ControlPlane.Protocol.{ParsedOkuaAck}
use control_ok_a_v.ControlPlane.Pending.{
  SentOkuaCommand, PendingCommandStore, AckCorrelationResult, AckCorrelationStatus, matched,
  unmatched_ack, invalid_ack, key_eq, key_beq_iff, key_of_sent, key_of_ack,
}
use control_ok_a_v.ControlPlane.Pending.Correlation.{MatchesOwn, datagram-MatchesOwn}
use control_ok_a_v.ControlPlane.Pending.WellFiled.{IsWellFiled, datagram-IsWellFiled}
use control_ok_a_v.Services.AckListener.{
  AckListener, ListenerError, Received, timeout, receive_raises, datagram, receive, poll_once,
  normalize_address,
}
use control_ok_a_v.Services.Transaction.Model.{
  Environment, TimeOps, World, Progress, same_command_identity,
}
use control_ok_a_v.Services.Transaction.Waiting.{
  Waited, acked, broken, expired, heed, heed_status, heed_match, poll, wait,
}
use control_ok_a_v.Services.Transaction.Rule.{IfAny, Holds, Ends, wait-rule}

same_command_identity-key :
    (c d : SentOkuaCommand) → same_command_identity c d ≡ true → key_of_sent c ≡ key_of_sent d
unfolding same_command_identity key_of_sent
same_command_identity-key c d h = (key_beq_iff (key_of_sent c) (key_of_sent d)).0 h

module _ {Time : Type 0} where
  -- What a poll gives from a well-filed store: a match is of a command that was filed.
  Observes :
      Result ListenerError (Option (AckCorrelationResult Time)) → PendingCommandStore Time → Type 0
  Observes (err e) store = IsWellFiled store
  Observes (ok none) store = IsWellFiled store
  Observes (ok (some r)) store = IsWellFiled store × (r.status ≡ matched → MatchesOwn (r, store))

  receive-Observes :
      (received : Received) (now : Time) (l : AckListener Time)
      → IsWellFiled l.pending_store
      → Observes (receive received now l).0 (receive received now l).1.pending_store
  unfolding receive Observes
  receive-Observes timeout now l h = h
  receive-Observes receive_raises now l h = h
  receive-Observes (datagram payload address) now l h = (
    datagram-IsWellFiled payload (normalize_address address).0 (normalize_address address).1
        (some now) now l.pending_store h,
    datagram-MatchesOwn payload (normalize_address address).0 (normalize_address address).1
        (some now) now l.pending_store h,
  )

  poll_once-Observes :
      (received : Received) (now : Time) (l : AckListener Time)
      → IsWellFiled l.pending_store
      → Observes (poll_once received now l).0 (poll_once received now l).1.pending_store
  unfolding poll_once Observes
  poll_once-Observes received now l h = elim (Bool-cases l.has_socket) [
    | inl e ↦ simp e (receive-Observes received now l h)
    | inr e ↦ simp e h
  ]

  -- The acknowledgement `a`, matched to `c`, is that of `sent`, which is no longer pending.
  pub record IsAnswer (sent c : SentOkuaCommand) (a : Option ParsedOkuaAck)
      (store : PendingCommandStore Time) : Type 0 where
    pub ack : ParsedOkuaAck
    pub given : a ≡ some ack
    pub echoes : key_of_sent sent ≡ key_of_ack ack
    pub same : key_of_sent c ≡ key_of_sent sent
    pub freed : lookup (key_of_sent c) store ≡ none

  -- What holds when a wait has ended.
  abbrev pub IsSettled : SentOkuaCommand → Waited → Progress → World Time → Type 0
  IsSettled sent (acked a c) p w =
      IsWellFiled w.listener.pending_store × IsAnswer sent c a w.listener.pending_store
  IsSettled sent (broken e) p w = IsWellFiled w.listener.pending_store
  IsSettled sent expired p w = IsWellFiled w.listener.pending_store

  abbrev IsKept : Progress → World Time → Type 0
  IsKept p w = IsWellFiled w.listener.pending_store

  module _ (ops : TimeOps Time) (env : Environment Time) (sent : SentOkuaCommand) (i : ℕ) where
    heed_match-Holds :
        (r : AckCorrelationResult Time) (o : Option SentOkuaCommand) (p : Progress) (w : World Time)
        → r.sent_command ≡ o
        → IsWellFiled w.listener.pending_store
        → MatchesOwn (r, w.listener.pending_store)
        → Holds ops env IsKept
            (IsSettled sent)
            (heed_match o r.ack sent i p).0
            (heed_match o r.ack sent i p).1
            w
    unfolding heed_match
    heed_match-Holds r none p w e h m = h
    heed_match-Holds r (some c) p w e h (d, a, is_c, is_a, key, freed) =
        elim (Bool-cases (same_command_identity c sent)) [
          | inr f ↦ rw f h
          | inl f ↦
              let is : c ≡ d = cc in
              let own : key_of_sent c ≡ key_of_ack a = rw is key in
              let same = same_command_identity-key c sent f in
              rw f (
                h,
                record {
                  ack = a;
                  given = is_a;
                  echoes = sym same ∙ own;
                  same = same;
                  freed = rw own freed;
                },
              )
        ]

    heed_status-Holds :
        (r : AckCorrelationResult Time) (status : AckCorrelationStatus) (p : Progress)
        (w : World Time)
        → r.status ≡ status
        → IsWellFiled w.listener.pending_store
        → (r.status ≡ matched → MatchesOwn (r, w.listener.pending_store))
        → Holds ops env IsKept
            (IsSettled sent)
            (heed_status status r sent i p).0
            (heed_status status r sent i p).1
            w
    unfolding heed_status
    heed_status-Holds r matched p w e h m = heed_match-Holds r r.sent_command p w refl h (m e)
    heed_status-Holds r invalid_ack p w e h m = h
    heed_status-Holds r unmatched_ack p w e h m = h

    heed-Holds :
        (o : Result ListenerError (Option (AckCorrelationResult Time))) (p : Progress)
        (w : World Time)
        → Observes o w.listener.pending_store
        → Holds ops env IsKept (IsSettled sent) (heed o sent i p).0 (heed o sent i p).1 w
    unfolding heed Observes
    heed-Holds (err e) p w h = h
    heed-Holds (ok none) p w h = h
    heed-Holds (ok (some r)) p w (h, m) = heed_status-Holds r r.status p w refl h m

    pub wait-IsSettled :
        (fuel : ℕ) (deadline : Time) (p : Progress) (w : World Time)
        → IsWellFiled w.listener.pending_store
        → IfAny (Ends ops env IsKept (IsSettled sent)) (wait ops env fuel deadline sent i p w)
    unfolding poll
    wait-IsSettled =
        wait-rule ops env IsKept (IsSettled sent) sent i (λ p w h. h) (λ p w h. h)
          (λ p w h.
            heed-Holds (poll_once (env.received w.at) (env.clock w.at) w.listener).0 p
              (record w {
                at = w.at + 1;
                listener = (poll_once (env.received w.at) (env.clock w.at) w.listener).1;
              })
              (poll_once-Observes (env.received w.at) (env.clock w.at) w.listener h))
