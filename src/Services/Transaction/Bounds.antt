-- ===== src/Services/Transaction/Bounds.antt =====
-- How much a transaction does: its attempts, the commands that it logs as sent, and the nonces that
-- it draws (services/control_transaction_service.py).
use control_ok_a_v.Base.{
  ℕ, ◌+◌, ◌≤◌, ◌≡◌, refl, ap, sym, ◌∙◌, Option, none, some, String, Result, ok, err, inl, arith,
  >>=-eq-ok,
}
use control_ok_a_v.Base.Int.{ℤ, pos_part}
use control_ok_a_v.Base.Bytes.{Bytes}
use control_ok_a_v.ControlPlane.Audit.{
  ControlAuditEventType, command_sent, command_retry, command_timeout, listener_not_running,
}
use control_ok_a_v.ControlPlane.Nonce.{NonceManager}
use control_ok_a_v.ControlPlane.Pending.{SentOkuaCommand}
use control_ok_a_v.Services.AckListener.{poll_once}
use control_ok_a_v.Services.Cmd.Replay.{HasDrawn, send_new_command-HasDrawn}
use control_ok_a_v.Services.Transaction.Model.{
  Environment, TimeOps, World, Progress, tick, ControlTransactionResult, LastError,
  validate_timeout_ms, validate_poll_interval_ms, validate_max_retries,
}
use control_ok_a_v.Services.Transaction.Waiting.{Waited, acked, broken, expired, poll, wait}
use control_ok_a_v.Services.Transaction.Results.{
  Request, register, discard, Outcome, Attempt, result_of, result_unsent, request_event, settle,
  settle_waited,
}
use control_ok_a_v.Services.Transaction.Attempts.{
  await_ack, after_send, first_attempt, retry_attempt, conclude, ensure_listener_running,
  run_attempts, execute_transaction,
}
use control_ok_a_v.Services.Transaction.Rule.{
  IfAny, IfAny-eq, Holds, Ends, Leaves, wait-rule, attempts-rule,
}
use control_ok_a_v.Services.Transaction.Clean.{ensure_listener_running_lem}
use control_ok_a_v.Services.Transaction.Sends.{
  is_send, sends, sends-append, sends-event_of, heed-sends,
}

-- After `i` sends were logged, with at most one nonce drawn since `m`.
abbrev HasSent : {Time : Type 0} → NonceManager → ℕ → Progress → World Time → Type 0
HasSent m i p w = (sends p.events ≡ i) × HasDrawn m w.service.nonce_manager

-- A result of at most `total` attempts, and of as many sends, that took one nonce at most.
pub record IsBounded {Time : Type 0} (m : NonceManager) (total : ℕ)
    (r : ControlTransactionResult Time) (w : World Time) : Type 0 where
  pub few : r.attempt_count ≤ total
  pub logged : sends r.events ≤ r.attempt_count
  pub drawn : HasDrawn m w.service.nonce_manager

abbrev IsBoundedOutcome : {Time : Type 0} → NonceManager → ℕ → Outcome Time → Type 0
IsBoundedOutcome m total (r, w) = IsBounded m total r w

module _ {Time : Type 0} (ops : TimeOps Time) (env : Environment Time) (tx_started : Time)
    (stripped : String → Option String) (hmac : Bytes → Bytes → Bytes) (m : NonceManager)
    (total : ℕ) where
  abbrev IsLeft : ℕ → Attempt Time → Type 0
  IsLeft =
      Leaves ops env tx_started stripped hmac (λ i sent p w. HasSent m i p w)
        (IsBoundedOutcome m total)

  kept :
      (i : ℕ) (x : Option Waited) (p : Progress) (w : World Time)
      → HasSent m i p w
      → Holds ops env (HasSent m i) (λ y p w. HasSent m i p w) x p w
  kept i none p w h = h
  kept i (some x) p w h = h

  wait-HasSent :
      (sent : SentOkuaCommand) (i fuel : ℕ) (deadline : Time) (p : Progress) (w : World Time)
      → HasSent m i p w
      → IfAny
          (Ends ops env (HasSent m i) (λ x p w. HasSent m i p w))
          (wait ops env fuel deadline sent i p w)
  unfolding poll
  wait-HasSent sent i =
      wait-rule ops env (HasSent m i) (λ x p w. HasSent m i p w) sent i (λ p w h. h) (λ p w h. h)
        (λ p w h.
          kept i (poll ops env sent i p w).0 (poll ops env sent i p w).1 (poll ops env sent i p w).2
            (
              heed-sends (poll_once (env.received w.at) (env.clock w.at) w.listener).0 sent i p
                  ∙ h.0,
              h.1,
            ))

  settle-IsLeft :
      (waited : Waited) (sent : SentOkuaCommand) (i : ℕ) (p : Progress) (w : World Time)
      → i ≤ total
      → HasSent m i p w
      → IsLeft i (settle ops env tx_started waited sent i p w)
  unfolding settle result_of discard
  settle-IsLeft (acked a c) sent i p w le (count, drawn) = record {
    few = le;
    logged = omega arith;
    drawn = drawn;
  }
  settle-IsLeft (broken x) sent i p w le (count, drawn) = record {
    few = le;
    logged = omega (arith, sends-event_of p.events listener_not_running sent i);
    drawn = drawn;
  }
  settle-IsLeft expired sent i p w le (count, drawn) =
      (omega (arith, sends-event_of p.events command_timeout sent i), drawn)

  settle_waited-IsLeft :
      (o : Option (Waited × Progress × World Time)) (sent : SentOkuaCommand) (i : ℕ)
      → i ≤ total
      → IfAny (Ends ops env (HasSent m i) (λ x p w. HasSent m i p w)) o
      → IfAny (IsLeft i) (settle_waited ops env tx_started o sent i)
  unfolding settle_waited
  settle_waited-IsLeft none sent i le h = tt
  settle_waited-IsLeft (some (waited, p, w)) sent i le h = settle-IsLeft waited sent i p w le h

  after_send-IsLeft :
      (fuel timeout_ms : ℕ) (t : ControlAuditEventType) (r : Request)
      (active : Option SentOkuaCommand) (o : Result LastError SentOkuaCommand) (i : ℕ)
      (p : Progress) (w : World Time)
      → is_send t ≡ 1
      → i + 1 ≤ total
      → HasSent m i p w
      → IfAny
          (IsLeft (i + 1))
          (after_send ops env tx_started fuel timeout_ms t r active o (i + 1) p w)
  unfolding after_send await_ack register result_unsent request_event
  after_send-IsLeft fuel timeout_ms t r active (ok sent) i p w is le (count, drawn) =
      settle_waited-IsLeft _ sent (i + 1) le (
        wait-HasSent sent (i + 1) fuel _ _ _
          (omega (arith, sends-event_of p.events t sent (i + 1)), drawn))
  after_send-IsLeft fuel timeout_ms t r active (err e) i p w is le (count, drawn) = record {
    few = le;
    logged = omega (arith, sends-append p.events _);
    drawn = drawn;
  }

  retry_attempt-IsLeft :
      (fuel timeout_ms : ℕ) (r : Request) (sent : SentOkuaCommand) (i : ℕ) (p : Progress)
      (w : World Time)
      → i + 1 ≤ total
      → HasSent m i p w
      → IfAny
          (IsLeft (i + 1))
          (retry_attempt ops env tx_started stripped hmac fuel timeout_ms r sent (i + 1) p w)
  unfolding retry_attempt
  retry_attempt-IsLeft fuel timeout_ms r sent i p w le h =
      after_send-IsLeft fuel timeout_ms command_retry r (some sent) _ i p (tick w) refl le h

  run_attempts-IsBounded :
      (fuel timeout_ms retries : ℕ) (r : Request) (e : Option LastError) (w : World Time)
      → 1 + retries ≡ total
      → w.service.nonce_manager ≡ m
      → IfAny
          (IsBoundedOutcome m total)
          (run_attempts ops env stripped hmac fuel timeout_ms retries r tx_started e w)
  unfolding run_attempts first_attempt conclude result_of result_unsent request_event sends
  run_attempts-IsBounded fuel timeout_ms retries r (some e) w is same = record {
    few = omega arith;
    logged = omega arith;
    drawn = inl same;
  }
  run_attempts-IsBounded fuel timeout_ms retries r none w is same =
      attempts-rule ops env tx_started stripped hmac (λ i sent p w. HasSent m i p w)
        (IsBoundedOutcome m total) fuel timeout_ms total r
        (λ i sent p w le h. record { few = le; logged = omega (arith, h.0); drawn = h.1 })
        (λ i sent p w le h. retry_attempt-IsLeft fuel timeout_ms r sent i p w le h) retries 1 _ is
        (after_send-IsLeft fuel timeout_ms command_sent r none _ 0 _ _ refl (omega arith) (
          refl,
          rw (← same) (
              send_new_command-HasDrawn hmac stripped w.service r.command r.node_ip r.node_id
                r.source (env.socket w.at)),
        ))

max_retries-eq : (v : ℤ) (n : ℕ) → validate_max_retries v ≡ ok n → pos_part v ≡ n
unfolding validate_max_retries
max_retries-eq v n h = ground arith

module _ {Time : Type 0} (ops : TimeOps Time) (env : Environment Time)
    (stripped : String → Option String) (hmac : Bytes → Bytes → Bytes) where
  -- A transaction that returns made at most one attempt more than the retries that were asked for. It
  -- logged at most one `COMMAND_SENT` or `COMMAND_RETRY` for each attempt, and over all of them the
  -- nonce manager was left as it was or drew one nonce: retries send the nonce of the first attempt.
  pub execute_transaction-IsBounded :
      (fuel : ℕ) (r : Request) (w w' : World Time) (result : ControlTransactionResult Time)
      → execute_transaction ops env stripped hmac fuel r w ≡ ok (some (result, w'))
      → IsBounded w.service.nonce_manager (1 + pos_part r.max_retries) result w'
  unfolding execute_transaction
  execute_transaction-IsBounded fuel r w w' result e =
      let (timeout_ms, _, e1) = >>=-eq-ok (validate_timeout_ms r.ack_timeout_ms) _ e in
      let (interval, _, e2) = >>=-eq-ok (validate_poll_interval_ms r.poll_interval_ms) _ e1 in
      let (retries, is, e3) = >>=-eq-ok (validate_max_retries r.max_retries) _ e2 in
      let ready = ensure_listener_running env (tick w) in
      let e4 : run_attempts ops env stripped hmac fuel timeout_ms retries r (env.clock w.at) ready.0
            ready.1
          ≡ some (result, w') =
        cc in
      IfAny-eq (IsBoundedOutcome w.service.nonce_manager (1 + pos_part r.max_retries)) _
        (result, w')
        (run_attempts-IsBounded ops env (env.clock w.at) stripped hmac w.service.nonce_manager
          (1 + pos_part r.max_retries) fuel timeout_ms retries r ready.0 ready.1
          (ap (λ n. 1 + n) (sym (max_retries-eq r.max_retries retries is)))
          (ap (λ s. s.nonce_manager) (ensure_listener_running_lem env (tick w)).1))
        e4
