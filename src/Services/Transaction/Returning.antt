-- ===== src/Services/Transaction/Returning.antt =====
-- Every transaction returns: with a clock that gets past every deadline, there is fuel enough
-- (services/control_transaction_service.py).
use control_ok_a_v.Base.{
  ℕ, zero, suc, ◌+◌, ◌≤◌, ◌≡◌, refl, ap, ◌∙◌, true, false, Option, none, some, Option-cases, String,
  Result, ok, err, Bool-cases, inl, inr, arith,
}
use control_ok_a_v.Base.Int.{ℤ, pos, pos_part, ◌≤ℤ◌}
use control_ok_a_v.Base.Bytes.{Bytes}
use control_ok_a_v.ControlPlane.Audit.{ControlAuditEventType}
use control_ok_a_v.ControlPlane.Pending.{SentOkuaCommand}
use control_ok_a_v.Services.Transaction.Model.{
  Environment, TimeOps, World, Progress, tick, LastError, validate_timeout_ms,
  validate_poll_interval_ms, validate_max_retries,
}
use control_ok_a_v.Services.Transaction.Waiting.{Waited, poll, round, go_on, wait}
use control_ok_a_v.Services.Transaction.Results.{
  Request, Outcome, Attempt, over, timed_out, settle, settle_waited,
}
use control_ok_a_v.Services.Transaction.Attempts.{
  await_ack, after_send, first_attempt, retry_attempt, conclude, attempts, ensure_listener_running,
  run_attempts, execute_transaction,
}

-- From some fuel on, the value is there, and it is always the same.
abbrev pub Settles : {A : Type 0} → (ℕ → Option A) → Type 0
Settles {A} F = (n : ℕ) × (a : A) × ((fuel : ℕ) → n ≤ fuel → F fuel ≡ some a)

-- The clock gets past every deadline, and stays there.
abbrev pub IsPassing : {Time : Type 0} → TimeOps Time → Environment Time → Type 0
IsPassing {Time} ops env =
    (deadline : Time) → (n : ℕ) × ((k : ℕ) → n ≤ k → ops.before (env.clock k) deadline ≡ false)

from_one :
    {A : Type 0} (F : ℕ → Option A) (a : A) → ((fuel : ℕ) → F (suc fuel) ≡ some a) → Settles F
from_one F a h = (1, a, go)
  where
    go : (fuel : ℕ) → 1 ≤ fuel → F fuel ≡ some a
    go zero le = absurd (omega arith)
    go (suc fuel) le = h fuel

one_more :
    {A : Type 0} (F G : ℕ → Option A) → ((fuel : ℕ) → F (suc fuel) ≡ G fuel) → Settles G → Settles F
one_more F G h (n, a, k) = (suc n, a, go)
  where
    go : (fuel : ℕ) → suc n ≤ fuel → F fuel ≡ some a
    go zero le = absurd (omega arith)
    go (suc fuel) le = h fuel ∙ k fuel (omega arith)

validate_timeout_ms-eq_ok : (v : ℤ) → pos 1 ≤ℤ v → validate_timeout_ms v ≡ ok (pos_part v)
unfolding validate_timeout_ms
validate_timeout_ms-eq_ok v h = ground arith

validate_poll_interval_ms-eq_ok :
    (v : ℤ) → pos 0 ≤ℤ v → validate_poll_interval_ms v ≡ ok (pos_part v)
unfolding validate_poll_interval_ms
validate_poll_interval_ms-eq_ok v h = ground arith

validate_max_retries-eq_ok : (v : ℤ) → pos 0 ≤ℤ v → validate_max_retries v ≡ ok (pos_part v)
unfolding validate_max_retries
validate_max_retries-eq_ok v h = ground arith

module _ {Time : Type 0} (ops : TimeOps Time) (env : Environment Time) where
  module _ (deadline : Time) (sent : SentOkuaCommand) (i : ℕ) where
    -- A round that is played past the deadline ends the wait, and any other reads the clock.
    round-lem :
        (p : Progress) (w : World Time)
        → ((round ops env deadline sent i p w).0 ≡ none
            → (ops.before (env.clock w.at) deadline ≡ true)
              × (w.at + 2 ≡ (round ops env deadline sent i p w).2.at))
    unfolding round poll
    round-lem p w = elim (Bool-cases (ops.before (env.clock w.at) deadline)) [
      | inl e ↦ simp e (λ _. (refl, omega arith))
      | inr e ↦ simp e (λ h. absurd (cc h))
    ]

    played : Progress → World Time → Option Waited × Progress × World Time
    played p w = round ops env deadline sent i p w

    stops :
        (p : Progress) (w : World Time) (x : Waited)
        → (played p w).0 ≡ some x
        → Settles (λ fuel. wait ops env fuel deadline sent i p w)
    unfolding wait go_on played
    stops p w x f =
        from_one _ (x, (played p w).1, (played p w).2)
          (λ fuel.
            ap
              (λ o.
                go_on o (played p w).1 (played p w).2
                  (λ q v. wait ops env fuel deadline sent i q v))
              f)

    goes_on :
        (p : Progress) (w : World Time)
        → (played p w).0 ≡ none
        → Settles (λ fuel. wait ops env fuel deadline sent i (played p w).1 (played p w).2)
        → Settles (λ fuel. wait ops env fuel deadline sent i p w)
    unfolding wait go_on played
    goes_on p w f h =
        one_more _ (λ fuel. wait ops env fuel deadline sent i (played p w).1 (played p w).2)
          (λ fuel.
            ap
              (λ o.
                go_on o (played p w).1 (played p w).2
                  (λ q v. wait ops env fuel deadline sent i q v))
              f)
          h

    wait-Settles :
        (n : ℕ)
        → ((k : ℕ) → n ≤ k → ops.before (env.clock k) deadline ≡ false)
        → (m : ℕ) (p : Progress) (w : World Time) → n ≤ m + w.at
        → Settles (λ fuel. wait ops env fuel deadline sent i p w)
    unfolding played
    wait-Settles n passed zero p w le = elim (Option-cases (played p w).0) [
      | inr (x, f) ↦ stops p w x f
      | inl f ↦ absurd (cc ((round-lem p w f).0, passed w.at (omega arith)))
    ]
    wait-Settles n passed (suc m) p w le = elim (Option-cases (played p w).0) [
      | inr (x, f) ↦ stops p w x f
      | inl f ↦ goes_on p w f (
          wait-Settles n passed m (played p w).1 (played p w).2
            (omega (arith, (round-lem p w f).1)))
    ]

  module _ (passing : IsPassing ops env) (tx_started : Time) where
    settle_waited-Settles :
        (sent : SentOkuaCommand) (i : ℕ) (F : ℕ → Option (Waited × Progress × World Time))
        → Settles F
        → Settles (λ fuel. settle_waited ops env tx_started (F fuel) sent i)
    unfolding settle_waited
    settle_waited-Settles sent i F (n, (x, p, w), h) = (
      n,
      settle ops env tx_started x sent i p w,
      λ fuel le. ap (λ o. settle_waited ops env tx_started o sent i) (h fuel le),
    )

    await_ack-Settles :
        (timeout_ms : ℕ) (t : ControlAuditEventType) (sent : SentOkuaCommand) (i : ℕ) (p : Progress)
        (w : World Time)
        → Settles (λ fuel. await_ack ops env tx_started fuel timeout_ms t sent i p w)
    unfolding await_ack
    await_ack-Settles timeout_ms t sent i p w =
        let (n, passed) = passing (ops.later (env.clock (w.at + 1)) timeout_ms) in
        settle_waited-Settles sent i _ (
          wait-Settles (ops.later (env.clock (w.at + 1)) timeout_ms) sent i n passed n _ _
            (omega arith))

    after_send-Settles :
        (timeout_ms : ℕ) (t : ControlAuditEventType) (r : Request) (active : Option SentOkuaCommand)
        (o : Result LastError SentOkuaCommand) (i : ℕ) (p : Progress) (w : World Time)
        → Settles (λ fuel. after_send ops env tx_started fuel timeout_ms t r active o i p w)
    unfolding after_send
    after_send-Settles timeout_ms t r active (ok sent) i p w =
        await_ack-Settles timeout_ms t sent i p w
    after_send-Settles timeout_ms t r active (err e) i p w = (0, _, λ fuel le. refl)

    module _ (stripped : String → Option String) (hmac : Bytes → Bytes → Bytes) where
      attempts-Settles :
          (timeout_ms : ℕ) (r : Request) (left i : ℕ) (F : ℕ → Option (Attempt Time))
          → Settles F
          → Settles
              (λ fuel. attempts ops env tx_started stripped hmac left fuel timeout_ms r i (F fuel))
      unfolding attempts retry_attempt
      attempts-Settles timeout_ms r left i F (n, over o, h) = (
        n,
        o,
        λ fuel le.
            ap (λ a. attempts ops env tx_started stripped hmac left fuel timeout_ms r i a)
              (h fuel le),
      )
      attempts-Settles timeout_ms r zero i F (n, timed_out sent p w, h) = (
        n,
        conclude ops env tx_started stripped hmac sent i p w,
        λ fuel le.
            ap (λ a. attempts ops env tx_started stripped hmac zero fuel timeout_ms r i a)
              (h fuel le),
      )
      attempts-Settles timeout_ms r (suc left) i F (n, timed_out sent p w, h) =
          let (m, o, k) =
            attempts-Settles timeout_ms r left (i + 1)
              (λ fuel.
                retry_attempt ops env tx_started stripped hmac fuel timeout_ms r sent (i + 1) p w)
              (after_send-Settles timeout_ms _ r (some sent) _ (i + 1) p (tick w)) in
          (
            n + m,
            o,
            λ fuel le.
                ap (λ a. attempts ops env tx_started stripped hmac (suc left) fuel timeout_ms r i a)
                  (h fuel (omega arith))
                ∙ k fuel (omega arith),
          )

      run_attempts-Settles :
          (timeout_ms retries : ℕ) (r : Request) (e : Option LastError) (w : World Time)
          → Settles
              (λ fuel. run_attempts ops env stripped hmac fuel timeout_ms retries r tx_started e w)
      unfolding run_attempts first_attempt
      run_attempts-Settles timeout_ms retries r (some e) w = (0, _, λ fuel le. refl)
      run_attempts-Settles timeout_ms retries r none w =
          attempts-Settles timeout_ms r retries 1 _ (after_send-Settles timeout_ms _ r none _ 1 _ _)

  -- A transaction with a timeout of at least 1 ms, and an interval and a number of retries that are not
  -- negative, returns, if the clock gets past every deadline: from some fuel on, the result is there
  -- and is always the same.
  pub execute_transaction_returns :
      (stripped : String → Option String) (hmac : Bytes → Bytes → Bytes) (r : Request)
      (w : World Time)
      → IsPassing ops env
      → pos 1 ≤ℤ r.ack_timeout_ms
      → pos 0 ≤ℤ r.poll_interval_ms
      → pos 0 ≤ℤ r.max_retries
      → (n : ℕ) × (o : Outcome Time) × ((fuel : ℕ)
          → n ≤ fuel
          → execute_transaction ops env stripped hmac fuel r w ≡ ok (some o))
  unfolding execute_transaction
  execute_transaction_returns stripped hmac r w passing timeout interval retries =
      let ready = ensure_listener_running env (tick w) in
      let (n, o, h) =
        run_attempts-Settles passing (env.clock w.at) stripped hmac (pos_part r.ack_timeout_ms)
          (pos_part r.max_retries) r ready.0 ready.1 in
      (
        n,
        o,
        λ fuel le.
            rw
              (
                validate_timeout_ms-eq_ok r.ack_timeout_ms timeout,
                validate_poll_interval_ms-eq_ok r.poll_interval_ms interval,
                validate_max_retries-eq_ok r.max_retries retries,
              )
              (ap ok (h fuel le)),
      )
