-- ===== src/Services/Transaction/Rule.antt =====
-- The rules for the two loops of a transaction (services/control_transaction_service.py): what every
-- poll keeps, the wait keeps, and what every attempt keeps, the transaction keeps.
use control_ok_a_v.Base.{
  ℕ, zero, suc, ◌+◌, ◌≤◌, ◌≡◌, arith, Option, none, some, String, Bool-cases, inl, inr,
}
use control_ok_a_v.Base.Bytes.{Bytes}
use control_ok_a_v.ControlPlane.Pending.{SentOkuaCommand}
use control_ok_a_v.Services.Transaction.Model.{Environment, TimeOps, World, Progress, tick}
use control_ok_a_v.Services.Transaction.Waiting.{Waited, expired, go_on, poll, round, wait}
use control_ok_a_v.Services.Transaction.Results.{Request, Outcome, Attempt, over, timed_out}
use control_ok_a_v.Services.Transaction.Attempts.{retry_attempt, conclude, attempts}

-- What is there has the property.
abbrev pub IfAny {ℓ κ} : {A : Type ℓ} → (A → Type κ) → Option A → Type κ
IfAny P none = Unit
IfAny P (some a) = P a

pub IfAny-eq : {A : Type 0} (P : A → Type 0) (o : Option A) (a : A) → IfAny P o → o ≡ some a → P a
IfAny-eq P none a h e = absurd (cc e)
IfAny-eq P (some b) a h e = let is : b ≡ a = cc in rw (← is) h

module _ {Time : Type 0} (ops : TimeOps Time) (env : Environment Time)
    (I : Progress → World Time → Type 0) (E : Waited → Progress → World Time → Type 0) where
  abbrev pub Holds : Option Waited → Progress → World Time → Type 0
  Holds none = I
  Holds (some waited) = E waited

  abbrev pub Ends : Waited × Progress × World Time → Type 0
  Ends (waited, p, w) = E waited p w

  go_on-Holds :
      (o : Option Waited) (p : Progress) (w : World Time)
      (rest : Progress → World Time → Option (Waited × Progress × World Time))
      → Holds o p w
      → ((q : Progress) (v : World Time) → I q v → IfAny Ends (rest q v))
      → IfAny Ends (go_on o p w rest)
  unfolding go_on
  go_on-Holds none p w rest h k = k p w h
  go_on-Holds (some x) p w rest h k = h

  round-Holds :
      (sent : SentOkuaCommand) (i : ℕ)
      → ((p : Progress) (w : World Time) → I p w → I p (tick w))
      → ((p : Progress) (w : World Time) → I p w → E expired p w)
      → ((p : Progress) (w : World Time)
          → I p w
          → Holds
              (poll ops env sent i p w).0
              (poll ops env sent i p w).1
              (poll ops env sent i p w).2)
      → (deadline : Time) (p : Progress) (w : World Time) → I p w
      → Holds
          (round ops env deadline sent i p w).0
          (round ops env deadline sent i p w).1
          (round ops env deadline sent i p w).2
  unfolding round
  round-Holds sent i ticks expires polls deadline p w h =
      elim (Bool-cases (ops.before (env.clock w.at) deadline)) [
        | inr e ↦ simp e (expires p (tick w) (ticks p w h))
        | inl e ↦ simp e (polls p (tick w) (ticks p w h))
      ]

  pub wait-rule :
      (sent : SentOkuaCommand) (i : ℕ)
      → ((p : Progress) (w : World Time) → I p w → I p (tick w))
      → ((p : Progress) (w : World Time) → I p w → E expired p w)
      → ((p : Progress) (w : World Time)
          → I p w
          → Holds
              (poll ops env sent i p w).0
              (poll ops env sent i p w).1
              (poll ops env sent i p w).2)
      → (fuel : ℕ) (deadline : Time) (p : Progress) (w : World Time) → I p w
      → IfAny Ends (wait ops env fuel deadline sent i p w)
  unfolding wait
  wait-rule sent i ticks expires polls zero deadline p w h = tt
  wait-rule sent i ticks expires polls (suc fuel) deadline p w h =
      go_on-Holds (round ops env deadline sent i p w).0 (round ops env deadline sent i p w).1
        (round ops env deadline sent i p w).2 _
        (round-Holds sent i ticks expires polls deadline p w h)
        (λ q v k. wait-rule sent i ticks expires polls fuel deadline q v k)

-- `A` holds of a command whose attempt has timed out, before attempt number `i`; `O` of an outcome.
module _ {Time : Type 0} (ops : TimeOps Time) (env : Environment Time) (tx_started : Time)
    (stripped : String → Option String) (hmac : Bytes → Bytes → Bytes)
    (A : ℕ → SentOkuaCommand → Progress → World Time → Type 0) (O : Outcome Time → Type 0) where
  -- What holds after attempt number `i`.
  abbrev pub Leaves : ℕ → Attempt Time → Type 0
  Leaves i (over outcome) = O outcome
  Leaves i (timed_out sent p w) = A i sent p w

  pub attempts-rule :
      (fuel timeout_ms total : ℕ) (r : Request)
      → ((i : ℕ) (sent : SentOkuaCommand) (p : Progress) (w : World Time)
          → i ≤ total
          → A i sent p w
          → O (conclude ops env tx_started stripped hmac sent i p w))
      → ((i : ℕ) (sent : SentOkuaCommand) (p : Progress) (w : World Time)
          → i + 1 ≤ total
          → A i sent p w
          → IfAny
              (Leaves (i + 1))
              (retry_attempt ops env tx_started stripped hmac fuel timeout_ms r sent (i + 1) p w))
      → (left i : ℕ) (o : Option (Attempt Time)) → i + left ≡ total
      → IfAny (Leaves i) o
      → IfAny O (attempts ops env tx_started stripped hmac left fuel timeout_ms r i o)
  unfolding attempts
  attempts-rule fuel timeout_ms total r ends retries left i none e h = tt
  attempts-rule fuel timeout_ms total r ends retries left i (some (over outcome)) e h = h
  attempts-rule fuel timeout_ms total r ends retries zero i (some (timed_out sent p w)) e h =
      ends i sent p w (omega arith) h
  attempts-rule fuel timeout_ms total r ends retries (suc left) i (some (timed_out sent p w)) e h =
      attempts-rule fuel timeout_ms total r ends retries left (i + 1)
        (retry_attempt ops env tx_started stripped hmac fuel timeout_ms r sent (i + 1) p w)
        (omega arith) (retries i sent p w (omega arith) h)
