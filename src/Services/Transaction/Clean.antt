-- ===== src/Services/Transaction/Clean.antt =====
-- Whole transactions: what they leave in the store, and what an acknowledgement says
-- (services/control_transaction_service.py).
use Prim.Derive.{subst}
use control_ok_a_v.Base.{
  ap, ◌∙◌, map_err, map_err-eq-ok, ℕ, ◌+◌, ◌≡◌, refl, Option, none, some, String, Result, ok, err,
  Bool-cases, inl, inr, arith, >>=-eq-ok,
}
use control_ok_a_v.Base.Bytes.{Bytes}
use control_ok_a_v.Base.Dict.{lookup}
use control_ok_a_v.ControlPlane.Audit.{ControlAuditEventType}
use control_ok_a_v.Base.Int.{pos}
use control_ok_a_v.ControlPlane.Auth.{IsDigest}
use control_ok_a_v.Services.Cmd.{CmdService, send_new_command, resend_sent_command}
use control_ok_a_v.Services.Cmd.Replay.{send_new_command-IsSent, resend_sent_command-IsSent}
use control_ok_a_v.ControlPlane.Pending.{SentOkuaCommand, key_eq, key_of_sent}
use control_ok_a_v.ControlPlane.Pending.WellFiled.{
  IsWellFiled, register-IsWellFiled, discard-IsWellFiled,
}
use control_ok_a_v.Services.AckListener.{
  AckListener, FileNo, Opening, opens, factory_raises, bind_raises, is_running, open_socket, start,
}
use control_ok_a_v.Services.Transaction.Model.{
  Environment, TimeOps, World, Progress, tick, ack_matched, ControlTransactionResult, LastError,
  validate_timeout_ms, validate_poll_interval_ms, validate_max_retries, send_raised,
  assert_retry_identity,
}
use control_ok_a_v.Services.Transaction.Waiting.{Waited, acked, broken, expired}
use control_ok_a_v.Services.Transaction.Results.{
  Request, final_status_of, register, discard, Outcome, Attempt, result_of, result_unsent, settle,
  settle_waited,
}
use control_ok_a_v.Services.Transaction.Attempts.{
  resend, await_ack, after_send, first_attempt, retry_attempt, conclude, ensure_listener_running,
  run_attempts, execute_transaction,
}
use control_ok_a_v.Services.Transaction.Rule.{IfAny, IfAny-eq, Ends, Leaves, attempts-rule}
use control_ok_a_v.Services.Transaction.Own.{IsOwn, IsClean, IsTidy, IsTidy-IsClean}
use control_ok_a_v.Services.Transaction.Settled.{IsSettled, wait-IsSettled}

-- A command of the request that is not pending in a well-filed store.
abbrev IsFree :
    {Time : Type 0} → Request → CmdService → ℕ → SentOkuaCommand → Progress → World Time → Type 0
IsFree r s i sent p w =
    IsWellFiled w.listener.pending_store
    × (lookup (key_of_sent sent) w.listener.pending_store ≡ none)
    × IsOwn r s sent

abbrev IsTidyOutcome : {Time : Type 0} → Request → CmdService → Outcome Time → Type 0
IsTidyOutcome r s (result, w) = IsTidy r s result w.listener.pending_store

-- No status but `ack_matched` is of a result without an acknowledgement.
final_status_of-ne : (p : Progress) → final_status_of p ≡ ack_matched → ⊥
final_status_of-ne p h = ground arith

module _ {Time : Type 0} (ops : TimeOps Time) (env : Environment Time) (tx_started : Time)
    (stripped : String → Option String) (hmac : Bytes → Bytes → Bytes) (r : Request)
    (s : CmdService) where
  abbrev IsLeft : ℕ → Attempt Time → Type 0
  IsLeft = Leaves ops env tx_started stripped hmac (IsFree r s) (IsTidyOutcome r s)

  settle-IsLeft :
      (waited : Waited) (sent : SentOkuaCommand) (i : ℕ) (p : Progress) (w : World Time)
      → IsOwn r s sent
      → IsSettled sent waited p w
      → IsLeft i (settle ops env tx_started waited sent i p w)
  unfolding settle result_of discard
  settle-IsLeft (acked a c) sent i p w own (filed, answer) = record {
    filed = filed;
    freed = λ d e. let is : c ≡ d = cc in rw (← is) answer.freed;
    answer = λ e. (answer.ack, sent, answer.given, refl, refl, own, answer.echoes);
  }
  settle-IsLeft (broken x) sent i p w own filed =
      let (kept, freed) = discard-IsWellFiled sent w.listener.pending_store filed in
      record {
        filed = kept;
        freed = λ d e. let is : sent ≡ d = cc in rw (← is) freed;
        answer = λ e. absurd (cc e);
      }
  settle-IsLeft expired sent i p w own filed =
      let (kept, freed) = discard-IsWellFiled sent w.listener.pending_store filed in
      (kept, freed, own)

  settle_waited-IsLeft :
      (o : Option (Waited × Progress × World Time)) (sent : SentOkuaCommand) (i : ℕ)
      → IsOwn r s sent
      → IfAny (Ends ops env (λ p w. IsWellFiled w.listener.pending_store) (IsSettled sent)) o
      → IfAny (IsLeft i) (settle_waited ops env tx_started o sent i)
  unfolding settle_waited
  settle_waited-IsLeft none sent i own h = tt
  settle_waited-IsLeft (some (waited, p, w)) sent i own h = settle-IsLeft waited sent i p w own h

  await_ack-IsLeft :
      (fuel timeout_ms : ℕ) (t : ControlAuditEventType) (sent : SentOkuaCommand) (i : ℕ)
      (p : Progress) (w : World Time)
      → IsOwn r s sent
      → IsWellFiled w.listener.pending_store
      → IfAny (IsLeft i) (await_ack ops env tx_started fuel timeout_ms t sent i p w)
  unfolding await_ack register
  await_ack-IsLeft fuel timeout_ms t sent i p w own h = settle_waited-IsLeft _ sent i own (
      wait-IsSettled ops env sent i fuel _ _ _
        (register-IsWellFiled sent none (env.clock w.at) w.listener.pending_store h))

  -- The command that was sent before, if one was, is not pending.
  abbrev IsFreeBefore : Option SentOkuaCommand → World Time → Type 0
  IsFreeBefore active w =
      (c : SentOkuaCommand)
      → active ≡ some c
      → lookup (key_of_sent c) w.listener.pending_store ≡ none

  after_send-IsLeft :
      (fuel timeout_ms : ℕ) (t : ControlAuditEventType) (active : Option SentOkuaCommand)
      (o : Result LastError SentOkuaCommand) (i : ℕ) (p : Progress) (w : World Time)
      → IsWellFiled w.listener.pending_store
      → IsFreeBefore active w
      → ((sent : SentOkuaCommand) → o ≡ ok sent → IsOwn r s sent)
      → IfAny (IsLeft i) (after_send ops env tx_started fuel timeout_ms t r active o i p w)
  unfolding after_send result_unsent
  after_send-IsLeft fuel timeout_ms t active (ok sent) i p w h free own =
      await_ack-IsLeft fuel timeout_ms t sent i p w (own sent refl) h
  after_send-IsLeft fuel timeout_ms t active (err e) i p w h free own = record {
    filed = h;
    freed = free;
    answer = λ e. absurd (cc e);
  }

  resend-IsOwn :
      (sent : SentOkuaCommand) (w : World Time)
      → IsOwn r s sent
      → (c : SentOkuaCommand) → resend ops env tx_started stripped hmac sent w ≡ ok c
      → IsOwn r s c
  unfolding resend
  resend-IsOwn sent w (s', was, node) c e =
      let (d, again, e1) =
        >>=-eq-ok
          (map_err send_raised (resend_sent_command stripped sent "retry" (env.socket w.at))) _ e in
      let (u, _, e2) = >>=-eq-ok (assert_retry_identity sent d) _ e1 in
      let is : d ≡ c = cc e2 in
      let (sent_again, at) =
        resend_sent_command-IsSent stripped r.command s s' sent d "retry" (env.socket w.at) was
          (map_err-eq-ok _ _ again) in
      rw (← is) (s', sent_again, ap pos at ∙ node)

  first-IsOwn :
      IsDigest hmac
      → (w : World Time) (c : SentOkuaCommand)
      → map_err send_raised
          (send_new_command stripped hmac w.service r.command r.node_ip r.node_id r.source
            (env.socket w.at)).0
        ≡ ok c
      → IsOwn r w.service c
  first-IsOwn digest w c e =
      let call =
        send_new_command stripped hmac w.service r.command r.node_ip r.node_id r.source
          (env.socket w.at) in
      let first : call.0 ≡ ok c = map_err-eq-ok _ _ e in
      let (sent, node) =
        send_new_command-IsSent hmac stripped digest w.service call.1 r.command r.node_ip r.node_id
          r.source (env.socket w.at) c (λ i. (first i, call.1)) in
      (call.1, sent, node)

  retry_attempt-IsLeft :
      (fuel timeout_ms : ℕ) (sent : SentOkuaCommand) (i : ℕ) (p : Progress) (w : World Time)
      → IsFree r s i sent p w
      → IfAny
          (IsLeft (i + 1))
          (retry_attempt ops env tx_started stripped hmac fuel timeout_ms r sent (i + 1) p w)
  unfolding retry_attempt
  retry_attempt-IsLeft fuel timeout_ms sent i p w (filed, freed, own) =
      after_send-IsLeft fuel timeout_ms _ (some sent) _ (i + 1) p (tick w) filed
        (λ c e. let is : sent ≡ c = cc in rw (← is) freed) (resend-IsOwn sent w own)

  first_attempt-IsLeft :
      IsDigest hmac
      → (fuel timeout_ms : ℕ) (p : Progress) (w : World Time) → IsWellFiled w.listener.pending_store
      → w.service ≡ s
      → IfAny (IsLeft 1) (first_attempt ops env tx_started stripped hmac fuel timeout_ms r p w)
  unfolding first_attempt
  first_attempt-IsLeft digest fuel timeout_ms p w filed same =
      after_send-IsLeft fuel timeout_ms _ none _ 1 p _ filed (λ c e. absurd (cc e))
        (λ c e. subst (λ q. IsOwn r q c) same (first-IsOwn digest w c e))

  conclude-IsTidy :
      (i : ℕ) (sent : SentOkuaCommand) (p : Progress) (w : World Time)
      → IsFree r s i sent p w
      → (IsTidyOutcome r s) (conclude ops env tx_started stripped hmac sent i p w)
  unfolding conclude result_of
  conclude-IsTidy i sent p w (filed, freed, own) = record {
    filed = filed;
    freed = λ c e. let is : sent ≡ c = cc in rw (← is) freed;
    answer = λ e. absurd (final_status_of-ne p e);
  }

  run_attempts-IsTidy :
      IsDigest hmac
      → (fuel timeout_ms retries : ℕ) (e : Option LastError) (w : World Time) → w.service ≡ s
      → IsWellFiled w.listener.pending_store
      → IfAny
          (IsTidyOutcome r s)
          (run_attempts ops env stripped hmac fuel timeout_ms retries r tx_started e w)
  unfolding run_attempts result_unsent
  run_attempts-IsTidy digest fuel timeout_ms retries (some e) w same filed = record {
    filed = filed;
    freed = λ c e. absurd (cc e);
    answer = λ e. absurd (cc e);
  }
  run_attempts-IsTidy digest fuel timeout_ms retries none w same filed =
      attempts-rule ops env tx_started stripped hmac (IsFree r s) (IsTidyOutcome r s) fuel
        timeout_ms (1 + retries) r (λ i sent p w le h. conclude-IsTidy i sent p w h)
        (λ i sent p w le h. retry_attempt-IsLeft fuel timeout_ms sent i p w h) retries 1 _ refl
        (first_attempt-IsLeft digest fuel timeout_ms _ w filed same)

open_socket-store :
    {Time : Type 0} (opening : Opening) (l : AckListener Time)
    → (open_socket opening l).1.pending_store ≡ l.pending_store
unfolding open_socket
open_socket-store opens l = refl
open_socket-store factory_raises l = refl
open_socket-store bind_raises l = refl

start-store :
    {Time : Type 0} (fileno : FileNo) (opening : Opening) (l : AckListener Time)
    → (start fileno opening l).1.pending_store ≡ l.pending_store
unfolding start
start-store fileno opening l = elim (Bool-cases (is_running fileno l)) [
  | inl e ↦ simp e refl
  | inr e ↦ simp e (open_socket-store opening l)
]

-- Starting the listener touches neither the store nor the command service.
pub ensure_listener_running_lem :
    {Time : Type 0} (env : Environment Time) (w : World Time)
    → ((ensure_listener_running env w).1.listener.pending_store ≡ w.listener.pending_store)
      × ((ensure_listener_running env w).1.service ≡ w.service)
unfolding ensure_listener_running
ensure_listener_running_lem env w = elim (Bool-cases (is_running (env.fileno w.at) w.listener)) [
  | inl e ↦ simp e (refl, refl)
  | inr e ↦ simp e (start-store (env.fileno (w.at + 1)) (env.opening (w.at + 1)) w.listener, refl)
]

module _ {Time : Type 0} (ops : TimeOps Time) (env : Environment Time)
    (stripped : String → Option String) (hmac : Bytes → Bytes → Bytes) where
  -- A transaction that returns from a well-filed store leaves a well-filed store, in which no command
  -- with the sequence number, the command and the nonce of the one in its result is pending. If it
  -- reports an acknowledgement, that one echoes these three of a packet that it has sent: the packet
  -- goes to the node of the request, with its command and the next sequence number and nonce. A
  -- digest has 32 bytes.
  pub execute_transaction-IsClean :
      IsDigest hmac
      → (fuel : ℕ) (r : Request) (w w' : World Time) (result : ControlTransactionResult Time)
      → IsWellFiled w.listener.pending_store
      → execute_transaction ops env stripped hmac fuel r w ≡ ok (some (result, w'))
      → IsClean r w.service result w'.listener.pending_store
  unfolding execute_transaction
  execute_transaction-IsClean digest fuel r w w' result filed e =
      let (timeout_ms, _, e1) = >>=-eq-ok (validate_timeout_ms r.ack_timeout_ms) _ e in
      let (interval, _, e2) = >>=-eq-ok (validate_poll_interval_ms r.poll_interval_ms) _ e1 in
      let (retries, _, e3) = >>=-eq-ok (validate_max_retries r.max_retries) _ e2 in
      let ready = ensure_listener_running env (tick w) in
      let (store, service) = ensure_listener_running_lem env (tick w) in
      let e4 : run_attempts ops env stripped hmac fuel timeout_ms retries r (env.clock w.at) ready.0
            ready.1
          ≡ some (result, w') =
        cc in
      IsTidy-IsClean r w.service result w'.listener.pending_store (
        IfAny-eq (IsTidyOutcome r w.service) _ (result, w')
          (run_attempts-IsTidy ops env (env.clock w.at) stripped hmac r w.service digest fuel
            timeout_ms retries ready.0 ready.1 service (rw store filed))
          e4)
