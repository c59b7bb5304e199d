-- ===== src/Runtime/Newest.antt =====
-- The status that is kept of a node is that of its newest command (core/control_plane/runtime.py).
use Prim.Derive.{subst}
use control_ok_a_v.Base.{
  ℕ, ◌≡◌, refl, sym, ◌∙◌, Bool, ◌==◌, List, [], ◌∷◌, Option, none, String, if◌then◌else◌,
  Bool-cases, inl, inr, arith,
}
use control_ok_a_v.Base.Int.{ℤ}
use control_ok_a_v.Base.Dict.{lookup, nat_eq, lookup-insert}
use control_ok_a_v.ControlPlane.Audit.{
  ControlAuditEvent, ControlAuditEventType, command_sent, command_retry, command_ack,
  command_timeout, invalid_ack_seen, unmatched_ack_seen, listener_not_running, send_error,
}
use control_ok_a_v.Services.Transaction.{ControlTransactionResult}
use control_ok_a_v.Runtime.Choice.{select_effective_node_status}
use control_ok_a_v.Runtime.Model.{
  ControlPlaneRuntime, init, Recorded, count_event, record_event, consume_events, Texts,
  candidate_of, keep_status, record_transaction_result,
}
use control_ok_a_v.Runtime.Chosen.{after_seq, IsOfNewest, IsNumberedSeq, select-IsOfNewest}

module _ {Time : Type 0} where
  count_event-statuses :
      (t : ControlAuditEventType) (r : ControlPlaneRuntime Time)
      → (count_event t r).per_node_last_status ≡ r.per_node_last_status
  count_event-statuses command_sent r = refl
  count_event-statuses command_retry r = refl
  count_event-statuses command_ack r = refl
  count_event-statuses command_timeout r = refl
  count_event-statuses invalid_ack_seen r = refl
  count_event-statuses unmatched_ack_seen r = refl
  count_event-statuses listener_not_running r = refl
  count_event-statuses send_error r = refl

  record_event-statuses :
      (p : Recorded Time) (r : ControlPlaneRuntime Time)
      → (record_event p r).per_node_last_status ≡ r.per_node_last_status
  record_event-statuses p r = ground arith

  consume_events-statuses :
      (events : List ControlAuditEvent) (session_id : Option String) (elapsed : Time)
      (status : String) (r : ControlPlaneRuntime Time)
      → (consume_events events session_id elapsed status r).per_node_last_status
        ≡ r.per_node_last_status
  unfolding consume_events
  consume_events-statuses [] session_id elapsed status r = refl
  consume_events-statuses (e ∷ events) session_id elapsed status r =
      consume_events-statuses events session_id elapsed status _
      ∙ record_event-statuses _ (count_event e.event_type r)
      ∙ count_event-statuses e.event_type r

-- A result that comes in: the number of its command, which does not wrap around, the result, and when.
pub record Arrival (Time Utc : Type 0) : Type 0 where
  pub number : ℕ
  pub result : ControlTransactionResult Time
  pub finished : Utc
  pub session_id : Option String

module _ {Time Utc : Type 0} where
  -- The newest number of node `k` behind a result.
  abbrev pub newest_after : ℕ → Arrival Time Utc → Option ℕ → Option ℕ
  newest_after k a h = if a.result.node_id == k then after_seq a.result.cmd_seq a.number h else h

  abbrev pub newest_of : ℕ → List (Arrival Time Utc) → Option ℕ → Option ℕ
  newest_of k [] h = h
  newest_of k (a ∷ arrivals) h = newest_of k arrivals (newest_after k a h)

  -- The commands of node `k` carry the low 16 bits of their numbers, each near the newest so far.
  abbrev pub AreNumbered : ℕ → List (Arrival Time Utc) → Option ℕ → Type 0
  AreNumbered k [] h = Unit
  AreNumbered k (a ∷ arrivals) h =
      (a.result.node_id ≡ k → IsNumberedSeq a.result.cmd_seq a.number h)
      × AreNumbered k arrivals (newest_after k a h)

module _ {Time Utc : Type 0} (texts : Texts Time Utc) where
  abbrev pub record_all :
      List (Arrival Time Utc) → ControlPlaneRuntime Time → ControlPlaneRuntime Time
  record_all [] r = r
  record_all (a ∷ arrivals) r =
      record_all arrivals (record_transaction_result texts a.result a.finished a.session_id r)

  record-IsOfNewest :
      (k : ℕ) (a : Arrival Time Utc) (h : Option ℕ) (r : ControlPlaneRuntime Time)
      → (a.result.node_id ≡ k → IsNumberedSeq a.result.cmd_seq a.number h)
      → IsOfNewest h (lookup k r.per_node_last_status)
      → IsOfNewest (newest_after k a h) (
          lookup k
            (record_transaction_result texts a.result a.finished a.session_id
              r).per_node_last_status)
  unfolding record_transaction_result
  record-IsOfNewest k a h r num held =
      let candidate = candidate_of texts a.result a.finished in
      let kept = keep_status texts candidate r.per_node_last_status in
      subst (λ d. IsOfNewest (newest_after k a h) (lookup k d))
        (sym (consume_events-statuses a.result.events a.session_id a.result.elapsed_ms _ _))
        (rw
          (lookup-insert candidate.node_id k
            (select_effective_node_status texts.stripped texts.at_most
              (lookup candidate.node_id r.per_node_last_status) candidate)
            r.per_node_last_status)
          (elim (Bool-cases (a.result.node_id == k)) [
            | inl e ↦
                let same : a.result.node_id ≡ k = ground arith in
                simp e (
                  select-IsOfNewest texts.stripped texts.at_most a.result.cmd_seq a.number h
                    (lookup a.result.node_id r.per_node_last_status) candidate refl (num same)
                    (rw same held))
            | inr e ↦ simp e held
          ]))

  record_all-IsOfNewest :
      (k : ℕ) (arrivals : List (Arrival Time Utc)) (h : Option ℕ) (r : ControlPlaneRuntime Time)
      → AreNumbered k arrivals h
      → IsOfNewest h (lookup k r.per_node_last_status)
      → IsOfNewest (newest_of k arrivals h) (lookup k (record_all arrivals r).per_node_last_status)
  record_all-IsOfNewest k [] h r num held = held
  record_all-IsOfNewest k (a ∷ arrivals) h r (n, num) held =
      record_all-IsOfNewest k arrivals (newest_after k a h) _ num (record-IsOfNewest k a h r n held)

  -- In whatever order results come to a new runtime, of any nodes, if the sequence numbers of the
  -- commands of node `k` are the low 16 bits of numbers, each less than 2^15 after the newest so far and
  -- at most 2^15 before it, then the status that is kept of the node is of its newest command: its
  -- sequence number is that of the greatest number. Without such a number there is none.
  pub newest_status_is_kept :
      (k : ℕ) (limit : ℤ) (has_sink : Bool) (arrivals : List (Arrival Time Utc))
      → AreNumbered k arrivals none
      → IsOfNewest
          (newest_of k arrivals none)
          (lookup k (record_all arrivals (init limit has_sink)).per_node_last_status)
  newest_status_is_kept k limit has_sink arrivals num =
      record_all-IsOfNewest k arrivals none (init limit has_sink) num tt
