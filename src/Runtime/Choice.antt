-- ===== src/Runtime/Choice.antt =====
-- `_select_effective_node_status` (core/control_plane/runtime.py): which of two statuses of a node
-- stays.
use control_ok_a_v.Base.{
  ℕ, ◌+◌, ◌%◌, Bool, ◌&&◌, Option, none, some, String, ltb, ◌==◌, if◌then◌else◌,
}
use control_ok_a_v.Base.Int.{mask, sub_ℕ}

pub record ControlPlaneNodeStatusSnapshot : Type 0 where
  pub node_id : ℕ
  pub node_ip : String
  pub command_name : String
  pub cmd_seq : Option ℕ
  pub nonce : Option ℕ
  pub final_status : String
  pub ack_stage : Option ℕ
  pub status_code : Option ℕ
  pub err_detail : Option ℕ
  pub last_error_message : Option String
  pub tx_started_at_utc : Option String
  pub tx_finished_at_utc : Option String
  pub ts_utc : String

unfoldable pub is_cmd_seq_newer : ℕ → ℕ → Bool
is_cmd_seq_newer candidate reference =
    let diff = mask (sub_ℕ (candidate % 0x1_0000) (reference % 0x1_0000)) 0x1_0000 in
    ltb 0 diff && ltb diff 0x8000

-- The weight of a number that is there.
abbrev pub weight {ℓ} : {A : Type ℓ} → Option A → ℕ → ℕ
weight none n = 0
weight (some a) n = n

-- `stripped` is `str.strip`, with `none` where that leaves nothing, and `at_most` the order of texts.
module _ (stripped : String → Option String) (at_most : String → String → Bool) where
  abbrev pub text_or_none : Option String → Option String
  text_or_none none = none
  text_or_none (some raw_value) = stripped raw_value

  unfoldable pub node_status_completeness_score : ControlPlaneNodeStatusSnapshot → ℕ
  node_status_completeness_score status =
      weight (stripped status.command_name) 2
      + weight status.cmd_seq 4
      + weight status.nonce 3
      + weight (stripped status.final_status) 5
      + weight status.ack_stage 2
      + weight status.status_code 1
      + weight status.err_detail 1
      + weight (text_or_none status.last_error_message) 1
      + weight (text_or_none status.tx_started_at_utc) 1
      + weight (text_or_none status.tx_finished_at_utc) 2

  -- By the times at which the transactions ended.
  abbrev pub select_by_time :
      Option String
      → Option String
      → ControlPlaneNodeStatusSnapshot
      → ControlPlaneNodeStatusSnapshot
      → ControlPlaneNodeStatusSnapshot
  select_by_time (some existing_finished) (some candidate_finished) existing candidate =
      if at_most existing_finished candidate_finished then candidate else existing
  select_by_time none (some candidate_finished) existing candidate = candidate
  select_by_time (some existing_finished) none existing candidate = existing
  select_by_time none none existing candidate = candidate

  -- By how much each says, and then by time.
  unfoldable pub select_by_score :
      ControlPlaneNodeStatusSnapshot
      → ControlPlaneNodeStatusSnapshot
      → ControlPlaneNodeStatusSnapshot
  select_by_score existing candidate =
      let existing_score = node_status_completeness_score existing in
      let candidate_score = node_status_completeness_score candidate in
      if ltb existing_score candidate_score
      then candidate
      else if ltb candidate_score existing_score
      then existing
      else select_by_time (text_or_none existing.tx_finished_at_utc)
          (text_or_none candidate.tx_finished_at_utc) existing candidate

  -- By the sequence numbers first.
  abbrev pub select_by_seq :
      Option ℕ
      → Option ℕ
      → ControlPlaneNodeStatusSnapshot
      → ControlPlaneNodeStatusSnapshot
      → ControlPlaneNodeStatusSnapshot
  select_by_seq (some existing_seq) (some candidate_seq) existing candidate =
      if existing_seq == candidate_seq
      then select_by_score existing candidate
      else if is_cmd_seq_newer candidate_seq existing_seq
      then candidate
      else existing
  select_by_seq none (some candidate_seq) existing candidate = candidate
  select_by_seq (some existing_seq) none existing candidate = existing
  select_by_seq none none existing candidate = select_by_score existing candidate

  abbrev pub select_effective_node_status :
      Option ControlPlaneNodeStatusSnapshot
      → ControlPlaneNodeStatusSnapshot
      → ControlPlaneNodeStatusSnapshot
  select_effective_node_status none candidate = candidate
  select_effective_node_status (some existing) candidate =
      select_by_seq existing.cmd_seq candidate.cmd_seq existing candidate
