-- ===== src/Registry/Losses.antt =====
-- `_update_seq_loss`: the packets of one stream of a node that were seen, and those that are missing.
use control_ok_a_v.Base.{ℕ, ◌+◌, ◌-◌, ◌%◌, Option, none, some, ltb, ◌==◌, if◌then◌else◌}
use control_ok_a_v.Base.Int.{mask, sub_ℕ}
use control_ok_a_v.Registry.Float.{FloatOps}
use control_ok_a_v.Registry.Models.{NodeState}

-- "evt" and any other text
pub data Stream : Type 0 where
  evt_stream stat_stream : Stream

-- The locals of the method.
pub record SeqLoss : Type 0 where
  pub last_seq : Option ℕ
  pub seen_forward : ℕ
  pub missing_packets : ℕ
  pub recovery_streak : ℕ

abbrev pub advance_from : Option ℕ → ℕ → SeqLoss → SeqLoss
advance_from none resolved_seq c = record c {
  last_seq = some resolved_seq;
  seen_forward = c.seen_forward + 1;
  recovery_streak = 1;
}
advance_from (some last_seq) resolved_seq c =
    let delta = mask (sub_ℕ resolved_seq last_seq) 0x1_0000 in
    if delta == 0
    then c
    else if ltb delta 0x8000
    then record c {
      last_seq = some resolved_seq;
      seen_forward = c.seen_forward + 1;
      missing_packets = if ltb 1 delta then c.missing_packets + (delta - 1) else c.missing_packets;
      recovery_streak = if ltb 1 delta then 1 else c.recovery_streak + 1;
    }
    else c

unfoldable pub advance : ℕ → SeqLoss → SeqLoss
advance seq c = advance_from c.last_seq (seq % 0x1_0000) c

module _ {F : Type 0} where
  abbrev pub seq_loss : Stream → NodeState F → SeqLoss
  seq_loss evt_stream node = record {
    last_seq = node.last_seq_evt;
    seen_forward = node.evt_seen_forward;
    missing_packets = node.evt_missing_packets;
    recovery_streak = node.evt_recovery_streak;
  }
  seq_loss stat_stream node = record {
    last_seq = node.last_seq_stat;
    seen_forward = node.stat_seen_forward;
    missing_packets = node.stat_missing_packets;
    recovery_streak = node.stat_recovery_streak;
  }

module _ {F : Type 0} (ops : FloatOps F) where
  abbrev pub loss_pct : SeqLoss → F
  loss_pct c =
      let denominator = c.seen_forward + c.missing_packets in
      if ltb 0 denominator
      then ops.over (ops.times (ops.of_count 100) (ops.of_count c.missing_packets))
          (ops.of_count denominator)
      else ops.zero

  abbrev pub put_seq_loss : Stream → SeqLoss → NodeState F → NodeState F
  put_seq_loss evt_stream c node = record node {
    last_seq_evt = c.last_seq;
    evt_seen_forward = c.seen_forward;
    evt_missing_packets = c.missing_packets;
    evt_recovery_streak = c.recovery_streak;
    loss_evt_pct = loss_pct c;
  }
  put_seq_loss stat_stream c node = record node {
    last_seq_stat = c.last_seq;
    stat_seen_forward = c.seen_forward;
    stat_missing_packets = c.missing_packets;
    stat_recovery_streak = c.recovery_streak;
    loss_stat_pct = loss_pct c;
  }

  unfoldable pub update_seq_loss : NodeState F → ℕ → Stream → NodeState F
  update_seq_loss node seq stream = put_seq_loss stream (advance seq (seq_loss stream node)) node
