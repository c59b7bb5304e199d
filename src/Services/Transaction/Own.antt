-- ===== src/Services/Transaction/Own.antt =====
-- What a transaction leaves in the store, and what an acknowledgement that it reports says, by the numbers
-- of the commands and by the keys of the store (services/control_transaction_service.py).
use control_ok_a_v.Base.{◌%◌, ◌^◌, ◌≡◌, none, some}
use control_ok_a_v.Base.Dict.{lookup}
use control_ok_a_v.ControlPlane.Protocol.{ParsedOkuaAck}
use control_ok_a_v.Base.Int.{pos}
use control_ok_a_v.ControlPlane.Pending.Echo.{IsEchoOf, IsEchoOf_iff}
use control_ok_a_v.Services.Cmd.{CmdService}
use control_ok_a_v.Services.Cmd.Replay.{IsSent}
use control_ok_a_v.ControlPlane.Pending.{
  CommandKey, command_key, PendingCommand, SentOkuaCommand, PendingCommandStore, key_eq,
  key_of_sent, key_of_ack,
}
use control_ok_a_v.ControlPlane.Pending.WellFiled.{IsWellFiled}
use control_ok_a_v.Services.Transaction.Model.{ack_matched, ControlTransactionResult}
use control_ok_a_v.Services.Transaction.Results.{Request}

-- A command that the request has had sent, by a service that was `s` before.
abbrev pub IsOwn : Request → CmdService → SentOkuaCommand → Type 0
IsOwn r s sent = (s' : CmdService) × IsSent r.command s s' sent × (pos sent.node_id ≡ r.node_id)

-- No pending command has the numbers of `c`, each cut to its width.
abbrev pub IsGone : {Time : Type 0} → SentOkuaCommand → PendingCommandStore Time → Type 0
IsGone {Time} c store =
    (k : CommandKey) (p : PendingCommand Time)
    → lookup k store ≡ some p
    → ¬ (
        (p.sent_command.cmd_seq % 2 ^ 16 ≡ c.cmd_seq % 2 ^ 16)
        × (p.sent_command.cmd_id % 2 ^ 8 ≡ c.cmd_id % 2 ^ 8)
        × (p.sent_command.nonce % 2 ^ 64 ≡ c.nonce % 2 ^ 64))

-- What a transaction leaves: a well-filed store in which the command of the result is not pending.
-- An acknowledgement that is reported echoes the numbers of a command that the request has had sent,
-- which are those in the result.
pub record IsClean {Time : Type 0} (r : Request) (s : CmdService)
    (result : ControlTransactionResult Time) (store : PendingCommandStore Time) : Type 0 where
  pub filed : IsWellFiled store
  pub gone : (c : SentOkuaCommand) → result.matched_sent_command ≡ some c → IsGone c store
  pub answer :
      result.final_status ≡ ack_matched
      → (a : ParsedOkuaAck) × (sent : SentOkuaCommand) × (result.ack ≡ some a)
        × (result.cmd_seq ≡ some sent.cmd_seq)
        × (result.nonce ≡ some sent.nonce)
        × IsOwn r s sent
        × IsEchoOf a sent

-- The same by the keys of the store.
pub record IsTidy {Time : Type 0} (r : Request) (s : CmdService)
    (result : ControlTransactionResult Time) (store : PendingCommandStore Time) : Type 0 where
  pub filed : IsWellFiled store
  pub freed :
      (c : SentOkuaCommand)
      → result.matched_sent_command ≡ some c
      → lookup (key_of_sent c) store ≡ none
  pub answer :
      result.final_status ≡ ack_matched
      → (a : ParsedOkuaAck) × (sent : SentOkuaCommand) × (result.ack ≡ some a)
        × (result.cmd_seq ≡ some sent.cmd_seq)
        × (result.nonce ≡ some sent.nonce)
        × IsOwn r s sent
        × (key_of_sent sent ≡ key_of_ack a)

key_of_sent-IsGone :
    {Time : Type 0} (c : SentOkuaCommand) (store : PendingCommandStore Time)
    → IsWellFiled store
    → lookup (key_of_sent c) store ≡ none
    → IsGone c store
unfolding key_of_sent command_key
key_of_sent-IsGone c store filed free k p e (seq, id, nonce) =
    let same : key_of_sent p.sent_command ≡ k = filed.own_key k p e in
    let key : key_of_sent p.sent_command ≡ key_of_sent c =
      λ i. record { seq_part = seq i; id_part = id i; nonce_part = nonce i } in
    cc

pub IsTidy-IsClean :
    {Time : Type 0} (r : Request) (s : CmdService) (result : ControlTransactionResult Time)
    (store : PendingCommandStore Time)
    → IsTidy r s result store
    → IsClean r s result store
IsTidy-IsClean r s result store tidy = record {
  filed = tidy.filed;
  gone = λ c e. key_of_sent-IsGone c store tidy.filed (tidy.freed c e);
  answer = λ e.
      let (a, sent, given, seq, nonce, own, echoes) = tidy.answer e in
      (a, sent, given, seq, nonce, own, (IsEchoOf_iff a sent).0 echoes);
}
