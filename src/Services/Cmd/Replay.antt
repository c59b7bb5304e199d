-- ===== src/Services/Cmd/Replay.antt =====
-- Whole calls of `CmdService`: what a call that returns has sent, and that no nonce is sent twice
-- (services/cmd_service.py).
use control_ok_a_v.Base.{
  >>=-eq-ok, ℕ, ◌≤◌, ◌<◌, ◌≡◌, refl, ap, sym, ◌∙◌, ◌⊎◌, inl, inr, Option, String, Result, ok, err,
  arith,
}
use control_ok_a_v.Base.Int.{ℤ, pos}
use control_ok_a_v.Base.Bytes.{Bytes}
use control_ok_a_v.ControlPlane.Auth.{IsDigest}
use control_ok_a_v.ControlPlane.Protocol.Sequence.{next_cmd_seq}
use control_ok_a_v.ControlPlane.Nonce.{NonceError, NonceManager, next_nonce}
use control_ok_a_v.ControlPlane.Nonce.Order.{IsLive, next_nonce-inv}
use control_ok_a_v.ControlPlane.Pending.{SentOkuaCommand}
use control_ok_a_v.Services.Cmd.Sending.{
  send_packet, resend_sent_command, CmdError, Socket, CmdService, Command, command_id,
  build_and_send, with_nonce, to_target, draw_and_send, send_new_command, validate_unicast_node_id,
  normalize_node_ip, source_or,
}
use control_ok_a_v.Services.Cmd.Traced.{resend_sent_command_lem, IsTraced, build_and_send-IsTraced}

-- What a call that returned `c` has done to the service, and with which numbers.
pub record IsSent (k : Command) (s s' : CmdService) (c : SentOkuaCommand) : Type 0 where
  pub traced : IsTraced c
  pub command : c.cmd_id ≡ command_id k
  pub port : c.target_port ≡ s.cmd_port
  pub sequence : (c.cmd_seq, s'.seq_manager) ≡ next_cmd_seq s.seq_manager
  pub number : next_nonce s.nonce_manager ≡ ok (c.nonce, s'.nonce_manager)

-- The nonces that a call has drawn: none or one, also if it raised.
abbrev pub HasDrawn : NonceManager → NonceManager → Type 0
HasDrawn m m' = (m' ≡ m) ⊎ ((a : ℕ) × (next_nonce m ≡ ok (a, m')))

validate_unicast_node_id-eq_ok : (v : ℤ) (n : ℕ) → validate_unicast_node_id v ≡ ok n → pos n ≡ v
validate_unicast_node_id-eq_ok v n h = ground arith

-- What was sent anew is the same command.
pub resend_sent_command-IsSent :
    (stripped : String → Option String) (k : Command) (s s' : CmdService) (c c' : SentOkuaCommand)
    (source : String) (socket : Socket)
    → IsSent k s s' c
    → resend_sent_command stripped c source socket ≡ ok c'
    → IsSent k s s' c' × (c'.node_id ≡ c.node_id)
unfolding resend_sent_command
resend_sent_command-IsSent stripped k s s' c c' source socket was h =
    let (n, sent, e) = >>=-eq-ok (send_packet c.packet socket) _ h in
    let same : record c { source = source_or stripped source "retry"; bytes_sent = n } ≡ c' = cc in
    let traced = (resend_sent_command_lem stripped c c' source socket h).2 was.traced in
    (
      record {
        traced = traced;
        command = rw (← same) was.command;
        port = rw (← same) was.port;
        sequence = rw (← same) was.sequence;
        number = rw (← same) was.number;
      },
      rw (← same) refl,
    )

module _ (hmac : Bytes → Bytes → Bytes) where
  with_nonce-HasDrawn :
      (s : CmdService) (k : Command) (source ip : String) (node seq : ℕ) (socket : Socket)
      (o : Result NonceError (ℕ × NonceManager))
      → next_nonce s.nonce_manager ≡ o
      → HasDrawn s.nonce_manager (with_nonce hmac s k source ip node seq socket o).1.nonce_manager
  unfolding with_nonce
  with_nonce-HasDrawn s k source ip node seq socket (err x) e = inl refl
  with_nonce-HasDrawn s k source ip node seq socket (ok (a, m')) e = inr (a, e)

  with_nonce-IsSent :
      IsDigest hmac
      → (s s' : CmdService) (k : Command) (source ip : String) (node seq : ℕ) (socket : Socket)
        (c : SentOkuaCommand) (o : Result NonceError (ℕ × NonceManager))
      → next_nonce s.nonce_manager ≡ o
      → with_nonce hmac s k source ip node seq socket o ≡ (ok c, s')
      → IsTraced c
        × (c.cmd_id ≡ command_id k)
        × (c.target_port ≡ s.cmd_port)
        × (c.node_id ≡ node)
        × (c.cmd_seq ≡ seq)
        × (s'.seq_manager ≡ s.seq_manager)
        × (next_nonce s.nonce_manager ≡ ok (c.nonce, s'.nonce_manager))
  unfolding with_nonce
  with_nonce-IsSent digest s s' k source ip node seq socket c (err x) e h = cc
  with_nonce-IsSent digest s s' k source ip node seq socket c (ok (a, m')) e h =
      let first : build_and_send hmac s k source ip node seq a socket ≡ ok c = ap (λ q. q.0) h in
      let second : record s { nonce_manager = m' } ≡ s' = ap (λ q. q.1) h in
      let (traced, n, q, z, i, p) =
        build_and_send-IsTraced hmac digest s k source ip node seq a socket c first in
      (traced, i, p, n, q, sym (ap (λ r. r.seq_manager) second), e ∙ rw (z, ← second) refl)

  to_target-HasDrawn :
      (s : CmdService) (k : Command) (source : String) (socket : Socket)
      (ip : Result CmdError String) (node : Result CmdError ℕ)
      → HasDrawn s.nonce_manager (to_target hmac s k source socket ip node).1.nonce_manager
  unfolding to_target draw_and_send
  to_target-HasDrawn s k source socket (err e) node = inl refl
  to_target-HasDrawn s k source socket (ok ip) (err e) = inl refl
  to_target-HasDrawn s k source socket (ok ip) (ok n) =
      with_nonce-HasDrawn (record s { seq_manager = (next_cmd_seq s.seq_manager).1 }) k source ip n
        (next_cmd_seq s.seq_manager).0 socket (next_nonce s.nonce_manager) refl

  to_target-IsSent :
      IsDigest hmac
      → (s s' : CmdService) (k : Command) (source : String) (socket : Socket)
        (ip : Result CmdError String) (node : Result CmdError ℕ) (c : SentOkuaCommand)
      → to_target hmac s k source socket ip node ≡ (ok c, s')
      → IsSent k s s' c × (node ≡ ok c.node_id)
  unfolding to_target draw_and_send
  to_target-IsSent digest s s' k source socket (err e) node c h = cc
  to_target-IsSent digest s s' k source socket (ok ip) (err e) c h = cc
  to_target-IsSent digest s s' k source socket (ok ip) (ok n) c h =
      let drawn : CmdService = record s { seq_manager = (next_cmd_seq s.seq_manager).1 } in
      let (traced, i, p, node, q, m, z) =
        with_nonce-IsSent digest drawn s' k source ip n (next_cmd_seq s.seq_manager).0 socket c
          (next_nonce s.nonce_manager) refl h in
      (
        record { traced = traced; command = i; port = p; sequence = rw (q, m) refl; number = z },
        ap ok (sym node),
      )

  module _ (stripped : String → Option String) where
    pub send_new_command-HasDrawn :
        (s : CmdService) (k : Command) (ip : String) (node : ℤ) (source : String) (socket : Socket)
        → HasDrawn s.nonce_manager
            (send_new_command stripped hmac s k ip node source socket).1.nonce_manager
    unfolding send_new_command
    send_new_command-HasDrawn s k ip node source socket =
        to_target-HasDrawn s k (source_or stripped source "manual") socket
          (normalize_node_ip stripped ip) (validate_unicast_node_id node)

    -- A call that returns has sent a packet that says what its record says: the node that was
    -- asked for, the command, the next sequence number and the next nonce, and all 28 bytes left.
    pub send_new_command-IsSent :
        IsDigest hmac
        → (s s' : CmdService) (k : Command) (ip : String) (node : ℤ) (source : String)
          (socket : Socket) (c : SentOkuaCommand)
        → send_new_command stripped hmac s k ip node source socket ≡ (ok c, s')
        → IsSent k s s' c × (pos c.node_id ≡ node)
    unfolding send_new_command
    send_new_command-IsSent digest s s' k ip node source socket c h =
        let (sent, e) =
          to_target-IsSent digest s s' k (source_or stripped source "manual") socket
            (normalize_node_ip stripped ip) (validate_unicast_node_id node) c h in
        (sent, validate_unicast_node_id-eq_ok node c.node_id e)

    -- Calls of the service, one after the other, whatever they return.
    pub data Calls : CmdService → CmdService → Type 0 where
      done : {s : CmdService} → Calls s s
      call :
          {s s' : CmdService} (k : Command) (ip : String) (node : ℤ) (source : String)
          (socket : Socket)
          → Calls (send_new_command stripped hmac s k ip node source socket).1 s'
          → Calls s s'

    Keeps : NonceManager → NonceManager → Type 0
    Keeps m m' =
        IsLive m' × (m'.control_epoch_s ≡ m.control_epoch_s) × (m.cmd_counter ≤ m'.cmd_counter)

    HasDrawn-Keeps : (m m' : NonceManager) → IsLive m → HasDrawn m m' → Keeps m m'
    unfolding Keeps
    HasDrawn-Keeps m m' live (inl e) = rw e (live, refl, omega arith)
    HasDrawn-Keeps m m' live (inr (a, e)) =
        let (live', _, epoch, counter, _) = next_nonce-inv m m' a live e in
        (live', epoch, omega arith)

    Calls-Keeps :
        {s s' : CmdService}
        → IsLive s.nonce_manager
        → Calls s s'
        → Keeps s.nonce_manager s'.nonce_manager
    unfolding Keeps send_new_command
    Calls-Keeps live done = (live, refl, omega arith)
    Calls-Keeps live (call {s = s} {s' = s'} k ip node source socket rest) =
        let (live', e, le) = HasDrawn-Keeps s.nonce_manager _ live (
          to_target-HasDrawn s k (source_or stripped source "manual") socket
            (normalize_node_ip stripped ip) (validate_unicast_node_id node)) in
        let (live'', e', le') = Calls-Keeps live' rest in (live'', e' ∙ e, omega arith)

    -- Of two commands that a service with a live nonce manager sends, with any calls between them, failed ones too, the later
    -- has the larger nonce.
    pub sent_nonces_grow :
        IsDigest hmac
        → (s s1 s2 s3 : CmdService) (k k' : Command) (ip ip' : String) (node node' : ℤ)
          (source source' : String) (socket socket' : Socket) (c c' : SentOkuaCommand)
        → IsLive s.nonce_manager
        → send_new_command stripped hmac s k ip node source socket ≡ (ok c, s1)
        → Calls s1 s2
        → send_new_command stripped hmac s2 k' ip' node' source' socket' ≡ (ok c', s3)
        → c.nonce < c'.nonce
    unfolding Keeps
    sent_nonces_grow digest s s1 s2 s3 k k' ip ip' node node' source source' socket socket' c c'
          live h calls h' =
        let first = (send_new_command-IsSent digest s s1 k ip node source socket c h).0.number in
        let second =
          (send_new_command-IsSent digest s2 s3 k' ip' node' source' socket' c' h').0.number in
        let inv = next_nonce-inv s.nonce_manager s1.nonce_manager c.nonce live first in
        let kept = Calls-Keeps inv.0 calls in
        omega (
          arith,
          inv,
          kept,
          next_nonce-inv s2.nonce_manager s3.nonce_manager c'.nonce kept.0 second,
        )
