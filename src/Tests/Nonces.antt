-- ===== src/Tests/Nonces.antt =====
-- Nonces and sequence numbers on concrete inputs.
use control_ok_a_v.Base.{ℕ, ◌>>=◌, ◌+◌, ◌*◌, ◌^◌, ◌<◌, ◌≡◌, refl, true, some, ok, err, arith}
use control_ok_a_v.Base.Int.{pos}
use control_ok_a_v.ControlPlane.Protocol.Sequence
use control_ok_a_v.ControlPlane.Protocol.Sequence.{CmdSequenceManager, nth_seq, cmd_seq_distinct}
use control_ok_a_v.ControlPlane.Nonce.{
  save_control_plane_state, normalize_unix_seconds, NonceManager, number, StateFile, missing,
  object, load_control_plane_state, next_nonce, init, u32_max, out_of_u32,
}
use control_ok_a_v.ControlPlane.Nonce.Order.{
  IsLive, now, later, nonces_grow_over_restart, init_exhausted,
}

abbrev manager : ℕ → ℕ → NonceManager
manager epoch counter = record { control_epoch_s = epoch; cmd_counter = counter }

abbrev saved : ℕ → StateFile
saved epoch = object (some (number (pos epoch)))

manager-IsLive : (counter : ℕ) → counter < 100 → IsLive (manager 100 counter)
manager-IsLive counter h = record { epoch = omega arith; counter = omega arith }

started : init missing (number (pos 100)) true ≡ ok (manager 100 0, saved 100)
unfolding init
started = refl

-- The clock was set back.
restarted : init (saved 100) (number (pos 50)) true ≡ ok (manager 101 0, saved 101)
unfolding init
restarted = refl

first_nonce : next_nonce (manager 100 0) ≡ ok (100 * 2 ^ 32, manager 100 1)
unfolding next_nonce
first_nonce = refl

second_nonce : next_nonce (manager 100 1) ≡ ok (100 * 2 ^ 32 + 1, manager 100 2)
unfolding next_nonce
second_nonce = refl

nonce_after_restart : next_nonce (manager 101 0) ≡ ok (101 * 2 ^ 32, manager 101 1)
unfolding next_nonce
nonce_after_restart = refl

nonces_grow_over_restart_example : 100 * 2 ^ 32 + 1 < 101 * 2 ^ 32
nonces_grow_over_restart_example =
    nonces_grow_over_restart missing (number (pos 100)) (number (pos 50)) true true (manager 100 0)
      (manager 101 0) (saved 100) (saved 101) (100 * 2 ^ 32 + 1) (101 * 2 ^ 32) started restarted
      (later (100 * 2 ^ 32) first_nonce (now second_nonce)) (now nonce_after_restart)

init_exhausted_example :
    (save_control_plane_state true u32_max ≡ ok (saved 0xFFFF_FFFF))
    × (load_control_plane_state (saved 0xFFFF_FFFF) ≡ ok u32_max)
    × (init (saved 0xFFFF_FFFF) (number (pos 50)) true
        ≡ (normalize_unix_seconds (number (pos 50)) >>= λ t. err out_of_u32))
init_exhausted_example = init_exhausted (number (pos 50)) true

abbrev sequence : CmdSequenceManager
sequence = record { next_seq = 0xFFFE }

sequence_started : Sequence.init (pos 0xFFFE) ≡ ok sequence
unfolding Sequence.init
sequence_started = refl
