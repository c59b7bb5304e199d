-- ===== src/ControlPlane/Protocol/Sequence.antt =====
-- `CmdSequenceManager`: the 16-bit sequence numbers of new commands.
use control_ok_a_v.Base.{ℕ, zero, suc, ◌+◌, ◌%◌, ◌^◌, ◌<◌, ◌≡◌, ◌≢◌, Result, ok, ◌>>=◌, arith}
use control_ok_a_v.Base.Int.{ℤ}
use control_ok_a_v.ControlPlane.Auth.{BuildError, bad_start_seq}
use control_ok_a_v.ControlPlane.Protocol.Build.{validate_u16}

pub record CmdSequenceManager : Type 0 where
  pub next_seq : ℕ

unfoldable pub init : ℤ → Result BuildError CmdSequenceManager
init start_seq = do seq ← validate_u16 bad_start_seq start_seq; ok (record { next_seq = seq })

unfoldable pub next_cmd_seq : CmdSequenceManager → ℕ × CmdSequenceManager
next_cmd_seq m = (m.next_seq, record { next_seq = (m.next_seq + 1) % 0x1_0000 })

-- What call number `n` returns, from 0 on.
pub nth_seq : ℕ → CmdSequenceManager → ℕ
nth_seq zero m = (next_cmd_seq m).0
nth_seq (suc n) m = nth_seq n (next_cmd_seq m).1

nth_seq-eq :
    (n : ℕ) (m : CmdSequenceManager) → m.next_seq < 2 ^ 16 → nth_seq n m ≡ (m.next_seq + n) % 2 ^ 16
unfolding nth_seq next_cmd_seq
nth_seq-eq zero m h = omega arith
nth_seq-eq (suc n) m h = omega (arith, nth_seq-eq n (next_cmd_seq m).1)

init-lt : (v : ℤ) (m : CmdSequenceManager) → init v ≡ ok m → m.next_seq < 2 ^ 16
unfolding init
init-lt v m h = ground arith

-- From any accepted start, two calls fewer than 2 ^ 16 apart return different numbers, and two calls
-- that are 2 ^ 16 apart return the same.
pub cmd_seq_distinct :
    (start : ℤ) (m : CmdSequenceManager) (i k : ℕ)
    → init start ≡ ok m
    → 0 < k
    → (k < 2 ^ 16 → nth_seq (i + k) m ≢ nth_seq i m) × (nth_seq (i + 2 ^ 16) m ≡ nth_seq i m)
cmd_seq_distinct start m i k h p =
    let lt = init-lt start m h in
    (
      λ q e. absurd (omega (arith, nth_seq-eq (i + k) m lt, nth_seq-eq i m lt)),
      omega (arith, nth_seq-eq (i + 2 ^ 16) m lt, nth_seq-eq i m lt),
    )
