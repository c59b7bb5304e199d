-- ===== src/ControlPlane/Nonce/Order.antt =====
-- Nonces grow: within a session, and from one session to the next.
use control_ok_a_v.Base.{
  ℕ, true, refl, ◌>>=◌, ◌+◌, ◌*◌, ◌^◌, ◌≤◌, ◌<◌, ◌≡◌, Bool, some, ltb, if◌then◌else◌, ok, err,
  arith,
}
use control_ok_a_v.Base.Bits.{bit_or_shifted}
use control_ok_a_v.Base.Int.{pos, negsuc}
use control_ok_a_v.ControlPlane.Nonce.Manager.{
  u32_max, Raw, number, not_a_number, infinite, StateFile, save_control_plane_state,
  normalize_unix_seconds, object, load_control_plane_state, NonceManager, init, next_nonce,
  nonce_manager, out_of_u32,
}

-- Both halves fit in 32 bits, the counter or is spent.
pub record IsLive (m : NonceManager) : Type 0 where
  pub epoch : m.control_epoch_s ≤ u32_max
  pub counter : m.cmd_counter ≤ u32_max + 1

-- The nonce of a live manager is its epoch above its counter, and the counter moves on by one. When
-- all 2 ^ 32 counters are spent, the call raises.
pub next_nonce_lem :
    (m : NonceManager)
    → IsLive m
    → next_nonce m ≡ (
        if ltb u32_max m.cmd_counter
        then err nonce_manager
        else ok (
          m.control_epoch_s * 2 ^ 32 + m.cmd_counter,
          record m { cmd_counter = m.cmd_counter + 1 },
        ))
unfolding next_nonce
next_nonce_lem m h = ground (arith, bit_or_shifted 32 m.control_epoch_s m.cmd_counter)

-- A manager that starts is live, with all its counters to come, and the file that it leaves gives
-- its epoch to the next one.
pub init-IsLive :
    (file : StateFile) (time : Raw) (w : Bool) (m : NonceManager) (saved : StateFile)
    → init file time w ≡ ok (m, saved)
    → IsLive m
      × (m.cmd_counter ≡ 0)
      × (saved ≡ object (some (number (pos m.control_epoch_s))))
      × (load_control_plane_state saved ≡ ok m.control_epoch_s)
unfolding init
init-IsLive file time w m saved h = ground arith

init-epoch :
    (file : StateFile) (time : Raw) (w : Bool) (m : NonceManager) (saved : StateFile) (last : ℕ)
    → load_control_plane_state file ≡ ok last
    → init file time w ≡ ok (m, saved)
    → last < m.control_epoch_s
unfolding init
init-epoch file time w m saved last e h = ground arith

-- `a` is a nonce that some later call on `m` returns.
pub data Draws (a : ℕ) : NonceManager → Type 0 where
  now : {m m' : NonceManager} → next_nonce m ≡ ok (a, m') → Draws a m
  later : {m m' : NonceManager} (b : ℕ) → next_nonce m ≡ ok (b, m') → Draws a m' → Draws a m

pub next_nonce-inv :
    (m m' : NonceManager) (a : ℕ)
    → IsLive m
    → next_nonce m ≡ ok (a, m')
    → IsLive m'
      × (a ≡ m.control_epoch_s * 2 ^ 32 + m.cmd_counter)
      × (m'.control_epoch_s ≡ m.control_epoch_s)
      × (m'.cmd_counter ≡ m.cmd_counter + 1)
      × (m.cmd_counter ≤ u32_max)
next_nonce-inv m m' a live e = ground (arith, next_nonce_lem m live)

Draws-bounds :
    {a : ℕ} {m : NonceManager}
    → IsLive m
    → Draws a m
    → (m.control_epoch_s * 2 ^ 32 + m.cmd_counter ≤ a) × (a < (m.control_epoch_s + 1) * 2 ^ 32)
Draws-bounds {a} live (now {m = m} {m' = m'} e) = omega (arith, next_nonce-inv m m' a live e)
Draws-bounds live (later {m = m} {m' = m'} b e d) =
    let inv = next_nonce-inv m m' b live e in omega (arith, inv, Draws-bounds inv.0 d)

-- On a live manager every nonce is larger than those drawn before it.
pub nonces_grow :
    (m m' : NonceManager) (a b : ℕ) → IsLive m → next_nonce m ≡ ok (a, m') → Draws b m' → a < b
nonces_grow m m' a b live e d =
    let inv = next_nonce-inv m m' a live e in omega (arith, inv, Draws-bounds inv.0 d)

-- Over a restart every nonce is larger than all of the session before, whatever the clock says, if
-- the new manager starts from the file that the old one left.
pub nonces_grow_over_restart :
    (file : StateFile) (time time' : Raw) (w w' : Bool) (m m' : NonceManager)
    (saved saved' : StateFile) (a b : ℕ)
    → init file time w ≡ ok (m, saved)
    → init saved time' w' ≡ ok (m', saved')
    → Draws a m
    → Draws b m'
    → a < b
nonces_grow_over_restart file time time' w w' m m' saved saved' a b h h' d d' =
    let (live, _, _, load) = init-IsLive file time w m saved h in
    let (live', _, _, _) = init-IsLive saved time' w' m' saved' h' in
    let newer = init-epoch saved time' w' m' saved' m.control_epoch_s load h' in
    omega (arith, newer, Draws-bounds live d, Draws-bounds live' d')

-- The last epoch can be saved, and is accepted from the file that is saved. But no manager starts from
-- that file: whatever the clock says, its own error is raised, or the `ValueError` of the range check.
pub init_exhausted :
    (time : Raw) (w : Bool)
    → (save_control_plane_state true u32_max ≡ ok (object (some (number (pos u32_max)))))
      × (load_control_plane_state (object (some (number (pos u32_max)))) ≡ ok u32_max)
      × (init (object (some (number (pos u32_max)))) time w
          ≡ (normalize_unix_seconds time >>= λ t. err out_of_u32))
unfolding init save_control_plane_state load_control_plane_state normalize_unix_seconds
init_exhausted (number (pos t)) w = (refl, refl, ground arith)
init_exhausted (number (negsuc t)) w = (refl, refl, ground arith)
init_exhausted not_a_number w = (refl, refl, refl)
init_exhausted infinite w = (refl, refl, refl)
