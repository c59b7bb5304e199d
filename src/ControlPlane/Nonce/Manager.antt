-- ===== src/ControlPlane/Nonce/Manager.antt =====
-- The nonce manager and its state file.
use Prim.Native.Nat.{max, bit_or}
use control_ok_a_v.Base.{
  ℕ, ◌+◌, ◌*◌, ◌^◌, Bool, ◌||◌, Option, none, some, ltb, if◌then◌else◌, Result, ok, err, ◌>>=◌,
  ◌>>◌, raise_if,
}
use control_ok_a_v.Base.Int.{ℤ, pos, negsuc, pos_part, ltb_ℤ}

abbrev pub u32_max : ℕ
u32_max = 0xFFFF_FFFF

-- The exceptions of the module: its own two, the `ValueError` of `_validate_u32`,
-- and an `OverflowError` and a `UnicodeDecodeError` that pass through.
pub data NonceError : Type 0 where
  persistence : NonceError
  nonce_manager : NonceError
  out_of_u32 : NonceError
  overflow_error : NonceError
  unicode_error : NonceError

-- What `int(raw)` gives: a number, a `TypeError` or `ValueError`, or the `OverflowError` of an
-- infinite float, which the callers do not catch.
pub data Raw : Type 0 where
  number : ℤ → Raw
  not_a_number : Raw
  infinite : Raw

-- The state file, as a read of it finds it. An object has `last_control_epoch_s` or not.
pub data StateFile : Type 0 where
  missing unreadable undecodable corrupt not_an_object : StateFile
  object : Option Raw → StateFile

epoch_of_raw : Raw → Result NonceError ℕ
epoch_of_raw not_a_number = err persistence
epoch_of_raw infinite = err overflow_error
epoch_of_raw (number epoch) =
    if ltb_ℤ epoch (pos 0) || ltb_ℤ (pos u32_max) epoch
    then err persistence
    else ok (pos_part epoch)

-- `ControlPlaneState.last_control_epoch_s`
unfoldable pub load_control_plane_state : StateFile → Result NonceError ℕ
unfolding epoch_of_raw
load_control_plane_state missing = ok 0
load_control_plane_state unreadable = err persistence
load_control_plane_state undecodable = err unicode_error
load_control_plane_state corrupt = err persistence
load_control_plane_state not_an_object = err persistence
load_control_plane_state (object none) = ok 0
load_control_plane_state (object (some raw)) = epoch_of_raw raw

abbrev pub validate_u32 : ℕ → Result NonceError ℕ
validate_u32 value = if ltb u32_max value then err out_of_u32 else ok value

-- The file that is there afterwards, when the disk can be written.
unfoldable pub save_control_plane_state : Bool → ℕ → Result NonceError StateFile
save_control_plane_state writable last_control_epoch_s = do
  epoch ← validate_u32 last_control_epoch_s
  if writable then ok (object (some (number (pos epoch)))) else err persistence

-- `(high << 32) | low`
unfoldable pub compose_nonce : ℕ → ℕ → Result NonceError ℕ
compose_nonce control_epoch_s cmd_counter = do
  high ← validate_u32 control_epoch_s
  low ← validate_u32 cmd_counter
  ok (bit_or (high * 2 ^ 32) low)

unfoldable pub normalize_unix_seconds : Raw → Result NonceError ℕ
normalize_unix_seconds not_a_number = err nonce_manager
normalize_unix_seconds infinite = err overflow_error
normalize_unix_seconds (number (pos value)) = ok value
normalize_unix_seconds (number (negsuc value)) = ok 0

pub record NonceManager : Type 0 where
  pub control_epoch_s : ℕ
  pub cmd_counter : ℕ

-- `NonceManager()`: the file as found, the clock's answer and whether the disk can be written give
-- the manager and the file that it leaves.
unfoldable pub init : StateFile → Raw → Bool → Result NonceError (NonceManager × StateFile)
unfolding load_control_plane_state normalize_unix_seconds save_control_plane_state
init file unix_time writable = do
  last_control_epoch_s ← load_control_plane_state file
  unix_time_s ← normalize_unix_seconds unix_time
  let control_epoch_s = max unix_time_s (last_control_epoch_s + 1)
  saved ← save_control_plane_state writable control_epoch_s
  ok (record { control_epoch_s = control_epoch_s; cmd_counter = 0 }, saved)

unfoldable pub next_nonce : NonceManager → Result NonceError (ℕ × NonceManager)
unfolding compose_nonce
next_nonce m = do
  raise_if (ltb u32_max m.cmd_counter) nonce_manager
  nonce ← compose_nonce m.control_epoch_s m.cmd_counter
  ok (nonce, record m { cmd_counter = m.cmd_counter + 1 })
