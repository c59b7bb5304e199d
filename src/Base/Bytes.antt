-- ===== src/Base/Bytes.antt =====
-- Little-endian fields of a packet: what `struct` packs and unpacks under "<".
use Prim.Native.Nat.{ℕ, zero, suc, ◌+◌, ◌*◌, ◌/◌, ◌%◌, ◌^◌, ◌≤◌, ◌<◌}
use mathlib.Core.Path.{◌≡◌, refl, ap}
use mathlib.Core.List.{List, [], ◌∷◌, ◌++◌}
use native.Mathlib.Nat.{pow-suc}
use native.Mathlib.Omega.{arith}
use control_ok_a_v.Base.Lists.{
  length, take, drop, All, length-take, length-drop, drop-drop, take-append-drop, All-take,
  All-drop,
}

abbrev pub Bytes : Type 0
Bytes = List ℕ

abbrev pub IsByte : ℕ → Type 0
IsByte b = b < 256

-- `to_le n v`: `v` in `n` bytes, the lowest first.
abbrev pub to_le : ℕ → ℕ → Bytes
to_le zero v = []
to_le (suc n) v = (v % 256) ∷ to_le n (v / 256)

-- `int.from_bytes(bs, "little")`
abbrev pub from_le : Bytes → ℕ
from_le [] = 0
from_le (b ∷ bs) = b + 256 * from_le bs

-- The number in the `n` bytes that start at `i`.
abbrev pub field : Bytes → ℕ → ℕ → ℕ
field bs i n = from_le (take n (drop i bs))

pub length-to_le : (n v : ℕ) → length (to_le n v) ≡ n
length-to_le zero v = refl
length-to_le (suc n) v = ap suc (length-to_le n (v / 256))

pub to_le-IsByte : (n v : ℕ) → All IsByte (to_le n v)
to_le-IsByte zero v = tt
to_le-IsByte (suc n) v = (omega arith, to_le-IsByte n (v / 256))

pub from_le-lt : (bs : Bytes) → All IsByte bs → from_le bs < 256 ^ length bs
from_le-lt [] h = omega arith
from_le-lt (b ∷ bs) h = rw pow-suc (omega (arith, from_le-lt bs h.1))

pub from_le-to_le : (n v : ℕ) → v < 256 ^ n → from_le (to_le n v) ≡ v
from_le-to_le zero v h = omega arith
from_le-to_le (suc n) v h =
    let small : v / 256 < 256 ^ n = omega (arith, pow-suc 256 n) in
    omega (arith, from_le-to_le n (v / 256) small)

pub to_le-from_le : (bs : Bytes) → All IsByte bs → to_le (length bs) (from_le bs) ≡ bs
to_le-from_le [] h = refl
to_le-from_le (b ∷ bs) h =
    let low : (b + 256 * from_le bs) % 256 ≡ b = omega arith in
    let high : (b + 256 * from_le bs) / 256 ≡ from_le bs = omega arith in
    rw (low, high, to_le-from_le bs h.1)

-- A field that is written back gives the bytes that it was read from.
pub field-rest :
    (i n : ℕ) (bs : Bytes)
    → i + n ≤ length bs
    → All IsByte bs
    → to_le n (field bs i n) ++ drop (i + n) bs ≡ drop i bs
field-rest i n bs h bytes =
    let size : length (take n (drop i bs)) ≡ n =
      omega (arith, length-take n (drop i bs), length-drop i bs) in
    let cut =
      to_le-from_le (take n (drop i bs)) (All-take IsByte n _ (All-drop IsByte i bs bytes)) in
    rw (← drop-drop i n bs) (rw (rw size at cut) (take-append-drop n (drop i bs)))
