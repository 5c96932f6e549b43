-- ===== src/Base/Endian.antt =====
-- Big-endian bytes of a fixed width: `u32::to_be_bytes`, `u64::from_be_bytes` and the like.
use Prim.Native.Nat.{ℕ, zero, suc, ◌+◌, ◌*◌, ◌/◌, ◌%◌, ◌<◌}
use mathlib.Core.Path.{◌≡◌, refl, ap, ap₂, ◌∙◌}
use mathlib.Core.List.{[], ◌∷◌}
use native.Mathlib.Omega.{arith}
use native.Mathlib.Nat.{div-add-mod, mul_comm}
use era.Base.Lists.{Bytes, length, All}

abbrev pub IsByte : ℕ → Type 0
IsByte b = b < 256

abbrev pub byte_pow : ℕ → ℕ
byte_pow zero = 1
byte_pow (suc w) = 256 * byte_pow w

-- The `w` big-endian bytes of a number below `byte_pow w`.
unfoldable pub to_be_bytes : ℕ → ℕ → Bytes
to_be_bytes zero n = []
to_be_bytes (suc w) n = (n / byte_pow w) ∷ to_be_bytes w (n % byte_pow w)

unfoldable pub from_be_bytes : Bytes → ℕ
from_be_bytes [] = 0
from_be_bytes (b ∷ bs) = b * byte_pow (length bs) + from_be_bytes bs

pub length-to_be_bytes : (w n : ℕ) → length (to_be_bytes w n) ≡ w
unfolding to_be_bytes
length-to_be_bytes zero n = refl
length-to_be_bytes (suc w) n = ap suc (length-to_be_bytes w (n % byte_pow w))

pub byte_pow_pos : (w : ℕ) → 0 < byte_pow w
byte_pow_pos zero = omega arith
byte_pow_pos (suc w) = omega (arith, byte_pow_pos w)

pub div-lt_byte : (p n : ℕ) → n < 256 * p → n / p < 256
div-lt_byte p n h = grind arith

pub to_be_bytes-IsByte : (w n : ℕ) → n < byte_pow w → All IsByte (to_be_bytes w n)
unfolding to_be_bytes
to_be_bytes-IsByte zero n h = tt
to_be_bytes-IsByte (suc w) n h =
    (div-lt_byte _ n h, to_be_bytes-IsByte w (n % byte_pow w) (omega (arith, byte_pow_pos w)))

pub from_be_bytes-lt : (bs : Bytes) → All IsByte bs → from_be_bytes bs < byte_pow (length bs)
unfolding from_be_bytes
from_be_bytes-lt [] h = omega arith
from_be_bytes-lt (b ∷ bs) (p, h) = grind (arith, from_be_bytes-lt bs h)

pub from-to_be_bytes : (w n : ℕ) → n < byte_pow w → from_be_bytes (to_be_bytes w n) ≡ n
unfolding from_be_bytes to_be_bytes
from-to_be_bytes zero n h = omega arith
from-to_be_bytes (suc w) n h =
    rw (length-to_be_bytes, from-to_be_bytes w (n % byte_pow w) (omega (arith, byte_pow_pos w)))
      (rw mul_comm (div-add-mod n (byte_pow w)))

pub to-from_be_bytes :
    (bs : Bytes) → All IsByte bs → to_be_bytes (length bs) (from_be_bytes bs) ≡ bs
unfolding from_be_bytes to_be_bytes
to-from_be_bytes [] h = refl
to-from_be_bytes (b ∷ bs) (p, h) =
    ap₂ ◌∷◌ (quotient b _ _ (from_be_bytes-lt bs h)) (
      ap (to_be_bytes (length bs)) (remainder b _ _ (from_be_bytes-lt bs h))
      ∙ to-from_be_bytes bs h)
  where
    quotient : (b p v : ℕ) → v < p → (b * p + v) / p ≡ b
    quotient b p v h = grind arith

    remainder : (b p v : ℕ) → v < p → (b * p + v) % p ≡ v
    remainder b p v h = grind arith
