-- ===== src/Base/Int.antt =====
-- Signed integers over the native numbers, and the casts between a word and a signed integer.
use Prim.Native.Nat.{ℕ, ◌-◌, ◌*◌, ◌^◌, ◌<◌}
use mathlib.Core.Path.{◌≡◌}
use native.Mathlib.Omega.{arith}
use capsaicin.Base.Tests.{ltb, if◌then◌else◌}

-- `negsuc n` is -(n + 1).
pub data ℤ : Type 0 where
  pos : ℕ → ℤ
  negsuc : ℕ → ℤ

-- The value of a two's complement word whose sign bit weighs `half`: `w as i16`, `w as i32`.
unfoldable pub to_signed : ℕ → ℕ → ℤ
to_signed half w = if ltb w half then pos w else negsuc (2 * half - 1 - w)

-- The word of a signed integer: `v as u16`, `v as u32`.
unfoldable pub of_signed : ℕ → ℤ → ℕ
of_signed half (pos n) = n
of_signed half (negsuc n) = 2 * half - 1 - n

-- The values of the signed type whose least value is `- half`.
abbrev pub IsSigned : ℕ → ℤ → Type 0
IsSigned half (pos n) = n < half
IsSigned half (negsuc n) = n < half

abbrev pub IsI16 : ℤ → Type 0
IsI16 = IsSigned (2 ^ 15)

abbrev pub IsI32 : ℤ → Type 0
IsI32 = IsSigned (2 ^ 31)

abbrev pub IsI64 : ℤ → Type 0
IsI64 = IsSigned (2 ^ 63)

pub to_signed-of_signed :
    (half : ℕ) (v : ℤ) → IsSigned half v → to_signed half (of_signed half v) ≡ v
unfolding to_signed of_signed
to_signed-of_signed half (pos n) h = ground arith
to_signed-of_signed half (negsuc n) h = ground arith

pub of_signed_bound : (half : ℕ) (v : ℤ) → IsSigned half v → of_signed half v < 2 * half
unfolding of_signed
of_signed_bound half (pos n) h = omega arith
of_signed_bound half (negsuc n) h = omega arith
