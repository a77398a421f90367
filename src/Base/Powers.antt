-- ===== src/Base/Powers.antt =====
-- Powers of two, and division by them.
use Prim.Native.Nat.{ℕ, zero, suc, ◌+◌, ◌*◌, ◌/◌, ◌%◌, ◌^◌, ◌≤◌, ◌<◌}
use mathlib.Core.Path.{◌≡◌}
use native.Mathlib.Omega.{arith}
use native.Mathlib.Nat.{
  pow-suc, one-le-pow, pow-le-pow_right, mul-add-div_right, mul-add-mod_self_right, div-eq_of_lt,
  mod-eq_of_lt, div-lt_iff_lt-mul,
}

pub pow_pos : (n : ℕ) → 0 < 2 ^ n
pow_pos n = omega (arith, one-le-pow n 2 (omega arith))

pub pow_mono : (a b : ℕ) → a ≤ b → 2 ^ a ≤ 2 ^ b
pow_mono a b h = pow-le-pow_right (omega arith) h

pub pow_add : (b k : ℕ) → 2 ^ (b + k) ≡ 2 ^ b * 2 ^ k
pow_add zero k = let e : zero + k ≡ k = omega arith in rw e (omega arith)
pow_add (suc b) k =
    let e : suc b + k ≡ suc (b + k) = omega arith in
    rw (e, pow-suc 2 (b + k), pow_add b k, pow-suc 2 b) (grind arith)

-- A number in two parts: the quotient and the remainder by the low part's range.
pub split_div : (q p r : ℕ) → r < p → (q * p + r) / p ≡ q
split_div q p r h =
    let z : r / p ≡ 0 = div-eq_of_lt h in
    let pos : 0 < p = omega arith in rw (mul-add-div_right pos q r, z) (omega arith)

pub split_mod : (q p r : ℕ) → r < p → (q * p + r) % p ≡ r
split_mod q p r h = rw (mul-add-mod_self_right q p r) (mod-eq_of_lt h)

pub below_mul : (a b p r : ℕ) → a < b → r < p → a * p + r < b * p
below_mul a b p r h k = grind arith

pub div_below : (v a b : ℕ) → v < 2 ^ (a + b) → v / 2 ^ b < 2 ^ a
div_below v a b h = (div-lt_iff_lt-mul (pow_pos b)).1 (rw (← pow_add a b) h)
