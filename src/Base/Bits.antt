-- ===== src/Base/Bits.antt =====
-- The words' `|` and `&` as arithmetic, shifts, and the leading zeros of a word.
use Prim.Native.Nat.{
  ℕ, zero, suc, ◌+◌, ◌-◌, ◌*◌, ◌/◌, ◌%◌, ◌^◌, ◌≤◌, ◌<◌, min, max, digits, bitwise, bit_and, bit_or,
  bit_and-bitwise, bit_or-bitwise,
}
use mathlib.Core.Path.{◌≡◌, refl, ap}
use mathlib.Core.Bool.{Bool, true, ◌&&◌}
use native.Mathlib.Omega.{arith}
use native.Mathlib.Nat.{pow-suc, one-le-pow}

-- Enough fuel for the digits of `a`.
digits_enough :
    (z : ℕ → ℕ) (f : ℕ → ℕ → ℕ) (fuel more a b : ℕ)
    → a ≤ fuel
    → fuel ≤ more
    → digits z f more a b ≡ digits z f fuel a b
digits_enough z f zero zero zero b h k = refl
digits_enough z f zero (suc more) zero b h k = refl
digits_enough z f zero more (suc a) b h k = absurd (omega arith)
digits_enough z f (suc fuel) zero a b h k = absurd (omega arith)
digits_enough z f (suc fuel) (suc more) zero b h k = refl
digits_enough z f (suc fuel) (suc more) (suc a) b h k =
    rw (digits_enough z f fuel more (suc a / 2) (b / 2) (omega arith) (omega arith))

-- The lowest digit apart from the others.
lowest_digit :
    (z : ℕ → ℕ) (f : ℕ → ℕ → ℕ) (a b : ℕ)
    → bitwise z f (suc a) b ≡ bitwise z f (suc a / 2) (b / 2) * 2 + f (suc a % 2) (b % 2)
lowest_digit z f a b =
    omega (arith, digits_enough z f (suc a / 2) a (suc a / 2) (b / 2) (omega arith) (omega arith))

or_digit : (a b : ℕ) → bit_or a b ≡ bit_or (a / 2) (b / 2) * 2 + max (a % 2) (b % 2)
or_digit zero b = simp bit_or-bitwise (omega arith)
or_digit (suc a) b = simp bit_or-bitwise (lowest_digit (λ y. y) max a b)

and_digit : (a b : ℕ) → bit_and a b ≡ bit_and (a / 2) (b / 2) * 2 + min (a % 2) (b % 2)
and_digit zero b = simp bit_and-bitwise (omega arith)
and_digit (suc a) b = simp bit_and-bitwise (lowest_digit (λ y. 0) min a b)

or_none : (n a : ℕ) → a ≤ n → bit_or a 0 ≡ a
or_none n zero h = refl
or_none zero (suc a) h = absurd (omega arith)
or_none (suc n) (suc a) h = omega (arith, or_digit (suc a) 0, or_none n (suc a / 2) (omega arith))

and_none : (n a : ℕ) → a ≤ n → bit_and a 0 ≡ 0
and_none n zero h = refl
and_none zero (suc a) h = absurd (omega arith)
and_none (suc n) (suc a) h =
    omega (arith, and_digit (suc a) 0, and_none n (suc a / 2) (omega arith))

-- A word whose low `k` bits are clear, joined with a word of `k` bits.
pub bit_or_low : (k q r : ℕ) → r < 2 ^ k → bit_or (q * 2 ^ k) r ≡ q * 2 ^ k + r
bit_or_low zero q r h =
    let e : r ≡ 0 = omega arith in rw e (omega (arith, or_none (q * 1) (q * 1) (omega arith)))
bit_or_low (suc k) q r h =
    let p : q * 2 ^ suc k ≡ 2 * (q * 2 ^ k) = omega (arith, ap (λ (t : ℕ). q * t) (pow-suc 2 k)) in
    ground
      (arith, or_digit (q * 2 ^ suc k) r, p, bit_or_low k q (r / 2) (omega (arith, pow-suc 2 k)))

and_low : (k q r : ℕ) → r < 2 ^ k → bit_and (q * 2 ^ k + r) (2 ^ k - 1) ≡ r
and_low zero q r h =
    let e : r ≡ 0 = omega arith in
    rw e (omega (arith, and_none (q * 1 + 0) (q * 1 + 0) (omega arith)))
and_low (suc k) q r h =
    let p : q * 2 ^ suc k ≡ 2 * (q * 2 ^ k) = omega (arith, ap (λ (t : ℕ). q * t) (pow-suc 2 k)) in
    ground (
      arith,
      and_digit (q * 2 ^ suc k + r) (2 ^ suc k - 1),
      p,
      pow-suc 2 k,
      one-le-pow k 2,
      and_low k q (r / 2) (omega (arith, pow-suc 2 k)),
    )

-- A mask of `k` ones keeps the low `k` bits.
pub bit_and_ones : (k a : ℕ) → bit_and a (2 ^ k - 1) ≡ a % 2 ^ k
bit_and_ones k a = ground (arith, one-le-pow k 2, and_low k (a / 2 ^ k) (a % 2 ^ k))

-- A test of every number below a bound.
unfoldable pub all_below : ℕ → (ℕ → Bool) → Bool
all_below zero p = true
all_below (suc n) p = p n && all_below n p

pub all_below_lem : (n : ℕ) (p : ℕ → Bool) (x : ℕ) → all_below n p ≡ true → x < n → p x ≡ true
unfolding all_below
all_below_lem zero p x h lt = absurd (omega arith)
all_below_lem (suc n) p x h lt = ground (arith, all_below_lem n p x)
