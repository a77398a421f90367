-- ===== src/Quic/Words.antt =====
-- Operations on 32-bit words that crates/capsaicin-quic/src/lib.rs takes from the standard library,
-- `bppmask`, `ceil_log2`, and tables of numbers.
use capsaicin.Base.{
  ℕ, zero, suc, ◌+◌, ◌-◌, ◌*◌, ◌/◌, ◌%◌, ◌^◌, ltb, leb, if◌then◌else◌, List, [], ◌∷◌, ◌++◌,
  replicate,
}
use capsaicin.Base.Outcome.{Outcome, ok, panic}
use capsaicin.Quic.{QuicError}

-- `x << k` and `x >> k` on `u32`, for `k` below 32.
abbrev pub shl : ℕ → ℕ → ℕ
shl x k = x * 2 ^ k % 2 ^ 32

abbrev pub shr : ℕ → ℕ → ℕ
shr x k = x / 2 ^ k

-- `leading_zeros` of an integer of `width` bits.
unfoldable pub leading_zeros : ℕ → ℕ → ℕ
leading_zeros zero x = 0
leading_zeros (suc width) x = if ltb x (2 ^ width) then suc (leading_zeros width x) else 0

-- `a + b` on `u32`, checked.
unfoldable pub add_u32 : ℕ → ℕ → Outcome QuicError ℕ
add_u32 a b = if ltb (a + b) (2 ^ 32) then ok (a + b) else panic

-- `a.wrapping_sub(b)`
abbrev pub wrapping_sub : ℕ → ℕ → ℕ
wrapping_sub a b = (a + 2 ^ 32 - b) % 2 ^ 32

unfoldable pub bppmask : ℕ → ℕ
bppmask i = if leb 32 i then 0xFFFF_FFFF else 2 ^ i - 1

unfoldable pub ceil_log2 : ℕ → ℕ
unfolding leading_zeros
ceil_log2 val = if leb val 1 then 0 else 32 - leading_zeros 32 (val - 1)

-- An access to an array of fixed size, at an index within it.
abbrev pub get_or {ℓ} : {A : Type ℓ} → List A → ℕ → A → A
get_or [] i d = d
get_or (x ∷ xs) zero d = x
get_or (x ∷ xs) (suc i) d = get_or xs i d

-- f k, f (k + 1), … : `n` entries.
abbrev pub tabulate {ℓ} : {A : Type ℓ} → ℕ → ℕ → (ℕ → A) → List A
tabulate zero k f = []
tabulate (suc n) k f = f k ∷ tabulate n (k + 1) f

-- An array of `size` words that are zero, after a loop has set the first `used`.
abbrev pub table : ℕ → ℕ → (ℕ → ℕ) → List ℕ
table size used f = tabulate used 0 f ++ replicate (size - used) 0
