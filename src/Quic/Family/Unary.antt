-- ===== src/Quic/Family/Unary.antt =====
-- Codewords with a unary prefix, as words of 32 bits.
use Prim.Native.Nat.{bit_and, bit_or}
use capsaicin.Base.{
  ℕ, zero, suc, ◌+◌, ◌-◌, ◌*◌, ◌%◌, ◌^◌, ◌≤◌, ◌<◌, ◌≡◌, ltb, arith, ltb→lt, ltb→le, Bool-cases, inl,
  inr,
}
use capsaicin.Base.Bits.{bit_or_low, bit_and_ones}
use capsaicin.Base.Powers.{pow_mono, pow_add, split_div, split_mod, below_mul}
use native.Mathlib.Nat.{pow-suc, mod-eq_of_lt}
use capsaicin.Quic.Words.{shl, shr, leading_zeros, bppmask, get_or}
use capsaicin.Quic.Family.{Family}

-- The tables describe a code with parameter `l`: `alt` quotients have a unary prefix, the values
-- behind them have a suffix of `suf` bits.
pub record IsCode (f : Family) (l alt suf : ℕ) : Type 0 where
  pub some_prefix : 0 < alt
  pub short : alt + suf ≤ 26
  pub fits : alt + l ≤ 26
  pub codewords : get_or f.n_gr_codewords l 0 ≡ alt * 2 ^ l
  pub cwlen : get_or f.not_gr_cwlen l 0 ≡ alt + suf
  pub prefixmask : get_or f.not_gr_prefixmask l 0 ≡ 2 ^ (32 - alt) - 1
  pub suffix : get_or f.not_gr_suffixlen l 0 ≡ suf

pub bppmask_below : (i : ℕ) → i < 32 → bppmask i ≡ 2 ^ i - 1
unfolding bppmask
bppmask_below i h = ground arith

pub leading_zeros_at :
    (w k x : ℕ) → k < w → 2 ^ k ≤ x → x < 2 ^ suc k → leading_zeros w x ≡ w - 1 - k
unfolding leading_zeros
leading_zeros_at zero k x h lo hi = absurd (omega arith)
leading_zeros_at (suc w) k x h lo hi = elim (Bool-cases (ltb x (2 ^ w))) [
  | inl below ↦
      let less : k < w = elim (Bool-cases (ltb k w)) [
        | inl t ↦ ltb→lt k w t
        | inr t ↦
            absurd (
              omega (arith, ltb→lt x (2 ^ w) below, pow_mono w k (omega (arith, ltb→le k w t)), lo))
      ] in
      rw below (omega (arith, leading_zeros_at w k x less lo hi))
  | inr above ↦
      let same : k ≡ w = elim (Bool-cases (ltb k w)) [
        | inl t ↦ absurd (
            omega
              (arith, ltb→le x (2 ^ w) above, pow_mono (suc k) w (omega (arith, ltb→lt k w t)), hi))
        | inr t ↦ omega (arith, ltb→le k w t)
      ] in
      rw above (omega (arith, same))
]

-- A codeword of `2 ^ l + r` behind `q` zeros, with `p` bits below it.
module _ (q l p r rest : ℕ) (size : q + (l + suc p) ≡ 32) (hr : r < 2 ^ l)
    (hrest : rest < 2 ^ p) where
  abbrev pub unary_bits : ℕ
  unary_bits = (2 ^ l + r) * 2 ^ p + rest

  pub unary_lo : 2 ^ (l + p) ≤ unary_bits
  unary_lo = rw (pow_add l p) (grind arith)

  unary_hi : unary_bits < 2 ^ suc (l + p)
  unary_hi =
      let b = below_mul (2 ^ l + r) (2 * 2 ^ l) (2 ^ p) rest (omega arith) hrest in
      rw (pow-suc 2 (l + p), pow_add l p) (omega (arith, b))

  pub unary_zeros : leading_zeros 32 unary_bits ≡ q
  unary_zeros =
      omega (
        arith,
        leading_zeros_at 32 (l + p) unary_bits (omega (arith, size)) unary_lo unary_hi,
        size,
      )

  pub unary_value :
      q * 2 ^ l + r < 2 ^ 32
      → bit_or (shl q l) (bit_and (shr unary_bits p) (bppmask l)) ≡ q * 2 ^ l + r
  unary_value small =
      let s : q * 2 ^ l % 2 ^ 32 ≡ q * 2 ^ l = mod-eq_of_lt (omega (arith, small)) in
      let m : (2 ^ l + r) % 2 ^ l ≡ r =
        (let e : 2 ^ l + r ≡ 1 * 2 ^ l + r = omega arith in rw e (split_mod 1 (2 ^ l) r hr)) in
      rw
        (
          s,
          split_div (2 ^ l + r) (2 ^ p) rest hrest,
          bppmask_below l (omega (arith, size)),
          bit_and_ones l (2 ^ l + r),
          m,
        )
        (bit_or_low l q r hr)
