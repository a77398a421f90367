-- ===== src/Quic/Family/Codes.antt =====
-- The Golomb-Rice codes: what is encoded is decoded, whatever bits follow.
use capsaicin.Quic.Family.Unary.{
  unary_bits, IsCode, bppmask_below, unary_lo, unary_zeros, unary_value,
}
use capsaicin.Base.{
  ℕ, suc, ◌+◌, ◌-◌, ◌*◌, ◌/◌, ◌%◌, ◌^◌, ◌≤◌, ◌<◌, ◌≡◌, true, false, ltb, arith, lt→ltb, le→ltb,
  ltb→lt, ltb→le, Bool-cases, inl, inr,
}
use capsaicin.Base.Bits.{bit_or_low, bit_and_ones}
use capsaicin.Base.Powers.{pow_pos, pow_mono, pow_add, split_div, below_mul}
use native.Mathlib.Nat.{
  pow-suc, mod-eq_of_lt, mod-lt, div-lt_iff_lt-mul, mod-eq-sub-div-mul, div-mul-le_self,
}
use capsaicin.Quic.Family.{Family, golomb_encode, golomb_decode}

module _ (f : Family) (l alt suf n : ℕ) (code : IsCode f l alt suf) where
  -- A codeword with a unary prefix.
  decode_unary :
      (q p r rest : ℕ)
      → q < alt
      → q + (l + suc p) ≡ 32
      → r < 2 ^ l
      → n ≡ q * 2 ^ l + r
      → n < 2 ^ 32
      → rest < 2 ^ p
      → golomb_decode f l ((2 ^ l + r) * 2 ^ p + rest) ≡ (n, q + 1 + l)
  unfolding golomb_decode
  decode_unary q p r rest hq size hr hn small fits =
      let bits = unary_bits q l p r rest size hr fits in
      let above : ltb (2 ^ (32 - alt) - 1) bits ≡ true = lt→ltb _ _ (
        omega (
          arith,
          unary_lo q l p r rest size hr fits,
          pow_mono (32 - alt) (l + p) (omega (arith, size, hq, code.fits)),
          pow_pos (32 - alt),
        )) in
      let below : 32 - (q + 1 + l) ≡ p = omega (arith, size) in
      rw (
        code.prefixmask,
        above,
        unary_zeros q l p r rest size hr fits,
        below,
        unary_value q l p r rest size hr fits (omega (arith, hn, small)),
        ← hn,
      )

  -- A codeword of fixed length.
  decode_escape :
      (v p rest : ℕ)
      → n ≡ alt * 2 ^ l + v
      → v < 2 ^ suf
      → alt + (suf + p) ≡ 32
      → rest < 2 ^ p
      → golomb_decode f l (v * 2 ^ p + rest) ≡ (n, alt + suf)
  unfolding golomb_decode
  decode_escape v p rest hn small size fits =
      let high : 2 ^ (32 - alt) ≡ 2 ^ suf * 2 ^ p =
        (let e : 32 - alt ≡ suf + p = omega (arith, size) in rw e (pow_add suf p)) in
      let not_above : ltb (2 ^ (32 - alt) - 1) (v * 2 ^ p + rest) ≡ false =
        le→ltb _ _ (omega (arith, below_mul v (2 ^ suf) (2 ^ p) rest small fits, high)) in
      let below : 32 - (alt + suf) ≡ p = omega (arith, size) in
      rw (
        code.prefixmask,
        not_above,
        code.cwlen,
        code.suffix,
        code.codewords,
        below,
        split_div v (2 ^ p) rest fits,
        bppmask_below suf (omega (arith, code.short)),
        bit_and_ones suf v,
        mod-eq_of_lt small,
        ← hn,
      )

  encode_unary : n < alt * 2 ^ l → golomb_encode f n l ≡ (2 ^ l + n % 2 ^ l, n / 2 ^ l + l + 1)
  unfolding golomb_encode
  encode_unary h =
      let one : 1 * 2 ^ l % 2 ^ 32 ≡ 1 * 2 ^ l =
        mod-eq_of_lt (omega (arith, pow_mono l 31 (omega (arith, code.fits, code.some_prefix)))) in
      let joined = bit_or_low l 1 (n % 2 ^ l) (mod-lt n (pow_pos l)) in
      let unit : 1 * 2 ^ l ≡ 2 ^ l = omega arith in
      rw (
        code.codewords,
        lt→ltb _ _ h,
        one,
        bppmask_below l (omega (arith, code.fits)),
        bit_and_ones l n,
        joined,
        unit,
      )

  encode_escape : alt * 2 ^ l ≤ n → golomb_encode f n l ≡ (n - alt * 2 ^ l, alt + suf)
  unfolding golomb_encode
  encode_escape h = rw (code.codewords, le→ltb _ _ h, code.cwlen)

  -- What a code does with `n`: a word `c` of `len` bits, which is read at the top of 32 bits.
  record Reads (c len rest : ℕ) : Type 0 where
    some_bits : 0 < len
    bounded : len ≤ 26
    fits : c < 2 ^ len
    decoded : golomb_decode f l (c * 2 ^ (32 - len) + rest) ≡ (n, len)

  unary_Reads :
      (rest : ℕ)
      → n < alt * 2 ^ l
      → n < 2 ^ 32
      → rest < 2 ^ (32 - (n / 2 ^ l + l + 1))
      → Reads (2 ^ l + n % 2 ^ l) (n / 2 ^ l + l + 1) rest
  unary_Reads rest h small hrest =
      let q = n / 2 ^ l in
      let below : q < alt = (div-lt_iff_lt-mul (pow_pos l)).1 h in
      let r = mod-lt n (pow_pos l) in
      let len : q + l + 1 ≡ q + 1 + l = omega arith in
      let whole : n ≡ q * 2 ^ l + n % 2 ^ l =
        omega (arith, mod-eq-sub-div-mul n (2 ^ l), div-mul-le_self n (2 ^ l)) in
      record {
        some_bits = omega arith;
        bounded = omega (arith, below, code.fits);
        fits = omega (arith, r, pow-suc 2 l, pow_mono (suc l) (q + l + 1) (omega arith));
        decoded = rw len (
            decode_unary q (32 - (q + 1 + l)) (n % 2 ^ l) rest below
              (omega (arith, below, code.fits)) r whole small (rw len at hrest));
      }

  escape_Reads :
      (rest : ℕ)
      → alt * 2 ^ l ≤ n
      → n < alt * 2 ^ l + 2 ^ suf
      → rest < 2 ^ (32 - (alt + suf))
      → Reads (n - alt * 2 ^ l) (alt + suf) rest
  escape_Reads rest h known hrest =
      let small : n - alt * 2 ^ l < 2 ^ suf = omega (arith, h, known) in
      record {
        some_bits = omega (arith, code.some_prefix);
        bounded = code.short;
        fits = omega (arith, small, pow_mono suf (alt + suf) (omega arith));
        decoded =
            decode_escape (n - alt * 2 ^ l) (32 - (alt + suf)) rest (omega (arith, h)) small
              (omega (arith, code.short)) hrest;
      }

  encode_Reads :
      (rest : ℕ)
      → n < alt * 2 ^ l + 2 ^ suf
      → n < 2 ^ 32
      → rest < 2 ^ (32 - (golomb_encode f n l).1)
      → Reads (golomb_encode f n l).0 (golomb_encode f n l).1 rest
  encode_Reads rest known small hrest = elim (Bool-cases (ltb n (alt * 2 ^ l))) [
    | inl t ↦
        let e = encode_unary (ltb→lt n (alt * 2 ^ l) t) in
        rw e (unary_Reads rest (ltb→lt n (alt * 2 ^ l) t) small (rw e at hrest))
    | inr t ↦
        let e = encode_escape (ltb→le n (alt * 2 ^ l) t) in
        rw e (escape_Reads rest (ltb→le n (alt * 2 ^ l) t) known (rw e at hrest))
  ]

  -- Where the code with parameter `l` has a word for `n`, the word has at most 26 bits and fits in
  -- them; read at the top of 32 bits, whatever follows, it gives `n` and its own length back.
  pub golomb_roundtrip :
      (rest : ℕ)
      → n < alt * 2 ^ l + 2 ^ suf
      → n < 2 ^ 32
      → rest < 2 ^ (32 - (golomb_encode f n l).1)
      → (0 < (golomb_encode f n l).1)
        × ((golomb_encode f n l).1 ≤ 26)
        × ((golomb_encode f n l).0 < 2 ^ (golomb_encode f n l).1)
        × (golomb_decode f l ((golomb_encode f n l).0 * 2 ^ (32 - (golomb_encode f n l).1) + rest)
            ≡ (n, (golomb_encode f n l).1))
  golomb_roundtrip rest known small hrest =
      let w = encode_Reads rest known small hrest in (w.some_bits, w.bounded, w.fits, w.decoded)
