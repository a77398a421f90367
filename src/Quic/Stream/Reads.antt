-- ===== src/Quic/Stream/Reads.antt =====
-- What `BitReader` sees: the bits of the words behind the header, from its position on.
use capsaicin.Quic.Stream.Ahead.{drop_past, take_past, zeros, ahead, window-ahead}
use capsaicin.Base.{
  ℕ, zero, suc, ◌+◌, ◌-◌, ◌*◌, ◌/◌, ◌%◌, ◌^◌, ◌≤◌, ◌<◌, ◌≡◌, refl, ap, ◌∙◌, sym, true, false, inl,
  inr, List, [], ◌∷◌, ◌++◌, append_assoc, arith, length, take, drop, All, IsU32, leb, ltb, le→ltb,
  ◌==◌, Bool-cases, take-append, length-append, to_le_bytes, from_le_bytes, length-to_le_bytes,
  from_le_bytes-to_le_bytes,
}
use capsaicin.Base.Outcome.{ok}
use capsaicin.Base.Bits.{bit_or_low}
use capsaicin.Base.Powers.{pow_pos, pow_add, below_mul, div_below}
use native.Mathlib.Nat.{mod-lt}
use capsaicin.Quic.Words.{get_or}
use capsaicin.Quic.Stream.{BitReader, read_word_at, peek32, eat}
use capsaicin.Quic.Stream.Bits.{
  to_bits, from_bits, length-to_bits, to_bits-fields, to_bits_split, from_bits-to_bits, bytes_of,
  bits_of, length-bytes_of, halves,
}
use capsaicin.Quic.Stream.Writes.{shl_top}

-- The reader stands in a stream whose body is the words `ws`.
pub record Reading (r : BitReader) (ws : List ℕ) : Type 0 where
  pub head : List ℕ
  pub length_head : length head ≡ 20
  pub stream : r.bytes ≡ head ++ bytes_of ws
  pub start : r.body_start ≡ 20
  pub words : All IsU32 ws

take_word :
    (ws : List ℕ) (i : ℕ)
    → All IsU32 ws
    → i < length ws
    → from_le_bytes (take 4 (drop (4 * i) (bytes_of ws))) ≡ get_or ws i 0
unfolding bytes_of
take_word [] i u h = absurd (omega (arith, h))
take_word (w ∷ ws) zero u h =
    let t : take 4 (to_le_bytes 4 w ++ bytes_of ws) ≡ to_le_bytes 4 w =
      rw (length-to_le_bytes 4 w) at (take-append (to_le_bytes 4 w) (bytes_of ws)) in
    rw t (from_le_bytes-to_le_bytes 4 w u.0)
take_word (w ∷ ws) (suc i) u h =
    let e : 4 * suc i ≡ 4 + 4 * i = omega arith in
    rw (e, drop_past (to_le_bytes 4 w) (bytes_of ws) 4 (4 * i) (length-to_le_bytes 4 w))
      (take_word ws i u.1 (omega (arith, h)))

get_or_beyond : (ws : List ℕ) (i : ℕ) → length ws ≤ i → get_or ws i 0 ≡ 0
get_or_beyond [] i h = refl
get_or_beyond (w ∷ ws) zero h = absurd (omega (arith, h))
get_or_beyond (w ∷ ws) (suc i) h = get_or_beyond ws i (omega (arith, h))

get_or-IsU32 : (ws : List ℕ) (i : ℕ) → All IsU32 ws → IsU32 (get_or ws i 0)
get_or-IsU32 [] i u = omega arith
get_or-IsU32 (w ∷ ws) zero u = u.0
get_or-IsU32 (w ∷ ws) (suc i) u = get_or-IsU32 ws i u.1

module _ {r : BitReader} {ws : List ℕ} (h : Reading r ws) where
  pub length_stream : length r.bytes ≡ 20 + 4 * length ws
  length_stream =
      ap length h.stream
      ∙ omega (arith, length-append h.head (bytes_of ws), h.length_head, length-bytes_of ws)

  read_word_lem : (i : ℕ) → read_word_at r (20 + i * 4) ≡ get_or ws i 0
  unfolding read_word_at
  read_word_lem i = elim (Bool-cases (leb (20 + i * 4 + 4) (length r.bytes))) [
    | inl inside ↦
        let less : i < length ws = ground (arith, length_stream) in
        let e : 20 + i * 4 ≡ 20 + 4 * i = omega arith in
        rw (inside, h.stream, e, drop_past h.head (bytes_of ws) 20 (4 * i) h.length_head)
          (take_word ws i h.words less)
    | inr outside ↦
        let more : length ws ≤ i = ground (arith, length_stream) in
        rw (outside, get_or_beyond ws i more)
  ]

  -- The parts of the two words that make up the next 32 bits.
  peek32_parts :
      (i b : ℕ)
      → b < 32
      → r.bit_pos ≡ 32 * i + b
      → peek32 r ≡ get_or ws i 0 % 2 ^ (32 - b) * 2 ^ b + get_or ws (i + 1) 0 / 2 ^ (32 - b)
  unfolding peek32 read_word_at
  peek32_parts i b small e =
      let idx : r.bit_pos / 32 ≡ i = omega (arith, e, small) in
      let bit : r.bit_pos % 32 ≡ b = omega (arith, e, small) in
      let w0 = get_or ws i 0 in
      let w1 = get_or ws (i + 1) 0 in
      let next : 20 + i * 4 + 4 ≡ 20 + (i + 1) * 4 = omega arith in
      let lo_fits : w1 / 2 ^ (32 - b) < 2 ^ b =
        (let n : b + (32 - b) ≡ 32 = omega (arith, small) in
          div_below w1 b (32 - b) (rw n (get_or-IsU32 ws (i + 1) h.words))) in
      elim (Bool-cases (b == 0)) [
        | inl none ↦
            let z : b ≡ 0 = ground arith in
            rw (idx, bit, h.start, none, read_word_lem i, z)
              (omega (arith, get_or-IsU32 ws i h.words, get_or-IsU32 ws (i + 1) h.words))
        | inr some ↦
            let back : 32 - (32 - b) ≡ b = omega (arith, small) in
            let top = shl_top w0 (32 - b) (omega arith) in
            rw (idx, bit, h.start, some, read_word_lem i, next, read_word_lem (i + 1))
              (rw (rw back at top) (bit_or_low b (w0 % 2 ^ (32 - b)) (w1 / 2 ^ (32 - b)) lo_fits))
      ]

  peek32_bits :
      (i b : ℕ)
      → b < 32
      → r.bit_pos ≡ 32 * i + b
      → r.bit_pos ≤ 32 * length ws
      → (to_bits 32 (peek32 r) ≡ ahead ws r.bit_pos) × (peek32 r < 2 ^ 32)
  peek32_bits i b small e within =
      let w0 = get_or ws i 0 in
      let w1 = get_or ws (i + 1) 0 in
      let n : b + (32 - b) ≡ 32 = omega (arith, small) in
      let m : (32 - b) + b ≡ 32 = omega (arith, small) in
      let lo_fits : w1 / 2 ^ (32 - b) < 2 ^ b =
        div_below w1 b (32 - b) (rw n (get_or-IsU32 ws (i + 1) h.words)) in
      let hi_fits : w0 % 2 ^ (32 - b) < 2 ^ (32 - b) = mod-lt w0 (pow_pos (32 - b)) in
      let fields = to_bits-fields (32 - b) b (w0 % 2 ^ (32 - b)) (w1 / 2 ^ (32 - b)) lo_fits in
      let bound =
        below_mul (w0 % 2 ^ (32 - b)) (2 ^ (32 - b)) (2 ^ b) (w1 / 2 ^ (32 - b)) hi_fits lo_fits in
      let whole : 2 ^ (32 - b) * 2 ^ b ≡ 2 ^ 32 =
        sym (pow_add (32 - b) b) ∙ ap (λ (t : ℕ). 2 ^ t) m in
      (
        rw (peek32_parts i b small e, e, window-ahead ws i b small (omega (arith, e, within)))
            (rw m at fields),
        rw (peek32_parts i b small e) (rw whole at bound),
      )

take_front {ℓ} : {A : Type ℓ} (xs ys : List A) (n : ℕ) → length xs ≡ n → take n (xs ++ ys) ≡ xs
take_front xs ys n h = rw h at (take-append xs ys)

-- Numbers with the same bits are equal.
same_bits : (n v w : ℕ) → v < 2 ^ n → w < 2 ^ n → to_bits n v ≡ to_bits n w → v ≡ w
same_bits n v w hv hw e = sym (from_bits-to_bits n v hv) ∙ ap from_bits e ∙ from_bits-to_bits n w hw

-- When the next bits are those of `c`, the next 32 bits are `c` at the top and something below it.
pub record Leads (v c len : ℕ) : Type 0 where
  pub below : ℕ
  pub fits : below < 2 ^ (32 - len)
  pub value : v ≡ c * 2 ^ (32 - len) + below

leading_bits :
    (v c len : ℕ) (more : List ℕ)
    → v < 2 ^ 32
    → c < 2 ^ len
    → len ≤ 32
    → to_bits 32 v ≡ take 32 (to_bits len c ++ more)
    → Leads v c len
leading_bits v c len more small fits short e =
    let k = 32 - len in
    let n : len + k ≡ 32 = omega (arith, short) in
    let l : len + 0 ≡ len = omega arith in
    let split : to_bits 32 v ≡ to_bits len (v / 2 ^ k) ++ to_bits k (v % 2 ^ k) =
      ap (λ (t : ℕ). to_bits t v) (sym n) ∙ to_bits_split len k v in
    let front : take 32 (to_bits len c ++ more) ≡ to_bits len c ++ take k more =
      ap (λ (t : ℕ). take t (to_bits len c ++ more)) (sym n)
      ∙ take_past (to_bits len c) more len k (length-to_bits len c) in
    let both : to_bits len (v / 2 ^ k) ++ to_bits k (v % 2 ^ k) ≡ to_bits len c ++ take k more =
      sym split ∙ e ∙ front in
    let same : to_bits len (v / 2 ^ k) ≡ to_bits len c =
      sym (
        take_front (to_bits len (v / 2 ^ k)) (to_bits k (v % 2 ^ k)) len
          (length-to_bits len (v / 2 ^ k)))
      ∙ ap (take len) both
      ∙ take_front (to_bits len c) (take k more) len (length-to_bits len c) in
    let top : v / 2 ^ k ≡ c =
      same_bits len (v / 2 ^ k) c (div_below v len k (rw n small)) fits same in
    record {
      below = v % 2 ^ k;
      fits = mod-lt v (pow_pos k);
      value = halves v k ∙ ap (λ (t : ℕ). t * 2 ^ k + v % 2 ^ k) top;
    }

pub length-bits_of : (ws : List ℕ) → length (bits_of ws) ≡ 32 * length ws
unfolding bits_of
length-bits_of [] = refl
length-bits_of (w ∷ ws) =
    omega (arith, length-append (to_bits 32 w) (bits_of ws), length-to_bits 32 w, length-bits_of ws)

-- The bits behind the reader's position.
pub record Before (r : BitReader) (ws done rest : List ℕ) : Type 0 where
  pub reading : Reading r ws
  pub position : length done ≡ r.bit_pos
  pub split : bits_of ws ≡ done ++ rest

module _ {r : BitReader} {ws done : List ℕ} (c len : ℕ) (more : List ℕ)
    (h : Before r ws done (to_bits len c ++ more)) (short : len ≤ 32) where
  within_stream : r.bit_pos + len ≤ 32 * length ws
  within_stream = omega (
    arith,
    h.position,
    length-bits_of ws,
    ap length h.split,
    length-append done (to_bits len c ++ more),
    length-append (to_bits len c) more,
    length-to_bits len c,
  )

  pub peek32-Leads : c < 2 ^ len → Leads (peek32 r) c len
  peek32-Leads fits =
      let p = r.bit_pos in
      let none : p + 0 ≡ p = omega arith in
      let e : p ≡ 32 * (p / 32) + p % 32 = omega arith in
      let bits =
        peek32_bits h.reading (p / 32) (p % 32) (omega arith) e (omega (arith, within_stream)) in
      let rest : drop p (bits_of ws) ≡ to_bits len c ++ more =
        ap (drop p) h.split
        ∙ (rw none at (drop_past done (to_bits len c ++ more) p 0 h.position)) in
      leading_bits (peek32 r) c len (more ++ zeros 32) bits.1 fits short
        (bits.0 ∙ rw (rest, append_assoc))

  -- The bits are taken, and no error is reported.
  pub eat-Before :
      (eat r len ≡ ok (record r { bit_pos = r.bit_pos + len }))
      × Before (record r { bit_pos = r.bit_pos + len }) ws (done ++ to_bits len c) more
  unfolding eat
  eat-Before =
      let fine : leb len 32 ≡ true = ground arith in
      let bytes = length_stream h.reading in
      let enough : ltb ((length r.bytes - r.body_start) * 8 + 32) (r.bit_pos + len) ≡ false =
        le→ltb _ _ (omega (arith, bytes, h.reading.start, within_stream)) in
      (
        rw (fine, enough),
        record {
          reading = record {
            head = h.reading.head;
            length_head = h.reading.length_head;
            stream = h.reading.stream;
            start = h.reading.start;
            words = h.reading.words;
          };
          position =
              omega (arith, length-append done (to_bits len c), length-to_bits len c, h.position);
          split = h.split ∙ sym (append_assoc done (to_bits len c) more);
        },
      )
