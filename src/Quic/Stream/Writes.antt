-- ===== src/Quic/Stream/Writes.antt =====
-- What `BitWriter` holds: the bits that were written, in whole words and in the word that fills up.
use capsaicin.Base.{
  ℕ, zero, suc, ◌+◌, ◌-◌, ◌*◌, ◌/◌, ◌%◌, ◌^◌, ◌≤◌, ◌<◌, ◌≡◌, refl, ap, ◌∙◌, sym, true, false, inl,
  inr, List, [], ◌∷◌, ◌++◌, append_assoc, append-nil, arith, All, append-All, IsU32, ltb, ◌==◌,
  if◌then◌else◌, ltb→lt, ltb→le, lt→ltb, Bool-cases, to_le_bytes,
}
use capsaicin.Base.Outcome.{ok}
use capsaicin.Base.Bits.{bit_or_low}
use capsaicin.Base.Powers.{pow_pos, pow_mono, pow_add, below_mul, div_below, split_mod}
use native.Mathlib.Nat.{mod-lt, mod-eq_of_lt}
use capsaicin.Quic.Words.{shl}
use capsaicin.Quic.Stream.{BitWriter, new, flush_word, write_within, write_across, write, finish}
use capsaicin.Quic.Stream.Bits.{
  to_bits, to_bits-fields, to_bits_split, bytes_of, bits_of, bytes_of-append, bits_of-append,
  bytes_of_one, bits_of_one, halves,
}

pub record Holds (w : BitWriter) (bs : List ℕ) : Type 0 where
  pub ws : List ℕ
  pub pending : ℕ
  pub words : All IsU32 ws
  pub bytes : w.buf ≡ bytes_of ws
  pub some_room : 0 < w.available
  pub room : w.available ≤ 32
  pub fits : pending < 2 ^ (32 - w.available)
  pub word : w.io_word ≡ pending * 2 ^ w.available
  pub bits : bs ≡ bits_of ws ++ to_bits (32 - w.available) pending

pub new-Holds : Holds new []
unfolding bits_of to_bits bytes_of
new-Holds = record {
  ws = [];
  pending = 0;
  words = tt;
  bytes = refl;
  some_room = omega arith;
  room = omega arith;
  fits = omega arith;
  word = refl;
  bits = refl;
}

-- The sum of two powers in place of a shifted word.
shl_small : (v len k : ℕ) → v < 2 ^ len → len + k ≤ 32 → shl v k ≡ v * 2 ^ k
shl_small v len k h small =
    let b = below_mul v (2 ^ len) (2 ^ k) 0 h (pow_pos k) in
    mod-eq_of_lt (omega (arith, b, pow_add len k, pow_mono (len + k) 32 small))

-- A shift to the top keeps the low bits.
pub shl_top : (v d : ℕ) → d ≤ 32 → shl v (32 - d) ≡ v % 2 ^ d * 2 ^ (32 - d)
shl_top v d h =
    let p : 2 ^ d * 2 ^ (32 - d) ≡ 2 ^ 32 =
      (let whole : d + (32 - d) ≡ 32 = omega (arith, h) in
        sym (pow_add d (32 - d)) ∙ ap (λ (t : ℕ). 2 ^ t) whole) in
    let b =
      below_mul (v % 2 ^ d) (2 ^ d) (2 ^ (32 - d)) 0 (mod-lt v (pow_pos d)) (pow_pos (32 - d)) in
    let e : v * 2 ^ (32 - d) ≡ v / 2 ^ d * 2 ^ 32 + v % 2 ^ d * 2 ^ (32 - d) =
      rw (← p) (ap (λ (t : ℕ). t * 2 ^ (32 - d)) (halves v d) ∙ grind arith) in
    ap (λ (t : ℕ). t % 2 ^ 32) e
    ∙ split_mod (v / 2 ^ d) (2 ^ 32) (v % 2 ^ d * 2 ^ (32 - d)) (omega (arith, b, p))

-- The word after a flush: nothing is left over when the bits ended with the word.
next_word : (v d : ℕ) → d ≤ 32 → (if d == 0 then 0 else shl v (32 - d)) ≡ v % 2 ^ d * 2 ^ (32 - d)
next_word v zero h = omega arith
next_word v (suc d) h =
    let more : (suc d == 0) ≡ false = ground arith in rw more (shl_top v (suc d) h)

module _ {w : BitWriter} {bs : List ℕ} (h : Holds w bs) (v len : ℕ) (fits : v < 2 ^ len) where
  write_within-Holds :
      0 < len → len < w.available → Holds (write_within w v len) (bs ++ to_bits len v)
  unfolding write_within
  write_within-Holds some less =
      let a = w.available in
      let k = a - len in
      let e : a ≡ len + k = omega (arith, less) in
      let s = shl_small v len k fits (omega (arith, less, h.room)) in
      let p : 2 ^ a ≡ 2 ^ len * 2 ^ k = ap (λ (t : ℕ). 2 ^ t) e ∙ pow_add len k in
      let low : v * 2 ^ k < 2 ^ a =
        omega (arith, p, below_mul v (2 ^ len) (2 ^ k) 0 fits (pow_pos k)) in
      let wide : 32 - k ≡ (32 - a) + len = omega (arith, less, h.room) in
      let b = below_mul h.pending (2 ^ (32 - a)) (2 ^ len) v h.fits fits in
      record {
        ws = h.ws;
        pending = h.pending * 2 ^ len + v;
        words = h.words;
        bytes = h.bytes;
        some_room = omega (arith, less);
        room = omega (arith, h.room);
        fits = rw (wide, pow_add (32 - a) len) b;
        word = rw (h.word, s, bit_or_low a h.pending (v * 2 ^ k) low, p) (grind arith);
        bits =
            rw (h.bits, wide, to_bits-fields (32 - a) len h.pending v fits)
              (append_assoc (bits_of h.ws) (to_bits (32 - a) h.pending) (to_bits len v));
      }

  write_across-Holds :
      w.available ≤ len → len < 32 → Holds (write_across w v len) (bs ++ to_bits len v)
  unfolding write_across flush_word
  write_across-Holds enough small =
      let a = w.available in
      let d = len - a in
      let e : len ≡ a + d = omega (arith, enough) in
      let hi = v / 2 ^ d in
      let lo = v % 2 ^ d in
      let hi_fits : hi < 2 ^ a = div_below v a d (rw (← e) fits) in
      let lo_fits : lo < 2 ^ d = mod-lt v (pow_pos d) in
      let full = h.pending * 2 ^ a + hi in
      let joined = bit_or_low a h.pending hi hi_fits in
      let whole : (32 - a) + a ≡ 32 = omega (arith, h.room) in
      let full_fits : IsU32 full =
        (let b = below_mul h.pending (2 ^ (32 - a)) (2 ^ a) hi h.fits hi_fits in
          omega (arith, b, pow_add (32 - a) a, ap (λ (t : ℕ). 2 ^ t) whole)) in
      let back : 32 - (32 - d) ≡ d = omega (arith, small, h.some_room) in
      let filled : to_bits 32 full ≡ to_bits (32 - a) h.pending ++ to_bits a hi =
        ap (λ (t : ℕ). to_bits t full) (sym whole)
        ∙ to_bits-fields (32 - a) a h.pending hi hi_fits in
      let parts : to_bits len v ≡ to_bits a hi ++ to_bits d lo =
        ap (λ (t : ℕ). to_bits t v) e ∙ to_bits_split a d v in
      record {
        ws = h.ws ++ (full ∷ []);
        pending = lo;
        words = append-All IsU32 h.ws (full ∷ []) h.words (full_fits, tt);
        bytes = rw (h.bytes, h.word, joined, bytes_of-append h.ws (full ∷ []), bytes_of_one full);
        some_room = omega (arith, small, h.some_room);
        room = omega arith;
        fits = rw back lo_fits;
        word = next_word v d (omega (arith, small));
        bits =
            rw (back, parts, h.bits, bits_of-append h.ws (full ∷ []), bits_of_one full, filled)
              (simp append_assoc);
      }

  -- Writing a word of `len` bits appends them, and no assertion fails.
  pub write-Holds :
      0 < len
      → len < 32
      → (w' : BitWriter) × (write w v len ≡ ok w') × Holds w' (bs ++ to_bits len v)
  unfolding write
  write-Holds some small = elim (Bool-cases (ltb len w.available)) [
    | inl less ↦ (
      write_within w v len,
      rw (lt→ltb _ _ some, lt→ltb _ _ small, lt→ltb _ _ fits, less),
      write_within-Holds some (ltb→lt len w.available less),
    )
    | inr enough ↦ (
      write_across w v len,
      rw (lt→ltb _ _ some, lt→ltb _ _ small, lt→ltb _ _ fits, enough),
      write_across-Holds (ltb→le len w.available enough) small,
    )
  ]

finish_whole : (w : BitWriter) → (w.available == 32) ≡ true → finish w ≡ w.buf
unfolding finish
finish_whole w h = rw (finish, h)

finish_partial :
    (w : BitWriter) → (w.available == 32) ≡ false → finish w ≡ w.buf ++ to_le_bytes 4 w.io_word
unfolding finish flush_word
finish_partial w h = rw (finish, h)

-- The bits of a finished stream: all that were written, and zeros up to the end of a word.
pub record Finished (bytes bs : List ℕ) : Type 0 where
  pub ws : List ℕ
  pub padding : List ℕ
  pub words : All IsU32 ws
  pub stream : bytes ≡ bytes_of ws
  pub bits : bits_of ws ≡ bs ++ padding

finish_none : (xs : List ℕ) (v : ℕ) → xs ≡ (xs ++ to_bits 0 v) ++ []
unfolding to_bits
finish_none xs v = simp append-nil

pub finish-Finished : {w : BitWriter} {bs : List ℕ} → Holds w bs → Finished (finish w) bs
finish-Finished {w} {bs} h =
    let a = w.available in
    elim (Bool-cases (a == 32)) [
      | inl done ↦
          let e : 32 - a ≡ 0 = ground arith in
          record {
            ws = h.ws;
            padding = [];
            words = h.words;
            stream = finish_whole w done ∙ h.bytes;
            bits = rw (h.bits, e) (finish_none (bits_of h.ws) h.pending);
          }
      | inr more ↦
          let full = h.pending * 2 ^ a in
          let whole : (32 - a) + a ≡ 32 = omega (arith, h.room) in
          let b = below_mul h.pending (2 ^ (32 - a)) (2 ^ a) 0 h.fits (pow_pos a) in
          let full_fits : IsU32 full =
            omega (arith, b, pow_add (32 - a) a, ap (λ (t : ℕ). 2 ^ t) whole) in
          let zero_low : full ≡ full + 0 = omega arith in
          let filled : to_bits 32 full ≡ to_bits (32 - a) h.pending ++ to_bits a 0 =
            ap (λ (t : ℕ). to_bits t full) (sym whole)
            ∙ ap (to_bits ((32 - a) + a)) zero_low
            ∙ to_bits-fields (32 - a) a h.pending 0 (pow_pos a) in
          record {
            ws = h.ws ++ (full ∷ []);
            padding = to_bits a 0;
            words = append-All IsU32 h.ws (full ∷ []) h.words (full_fits, tt);
            stream =
                finish_partial w more
                ∙ rw (h.bytes, h.word, bytes_of-append h.ws (full ∷ []), bytes_of_one full);
            bits =
                rw (bits_of-append h.ws (full ∷ []), bits_of_one full, filled, h.bits)
                  (simp append_assoc);
          }
    ]
