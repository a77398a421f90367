-- ===== src/Proto/Link/Caps.antt =====
-- The capability words of the link messages, crates/capsaicin-proto/src/link.rs.
use capsaicin.Base.{
  ℕ, zero, suc, ◌+◌, ◌*◌, ◌^◌, ◌≤◌, ◌<◌, ◌≡◌, refl, false, List, [], ◌∷◌, ◌++◌, append-nil,
  append_assoc, ltb, leb, arith, length, length-append, All, IsU32, to_le_bytes, length-to_le_bytes,
  le_uint-Segment, Segment-middle, le_uint_lem,
}
use capsaicin.Base.Outcome.{ok}
use capsaicin.Base.Ensures.{Ensures, returns, Ensures-bind, Ensures-map, Ensures-fail_if}
use capsaicin.Proto.Error.{ProtoError}
use capsaicin.Proto.Link.{read_words, read_caps, write_caps}

abbrev pub caps_bytes : List ℕ → List ℕ
caps_bytes [] = []
caps_bytes (c ∷ caps) = to_le_bytes 4 c ++ caps_bytes caps

pub length-caps_bytes : (caps : List ℕ) → length (caps_bytes caps) ≡ 4 * length caps
length-caps_bytes [] = refl
length-caps_bytes (c ∷ caps) = omega (
  arith,
  length-append (to_le_bytes 4 c) (caps_bytes caps),
  length-to_le_bytes 4 c,
  length-caps_bytes caps,
)

pub write_caps_lem : (out caps : List ℕ) → write_caps out caps ≡ out ++ caps_bytes caps
unfolding write_caps
write_caps_lem out [] = simp append-nil
write_caps_lem out (c ∷ caps) =
    rw (write_caps_lem (out ++ to_le_bytes 4 c) caps)
      (append_assoc out (to_le_bytes 4 c) (caps_bytes caps))

read_words_middle :
    (pre caps suf : List ℕ) (base : ℕ)
    → length pre ≡ base
    → All IsU32 caps
    → read_words (length caps) (pre ++ (caps_bytes caps ++ suf)) base ≡ ok caps
unfolding read_words
read_words_middle pre [] suf base h fits = refl
read_words_middle pre (c ∷ caps) suf base h fits =
    let word = to_le_bytes 4 c in
    let e : pre ++ ((word ++ caps_bytes caps) ++ suf) ≡ pre ++ (word ++ (caps_bytes caps ++ suf)) =
      simp append_assoc in
    let e' : (pre ++ word) ++ (caps_bytes caps ++ suf) ≡ pre ++ (word ++ (caps_bytes caps ++ suf)) =
      simp append_assoc in
    let first =
      le_uint-Segment {E = ProtoError} 4 c {b = base + 4}
        (Segment-middle pre word (caps_bytes caps ++ suf) h (omega (arith, length-to_le_bytes 4 c)))
        fits.0 in
    let rest =
      read_words_middle (pre ++ word) caps suf (base + 4)
        (omega (arith, length-append pre word, length-to_le_bytes 4 c)) fits.1 in
    rw (e, first, rw e' at rest)

pub read_caps_middle :
    (pre caps suf : List ℕ) (offset : ℕ)
    → length pre ≡ offset
    → offset + 4 * length caps < 2 ^ 64
    → All IsU32 caps
    → read_caps (pre ++ (caps_bytes caps ++ suf)) offset (length caps) ≡ ok caps
unfolding read_caps
read_caps_middle pre caps suf offset h small fits =
    let n : length (pre ++ (caps_bytes caps ++ suf)) ≡ offset + (4 * length caps + length suf) =
      omega (
        arith,
        length-append pre (caps_bytes caps ++ suf),
        length-append (caps_bytes caps) suf,
        length-caps_bytes caps,
      ) in
    let whole : leb (2 ^ 64) (offset + 4 * length caps) ≡ false = ground arith in
    let inside : ltb (length (pre ++ (caps_bytes caps ++ suf))) (offset + 4 * length caps) ≡ false =
      ground arith in
    rw (whole, inside) (read_words_middle pre caps suf offset h fits)

read_words_lem :
    (count : ℕ) (buf : List ℕ) (base : ℕ)
    → base + 4 * count ≤ length buf
    → Ensures (λ caps. length caps ≡ count) (read_words count buf base)
unfolding read_words
read_words_lem zero buf base h = returns refl
read_words_lem (suc count) buf base h =
    Ensures-bind (le_uint_lem 4 buf base (base + 4) refl (omega arith)) λ c u.
      Ensures-bind (read_words_lem count buf (base + 4) (omega arith))
        λ caps n. returns (omega arith)

-- Whatever offset and count a peer declares, the words are read or refused, and no byte outside the
-- buffer is touched.
pub read_caps_lem :
    (buf : List ℕ) (offset count : ℕ)
    → Ensures
        (λ caps. (length caps ≡ count) × (offset + 4 * count ≤ length buf))
        (read_caps buf offset count)
unfolding read_caps
read_caps_lem buf offset count = Ensures-fail_if (leb (2 ^ 64) (offset + 4 * count)) _ _ λ f.
    Ensures-fail_if (ltb (length buf) (offset + 4 * count)) _ _ λ g.
      let within : offset + 4 * count ≤ length buf = ground arith in
      Ensures-map (λ caps n. (n, within)) (read_words_lem count buf offset within)

-- Two arrays of words behind a fixed part are both found.
pub read_caps_both :
    (pre common channel suf : List ℕ) (offset : ℕ)
    → length pre ≡ offset
    → offset + 4 * length common + 4 * length channel < 2 ^ 64
    → All IsU32 common
    → All IsU32 channel
    → (read_caps (pre ++ (caps_bytes common ++ (caps_bytes channel ++ suf))) offset (length common)
        ≡ ok common)
      × (read_caps
            (pre ++ (caps_bytes common ++ (caps_bytes channel ++ suf)))
            (offset + 4 * length common)
            (length channel)
          ≡ ok channel)
read_caps_both pre common channel suf offset h small fits fits' =
    let e : pre ++ (caps_bytes common ++ (caps_bytes channel ++ suf))
        ≡ (pre ++ caps_bytes common) ++ (caps_bytes channel ++ suf) =
      simp append_assoc in
    (
      read_caps_middle pre common (caps_bytes channel ++ suf) offset h (omega arith) fits,
      rw e (
          read_caps_middle (pre ++ caps_bytes common) channel suf (offset + 4 * length common)
            (omega (arith, length-append pre (caps_bytes common), length-caps_bytes common))
            (omega arith) fits'),
    )
