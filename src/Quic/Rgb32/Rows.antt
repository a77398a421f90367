-- ===== src/Quic/Rgb32/Rows.antt =====
-- The rows of an RGB32 image, coded and decoded.
use capsaicin.Quic.Rgb32.Between.{drop-drop, drop_whole, row_span, row_within, next_rows_lem}
use capsaicin.Base.{
  ℕ, zero, suc, ◌+◌, ◌-◌, ◌*◌, ◌≤◌, ◌<◌, ◌≡◌, refl, ◌∙◌, ap, sym, subst, Option, some, List, [],
  ◌∷◌, ◌++◌, arith, length, take, drop, replicate, length-replicate, length-take, length-drop,
  take-append-drop, take-All, drop-All, get_elem?-All, append_assoc, append-nil, All, IsByte,
  slice_within,
}
use capsaicin.Base.Outcome.{Outcome, ok, slice}
use capsaicin.Quic.{QuicError}
use capsaicin.Quic.Family.{init}
use capsaicin.Quic.Stream.{BitReader, BitWriter}
use capsaicin.Quic.Stream.Writes.{Holds}
use capsaicin.Quic.Stream.Reads.{Before}
use capsaicin.Quic.State.{CommonState}
use capsaicin.Quic.Segment.{row}
use capsaicin.Quic.Segment.Rows.{row_lem}
use capsaicin.Quic.Segment.Whole.{IsRowState}
use capsaicin.Quic.Rgb32.{Channels, Decoding, Encoding, decode_steps, encode_steps}
use capsaicin.Quic.Rgb32.Image.{concat, next_rows, compress_rows, decompress_rgb_phase}
use capsaicin.Quic.Rgb32.Painted.{IsRow, Painted, RowAbove, below}
use capsaicin.Quic.Rgb32.Calls.{AreModels, decoding}
use capsaicin.Quic.Rgb32.Agreement.{agree}
use capsaicin.Quic.Rgb32.Alpha.{
  erase_alpha, erase_alpha-append, Painted-erase_alpha, erase_alpha-Painted,
}

-- Rows coded behind `bs`, and what the decoder makes of them.
pub record Coded (width left : ℕ) (pd : Option (List ℕ)) (st : CommonState) (cs : Channels)
    (rest bs : List ℕ) (enc : Outcome QuicError BitWriter) : Type 0 where
  pub code : List ℕ
  pub writer : BitWriter
  pub encoded : enc ≡ ok writer
  pub holds : Holds writer (bs ++ code)
  pub decoded :
      (ws more : List ℕ) (r : BitReader)
      → Before r ws bs (code ++ more)
      → (r' : BitReader) × (out : List (List ℕ)) × (decompress_rgb_phase
            (init 8)
            width
            pd
            st
            r
            cs
            (replicate left (replicate (width * 4) 0))
          ≡ ok (r', out))
        × (concat out ≡ erase_alpha rest)

compress_rows_step :
    (width : ℕ) (pixels cur : List ℕ) (left n : ℕ) (prev : Option (List ℕ)) (st st' : CommonState)
    (w : BitWriter) (cs cs' : Channels) (e : Encoding)
    → slice {E = QuicError} pixels (n * (width * 4)) ((n + 1) * (width * 4)) ≡ ok cur
    → row (encode_steps (init 8) prev cur) st (record { writer = w; chans = cs }) width
      ≡ ok (st', e)
    → next_rows e.chans ≡ ok cs'
    → compress_rows (init 8) width pixels (suc left) n prev st w cs
      ≡ compress_rows (init 8) width pixels left (n + 1) (some cur) st' e.writer cs'
unfolding compress_rows
compress_rows_step width pixels cur left n prev st st' w cs cs' e h k l = rw (h, k, l)

decompress_step :
    (width : ℕ) (cur out : List ℕ) (rows rows' : List (List ℕ)) (prev : Option (List ℕ))
    (st st' : CommonState) (r r1 r2 : BitReader) (cs cs1 cs2 : Channels)
    → row (decode_steps (init 8) prev) st (decoding r cs cur) width ≡ ok (st', decoding r1 cs1 out)
    → next_rows cs1 ≡ ok cs2
    → decompress_rgb_phase (init 8) width (some out) st' r1 cs2 rows ≡ ok (r2, rows')
    → decompress_rgb_phase (init 8) width prev st r cs (cur ∷ rows) ≡ ok (r2, out ∷ rows')
unfolding decompress_rgb_phase
decompress_step width cur out rows rows' prev st st' r r1 r2 cs cs1 cs2 h k l = rw (h, k, l)

compress_none :
    (width : ℕ) (pixels : List ℕ) (n : ℕ) (prev : Option (List ℕ)) (st : CommonState)
    (w : BitWriter) (cs : Channels)
    → compress_rows (init 8) width pixels zero n prev st w cs ≡ ok w
unfolding compress_rows
compress_none width pixels n prev st w cs = refl

decompress_none :
    (width : ℕ) (prev : Option (List ℕ)) (st : CommonState) (r : BitReader) (cs : Channels)
    → decompress_rgb_phase (init 8) width prev st r cs [] ≡ ok (r, [])
unfolding decompress_rgb_phase
decompress_none width prev st r cs = refl

-- A buffer of zeros before its first pixel.
blank : (width : ℕ) (cur : List ℕ) → Painted width cur (replicate (width * 4) 0) 0
blank width cur = record {
  size = length-replicate (width * 4) 0;
  colour = λ k dst h l. absurd (omega (arith, h));
  pad = λ k h. absurd (omega (arith, h));
}

module _ (width height : ℕ) (pixels : List ℕ) (size : length pixels ≡ height * (width * 4))
    (bytes : All IsByte pixels) (wide : 0 < width) (small : width ≤ 16384) where
  abbrev row_at : ℕ → List ℕ
  row_at n = take (width * 4) (drop (n * (width * 4)) pixels)

  fits_row : (n : ℕ) → n < height → n * (width * 4) + width * 4 ≤ length pixels
  fits_row n h =
      let e : n + 1 + (height - (n + 1)) ≡ height = omega (arith, h) in
      let f = row_within n (height - (n + 1)) (width * 4) in
      rw size (subst (λ (k : ℕ). n * (width * 4) + width * 4 ≤ k * (width * 4)) e f)

  slice_row :
      (n : ℕ)
      → n < height
      → slice {E = QuicError} pixels (n * (width * 4)) ((n + 1) * (width * 4)) ≡ ok (row_at n)
  slice_row n h =
      let e = row_span n (width * 4) in
      let f = fits_row n h in
      let d : n * (width * 4) + width * 4 - n * (width * 4) ≡ width * 4 = omega arith in
      rw e (
        slice_within {E = QuicError} pixels (n * (width * 4)) (n * (width * 4) + width * 4)
          (omega arith) f
        ∙ ap (λ (k : ℕ). ok (take k (drop (n * (width * 4)) pixels))) d)

  row_at-IsRow : (n : ℕ) → n < height → IsRow width (row_at n)
  row_at-IsRow n h =
      let rest = drop (n * (width * 4)) pixels in
      record {
        size = omega (
          arith,
          fits_row n h,
          length-take (width * 4) rest,
          length-drop (n * (width * 4)) pixels,
        );
        bytes = λ pos v e.
            get_elem?-All IsByte (row_at n) pos v
              (take-All IsByte (width * 4) rest (drop-All IsByte (n * (width * 4)) pixels bytes)) e;
      }

  rest_split :
      (n : ℕ) → drop (n * (width * 4)) pixels ≡ row_at n ++ drop ((n + 1) * (width * 4)) pixels
  rest_split n =
      let rest = drop (n * (width * 4)) pixels in
      sym (take-append-drop (width * 4) rest)
      ∙ ap (λ xs. row_at n ++ xs)
          (drop-drop (n * (width * 4)) (width * 4) pixels
            ∙ ap (λ (k : ℕ). drop k pixels) (sym (row_span n (width * 4))))

  none_left : (n : ℕ) → n ≡ height → [] ≡ erase_alpha (drop (n * (width * 4)) pixels)
  unfolding erase_alpha
  none_left n e = rw e (ap erase_alpha (sym (drop_whole pixels (height * (width * 4)) size)))

  pub rows_lem :
      (left n : ℕ) {pe pd : Option (List ℕ)} (st : CommonState) (w : BitWriter) (cs : Channels)
      (bs : List ℕ)
      → n + left ≡ height
      → RowAbove width pe pd
      → IsRowState st
      → Holds w bs
      → AreModels width cs
      → Coded width left pd st cs
          (drop (n * (width * 4)) pixels)
          bs
          (compress_rows (init 8) width pixels left n pe st w cs)
  rows_lem zero n {pe} {pd} st w cs bs whole above good holds models = record {
    code = [];
    writer = w;
    encoded = compress_none width pixels n pe st w cs;
    holds = subst (Holds w) (sym (append-nil bs)) holds;
    decoded = λ ws more r b.
        (r, [], decompress_none width pd st r cs, none_left n (omega (arith, whole)));
  }
  rows_lem (suc left) n {pe} {pd} st w cs bs whole above good holds models =
      let less : n < height = omega (arith, whole) in
      let cur = row_at n in
      let is_row = row_at-IsRow n less in
      let l =
        row_lem (agree is_row small wide above) small st bs (record { writer = w; chans = cs }) good
          (record { holds = holds; models = models }) in
      let (cs', nq, nm) = next_rows_lem wide l.kept.models in
      let up : RowAbove width (some cur) (some (erase_alpha cur)) =
        below is_row (erase_alpha-Painted width cur is_row.size) in
      let c =
        rows_lem left (n + 1) l.shape l.next.writer cs' (bs ++ l.code) (omega (arith, whole)) up
          l.good l.kept.holds nm in
      record {
        code = l.code ++ c.code;
        writer = c.writer;
        encoded =
            compress_rows_step width pixels cur left n pe st l.shape w cs cs' l.next
              (slice_row n less) l.encoded nq
            ∙ c.encoded;
        holds = subst (Holds c.writer) (append_assoc bs l.code c.code) c.holds;
        decoded = λ ws more r b.
            let start = subst (Before r ws bs) (append_assoc l.code c.code more) b in
            let (d, q, v) =
              l.decoded (c.code ++ more) (decoding r cs (replicate (width * 4) 0)) (record {
                ws = ws;
                reader = r;
                out = replicate (width * 4) 0;
                same = refl;
                before = start;
                painted = blank width cur;
              }) in
            let same_row = Painted-erase_alpha width cur v.out is_row.size v.painted in
            let (r', out, q', e) = c.decoded v.ws more v.reader v.before in
            (
              r',
              erase_alpha cur ∷ out,
              decompress_step width (replicate (width * 4) 0) (erase_alpha cur)
                  (replicate left (replicate (width * 4) 0)) out pd st l.shape r v.reader r' cs
                  l.next.chans cs'
                  (q
                    ∙ ap (λ (d : Decoding). ok (l.shape, d))
                        (v.same ∙ ap (λ (o : List ℕ). decoding v.reader l.next.chans o) same_row))
                  nq q',
              ap (λ (t : List ℕ). erase_alpha cur ++ t) e
                  ∙ sym (
                      erase_alpha-append width cur (drop ((n + 1) * (width * 4)) pixels)
                        is_row.size)
                  ∙ ap erase_alpha (sym (rest_split n)),
            );
      }
