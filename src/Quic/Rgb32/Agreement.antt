-- ===== src/Quic/Rgb32/Agreement.antt =====
-- The steps of an RGB32 row: the encoder's and the decoder's agree at each of them.
use capsaicin.Base.{
  ℕ, ◌+◌, ◌-◌, ◌^◌, ◌≤◌, ◌<◌, ◌≡◌, refl, ◌∙◌, ap, false, Option, List, arith, ltb, le→ltb,
}
use capsaicin.Base.Outcome.{ok}
use capsaicin.Quic.Words.{add_u32}
use capsaicin.Quic.Family.{init}
use capsaicin.Quic.Stream.{BitReader, BitWriter}
use capsaicin.Quic.State.{CommonState}
use capsaicin.Quic.State.Runs.{decode_state_run, encode_state_run}
use capsaicin.Quic.State.Melc.{IsMelc}
use capsaicin.Quic.State.RunCodes.{
  run_code, run_state, run_state-IsMelc, run_state_wait, run_state_idx, encode_state_run_lem,
  decode_state_run_lem,
}
use capsaicin.Quic.Segment.Lockstep.{Lockstep}
use capsaicin.Quic.Segment.Walk.{after, Agree}
use capsaicin.Quic.Segment.Walk.Distance.{add_u32_small}
use capsaicin.Quic.Rgb32.{
  Channels, Encoding, do_run_copy_rgb32, decode_run, run_size, encode_run, encode_steps,
  decode_steps,
}
use capsaicin.Quic.Rgb32.Painted.{IsRow, RowAbove}
use capsaicin.Quic.Rgb32.Pixels.{first_lem, pixel_lem, update_lem}
use capsaicin.Quic.Rgb32.Calls.{sides, Writing, decoding}
use capsaicin.Quic.Rgb32.Starts.{starts_lem}
use capsaicin.Quic.Rgb32.Copies.{run_size_lem, copy_lem}

encode_run_lem :
    (cur : List ℕ) (st : CommonState) (e : Encoding) (j end n : ℕ) {w : BitWriter}
    {st' : CommonState}
    → run_size (end - j) cur j ≡ ok n
    → encode_state_run e.writer st n ≡ ok (w, st')
    → encode_run cur st e j end ≡ ok (st', record e { writer = w }, j + n)
unfolding encode_run
encode_run_lem cur st e j end n h k = rw (h, k)

decode_run_lem :
    (st : CommonState) (r : BitReader) (cs : Channels) (out : List ℕ) (j end n : ℕ) {r' : BitReader}
    {st' : CommonState} {out' : List ℕ}
    → decode_state_run r st ≡ ok (r', st', n)
    → add_u32 j n ≡ ok (j + n)
    → ltb end (j + n) ≡ false
    → do_run_copy_rgb32 n out j ≡ ok out'
    → decode_run st (decoding r cs out) j end ≡ ok (st', decoding r' cs out', j + n)
unfolding decode_run
decode_run_lem st r cs out j end n a b c d =
    let e : j + n - j ≡ n = omega arith in rw (a, b, c, e, d)

module _ {width : ℕ} {cur : List ℕ} (row : IsRow width cur) (small : width ≤ 16384)
    (wide : 0 < width) where
  run_lem :
      (st : CommonState) (i end : ℕ) (bs : List ℕ) (e : Encoding)
      → 0 < i
      → i < end
      → end ≤ width
      → IsMelc st
      → Writing width bs e
      → Lockstep
          (sides width cur)
          (after st i end)
          i
          bs
          e
          (encode_run cur st e i end)
          (λ d. decode_run st d i end)
  run_lem st i end bs e pos less fits melc h =
      let run = run_size_lem row (end - i) i pos (omega (arith, less, fits)) in
      let n = run.size in
      let (w, written, holds) = encode_state_run_lem st n melc h.holds in
      let inside : i + n ≤ end = omega (arith, run.short, less) in
      let few : n < 2 ^ 32 = omega (arith, inside, fits, small) in
      let sum = add_u32_small i n (omega (arith, inside, fits, small)) in
      record {
        shape = (run_state st n, i + n);
        good = (
          omega arith,
          inside,
          run_state-IsMelc st n melc,
          run_state_wait st n melc,
          run_state_idx st n melc,
        );
        next = record e { writer = w };
        code = run_code st n;
        encoded = encode_run_lem cur st e i end n run.counted written;
        kept = record { holds = holds; models = h.models };
        decoded = λ more d v.
            let (t, q) = decode_state_run_lem st n melc more few v.before in
            let (out, copied, painted) =
              copy_lem row n i v.out pos (omega (arith, inside, fits)) run.copies v.painted in
            (
              decoding t.reader e.chans out,
              ap (λ d. decode_run st d i end) v.same
                  ∙ decode_run_lem st v.reader e.chans v.out i end n q sum (le→ltb _ _ inside)
                      copied,
              record {
                ws = v.ws;
                reader = t.reader;
                out = out;
                same = refl;
                before = t.before;
                painted = painted;
              },
            );
      }

  pub agree :
      {pe pd : Option (List ℕ)}
      → RowAbove width pe pd
      → Agree (sides width cur) (encode_steps (init 8) pe cur) (decode_steps (init 8) pd) width
  unfolding encode_steps decode_steps
  agree above = record {
    first = λ bs e h. first_lem row above bs e wide h;
    pixel = λ i bs e pos inside h. pixel_lem row above i bs e pos inside h;
    update = λ st i k bs e less inside h. update_lem row above st i k bs e less inside h;
    starts = λ i run_index bs e pos inside h. starts_lem row above i run_index bs e inside;
    run = run_lem;
  }
