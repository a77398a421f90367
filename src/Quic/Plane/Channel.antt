-- ===== src/Quic/Plane/Channel.antt =====
-- One channel of one pixel: the decoder's step takes the encoder's bits back to the same byte.
use capsaicin.Quic.Plane.Codewords.{
  word, write_word, read_word, diff, residual_of, masked, restored, residual, residual-IsByte,
}
use capsaicin.Base.{
  ℕ, ◌+◌, ◌-◌, ◌*◌, ◌/◌, ◌%◌, ◌^◌, ◌<◌, ◌≡◌, refl, ◌∙◌, Option, none, some, List, ◌++◌, arith,
  length, set, get_elem?, get_elem?-set_ne,
}
use capsaicin.Base.Outcome.{Outcome, ok, index}
use capsaicin.Quic.{QuicError}
use capsaicin.Quic.Family.{init}
use capsaicin.Quic.Stream.{BitReader, BitWriter}
use capsaicin.Quic.Stream.Writes.{Holds}
use capsaicin.Quic.Stream.Reads.{Before}
use capsaicin.Quic.State.Hits.{Taken}
use capsaicin.Quic.Model.{ChannelDecoder}
use capsaicin.Quic.Model.Invariant.{
  IsModel, find_bucket_lem, keep, keep-IsModel, residual_at, store_lem,
}
use capsaicin.Quic.Plane.{
  decode_residual, first_value, next_value, decode_byte_pos0, decode_byte, first_predicted,
  next_predicted, encode_byte_pos0, encode_byte,
}

-- The byte above, in the encoder's row and in the decoder's.
pub data Above : Option (List ℕ) → Option (List ℕ) → ℕ → Type 0 where
  no_row : {pos : ℕ} → Above none none pos
  same :
      {xs ys : List ℕ} {pos : ℕ} (b : ℕ)
      → get_elem? xs pos ≡ some b
      → get_elem? ys pos ≡ some b
      → b < 256
      → Above (some xs) (some ys) pos

-- What both sides expect.
record First (pe pd : Option (List ℕ)) (dst x : ℕ) : Type 0 where
  predicted : ℕ
  small : predicted < 256
  enc : first_predicted pe dst ≡ ok predicted
  dec : first_value pd dst (diff x predicted) ≡ ok x

record Next (pe pd : Option (List ℕ)) (pos a x : ℕ) : Type 0 where
  predicted : ℕ
  small : predicted < 256
  enc : next_predicted pe pos a ≡ ok predicted
  dec : next_value pd 255 pos a (diff x predicted) ≡ ok x

first_lem :
    {pe pd : Option (List ℕ)} {dst : ℕ} (x : ℕ) → x < 256 → Above pe pd dst → First pe pd dst x
unfolding first_predicted first_value index
first_lem x h no_row =
    let e : diff x 0 % 2 ^ 8 ≡ x = omega (arith, h) in
    record { predicted = 0; small = omega arith; enc = refl; dec = rw e }
first_lem x h (same b ee ed k) = record {
  predicted = b;
  small = k;
  enc = rw ee;
  dec = rw (ed, restored x b h k);
}

next_lem :
    {pe pd : Option (List ℕ)} {pos : ℕ} (a x : ℕ)
    → a < 256
    → x < 256
    → Above pe pd pos
    → Next pe pd pos a x
unfolding next_predicted next_value index
next_lem a x g h no_row = record {
  predicted = a;
  small = g;
  enc = refl;
  dec = rw (restored x a h g);
}
next_lem a x g h (same b ee ed k) =
    let p = (a + b) / 2 in
    let small : p < 256 = omega (arith, g, k) in
    record { predicted = p; small = small; enc = rw ee; dec = rw (ed, restored x p h small) }

-- One byte coded: the encoder writes `code`; the decoder takes it from a row of which `Fit` holds
-- and puts the byte `x` at `pos`. Both keep the same channel.
pub record ByteCoded (width : ℕ) (bs : List ℕ) (pos x : ℕ) (Fit : List ℕ → Type 0)
    (enc : Outcome QuicError (BitWriter × ChannelDecoder))
    (dec : BitReader → List ℕ → Outcome QuicError (BitReader × ChannelDecoder × List ℕ))
    : Type 0 where
  pub writer : BitWriter
  pub chan : ChannelDecoder
  pub code : List ℕ
  pub encoded : enc ≡ ok (writer, chan)
  pub holds : Holds writer (bs ++ code)
  pub model : IsModel width chan
  pub decoded :
      {r : BitReader} {ws done : List ℕ} (more : List ℕ) (out : List ℕ)
      → Before r ws done (code ++ more)
      → pos < length out
      → Fit out
      → (t : Taken r ws (done ++ code) more) × (dec r out ≡ ok (t.reader, chan, set out pos x))

module _ {width : ℕ} {c : ChannelDecoder} {w : BitWriter} {bs : List ℕ} (m : IsModel width c)
    (h : Holds w bs) (pe pd : Option (List ℕ)) (cur : List ℕ) (x : ℕ) (byte : x < 256) where
  pub byte_pos0 :
      (dst : ℕ)
      → 0 < width
      → get_elem? cur dst ≡ some x
      → Above pe pd dst
      → ByteCoded width bs dst x
          (λ out. Unit {0})
          (encode_byte_pos0 (init 8) pe cur dst w c)
          (λ r out. decode_byte_pos0 (init 8) pd dst r c out)
  unfolding encode_byte_pos0 decode_byte_pos0 decode_residual index
  byte_pos0 dst some_pixel at_cur above =
      let f = first_lem x byte above in
      let n = residual_of x f.predicted in
      let tr = residual x f.predicted byte f.small in
      let small = residual-IsByte x f.predicted byte f.small in
      let b = m.found c.prev_minus1 m.first in
      let l = b.bucket.bestcode in
      let st = store_lem c.correlate_row 0 n (omega (arith, some_pixel, m.row)) in
      let cast : n % 2 ^ 8 ≡ n = omega (arith, small) in
      let (w', ew, hw) = write_word n l small b.best h in
      record {
        writer = w';
        chan = keep c 0 n;
        code = word n l;
        encoded =
            rw
              (at_cur, f.enc, masked x f.predicted byte f.small, tr.u2l, st, find_bucket_lem b, ew);
        holds = hw;
        model = keep-IsModel 0 n small m;
        decoded = λ more out before inside fit.
            let (eg, t, et) = read_word n l small b.best more before in
            (
              t,
              rw (find_bucket_lem b, eg, cast, st, tr.l2u, f.dec, store_lem out dst x inside, et),
            );
      }

  pub byte_next :
      (i dst a : ℕ)
      → 0 < i
      → i < width
      → a < 256
      → get_elem? cur (i * 4 + dst) ≡ some x
      → get_elem? cur (i * 4 - 4 + dst) ≡ some a
      → Above pe pd (i * 4 + dst)
      → ByteCoded width bs
          (i * 4 + dst)
          x
          (λ out. get_elem? out ((i - 1) * 4 + dst) ≡ some a)
          (encode_byte (init 8) pe cur 255 dst i w c)
          (λ r out. decode_byte (init 8) pd 255 4 dst i r c out)
  unfolding encode_byte decode_byte decode_residual index
  byte_next i dst a pos inside left_byte at_cur at_left above =
      let f = next_lem a x left_byte byte above in
      let n = residual_of x f.predicted in
      let tr = residual x f.predicted byte f.small in
      let small = residual-IsByte x f.predicted byte f.small in
      let (v, ev, hv) = residual_at m (i - 1) (omega (arith, inside)) in
      let b = m.found v hv in
      let st = store_lem c.correlate_row i n (omega (arith, inside, m.row)) in
      let ev' : get_elem? (set c.correlate_row i n) (i - 1) ≡ some v =
        get_elem?-set_ne c.correlate_row i (i - 1) n (λ e. absurd (omega (arith, e, pos))) ∙ ev in
      let cast : n % 2 ^ 8 ≡ n = omega (arith, small) in
      let (w', ew, hw) = write_word n b.bucket.bestcode small b.best h in
      record {
        writer = w';
        chan = keep c i n;
        code = word n b.bucket.bestcode;
        encoded = rw (
          at_cur,
          at_left,
          f.enc,
          masked x f.predicted byte f.small,
          tr.u2l,
          st,
          ev',
          find_bucket_lem b,
          ew,
        );
        holds = hw;
        model = keep-IsModel i n small m;
        decoded = λ more out before room fit.
            let (eg, t, et) = read_word n b.bucket.bestcode small b.best more before in
            (
              t,
              rw (
                ev,
                find_bucket_lem b,
                eg,
                cast,
                st,
                fit,
                tr.l2u,
                f.dec,
                store_lem out (i * 4 + dst) x room,
                et,
              ),
            );
      }
