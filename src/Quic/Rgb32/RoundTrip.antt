-- ===== src/Quic/Rgb32/RoundTrip.antt =====
-- `decompress_rgb32` against `compress_rgb32`, whole images.
use capsaicin.Base.{
  ℕ, ◌*◌, ◌^◌, ◌≤◌, ◌<◌, ◌≡◌, refl, ◌∙◌, ap, true, false, none, List, [], ◌++◌, arith, length, drop,
  replicate, All, IsByte, ◌==◌, le→ltb, lt→ltb, length-append, length-to_le_bytes,
}
use capsaicin.Base.Outcome.{ok}
use capsaicin.Quic.{rgb32, validate_dims}
use capsaicin.Quic.Header.{QuicHeader, decode, encode}
use capsaicin.Quic.Header.RoundTrip.{quic_header_roundtrip}
use capsaicin.Quic.Family.{init}
use capsaicin.Quic.Stream.{BitReader, BitWriter, new, new_after_header, finish}
use capsaicin.Quic.Stream.Writes.{new-Holds, finish-Finished}
use capsaicin.Quic.State.{default, reset_rle, set_melcstate, set_wm_trigger}
use capsaicin.Quic.Model.Fresh.{new_channel-IsModel}
use capsaicin.Quic.Segment.Whole.{IsRowState}
use capsaicin.Quic.Rgb32.{Channels}
use capsaicin.Quic.Rgb32.Image.{
  concat, new_channels, compress_rows, compress_rgb32, decompress_rgb_phase, decompress_rgb32,
}
use capsaicin.Quic.Rgb32.Painted.{top}
use capsaicin.Quic.Rgb32.Calls.{AreModels}
use capsaicin.Quic.Rgb32.Rows.{rows_lem}
use capsaicin.Quic.Rgb32.Alpha.{erase_alpha}

-- The header of an image.
abbrev pub rgb32_header : ℕ → ℕ → QuicHeader
rgb32_header width height = record { image_type = rgb32; width = width; height = height }

validate_dims_lem :
    (width height : ℕ)
    → 0 < width
    → width ≤ 16384
    → 0 < height
    → height ≤ 16384
    → width * height * 4 ≤ 64 * 1024 * 1024
    → validate_dims width height 4 ≡ ok (width * height * 4)
unfolding validate_dims
validate_dims_lem width height a b c d e =
    let t0 : (width == 0) ≡ false = ground arith in
    let t1 : (height == 0) ≡ false = ground arith in
    rw (
      t0,
      t1,
      le→ltb 16384 width b,
      le→ltb 16384 height d,
      lt→ltb (width * height) (2 ^ 64) (omega (arith, e)),
      lt→ltb (width * height * 4) (2 ^ 64) (omega (arith, e)),
      le→ltb (64 * 1024 * 1024) (width * height * 4) e,
    )

new_channels_lem :
    (width : ℕ) → (cs : Channels) × (new_channels 8 width ≡ ok cs) × AreModels width cs
unfolding new_channels
new_channels_lem width =
    let (c, e, m) = new_channel-IsModel width in
    (record { chan_r = c; chan_g = c; chan_b = c }, rw e, record { r = m; g = m; b = m })

start_state : IsRowState (reset_rle default)
unfolding reset_rle default set_melcstate set_wm_trigger
start_state = record {
  melc = record { within = omega arith; len = refl; order = refl };
  wait = omega arith;
  idx = omega arith;
}

length-header : (h : QuicHeader) → length (encode h []) ≡ 20
unfolding encode
length-header h = simp (length-append, length-to_le_bytes)

new_after_header_lem :
    (h : QuicHeader) (body : List ℕ)
    → new_after_header (encode h [] ++ body)
      ≡ ok (record { bytes = encode h [] ++ body; body_start = 20; bit_pos = 0 })
unfolding new_after_header
new_after_header_lem h body =
    let t =
      le→ltb (length (encode h [] ++ body)) 20
        (omega (arith, length-append (encode h []) body, length-header h)) in
    rw t

compress_lem :
    (pixels : List ℕ) (width height : ℕ) {cs : Channels} {w : BitWriter}
    → 0 < height
    → width * height * 4 < 2 ^ 32
    → length pixels ≡ width * height * 4
    → new_channels 8 width ≡ ok cs
    → compress_rows (init 8) width pixels height 0 none (reset_rle default) new cs ≡ ok w
    → compress_rgb32 pixels width height ≡ ok (encode (rgb32_header width height) [] ++ finish w)
unfolding compress_rgb32
compress_lem pixels width height a b c d e =
    let t0 : (height == 0) ≡ false = ground arith in
    let t1 : (length pixels == width * height * 4) ≡ true = ground arith in
    rw (t0, lt→ltb (width * height * 4) (2 ^ 32) b, t1, d, e)

decompress_lem :
    (stream : List ℕ) (width height : ℕ) {n : ℕ} {r r' : BitReader} {cs : Channels}
    {out : List (List ℕ)}
    → validate_dims width height 4 ≡ ok n
    → new_after_header stream ≡ ok r
    → new_channels 8 width ≡ ok cs
    → decompress_rgb_phase
        (init 8)
        width
        none
        (reset_rle default)
        r
        cs
        (replicate height (replicate (width * 4) 0))
      ≡ ok (r', out)
    → decompress_rgb32 stream width height ≡ ok (concat out)
unfolding decompress_rgb32
decompress_lem stream width height a b c d = rw (a, b, c, d)

-- An image of at most 16384 by 16384 pixels and 64 MiB is compressed; the stream's header has the
-- image's dimensions, and decompressing the stream gives every pixel's colours back, with zero for
-- its alpha byte.
pub rgb32_roundtrip :
    (pixels : List ℕ) (width height : ℕ)
    → 0 < width
    → width ≤ 16384
    → 0 < height
    → height ≤ 16384
    → width * height * 4 ≤ 64 * 1024 * 1024
    → length pixels ≡ width * height * 4
    → All IsByte pixels
    → (stream : List ℕ) × (compress_rgb32 pixels width height ≡ ok stream)
      × (decode stream ≡ ok (rgb32_header width height))
      × (decompress_rgb32 stream width height ≡ ok (erase_alpha pixels))
rgb32_roundtrip pixels width height a b c d e size bytes =
    let h = rgb32_header width height in
    let (cs, qc, models) = new_channels_lem width in
    let turned : width * height * 4 ≡ height * (width * 4) = omega arith in
    let rows =
      rows_lem width height pixels (size ∙ turned) bytes a b height 0 (reset_rle default) new cs []
        (omega arith) top start_state new-Holds models in
    let f = finish-Finished rows.holds in
    let stream = encode h [] ++ finish rows.writer in
    let r : BitReader = record { bytes = stream; body_start = 20; bit_pos = 0 } in
    let (r', out, q, same) = rows.decoded f.ws f.padding r (record {
      reading = record {
        head = encode h [];
        length_head = length-header h;
        stream = ap (λ (t : List ℕ). encode h [] ++ t) f.stream;
        start = refl;
        words = f.words;
      };
      position = refl;
      split = f.bits;
    }) in
    (
      stream,
      compress_lem pixels width height c (omega (arith, e)) size qc rows.encoded,
      quic_header_roundtrip h (finish rows.writer)
          (record { width = omega (arith, b); height = omega (arith, d) }),
      decompress_lem stream width height (validate_dims_lem width height a b c d e)
            (new_after_header_lem h (finish rows.writer)) qc q
          ∙ ap ok (same ∙ ap erase_alpha (whole width)),
    )
  where
    whole : (width : ℕ) → drop (0 * (width * 4)) pixels ≡ pixels
    whole width = let z : 0 * (width * 4) ≡ 0 = omega arith in ap (λ (k : ℕ). drop k pixels) z
