-- ===== src/Quic/Rgb16.antt =====
-- RGB16 images of crates/capsaicin-quic/src/lib.rs: what `decompress_rgb16` does at a pixel, and the
-- whole image. A pixel is a `u16` of three channels with 5 bits each.
use Prim.Native.Nat.{bit_and, bit_or}
use capsaicin.Base.{
  ℕ, ◌+◌, ◌-◌, ◌*◌, ◌/◌, ◌%◌, ◌^◌, Option, none, some, List, [], ◌∷◌, false, replicate,
}
use capsaicin.Base.Outcome.{Outcome, ok, panic, index, ◌>>=◌}
use capsaicin.Quic.{QuicError, validate_dims}
use capsaicin.Quic.Words.{bppmask}
use capsaicin.Quic.Family.{Family, init}
use capsaicin.Quic.Stream.{BitReader, new_after_header, eat}
use capsaicin.Quic.State.{CommonState, default, reset_rle}
use capsaicin.Quic.Model.{ChannelDecoder, store}
use capsaicin.Quic.Plane.{decode_residual}
use capsaicin.Quic.Segment.{Steps, row}
use capsaicin.Quic.Rgb32.{Channels, update_models_at}
use capsaicin.Quic.Rgb32.Image.{concat, next_rows, new_channels}

pub record Packing : Type 0 where
  pub reader : BitReader
  pub chans : Channels
  pub cur : List ℕ

unfoldable pub rgb16_get : ℕ → ℕ → ℕ
rgb16_get p channel = bit_and (p / 2 ^ (channel * 5)) 0x1f

unfoldable pub rgb16_set : ℕ → ℕ → ℕ → ℕ
rgb16_set p channel val =
    let shift = channel * 5 in
    bit_or (bit_and p (2 ^ 16 - 1 - 0x1f * 2 ^ shift)) (bit_and (val % 2 ^ 16) 0x1f * 2 ^ shift)

-- The value of a channel at position 0, and at another position with the value `a` to its left.
unfoldable pub first_channel : Option (List ℕ) → ℕ → ℕ → Outcome QuicError ℕ
first_channel none ch_idx u = ok (bit_and u 0x1f)
first_channel (some prev) ch_idx u = do b ← index prev 0; ok (bit_and (u + rgb16_get b ch_idx) 0x1f)

unfoldable pub next_channel : Option (List ℕ) → ℕ → ℕ → ℕ → ℕ → ℕ → Outcome QuicError ℕ
next_channel none mask ch_idx i a u = ok (bit_and (u + a) mask)
next_channel (some prev) mask ch_idx i a u = do
  b ← index prev i
  ok (bit_and (u + (a + rgb16_get b ch_idx) / 2) mask)

-- A round of the loop over the channels.
unfoldable pub decode_channel_pos0 :
    Family
    → Option (List ℕ)
    → ℕ
    → BitReader
    → ChannelDecoder
    → List ℕ
    → Outcome QuicError (BitReader × ChannelDecoder × List ℕ)
decode_channel_pos0 f prev ch_idx r c cur = do
  (residual, cwlen, c) ← decode_residual f r c 0 c.prev_minus1
  u ← index f.xlat_l2u residual
  val ← first_channel prev ch_idx u
  p ← index cur 0
  cur ← store cur 0 (rgb16_set p ch_idx val)
  r ← eat r cwlen
  ok (r, c, cur)

unfoldable pub decode_channel :
    Family
    → Option (List ℕ)
    → ℕ
    → ℕ
    → ℕ
    → BitReader
    → ChannelDecoder
    → List ℕ
    → Outcome QuicError (BitReader × ChannelDecoder × List ℕ)
decode_channel f prev mask ch_idx i r c cur = do
  bucket_val ← index c.correlate_row (i - 1)
  (residual, cwlen, c) ← decode_residual f r c i bucket_val
  left ← index cur (i - 1)
  u ← index f.xlat_l2u residual
  val ← next_channel prev mask ch_idx i (rgb16_get left ch_idx) u
  p ← index cur i
  cur ← store cur i (rgb16_set p ch_idx val)
  r ← eat r cwlen
  ok (r, c, cur)

unfoldable pub decode_rgb16_pixel_pos0 :
    Family → Option (List ℕ) → Packing → Outcome QuicError Packing
decode_rgb16_pixel_pos0 f prev d = do
  cur ← store d.cur 0 0
  (r, chan_r, cur) ← decode_channel_pos0 f prev 2 d.reader d.chans.chan_r cur
  (r, chan_g, cur) ← decode_channel_pos0 f prev 1 r d.chans.chan_g cur
  (r, chan_b, cur) ← decode_channel_pos0 f prev 0 r d.chans.chan_b cur
  ok (record {
    reader = r;
    chans = record { chan_r = chan_r; chan_g = chan_g; chan_b = chan_b };
    cur = cur;
  })

unfoldable pub decode_rgb16_pixel :
    Family → Option (List ℕ) → Packing → ℕ → Outcome QuicError Packing
decode_rgb16_pixel f prev d i = do
  let mask = bppmask f.bpc
  cur ← store d.cur i 0
  (r, chan_r, cur) ← decode_channel f prev mask 2 i d.reader d.chans.chan_r cur
  (r, chan_g, cur) ← decode_channel f prev mask 1 i r d.chans.chan_g cur
  (r, chan_b, cur) ← decode_channel f prev mask 0 i r d.chans.chan_b cur
  ok (record {
    reader = r;
    chans = record { chan_r = chan_r; chan_g = chan_g; chan_b = chan_b };
    cur = cur;
  })

-- The loop of `decompress_rgb16_seg`, which has no runs.
unfoldable pub rgb16_steps : Family → Option (List ℕ) → Steps Packing
rgb16_steps f prev = record {
  first = decode_rgb16_pixel_pos0 f prev;
  pixel = decode_rgb16_pixel f prev;
  update = λ state d i. do
    chans ← update_models_at f state d.chans i
    ok (record d { chans = chans });
  starts = λ d j run_index. ok false;
  run = λ state d j end. panic;
}

abbrev pub decompress_rgb16_row :
    Family → Option (List ℕ) → CommonState → Packing → ℕ → Outcome QuicError (CommonState × Packing)
decompress_rgb16_row f prev state d width = row (rgb16_steps f prev) state d width

unfoldable pub decompress_rgb16_phase :
    Family
    → ℕ
    → Option (List ℕ)
    → CommonState
    → BitReader
    → Channels
    → List (List ℕ)
    → Outcome QuicError (List (List ℕ))
decompress_rgb16_phase f width prev state r chans [] = ok []
decompress_rgb16_phase f width prev state r chans (cur ∷ rows) = do
  (state, d) ←
      decompress_rgb16_row f prev state (record { reader = r; chans = chans; cur = cur }) width
  chans ← next_rows d.chans
  out ← decompress_rgb16_phase f width (some d.cur) state d.reader chans rows
  ok (d.cur ∷ out)

-- 5 bits as 8, the top bits repeated below.
unfoldable pub widen : ℕ → ℕ
widen v = bit_or (v * 2 ^ 3) (v / 2 ^ 2) % 2 ^ 8

unfoldable pub unpack : List ℕ → List ℕ
unpack [] = []
unpack (p ∷ packed) =
    widen (bit_and p 0x1f)
    ∷ widen (bit_and (p / 2 ^ 5) 0x1f)
    ∷ widen (bit_and (p / 2 ^ 10) 0x1f)
    ∷ 0xFF
    ∷ unpack packed

unfoldable pub decompress_rgb16 : List ℕ → ℕ → ℕ → Outcome QuicError (List ℕ)
decompress_rgb16 stream width height = do
  bytes ← validate_dims width height 4
  r ← new_after_header stream
  chans ← new_channels 5 width
  packed ←
      decompress_rgb16_phase (init 5) width none (reset_rle default) r chans
        (replicate height (replicate width 0))
  ok (unpack (concat packed))
