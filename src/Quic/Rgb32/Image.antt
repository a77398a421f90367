-- ===== src/Quic/Rgb32/Image.antt =====
-- `decompress_rgb32` and `compress_rgb32` of crates/capsaicin-quic/src/lib.rs. The decoder's buffer is
-- the list of its rows.
use capsaicin.Base.{
  ℕ, zero, suc, ◌+◌, ◌*◌, ◌^◌, Option, none, some, ◌&&◌, List, [], ◌∷◌, ◌++◌, ltb, ◌==◌,
  if◌then◌else◌, length, replicate,
}
use capsaicin.Base.Outcome.{Outcome, ok, panic, index, slice, ◌>>=◌}
use capsaicin.Quic.{QuicError, rgb32, validate_dims}
use capsaicin.Quic.Header.{encode}
use capsaicin.Quic.Family.{Family, init}
use capsaicin.Quic.Stream.{BitReader, BitWriter, new, new_after_header, finish}
use capsaicin.Quic.State.{CommonState, default, reset_rle}
use capsaicin.Quic.Model.{ChannelDecoder, new_channel}
use capsaicin.Quic.Segment.{row}
use capsaicin.Quic.Rgb32.{Channels, Decoding, Encoding, decode_steps, encode_steps}

abbrev pub concat : List (List ℕ) → List ℕ
concat [] = []
concat (xs ∷ rows) = xs ++ concat rows

-- `chan.prev_minus1 = chan.correlate_row[0]`
unfoldable pub next_row : ChannelDecoder → Outcome QuicError ChannelDecoder
next_row c = do v ← index c.correlate_row 0; ok (record c { prev_minus1 = v })

unfoldable pub next_rows : Channels → Outcome QuicError Channels
next_rows cs = do
  chan_r ← next_row cs.chan_r
  chan_g ← next_row cs.chan_g
  chan_b ← next_row cs.chan_b
  ok (record { chan_r = chan_r; chan_g = chan_g; chan_b = chan_b })

unfoldable pub new_channels : ℕ → ℕ → Outcome QuicError Channels
new_channels bpc width = do
  chan_r ← new_channel bpc width
  chan_g ← new_channel bpc width
  chan_b ← new_channel bpc width
  ok (record { chan_r = chan_r; chan_g = chan_g; chan_b = chan_b })

abbrev pub decompress_row_rgb32 :
    Family
    → Option (List ℕ)
    → CommonState
    → Decoding
    → ℕ
    → Outcome QuicError (CommonState × Decoding)
decompress_row_rgb32 f prev state d width = row (decode_steps f prev) state d width

-- The rows of the image that are given by their bytes so far, each decoded below the one before.
unfoldable pub decompress_rgb_phase :
    Family
    → ℕ
    → Option (List ℕ)
    → CommonState
    → BitReader
    → Channels
    → List (List ℕ)
    → Outcome QuicError (BitReader × List (List ℕ))
decompress_rgb_phase f width prev state r chans [] = ok (r, [])
decompress_rgb_phase f width prev state r chans (cur ∷ rows) = do
  (state, d) ←
      row (decode_steps f prev) state (record { reader = r; chans = chans; cur_bgra = cur }) width
  chans ← next_rows d.chans
  (r, out) ← decompress_rgb_phase f width (some d.cur_bgra) state d.reader chans rows
  ok (r, d.cur_bgra ∷ out)

unfoldable pub decompress_rgb32 : List ℕ → ℕ → ℕ → Outcome QuicError (List ℕ)
decompress_rgb32 stream width height = do
  bytes ← validate_dims width height 4
  r ← new_after_header stream
  let family = init 8
  chans ← new_channels 8 width
  (r, out) ←
      decompress_rgb_phase family width none (reset_rle default) r chans
        (replicate height (replicate (width * 4) 0))
  ok (concat out)

abbrev pub compress_row_rgb32 :
    Family
    → Option (List ℕ)
    → List ℕ
    → CommonState
    → Encoding
    → ℕ
    → Outcome QuicError (CommonState × Encoding)
compress_row_rgb32 f prev cur state e width = row (encode_steps f prev cur) state e width

-- `for row in ..height`, with the row above.
unfoldable pub compress_rows :
    Family
    → ℕ
    → List ℕ
    → ℕ
    → ℕ
    → Option (List ℕ)
    → CommonState
    → BitWriter
    → Channels
    → Outcome QuicError BitWriter
compress_rows f width pixels zero n prev state w chans = ok w
compress_rows f width pixels (suc left) n prev state w chans = do
  cur ← slice pixels (n * (width * 4)) ((n + 1) * (width * 4))
  (state, e) ← compress_row_rgb32 f prev cur state (record { writer = w; chans = chans }) width
  chans ← next_rows e.chans
  compress_rows f width pixels left (n + 1) (some cur) state e.writer chans

-- The first row is coded whatever the height is.
unfoldable pub compress_rgb32 : List ℕ → ℕ → ℕ → Outcome QuicError (List ℕ)
compress_rgb32 pixels width height =
    let rows = (if height == 0 then 1 else height) in
    let body = (do
      chans ← new_channels 8 width
      w ← compress_rows (init 8) width pixels rows 0 none (reset_rle default) new chans
      ok (encode (record { image_type = rgb32; width = width; height = height }) [] ++ finish w)) in
    if ltb (width * height * 4) (2 ^ 32) && (length pixels == width * height * 4)
    then body
    else panic
