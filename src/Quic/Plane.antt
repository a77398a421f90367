-- ===== src/Quic/Plane.antt =====
-- One channel of one pixel, for the images of crates/capsaicin-quic/src/lib.rs whose channels are
-- bytes: the rounds of the loops over the channels in `decode_one_pixel_pos0`, `decode_one_pixel`,
-- `encode_one_pixel_pos0` and `encode_one_pixel`, and `decode_alpha_pixel_pos0`,
-- `decode_alpha_pixel`, `decode_gray_pixel`. A pixel has `size` bytes, the channel's is at `dst`.
pub mod Channel
pub mod Codewords
use Prim.Native.Nat.{bit_and}
use capsaicin.Base.{ℕ, ◌+◌, ◌-◌, ◌*◌, ◌/◌, ◌%◌, ◌^◌, Option, none, some, List, if◌then◌else◌}
use capsaicin.Base.Outcome.{Outcome, ok, index, ◌>>=◌}
use capsaicin.Quic.{QuicError}
use capsaicin.Quic.Words.{wrapping_sub}
use capsaicin.Quic.Family.{Family, golomb_decode, golomb_encode}
use capsaicin.Quic.Stream.{BitReader, BitWriter, peek32, eat, write}
use capsaicin.Quic.Model.{ChannelDecoder, find_bucket, store}

-- The residual at the reader's position, its codeword's length, and the channel that has kept it.
unfoldable pub decode_residual :
    Family → BitReader → ChannelDecoder → ℕ → ℕ → Outcome QuicError (ℕ × ℕ × ChannelDecoder)
decode_residual f r c i bucket_val = do
  bucket ← find_bucket c bucket_val
  let (residual, cwlen) = golomb_decode f bucket.bestcode (peek32 r)
  correlate_row ← store c.correlate_row i (residual % 2 ^ 8)
  ok (residual, cwlen, record c { correlate_row = correlate_row })

-- The byte at position 0, from the translated residual and the row above.
unfoldable pub first_value : Option (List ℕ) → ℕ → ℕ → Outcome QuicError ℕ
first_value none dst u = ok (u % 2 ^ 8)
first_value (some prev) dst u = do b ← index prev dst; ok (bit_and (u + b) 0xFF % 2 ^ 8)

-- The byte at another position, from the byte `a` to its left and the row above.
unfoldable pub next_value : Option (List ℕ) → ℕ → ℕ → ℕ → ℕ → Outcome QuicError ℕ
next_value none mask pos a u = ok (bit_and (u + a) mask % 2 ^ 8)
next_value (some prev) mask pos a u = do
  b ← index prev pos
  ok (bit_and (u + (a + b) / 2) mask % 2 ^ 8)

unfoldable pub decode_byte_pos0 :
    Family
    → Option (List ℕ)
    → ℕ
    → BitReader
    → ChannelDecoder
    → List ℕ
    → Outcome QuicError (BitReader × ChannelDecoder × List ℕ)
unfolding decode_residual first_value
decode_byte_pos0 f prev dst r c cur = do
  (residual, cwlen, c) ← decode_residual f r c 0 c.prev_minus1
  u ← index f.xlat_l2u residual
  value ← first_value prev dst u
  cur ← store cur dst value
  r ← eat r cwlen
  ok (r, c, cur)

unfoldable pub decode_byte :
    Family
    → Option (List ℕ)
    → ℕ
    → ℕ
    → ℕ
    → ℕ
    → BitReader
    → ChannelDecoder
    → List ℕ
    → Outcome QuicError (BitReader × ChannelDecoder × List ℕ)
unfolding decode_residual next_value
decode_byte f prev mask size dst i r c cur = do
  bucket_val ← index c.correlate_row (i - 1)
  (residual, cwlen, c) ← decode_residual f r c i bucket_val
  a ← index cur ((i - 1) * size + dst)
  u ← index f.xlat_l2u residual
  value ← next_value prev mask (i * size + dst) a u
  cur ← store cur (i * size + dst) value
  r ← eat r cwlen
  ok (r, c, cur)

-- What the encoder expects at position 0, and at another position.
unfoldable pub first_predicted : Option (List ℕ) → ℕ → Outcome QuicError ℕ
first_predicted none dst = ok 0
first_predicted (some prev) dst = index prev dst

unfoldable pub next_predicted : Option (List ℕ) → ℕ → ℕ → Outcome QuicError ℕ
next_predicted none pos a = ok a
next_predicted (some prev) pos a = do b ← index prev pos; ok ((a + b) / 2)

unfoldable pub encode_byte_pos0 :
    Family
    → Option (List ℕ)
    → List ℕ
    → ℕ
    → BitWriter
    → ChannelDecoder
    → Outcome QuicError (BitWriter × ChannelDecoder)
unfolding first_predicted
encode_byte_pos0 f prev cur dst w c = do
  cur_val ← index cur dst
  predicted ← first_predicted prev dst
  residual ← index f.xlat_u2l (bit_and (wrapping_sub cur_val predicted) 0xFF)
  correlate_row ← store c.correlate_row 0 residual
  bucket ← find_bucket c c.prev_minus1
  let (codeword, len) = golomb_encode f residual bucket.bestcode
  w ← write w codeword len
  ok (w, record c { correlate_row = correlate_row })

unfoldable pub encode_byte :
    Family
    → Option (List ℕ)
    → List ℕ
    → ℕ
    → ℕ
    → ℕ
    → BitWriter
    → ChannelDecoder
    → Outcome QuicError (BitWriter × ChannelDecoder)
unfolding next_predicted
encode_byte f prev cur mask dst i w c = do
  cur_val ← index cur (i * 4 + dst)
  a ← index cur (i * 4 - 4 + dst)
  predicted ← next_predicted prev (i * 4 + dst) a
  residual ← index f.xlat_u2l (bit_and (wrapping_sub cur_val predicted) mask)
  correlate_row ← store c.correlate_row i residual
  bucket_val ← index correlate_row (i - 1)
  bucket ← find_bucket c bucket_val
  let (codeword, len) = golomb_encode f residual bucket.bestcode
  w ← write w codeword len
  ok (w, record c { correlate_row = correlate_row })
