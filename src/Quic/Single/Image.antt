-- ===== src/Quic/Single/Image.antt =====
-- `decompress_gray` and `decompress_rgba` of crates/capsaicin-quic/src/lib.rs.
use capsaicin.Base.{ℕ, ◌*◌, Option, none, some, List, [], ◌∷◌, replicate}
use capsaicin.Base.Outcome.{Outcome, ok, ◌>>=◌}
use capsaicin.Quic.{QuicError, validate_dims}
use capsaicin.Quic.Family.{Family, init}
use capsaicin.Quic.Stream.{BitReader, new_after_header}
use capsaicin.Quic.State.{CommonState, default, reset_rle}
use capsaicin.Quic.Model.{ChannelDecoder, new_channel}
use capsaicin.Quic.Segment.{row}
use capsaicin.Quic.Rgb32.Image.{concat, next_row, new_channels, decompress_rgb_phase}
use capsaicin.Quic.Single.{Single, alpha_steps, gray_steps}

abbrev pub decompress_alpha_row :
    Family → Option (List ℕ) → CommonState → Single → ℕ → Outcome QuicError (CommonState × Single)
decompress_alpha_row f prev state d width = row (alpha_steps f prev) state d width

abbrev pub decompress_gray_row :
    Family → Option (List ℕ) → CommonState → Single → ℕ → Outcome QuicError (CommonState × Single)
decompress_gray_row f prev state d width = row (gray_steps f prev) state d width

-- The rows that are given by their bytes so far, each decoded below the one before.
unfoldable pub decompress_single_phase :
    (Option (List ℕ) → CommonState → Single → ℕ → Outcome QuicError (CommonState × Single))
    → ℕ
    → Option (List ℕ)
    → CommonState
    → BitReader
    → ChannelDecoder
    → List (List ℕ)
    → Outcome QuicError (List (List ℕ))
decompress_single_phase decode_row width prev state r chan [] = ok []
decompress_single_phase decode_row width prev state r chan (cur ∷ rows) = do
  (state, d) ← decode_row prev state (record { reader = r; chan = chan; cur = cur }) width
  chan ← next_row d.chan
  out ← decompress_single_phase decode_row width (some d.cur) state d.reader chan rows
  ok (d.cur ∷ out)

abbrev pub decompress_alpha_phase :
    Family
    → CommonState
    → BitReader
    → ChannelDecoder
    → List (List ℕ)
    → ℕ
    → Outcome QuicError (List (List ℕ))
decompress_alpha_phase f state r chan rows width =
    decompress_single_phase (decompress_alpha_row f) width none state r chan rows

abbrev pub decompress_gray_phase :
    Family
    → CommonState
    → BitReader
    → ChannelDecoder
    → List (List ℕ)
    → ℕ
    → Outcome QuicError (List (List ℕ))
decompress_gray_phase f state r chan rows width =
    decompress_single_phase (decompress_gray_row f) width none state r chan rows

-- Gray bytes as BGRA pixels.
unfoldable pub gray_to_bgra : List ℕ → List ℕ
gray_to_bgra [] = []
gray_to_bgra (g ∷ gray) = g ∷ g ∷ g ∷ 0xFF ∷ gray_to_bgra gray

unfoldable pub decompress_gray : List ℕ → ℕ → ℕ → Outcome QuicError (List ℕ)
decompress_gray stream width height = do
  bytes ← validate_dims width height 4
  r ← new_after_header stream
  chan ← new_channel 8 width
  gray ←
      decompress_gray_phase (init 8) (reset_rle default) r chan
        (replicate height (replicate width 0)) width
  ok (gray_to_bgra (concat gray))

-- The alpha bytes have a coder of their own, behind the colours in the stream.
unfoldable pub decompress_rgba : List ℕ → ℕ → ℕ → Outcome QuicError (List ℕ)
decompress_rgba stream width height = do
  bytes ← validate_dims width height 4
  r ← new_after_header stream
  chans ← new_channels 8 width
  (r, out) ←
      decompress_rgb_phase (init 8) width none (reset_rle default) r chans
        (replicate height (replicate (width * 4) 0))
  chan_a ← new_channel 8 width
  out ← decompress_alpha_phase (init 8) (reset_rle default) r chan_a out width
  ok (concat out)
