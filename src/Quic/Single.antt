-- ===== src/Quic/Single.antt =====
-- The decoders of one channel in crates/capsaicin-quic/src/lib.rs: gray images, and the alpha bytes
-- that are laid over an RGB32 image.
pub mod Image
use Prim.Native.Nat.{bit_and}
use capsaicin.Base.{ℕ, ◌+◌, ◌%◌, ◌^◌, Option, none, some, List, false}
use capsaicin.Base.Outcome.{Outcome, ok, panic, index, ◌>>=◌}
use capsaicin.Quic.{QuicError}
use capsaicin.Quic.Words.{bppmask}
use capsaicin.Quic.Family.{Family}
use capsaicin.Quic.Stream.{BitReader, eat}
use capsaicin.Quic.Model.{ChannelDecoder, store, update_model_at}
use capsaicin.Quic.Plane.{decode_residual, decode_byte_pos0, decode_byte}
use capsaicin.Quic.Segment.{Steps}

pub record Single : Type 0 where
  pub reader : BitReader
  pub chan : ChannelDecoder
  pub cur : List ℕ

unfoldable pub decode_alpha_pixel_pos0 :
    Family → Option (List ℕ) → Single → Outcome QuicError Single
decode_alpha_pixel_pos0 f prev d = do
  (r, chan, cur) ← decode_byte_pos0 f prev 3 d.reader d.chan d.cur
  ok (record { reader = r; chan = chan; cur = cur })

unfoldable pub decode_alpha_pixel : Family → Option (List ℕ) → Single → ℕ → Outcome QuicError Single
decode_alpha_pixel f prev d i = do
  (r, chan, cur) ← decode_byte f prev (bppmask f.bpc) 4 3 i d.reader d.chan d.cur
  ok (record { reader = r; chan = chan; cur = cur })

-- The first byte of a gray row, from the translated residual and the row above.
unfoldable pub first_gray : Option (List ℕ) → ℕ → ℕ → Outcome QuicError ℕ
first_gray none mask u = ok (u % 2 ^ 8)
first_gray (some prev) mask u = do b ← index prev 0; ok (bit_and (u + b) mask % 2 ^ 8)

unfoldable pub decode_gray_pixel_pos0 : Family → Option (List ℕ) → Single → Outcome QuicError Single
decode_gray_pixel_pos0 f prev d = do
  (residual, cwlen, chan) ← decode_residual f d.reader d.chan 0 d.chan.prev_minus1
  u ← index f.xlat_l2u residual
  value ← first_gray prev (bppmask f.bpc) u
  cur ← store d.cur 0 value
  r ← eat d.reader cwlen
  ok (record { reader = r; chan = chan; cur = cur })

unfoldable pub decode_gray_pixel : Family → Option (List ℕ) → Single → ℕ → Outcome QuicError Single
decode_gray_pixel f prev d i = do
  (r, chan, cur) ← decode_byte f prev (bppmask f.bpc) 1 0 i d.reader d.chan d.cur
  ok (record { reader = r; chan = chan; cur = cur })

-- The loops of `decompress_alpha_seg` and `decompress_gray_seg`, which have no runs.
unfoldable pub alpha_steps : Family → Option (List ℕ) → Steps Single
alpha_steps f prev = record {
  first = decode_alpha_pixel_pos0 f prev;
  pixel = decode_alpha_pixel f prev;
  update = λ state d i. do
    chan ← update_model_at f state d.chan i
    ok (record d { chan = chan });
  starts = λ d j run_index. ok false;
  run = λ state d j end. panic;
}

unfoldable pub gray_steps : Family → Option (List ℕ) → Steps Single
gray_steps f prev = record {
  first = decode_gray_pixel_pos0 f prev;
  pixel = decode_gray_pixel f prev;
  update = λ state d i. do
    chan ← update_model_at f state d.chan i
    ok (record d { chan = chan });
  starts = λ d j run_index. ok false;
  run = λ state d j end. panic;
}
