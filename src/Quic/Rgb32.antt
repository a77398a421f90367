-- ===== src/Quic/Rgb32.antt =====
-- RGB32 images of crates/capsaicin-quic/src/lib.rs: what `decompress_rgb32` and `compress_rgb32` do
-- at a pixel, and at a run of equal pixels.
pub mod Image
pub mod Painted
pub mod Pixels
pub mod Calls
pub mod Agreement
pub mod Alpha
pub mod Rows
pub mod Between
pub mod RoundTrip
pub mod Copies
pub mod Starts
use capsaicin.Base.{
  ℕ, zero, suc, ◌+◌, ◌-◌, ◌*◌, Bool, true, false, Option, none, some, ◌&&◌, List, ltb, leb, ◌==◌,
  if◌then◌else◌,
}
use capsaicin.Base.Outcome.{Outcome, ok, err, index, ◌>>=◌, ◌>>◌, fail_if}
use capsaicin.Quic.{QuicError, short}
use capsaicin.Quic.Words.{bppmask, add_u32}
use capsaicin.Quic.Family.{Family}
use capsaicin.Quic.Stream.{BitReader, BitWriter}
use capsaicin.Quic.State.{CommonState}
use capsaicin.Quic.State.Runs.{decode_state_run, encode_state_run}
use capsaicin.Quic.Model.{ChannelDecoder, store, update_model_at}
use capsaicin.Quic.Plane.{decode_byte_pos0, decode_byte, encode_byte_pos0, encode_byte}
use capsaicin.Quic.Segment.{Steps}

pub record Channels : Type 0 where
  pub chan_r : ChannelDecoder
  pub chan_g : ChannelDecoder
  pub chan_b : ChannelDecoder

-- The decoder's state in a row.
pub record Decoding : Type 0 where
  pub reader : BitReader
  pub chans : Channels
  pub cur_bgra : List ℕ

-- The encoder's state in a row.
pub record Encoding : Type 0 where
  pub writer : BitWriter
  pub chans : Channels

unfoldable pub update_models_at : Family → CommonState → Channels → ℕ → Outcome QuicError Channels
update_models_at f state cs i = do
  chan_r ← update_model_at f state cs.chan_r i
  chan_g ← update_model_at f state cs.chan_g i
  chan_b ← update_model_at f state cs.chan_b i
  ok (record { chan_r = chan_r; chan_g = chan_g; chan_b = chan_b })

-- Whether the BGR bytes of two pixels are equal.
unfoldable pub same_bgr : List ℕ → ℕ → List ℕ → ℕ → Outcome QuicError Bool
same_bgr a ai b bi = do
  a0 ← index a (ai * 4)
  b0 ← index b (bi * 4)
  let second = (do
    a1 ← index a (ai * 4 + 1)
    b1 ← index b (bi * 4 + 1)
    let third = (do a2 ← index a (ai * 4 + 2); b2 ← index b (bi * 4 + 2); ok (a2 == b2))
    if a1 == b1 then third else ok false)
  if a0 == b0 then second else ok false

-- `run_index == j as i64`, where `none` stands for -1.
unfoldable pub is_run_index : Option ℕ → ℕ → Bool
is_run_index none j = false
is_run_index (some k) j = k == j

unfoldable pub rle_match : Option (List ℕ) → List ℕ → ℕ → Option ℕ → Outcome QuicError Bool
rle_match none cur j run_index = ok false
rle_match (some prev) cur j run_index =
    let check = (do
      above ← same_bgr prev (j - 1) prev j
      let left = same_bgr cur (j - 1) cur (j - 2)
      if above then left else ok false) in
    if leb j 2 then ok false else if is_run_index run_index j then ok false else check

-- The encoder's copy of `rle_match`.
abbrev pub encode_rle_match : Option (List ℕ) → List ℕ → ℕ → Option ℕ → Outcome QuicError Bool
encode_rle_match prev cur j run_index = rle_match prev cur j run_index

-- `for k in start..end`
unfoldable pub do_run_copy_rgb32 : ℕ → List ℕ → ℕ → Outcome QuicError (List ℕ)
do_run_copy_rgb32 zero cur k = ok cur
do_run_copy_rgb32 (suc rounds) cur k = do
  b ← index cur ((k - 1) * 4)
  cur ← store cur (k * 4) b
  g ← index cur ((k - 1) * 4 + 1)
  cur ← store cur (k * 4 + 1) g
  r ← index cur ((k - 1) * 4 + 2)
  cur ← store cur (k * 4 + 2) r
  cur ← store cur (k * 4 + 3) 0
  do_run_copy_rgb32 rounds cur (k + 1)

unfoldable pub decode_one_pixel_pos0 :
    Family → Option (List ℕ) → Decoding → Outcome QuicError Decoding
decode_one_pixel_pos0 f prev d = do
  cur ← store d.cur_bgra 3 0
  (r, chan_r, cur) ← decode_byte_pos0 f prev 2 d.reader d.chans.chan_r cur
  (r, chan_g, cur) ← decode_byte_pos0 f prev 1 r d.chans.chan_g cur
  (r, chan_b, cur) ← decode_byte_pos0 f prev 0 r d.chans.chan_b cur
  ok (record {
    reader = r;
    chans = record { chan_r = chan_r; chan_g = chan_g; chan_b = chan_b };
    cur_bgra = cur;
  })

unfoldable pub decode_one_pixel :
    Family → Option (List ℕ) → Decoding → ℕ → Outcome QuicError Decoding
decode_one_pixel f prev d i = do
  let mask = bppmask f.bpc
  cur ← store d.cur_bgra (i * 4 + 3) 0
  (r, chan_r, cur) ← decode_byte f prev mask 4 2 i d.reader d.chans.chan_r cur
  (r, chan_g, cur) ← decode_byte f prev mask 4 1 i r d.chans.chan_g cur
  (r, chan_b, cur) ← decode_byte f prev mask 4 0 i r d.chans.chan_b cur
  ok (record {
    reader = r;
    chans = record { chan_r = chan_r; chan_g = chan_g; chan_b = chan_b };
    cur_bgra = cur;
  })

-- A run: its length is read and its pixels are copies of the one before.
unfoldable pub decode_run :
    CommonState → Decoding → ℕ → ℕ → Outcome QuicError (CommonState × Decoding × ℕ)
decode_run state d j end = do
  (r, state, run_len) ← decode_state_run d.reader state
  run_end ← add_u32 j run_len
  fail_if (ltb end run_end) (short (run_end - end) 0)
  cur ← do_run_copy_rgb32 (run_end - j) d.cur_bgra j
  ok (state, record d { reader = r; cur_bgra = cur }, run_end)

unfoldable pub decode_steps : Family → Option (List ℕ) → Steps Decoding
decode_steps f prev = record {
  first = decode_one_pixel_pos0 f prev;
  pixel = decode_one_pixel f prev;
  update = λ state d i. do
    chans ← update_models_at f state d.chans i
    ok (record d { chans = chans });
  starts = λ d j run_index. rle_match prev d.cur_bgra j run_index;
  run = decode_run;
}

unfoldable pub encode_one_pixel_pos0 :
    Family → Option (List ℕ) → List ℕ → Encoding → Outcome QuicError Encoding
encode_one_pixel_pos0 f prev cur e = do
  (w, chan_r) ← encode_byte_pos0 f prev cur 2 e.writer e.chans.chan_r
  (w, chan_g) ← encode_byte_pos0 f prev cur 1 w e.chans.chan_g
  (w, chan_b) ← encode_byte_pos0 f prev cur 0 w e.chans.chan_b
  ok (record { writer = w; chans = record { chan_r = chan_r; chan_g = chan_g; chan_b = chan_b } })

unfoldable pub encode_one_pixel :
    Family → Option (List ℕ) → List ℕ → Encoding → ℕ → Outcome QuicError Encoding
encode_one_pixel f prev cur e i = do
  let mask = bppmask f.bpc
  (w, chan_r) ← encode_byte f prev cur mask 2 i e.writer e.chans.chan_r
  (w, chan_g) ← encode_byte f prev cur mask 1 i w e.chans.chan_g
  (w, chan_b) ← encode_byte f prev cur mask 0 i w e.chans.chan_b
  ok (record { writer = w; chans = record { chan_r = chan_r; chan_g = chan_g; chan_b = chan_b } })

-- `while j < end && same_bgr(cur, j, cur, j - 1)`: the number of rounds.
unfoldable pub run_size : ℕ → List ℕ → ℕ → Outcome QuicError ℕ
run_size zero cur j = ok 0
run_size (suc left) cur j = do
  same ← same_bgr cur j cur (j - 1)
  let more = (do n ← run_size left cur (j + 1); ok (n + 1))
  if same then more else ok 0

unfoldable pub encode_run :
    List ℕ → CommonState → Encoding → ℕ → ℕ → Outcome QuicError (CommonState × Encoding × ℕ)
encode_run cur state e j end = do
  n ← run_size (end - j) cur j
  (w, state) ← encode_state_run e.writer state n
  ok (state, record e { writer = w }, j + n)

unfoldable pub encode_steps : Family → Option (List ℕ) → List ℕ → Steps Encoding
encode_steps f prev cur = record {
  first = encode_one_pixel_pos0 f prev cur;
  pixel = encode_one_pixel f prev cur;
  update = λ state e i. do
    chans ← update_models_at f state e.chans i
    ok (record e { chans = chans });
  starts = λ e j run_index. encode_rle_match prev cur j run_index;
  run = encode_run cur;
}
