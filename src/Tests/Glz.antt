-- ===== src/Tests/Glz.antt =====
-- The GLZ codec of crates/capsaicin-glz/src/lib.rs at concrete inputs.
use capsaicin.Base.{
  ◌*◌, ◌↔◌, ◌<◌, length, ℕ, ◌≡◌, refl, true, none, some, List, [], ◌∷◌, ◌++◌, arith, replicate, All,
  IsByte,
}
use capsaicin.Base.Outcome.{ok, panic, index, slice}
use capsaicin.Base.Ensures.{Ensures}
use capsaicin.Lz.{rgb32, to_u32}
use capsaicin.Glz.{validate_dims, checked_mul}
use capsaicin.Glz.Header.{GlzHeader, decode, encode}
use capsaicin.Glz.Header.RoundTrip.{glz_header_roundtrip}
use capsaicin.Glz.Window.{GlzWindow}
use capsaicin.Glz.Decode.{
  decompress_rgb32_inner, decompress_rgb32_intra, decompress_rgb32, decode_loop, token, literal,
  reference, refer_within, refer_across, read_length, extend_len, read_dist, read_target,
  copy_within, copy_within_pixel, copy_across, copy_pixel, find_entry, literal_run, literal_pixel,
  take_byte, store, add_u32,
}
use capsaicin.Glz.Decode.Safety.{decompress_rgb32_inner_lem, IsImage, HasPixels}
use capsaicin.Glz.Decode.Panics.{decompress_rgb32_inner_panics}
use capsaicin.Glz.Decode.Intra.{decompress_rgb32-intra}

abbrev sample_header : GlzHeader
sample_header = record {
  image_type = rgb32;
  top_down = true;
  width = 3;
  height = 1;
  stride = 12;
  id = 7;
  win_head_dist = 0;
}

glz_header_roundtrip_example : decode (encode sample_header [] ++ 7 ∷ []) ≡ ok sample_header
glz_header_roundtrip_example = glz_header_roundtrip sample_header (7 ∷ []) (record {
  width = omega arith;
  height = omega arith;
  stride = omega arith;
  id = omega arith;
  win_head_dist = omega arith;
})

-- A header's place, one literal pixel, and a reference to it that is two pixels long.
abbrev sample : List ℕ
sample = replicate 33 0 ++ 0 ∷ 0xAA ∷ 0xBB ∷ 0xCC ∷ 0x40 ∷ 0 ∷ 0 ∷ []

abbrev decoded : List ℕ
decoded = 0xAA ∷ 0xBB ∷ 0xCC ∷ 0 ∷ 0xAA ∷ 0xBB ∷ 0xCC ∷ 0 ∷ 0xAA ∷ 0xBB ∷ 0xCC ∷ 0 ∷ []

sample_run : decompress_rgb32_intra sample sample_header ≡ ok decoded
unfolding decompress_rgb32_intra decompress_rgb32_inner decode_loop token literal reference
    refer_within refer_across read_length extend_len read_dist read_target copy_within
    copy_within_pixel copy_across copy_pixel find_entry literal_run literal_pixel take_byte store
    add_u32 index slice to_u32 validate_dims checked_mul
sample_run = refl

abbrev window : GlzWindow
window = record {
  images = (5, record { pixels = replicate 8 1; bpp = 4; seq = 0 }) ∷ [];
  bytes_used = 8;
  capacity_bytes = 1024;
  next_seq = 1;
}

decompress_rgb32-intra_example : decompress_rgb32 sample sample_header window ≡ ok decoded
decompress_rgb32-intra_example =
    decompress_rgb32-intra sample sample_header window decoded sample_run

sample_bytes : All IsByte sample
sample_bytes = omega arith

window-HasPixels : HasPixels (some window)
window-HasPixels = record { wide = (omega arith, tt) }

decompress_rgb32_inner_lem_example :
    Ensures (IsImage 3 1) (decompress_rgb32_inner sample sample_header (some window) 7)
decompress_rgb32_inner_lem_example =
    decompress_rgb32_inner_lem sample sample_header (some window) 7 sample_bytes (omega arith)
      (omega arith) window-HasPixels

sample_dims : validate_dims 3 1 4 ≡ ok 12
unfolding validate_dims checked_mul
sample_dims = refl

no_window-HasPixels : HasPixels none
no_window-HasPixels = record { wide = tt }

decompress_rgb32_inner_panics_example :
    (decompress_rgb32_inner (replicate 32 0) sample_header none 7 ≡ panic) ↔ (
      (length {A = ℕ} (replicate 32 0) < 33)
      × (rgb32 ≡ rgb32)
      × (validate_dims 3 1 4 ≡ ok (3 * 1 * 4)))
decompress_rgb32_inner_panics_example =
    decompress_rgb32_inner_panics (replicate 32 0) sample_header none 7 (omega arith) (omega arith)
      no_window-HasPixels

-- A stream of 32 bytes is too short.
short_stream : decompress_rgb32_inner (replicate 32 0) sample_header none 7 ≡ panic
short_stream =
    let iff =
      decompress_rgb32_inner_panics (replicate 32 0) sample_header none 7 (omega arith)
        (omega arith) no_window-HasPixels in
    iff.1 (omega arith, refl, sample_dims)
