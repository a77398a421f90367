-- ===== src/Tests/Lz.antt =====
-- The LZ codec of crates/capsaicin-lz/src/lib.rs at concrete inputs.
use capsaicin.Base.{ℕ, ◌≡◌, ◌≤◌, refl, true, List, [], ◌∷◌, ◌++◌, arith, replicate}
use capsaicin.Base.Outcome.{ok, index}
use capsaicin.Base.Ensures.{Ensures}
use capsaicin.Lz.{rgb32}
use capsaicin.Lz.Pass.{
  bgr, decompress_pass, pass_loop, token, back_reference, literal, read_length, read_distance,
  extend_len, length_bias, copy_run, copy_pixel, literal_run, literal_pixel, read_byte, store,
}
use capsaicin.Lz.Pass.Safety.{decompress_pass_lem}
use capsaicin.Lz.Pass.Paint.{Paints}
use capsaicin.Lz.Header.{LzHeader, decode, encode}
use capsaicin.Lz.Header.RoundTrip.{lz_header_roundtrip}
use capsaicin.Lz.Decompress.{
  decompress_rgb32, decompress_rgba, decompress_rgb32_lem, decompress_rgba_lem, IsImage,
  HasClearAlpha, HasColours,
}

-- One literal pixel and a back-reference that repeats it four times, as in the test
-- `rgb32_back_reference_run`.
abbrev sample : List ℕ
sample = 0 ∷ 0xAA ∷ 0xBB ∷ 0xCC ∷ 0x80 ∷ 0x00 ∷ []

abbrev painted : List ℕ
painted =
    0xAA ∷ 0xBB ∷ 0xCC ∷ 0 ∷ 0xAA ∷ 0xBB ∷ 0xCC ∷ 0 ∷ 0xAA ∷ 0xBB ∷ 0xCC ∷ 0 ∷ 0xAA ∷ 0xBB ∷ 0xCC
    ∷ 0 ∷ 0xAA ∷ 0xBB ∷ 0xCC ∷ 0 ∷ []

sample_run : decompress_pass sample 5 (replicate 20 0) bgr ≡ ok (6, painted)
unfolding decompress_pass pass_loop token back_reference literal read_length read_distance
    extend_len length_bias copy_run copy_pixel literal_run literal_pixel read_byte store index
sample_run = refl

decompress_pass_lem_example :
    Ensures
      (λ p. (p.0 ≤ 6) × Paints bgr 0 5 (replicate 20 0) p.1)
      (decompress_pass sample 5 (replicate 20 0) bgr)
decompress_pass_lem_example = decompress_pass_lem sample 5 (replicate 20 0) bgr (omega arith)

decompress_rgb32_lem_example :
    Ensures (λ out. IsImage 5 out × HasClearAlpha 5 out) (decompress_rgb32 sample 5)
decompress_rgb32_lem_example = decompress_rgb32_lem sample 5

decompress_rgba_lem_example :
    Ensures
      (λ out.
        IsImage 5 out
        × (colours : List ℕ) × (decompress_rgb32 (sample ++ sample) 5 ≡ ok colours)
        × HasColours 5 colours out)
      (decompress_rgba (sample ++ sample) 5)
decompress_rgba_lem_example = decompress_rgba_lem (sample ++ sample) 5

abbrev sample_header : LzHeader
sample_header = record {
  image_type = rgb32;
  width = 640;
  height = 480;
  stride = 2560;
  top_down = true;
}

lz_header_roundtrip_example : decode (encode sample_header [] ++ 7 ∷ []) ≡ ok sample_header
lz_header_roundtrip_example =
    lz_header_roundtrip sample_header (7 ∷ [])
      (record { width = omega arith; height = omega arith; stride = omega arith })
