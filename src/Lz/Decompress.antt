-- ===== src/Lz/Decompress.antt =====
-- The entry points of crates/capsaicin-lz/src/lib.rs.
use capsaicin.Base.{
  ℕ, ◌-◌, ◌*◌, ltb→le, ◌^◌, ◌≤◌, ◌<◌, ◌≡◌, List, ltb, ◌==◌, arith, length, get_elem?, replicate,
  length-replicate, some, ◌+◌, slice_within, leb, refl,
}
use capsaicin.Base.Outcome.{Outcome, ok, fail_if, slice, ◌>>=◌, ◌>>◌}
use capsaicin.Base.Ensures.{
  Ensures, returns, Ensures-bind, Ensures-fail_if, Ensures-guard, Ensures-kept,
}
use capsaicin.Lz.{LzError, too_large, max_image_bytes}
use capsaicin.Lz.Pass.{bgr, alpha, decompress_pass}
use capsaicin.Lz.Pass.Safety.{decompress_pass_lem}
use Prim.Native.Nat.{min}

-- `num_pixels as u32` of the error is capped at `u32::MAX`.
unfoldable pub bounded_pixels : ℕ → Outcome LzError (Unit {0})
bounded_pixels num_pixels = do
  fail_if (num_pixels == 0) (too_large 0 0)
  fail_if (leb (2 ^ 64) (num_pixels * 4)) (too_large 0 0)
  fail_if (ltb max_image_bytes (num_pixels * 4)) (too_large (min num_pixels (2 ^ 32 - 1)) 0)

-- `vec![0u8; num_pixels * 4]`
abbrev zeroed : ℕ → List ℕ
zeroed num_pixels = replicate (num_pixels * 4) 0

-- Decompress an LZ_RGB32 stream into a new buffer.
unfoldable pub decompress_rgb32 : List ℕ → ℕ → Outcome LzError (List ℕ)
decompress_rgb32 stream num_pixels = do
  bounded_pixels num_pixels
  (consumed, out) ← decompress_pass stream num_pixels (zeroed num_pixels) bgr
  ok out

-- The colour pass, then the alpha pass on what it left of the stream.
unfoldable pub decompress_rgba : List ℕ → ℕ → Outcome LzError (List ℕ)
decompress_rgba stream num_pixels = do
  bounded_pixels num_pixels
  (consumed, out) ← decompress_pass stream num_pixels (zeroed num_pixels) bgr
  rest ← slice stream consumed (length stream)
  (consumed, out) ← decompress_pass rest num_pixels out alpha
  ok out

bounded_pixels_lem :
    (num_pixels : ℕ) → Ensures (λ u. num_pixels * 4 ≤ max_image_bytes) (bounded_pixels num_pixels)
unfolding bounded_pixels
bounded_pixels_lem num_pixels = Ensures-fail_if (num_pixels == 0) _ _ λ e.
    Ensures-fail_if (leb (2 ^ 64) (num_pixels * 4)) _ _
      λ f. Ensures-guard (ltb max_image_bytes (num_pixels * 4)) _ λ g. ltb→le max_image_bytes _ g

-- A buffer of `num_pixels` pixels within the cap.
pub record IsImage (num_pixels : ℕ) (out : List ℕ) : Type 0 where
  pub size : length out ≡ num_pixels * 4
  pub capped : length out ≤ max_image_bytes

-- Its alpha bytes are 0.
abbrev pub HasClearAlpha : ℕ → List ℕ → Type 0
HasClearAlpha num_pixels out = (i : ℕ) → i < num_pixels → get_elem? out (i * 4 + 3) ≡ some 0

-- On every stream the decoder returns. If it succeeds the buffer has four bytes for each pixel, is
-- within the cap on an image, and every alpha byte is 0.
pub decompress_rgb32_lem :
    (stream : List ℕ) (num_pixels : ℕ)
    → Ensures
        (λ out. IsImage num_pixels out × HasClearAlpha num_pixels out)
        (decompress_rgb32 stream num_pixels)
unfolding decompress_rgb32
decompress_rgb32_lem stream num_pixels = Ensures-bind (bounded_pixels_lem num_pixels) λ u cap.
    let n : length (zeroed num_pixels) ≡ num_pixels * 4 = length-replicate (num_pixels * 4) 0 in
    Ensures-bind (decompress_pass_lem stream num_pixels (zeroed num_pixels) bgr (omega arith))
      λ (consumed, out) (w, p). returns (
        record { size = omega (arith, p.size); capped = omega (arith, p.size) },
        λ i h. p.blank refl i (omega arith) h,
      )

-- The colour bytes of `out` are those of `colours`.
pub record HasColours (num_pixels : ℕ) (colours out : List ℕ) : Type 0 where
  pub colour :
      (i c : ℕ) → i < num_pixels → c < 3 → get_elem? out (i * 4 + c) ≡ get_elem? colours (i * 4 + c)

-- On every stream the decoder returns. If it succeeds the buffer has four bytes for each pixel and
-- is within the cap, `decompress_rgb32` of the same stream succeeds too, and the colour bytes are
-- those that it gives: the second pass has changed alpha bytes only.
pub decompress_rgba_lem :
    (stream : List ℕ) (num_pixels : ℕ)
    → Ensures
        (λ out.
          IsImage num_pixels out
          × (colours : List ℕ) × (decompress_rgb32 stream num_pixels ≡ ok colours)
          × HasColours num_pixels colours out)
        (decompress_rgba stream num_pixels)
unfolding decompress_rgba decompress_rgb32
decompress_rgba_lem stream num_pixels =
    Ensures-bind (Ensures-kept (bounded_pixels_lem num_pixels)) λ u (eb, cap).
      let n : length (zeroed num_pixels) ≡ num_pixels * 4 = length-replicate (num_pixels * 4) 0 in
      Ensures-bind
        (Ensures-kept (decompress_pass_lem stream num_pixels (zeroed num_pixels) bgr (omega arith)))
        λ (consumed, first) (e1, (w, p)).
          rw (slice_within stream consumed (length stream) w (omega arith)) (
            Ensures-bind (decompress_pass_lem _ num_pixels first alpha (omega (arith, p.size)))
              λ (last, out) (v, q). returns (
                record {
                  size = omega (arith, p.size, q.size);
                  capped = omega (arith, p.size, q.size);
                },
                first,
                rw (eb, e1),
                record { colour = λ i c h k. q.colours refl i c k },
              ))
