-- ===== src/Quic/Returns/Images.antt =====
-- The decoders of whole QUIC images return on every stream, with an image of the size asked for.
use capsaicin.Base.{
  ◌≤◌, ltb→le, Bool, true, false, ℕ, ◌*◌, ◌^◌, refl, ap, length, length-append, length-replicate,
  All, replicate, zero, suc, arith, ◌≡◌, ◌==◌, ◌||◌, none, List, [], ◌∷◌, ltb,
}
use capsaicin.Base.Outcome.{Outcome, and_then, fail_if}
use capsaicin.Base.Settles.{
  Settles-if, Settles, fails, gives, Anything, Settles-bind, Halts-bind, Halts-ok, Halts-fail_if,
}
use capsaicin.Quic.{
  QuicError, too_large, checked_mul, max_image_dim, max_image_bytes, validate_dims,
}
use capsaicin.Quic.Family.{init}
use capsaicin.Quic.Stream.{BitReader, new_after_header}
use capsaicin.Quic.Model.{new_channel}
use capsaicin.Quic.Rgb32.Image.{new_channels, concat, decompress_rgb32}
use capsaicin.Quic.Rgb16.{unpack, decompress_rgb16}
use capsaicin.Quic.Single.Image.{
  decompress_alpha_row, decompress_gray_row, decompress_gray, gray_to_bgra, decompress_rgba,
}
use capsaicin.Quic.Returns.{any-bind}
use capsaicin.Quic.Returns.Rows.{row-Settles}
use capsaicin.Quic.Returns.Phases.{
  alpha_steps-Halting, gray_steps-Halting, IsGrid, rgb_phase-Settles, rgb16_phase-Settles,
  single_phase-Settles,
}

new_channel-Settles :
    (width : ℕ)
    → (Settles Anything (new_channel 8 width)) × (Settles Anything (new_channel 5 width))
unfolding new_channel
new_channel-Settles width = (gives tt, gives tt)

new_channels-Settles :
    (bpc width : ℕ)
    → Settles Anything (new_channel bpc width)
    → Settles Anything (new_channels bpc width)
unfolding new_channels
new_channels-Settles bpc width h =
    Halts-bind h (λ r. Halts-bind h (λ g. Halts-bind h (λ b. Halts-ok _)))

checked_mul-Settles : (e : QuicError) (a b : ℕ) → Settles (λ n. n ≡ a * b) (checked_mul e a b)
checked_mul-Settles e a b =
    Settles-if (ltb (a * b) (2 ^ 64)) _ _ (λ small. gives refl) (λ large. fails)

fail_if-Settles : (b : Bool) (e : QuicError) → Settles (λ u. b ≡ false) (fail_if b e)
fail_if-Settles true e = fails
fail_if-Settles false e = gives refl

-- An image is within the cap.
validate_dims-Settles :
    (width height bpp : ℕ)
    → Settles (λ n. width * height * bpp ≤ max_image_bytes) (validate_dims width height bpp)
unfolding validate_dims
validate_dims-Settles width height bpp =
    let e = too_large width height in
    let bounds = width == 0 || height == 0 || ltb max_image_dim width || ltb max_image_dim height in
    any-bind (Halts-fail_if bounds e) (λ u.
      Settles-bind (checked_mul-Settles e width height) (λ n p.
        Settles-bind (checked_mul-Settles e n bpp) (λ bytes q.
          Settles-bind (fail_if-Settles (ltb max_image_bytes bytes) e) (λ u' within.
            let size = ap (λ (m : ℕ). m * bpp) p in
            let small = ltb→le max_image_bytes bytes within in
            gives (omega (arith, small, size, q))))))

new_after_header-Settles : (stream : List ℕ) → Settles Anything (new_after_header stream)
unfolding new_after_header
new_after_header-Settles stream = Halts-bind (Halts-fail_if _ _) (λ u. Halts-ok _)

-- An image is as large as its rows make it.
length-concat :
    (n height : ℕ) (rows : List (List ℕ)) → IsGrid n height rows → length (concat rows) ≡ height * n
length-concat n height [] g = let size = ap (λ (h : ℕ). h * n) g.0 in omega (arith, size)
length-concat n height (row ∷ rows) g =
    let rest = length-concat n (length rows) rows (refl, g.1.1) in
    let size = ap (λ (h : ℕ). h * n) g.0 in
    omega (arith, length-append row (concat rows), g.1.0, rest, size)

replicate-All :
    (n height : ℕ) (row : List ℕ) → length row ≡ n → All (λ r. length r ≡ n) (replicate height row)
replicate-All n zero row h = tt
replicate-All n (suc height) row h = (h, replicate-All n height row h)

blank-IsGrid : (n height : ℕ) → IsGrid n height (replicate height (replicate n 0))
blank-IsGrid n height =
    (length-replicate height (replicate n 0), replicate-All n height _ (length-replicate n 0))

length-gray_to_bgra : (gray : List ℕ) → length (gray_to_bgra gray) ≡ length gray * 4
unfolding gray_to_bgra
length-gray_to_bgra [] = refl
length-gray_to_bgra (g ∷ gray) = omega (arith, length-gray_to_bgra gray)

length-unpack : (packed : List ℕ) → length (unpack packed) ≡ length packed * 4
unfolding unpack
length-unpack [] = refl
length-unpack (p ∷ packed) = omega (arith, length-unpack packed)

-- Four bytes for each pixel, within the cap on an image.
abbrev pub IsImage : ℕ → ℕ → List ℕ → Type 0
IsImage width height out = (length out ≡ width * height * 4) × (length out ≤ max_image_bytes)

bytes-IsImage :
    (width height : ℕ) (rows : List (List ℕ))
    → width * height * 4 ≤ max_image_bytes
    → IsGrid (width * 4) height rows
    → IsImage width height (concat rows)
bytes-IsImage width height rows cap g =
    let size : length (concat rows) ≡ width * height * 4 =
      grind (arith, length-concat (width * 4) height rows g) in
    (size, omega (arith, cap, size))

pixels-IsImage :
    (width height : ℕ) (rows : List (List ℕ)) (out : List ℕ)
    → width * height * 4 ≤ max_image_bytes
    → IsGrid width height rows
    → length out ≡ length (concat rows) * 4
    → IsImage width height out
pixels-IsImage width height rows out cap g e =
    let size : length out ≡ width * height * 4 =
      grind (arith, length-concat width height rows g, e) in
    (size, omega (arith, cap, size))

-- The start of each decoder.
opened-bind :
    {B : Type 0} {Q : B → Type 0} (stream : List ℕ) (width height : ℕ)
    {k : BitReader → Outcome QuicError B}
    → (width * height * 4 ≤ max_image_bytes → (r : BitReader) → Settles Q (k r))
    → Settles Q
        (and_then (validate_dims width height 4) (λ bytes. and_then (new_after_header stream) k))
opened-bind stream width height k =
    Settles-bind (validate_dims-Settles width height 4)
      (λ n cap. any-bind (new_after_header-Settles stream) (k cap))

module _ (stream : List ℕ) (width height : ℕ) where
  rgb32-Settles : Settles (IsImage width height) (decompress_rgb32 stream width height)
  unfolding decompress_rgb32
  rgb32-Settles = opened-bind stream width height (λ cap r.
      any-bind (new_channels-Settles 8 width (new_channel-Settles width).0) (λ cs.
        Settles-bind
          (rgb_phase-Settles (init 8) (width * 4) height width none _ r cs _
            (blank-IsGrid _ height))
          (λ t g. gives (bytes-IsImage width height t.1 cap g))))

  rgba-Settles : Settles (IsImage width height) (decompress_rgba stream width height)
  unfolding decompress_rgba
  rgba-Settles = opened-bind stream width height (λ cap r.
      any-bind (new_channels-Settles 8 width (new_channel-Settles width).0) (λ cs.
        Settles-bind
          (rgb_phase-Settles (init 8) (width * 4) height width none _ r cs _
            (blank-IsGrid _ height))
          (λ t g. any-bind (new_channel-Settles width).0 (λ c.
            Settles-bind
              (single_phase-Settles (width * 4) (decompress_alpha_row (init 8))
                (λ prev. row-Settles (alpha_steps-Halting (init 8) prev (width * 4))) height width
                none _ t.0 c t.1 g)
              (λ rows g'. gives (bytes-IsImage width height rows cap g'))))))

  gray-Settles : Settles (IsImage width height) (decompress_gray stream width height)
  unfolding decompress_gray
  gray-Settles = opened-bind stream width height (λ cap r.
      any-bind (new_channel-Settles width).0 (λ c.
        Settles-bind
          (single_phase-Settles width (decompress_gray_row (init 8))
            (λ prev. row-Settles (gray_steps-Halting (init 8) prev width)) height width none _ r c _
            (blank-IsGrid width height))
          (λ rows g.
            gives (pixels-IsImage width height rows _ cap g (length-gray_to_bgra (concat rows))))))

  rgb16-Settles : Settles (IsImage width height) (decompress_rgb16 stream width height)
  unfolding decompress_rgb16
  rgb16-Settles = opened-bind stream width height (λ cap r.
      any-bind (new_channels-Settles 5 width (new_channel-Settles width).1) (λ cs.
        Settles-bind
          (rgb16_phase-Settles (init 5) width height width none _ r cs _
            (blank-IsGrid width height))
          (λ rows g.
            gives (pixels-IsImage width height rows _ cap g (length-unpack (concat rows))))))

  -- On every input each of the four image decoders comes to an end: it fails, it panics, or it
  -- returns exactly `width * height * 4` bytes, which are within the cap on an image. No loop of
  -- theirs outruns the rounds that its fuel allows, whatever the bits of the stream say.
  pub quic_decoders_terminate :
      (Settles (IsImage width height) (decompress_rgb32 stream width height))
      × (Settles (IsImage width height) (decompress_rgba stream width height))
      × (Settles (IsImage width height) (decompress_gray stream width height))
      × (Settles (IsImage width height) (decompress_rgb16 stream width height))
  quic_decoders_terminate = (rgb32-Settles, rgba-Settles, gray-Settles, rgb16-Settles)
