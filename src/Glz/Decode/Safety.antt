-- ===== src/Glz/Decode/Safety.antt =====
-- `decompress_rgb32_inner` of crates/capsaicin-glz/src/lib.rs on every stream.
use capsaicin.Base.{
  ℕ, zero, suc, ◌+◌, ◌-◌, ◌*◌, ◌%◌, ◌^◌, ◌≤◌, ◌<◌, ◌≡◌, refl, ◌||◌, not, Option, none, some, List,
  [], arith, length, get_elem?, ltb, leb, ◌==◌, Option-cases, inl, inr, take-All, drop-All, All,
  IsByte, ltb→le, slice_within, length-replicate, length-take, length-drop, take, drop,
}
use capsaicin.Base.Ensures.{
  Ensures, returns, fails, Ensures-bind, Ensures-fail_if, Ensures-map, Ensures-if,
}
use capsaicin.Lz.{max_copy, max_image_bytes, max_image_dim, to_u32, rgb32}
use capsaicin.Lz.Pass.{bgr}
use capsaicin.Lz.Pass.Paint.{Paints, Paints-refl, Paints-trans}
use capsaicin.Glz.{GlzError, validate_dims, checked_mul}
use capsaicin.Glz.Header.{GlzHeader, glz_header_size}
use capsaicin.Glz.Window.{GlzWindow, get}
use capsaicin.Glz.Decode.{
  find_entry, refer_within, refer_across, zeroed, reference, literal, token, decode_loop,
  decompress_rgb32_inner,
}
use capsaicin.Glz.Window.{Images, lookup}
use capsaicin.Glz.Window.Images.{lookup-All}
use capsaicin.Glz.Decode.Reads.{take_byte_lem, read_length_lem, read_target_lem, literal_run_lem}
use capsaicin.Glz.Decode.Copies.{copy_within_lem, copy_across_lem}

abbrev pub held : Option GlzWindow → Images
held none = []
held (some w) = w.images

-- The images of the window have three bytes or more for each pixel.
pub record HasPixels (window : Option GlzWindow) : Type 0 where
  pub wide : All (λ p. 3 ≤ p.1.bpp) (held window)

find_entry_lem :
    (window : Option GlzWindow) (self_id image_dist : ℕ)
    → HasPixels window
    → Ensures (λ e. 3 ≤ e.bpp) (find_entry window self_id image_dist)
unfolding find_entry get
find_entry_lem none self_id image_dist h = fails
find_entry_lem (some w) self_id image_dist h =
    elim (Option-cases (lookup ((self_id + 2 ^ 64 - image_dist) % 2 ^ 64) w.images)) [
      | inl missing ↦ rw missing fails
      | inr (e, found) ↦ rw found (returns (lookup-All _ _ e w.images h.wide found))
    ]

-- A round at `ip`, `op` and `out` takes input, and paints the pixels from `op` to its new `op`.
record Advances (body : List ℕ) (n_pixels ip op : ℕ) (out : List ℕ) (next : ℕ × ℕ × List ℕ)
    : Type 0 where
  takes : ip ≤ next.0
  within : next.0 ≤ length body
  grows : op ≤ next.1
  bounded : next.1 ≤ n_pixels
  paints : Paints bgr op next.1 out next.2

module _ (window : Option GlzWindow) (wide : HasPixels window) (self_id n_pixels : ℕ) where
  refer_within_lem :
      (len pixel_ofs op : ℕ) (out : List ℕ)
      → (op + len) * 4 ≤ length out
      → Ensures (Paints bgr op (op + len) out) (refer_within len pixel_ofs op out)
  unfolding refer_within
  refer_within_lem len pixel_ofs op out h =
      Ensures-fail_if (pixel_ofs == 0 || ltb op pixel_ofs) _ _ λ valid.
        let v : (0 < pixel_ofs) × (pixel_ofs ≤ op) = ground arith in
        copy_within_lem len (op - pixel_ofs) op out (omega (arith, v)) h

  refer_across_lem :
      (image_dist len pixel_ofs op : ℕ) (out : List ℕ)
      → (op + len) * 4 ≤ length out
      → Ensures
          (Paints bgr op (op + len) out)
          (refer_across window self_id image_dist len pixel_ofs op out)
  unfolding refer_across
  refer_across_lem image_dist len pixel_ofs op out h =
      Ensures-bind (find_entry_lem window self_id image_dist wide) λ entry b.
        Ensures-fail_if (ltb (length entry.pixels) (pixel_ofs * entry.bpp + len * entry.bpp)) _ _
          λ valid. copy_across_lem len entry (pixel_ofs * entry.bpp) op out b (ltb→le _ _ valid) h

  module _ (body : List ℕ) (bytes : All IsByte body) (small : length body < 2 ^ 24) where
    reference_lem :
        (ctrl ip op : ℕ) (out : List ℕ)
        → ip ≤ length body
        → n_pixels * 4 ≤ length out
        → Ensures
            (Advances body n_pixels ip op out)
            (reference window self_id body n_pixels ctrl ip op out)
    unfolding reference
    reference_lem ctrl ip op out h k =
        Ensures-bind (read_length_lem body bytes ctrl ip h small) λ (len, ip1) (a, b).
          Ensures-bind (read_target_lem body bytes ctrl ip1 b) λ t (c, d).
            Ensures-fail_if (ltb n_pixels (op + len)) _ _ λ valid.
              let v : op + len ≤ n_pixels = ltb→le _ _ valid in
              Ensures-bind
                (Ensures-if (t.image_dist == 0) _ _
                  (λ near. refer_within_lem len (t.pixel_ofs + 1) op out (omega arith))
                  (λ far. refer_across_lem t.image_dist len t.pixel_ofs op out (omega arith)))
                λ out' p. returns (record {
                  takes = omega arith;
                  within = d;
                  grows = omega arith;
                  bounded = v;
                  paints = p;
                })

    literal_lem :
        (ctrl ip op : ℕ) (out : List ℕ)
        → ip ≤ length body
        → n_pixels * 4 ≤ length out
        → Ensures (Advances body n_pixels ip op out) (literal body n_pixels ctrl ip op out)
    unfolding literal
    literal_lem ctrl ip op out h k = Ensures-fail_if (ltb n_pixels (op + (ctrl + 1))) _ _ λ valid.
        let v : op + (ctrl + 1) ≤ n_pixels = ltb→le _ _ valid in
        Ensures-bind (literal_run_lem body bytes (ctrl + 1) ip op out h (omega arith))
          λ (ip1, out1) (a, b, p).
            returns (record { takes = a; within = b; grows = omega arith; bounded = v; paints = p })

    token_lem :
        (ip op : ℕ) (out : List ℕ)
        → n_pixels * 4 ≤ length out
        → Ensures
            (λ next. (ip < length body) × Advances body n_pixels (ip + 1) op out next)
            (token window self_id body n_pixels ip op out)
    unfolding token
    token_lem ip op out k = Ensures-bind (take_byte_lem body bytes ip) λ (ctrl, ip1) (e, l, b).
        Ensures-if (leb max_copy ctrl) _ _
          (λ r.
            Ensures-map (λ q r. (l, rw (← e) r)) (reference_lem ctrl ip1 op out (omega arith) k))
          (λ r. Ensures-map (λ q r. (l, rw (← e) r)) (literal_lem ctrl ip1 op out (omega arith) k))

    decode_loop_lem :
        (fuel ip op : ℕ) (out : List ℕ)
        → length body < ip + fuel
        → ip ≤ length body
        → op ≤ n_pixels
        → n_pixels * 4 ≤ length out
        → Ensures
            (Paints bgr op n_pixels out)
            (decode_loop fuel window self_id body n_pixels ip op out)
    unfolding decode_loop
    decode_loop_lem zero ip op out f i h k = absurd (omega arith)
    decode_loop_lem (suc fuel) ip op out f i h k =
        Ensures-if (ltb op n_pixels) _ _
          (λ more. Ensures-bind (token_lem ip op out k) λ (ip1, op1, out1) (l, a).
            Ensures-map (λ q r. Paints-trans a.grows a.bounded a.paints r)
              (decode_loop_lem fuel ip1 op1 out1 (omega (arith, a.takes)) a.within a.bounded
                (omega (arith, a.paints.size))))
          (λ over.
            let e : op ≡ n_pixels = ground arith in rw e (returns (Paints-refl bgr n_pixels out)))

checked_mul_lem : (a b : ℕ) (e : GlzError) → Ensures (λ n. n ≡ a * b) (checked_mul a b e)
unfolding checked_mul
checked_mul_lem a b e = Ensures-if (ltb (a * b) (2 ^ 64)) _ _ (λ fits. returns refl) (λ over. fails)

pub validate_dims_lem :
    (width height bpp : ℕ)
    → Ensures
        (λ n. (n ≡ width * height * bpp) × (n ≤ max_image_bytes))
        (validate_dims width height bpp)
unfolding validate_dims
validate_dims_lem width height bpp =
    Ensures-fail_if
      (width == 0 || height == 0 || ltb max_image_dim width || ltb max_image_dim height) _ _
      λ sides. Ensures-bind (checked_mul_lem width height _) λ n e.
        Ensures-bind (checked_mul_lem n bpp _) λ bytes f.
          Ensures-fail_if (ltb max_image_bytes bytes) _ _
            λ g. returns (rw (← e) f, ltb→le max_image_bytes bytes g)

-- A decoded image: four bytes for each pixel, within the cap, and every alpha byte 0.
pub record IsImage (width height : ℕ) (out : List ℕ) : Type 0 where
  pub size : length out ≡ width * height * 4
  pub capped : length out ≤ max_image_bytes
  pub blank : (i : ℕ) → i < width * height → get_elem? out (i * 4 + 3) ≡ some 0

-- A stream of bytes that holds a header, and less than 2 ^ 24 bytes behind it, is decoded or
-- refused with an error, if the window's images have three bytes or more for each pixel: decoding
-- does not panic and does not run out of fuel. A decoded image has the header's dimensions.
pub decompress_rgb32_inner_lem :
    (stream : List ℕ) (header : GlzHeader) (window : Option GlzWindow) (self_id : ℕ)
    → All IsByte stream
    → glz_header_size ≤ length stream
    → length stream < glz_header_size + 2 ^ 24
    → HasPixels window
    → Ensures
        (IsImage header.width header.height)
        (decompress_rgb32_inner stream header window self_id)
unfolding decompress_rgb32_inner
decompress_rgb32_inner_lem stream header window self_id bytes long small wide =
    let w = header.width in
    let h = header.height in
    Ensures-bind (validate_dims_lem w h 4) λ n (size, cap).
      Ensures-fail_if (not (to_u32 header.image_type == to_u32 rgb32)) _ _ λ t.
        let body : List ℕ = take (length stream - 33) (drop 33 stream) in
        let nb : length body ≡ length stream - 33 =
          omega (arith, length-take (length stream - 33) (drop 33 stream), length-drop 33 stream) in
        let nz : length (zeroed (w * h)) ≡ w * h * 4 = length-replicate (w * h * 4) 0 in
        rw (slice_within stream 33 (length stream) long (omega arith)) (
          Ensures-map
            (λ out p. record {
              size = omega (arith, p.size);
              capped = omega (arith, p.size);
              blank = λ i k. p.blank refl i (omega arith) k;
            })
            (decode_loop_lem window wide self_id (w * h) body
              (take-All IsByte _ _ (drop-All IsByte 33 stream bytes)) (omega arith)
              (suc (length body)) 0 0 (zeroed (w * h)) (omega arith) (omega arith) (omega arith)
              (omega arith)))
