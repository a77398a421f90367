-- ===== src/Glz/Decode/Intra.antt =====
-- Decoding without a window against decoding with one.
use capsaicin.Base.{
  ℕ, zero, suc, ◌*◌, ◌≡◌, refl, true, false, Bool, none, some, List, ltb, leb, ◌==◌, if◌then◌else◌,
  length,
}
use capsaicin.Base.Outcome.{Outcome, ok, err, panic, stuck, and_then, fail_if, slice}
use capsaicin.Lz.{max_copy}
use capsaicin.Glz.{GlzError, validate_dims}
use capsaicin.Glz.Header.{GlzHeader, glz_header_size}
use capsaicin.Glz.Window.{GlzWindow}
use capsaicin.Glz.Decode.{
  find_entry, refer_across, reference, read_length, read_target, take_byte, token, decode_loop,
  decompress_rgb32_inner, decompress_rgb32_intra, decompress_rgb32,
}

-- Where the first call returns a value, panics or runs out of fuel, so does the second.
data Extends {A : Type 0} : Outcome GlzError A → Outcome GlzError A → Type 0 where
  same : {m n : Outcome GlzError A} → m ≡ n → Extends m n
  failed : {e : GlzError} {n : Outcome GlzError A} → Extends (err e) n

Extends-ok : {A : Type 0} {m n : Outcome GlzError A} {a : A} → Extends m n → m ≡ ok a → n ≡ ok a
Extends-ok (same p) e = cc
Extends-ok failed e = cc

module _ {A B : Type 0} {f g : A → Outcome GlzError B} (k : (a : A) → Extends (f a) (g a)) where
  Extends-after : (m : Outcome GlzError A) → Extends (and_then m f) (and_then m g)
  Extends-after (ok a) = k a
  Extends-after (err e) = failed
  Extends-after panic = same refl
  Extends-after stuck = same refl

  Extends-bind : {m n : Outcome GlzError A} → Extends m n → Extends (and_then m f) (and_then n g)
  Extends-bind (same {n = n} p) = rw p (Extends-after n)
  Extends-bind failed = failed

Extends-if :
    {A : Type 0} (b : Bool) {m n m' n' : Outcome GlzError A}
    → Extends m m'
    → Extends n n'
    → Extends (if b then m else n) (if b then m' else n')
Extends-if true h k = h
Extends-if false h k = k

module _ (w : GlzWindow) (self_id : ℕ) (body : List ℕ) (n_pixels : ℕ) where
  refer_across-Extends :
      (image_dist len pixel_ofs op : ℕ) (out : List ℕ)
      → Extends
          (refer_across none self_id image_dist len pixel_ofs op out)
          (refer_across (some w) self_id image_dist len pixel_ofs op out)
  unfolding refer_across find_entry
  refer_across-Extends image_dist len pixel_ofs op out = failed

  reference-Extends :
      (ctrl ip op : ℕ) (out : List ℕ)
      → Extends
          (reference none self_id body n_pixels ctrl ip op out)
          (reference (some w) self_id body n_pixels ctrl ip op out)
  unfolding reference
  reference-Extends ctrl ip op out =
      Extends-after
        (λ (len, ip1).
          Extends-after
            (λ t.
              Extends-after
                (λ u.
                  Extends-bind (λ out'. same refl)
                    (Extends-if (t.image_dist == 0) (same refl)
                      (refer_across-Extends t.image_dist len t.pixel_ofs op out)))
                (fail_if _ _))
            (read_target body ctrl ip1))
        (read_length body ctrl ip)

  token-Extends :
      (ip op : ℕ) (out : List ℕ)
      → Extends
          (token none self_id body n_pixels ip op out)
          (token (some w) self_id body n_pixels ip op out)
  unfolding token
  token-Extends ip op out =
      Extends-after
        (λ (ctrl, ip1).
          Extends-if (leb max_copy ctrl) (reference-Extends ctrl ip1 op out) (same refl))
        (take_byte body ip)

  decode_loop-Extends :
      (fuel ip op : ℕ) (out : List ℕ)
      → Extends
          (decode_loop fuel none self_id body n_pixels ip op out)
          (decode_loop fuel (some w) self_id body n_pixels ip op out)
  unfolding decode_loop
  decode_loop-Extends zero ip op out = same refl
  decode_loop-Extends (suc fuel) ip op out =
      Extends-if (ltb op n_pixels)
        (Extends-bind (λ (ip1, op1, out1). decode_loop-Extends fuel ip1 op1 out1)
          (token-Extends ip op out))
        (same refl)

inner_Extends :
    (stream : List ℕ) (header : GlzHeader) (w : GlzWindow) (self_id : ℕ)
    → Extends
        (decompress_rgb32_inner stream header none self_id)
        (decompress_rgb32_inner stream header (some w) self_id)
unfolding decompress_rgb32_inner
inner_Extends stream header w self_id =
    Extends-after
      (λ n.
        Extends-after
          (λ u.
            Extends-after
              (λ body.
                decode_loop-Extends w self_id body (header.width * header.height)
                  (suc (length body)) 0 0 _)
              (slice stream glz_header_size (length stream)))
          (fail_if _ _))
      (validate_dims header.width header.height 4)

-- What `decompress_rgb32_intra` decodes, `decompress_rgb32` decodes to the same image whatever
-- window it is given.
pub decompress_rgb32-intra :
    (stream : List ℕ) (header : GlzHeader) (w : GlzWindow) (out : List ℕ)
    → decompress_rgb32_intra stream header ≡ ok out
    → decompress_rgb32 stream header w ≡ ok out
unfolding decompress_rgb32_intra decompress_rgb32
decompress_rgb32-intra stream header w out e =
    Extends-ok (inner_Extends stream header w header.id) e
