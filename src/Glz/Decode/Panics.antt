-- ===== src/Glz/Decode/Panics.antt =====
-- Where `decompress_rgb32_inner` of crates/capsaicin-glz/src/lib.rs panics.
use capsaicin.Base.{
  ℕ, ◌+◌, ◌*◌, ◌^◌, ◌<◌, ◌≤◌, ◌≡◌, ◌≢◌, ◌↔◌, refl, sym, ap, ◌∙◌, Bool, true, false, not, Option,
  List, All, IsByte, length, arith, leb, ◌==◌, ==_self, Bool-cases, inl, inr, ltb, ltb→lt, ltb→le,
}
use capsaicin.Base.Outcome.{Outcome, ok, panic, fail_if, and_then, slice, ◌>>=◌, ◌>>◌}
use capsaicin.Base.Ensures.{Ensures, returns, fails}
use capsaicin.Lz.{max_image_bytes, LzImageType, to_u32, from_u32, from_u32-to_u32, rgb32}
use capsaicin.Glz.{GlzError, unsupported_type, validate_dims}
use capsaicin.Glz.Header.{GlzHeader, glz_header_size}
use capsaicin.Glz.Window.{GlzWindow}
use capsaicin.Glz.Decode.{decompress_rgb32_inner}
use capsaicin.Glz.Decode.Safety.{HasPixels, validate_dims_lem, decompress_rgb32_inner_lem}

-- Image types with the same number are the same.
to_u32_inj : (t : LzImageType) → (to_u32 t == to_u32 rgb32) ≡ true → t ≡ rgb32
to_u32_inj t h =
    let e : to_u32 t ≡ to_u32 rgb32 = ground arith in
    let r = sym (from_u32-to_u32 t) ∙ (ap from_u32 e ∙ from_u32-to_u32 rgb32) in cc

-- A call that returns does not panic.
Ensures-not_panic : {A : Type 0} {P : A → Type 0} {m : Outcome GlzError A} → Ensures P m → m ≢ panic
Ensures-not_panic (returns p) e = cc
Ensures-not_panic fails e = cc

-- What is left of the decoder on a stream without room for a header.
short_run :
    (stream : List ℕ) (header : GlzHeader) (window : Option GlzWindow) (self_id : ℕ)
    → length stream < glz_header_size
    → decompress_rgb32_inner stream header window self_id ≡ (do
      bytes ← validate_dims header.width header.height 4
      fail_if (not (to_u32 header.image_type == to_u32 rgb32)) (unsupported_type header.image_type)
      panic)
unfolding decompress_rgb32_inner slice
short_run stream header window self_id brief =
    let t : leb 33 (length stream) ≡ false = ground arith in rw t refl

-- Two tests before a panic: it is reached just if both are passed.
passed :
    {m : Outcome GlzError ℕ} {size : ℕ} (b : Bool) (e : GlzError)
    → Ensures (λ bytes. (bytes ≡ size) × (bytes ≤ max_image_bytes)) m
    → and_then {B = List ℕ} m (λ bytes. and_then (fail_if (not b) e) (λ u. panic)) ≡ panic
    → (b ≡ true) × (m ≡ ok size)
passed true e (returns p) h = (refl, ap ok p.0)
passed false e (returns p) h = cc
passed b e fails h = cc

-- On a stream of bytes, less than 2 ^ 24 of them behind the header, and with three bytes or more for
-- each pixel of the window's images, the decoder panics just if the stream is shorter than a header,
-- the header's type is RGB32 and its dimensions are accepted.
pub decompress_rgb32_inner_panics :
    (stream : List ℕ) (header : GlzHeader) (window : Option GlzWindow) (self_id : ℕ)
    → All IsByte stream
    → length stream < glz_header_size + 2 ^ 24
    → HasPixels window
    → (decompress_rgb32_inner stream header window self_id ≡ panic) ↔ (
        (length stream < glz_header_size)
        × (header.image_type ≡ rgb32)
        × (validate_dims header.width header.height 4 ≡ ok (header.width * header.height * 4)))
decompress_rgb32_inner_panics stream header window self_id bytes small wide = (
  λ h. elim (Bool-cases (ltb (length stream) glz_header_size)) [
    | inl t ↦
        let brief = ltb→lt (length stream) glz_header_size t in
        let (same, dims) =
          passed _ _ (validate_dims_lem header.width header.height 4)
            (sym (short_run stream header window self_id brief) ∙ h) in
        (brief, to_u32_inj header.image_type same, dims)
    | inr t ↦ absurd (
        Ensures-not_panic
          (decompress_rgb32_inner_lem stream header window self_id bytes
            (ltb→le (length stream) glz_header_size t) small wide)
          h)
  ],
  λ (brief, kind, dims).
      short_run stream header window self_id brief ∙ rw (dims, kind, ==_self (to_u32 rgb32)) refl,
)
