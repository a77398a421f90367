-- ===== src/Glz/Header/RoundTrip.antt =====
-- `GlzHeader::decode` against `GlzHeader::encode`.
use capsaicin.Base.{
  ℕ, ◌/◌, ◌%◌, ◌<◌, ◌≡◌, not, List, [], ◌∷◌, ◌++◌, append_assoc, ltb, ◌==◌, arith, length,
  to_be_bytes, length-to_be_bytes, IsU32, IsU64, Laid, Laid-join, join, be_uint-Segment,
  index-Segment, false,
}
use capsaicin.Base.Outcome.{ok}
use capsaicin.Lz.{LzImageType, to_u32, from_u32-to_u32}
use capsaicin.Glz.{GlzError}
use capsaicin.Glz.Header.{GlzHeader, decode, encode, glz_magic, glz_version, type_byte}

pub record Fits (h : GlzHeader) : Type 0 where
  pub width : IsU32 h.width
  pub height : IsU32 h.height
  pub stride : IsU32 h.stride
  pub id : IsU64 h.id
  pub win_head_dist : IsU32 h.win_head_dist

abbrev parts : GlzHeader → List (ℕ × List ℕ)
parts h =
    (4, to_be_bytes 4 glz_magic)
    ∷ (4, to_be_bytes 4 glz_version)
    ∷ (1, type_byte h ∷ [])
    ∷ (4, to_be_bytes 4 h.width)
    ∷ (4, to_be_bytes 4 h.height)
    ∷ (4, to_be_bytes 4 h.stride)
    ∷ (8, to_be_bytes 8 h.id)
    ∷ (4, to_be_bytes 4 h.win_head_dist)
    ∷ []

to_u32_nibble : (t : LzImageType) → to_u32 t < 16
unfolding to_u32
to_u32_nibble t = ground arith

low_nibble : (h : GlzHeader) → type_byte h % 16 ≡ to_u32 h.image_type
low_nibble h = ground (arith, to_u32_nibble h.image_type)

high_nibble : (h : GlzHeader) → not (type_byte h / 16 == 0) ≡ h.top_down
high_nibble h = ground (arith, to_u32_nibble h.image_type)

decode-Laid : (h : GlzHeader) (buf : List ℕ) → Laid buf 0 (parts h) → Fits h → decode buf ≡ ok h
unfolding decode
decode-Laid h buf l fits =
    let t : ltb (length buf) 33 ≡ false = ground (arith, l.1.1.1.1.1.1.1.0.within) in
    rw (
      t,
      be_uint-Segment {E = GlzError} 4 glz_magic l.0 (omega arith),
      be_uint-Segment {E = GlzError} 4 glz_version l.1.0 (omega arith),
      index-Segment {E = GlzError} l.1.1.0,
      low_nibble h,
      from_u32-to_u32 h.image_type,
      be_uint-Segment {E = GlzError} 4 h.width l.1.1.1.0 fits.width,
      be_uint-Segment {E = GlzError} 4 h.height l.1.1.1.1.0 fits.height,
      be_uint-Segment {E = GlzError} 4 h.stride l.1.1.1.1.1.0 fits.stride,
      be_uint-Segment {E = GlzError} 8 h.id l.1.1.1.1.1.1.0 fits.id,
      be_uint-Segment {E = GlzError} 4 h.win_head_dist l.1.1.1.1.1.1.1.0 fits.win_head_dist,
      high_nibble h,
    )

-- The decoder reads back every header whose fields fit their widths, whatever follows it.
pub glz_header_roundtrip :
    (h : GlzHeader) (rest : List ℕ) → Fits h → decode (encode h [] ++ rest) ≡ ok h
unfolding encode
glz_header_roundtrip h rest fits =
    let e : encode h [] ++ rest ≡ join (parts h) ++ rest = simp append_assoc in
    decode-Laid h (encode h [] ++ rest)
      (Laid-join (parts h) rest _ e (omega (arith, length-to_be_bytes))) fits
