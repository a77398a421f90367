-- ===== src/Lz/Header/RoundTrip.antt =====
-- `LzHeader::decode` against `LzHeader::encode`.
use capsaicin.Base.{
  ℕ, ◌≡◌, false, List, [], ◌∷◌, ◌++◌, append_assoc, ltb, if◌then◌else◌, arith, length, to_be_bytes,
  length-to_be_bytes, IsU32, Laid, Laid-join, join, be_uint-Segment,
}
use capsaicin.Base.Outcome.{ok}
use capsaicin.Lz.{LzImageType, LzError, to_u32, from_u32-to_u32, lz_magic, lz_version}
use capsaicin.Lz.Header.{LzHeader, decode, encode}

pub record Fits (h : LzHeader) : Type 0 where
  pub width : IsU32 h.width
  pub height : IsU32 h.height
  pub stride : IsU32 h.stride

-- The seven words of a header.
abbrev parts : LzHeader → List (ℕ × List ℕ)
parts h =
    (4, to_be_bytes 4 lz_magic)
    ∷ (4, to_be_bytes 4 lz_version)
    ∷ (4, to_be_bytes 4 (to_u32 h.image_type))
    ∷ (4, to_be_bytes 4 h.width)
    ∷ (4, to_be_bytes 4 h.height)
    ∷ (4, to_be_bytes 4 h.stride)
    ∷ (4, to_be_bytes 4 (if h.top_down then 1 else 0))
    ∷ []

to_u32-IsU32 : (t : LzImageType) → IsU32 (to_u32 t)
unfolding to_u32
to_u32-IsU32 t = ground arith

decode-Laid : (h : LzHeader) (buf : List ℕ) → Laid buf 0 (parts h) → Fits h → decode buf ≡ ok h
unfolding decode
decode-Laid h buf l fits =
    let t : ltb (length buf) 28 ≡ false = ground (arith, l.1.1.1.1.1.1.0.within) in
    let flag : IsU32 (if h.top_down then 1 else 0) = ground arith in
    rw
      (
        t,
        be_uint-Segment {E = LzError} 4 lz_magic l.0 (omega arith),
        be_uint-Segment {E = LzError} 4 lz_version l.1.0 (omega arith),
        be_uint-Segment {E = LzError} 4 (to_u32 h.image_type) l.1.1.0 (to_u32-IsU32 h.image_type),
        from_u32-to_u32 h.image_type,
        be_uint-Segment {E = LzError} 4 h.width l.1.1.1.0 fits.width,
        be_uint-Segment {E = LzError} 4 h.height l.1.1.1.1.0 fits.height,
        be_uint-Segment {E = LzError} 4 h.stride l.1.1.1.1.1.0 fits.stride,
        be_uint-Segment {E = LzError} 4 (if h.top_down then 1 else 0) l.1.1.1.1.1.1.0 flag,
      )
      (ground arith)

-- The decoder reads back every header whose three dimensions fit 32 bits, whatever follows it.
pub lz_header_roundtrip :
    (h : LzHeader) (rest : List ℕ) → Fits h → decode (encode h [] ++ rest) ≡ ok h
unfolding encode
lz_header_roundtrip h rest fits =
    let e : encode h [] ++ rest ≡ join (parts h) ++ rest = simp append_assoc in
    decode-Laid h (encode h [] ++ rest)
      (Laid-join (parts h) rest _ e (omega (arith, length-to_be_bytes))) fits
