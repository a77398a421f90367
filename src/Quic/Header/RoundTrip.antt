-- ===== src/Quic/Header/RoundTrip.antt =====
-- `QuicHeader::decode` against `QuicHeader::encode`.
use capsaicin.Base.{
  ℕ, ◌≡◌, false, List, [], ◌∷◌, ◌++◌, append_assoc, ltb, arith, length, to_le_bytes,
  length-to_le_bytes, IsU32, Laid, Laid-join, join, le_uint-Segment,
}
use capsaicin.Base.Outcome.{ok}
use capsaicin.Quic.{QuicError, QuicImageType, to_u32, from_u32, quic_magic, quic_version}
use capsaicin.Quic.Header.{QuicHeader, decode, encode}

pub record Fits (h : QuicHeader) : Type 0 where
  pub width : IsU32 h.width
  pub height : IsU32 h.height

-- The five words of a header.
abbrev pub parts : QuicHeader → List (ℕ × List ℕ)
parts h =
    (4, to_le_bytes 4 quic_magic)
    ∷ (4, to_le_bytes 4 quic_version)
    ∷ (4, to_le_bytes 4 (to_u32 h.image_type))
    ∷ (4, to_le_bytes 4 h.width)
    ∷ (4, to_le_bytes 4 h.height)
    ∷ []

from_u32-to_u32 : (t : QuicImageType) → from_u32 (to_u32 t) ≡ ok t
unfolding from_u32 to_u32
from_u32-to_u32 t = ground arith

to_u32-IsU32 : (t : QuicImageType) → IsU32 (to_u32 t)
unfolding to_u32
to_u32-IsU32 t = ground arith

decode-Laid : (h : QuicHeader) (buf : List ℕ) → Laid buf 0 (parts h) → Fits h → decode buf ≡ ok h
unfolding decode
decode-Laid h buf l fits =
    let t : ltb (length buf) 20 ≡ false = ground (arith, l.1.1.1.1.0.within) in
    rw (
      t,
      le_uint-Segment {E = QuicError} 4 quic_magic l.0 (omega arith),
      le_uint-Segment {E = QuicError} 4 quic_version l.1.0 (omega arith),
      le_uint-Segment {E = QuicError} 4 (to_u32 h.image_type) l.1.1.0 (to_u32-IsU32 h.image_type),
      from_u32-to_u32 h.image_type,
      le_uint-Segment {E = QuicError} 4 h.width l.1.1.1.0 fits.width,
      le_uint-Segment {E = QuicError} 4 h.height l.1.1.1.1.0 fits.height,
    )

-- The decoder reads back every header whose dimensions fit 32 bits, whatever follows it.
pub quic_header_roundtrip :
    (h : QuicHeader) (rest : List ℕ) → Fits h → decode (encode h [] ++ rest) ≡ ok h
unfolding encode
quic_header_roundtrip h rest fits =
    let e : encode h [] ++ rest ≡ join (parts h) ++ rest = simp append_assoc in
    decode-Laid h (encode h [] ++ rest)
      (Laid-join (parts h) rest _ e (omega (arith, length-to_le_bytes))) fits
