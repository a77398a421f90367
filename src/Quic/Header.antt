-- ===== src/Quic/Header.antt =====
-- `QuicHeader` of crates/capsaicin-quic/src/lib.rs. The header is little-endian.
pub mod RoundTrip
use capsaicin.Base.{ℕ, ◌*◌, ◌/◌, ◌%◌, ◌^◌, not, List, ◌++◌, ltb, ◌==◌, length, to_le_bytes, le_uint}
use capsaicin.Base.Outcome.{Outcome, ok, fail_if, ◌>>=◌, ◌>>◌}
use capsaicin.Quic.{
  QuicError, short, bad_magic, bad_version, QuicImageType, to_u32, from_u32, quic_magic,
  quic_version,
}

pub record QuicHeader : Type 0 where
  pub image_type : QuicImageType
  pub width : ℕ
  pub height : ℕ

abbrev pub quic_header_size : ℕ
quic_header_size = 4 * 5

-- `le_u32(&buf[a..b])`
abbrev le_u32 : List ℕ → ℕ → ℕ → Outcome QuicError ℕ
le_u32 = le_uint 4

unfoldable pub decode : List ℕ → Outcome QuicError QuicHeader
decode buf = do
  fail_if (ltb (length buf) quic_header_size) (short quic_header_size (length buf))
  magic ← le_u32 buf 0 4
  fail_if (not (magic == quic_magic)) (bad_magic quic_magic magic)
  version ← le_u32 buf 4 8
  fail_if (not (version == quic_version)) (bad_version (version / 2 ^ 16) (version % 2 ^ 16))
  tag ← le_u32 buf 8 12
  image_type ← from_u32 tag
  width ← le_u32 buf 12 16
  height ← le_u32 buf 16 20
  ok (record { image_type = image_type; width = width; height = height })

unfoldable pub encode : QuicHeader → List ℕ → List ℕ
encode h out =
    out
    ++ to_le_bytes 4 quic_magic
    ++ to_le_bytes 4 quic_version
    ++ to_le_bytes 4 (to_u32 h.image_type)
    ++ to_le_bytes 4 h.width
    ++ to_le_bytes 4 h.height
