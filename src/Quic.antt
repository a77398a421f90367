-- ===== src/Quic.antt =====
-- Errors, caps and image types of crates/capsaicin-quic/src/lib.rs, and `le_u32`.
pub mod Header
pub mod Words
pub mod Family
pub mod Stream
pub mod State
pub mod Model
pub mod Segment
pub mod Plane
pub mod Rgb32
pub mod Rgb16
pub mod Single
pub mod Returns
use capsaicin.Base.{ℕ, ◌*◌, ◌^◌, Option, none, some, ◌||◌, List, ltb, ◌==◌, if◌then◌else◌, le_uint}
use capsaicin.Base.Outcome.{Outcome, ok, err, panic, fail_if, ◌>>=◌, ◌>>◌}

pub data QuicError : Type 0 where
  short : ℕ → ℕ → QuicError
  bad_magic : ℕ → ℕ → QuicError
  bad_version : ℕ → ℕ → QuicError
  bad_image_type : ℕ → QuicError
  too_large : ℕ → ℕ → QuicError

abbrev pub quic_magic : ℕ
quic_magic = 0x4349_5551

abbrev pub quic_version : ℕ
quic_version = 0

abbrev pub max_image_dim : ℕ
max_image_dim = 16384

abbrev pub max_image_bytes : ℕ
max_image_bytes = 64 * 1024 * 1024

-- `usize::checked_mul(..).ok_or(..)`
abbrev pub checked_mul : QuicError → ℕ → ℕ → Outcome QuicError ℕ
checked_mul e a b = if ltb (a * b) (2 ^ 64) then ok (a * b) else err e

unfoldable pub validate_dims : ℕ → ℕ → ℕ → Outcome QuicError ℕ
validate_dims width height bpp = do
  let e = too_large width height
  fail_if (width == 0 || height == 0 || ltb max_image_dim width || ltb max_image_dim height) e
  n ← checked_mul e width height
  bytes ← checked_mul e n bpp
  fail_if (ltb max_image_bytes bytes) e
  ok bytes

pub data QuicImageType : Type 0 where
  gray : QuicImageType
  rgb16 : QuicImageType
  rgb24 : QuicImageType
  rgb32 : QuicImageType
  rgba : QuicImageType

-- `self as u32`
unfoldable pub to_u32 : QuicImageType → ℕ
to_u32 gray = 1
to_u32 rgb16 = 2
to_u32 rgb24 = 3
to_u32 rgb32 = 4
to_u32 rgba = 5

unfoldable pub from_u32 : ℕ → Outcome QuicError QuicImageType
from_u32 v =
    if v == 1
    then ok gray
    else if v == 2
    then ok rgb16
    else if v == 3
    then ok rgb24
    else if v == 4
    then ok rgb32
    else if v == 5
    then ok rgba
    else err (bad_image_type v)

unfoldable pub bytes_per_pixel : QuicImageType → ℕ
bytes_per_pixel gray = 1
bytes_per_pixel rgb16 = 2
bytes_per_pixel rgb24 = 3
bytes_per_pixel rgb32 = 4
bytes_per_pixel rgba = 4
