-- ===== src/Lz.antt =====
-- crates/capsaicin-lz/src/lib.rs: the errors, the bounds on an image, and the image types.
pub mod Header
pub mod Pass
pub mod Decompress
use capsaicin.Base.{ℕ, ◌*◌, ◌^◌, ◌≡◌, refl, ◌&&◌, ◌||◌, ◌==◌, ltb, if◌then◌else◌}
use capsaicin.Base.Outcome.{Outcome, ok, err, fail_if, ◌>>=◌, ◌>>◌}

pub data LzError : Type 0 where
  -- need, have
  short : ℕ → ℕ → LzError
  -- expected, got
  bad_magic : ℕ → ℕ → LzError
  -- major, minor
  bad_version : ℕ → ℕ → LzError
  bad_image_type : ℕ → LzError
  -- width, height
  too_large : ℕ → ℕ → LzError

abbrev pub max_image_dim : ℕ
max_image_dim = 16384

abbrev pub max_image_bytes : ℕ
max_image_bytes = 64 * 1024 * 1024

abbrev pub lz_magic : ℕ
lz_magic = 0x2020_5a4c

abbrev pub lz_version : ℕ
lz_version = 0x0001_0001

abbrev pub max_copy : ℕ
max_copy = 32

abbrev pub max_distance : ℕ
max_distance = 8191

-- `a.checked_mul(b).ok_or(e)` on `usize`
unfoldable pub checked_mul : ℕ → ℕ → LzError → Outcome LzError ℕ
checked_mul a b e = if ltb (a * b) (2 ^ 64) then ok (a * b) else err e

unfoldable pub validate_dims : ℕ → ℕ → ℕ → Outcome LzError ℕ
validate_dims width height bpp = do
  let too_big = too_large width height
  fail_if (width == 0 || height == 0 || ltb max_image_dim width || ltb max_image_dim height) too_big
  n ← checked_mul width height too_big
  bytes ← checked_mul n bpp too_big
  fail_if (ltb max_image_bytes bytes) too_big
  ok bytes

pub data LzImageType : Type 0 where
  plt1_le plt1_be plt4_le plt4_be plt8 rgb16 rgb24 rgb32 rgba xxxa a8 : LzImageType

-- `self as u32`
unfoldable pub to_u32 : LzImageType → ℕ
to_u32 plt1_le = 1
to_u32 plt1_be = 2
to_u32 plt4_le = 3
to_u32 plt4_be = 4
to_u32 plt8 = 5
to_u32 rgb16 = 6
to_u32 rgb24 = 7
to_u32 rgb32 = 8
to_u32 rgba = 9
to_u32 xxxa = 10
to_u32 a8 = 11

unfoldable pub from_u32 : ℕ → Outcome LzError LzImageType
from_u32 v =
    if v == 1
    then ok plt1_le
    else if v == 2
    then ok plt1_be
    else if v == 3
    then ok plt4_le
    else if v == 4
    then ok plt4_be
    else if v == 5
    then ok plt8
    else if v == 6
    then ok rgb16
    else if v == 7
    then ok rgb24
    else if v == 8
    then ok rgb32
    else if v == 9
    then ok rgba
    else if v == 10
    then ok xxxa
    else if v == 11
    then ok a8
    else err (short 0 0)

-- Each type is read back from its tag.
pub from_u32-to_u32 : (t : LzImageType) → from_u32 (to_u32 t) ≡ ok t
unfolding from_u32 to_u32
from_u32-to_u32 plt1_le = refl
from_u32-to_u32 _ = refl
