-- ===== src/Glz.antt =====
-- crates/capsaicin-glz/src/lib.rs: the errors and the bounds on an image.
pub mod Header
pub mod Window
pub mod Decode
use capsaicin.Base.{ℕ, ◌*◌, ◌^◌, ◌&&◌, ◌||◌, ltb, ◌==◌, if◌then◌else◌}
use capsaicin.Base.Outcome.{Outcome, ok, err, fail_if, ◌>>=◌, ◌>>◌}
use capsaicin.Lz.{LzError, LzImageType, max_image_dim, max_image_bytes}

pub data GlzError : Type 0 where
  -- need, have
  short : ℕ → ℕ → GlzError
  -- expected, got
  bad_magic : ℕ → ℕ → GlzError
  -- major, minor
  bad_version : ℕ → ℕ → GlzError
  -- dist
  cross_image : ℕ → GlzError
  bad_reference : GlzError
  unsupported_type : LzImageType → GlzError
  lz : LzError → GlzError
  -- width, height
  too_large : ℕ → ℕ → GlzError

-- `a.checked_mul(b).ok_or(e)` on `usize`
unfoldable pub checked_mul : ℕ → ℕ → GlzError → Outcome GlzError ℕ
checked_mul a b e = if ltb (a * b) (2 ^ 64) then ok (a * b) else err e

-- Both caps have the values of capsaicin-lz.
unfoldable pub validate_dims : ℕ → ℕ → ℕ → Outcome GlzError ℕ
validate_dims width height bpp = do
  let too_big = too_large width height
  fail_if (width == 0 || height == 0 || ltb max_image_dim width || ltb max_image_dim height) too_big
  n ← checked_mul width height too_big
  bytes ← checked_mul n bpp too_big
  fail_if (ltb max_image_bytes bytes) too_big
  ok bytes
