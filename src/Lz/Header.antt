-- ===== src/Lz/Header.antt =====
-- `LzHeader` of crates/capsaicin-lz/src/lib.rs. The header is big-endian.
pub mod RoundTrip
use capsaicin.Base.{
  ℕ, ◌+◌, ◌*◌, ◌/◌, ◌%◌, ◌^◌, Bool, not, List, ◌++◌, ltb, ◌==◌, if◌then◌else◌, length, to_be_bytes,
  be_uint,
}
use capsaicin.Base.Outcome.{Outcome, ok, fail_if, ◌>>=◌, ◌>>◌, slice, to_array}
use capsaicin.Lz.{
  LzError, short, bad_magic, bad_version, LzImageType, to_u32, from_u32, lz_magic, lz_version,
}

pub record LzHeader : Type 0 where
  pub image_type : LzImageType
  pub width : ℕ
  pub height : ℕ
  pub stride : ℕ
  pub top_down : Bool

abbrev pub lz_header_size : ℕ
lz_header_size = 4 * 7

-- `be_u32(&buf[a..b])`
abbrev be_u32 : List ℕ → ℕ → ℕ → Outcome LzError ℕ
be_u32 = be_uint 4

unfoldable pub decode : List ℕ → Outcome LzError LzHeader
decode buf = do
  fail_if (ltb (length buf) lz_header_size) (short lz_header_size (length buf))
  magic ← be_u32 buf 0 4
  fail_if (not (magic == lz_magic)) (bad_magic lz_magic magic)
  version ← be_u32 buf 4 8
  fail_if (not (version == lz_version)) (bad_version (version / 2 ^ 16) (version % 2 ^ 16))
  tag ← be_u32 buf 8 12
  image_type ← from_u32 tag
  width ← be_u32 buf 12 16
  height ← be_u32 buf 16 20
  stride ← be_u32 buf 20 24
  top_down ← be_u32 buf 24 28
  ok (record {
    image_type = image_type;
    width = width;
    height = height;
    stride = stride;
    top_down = not (top_down == 0);
  })

unfoldable pub encode : LzHeader → List ℕ → List ℕ
encode h out =
    out
    ++ to_be_bytes 4 lz_magic
    ++ to_be_bytes 4 lz_version
    ++ to_be_bytes 4 (to_u32 h.image_type)
    ++ to_be_bytes 4 h.width
    ++ to_be_bytes 4 h.height
    ++ to_be_bytes 4 h.stride
    ++ to_be_bytes 4 (if h.top_down then 1 else 0)
