-- ===== src/Glz/Header.antt =====
-- `GlzHeader` of crates/capsaicin-glz/src/lib.rs. The header is big-endian.
pub mod RoundTrip
use capsaicin.Base.{
  ℕ, ◌+◌, ◌*◌, ◌/◌, ◌%◌, ◌^◌, Bool, not, List, [], ◌∷◌, ◌++◌, ltb, ◌==◌, if◌then◌else◌, length,
  to_be_bytes, be_uint,
}
use capsaicin.Base.Outcome.{Outcome, ok, err, panic, stuck, fail_if, index, ◌>>=◌, ◌>>◌}
use capsaicin.Lz.{LzError, LzImageType, to_u32, from_u32}
use capsaicin.Glz.{GlzError, short, bad_magic, bad_version, lz}

abbrev pub glz_magic : ℕ
glz_magic = 0x2020_5a4c

abbrev pub glz_version : ℕ
glz_version = 0x0001_0001

abbrev pub glz_header_size : ℕ
glz_header_size = 4 + 4 + 1 + 4 + 4 + 4 + 8 + 4

pub record GlzHeader : Type 0 where
  pub image_type : LzImageType
  pub top_down : Bool
  pub width : ℕ
  pub height : ℕ
  pub stride : ℕ
  pub id : ℕ
  pub win_head_dist : ℕ

-- `?` on a result of capsaicin-lz: `#[from] LzError`.
abbrev pub from_lz : {A : Type 0} → Outcome LzError A → Outcome GlzError A
from_lz (ok a) = ok a
from_lz (err e) = err (lz e)
from_lz panic = panic
from_lz stuck = stuck

unfoldable pub decode : List ℕ → Outcome GlzError GlzHeader
decode buf = do
  fail_if (ltb (length buf) glz_header_size) (short glz_header_size (length buf))
  magic ← be_uint 4 buf 0 4
  fail_if (not (magic == glz_magic)) (bad_magic glz_magic magic)
  version ← be_uint 4 buf 4 8
  fail_if (not (version == glz_version)) (bad_version (version / 2 ^ 16) (version % 2 ^ 16))
  tmp ← index buf 8
  image_type ← from_lz (from_u32 (tmp % 16))
  width ← be_uint 4 buf 9 13
  height ← be_uint 4 buf 13 17
  stride ← be_uint 4 buf 17 21
  id ← be_uint 8 buf 21 29
  win_head_dist ← be_uint 4 buf 29 33
  ok (record {
    image_type = image_type;
    top_down = not (tmp / 16 == 0);
    width = width;
    height = height;
    stride = stride;
    id = id;
    win_head_dist = win_head_dist;
  })

-- `(type as u8) & 0x0F | (if top_down { 1 << 4 } else { 0 })`: the two have no bit in common.
abbrev pub type_byte : GlzHeader → ℕ
type_byte h = to_u32 h.image_type % 16 + (if h.top_down then 16 else 0)

unfoldable pub encode : GlzHeader → List ℕ → List ℕ
encode h out =
    out
    ++ to_be_bytes 4 glz_magic
    ++ to_be_bytes 4 glz_version
    ++ (type_byte h ∷ [])
    ++ to_be_bytes 4 h.width
    ++ to_be_bytes 4 h.height
    ++ to_be_bytes 4 h.stride
    ++ to_be_bytes 8 h.id
    ++ to_be_bytes 4 h.win_head_dist
