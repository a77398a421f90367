-- ===== src/Proto/Display.antt =====
-- The message bodies of crates/capsaicin-proto/src/display.rs.
pub mod Monitors
pub mod Wire
pub mod RoundTrip
pub mod Sizes
use capsaicin.Base.{ℕ, List}
use capsaicin.Base.Outcome.{Outcome}
use capsaicin.Base.Int.{ℤ}
use capsaicin.Proto.Error.{ProtoError}
use capsaicin.Proto.Types.{Rect, decode_rect, encode_rect}
use capsaicin.Proto.Reader.{
  Read, Writer, ◌>>=◌, ◌▸◌, pure, run, u8, u16, u32, u64, i16, i32, i64, put_u8, put_u16, put_u32,
  put_u64, put_i16, put_i32, put_i64,
}

pub record DisplayInit : Type 0 where
  pub pixmap_cache_id : ℕ
  pub pixmap_cache_size : ℤ
  pub glz_dictionary_id : ℕ
  pub glz_dictionary_window_size : ℤ

unfoldable pub decode_display_init : List ℕ → Outcome ProtoError DisplayInit
decode_display_init = run do
  pixmap_cache_id ← u8
  pixmap_cache_size ← i64
  glz_dictionary_id ← u8
  glz_dictionary_window_size ← i32
  pure (record {
    pixmap_cache_id = pixmap_cache_id;
    pixmap_cache_size = pixmap_cache_size;
    glz_dictionary_id = glz_dictionary_id;
    glz_dictionary_window_size = glz_dictionary_window_size;
  })

unfoldable pub encode_display_init : DisplayInit → Writer → Writer
encode_display_init m w =
    w
    ▸ put_u8 m.pixmap_cache_id
    ▸ put_i64 m.pixmap_cache_size
    ▸ put_u8 m.glz_dictionary_id
    ▸ put_i32 m.glz_dictionary_window_size

pub record SurfaceCreate : Type 0 where
  pub surface_id : ℕ
  pub width : ℕ
  pub height : ℕ
  pub format : ℕ
  pub flags : ℕ

unfoldable pub decode_surface_create : List ℕ → Outcome ProtoError SurfaceCreate
decode_surface_create = run do
  surface_id ← u32
  width ← u32
  height ← u32
  format ← u32
  flags ← u32
  pure (record {
    surface_id = surface_id;
    width = width;
    height = height;
    format = format;
    flags = flags;
  })

unfoldable pub encode_surface_create : SurfaceCreate → Writer → Writer
encode_surface_create m w =
    w
    ▸ put_u32 m.surface_id
    ▸ put_u32 m.width
    ▸ put_u32 m.height
    ▸ put_u32 m.format
    ▸ put_u32 m.flags

pub record SurfaceDestroy : Type 0 where
  pub surface_id : ℕ

unfoldable pub decode_surface_destroy : List ℕ → Outcome ProtoError SurfaceDestroy
decode_surface_destroy = run do surface_id ← u32; pure (record { surface_id = surface_id })

unfoldable pub encode_surface_destroy : SurfaceDestroy → Writer → Writer
encode_surface_destroy m w = w ▸ put_u32 m.surface_id

pub record Mode : Type 0 where
  pub x_res : ℕ
  pub y_res : ℕ
  pub bits : ℕ

unfoldable pub decode_mode : List ℕ → Outcome ProtoError Mode
decode_mode = run do
  x_res ← u32
  y_res ← u32
  bits ← u32
  pure (record { x_res = x_res; y_res = y_res; bits = bits })

unfoldable pub encode_mode : Mode → Writer → Writer
encode_mode m w = w ▸ put_u32 m.x_res ▸ put_u32 m.y_res ▸ put_u32 m.bits

pub record Head : Type 0 where
  pub id : ℕ
  pub surface_id : ℕ
  pub width : ℕ
  pub height : ℕ
  pub x : ℕ
  pub y : ℕ
  pub flags : ℕ

unfoldable pub decode_head : Read Head
decode_head = do
  id ← u32
  surface_id ← u32
  width ← u32
  height ← u32
  x ← u32
  y ← u32
  flags ← u32
  pure (record {
    id = id;
    surface_id = surface_id;
    width = width;
    height = height;
    x = x;
    y = y;
    flags = flags;
  })

unfoldable pub encode_head : Head → Writer → Writer
encode_head m w =
    w
    ▸ put_u32 m.id
    ▸ put_u32 m.surface_id
    ▸ put_u32 m.width
    ▸ put_u32 m.height
    ▸ put_u32 m.x
    ▸ put_u32 m.y
    ▸ put_u32 m.flags
