-- ===== src/Proto/Types.antt =====
-- The records of crates/capsaicin-proto/src/types.rs.
pub mod Wire
use capsaicin.Base.{ℕ}
use capsaicin.Base.Int.{ℤ}
use capsaicin.Proto.Reader.{Read, Writer, ◌>>=◌, ◌▸◌, pure, i32, put_i32}

pub record Point : Type 0 where
  pub x : ℤ
  pub y : ℤ

pub record Rect : Type 0 where
  pub top : ℤ
  pub left : ℤ
  pub bottom : ℤ
  pub right : ℤ

pub record ChannelId : Type 0 where
  pub channel_type : ℕ
  pub id : ℕ

unfoldable pub decode_rect : Read Rect
decode_rect = do
  top ← i32
  left ← i32
  bottom ← i32
  right ← i32
  pure (record { top = top; left = left; bottom = bottom; right = right })

unfoldable pub encode_rect : Rect → Writer → Writer
encode_rect m w = w ▸ put_i32 m.top ▸ put_i32 m.left ▸ put_i32 m.bottom ▸ put_i32 m.right
