-- ===== src/Proto/Types/Wire.antt =====
-- The wire layout of a rectangle: what `encode_rect` writes and what `decode_rect` reads.
use capsaicin.Base.{ℕ, List, ◌++◌}
use capsaicin.Base.Int.{IsI32}
use capsaicin.Proto.Reader.At.{le_i32}
use capsaicin.Proto.Types.{Rect}

pub record FitsRect (m : Rect) : Type 0 where
  pub top : IsI32 m.top
  pub left : IsI32 m.left
  pub bottom : IsI32 m.bottom
  pub right : IsI32 m.right

unfoldable pub wire_rect : Rect → List ℕ
wire_rect m = le_i32 m.top ++ (le_i32 m.left ++ (le_i32 m.bottom ++ le_i32 m.right))
