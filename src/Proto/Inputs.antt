-- ===== src/Proto/Inputs.antt =====
-- The message bodies of crates/capsaicin-proto/src/inputs.rs.
pub mod Wire
pub mod RoundTrip
pub mod Sizes
use capsaicin.Base.{ℕ, List}
use capsaicin.Base.Outcome.{Outcome}
use capsaicin.Base.Int.{ℤ}
use capsaicin.Proto.Error.{ProtoError}
use capsaicin.Proto.Types.{Rect, decode_rect, encode_rect}
use capsaicin.Proto.Reader.{
  Read, Writer, ◌>>=◌, ◌▸◌, pure, run, u8, u16, u32, u64, i16, i32, i64, put_u8, put_u16, put_u32,
  put_u64, put_i16, put_i32, put_i64,
}

pub record InputsInit : Type 0 where
  pub keyboard_modifiers : ℕ

unfoldable pub decode_inputs_init : List ℕ → Outcome ProtoError InputsInit
decode_inputs_init =
    run do keyboard_modifiers ← u32; pure (record { keyboard_modifiers = keyboard_modifiers })

unfoldable pub encode_inputs_init : InputsInit → Writer → Writer
encode_inputs_init m w = w ▸ put_u32 m.keyboard_modifiers

pub record KeyCode : Type 0 where
  pub code : ℕ

unfoldable pub decode_key_code : List ℕ → Outcome ProtoError KeyCode
decode_key_code = run do code ← u32; pure (record { code = code })

unfoldable pub encode_key_code : KeyCode → Writer → Writer
encode_key_code m w = w ▸ put_u32 m.code

pub record MouseMotion : Type 0 where
  pub dx : ℤ
  pub dy : ℤ
  pub buttons_state : ℕ

unfoldable pub decode_mouse_motion : List ℕ → Outcome ProtoError MouseMotion
decode_mouse_motion = run do
  dx ← i32
  dy ← i32
  buttons_state ← u32
  pure (record { dx = dx; dy = dy; buttons_state = buttons_state })

unfoldable pub encode_mouse_motion : MouseMotion → Writer → Writer
encode_mouse_motion m w = w ▸ put_i32 m.dx ▸ put_i32 m.dy ▸ put_u32 m.buttons_state

pub record MousePosition : Type 0 where
  pub x : ℕ
  pub y : ℕ
  pub buttons_state : ℕ
  pub display_id : ℕ

unfoldable pub decode_mouse_position : List ℕ → Outcome ProtoError MousePosition
decode_mouse_position = run do
  x ← u32
  y ← u32
  buttons_state ← u32
  display_id ← u8
  pure (record { x = x; y = y; buttons_state = buttons_state; display_id = display_id })

unfoldable pub encode_mouse_position : MousePosition → Writer → Writer
encode_mouse_position m w =
    w ▸ put_u32 m.x ▸ put_u32 m.y ▸ put_u32 m.buttons_state ▸ put_u8 m.display_id

pub record MouseButton : Type 0 where
  pub button : ℕ
  pub buttons_state : ℕ

unfoldable pub decode_mouse_button : List ℕ → Outcome ProtoError MouseButton
decode_mouse_button = run do
  button ← u8
  buttons_state ← u32
  pure (record { button = button; buttons_state = buttons_state })

unfoldable pub encode_mouse_button : MouseButton → Writer → Writer
encode_mouse_button m w = w ▸ put_u8 m.button ▸ put_u32 m.buttons_state
