-- ===== src/Proto/Inputs/Wire.antt =====
-- The wire layouts of the messages of crates/capsaicin-proto/src/inputs.rs.
use capsaicin.Base.{ℕ, ◌≡◌, refl, List, [], ◌∷◌, ◌++◌, append_assoc, to_le_bytes, IsByte, IsU32}
use capsaicin.Base.Outcome.{ok}
use capsaicin.Base.Int.{IsI32}
use capsaicin.Proto.Reader.{put_u8, put_u32, put_i32, Writer}
use capsaicin.Proto.Reader.At.{u8-at, i32-at, unsigned-at, run-at, le_i32}
use capsaicin.Proto.Inputs.{
  InputsInit, decode_inputs_init, encode_inputs_init, KeyCode, decode_key_code, encode_key_code,
  MouseMotion, decode_mouse_motion, encode_mouse_motion, MousePosition, decode_mouse_position,
  encode_mouse_position, MouseButton, decode_mouse_button, encode_mouse_button,
}

pub record FitsInputsInit (m : InputsInit) : Type 0 where
  pub keyboard_modifiers : IsU32 m.keyboard_modifiers

unfoldable pub wire_inputs_init : InputsInit → List ℕ
wire_inputs_init m = to_le_bytes 4 m.keyboard_modifiers

pub encode_inputs_init_lem :
    (m : InputsInit) (w : Writer) → encode_inputs_init m w ≡ w ++ wire_inputs_init m
unfolding encode_inputs_init wire_inputs_init put_u32
encode_inputs_init_lem m w = refl

pub decode-wire_inputs_init :
    (m : InputsInit) (rest : List ℕ)
    → FitsInputsInit m
    → decode_inputs_init (wire_inputs_init m ++ rest) ≡ ok m
unfolding decode_inputs_init wire_inputs_init
decode-wire_inputs_init m rest h = simp (run-at, unsigned-at, h.keyboard_modifiers)

pub record FitsKeyCode (m : KeyCode) : Type 0 where
  pub code : IsU32 m.code

unfoldable pub wire_key_code : KeyCode → List ℕ
wire_key_code m = to_le_bytes 4 m.code

pub encode_key_code_lem : (m : KeyCode) (w : Writer) → encode_key_code m w ≡ w ++ wire_key_code m
unfolding encode_key_code wire_key_code put_u32
encode_key_code_lem m w = refl

pub decode-wire_key_code :
    (m : KeyCode) (rest : List ℕ) → FitsKeyCode m → decode_key_code (wire_key_code m ++ rest) ≡ ok m
unfolding decode_key_code wire_key_code
decode-wire_key_code m rest h = simp (run-at, unsigned-at, h.code)

pub record FitsMouseMotion (m : MouseMotion) : Type 0 where
  pub dx : IsI32 m.dx
  pub dy : IsI32 m.dy
  pub buttons_state : IsU32 m.buttons_state

unfoldable pub wire_mouse_motion : MouseMotion → List ℕ
wire_mouse_motion m = le_i32 m.dx ++ (le_i32 m.dy ++ (to_le_bytes 4 m.buttons_state))

pub encode_mouse_motion_lem :
    (m : MouseMotion) (w : Writer) → encode_mouse_motion m w ≡ w ++ wire_mouse_motion m
unfolding encode_mouse_motion wire_mouse_motion put_i32 put_u32
encode_mouse_motion_lem m w = simp (append_assoc)

pub decode-wire_mouse_motion :
    (m : MouseMotion) (rest : List ℕ)
    → FitsMouseMotion m
    → decode_mouse_motion (wire_mouse_motion m ++ rest) ≡ ok m
unfolding decode_mouse_motion wire_mouse_motion
decode-wire_mouse_motion m rest h =
    simp (run-at, append_assoc, i32-at, unsigned-at, h.dx, h.dy, h.buttons_state)

pub record FitsMousePosition (m : MousePosition) : Type 0 where
  pub x : IsU32 m.x
  pub y : IsU32 m.y
  pub buttons_state : IsU32 m.buttons_state
  pub display_id : IsByte m.display_id

unfoldable pub wire_mouse_position : MousePosition → List ℕ
wire_mouse_position m =
    to_le_bytes 4 m.x
    ++ (to_le_bytes 4 m.y ++ (to_le_bytes 4 m.buttons_state ++ ((m.display_id ∷ []))))

pub encode_mouse_position_lem :
    (m : MousePosition) (w : Writer) → encode_mouse_position m w ≡ w ++ wire_mouse_position m
unfolding encode_mouse_position wire_mouse_position put_u32 put_u8
encode_mouse_position_lem m w = simp (append_assoc)

pub decode-wire_mouse_position :
    (m : MousePosition) (rest : List ℕ)
    → FitsMousePosition m
    → decode_mouse_position (wire_mouse_position m ++ rest) ≡ ok m
unfolding decode_mouse_position wire_mouse_position
decode-wire_mouse_position m rest h =
    simp (run-at, append_assoc, unsigned-at, u8-at, h.x, h.y, h.buttons_state)

pub record FitsMouseButton (m : MouseButton) : Type 0 where
  pub button : IsByte m.button
  pub buttons_state : IsU32 m.buttons_state

unfoldable pub wire_mouse_button : MouseButton → List ℕ
wire_mouse_button m = (m.button ∷ []) ++ (to_le_bytes 4 m.buttons_state)

pub encode_mouse_button_lem :
    (m : MouseButton) (w : Writer) → encode_mouse_button m w ≡ w ++ wire_mouse_button m
unfolding encode_mouse_button wire_mouse_button put_u32 put_u8
encode_mouse_button_lem m w = simp (append_assoc)

pub decode-wire_mouse_button :
    (m : MouseButton) (rest : List ℕ)
    → FitsMouseButton m
    → decode_mouse_button (wire_mouse_button m ++ rest) ≡ ok m
unfolding decode_mouse_button wire_mouse_button
decode-wire_mouse_button m rest h = simp (run-at, append_assoc, u8-at, unsigned-at, h.buttons_state)
