-- ===== src/Proto/Inputs/RoundTrip.antt =====
-- Decoding what was encoded, for the messages of crates/capsaicin-proto/src/inputs.rs.
use capsaicin.Base.{ℕ, ◌≡◌, List, [], ◌++◌}
use capsaicin.Base.Outcome.{ok}
use capsaicin.Proto.Inputs.{
  InputsInit, decode_inputs_init, encode_inputs_init, KeyCode, decode_key_code, encode_key_code,
  MouseMotion, decode_mouse_motion, encode_mouse_motion, MousePosition, decode_mouse_position,
  encode_mouse_position, MouseButton, decode_mouse_button, encode_mouse_button,
}
use capsaicin.Proto.Inputs.Wire.{
  FitsInputsInit, encode_inputs_init_lem, decode-wire_inputs_init, FitsKeyCode, encode_key_code_lem,
  decode-wire_key_code, FitsMouseMotion, encode_mouse_motion_lem, decode-wire_mouse_motion,
  FitsMousePosition, encode_mouse_position_lem, decode-wire_mouse_position, FitsMouseButton,
  encode_mouse_button_lem, decode-wire_mouse_button,
}

-- An InputsInit, KeyCode, MouseMotion, MousePosition or MouseButton message whose fields fit their
-- widths is read back by its decoder from what its encoder writes to an empty buffer, whatever bytes
-- follow.
pub inputs_roundtrip :
    (a : InputsInit) (b : KeyCode) (c : MouseMotion) (d : MousePosition) (e : MouseButton)
    (rest : List ℕ)
    → FitsInputsInit a
    → FitsKeyCode b
    → FitsMouseMotion c
    → FitsMousePosition d
    → FitsMouseButton e
    → (decode_inputs_init (encode_inputs_init a [] ++ rest) ≡ ok a)
      × (decode_key_code (encode_key_code b [] ++ rest) ≡ ok b)
      × (decode_mouse_motion (encode_mouse_motion c [] ++ rest) ≡ ok c)
      × (decode_mouse_position (encode_mouse_position d [] ++ rest) ≡ ok d)
      × (decode_mouse_button (encode_mouse_button e [] ++ rest) ≡ ok e)
inputs_roundtrip a b c d e rest fa fb fc fd fe = (
  rw (encode_inputs_init_lem a []) (decode-wire_inputs_init a rest fa),
  rw (encode_key_code_lem b []) (decode-wire_key_code b rest fb),
  rw (encode_mouse_motion_lem c []) (decode-wire_mouse_motion c rest fc),
  rw (encode_mouse_position_lem d []) (decode-wire_mouse_position d rest fd),
  rw (encode_mouse_button_lem e []) (decode-wire_mouse_button e rest fe),
)
