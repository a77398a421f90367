-- ===== src/Proto/Inputs/Sizes.antt =====
-- How many bytes the decoders of crates/capsaicin-proto/src/inputs.rs want.
use capsaicin.Base.{[], ◌∷◌}
use capsaicin.Proto.Reader.Layout.{DecodesAt, DecodesAt-run, layout_rules}
use capsaicin.Proto.Inputs.{
  decode_inputs_init, decode_key_code, decode_mouse_motion, decode_mouse_position,
  decode_mouse_button,
}

DecodesAt-inputs_init : DecodesAt 4 decode_inputs_init
unfolding decode_inputs_init
DecodesAt-inputs_init = DecodesAt-run {ns = 4 ∷ []} (search layout_rules depth 12)

DecodesAt-key_code : DecodesAt 4 decode_key_code
unfolding decode_key_code
DecodesAt-key_code = DecodesAt-run {ns = 4 ∷ []} (search layout_rules depth 12)

DecodesAt-mouse_motion : DecodesAt 12 decode_mouse_motion
unfolding decode_mouse_motion
DecodesAt-mouse_motion = DecodesAt-run {ns = 4 ∷ 4 ∷ 4 ∷ []} (search layout_rules depth 12)

DecodesAt-mouse_position : DecodesAt 13 decode_mouse_position
unfolding decode_mouse_position
DecodesAt-mouse_position = DecodesAt-run {ns = 4 ∷ 4 ∷ 4 ∷ 1 ∷ []} (search layout_rules depth 12)

DecodesAt-mouse_button : DecodesAt 5 decode_mouse_button
unfolding decode_mouse_button
DecodesAt-mouse_button = DecodesAt-run {ns = 1 ∷ 4 ∷ []} (search layout_rules depth 12)

-- Each decoder accepts exactly the buffers that have the message's size or more, and answers
-- `short` on every other: it never panics.
pub inputs_sizes :
    DecodesAt 4 decode_inputs_init
    × DecodesAt 4 decode_key_code
    × DecodesAt 12 decode_mouse_motion
    × DecodesAt 13 decode_mouse_position
    × DecodesAt 5 decode_mouse_button
inputs_sizes = (
  DecodesAt-inputs_init, DecodesAt-key_code, DecodesAt-mouse_motion, DecodesAt-mouse_position,
  DecodesAt-mouse_button,
)
