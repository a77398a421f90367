-- ===== src/Proto/Display/Sizes.antt =====
-- How many bytes the decoders of crates/capsaicin-proto/src/display.rs want.
use capsaicin.Base.{[], ◌∷◌}
use capsaicin.Proto.Reader.Layout.{DecodesAt, DecodesAt-run, layout_rules}
use capsaicin.Proto.Display.{
  decode_display_init, decode_surface_create, decode_surface_destroy, decode_mode,
}

DecodesAt-display_init : DecodesAt 14 decode_display_init
unfolding decode_display_init
DecodesAt-display_init = DecodesAt-run {ns = 1 ∷ 8 ∷ 1 ∷ 4 ∷ []} (search layout_rules depth 12)

DecodesAt-surface_create : DecodesAt 20 decode_surface_create
unfolding decode_surface_create
DecodesAt-surface_create =
    DecodesAt-run {ns = 4 ∷ 4 ∷ 4 ∷ 4 ∷ 4 ∷ []} (search layout_rules depth 12)

DecodesAt-surface_destroy : DecodesAt 4 decode_surface_destroy
unfolding decode_surface_destroy
DecodesAt-surface_destroy = DecodesAt-run {ns = 4 ∷ []} (search layout_rules depth 12)

DecodesAt-mode : DecodesAt 12 decode_mode
unfolding decode_mode
DecodesAt-mode = DecodesAt-run {ns = 4 ∷ 4 ∷ 4 ∷ []} (search layout_rules depth 12)

-- Each decoder accepts exactly the buffers that have the message's size or more, and answers
-- `short` on every other: it never panics.
pub display_sizes :
    DecodesAt 14 decode_display_init
    × DecodesAt 20 decode_surface_create
    × DecodesAt 4 decode_surface_destroy
    × DecodesAt 12 decode_mode
display_sizes =
    (DecodesAt-display_init, DecodesAt-surface_create, DecodesAt-surface_destroy, DecodesAt-mode)
