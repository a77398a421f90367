-- ===== src/Proto/MainChan/Sizes.antt =====
-- How many bytes the decoders of crates/capsaicin-proto/src/main_chan.rs want.
use capsaicin.Base.{[], ◌∷◌}
use capsaicin.Proto.Reader.Layout.{DecodesAt, DecodesAt-run, layout_rules}
use capsaicin.Proto.MainChan.{
  decode_init, decode_client_info, decode_mouse_mode, decode_mouse_mode_request,
  decode_multi_media_time,
}

DecodesAt-init : DecodesAt 32 decode_init
unfolding decode_init
DecodesAt-init =
    DecodesAt-run {ns = 4 ∷ 4 ∷ 4 ∷ 4 ∷ 4 ∷ 4 ∷ 4 ∷ 4 ∷ []} (search layout_rules depth 12)

DecodesAt-client_info : DecodesAt 8 decode_client_info
unfolding decode_client_info
DecodesAt-client_info = DecodesAt-run {ns = 8 ∷ []} (search layout_rules depth 12)

DecodesAt-mouse_mode : DecodesAt 8 decode_mouse_mode
unfolding decode_mouse_mode
DecodesAt-mouse_mode = DecodesAt-run {ns = 4 ∷ 4 ∷ []} (search layout_rules depth 12)

DecodesAt-mouse_mode_request : DecodesAt 4 decode_mouse_mode_request
unfolding decode_mouse_mode_request
DecodesAt-mouse_mode_request = DecodesAt-run {ns = 4 ∷ []} (search layout_rules depth 12)

DecodesAt-multi_media_time : DecodesAt 4 decode_multi_media_time
unfolding decode_multi_media_time
DecodesAt-multi_media_time = DecodesAt-run {ns = 4 ∷ []} (search layout_rules depth 12)

-- Each decoder accepts exactly the buffers that have the message's size or more, and answers
-- `short` on every other: it never panics.
pub main_chan_sizes :
    DecodesAt 32 decode_init
    × DecodesAt 8 decode_client_info
    × DecodesAt 8 decode_mouse_mode
    × DecodesAt 4 decode_mouse_mode_request
    × DecodesAt 4 decode_multi_media_time
main_chan_sizes = (
  DecodesAt-init, DecodesAt-client_info, DecodesAt-mouse_mode, DecodesAt-mouse_mode_request,
  DecodesAt-multi_media_time,
)
