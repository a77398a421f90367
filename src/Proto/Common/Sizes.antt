-- ===== src/Proto/Common/Sizes.antt =====
-- How many bytes the decoders of crates/capsaicin-proto/src/common.rs want.
use capsaicin.Base.{[], ◌∷◌}
use capsaicin.Proto.Reader.Layout.{DecodesAt, DecodesAt-run, layout_rules}
use capsaicin.Proto.Common.{decode_set_ack, decode_ack_sync, decode_pong, decode_disconnecting}

DecodesAt-set_ack : DecodesAt 8 decode_set_ack
unfolding decode_set_ack
DecodesAt-set_ack = DecodesAt-run {ns = 4 ∷ 4 ∷ []} (search layout_rules depth 12)

DecodesAt-ack_sync : DecodesAt 4 decode_ack_sync
unfolding decode_ack_sync
DecodesAt-ack_sync = DecodesAt-run {ns = 4 ∷ []} (search layout_rules depth 12)

DecodesAt-pong : DecodesAt 12 decode_pong
unfolding decode_pong
DecodesAt-pong = DecodesAt-run {ns = 4 ∷ 8 ∷ []} (search layout_rules depth 12)

DecodesAt-disconnecting : DecodesAt 12 decode_disconnecting
unfolding decode_disconnecting
DecodesAt-disconnecting = DecodesAt-run {ns = 8 ∷ 4 ∷ []} (search layout_rules depth 12)

-- Each decoder accepts exactly the buffers that have the message's size or more, and answers
-- `short` on every other: it never panics.
pub common_sizes :
    DecodesAt 8 decode_set_ack
    × DecodesAt 4 decode_ack_sync
    × DecodesAt 12 decode_pong
    × DecodesAt 12 decode_disconnecting
common_sizes = (DecodesAt-set_ack, DecodesAt-ack_sync, DecodesAt-pong, DecodesAt-disconnecting)
