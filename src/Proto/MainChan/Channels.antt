-- ===== src/Proto/MainChan/Channels.antt =====
-- `ChannelsList` of crates/capsaicin-proto/src/main_chan.rs.
use capsaicin.Base.{
  ℕ, ◌%◌, ◌^◌, ◌≤◌, ◌<◌, ◌≡◌, List, [], ◌∷◌, ◌++◌, append_assoc, arith, length, All, IsByte,
}
use capsaicin.Base.Outcome.{Outcome, ok}
use capsaicin.Proto.Error.{ProtoError}
use capsaicin.Proto.Enums.{bounded_count, max_channels_list}
use capsaicin.Proto.Enums.Tags.{bounded_count_within}
use capsaicin.Proto.Reader.{Read, Writer, ◌>>=◌, ◌▸◌, pure, lift, run, u32, u8, put_u32, put_u8}
use capsaicin.Proto.Reader.At.{at, run-at, unsigned-at, u8-at}
use capsaicin.Proto.Reader.Many.{many, put_many, put_many_lem, many-at}
use capsaicin.Proto.Types.{ChannelId}

pub record ChannelsList : Type 0 where
  pub channels : List ChannelId

-- The body of the loop.
unfoldable pub decode_channel_id : Read ChannelId
decode_channel_id = do
  channel_type ← u8
  id ← u8
  pure (record { channel_type = channel_type; id = id })

unfoldable pub encode_channel_id : ChannelId → Writer → Writer
encode_channel_id c w = w ▸ put_u8 c.channel_type ▸ put_u8 c.id

unfoldable pub decode_channels_list : List ℕ → Outcome ProtoError ChannelsList
decode_channels_list = run do
  claimed ← u32
  n ← lift (bounded_count claimed max_channels_list)
  channels ← many n decode_channel_id
  pure (record { channels = channels })

-- The number of channels is written `as u32`.
unfoldable pub encode_channels_list : ChannelsList → Writer → Writer
encode_channels_list m w =
    w ▸ put_u32 (length m.channels % 2 ^ 32) ▸ put_many encode_channel_id m.channels

abbrev pub IsChannelId : ChannelId → Type 0
IsChannelId c = IsByte c.channel_type × IsByte c.id

wire_channel_id : ChannelId → List ℕ
wire_channel_id c = c.channel_type ∷ c.id ∷ []

encode_channel_id_lem :
    (c : ChannelId) (w : Writer) → encode_channel_id c w ≡ w ++ wire_channel_id c
unfolding encode_channel_id wire_channel_id put_u8
encode_channel_id_lem c w = simp append_assoc

decode_channel_id-at :
    (c : ChannelId) (pre suf : List ℕ)
    → IsChannelId c
    → decode_channel_id (at pre (wire_channel_id c ++ suf))
      ≡ ok (c, at (pre ++ wire_channel_id c) suf)
unfolding decode_channel_id wire_channel_id
decode_channel_id-at c pre suf fits = simp (u8-at, append_assoc)

-- A list of 256 channels at most, each with two bytes for its type and number, is read back from what its encoder writes, whatever bytes follow.
pub channels_list_roundtrip :
    (m : ChannelsList) (rest : List ℕ)
    → length m.channels ≤ max_channels_list
    → All IsChannelId m.channels
    → decode_channels_list (encode_channels_list m [] ++ rest) ≡ ok m
unfolding decode_channels_list encode_channels_list put_u32
channels_list_roundtrip m rest few fits =
    let count : length m.channels % 2 ^ 32 ≡ length m.channels = omega arith in
    let small : length m.channels < 2 ^ 32 = omega arith in
    let listed =
      many-at decode_channel_id wire_channel_id IsChannelId decode_channel_id-at m.channels in
    simp (
      count,
      put_many_lem encode_channel_id wire_channel_id encode_channel_id_lem,
      run-at,
      append_assoc,
      unsigned-at,
      small,
      bounded_count_within (length m.channels) 256 few,
      listed,
      fits,
    )
