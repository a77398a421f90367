-- ===== src/Tests/Lists.antt =====
-- The messages of variable size of crates/capsaicin-proto/src at concrete inputs.
use capsaicin.Base.{◌≡◌, [], ◌∷◌, ◌++◌, arith}
use capsaicin.Base.Outcome.{ok}
use capsaicin.Proto.Common.{decode_pong, encode_pong}
use capsaicin.Proto.Common.Ping.{Ping, decode_ping, encode_ping, from_ping, ping_roundtrip}
use capsaicin.Proto.Display.{Head}
use capsaicin.Proto.Display.Monitors.{
  MonitorsConfig, decode_monitors_config, encode_monitors_config, monitors_config_roundtrip,
}
use capsaicin.Proto.MainChan.Channels.{
  ChannelsList, decode_channels_list, encode_channels_list, channels_list_roundtrip,
}

abbrev sample_ping : Ping
sample_ping = record { id = 7; timestamp = 0x123456789a; «data» = 222 ∷ 173 ∷ [] }

ping_roundtrip_example :
    (decode_ping (encode_ping sample_ping []) ≡ ok sample_ping)
    × (decode_pong (encode_pong (from_ping sample_ping) [] ++ 9 ∷ [])
        ≡ ok (record { id = 7; timestamp = 0x123456789a }))
ping_roundtrip_example = ping_roundtrip sample_ping (9 ∷ []) (omega arith) (omega arith)

abbrev sample_head : Head
sample_head = record {
  id = 0;
  surface_id = 0;
  width = 1920;
  height = 1080;
  x = 0;
  y = 0;
  flags = 0;
}

abbrev sample_monitors : MonitorsConfig
sample_monitors = record { max_allowed = 4; heads = sample_head ∷ [] }

monitors_config_roundtrip_example :
    decode_monitors_config (encode_monitors_config sample_monitors [] ++ 9 ∷ [])
    ≡ ok sample_monitors
monitors_config_roundtrip_example =
    monitors_config_roundtrip sample_monitors (9 ∷ []) (omega arith) (omega arith) (
      record {
        id = omega arith;
        surface_id = omega arith;
        width = omega arith;
        height = omega arith;
        x = omega arith;
        y = omega arith;
        flags = omega arith;
      },
      tt,
    )

abbrev sample_channels : ChannelsList
sample_channels = record {
  channels = record { channel_type = 2; id = 0 } ∷ record { channel_type = 3; id = 0 } ∷ [];
}

channels_list_roundtrip_example :
    decode_channels_list (encode_channels_list sample_channels [] ++ 9 ∷ []) ≡ ok sample_channels
channels_list_roundtrip_example =
    channels_list_roundtrip sample_channels (9 ∷ []) (omega arith) (omega arith)
