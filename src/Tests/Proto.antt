-- ===== src/Tests/Proto.antt =====
-- The fixed messages of crates/capsaicin-proto/src at concrete inputs.
use capsaicin.Base.{◌≡◌, [], ◌∷◌, ◌++◌, arith}
use capsaicin.Base.Outcome.{ok}
use capsaicin.Base.Int.{negsuc}
use capsaicin.Proto.Common.{
  SetAck, decode_set_ack, encode_set_ack, AckSync, decode_ack_sync, encode_ack_sync, Pong,
  decode_pong, encode_pong, Disconnecting, decode_disconnecting, encode_disconnecting,
}
use capsaicin.Proto.Common.RoundTrip.{common_roundtrip}
use capsaicin.Proto.Display.{
  DisplayInit, decode_display_init, encode_display_init, SurfaceCreate, decode_surface_create,
  encode_surface_create, SurfaceDestroy, decode_surface_destroy, encode_surface_destroy, Mode,
  decode_mode, encode_mode,
}
use capsaicin.Proto.Display.RoundTrip.{display_roundtrip}
use capsaicin.Proto.Inputs.{
  InputsInit, decode_inputs_init, encode_inputs_init, KeyCode, decode_key_code, encode_key_code,
  MouseMotion, decode_mouse_motion, encode_mouse_motion, MousePosition, decode_mouse_position,
  encode_mouse_position, MouseButton, decode_mouse_button, encode_mouse_button,
}
use capsaicin.Proto.Inputs.RoundTrip.{inputs_roundtrip}
use capsaicin.Proto.MainChan.{
  Init, decode_init, encode_init, ClientInfo, decode_client_info, encode_client_info, MouseMode,
  decode_mouse_mode, encode_mouse_mode, MouseModeRequest, decode_mouse_mode_request,
  encode_mouse_mode_request, MultiMediaTime, decode_multi_media_time, encode_multi_media_time,
}
use capsaicin.Proto.MainChan.RoundTrip.{main_chan_roundtrip}

abbrev sample_set_ack : SetAck
sample_set_ack = record { generation = 11; window = 22 }

abbrev sample_ack_sync : AckSync
sample_ack_sync = record { generation = 12 }

abbrev sample_pong : Pong
sample_pong = record { id = 13; timestamp = 24 }

abbrev sample_disconnecting : Disconnecting
sample_disconnecting = record { time_stamp = 14; reason = 25 }

common_roundtrip_example :
    (decode_set_ack (encode_set_ack sample_set_ack [] ++ 255 ∷ []) ≡ ok sample_set_ack)
    × (decode_ack_sync (encode_ack_sync sample_ack_sync [] ++ 255 ∷ []) ≡ ok sample_ack_sync)
    × (decode_pong (encode_pong sample_pong [] ++ 255 ∷ []) ≡ ok sample_pong)
    × (decode_disconnecting (encode_disconnecting sample_disconnecting [] ++ 255 ∷ [])
        ≡ ok sample_disconnecting)
common_roundtrip_example =
    common_roundtrip sample_set_ack sample_ack_sync sample_pong sample_disconnecting (255 ∷ [])
      (record { generation = omega arith; window = omega arith })
      (record { generation = omega arith }) (record { id = omega arith; timestamp = omega arith })
      (record { time_stamp = omega arith; reason = omega arith })

abbrev sample_display_init : DisplayInit
sample_display_init = record {
  pixmap_cache_id = 11;
  pixmap_cache_size = negsuc 3;
  glz_dictionary_id = 33;
  glz_dictionary_window_size = negsuc 5;
}

abbrev sample_surface_create : SurfaceCreate
sample_surface_create = record { surface_id = 12; width = 23; height = 34; format = 45; flags = 56 }

abbrev sample_surface_destroy : SurfaceDestroy
sample_surface_destroy = record { surface_id = 13 }

abbrev sample_mode : Mode
sample_mode = record { x_res = 14; y_res = 25; bits = 36 }

display_roundtrip_example :
    (decode_display_init (encode_display_init sample_display_init [] ++ 255 ∷ [])
      ≡ ok sample_display_init)
    × (decode_surface_create (encode_surface_create sample_surface_create [] ++ 255 ∷ [])
        ≡ ok sample_surface_create)
    × (decode_surface_destroy (encode_surface_destroy sample_surface_destroy [] ++ 255 ∷ [])
        ≡ ok sample_surface_destroy)
    × (decode_mode (encode_mode sample_mode [] ++ 255 ∷ []) ≡ ok sample_mode)
display_roundtrip_example =
    display_roundtrip sample_display_init sample_surface_create sample_surface_destroy sample_mode
      (255 ∷ [])
      (record {
        pixmap_cache_id = omega arith;
        pixmap_cache_size = omega arith;
        glz_dictionary_id = omega arith;
        glz_dictionary_window_size = omega arith;
      })
      (record {
        surface_id = omega arith;
        width = omega arith;
        height = omega arith;
        format = omega arith;
        flags = omega arith;
      })
      (record { surface_id = omega arith })
      (record { x_res = omega arith; y_res = omega arith; bits = omega arith })

abbrev sample_inputs_init : InputsInit
sample_inputs_init = record { keyboard_modifiers = 11 }

abbrev sample_key_code : KeyCode
sample_key_code = record { code = 12 }

abbrev sample_mouse_motion : MouseMotion
sample_mouse_motion = record { dx = negsuc 2; dy = negsuc 3; buttons_state = 35 }

abbrev sample_mouse_position : MousePosition
sample_mouse_position = record { x = 14; y = 25; buttons_state = 36; display_id = 47 }

abbrev sample_mouse_button : MouseButton
sample_mouse_button = record { button = 15; buttons_state = 26 }

inputs_roundtrip_example :
    (decode_inputs_init (encode_inputs_init sample_inputs_init [] ++ 255 ∷ [])
      ≡ ok sample_inputs_init)
    × (decode_key_code (encode_key_code sample_key_code [] ++ 255 ∷ []) ≡ ok sample_key_code)
    × (decode_mouse_motion (encode_mouse_motion sample_mouse_motion [] ++ 255 ∷ [])
        ≡ ok sample_mouse_motion)
    × (decode_mouse_position (encode_mouse_position sample_mouse_position [] ++ 255 ∷ [])
        ≡ ok sample_mouse_position)
    × (decode_mouse_button (encode_mouse_button sample_mouse_button [] ++ 255 ∷ [])
        ≡ ok sample_mouse_button)
inputs_roundtrip_example =
    inputs_roundtrip sample_inputs_init sample_key_code sample_mouse_motion sample_mouse_position
      sample_mouse_button (255 ∷ []) (record { keyboard_modifiers = omega arith })
      (record { code = omega arith })
      (record { dx = omega arith; dy = omega arith; buttons_state = omega arith })
      (record {
        x = omega arith;
        y = omega arith;
        buttons_state = omega arith;
        display_id = omega arith;
      })
      (record { button = omega arith; buttons_state = omega arith })

abbrev sample_init : Init
sample_init = record {
  session_id = 11;
  display_channels_hint = 22;
  supported_mouse_modes = 33;
  current_mouse_mode = 44;
  agent_connected = 55;
  agent_tokens = 66;
  multi_media_time = 77;
  ram_hint = 88;
}

abbrev sample_client_info : ClientInfo
sample_client_info = record { cache_size = 12 }

abbrev sample_mouse_mode : MouseMode
sample_mouse_mode = record { supported_modes = 13; current_mode = 24 }

abbrev sample_mouse_mode_request : MouseModeRequest
sample_mouse_mode_request = record { mode = 14 }

abbrev sample_multi_media_time : MultiMediaTime
sample_multi_media_time = record { time = 15 }

main_chan_roundtrip_example :
    (decode_init (encode_init sample_init [] ++ 255 ∷ []) ≡ ok sample_init)
    × (decode_client_info (encode_client_info sample_client_info [] ++ 255 ∷ [])
        ≡ ok sample_client_info)
    × (decode_mouse_mode (encode_mouse_mode sample_mouse_mode [] ++ 255 ∷ [])
        ≡ ok sample_mouse_mode)
    × (decode_mouse_mode_request
          (encode_mouse_mode_request sample_mouse_mode_request [] ++ 255 ∷ [])
        ≡ ok sample_mouse_mode_request)
    × (decode_multi_media_time (encode_multi_media_time sample_multi_media_time [] ++ 255 ∷ [])
        ≡ ok sample_multi_media_time)
main_chan_roundtrip_example =
    main_chan_roundtrip sample_init sample_client_info sample_mouse_mode sample_mouse_mode_request
      sample_multi_media_time (255 ∷ [])
      (record {
        session_id = omega arith;
        display_channels_hint = omega arith;
        supported_mouse_modes = omega arith;
        current_mouse_mode = omega arith;
        agent_connected = omega arith;
        agent_tokens = omega arith;
        multi_media_time = omega arith;
        ram_hint = omega arith;
      })
      (record { cache_size = omega arith })
      (record { supported_modes = omega arith; current_mode = omega arith })
      (record { mode = omega arith }) (record { time = omega arith })
