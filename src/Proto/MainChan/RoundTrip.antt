-- ===== src/Proto/MainChan/RoundTrip.antt =====
-- Decoding what was encoded, for the messages of crates/capsaicin-proto/src/main_chan.rs.
use capsaicin.Base.{ℕ, ◌≡◌, List, [], ◌++◌}
use capsaicin.Base.Outcome.{ok}
use capsaicin.Proto.MainChan.{
  Init, decode_init, encode_init, ClientInfo, decode_client_info, encode_client_info, MouseMode,
  decode_mouse_mode, encode_mouse_mode, MouseModeRequest, decode_mouse_mode_request,
  encode_mouse_mode_request, MultiMediaTime, decode_multi_media_time, encode_multi_media_time,
}
use capsaicin.Proto.MainChan.Wire.{
  FitsInit, encode_init_lem, decode-wire_init, FitsClientInfo, encode_client_info_lem,
  decode-wire_client_info, FitsMouseMode, encode_mouse_mode_lem, decode-wire_mouse_mode,
  FitsMouseModeRequest, encode_mouse_mode_request_lem, decode-wire_mouse_mode_request,
  FitsMultiMediaTime, encode_multi_media_time_lem, decode-wire_multi_media_time,
}

-- An Init, ClientInfo, MouseMode, MouseModeRequest or MultiMediaTime message whose fields fit their
-- widths is read back by its decoder from what its encoder writes to an empty buffer, whatever bytes
-- follow.
pub main_chan_roundtrip :
    (a : Init) (b : ClientInfo) (c : MouseMode) (d : MouseModeRequest) (e : MultiMediaTime)
    (rest : List ℕ)
    → FitsInit a
    → FitsClientInfo b
    → FitsMouseMode c
    → FitsMouseModeRequest d
    → FitsMultiMediaTime e
    → (decode_init (encode_init a [] ++ rest) ≡ ok a)
      × (decode_client_info (encode_client_info b [] ++ rest) ≡ ok b)
      × (decode_mouse_mode (encode_mouse_mode c [] ++ rest) ≡ ok c)
      × (decode_mouse_mode_request (encode_mouse_mode_request d [] ++ rest) ≡ ok d)
      × (decode_multi_media_time (encode_multi_media_time e [] ++ rest) ≡ ok e)
main_chan_roundtrip a b c d e rest fa fb fc fd fe = (
  rw (encode_init_lem a []) (decode-wire_init a rest fa),
  rw (encode_client_info_lem b []) (decode-wire_client_info b rest fb),
  rw (encode_mouse_mode_lem c []) (decode-wire_mouse_mode c rest fc),
  rw (encode_mouse_mode_request_lem d []) (decode-wire_mouse_mode_request d rest fd),
  rw (encode_multi_media_time_lem e []) (decode-wire_multi_media_time e rest fe),
)
