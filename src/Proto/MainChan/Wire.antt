-- ===== src/Proto/MainChan/Wire.antt =====
-- The wire layouts of the messages of crates/capsaicin-proto/src/main_chan.rs.
use capsaicin.Base.{ℕ, ◌≡◌, refl, List, ◌++◌, append_assoc, to_le_bytes, IsU32, IsU64}
use capsaicin.Base.Outcome.{ok}
use capsaicin.Proto.Reader.{put_u32, put_u64, Writer}
use capsaicin.Proto.Reader.At.{unsigned-at, run-at}
use capsaicin.Proto.MainChan.{
  Init, decode_init, encode_init, ClientInfo, decode_client_info, encode_client_info, MouseMode,
  decode_mouse_mode, encode_mouse_mode, MouseModeRequest, decode_mouse_mode_request,
  encode_mouse_mode_request, MultiMediaTime, decode_multi_media_time, encode_multi_media_time,
}

pub record FitsInit (m : Init) : Type 0 where
  pub session_id : IsU32 m.session_id
  pub display_channels_hint : IsU32 m.display_channels_hint
  pub supported_mouse_modes : IsU32 m.supported_mouse_modes
  pub current_mouse_mode : IsU32 m.current_mouse_mode
  pub agent_connected : IsU32 m.agent_connected
  pub agent_tokens : IsU32 m.agent_tokens
  pub multi_media_time : IsU32 m.multi_media_time
  pub ram_hint : IsU32 m.ram_hint

unfoldable pub wire_init : Init → List ℕ
wire_init m =
    to_le_bytes 4 m.session_id
    ++ (to_le_bytes 4 m.display_channels_hint
        ++ (to_le_bytes 4 m.supported_mouse_modes
            ++ (to_le_bytes 4 m.current_mouse_mode
                ++ (to_le_bytes 4 m.agent_connected
                    ++ (to_le_bytes 4 m.agent_tokens
                        ++ (to_le_bytes 4 m.multi_media_time ++ (to_le_bytes 4 m.ram_hint)))))))

pub encode_init_lem : (m : Init) (w : Writer) → encode_init m w ≡ w ++ wire_init m
unfolding encode_init wire_init put_u32
encode_init_lem m w = simp (append_assoc)

pub decode-wire_init :
    (m : Init) (rest : List ℕ) → FitsInit m → decode_init (wire_init m ++ rest) ≡ ok m
unfolding decode_init wire_init
decode-wire_init m rest h = simp (
  run-at, append_assoc, unsigned-at, h.session_id, h.display_channels_hint, h.supported_mouse_modes,
  h.current_mouse_mode, h.agent_connected, h.agent_tokens, h.multi_media_time, h.ram_hint,
)

pub record FitsClientInfo (m : ClientInfo) : Type 0 where
  pub cache_size : IsU64 m.cache_size

unfoldable pub wire_client_info : ClientInfo → List ℕ
wire_client_info m = to_le_bytes 8 m.cache_size

pub encode_client_info_lem :
    (m : ClientInfo) (w : Writer) → encode_client_info m w ≡ w ++ wire_client_info m
unfolding encode_client_info wire_client_info put_u64
encode_client_info_lem m w = refl

pub decode-wire_client_info :
    (m : ClientInfo) (rest : List ℕ)
    → FitsClientInfo m
    → decode_client_info (wire_client_info m ++ rest) ≡ ok m
unfolding decode_client_info wire_client_info
decode-wire_client_info m rest h = simp (run-at, unsigned-at, h.cache_size)

pub record FitsMouseMode (m : MouseMode) : Type 0 where
  pub supported_modes : IsU32 m.supported_modes
  pub current_mode : IsU32 m.current_mode

unfoldable pub wire_mouse_mode : MouseMode → List ℕ
wire_mouse_mode m = to_le_bytes 4 m.supported_modes ++ (to_le_bytes 4 m.current_mode)

pub encode_mouse_mode_lem :
    (m : MouseMode) (w : Writer) → encode_mouse_mode m w ≡ w ++ wire_mouse_mode m
unfolding encode_mouse_mode wire_mouse_mode put_u32
encode_mouse_mode_lem m w = simp (append_assoc)

pub decode-wire_mouse_mode :
    (m : MouseMode) (rest : List ℕ)
    → FitsMouseMode m
    → decode_mouse_mode (wire_mouse_mode m ++ rest) ≡ ok m
unfolding decode_mouse_mode wire_mouse_mode
decode-wire_mouse_mode m rest h =
    simp (run-at, append_assoc, unsigned-at, h.supported_modes, h.current_mode)

pub record FitsMouseModeRequest (m : MouseModeRequest) : Type 0 where
  pub mode : IsU32 m.mode

unfoldable pub wire_mouse_mode_request : MouseModeRequest → List ℕ
wire_mouse_mode_request m = to_le_bytes 4 m.mode

pub encode_mouse_mode_request_lem :
    (m : MouseModeRequest) (w : Writer)
    → encode_mouse_mode_request m w ≡ w ++ wire_mouse_mode_request m
unfolding encode_mouse_mode_request wire_mouse_mode_request put_u32
encode_mouse_mode_request_lem m w = refl

pub decode-wire_mouse_mode_request :
    (m : MouseModeRequest) (rest : List ℕ)
    → FitsMouseModeRequest m
    → decode_mouse_mode_request (wire_mouse_mode_request m ++ rest) ≡ ok m
unfolding decode_mouse_mode_request wire_mouse_mode_request
decode-wire_mouse_mode_request m rest h = simp (run-at, unsigned-at, h.mode)

pub record FitsMultiMediaTime (m : MultiMediaTime) : Type 0 where
  pub time : IsU32 m.time

unfoldable pub wire_multi_media_time : MultiMediaTime → List ℕ
wire_multi_media_time m = to_le_bytes 4 m.time

pub encode_multi_media_time_lem :
    (m : MultiMediaTime) (w : Writer) → encode_multi_media_time m w ≡ w ++ wire_multi_media_time m
unfolding encode_multi_media_time wire_multi_media_time put_u32
encode_multi_media_time_lem m w = refl

pub decode-wire_multi_media_time :
    (m : MultiMediaTime) (rest : List ℕ)
    → FitsMultiMediaTime m
    → decode_multi_media_time (wire_multi_media_time m ++ rest) ≡ ok m
unfolding decode_multi_media_time wire_multi_media_time
decode-wire_multi_media_time m rest h = simp (run-at, unsigned-at, h.time)
