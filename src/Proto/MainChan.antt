-- ===== src/Proto/MainChan.antt =====
-- The message bodies of crates/capsaicin-proto/src/main_chan.rs.
pub mod Channels
pub mod Wire
pub mod RoundTrip
pub mod Sizes
use capsaicin.Base.{ℕ, List}
use capsaicin.Base.Outcome.{Outcome}
use capsaicin.Base.Int.{ℤ}
use capsaicin.Proto.Error.{ProtoError}
use capsaicin.Proto.Types.{Rect, decode_rect, encode_rect}
use capsaicin.Proto.Reader.{
  Read, Writer, ◌>>=◌, ◌▸◌, pure, run, u8, u16, u32, u64, i16, i32, i64, put_u8, put_u16, put_u32,
  put_u64, put_i16, put_i32, put_i64,
}

pub record Init : Type 0 where
  pub session_id : ℕ
  pub display_channels_hint : ℕ
  pub supported_mouse_modes : ℕ
  pub current_mouse_mode : ℕ
  pub agent_connected : ℕ
  pub agent_tokens : ℕ
  pub multi_media_time : ℕ
  pub ram_hint : ℕ

unfoldable pub decode_init : List ℕ → Outcome ProtoError Init
decode_init = run do
  session_id ← u32
  display_channels_hint ← u32
  supported_mouse_modes ← u32
  current_mouse_mode ← u32
  agent_connected ← u32
  agent_tokens ← u32
  multi_media_time ← u32
  ram_hint ← u32
  pure (record {
    session_id = session_id;
    display_channels_hint = display_channels_hint;
    supported_mouse_modes = supported_mouse_modes;
    current_mouse_mode = current_mouse_mode;
    agent_connected = agent_connected;
    agent_tokens = agent_tokens;
    multi_media_time = multi_media_time;
    ram_hint = ram_hint;
  })

unfoldable pub encode_init : Init → Writer → Writer
encode_init m w =
    w
    ▸ put_u32 m.session_id
    ▸ put_u32 m.display_channels_hint
    ▸ put_u32 m.supported_mouse_modes
    ▸ put_u32 m.current_mouse_mode
    ▸ put_u32 m.agent_connected
    ▸ put_u32 m.agent_tokens
    ▸ put_u32 m.multi_media_time
    ▸ put_u32 m.ram_hint

pub record ClientInfo : Type 0 where
  pub cache_size : ℕ

unfoldable pub decode_client_info : List ℕ → Outcome ProtoError ClientInfo
decode_client_info = run do cache_size ← u64; pure (record { cache_size = cache_size })

unfoldable pub encode_client_info : ClientInfo → Writer → Writer
encode_client_info m w = w ▸ put_u64 m.cache_size

pub record MouseMode : Type 0 where
  pub supported_modes : ℕ
  pub current_mode : ℕ

unfoldable pub decode_mouse_mode : List ℕ → Outcome ProtoError MouseMode
decode_mouse_mode = run do
  supported_modes ← u32
  current_mode ← u32
  pure (record { supported_modes = supported_modes; current_mode = current_mode })

unfoldable pub encode_mouse_mode : MouseMode → Writer → Writer
encode_mouse_mode m w = w ▸ put_u32 m.supported_modes ▸ put_u32 m.current_mode

pub record MouseModeRequest : Type 0 where
  pub mode : ℕ

unfoldable pub decode_mouse_mode_request : List ℕ → Outcome ProtoError MouseModeRequest
decode_mouse_mode_request = run do mode ← u32; pure (record { mode = mode })

unfoldable pub encode_mouse_mode_request : MouseModeRequest → Writer → Writer
encode_mouse_mode_request m w = w ▸ put_u32 m.mode

pub record MultiMediaTime : Type 0 where
  pub time : ℕ

unfoldable pub decode_multi_media_time : List ℕ → Outcome ProtoError MultiMediaTime
decode_multi_media_time = run do time ← u32; pure (record { time = time })

unfoldable pub encode_multi_media_time : MultiMediaTime → Writer → Writer
encode_multi_media_time m w = w ▸ put_u32 m.time
