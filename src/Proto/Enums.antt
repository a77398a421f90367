-- ===== src/Proto/Enums.antt =====
-- crates/capsaicin-proto/src/enums.rs and limits.rs: the link's constants, channel types, link errors,
-- and the caps on sizes that a peer declares.
pub mod Tags
use capsaicin.Base.{
  ℕ, ◌+◌, ◌*◌, ◌/◌, ◌^◌, ◌-◌, ◌≡◌, ◌<◌, ◌≤◌, refl, ltb, ◌==◌, if◌then◌else◌, arith,
}
use capsaicin.Base.Outcome.{Outcome, ok, err}
use capsaicin.Proto.Error.{ProtoError, bad_channel_type, bad_link_error, size_too_large}
use Prim.Native.Nat.{min}

abbrev pub spice_magic : ℕ
spice_magic = 0x51444552

abbrev pub spice_version_major : ℕ
spice_version_major = 2

abbrev pub spice_version_minor : ℕ
spice_version_minor = 2

abbrev pub spice_ticket_pubkey_bytes : ℕ
spice_ticket_pubkey_bytes = 162

abbrev pub max_link_payload : ℕ
max_link_payload = 4 * 1024

abbrev pub max_caps_entries : ℕ
max_caps_entries = 64

abbrev pub max_channels_list : ℕ
max_channels_list = 256

abbrev pub max_chunk_bytes : ℕ
max_chunk_bytes = 32 * 1024 * 1024

abbrev pub max_chunk_count : ℕ
max_chunk_count = max_chunk_bytes / 4

unfoldable pub bounded_size : ℕ → ℕ → Outcome ProtoError ℕ
bounded_size claimed max =
    if ltb max claimed then err (size_too_large claimed (min max (2 ^ 32 - 1))) else ok claimed

unfoldable pub bounded_count : ℕ → ℕ → Outcome ProtoError ℕ
unfolding bounded_size
bounded_count claimed max = bounded_size claimed max

pub data ChannelType : Type 0 where
  main display inputs cursor playback record_channel tunnel smartcard usb_redir port web_dav :
      ChannelType

-- `self as u8`
unfoldable pub channel_type_to_u8 : ChannelType → ℕ
channel_type_to_u8 main = 1
channel_type_to_u8 display = 2
channel_type_to_u8 inputs = 3
channel_type_to_u8 cursor = 4
channel_type_to_u8 playback = 5
channel_type_to_u8 record_channel = 6
channel_type_to_u8 tunnel = 7
channel_type_to_u8 smartcard = 8
channel_type_to_u8 usb_redir = 9
channel_type_to_u8 port = 10
channel_type_to_u8 web_dav = 11

unfoldable pub channel_type_from_u8 : ℕ → Outcome ProtoError ChannelType
channel_type_from_u8 v =
    if v == 1
    then ok main
    else if v == 2
    then ok display
    else if v == 3
    then ok inputs
    else if v == 4
    then ok cursor
    else if v == 5
    then ok playback
    else if v == 6
    then ok record_channel
    else if v == 7
    then ok tunnel
    else if v == 8
    then ok smartcard
    else if v == 9
    then ok usb_redir
    else if v == 10
    then ok port
    else if v == 11
    then ok web_dav
    else err (bad_channel_type v)

pub data LinkError : Type 0 where
  no_error error invalid_magic invalid_data version_mismatch need_secured need_unsecured
        permission_denied bad_connection_id channel_not_available :
      LinkError

-- `self as u32`
unfoldable pub link_error_to_u32 : LinkError → ℕ
link_error_to_u32 no_error = 0
link_error_to_u32 error = 1
link_error_to_u32 invalid_magic = 2
link_error_to_u32 invalid_data = 3
link_error_to_u32 version_mismatch = 4
link_error_to_u32 need_secured = 5
link_error_to_u32 need_unsecured = 6
link_error_to_u32 permission_denied = 7
link_error_to_u32 bad_connection_id = 8
link_error_to_u32 channel_not_available = 9

unfoldable pub link_error_from_u32 : ℕ → Outcome ProtoError LinkError
link_error_from_u32 v =
    if v == 0
    then ok no_error
    else if v == 1
    then ok error
    else if v == 2
    then ok invalid_magic
    else if v == 3
    then ok invalid_data
    else if v == 4
    then ok version_mismatch
    else if v == 5
    then ok need_secured
    else if v == 6
    then ok need_unsecured
    else if v == 7
    then ok permission_denied
    else if v == 8
    then ok bad_connection_id
    else if v == 9
    then ok channel_not_available
    else err (bad_link_error v)
