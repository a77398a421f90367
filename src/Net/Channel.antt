-- ===== src/Net/Channel.antt =====
-- crates/capsaicin-net/src/channel.rs: messages behind their headers. An error ends the connection,
-- so an operation gives the channel back on success only.
pub mod Framing
pub mod Sequence
use capsaicin.Base.{
  ℕ, ◌+◌, ◌-◌, ◌*◌, ◌%◌, ◌^◌, Bool, Option, none, some, List, [], ◌++◌, ltb, if◌then◌else◌, length,
}
use capsaicin.Base.Outcome.{Outcome, ok, fail_if, ◌>>=◌, ◌>>◌}
use capsaicin.Proto.Header.{
  DataHeader, decode_data_header, encode_data_header, data_header_size, MiniDataHeader,
  decode_mini_data_header, encode_mini_data_header, mini_data_header_size,
}
use capsaicin.Net.{NetError, message_too_large, from_io, from_proto, StreamOps}

abbrev pub default_max_message_size : ℕ
default_max_message_size = 32 * 1024 * 1024

pub record Message : Type 0 where
  pub msg_type : ℕ
  pub serial : Option ℕ
  pub body : List ℕ

pub record Channel (S : Type 0) : Type 0 where
  pub stream : S
  pub mini_header : Bool
  pub send_serial : ℕ
  pub max_message_size : ℕ

unfoldable pub new : {S : Type 0} → S → Bool → Channel S
new stream mini_header = record {
  stream = stream;
  mini_header = mini_header;
  send_serial = 1;
  max_message_size = default_max_message_size;
}

-- The header that a channel writes, and the channel behind it.
unfoldable pub next_header : {S : Type 0} → ℕ → ℕ → Channel S → List ℕ × Channel S
next_header msg_type size c =
    if c.mini_header
    then (encode_mini_data_header (record { msg_type = msg_type; size = size }) [], c)
    else (
      encode_data_header
          (record { serial = c.send_serial; msg_type = msg_type; size = size; sub_list = 0 }) [],
      record c { send_serial = (c.send_serial + 1) % 2 ^ 64 },
    )

module _ {S IoError : Type 0} (ops : StreamOps S IoError) where
  unfoldable pub read_body : Channel S → ℕ → Outcome (NetError IoError) (List ℕ × Channel S)
  read_body c size = do
    fail_if (ltb c.max_message_size size) (message_too_large size c.max_message_size)
    (body, stream) ← from_io (ops.read_exact size c.stream)
    ok (body, record c { stream = stream })

  unfoldable pub read_mini : Channel S → Outcome (NetError IoError) (Message × Channel S)
  read_mini c = do
    (hdr, stream) ← from_io (ops.read_exact mini_data_header_size c.stream)
    h ← from_proto (decode_mini_data_header hdr)
    (body, c) ← read_body (record c { stream = stream }) h.size
    ok (record { msg_type = h.msg_type; serial = none; body = body }, c)

  unfoldable pub read_full : Channel S → Outcome (NetError IoError) (Message × Channel S)
  read_full c = do
    (hdr, stream) ← from_io (ops.read_exact data_header_size c.stream)
    h ← from_proto (decode_data_header hdr)
    (body, c) ← read_body (record c { stream = stream }) h.size
    ok (record { msg_type = h.msg_type; serial = some h.serial; body = body }, c)

  unfoldable pub read_message : Channel S → Outcome (NetError IoError) (Message × Channel S)
  read_message c = if c.mini_header then read_mini c else read_full c

  unfoldable pub write_message : ℕ → List ℕ → Channel S → Outcome (NetError IoError) (Channel S)
  write_message msg_type body c = do
    fail_if (ltb (2 ^ 32 - 1) (length body)) (message_too_large (2 ^ 32 - 1) c.max_message_size)
    let size = length body % 2 ^ 32
    fail_if (ltb c.max_message_size size) (message_too_large size c.max_message_size)
    let next = next_header msg_type size c
    stream ← from_io (ops.write_all next.0 c.stream)
    stream ← from_io (ops.write_all body stream)
    ok (record next.1 { stream = stream })
