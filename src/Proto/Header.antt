-- ===== src/Proto/Header.antt =====
-- crates/capsaicin-proto/src/header.rs: the headers in front of each message.
pub mod RoundTrip
use capsaicin.Base.{ℕ, List, ◌++◌, ltb, length, to_le_bytes, le_uint}
use capsaicin.Base.Outcome.{Outcome, ok, fail_if, ◌>>=◌, ◌>>◌}
use capsaicin.Proto.Error.{ProtoError, short}

abbrev pub data_header_size : ℕ
data_header_size = 18

abbrev pub mini_data_header_size : ℕ
mini_data_header_size = 6

pub record DataHeader : Type 0 where
  pub serial : ℕ
  pub msg_type : ℕ
  pub size : ℕ
  pub sub_list : ℕ

unfoldable pub decode_data_header : List ℕ → Outcome ProtoError DataHeader
decode_data_header buf = do
  fail_if (ltb (length buf) data_header_size) (short data_header_size (length buf))
  serial ← le_uint 8 buf 0 8
  msg_type ← le_uint 2 buf 8 10
  size ← le_uint 4 buf 10 14
  sub_list ← le_uint 4 buf 14 18
  ok (record { serial = serial; msg_type = msg_type; size = size; sub_list = sub_list })

unfoldable pub encode_data_header : DataHeader → List ℕ → List ℕ
encode_data_header h out =
    out
    ++ to_le_bytes 8 h.serial
    ++ to_le_bytes 2 h.msg_type
    ++ to_le_bytes 4 h.size
    ++ to_le_bytes 4 h.sub_list

pub record MiniDataHeader : Type 0 where
  pub msg_type : ℕ
  pub size : ℕ

unfoldable pub decode_mini_data_header : List ℕ → Outcome ProtoError MiniDataHeader
decode_mini_data_header buf = do
  fail_if (ltb (length buf) mini_data_header_size) (short mini_data_header_size (length buf))
  msg_type ← le_uint 2 buf 0 2
  size ← le_uint 4 buf 2 6
  ok (record { msg_type = msg_type; size = size })

unfoldable pub encode_mini_data_header : MiniDataHeader → List ℕ → List ℕ
encode_mini_data_header h out = out ++ to_le_bytes 2 h.msg_type ++ to_le_bytes 4 h.size
