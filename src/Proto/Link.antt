-- ===== src/Proto/Link.antt =====
-- crates/capsaicin-proto/src/link.rs: the messages of the link handshake.
pub mod Caps
pub mod RoundTrip
pub mod Reply
pub mod Safety
use capsaicin.Base.{
  ℕ, zero, suc, ◌+◌, ◌*◌, ◌%◌, ◌^◌, ◌||◌, not, List, [], ◌∷◌, ◌++◌, ltb, leb, ◌==◌, if◌then◌else◌,
  length, to_le_bytes, le_uint,
}
use capsaicin.Base.Outcome.{Outcome, ok, err, fail_if, ◌>>=◌, ◌>>◌, slice, index, to_array}
use capsaicin.Proto.Error.{ProtoError, short, bad_magic, bad_version, bad_caps_offset}
use capsaicin.Proto.Enums.{
  spice_magic, spice_version_major, spice_version_minor, spice_ticket_pubkey_bytes,
  max_caps_entries, bounded_count, ChannelType, channel_type_to_u8, channel_type_from_u8, LinkError,
  link_error_to_u32, link_error_from_u32,
}

abbrev pub link_header_size : ℕ
link_header_size = 16

abbrev pub link_mess_fixed_size : ℕ
link_mess_fixed_size = 18

abbrev pub link_reply_fixed_size : ℕ
link_reply_fixed_size = 4 + spice_ticket_pubkey_bytes + 4 + 4 + 4

abbrev pub link_result_size : ℕ
link_result_size = 4

pub record LinkHeader : Type 0 where
  pub magic : ℕ
  pub major_version : ℕ
  pub minor_version : ℕ
  pub size : ℕ

unfoldable pub new : ℕ → LinkHeader
new size = record {
  magic = spice_magic;
  major_version = spice_version_major;
  minor_version = spice_version_minor;
  size = size;
}

unfoldable pub decode_link_header : List ℕ → Outcome ProtoError LinkHeader
decode_link_header buf = do
  fail_if (ltb (length buf) link_header_size) (short link_header_size (length buf))
  magic ← le_uint 4 buf 0 4
  fail_if (not (magic == spice_magic)) (bad_magic spice_magic magic)
  major_version ← le_uint 4 buf 4 8
  minor_version ← le_uint 4 buf 8 12
  fail_if (not (major_version == spice_version_major)) (bad_version major_version minor_version)
  size ← le_uint 4 buf 12 16
  ok (record {
    magic = magic;
    major_version = major_version;
    minor_version = minor_version;
    size = size;
  })

unfoldable pub encode_link_header : LinkHeader → List ℕ → List ℕ
encode_link_header h out =
    out
    ++ to_le_bytes 4 h.magic
    ++ to_le_bytes 4 h.major_version
    ++ to_le_bytes 4 h.minor_version
    ++ to_le_bytes 4 h.size

-- The loop of `read_caps`: `base` is `offset + 4 * i`.
unfoldable pub read_words : ℕ → List ℕ → ℕ → Outcome ProtoError (List ℕ)
read_words zero buf base = ok []
read_words (suc count) buf base = do
  c ← le_uint 4 buf base (base + 4)
  caps ← read_words count buf (base + 4)
  ok (c ∷ caps)

-- `usize` has 64 bits.
unfoldable pub read_caps : List ℕ → ℕ → ℕ → Outcome ProtoError (List ℕ)
read_caps buf offset count = do
  let end = offset + 4 * count
  let e = bad_caps_offset (offset % 2 ^ 32) (length buf)
  fail_if (leb (2 ^ 64) end) e
  fail_if (ltb (length buf) end) e
  read_words count buf offset

unfoldable pub write_caps : List ℕ → List ℕ → List ℕ
write_caps out [] = out
write_caps out (c ∷ caps) = write_caps (out ++ to_le_bytes 4 c) caps

pub record LinkMess : Type 0 where
  pub connection_id : ℕ
  pub channel_type : ChannelType
  pub channel_id : ℕ
  pub common_caps : List ℕ
  pub channel_caps : List ℕ

unfoldable pub encoded_mess_len : LinkMess → ℕ
encoded_mess_len m = link_mess_fixed_size + 4 * (length m.common_caps + length m.channel_caps)

unfoldable pub decode_link_mess : List ℕ → Outcome ProtoError LinkMess
decode_link_mess buf = do
  fail_if (ltb (length buf) link_mess_fixed_size) (short link_mess_fixed_size (length buf))
  connection_id ← le_uint 4 buf 0 4
  tag ← index buf 4
  channel_type ← channel_type_from_u8 tag
  channel_id ← index buf 5
  claimed_common ← le_uint 4 buf 6 10
  num_common_caps ← bounded_count claimed_common max_caps_entries
  claimed_channel ← le_uint 4 buf 10 14
  num_channel_caps ← bounded_count claimed_channel max_caps_entries
  caps_offset ← le_uint 4 buf 14 18
  common_caps ← read_caps buf caps_offset num_common_caps
  channel_caps ← read_caps buf (caps_offset + 4 * num_common_caps) num_channel_caps
  ok (record {
    connection_id = connection_id;
    channel_type = channel_type;
    channel_id = channel_id;
    common_caps = common_caps;
    channel_caps = channel_caps;
  })

-- A length is written `as u32`.
unfoldable pub encode_link_mess : LinkMess → List ℕ → List ℕ
unfolding write_caps
encode_link_mess m out =
    let fixed =
      out
      ++ to_le_bytes 4 m.connection_id
      ++ (channel_type_to_u8 m.channel_type ∷ [])
      ++ (m.channel_id ∷ [])
      ++ to_le_bytes 4 (length m.common_caps % 2 ^ 32)
      ++ to_le_bytes 4 (length m.channel_caps % 2 ^ 32)
      ++ to_le_bytes 4 link_mess_fixed_size in
    write_caps (write_caps fixed m.common_caps) m.channel_caps

pub record LinkReply : Type 0 where
  pub error : LinkError
  pub pub_key : List ℕ
  pub common_caps : List ℕ
  pub channel_caps : List ℕ

unfoldable pub encoded_reply_len : LinkReply → ℕ
encoded_reply_len r = link_reply_fixed_size + 4 * (length r.common_caps + length r.channel_caps)

unfoldable pub decode_link_reply : List ℕ → Outcome ProtoError LinkReply
decode_link_reply buf = do
  fail_if (ltb (length buf) link_reply_fixed_size) (short link_reply_fixed_size (length buf))
  code ← le_uint 4 buf 0 4
  error ← link_error_from_u32 code
  key ← slice buf 4 166
  pub_key ← to_array spice_ticket_pubkey_bytes key
  claimed_common ← le_uint 4 buf 166 170
  num_common_caps ← bounded_count claimed_common max_caps_entries
  claimed_channel ← le_uint 4 buf 170 174
  num_channel_caps ← bounded_count claimed_channel max_caps_entries
  caps_offset ← le_uint 4 buf 174 178
  common_caps ← read_caps buf caps_offset num_common_caps
  channel_caps ← read_caps buf (caps_offset + 4 * num_common_caps) num_channel_caps
  ok (record {
    error = error;
    pub_key = pub_key;
    common_caps = common_caps;
    channel_caps = channel_caps;
  })

unfoldable pub encode_link_reply : LinkReply → List ℕ → List ℕ
unfolding write_caps
encode_link_reply r out =
    let fixed =
      out
      ++ to_le_bytes 4 (link_error_to_u32 r.error)
      ++ r.pub_key
      ++ to_le_bytes 4 (length r.common_caps % 2 ^ 32)
      ++ to_le_bytes 4 (length r.channel_caps % 2 ^ 32)
      ++ to_le_bytes 4 link_reply_fixed_size in
    write_caps (write_caps fixed r.common_caps) r.channel_caps

-- `LinkResult` holds a `LinkError` only.
unfoldable pub decode_link_result : List ℕ → Outcome ProtoError LinkError
decode_link_result buf = do
  fail_if (ltb (length buf) link_result_size) (short link_result_size (length buf))
  code ← le_uint 4 buf 0 4
  link_error_from_u32 code

unfoldable pub encode_link_result : LinkError → List ℕ → List ℕ
encode_link_result e out = out ++ to_le_bytes 4 (link_error_to_u32 e)
