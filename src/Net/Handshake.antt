-- ===== src/Net/Handshake.antt =====
-- The client's side of the link handshake: `encrypt_ticket` of crates/capsaicin-net/src/auth.rs and
-- `link_client` of link.rs. RSA and the random bytes of its padding are the crate rsa's, a parameter.
pub mod Client
pub mod Server
pub mod Answers
pub mod Agreement
use capsaicin.Base.{
  ℕ, ◌+◌, ◌%◌, ◌^◌, ◌&&◌, not, Option, none, some, List, [], ◌∷◌, ◌++◌, ltb, ◌==◌, length,
}
use capsaicin.Base.Outcome.{Outcome, ok, err, panic, stuck, fail_if, ◌>>=◌, ◌>>◌}
use capsaicin.Proto.Enums.{
  ChannelType, LinkError, link_error_to_u32, bounded_size, max_link_payload,
}
use capsaicin.Proto.Caps.{CapSet, has}
use capsaicin.Proto.Link as Link
use capsaicin.Proto.Link.{
  LinkMess, encode_link_header, decode_link_header, encode_link_mess, encoded_mess_len,
  decode_link_reply, decode_link_result, link_header_size, link_result_size,
}
use capsaicin.Net.{
  NetError, link, bad_server_key, password_too_long, rsa_encrypt, from_io, from_proto, StreamOps,
}
use capsaicin.Net.Channel as Net
use capsaicin.Net.Channel.{Channel}

abbrev pub spice_max_password_length : ℕ
spice_max_password_length = 60

abbrev pub mini_header_cap : ℕ
mini_header_cap = 3

-- `RsaPublicKey::from_public_key_der`, and `encrypt` with OAEP, whose error is a text.
pub record RsaOps (Key : Type 0) : Type 0 where
  pub from_public_key_der : List ℕ → Option Key
  pub encrypt : Key → List ℕ → Outcome (List ℕ) (List ℕ)

abbrev pub from_rsa : {IoError A : Type 0} → Outcome (List ℕ) A → Outcome (NetError IoError) A
from_rsa (ok a) = ok a
from_rsa (err e) = err (rsa_encrypt e)
from_rsa panic = panic
from_rsa stuck = stuck

abbrev pub or_bad_key : {IoError Key : Type 0} → Option Key → Outcome (NetError IoError) Key
or_bad_key none = err bad_server_key
or_bad_key (some key) = ok key

unfoldable pub encrypt_ticket :
    {IoError Key : Type 0} → RsaOps Key → List ℕ → List ℕ → Outcome (NetError IoError) (List ℕ)
encrypt_ticket rsa pub_key_der password = do
  fail_if (ltb spice_max_password_length (length password)) (password_too_long (length password))
  key ← or_bad_key (rsa.from_public_key_der pub_key_der)
  from_rsa (rsa.encrypt key (password ++ 0 ∷ []))

pub record LinkOptions : Type 0 where
  pub connection_id : ℕ
  pub channel_type : ChannelType
  pub channel_id : ℕ
  pub password : List ℕ
  pub common_caps : CapSet
  pub channel_caps : CapSet

abbrev pub mess_of : LinkOptions → LinkMess
mess_of opts = record {
  connection_id = opts.connection_id;
  channel_type = opts.channel_type;
  channel_id = opts.channel_id;
  common_caps = opts.common_caps;
  channel_caps = opts.channel_caps;
}

-- What the client sends first: the link header and the link message.
unfoldable pub hello : LinkOptions → List ℕ
hello opts =
    encode_link_mess (mess_of opts)
      (encode_link_header (Link.new (encoded_mess_len (mess_of opts) % 2 ^ 32)) [])

abbrev pub refuse : {IoError : Type 0} → LinkError → Outcome (NetError IoError) (Unit {0})
refuse e = fail_if (not (link_error_to_u32 e == 0)) (link e)

module _ {S IoError Key : Type 0} (ops : StreamOps S IoError) (rsa : RsaOps Key) where
  unfoldable pub link_client : S → LinkOptions → Outcome (NetError IoError) (Channel S)
  link_client stream opts = do
    stream ← from_io (ops.write_all (hello opts) stream)
    (hdr_buf, stream) ← from_io (ops.read_exact link_header_size stream)
    hdr ← from_proto (decode_link_header hdr_buf)
    reply_size ← from_proto (bounded_size hdr.size max_link_payload)
    (reply_buf, stream) ← from_io (ops.read_exact reply_size stream)
    reply ← from_proto (decode_link_reply reply_buf)
    refuse reply.error
    ticket ← encrypt_ticket rsa reply.pub_key opts.password
    stream ← from_io (ops.write_all ticket stream)
    (result_buf, stream) ← from_io (ops.read_exact link_result_size stream)
    result ← from_proto (decode_link_result result_buf)
    refuse result
    ok (
        Net.new stream
          (has opts.common_caps mini_header_cap && has reply.common_caps mini_header_cap))
