-- ===== src/Net/Handshake/Server.antt =====
-- `link_server` of crates/capsaicin-net/src/server.rs. The private key's operations are the crate
-- rsa's, a parameter.
use capsaicin.Base.{
  ℕ, ◌-◌, ◌%◌, ◌^◌, ◌&&◌, not, Bool, true, false, Option, none, some, List, [], ◌∷◌, ◌==◌,
  if◌then◌else◌, length, take,
}
use capsaicin.Base.Outcome.{Outcome, ok, fail_if, ◌>>=◌, ◌>>◌}
use capsaicin.Proto.Enums.{
  ChannelType, LinkError, no_error, permission_denied, link_error_to_u32, bounded_size,
  max_link_payload, spice_ticket_pubkey_bytes,
}
use capsaicin.Proto.Caps as Caps
use capsaicin.Proto.Caps.{CapSet, has, with_caps}
use capsaicin.Proto.Link as Link
use capsaicin.Proto.Link.{
  LinkMess, LinkReply, encode_link_header, decode_link_header, decode_link_mess, encode_link_reply,
  encoded_reply_len, encode_link_result, link_header_size,
}
use capsaicin.Net.{NetError, link, bad_server_key, from_io, from_proto, StreamOps}
use capsaicin.Net.Channel as Net
use capsaicin.Net.Channel.{Channel}
use capsaicin.Net.Handshake.{mini_header_cap, or_bad_key}

abbrev pub auth_spice_cap : ℕ
auth_spice_cap = 1

abbrev pub encrypted_ticket_size : ℕ
encrypted_ticket_size = 128

-- `RsaPublicKey::from(key).to_public_key_der()`, and `decrypt` with OAEP.
pub record RsaKeyOps (Key : Type 0) : Type 0 where
  pub to_public_key_der : Key → Option (List ℕ)
  pub decrypt : Key → List ℕ → Option (List ℕ)

pub record AcceptedLink (S : Type 0) : Type 0 where
  pub channel : Channel S
  pub connection_id : ℕ
  pub channel_type : ChannelType
  pub channel_id : ℕ
  pub client_common_caps : CapSet
  pub client_channel_caps : CapSet

pub record ServerLinkOptions (Key : Type 0) : Type 0 where
  pub priv_key : Key
  pub expected_password : List ℕ
  pub server_common_caps : CapSet
  pub server_channel_caps : CapSet

unfoldable pub server_options : {Key : Type 0} → Key → List ℕ → ServerLinkOptions Key
server_options priv_key expected_password = record {
  priv_key = priv_key;
  expected_password = expected_password;
  server_common_caps = with_caps (auth_spice_cap ∷ mini_header_cap ∷ []);
  server_channel_caps = Caps.new;
}

-- `==` of byte strings.
unfoldable pub same_bytes : List ℕ → List ℕ → Bool
same_bytes [] [] = true
same_bytes [] (y ∷ ys) = false
same_bytes (x ∷ xs) [] = false
same_bytes (x ∷ xs) (y ∷ ys) = (x == y) && same_bytes xs ys

-- `pt.last().copied() == Some(0)`
unfoldable pub ends_in_zero : List ℕ → Bool
ends_in_zero [] = false
ends_in_zero (x ∷ []) = x == 0
ends_in_zero (x ∷ y ∷ xs) = ends_in_zero (y ∷ xs)

unfoldable pub without_null : List ℕ → List ℕ
without_null pt = if ends_in_zero pt then take (length pt - 1) pt else pt

-- The result code for a decrypted ticket.
unfoldable pub check_ticket : Option (List ℕ) → List ℕ → LinkError
check_ticket none expected = permission_denied
check_ticket (some pt) expected =
    if same_bytes (without_null pt) expected then no_error else permission_denied

abbrev pub reply_of : {Key : Type 0} → ServerLinkOptions Key → List ℕ → LinkReply
reply_of opts pub_key = record {
  error = no_error;
  pub_key = pub_key;
  common_caps = opts.server_common_caps;
  channel_caps = opts.server_channel_caps;
}

-- The server's header and reply.
unfoldable pub welcome : LinkReply → List ℕ
welcome reply =
    encode_link_reply reply (encode_link_header (Link.new (encoded_reply_len reply % 2 ^ 32)) [])

abbrev pub accepted : {S : Type 0} → Channel S → LinkMess → AcceptedLink S
accepted channel mess = record {
  channel = channel;
  connection_id = mess.connection_id;
  channel_type = mess.channel_type;
  channel_id = mess.channel_id;
  client_common_caps = mess.common_caps;
  client_channel_caps = mess.channel_caps;
}

module _ {S IoError Key : Type 0} (ops : StreamOps S IoError) (rsa : RsaKeyOps Key) where
  unfoldable pub link_server :
      S → ServerLinkOptions Key → Outcome (NetError IoError) (AcceptedLink S)
  link_server stream opts = do
    (hdr_buf, stream) ← from_io (ops.read_exact link_header_size stream)
    hdr ← from_proto (decode_link_header hdr_buf)
    mess_size ← from_proto (bounded_size hdr.size max_link_payload)
    (mess_buf, stream) ← from_io (ops.read_exact mess_size stream)
    mess ← from_proto (decode_link_mess mess_buf)
    der ← or_bad_key (rsa.to_public_key_der opts.priv_key)
    fail_if (not (length der == spice_ticket_pubkey_bytes)) bad_server_key
    stream ← from_io (ops.write_all (welcome (reply_of opts der)) stream)
    (ct, stream) ← from_io (ops.read_exact encrypted_ticket_size stream)
    let result_code = check_ticket (rsa.decrypt opts.priv_key ct) opts.expected_password
    stream ← from_io (ops.write_all (encode_link_result result_code []) stream)
    fail_if (not (link_error_to_u32 result_code == 0)) (link result_code)
    let use_mini =
        has mess.common_caps mini_header_cap && has opts.server_common_caps mini_header_cap
    ok (accepted (Net.new stream use_mini) mess)
