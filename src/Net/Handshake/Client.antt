-- ===== src/Net/Handshake/Client.antt =====
-- `link_client` of crates/capsaicin-net/src/link.rs against a server that answers in full.
use capsaicin.Base.{
  ℕ, ◌≤◌, ◌≡◌, refl, ◌∙◌, ◌&&◌, List, [], ◌++◌, append-nil, ◌==◌, if◌then◌else◌, arith, length,
  length-append, length-to_le_bytes, Bool-cases, inl, inr,
}
use capsaicin.Base.Outcome.{ok, err}
use capsaicin.Proto.Enums.{LinkError, link_error_to_u32, bounded_size}
use capsaicin.Proto.Caps.{has}
use capsaicin.Proto.Link as Link
use capsaicin.Proto.Link.{
  LinkReply, encode_link_header, decode_link_header, encode_link_reply, decode_link_reply,
  encode_link_result, decode_link_result, encoded_reply_len,
}
use capsaicin.Proto.Link.Reply.{
  FitsLinkReply, link_reply_roundtrip, link_header_roundtrip, encoded_len_lem,
}
use capsaicin.Net.{link, StreamOps, IsOpen}
use capsaicin.Net.Channel as Net
use capsaicin.Net.Channel.{Channel}
use capsaicin.Net.Handshake.{
  RsaOps, encrypt_ticket, LinkOptions, mess_of, hello, link_client, mini_header_cap,
}

-- What a server sends: its link header, its reply, and the final result.
abbrev pub answer : LinkReply → LinkError → List ℕ → List ℕ
answer reply result rest =
    encode_link_header (Link.new (encoded_reply_len reply)) []
    ++ (encode_link_reply reply [] ++ (encode_link_result result [] ++ rest))

pub reply_len_bound : (r : LinkReply) → FitsLinkReply r → encoded_reply_len r ≤ 4096
unfolding encoded_reply_len
reply_len_bound r fits = omega (arith, fits.common_count, fits.channel_count)

pub length-encode_link_header : (size : ℕ) → length (encode_link_header (Link.new size) []) ≡ 16
unfolding encode_link_header
length-encode_link_header size = omega (arith, length-append {A = ℕ}, length-to_le_bytes)

pub length-encode_link_result : (e : LinkError) → length (encode_link_result e []) ≡ 4
unfolding encode_link_result
length-encode_link_result e = length-to_le_bytes 4 (link_error_to_u32 e)

pub size-new : (n : ℕ) → (Link.new n).size ≡ n
unfolding Link.new
size-new n = refl

pub bounded_size_within : (n : ℕ) → n ≤ 4096 → bounded_size n 4096 ≡ ok n
unfolding bounded_size
bounded_size_within n h = ground arith

module _ {S IoError Key : Type 0} (ops : StreamOps S IoError) (conn : IsOpen ops)
    (rsa : RsaOps Key) where
  pub link_client_lem :
      (opts : LinkOptions) (reply : LinkReply) (result : LinkError) (ticket rest : List ℕ) (s : S)
      → FitsLinkReply reply
      → link_error_to_u32 reply.error ≡ 0
      → encrypt_ticket {IoError = IoError} rsa reply.pub_key opts.password ≡ ok ticket
      → conn.pending s ≡ answer reply result rest
      → (s' : S) × (link_client ops rsa s opts ≡ (
          if link_error_to_u32 result == 0
          then ok (
              Net.new s'
                (has opts.common_caps mini_header_cap && has reply.common_caps mini_header_cap))
          else err (link result)))
        × (conn.pending s' ≡ rest)
        × (conn.sent s' ≡ (conn.sent s ++ hello opts) ++ ticket)
  unfolding link_client
  link_client_lem opts reply result ticket rest s fits accepted t came =
      let size = encoded_reply_len reply in
      let head = encode_link_header (Link.new size) [] in
      let body = encode_link_reply reply [] in
      let tail = encode_link_result result [] in
      let bound = reply_len_bound reply fits in
      let codes = link_header_roundtrip size result [] (omega arith) in
      let d1 : decode_link_header head ≡ ok (Link.new size) = rw (append-nil head) at codes.0 in
      let d2 : decode_link_reply body ≡ ok reply =
        rw (append-nil body) at (link_reply_roundtrip reply [] fits) in
      let d3 : decode_link_result tail ≡ ok result = rw (append-nil tail) at codes.1 in
      let n2 : length body ≡ size = (encoded_len_lem (mess_of opts) reply fits.pub_key).1 in
      let (s1, w1, o1, p1) = conn.writes s (hello opts) in
      let (s2, r2, p2, o2) = conn.reads s1 head (body ++ (tail ++ rest)) (p1 ∙ came) in
      let (s3, r3, p3, o3) = conn.reads s2 body (tail ++ rest) p2 in
      let (s4, w4, o4, p4) = conn.writes s3 ticket in
      let (s5, r5, p5, o5) = conn.reads s4 tail rest (p4 ∙ p3) in
      let q2 = rw (length-encode_link_header size) at r2 in
      let q3 = rw n2 at r3 in
      let q5 = rw (length-encode_link_result result) at r5 in
      (
        s5,
        elim (Bool-cases (link_error_to_u32 result == 0)) [
          | inl fine ↦ rw (
            w1,
            q2,
            d1,
            size-new size,
            bounded_size_within size bound,
            q3,
            d2,
            accepted,
            t,
            w4,
            q5,
            d3,
            fine,
          )
          | inr bad ↦ rw (
            w1,
            q2,
            d1,
            size-new size,
            bounded_size_within size bound,
            q3,
            d2,
            accepted,
            t,
            w4,
            q5,
            d3,
            bad,
          )
        ],
        p5,
        o5 ∙ rw (o4, o3, o2, o1),
      )
