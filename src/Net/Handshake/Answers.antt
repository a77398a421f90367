-- ===== src/Net/Handshake/Answers.antt =====
-- `link_server` of crates/capsaicin-net/src/server.rs against a client that sends all its messages.
use capsaicin.Base.{
  ◌↔◌, subst, true, ℕ, ◌-◌, ◌%◌, ◌^◌, ◌≤◌, ◌≡◌, refl, ◌∙◌, ap, ◌&&◌, not, true, false, some, List,
  [], ◌∷◌, ◌++◌, append-nil, append_assoc, ◌==◌, if◌then◌else◌, arith, length, length-append,
  take-append, Bool-cases, inl, inr,
}
use native.Mathlib.Nat.{mod-eq_of_lt}
use capsaicin.Base.Outcome.{ok, err}
use capsaicin.Proto.Enums.{link_error_to_u32, bounded_size}
use capsaicin.Proto.Caps.{has}
use capsaicin.Proto.Link as Link
use capsaicin.Proto.Link.{
  LinkHeader, LinkMess, LinkReply, encode_link_header, decode_link_header, encode_link_mess,
  decode_link_mess, encode_link_reply, encode_link_result, encoded_mess_len, encoded_reply_len,
}
use capsaicin.Proto.Link.Caps.{write_caps_lem}
use capsaicin.Proto.Link.RoundTrip.{FitsLinkMess, link_mess_roundtrip}
use capsaicin.Proto.Link.Reply.{FitsLinkReply, link_header_roundtrip, encoded_len_lem}
use capsaicin.Net.{link, StreamOps, IsOpen}
use capsaicin.Net.Channel as Net
use capsaicin.Net.Channel.{Channel}
use capsaicin.Net.Handshake.{LinkOptions, mess_of, hello, mini_header_cap}
use capsaicin.Net.Handshake.Client.{
  answer, reply_len_bound, length-encode_link_header, size-new, bounded_size_within,
}
use capsaicin.Net.Handshake.Server.{
  RsaKeyOps, ServerLinkOptions, same_bytes, ends_in_zero, without_null, check_ticket, reply_of,
  welcome, accepted, link_server,
}

-- A message behind a header.
hello_lem :
    (opts : LinkOptions)
    → encoded_mess_len (mess_of opts) ≤ 4096
    → hello opts
      ≡ encode_link_header (Link.new (encoded_mess_len (mess_of opts))) []
        ++ encode_link_mess (mess_of opts) []
unfolding hello encode_link_mess
hello_lem opts fits =
    let e : encoded_mess_len (mess_of opts) % 2 ^ 32 ≡ encoded_mess_len (mess_of opts) =
      mod-eq_of_lt (omega (arith, fits)) in
    rw e (simp (write_caps_lem, append_assoc))

welcome_lem :
    (r : LinkReply)
    → encoded_reply_len r ≤ 4096
    → welcome r ≡ encode_link_header (Link.new (encoded_reply_len r)) [] ++ encode_link_reply r []
unfolding welcome encode_link_reply
welcome_lem r fits =
    let e : encoded_reply_len r % 2 ^ 32 ≡ encoded_reply_len r =
      mod-eq_of_lt (omega (arith, fits)) in
    rw e (simp (write_caps_lem, append_assoc))

sent_answer :
    (r : LinkReply) (before tail : List ℕ)
    → encoded_reply_len r ≤ 4096
    → (before ++ welcome r) ++ tail
      ≡ before
        ++ (encode_link_header (Link.new (encoded_reply_len r)) []
            ++ (encode_link_reply r [] ++ (tail ++ [])))
sent_answer r before tail fits = rw (welcome_lem r fits, append-nil tail) (simp append_assoc)

mess_len_bound : (m : LinkMess) → FitsLinkMess m → encoded_mess_len m ≤ 4096
unfolding encoded_mess_len
mess_len_bound m fits = omega (arith, fits.common_count, fits.channel_count)

ends_in_zero-null : (pw : List ℕ) → ends_in_zero (pw ++ 0 ∷ []) ≡ true
unfolding ends_in_zero
ends_in_zero-null [] = refl
ends_in_zero-null (x ∷ []) = refl
ends_in_zero-null (x ∷ y ∷ pw) = ends_in_zero-null (y ∷ pw)

pub without_null-null : (pw : List ℕ) → without_null (pw ++ 0 ∷ []) ≡ pw
unfolding without_null
without_null-null pw =
    let n : length (pw ++ 0 ∷ []) - 1 ≡ length pw = omega (arith, length-append pw (0 ∷ [])) in
    rw (ends_in_zero-null pw, n, take-append pw (0 ∷ []))

same_bytes_self : (xs : List ℕ) → same_bytes xs xs ≡ true
unfolding same_bytes
same_bytes_self [] = refl
same_bytes_self (x ∷ xs) = ground (arith, same_bytes_self xs)

same_bytes_eq : (xs ys : List ℕ) → same_bytes xs ys ≡ true → xs ≡ ys
unfolding same_bytes
same_bytes_eq [] [] h = refl
same_bytes_eq [] (y ∷ ys) h = cc
same_bytes_eq (x ∷ xs) [] h = cc
same_bytes_eq (x ∷ xs) (y ∷ ys) h =
    let a : x ≡ y = ground arith in
    let b : same_bytes xs ys ≡ true = ground arith in
    let c = same_bytes_eq xs ys b in rw (a, c) refl

pub same_bytes_iff : (xs ys : List ℕ) → (same_bytes xs ys ≡ true) ↔ (xs ≡ ys)
same_bytes_iff xs ys =
    (same_bytes_eq xs ys, λ e. subst (λ zs. same_bytes xs zs ≡ true) e (same_bytes_self xs))

module _ {S IoError Key : Type 0} (ops : StreamOps S IoError) (conn : IsOpen ops)
    (rsa : RsaKeyOps Key) where
  -- The server's calls, one after the other.
  link_server_run :
      (opts : ServerLinkOptions Key) (hdr : LinkHeader) (mess : LinkMess)
      (head body der ticket : List ℕ) (n : ℕ) (s s1 s2 s3 s4 s5 : S)
      → ops.read_exact 16 s ≡ ok (head, s1)
      → decode_link_header head ≡ ok hdr
      → bounded_size hdr.size 4096 ≡ ok n
      → ops.read_exact n s1 ≡ ok (body, s2)
      → decode_link_mess body ≡ ok mess
      → rsa.to_public_key_der opts.priv_key ≡ some der
      → not (length der == 162) ≡ false
      → ops.write_all (welcome (reply_of opts der)) s2 ≡ ok s3
      → ops.read_exact 128 s3 ≡ ok (ticket, s4)
      → ops.write_all
          (encode_link_result
            (check_ticket (rsa.decrypt opts.priv_key ticket) opts.expected_password)
            [])
          s4
        ≡ ok s5
      → link_server ops rsa s opts ≡ (
          if link_error_to_u32
              (check_ticket (rsa.decrypt opts.priv_key ticket) opts.expected_password)
            == 0
          then ok (
              accepted
                (Net.new s5 (
                  has mess.common_caps mini_header_cap
                  && has opts.server_common_caps mini_header_cap))
                mess)
          else err (link (check_ticket (rsa.decrypt opts.priv_key ticket) opts.expected_password)))
  unfolding link_server
  link_server_run opts hdr mess head body der ticket n s s1 s2 s3 s4 s5 a b c d e f g h k l =
      elim (Bool-cases (
        link_error_to_u32 (check_ticket (rsa.decrypt opts.priv_key ticket) opts.expected_password)
        == 0)) [
          | inl fine ↦ rw (a, b, c, d, e, f, g, h, k, l, fine)
          | inr bad ↦ rw (a, b, c, d, e, f, g, h, k, l, bad)
        ]

  pub link_server_lem :
      (opts : ServerLinkOptions Key) (client : LinkOptions) (der ticket rest : List ℕ) (s : S)
      → FitsLinkMess (mess_of client)
      → FitsLinkReply (reply_of opts der)
      → rsa.to_public_key_der opts.priv_key ≡ some der
      → length ticket ≡ 128
      → conn.pending s ≡ hello client ++ (ticket ++ rest)
      → (s' : S) × (link_server ops rsa s opts ≡ (
          if link_error_to_u32
              (check_ticket (rsa.decrypt opts.priv_key ticket) opts.expected_password)
            == 0
          then ok (
              accepted
                (Net.new s' (
                  has client.common_caps mini_header_cap
                  && has opts.server_common_caps mini_header_cap))
                (mess_of client))
          else err (link (check_ticket (rsa.decrypt opts.priv_key ticket) opts.expected_password))))
        × (conn.pending s' ≡ rest)
        × (conn.sent s'
            ≡ conn.sent s
              ++ answer
                  (reply_of opts der)
                  (check_ticket (rsa.decrypt opts.priv_key ticket) opts.expected_password)
                  [])
  link_server_lem opts client der ticket rest s fits fits_reply known size came =
      let mess = mess_of client in
      let reply = reply_of opts der in
      let code = check_ticket (rsa.decrypt opts.priv_key ticket) opts.expected_password in
      let n = encoded_mess_len mess in
      let head = encode_link_header (Link.new n) [] in
      let body = encode_link_mess mess [] in
      let tail = encode_link_result code [] in
      let bound = mess_len_bound mess fits in
      let codes = link_header_roundtrip n code [] (omega (arith, bound)) in
      let d1 : decode_link_header head ≡ ok (Link.new n) = rw (append-nil head) at codes.0 in
      let d2 : decode_link_mess body ≡ ok mess =
        rw (append-nil body) at (link_mess_roundtrip mess [] fits) in
      let n2 : length body ≡ n = (encoded_len_lem mess reply fits_reply.pub_key).0 in
      let full : not (length der == 162) ≡ false = ground (arith, fits_reply.pub_key) in
      let (s1, r1, p1, o1) = conn.reads s head (body ++ (ticket ++ rest)) (
        came
        ∙ ap (λ (t : List ℕ). t ++ (ticket ++ rest)) (hello_lem client bound)
        ∙ append_assoc head body (ticket ++ rest)) in
      let (s2, r2, p2, o2) = conn.reads s1 body (ticket ++ rest) p1 in
      let (s3, w3, o3, p3) = conn.writes s2 (welcome reply) in
      let (s4, r4, p4, o4) = conn.reads s3 ticket rest (p3 ∙ p2) in
      let (s5, w5, o5, p5) = conn.writes s4 tail in
      let q1 = rw (length-encode_link_header n) at r1 in
      let q2 = rw n2 at r2 in
      let q4 = rw size at r4 in
      let small = bounded_size_within n bound in
      (
        s5,
        link_server_run opts (Link.new n) mess head body der ticket n s s1 s2 s3 s4 s5 q1 d1
            (ap (λ (k : ℕ). bounded_size k 4096) (size-new n) ∙ small) q2 d2 known full w3 q4 w5,
        p5 ∙ p4,
        o5
            ∙ ap (λ (t : List ℕ). t ++ tail)
                (o4 ∙ o3 ∙ ap (λ (t : List ℕ). t ++ welcome reply) (o2 ∙ o1))
            ∙ sent_answer reply (conn.sent s) tail (reply_len_bound reply fits_reply),
      )
