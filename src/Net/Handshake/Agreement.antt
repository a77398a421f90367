-- ===== src/Net/Handshake/Agreement.antt =====
-- The two sides of the link handshake against each other: `link_client` and `link_server`.
use capsaicin.Base.{
  ◌↔◌, true, ℕ, ◌≡◌, refl, ◌∙◌, ap, ◌&&◌, Bool, Option, some, List, [], ◌∷◌, ◌++◌, ◌==◌,
  if◌then◌else◌, length, Bool-cases, inl, inr,
}
use capsaicin.Base.Outcome.{Outcome, ok, err}
use capsaicin.Proto.Enums.{LinkError, no_error, permission_denied, link_error_to_u32}
use capsaicin.Proto.Caps.{has}
use capsaicin.Proto.Link.RoundTrip.{FitsLinkMess}
use capsaicin.Proto.Link.Reply.{FitsLinkReply}
use capsaicin.Net.{NetError, link, StreamOps, IsOpen}
use capsaicin.Net.Channel as Net
use capsaicin.Net.Channel.{Channel}
use capsaicin.Net.Handshake.{
  RsaOps, encrypt_ticket, LinkOptions, mess_of, hello, link_client, mini_header_cap,
}
use capsaicin.Net.Handshake.Client.{answer, link_client_lem}
use capsaicin.Net.Handshake.Server.{
  RsaKeyOps, ServerLinkOptions, same_bytes, check_ticket, reply_of, accepted, link_server,
}
use capsaicin.Net.Handshake.Answers.{same_bytes_iff, without_null-null, link_server_lem}

-- The code for a password.
unfoldable pub verdict : List ℕ → List ℕ → LinkError
verdict password expected = if same_bytes password expected then no_error else permission_denied

check_ticket_lem :
    (pt : Option (List ℕ)) (password expected : List ℕ)
    → pt ≡ some (password ++ 0 ∷ [])
    → check_ticket pt expected ≡ verdict password expected
unfolding check_ticket verdict
check_ticket_lem pt password expected e = rw (e, without_null-null password)

settled :
    {IoError A : Type 0} (password expected : List ℕ) (x : Outcome (NetError IoError) A)
    → (if link_error_to_u32 (verdict password expected) == 0
        then x
        else err (link (verdict password expected)))
      ≡ (if same_bytes password expected then x else err (link permission_denied))
unfolding verdict link_error_to_u32
settled password expected x = elim (Bool-cases (same_bytes password expected)) [
  | inl t ↦ rw t
  | inr t ↦ rw t
]

no_error_zero : link_error_to_u32 no_error ≡ 0
unfolding link_error_to_u32
no_error_zero = refl

module _ {S IoError Key : Type 0} (ops : StreamOps S IoError) (conn : IsOpen ops) (rsa : RsaOps Key)
    {T IoErrorT PrivKey : Type 0} (ops_t : StreamOps T IoErrorT) (conn_t : IsOpen ops_t)
    (keys : RsaKeyOps PrivKey) where
  -- A client and a server over open streams, with fields that fit, a ticket of 128 bytes, and a
  -- private key that decrypts the ticket to the password and its null: the client has the server's
  -- bytes before it and the server the client's. Then each sends what the other was given, and both
  -- come to the same end. If the passwords are equal byte for byte, both have a channel, with the
  -- same kind of header, mini just if both advertise it, and the server has the client's identifiers
  -- and capabilities; otherwise both report that permission is denied.
  pub handshake_lem :
      (client : LinkOptions) (server : ServerLinkOptions PrivKey)
      (der ticket rest_s rest_t : List ℕ) (s : S) (t : T)
      → FitsLinkMess (mess_of client)
      → FitsLinkReply (reply_of server der)
      → keys.to_public_key_der server.priv_key ≡ some der
      → encrypt_ticket {IoError = IoError} rsa der client.password ≡ ok ticket
      → length ticket ≡ 128
      → keys.decrypt server.priv_key ticket ≡ some (client.password ++ 0 ∷ [])
      → conn.pending s
        ≡ answer (reply_of server der) (verdict client.password server.expected_password) rest_s
      → conn_t.pending t ≡ hello client ++ (ticket ++ rest_t)
      → (s' : S) × (t' : T) × (mini : Bool) × (mini
          ≡ has client.common_caps mini_header_cap && has server.server_common_caps mini_header_cap)
        × ((same_bytes client.password server.expected_password ≡ true)
            ↔ (client.password ≡ server.expected_password))
        × (link_client ops rsa s client ≡ (
            if same_bytes client.password server.expected_password
            then ok (Net.new s' mini)
            else err (link permission_denied)))
        × (link_server ops_t keys t server ≡ (
            if same_bytes client.password server.expected_password
            then ok (accepted (Net.new t' mini) (mess_of client))
            else err (link permission_denied)))
        × (conn.sent s' ≡ (conn.sent s ++ hello client) ++ ticket)
        × (conn_t.sent t'
            ≡ conn_t.sent t
              ++ answer (reply_of server der) (verdict client.password server.expected_password) [])
  handshake_lem client server der ticket rest_s rest_t s t fits fits_reply known sealed size opened
        came_s came_t =
      let pw = client.password in
      let expected = server.expected_password in
      let code = check_ticket_lem (keys.decrypt server.priv_key ticket) pw expected opened in
      let (s', qs, ps, os) =
        link_client_lem ops conn rsa client (reply_of server der) (verdict pw expected) ticket
          rest_s s fits_reply no_error_zero sealed came_s in
      let (t', qt, pt, ot) =
        link_server_lem ops_t conn_t keys server client der ticket rest_t t fits fits_reply known
          size came_t in
      let mini =
        has client.common_caps mini_header_cap && has server.server_common_caps mini_header_cap in
      (
        s',
        t',
        mini,
        refl,
        same_bytes_iff pw expected,
        qs ∙ settled pw expected _,
        (qt
              ∙ ap
                  (λ (c : LinkError).
                    if link_error_to_u32 c == 0
                    then ok (accepted (Net.new t' mini) (mess_of client))
                    else err (link c))
                  code)
            ∙ settled pw expected _,
        os,
        ot ∙ ap (λ (c : LinkError). conn_t.sent t ++ answer (reply_of server der) c []) code,
      )
