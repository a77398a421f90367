-- ===== src/Tests/Handshake.antt =====
-- The link handshake of crates/capsaicin-net over streams in memory, at concrete inputs.
use capsaicin.Base.{
  ◌↔◌, true, ℕ, ◌≡◌, refl, List, [], ◌∷◌, ◌++◌, if◌then◌else◌, arith, length, take,
}
use capsaicin.Base.Outcome.{ok, err}
use capsaicin.Base.{replicate, ◌&&◌, some}
use capsaicin.Proto.Enums.{main, no_error}
use capsaicin.Proto.Caps.{has}
use capsaicin.Proto.Link.{LinkReply}
use capsaicin.Net.Channel.{new}
use capsaicin.Net.Handshake.{
  RsaOps, encrypt_ticket, LinkOptions, hello, link_client, mini_header_cap,
}
use capsaicin.Net.Handshake.Client.{answer}
use capsaicin.Base.{◌-◌, Bool}
use capsaicin.Net.{link}
use capsaicin.Proto.Enums.{LinkError, permission_denied}
use capsaicin.Proto.Link.RoundTrip.{FitsLinkMess}
use capsaicin.Proto.Link.Reply.{FitsLinkReply}
use capsaicin.Net.Handshake.{mess_of}
use capsaicin.Net.Handshake.Server.{
  RsaKeyOps, ServerLinkOptions, same_bytes, check_ticket, reply_of, accepted, link_server,
}
use capsaicin.Net.Handshake.Agreement.{verdict, handshake_lem}
use capsaicin.Tests.Net.{Pipe, pipe_ops, pipe_is_open}

-- A stand-in for RSA: every key is accepted, and a ticket is its plain text.
abbrev plain_rsa : RsaOps (Unit {0})
plain_rsa = record { from_public_key_der = λ der. some tt; encrypt = λ key text. ok text }

abbrev sample_options : LinkOptions
sample_options = record {
  connection_id = 0;
  channel_type = main;
  channel_id = 0;
  password = 112 ∷ 119 ∷ [];
  common_caps = 10 ∷ [];
  channel_caps = [];
}

abbrev accepting_reply : LinkReply
accepting_reply = record {
  error = no_error;
  pub_key = replicate 162 48;
  common_caps = 8 ∷ [];
  channel_caps = [];
}

-- A stand-in for RSA with tickets of 128 bytes: the plain text and zeros.
abbrev padded_rsa : RsaOps (Unit {0})
padded_rsa = record {
  from_public_key_der = λ der. some tt;
  encrypt = λ key text. ok (text ++ replicate (128 - length text) 0);
}

abbrev padded_keys : RsaKeyOps (Unit {0})
padded_keys = record {
  to_public_key_der = λ key. some (replicate 162 48);
  decrypt = λ key ct. some (take 3 ct);
}

abbrev sample_server : ServerLinkOptions (Unit {0})
sample_server = record {
  priv_key = tt;
  expected_password = 112 ∷ 119 ∷ [];
  server_common_caps = 10 ∷ [];
  server_channel_caps = [];
}

abbrev padded_ticket : List ℕ
padded_ticket = 112 ∷ 119 ∷ 0 ∷ replicate 125 0

padded_ticket_sealed :
    encrypt_ticket {IoError = Unit {0}} padded_rsa (replicate 162 48) (112 ∷ 119 ∷ [])
    ≡ ok padded_ticket
unfolding encrypt_ticket
padded_ticket_sealed = refl

sample_FitsLinkMess : FitsLinkMess (mess_of sample_options)
sample_FitsLinkMess = record {
  connection_id = omega arith;
  channel_id = omega arith;
  common_caps = omega arith;
  channel_caps = tt;
  common_count = omega arith;
  channel_count = omega arith;
}

sample_FitsLinkReply : FitsLinkReply (reply_of sample_server (replicate 162 48))
sample_FitsLinkReply = record {
  pub_key = refl;
  common_caps = omega arith;
  channel_caps = tt;
  common_count = omega arith;
  channel_count = omega arith;
}

abbrev sample_code : LinkError
sample_code = check_ticket (some (take 3 padded_ticket)) (112 ∷ 119 ∷ [])

abbrev sample_answer : List ℕ
sample_answer =
    answer (reply_of sample_server (replicate 162 48)) (verdict (112 ∷ 119 ∷ []) (112 ∷ 119 ∷ []))
      []

handshake_lem_example :
    (s' : Pipe) × (t' : Pipe) × (mini : Bool) × (mini
      ≡ has (10 ∷ []) mini_header_cap && has (10 ∷ []) mini_header_cap)
    × ((same_bytes (112 ∷ 119 ∷ []) (112 ∷ 119 ∷ []) ≡ true)
        ↔ (sample_options.password ≡ sample_server.expected_password))
    × (link_client pipe_ops padded_rsa (sample_answer, []) sample_options ≡ (
        if same_bytes (112 ∷ 119 ∷ []) (112 ∷ 119 ∷ [])
        then ok (new s' mini)
        else err (link permission_denied)))
    × (link_server pipe_ops padded_keys
          (hello sample_options ++ (padded_ticket ++ []), [])
          sample_server
        ≡ (if same_bytes (112 ∷ 119 ∷ []) (112 ∷ 119 ∷ [])
            then ok (accepted (new t' mini) (mess_of sample_options))
            else err (link permission_denied)))
    × (s'.1 ≡ ([] ++ hello sample_options) ++ padded_ticket)
    × (t'.1 ≡ [] ++ sample_answer)
handshake_lem_example =
    handshake_lem pipe_ops pipe_is_open padded_rsa pipe_ops pipe_is_open padded_keys sample_options
      sample_server (replicate 162 48) padded_ticket [] [] (sample_answer, [])
      (hello sample_options ++ (padded_ticket ++ []), []) sample_FitsLinkMess sample_FitsLinkReply
      refl padded_ticket_sealed refl refl refl refl
