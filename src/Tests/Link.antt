-- ===== src/Tests/Link.antt =====
-- The link messages of crates/capsaicin-proto/src/link.rs at concrete inputs.
use capsaicin.Base.{◌≡◌, refl, [], ◌∷◌, ◌++◌, arith, length, replicate}
use capsaicin.Base.Outcome.{ok}
use capsaicin.Base.Ensures.{Ensures}
use capsaicin.Proto.Enums.{main, no_error, permission_denied}
use capsaicin.Proto.Header.{
  DataHeader, decode_data_header, encode_data_header, MiniDataHeader, decode_mini_data_header,
  encode_mini_data_header,
}
use capsaicin.Proto.Header.RoundTrip.{message_headers_roundtrip}
use capsaicin.Proto.Link.{
  new, LinkMess, decode_link_mess, encode_link_mess, LinkReply, decode_link_reply,
  encode_link_reply, decode_link_header, encode_link_header, decode_link_result, encode_link_result,
}
use capsaicin.Proto.Link.RoundTrip.{link_mess_roundtrip}
use capsaicin.Proto.Link.Reply.{link_reply_roundtrip, link_header_roundtrip}
use capsaicin.Proto.Link.Safety.{IsBounded, decode_link_mess_lem, decode_link_reply_lem}

abbrev sample_mess : LinkMess
sample_mess = record {
  connection_id = 5;
  channel_type = main;
  channel_id = 1;
  common_caps = 11 ∷ [];
  channel_caps = 1 ∷ 2 ∷ [];
}

link_mess_roundtrip_example :
    decode_link_mess (encode_link_mess sample_mess [] ++ 9 ∷ []) ≡ ok sample_mess
link_mess_roundtrip_example = link_mess_roundtrip sample_mess (9 ∷ []) (record {
  connection_id = omega arith;
  channel_id = omega arith;
  common_caps = omega arith;
  channel_caps = omega arith;
  common_count = omega arith;
  channel_count = omega arith;
})

abbrev sample_reply : LinkReply
sample_reply = record {
  error = no_error;
  pub_key = replicate 162 48;
  common_caps = 11 ∷ [];
  channel_caps = [];
}

link_reply_roundtrip_example :
    decode_link_reply (encode_link_reply sample_reply [] ++ 9 ∷ []) ≡ ok sample_reply
link_reply_roundtrip_example = link_reply_roundtrip sample_reply (9 ∷ []) (record {
  pub_key = refl;
  common_caps = omega arith;
  channel_caps = tt;
  common_count = omega arith;
  channel_count = omega arith;
})

link_header_roundtrip_example :
    (decode_link_header (encode_link_header (new 42) [] ++ 9 ∷ []) ≡ ok (new 42))
    × (decode_link_result (encode_link_result permission_denied [] ++ 9 ∷ [])
        ≡ ok permission_denied)
link_header_roundtrip_example = link_header_roundtrip 42 permission_denied (9 ∷ []) (omega arith)

decode_link_mess_lem_example :
    Ensures
      (λ m. IsBounded (replicate 40 255) m.common_caps m.channel_caps)
      (decode_link_mess (replicate 40 255))
decode_link_mess_lem_example = decode_link_mess_lem (replicate 40 255)

decode_link_reply_lem_example :
    Ensures
      (λ r. (length r.pub_key ≡ 162) × IsBounded (replicate 200 0) r.common_caps r.channel_caps)
      (decode_link_reply (replicate 200 0))
    × Ensures (λ e. Unit {0}) (decode_link_result (replicate 200 0))
decode_link_reply_lem_example = decode_link_reply_lem (replicate 200 0)

abbrev sample_data_header : DataHeader
sample_data_header = record { serial = 258; msg_type = 0x1234; size = 99; sub_list = 0 }

abbrev sample_mini_header : MiniDataHeader
sample_mini_header = record { msg_type = 0x4242; size = 99 }

message_headers_roundtrip_example :
    (decode_data_header (encode_data_header sample_data_header [] ++ 9 ∷ [])
      ≡ ok sample_data_header)
    × (decode_mini_data_header (encode_mini_data_header sample_mini_header [] ++ 9 ∷ [])
        ≡ ok sample_mini_header)
message_headers_roundtrip_example =
    message_headers_roundtrip sample_data_header sample_mini_header (9 ∷ [])
      (record {
        serial = omega arith;
        msg_type = omega arith;
        size = omega arith;
        sub_list = omega arith;
      })
      (record { msg_type = omega arith; size = omega arith })
