-- ===== src/Proto/Common/RoundTrip.antt =====
-- Decoding what was encoded, for the messages of crates/capsaicin-proto/src/common.rs.
use capsaicin.Base.{ℕ, ◌≡◌, List, [], ◌++◌}
use capsaicin.Base.Outcome.{ok}
use capsaicin.Proto.Common.{
  SetAck, decode_set_ack, encode_set_ack, AckSync, decode_ack_sync, encode_ack_sync, Pong,
  decode_pong, encode_pong, Disconnecting, decode_disconnecting, encode_disconnecting,
}
use capsaicin.Proto.Common.Wire.{
  FitsSetAck, encode_set_ack_lem, decode-wire_set_ack, FitsAckSync, encode_ack_sync_lem,
  decode-wire_ack_sync, FitsPong, encode_pong_lem, decode-wire_pong, FitsDisconnecting,
  encode_disconnecting_lem, decode-wire_disconnecting,
}

-- A SetAck, AckSync, Pong or Disconnecting message whose fields fit their widths is read back by its
-- decoder from what its encoder writes to an empty buffer, whatever bytes follow.
pub common_roundtrip :
    (a : SetAck) (b : AckSync) (c : Pong) (d : Disconnecting) (rest : List ℕ)
    → FitsSetAck a
    → FitsAckSync b
    → FitsPong c
    → FitsDisconnecting d
    → (decode_set_ack (encode_set_ack a [] ++ rest) ≡ ok a)
      × (decode_ack_sync (encode_ack_sync b [] ++ rest) ≡ ok b)
      × (decode_pong (encode_pong c [] ++ rest) ≡ ok c)
      × (decode_disconnecting (encode_disconnecting d [] ++ rest) ≡ ok d)
common_roundtrip a b c d rest fa fb fc fd = (
  rw (encode_set_ack_lem a []) (decode-wire_set_ack a rest fa),
  rw (encode_ack_sync_lem b []) (decode-wire_ack_sync b rest fb),
  rw (encode_pong_lem c []) (decode-wire_pong c rest fc),
  rw (encode_disconnecting_lem d []) (decode-wire_disconnecting d rest fd),
)
