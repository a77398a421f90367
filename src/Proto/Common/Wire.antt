-- ===== src/Proto/Common/Wire.antt =====
-- The wire layouts of the messages of crates/capsaicin-proto/src/common.rs.
use capsaicin.Base.{ℕ, ◌≡◌, refl, List, ◌++◌, append_assoc, to_le_bytes, IsU32, IsU64}
use capsaicin.Base.Outcome.{ok}
use capsaicin.Proto.Reader.{put_u32, put_u64, Writer}
use capsaicin.Proto.Reader.At.{unsigned-at, run-at}
use capsaicin.Proto.Common.{
  SetAck, decode_set_ack, encode_set_ack, AckSync, decode_ack_sync, encode_ack_sync, Pong,
  decode_pong, encode_pong, Disconnecting, decode_disconnecting, encode_disconnecting,
}

pub record FitsSetAck (m : SetAck) : Type 0 where
  pub generation : IsU32 m.generation
  pub window : IsU32 m.window

unfoldable pub wire_set_ack : SetAck → List ℕ
wire_set_ack m = to_le_bytes 4 m.generation ++ (to_le_bytes 4 m.window)

pub encode_set_ack_lem : (m : SetAck) (w : Writer) → encode_set_ack m w ≡ w ++ wire_set_ack m
unfolding encode_set_ack wire_set_ack put_u32
encode_set_ack_lem m w = simp (append_assoc)

pub decode-wire_set_ack :
    (m : SetAck) (rest : List ℕ) → FitsSetAck m → decode_set_ack (wire_set_ack m ++ rest) ≡ ok m
unfolding decode_set_ack wire_set_ack
decode-wire_set_ack m rest h = simp (run-at, append_assoc, unsigned-at, h.generation, h.window)

pub record FitsAckSync (m : AckSync) : Type 0 where
  pub generation : IsU32 m.generation

unfoldable pub wire_ack_sync : AckSync → List ℕ
wire_ack_sync m = to_le_bytes 4 m.generation

pub encode_ack_sync_lem : (m : AckSync) (w : Writer) → encode_ack_sync m w ≡ w ++ wire_ack_sync m
unfolding encode_ack_sync wire_ack_sync put_u32
encode_ack_sync_lem m w = refl

pub decode-wire_ack_sync :
    (m : AckSync) (rest : List ℕ) → FitsAckSync m → decode_ack_sync (wire_ack_sync m ++ rest) ≡ ok m
unfolding decode_ack_sync wire_ack_sync
decode-wire_ack_sync m rest h = simp (run-at, unsigned-at, h.generation)

pub record FitsPong (m : Pong) : Type 0 where
  pub id : IsU32 m.id
  pub timestamp : IsU64 m.timestamp

unfoldable pub wire_pong : Pong → List ℕ
wire_pong m = to_le_bytes 4 m.id ++ (to_le_bytes 8 m.timestamp)

pub encode_pong_lem : (m : Pong) (w : Writer) → encode_pong m w ≡ w ++ wire_pong m
unfolding encode_pong wire_pong put_u32 put_u64
encode_pong_lem m w = simp (append_assoc)

pub decode-wire_pong :
    (m : Pong) (rest : List ℕ) → FitsPong m → decode_pong (wire_pong m ++ rest) ≡ ok m
unfolding decode_pong wire_pong
decode-wire_pong m rest h = simp (run-at, append_assoc, unsigned-at, h.id, h.timestamp)

pub record FitsDisconnecting (m : Disconnecting) : Type 0 where
  pub time_stamp : IsU64 m.time_stamp
  pub reason : IsU32 m.reason

unfoldable pub wire_disconnecting : Disconnecting → List ℕ
wire_disconnecting m = to_le_bytes 8 m.time_stamp ++ (to_le_bytes 4 m.reason)

pub encode_disconnecting_lem :
    (m : Disconnecting) (w : Writer) → encode_disconnecting m w ≡ w ++ wire_disconnecting m
unfolding encode_disconnecting wire_disconnecting put_u32 put_u64
encode_disconnecting_lem m w = simp (append_assoc)

pub decode-wire_disconnecting :
    (m : Disconnecting) (rest : List ℕ)
    → FitsDisconnecting m
    → decode_disconnecting (wire_disconnecting m ++ rest) ≡ ok m
unfolding decode_disconnecting wire_disconnecting
decode-wire_disconnecting m rest h =
    simp (run-at, append_assoc, unsigned-at, h.time_stamp, h.reason)
