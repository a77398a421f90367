-- ===== src/Proto/Common.antt =====
-- The message bodies of crates/capsaicin-proto/src/common.rs.
pub mod Ping
pub mod Wire
pub mod RoundTrip
pub mod Sizes
use capsaicin.Base.{ℕ, List}
use capsaicin.Base.Outcome.{Outcome}
use capsaicin.Base.Int.{ℤ}
use capsaicin.Proto.Error.{ProtoError}
use capsaicin.Proto.Types.{Rect, decode_rect, encode_rect}
use capsaicin.Proto.Reader.{
  Read, Writer, ◌>>=◌, ◌▸◌, pure, run, u8, u16, u32, u64, i16, i32, i64, put_u8, put_u16, put_u32,
  put_u64, put_i16, put_i32, put_i64,
}

pub record SetAck : Type 0 where
  pub generation : ℕ
  pub window : ℕ

unfoldable pub decode_set_ack : List ℕ → Outcome ProtoError SetAck
decode_set_ack =
    run
      do generation ← u32; window ← u32; pure (record { generation = generation; window = window })

unfoldable pub encode_set_ack : SetAck → Writer → Writer
encode_set_ack m w = w ▸ put_u32 m.generation ▸ put_u32 m.window

pub record AckSync : Type 0 where
  pub generation : ℕ

unfoldable pub decode_ack_sync : List ℕ → Outcome ProtoError AckSync
decode_ack_sync = run do generation ← u32; pure (record { generation = generation })

unfoldable pub encode_ack_sync : AckSync → Writer → Writer
encode_ack_sync m w = w ▸ put_u32 m.generation

pub record Pong : Type 0 where
  pub id : ℕ
  pub timestamp : ℕ

unfoldable pub decode_pong : List ℕ → Outcome ProtoError Pong
decode_pong = run do id ← u32; timestamp ← u64; pure (record { id = id; timestamp = timestamp })

unfoldable pub encode_pong : Pong → Writer → Writer
encode_pong m w = w ▸ put_u32 m.id ▸ put_u64 m.timestamp

pub record Disconnecting : Type 0 where
  pub time_stamp : ℕ
  pub reason : ℕ

unfoldable pub decode_disconnecting : List ℕ → Outcome ProtoError Disconnecting
decode_disconnecting =
    run
      do time_stamp ← u64; reason ← u32; pure (record { time_stamp = time_stamp; reason = reason })

unfoldable pub encode_disconnecting : Disconnecting → Writer → Writer
encode_disconnecting m w = w ▸ put_u64 m.time_stamp ▸ put_u32 m.reason
