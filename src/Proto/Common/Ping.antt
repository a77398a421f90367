-- ===== src/Proto/Common/Ping.antt =====
-- `Ping` of crates/capsaicin-proto/src/common.rs, and the `Pong` that answers it.
use capsaicin.Base.{
  ℕ, ◌≡◌, List, [], ◌++◌, append_assoc, append-nil, length, IsU32, IsU64, to_le_bytes,
}
use capsaicin.Base.Outcome.{Outcome, ok}
use capsaicin.Proto.Error.{ProtoError}
use capsaicin.Proto.Reader.{
  Writer, ◌>>=◌, ◌▸◌, pure, run, u32, u64, bytes, get_remaining, take, put_u32, put_u64, put_bytes,
}
use capsaicin.Proto.Reader.At.{at, run-at, unsigned-at, take-at, remaining-at}
use capsaicin.Proto.Common.{Pong, decode_pong, encode_pong}
use capsaicin.Proto.Common.Wire.{encode_pong_lem, decode-wire_pong}

pub record Ping : Type 0 where
  pub id : ℕ
  pub timestamp : ℕ
  pub «data» : List ℕ

unfoldable pub decode_ping : List ℕ → Outcome ProtoError Ping
decode_ping = run do
  id ← u32
  timestamp ← u64
  rem ← get_remaining
  «data» ← bytes rem
  pure (record { id = id; timestamp = timestamp; «data» = «data» })

unfoldable pub encode_ping : Ping → Writer → Writer
encode_ping m w = w ▸ put_u32 m.id ▸ put_u64 m.timestamp ▸ put_bytes m.«data»

unfoldable pub from_ping : Ping → Pong
from_ping ping = record { id = ping.id; timestamp = ping.timestamp }

-- A probe whose id and timestamp fit their widths is read back with its payload from what its
-- encoder writes, and the answer made from it is read back with the same id and timestamp, whatever
-- bytes follow the answer.
pub ping_roundtrip :
    (m : Ping) (rest : List ℕ)
    → IsU32 m.id
    → IsU64 m.timestamp
    → (decode_ping (encode_ping m []) ≡ ok m)
      × (decode_pong (encode_pong (from_ping m) [] ++ rest)
          ≡ ok (record { id = m.id; timestamp = m.timestamp }))
unfolding decode_ping encode_ping from_ping put_u32 put_u64 put_bytes
ping_roundtrip m rest h k = (
  let tail : decode_ping (to_le_bytes 4 m.id ++ (to_le_bytes 8 m.timestamp ++ m.«data»)) ≡ ok m =
        let whole : take (length m.«data»)
              (at (to_le_bytes 4 m.id ++ to_le_bytes 8 m.timestamp) m.«data»)
            ≡ ok (m.«data», at ((to_le_bytes 4 m.id ++ to_le_bytes 8 m.timestamp) ++ m.«data») []) =
          rw (append-nil m.«data») at
            (take-at (to_le_bytes 4 m.id ++ to_le_bytes 8 m.timestamp) m.«data» []) in
        simp (run-at, append_assoc, unsigned-at, remaining-at, h, k, whole) in
      simp (append_assoc, tail),
  rw (encode_pong_lem (from_ping m) [])
      (decode-wire_pong (from_ping m) rest (record { id = h; timestamp = k })),
)
