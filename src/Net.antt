-- ===== src/Net.antt =====
-- crates/capsaicin-net: errors, and the byte stream that a connection runs over. The stream is the
-- socket of tokio, a parameter of the model.
pub mod Channel
pub mod Handshake
use capsaicin.Base.{ℕ, ◌+◌, ◌≡◌, List, ◌++◌, length}
use capsaicin.Base.Outcome.{Outcome, ok, err, panic, stuck}
use capsaicin.Proto.Error.{ProtoError}
use capsaicin.Proto.Enums.{LinkError}

pub data NetError (IoError : Type 0) : Type 0 where
  io : IoError → NetError IoError
  proto : ProtoError → NetError IoError
  link : LinkError → NetError IoError
  -- size, max
  message_too_large : ℕ → ℕ → NetError IoError
  bad_server_key : NetError IoError
  password_too_long : ℕ → NetError IoError
  rsa_encrypt : List ℕ → NetError IoError

-- `?` on a result of the stream: `#[from] std::io::Error`.
abbrev pub from_io : {IoError A : Type 0} → Outcome IoError A → Outcome (NetError IoError) A
from_io (ok a) = ok a
from_io (err e) = err (io e)
from_io panic = panic
from_io stuck = stuck

-- `?` on a result of capsaicin-proto: `#[from] ProtoError`.
abbrev pub from_proto : {IoError A : Type 0} → Outcome ProtoError A → Outcome (NetError IoError) A
from_proto (ok a) = ok a
from_proto (err e) = err (proto e)
from_proto panic = panic
from_proto stuck = stuck

-- `AsyncReadExt::read_exact` and `AsyncWriteExt::write_all` of a stream, each run to its end.
pub record StreamOps (S IoError : Type 0) : Type 0 where
  pub read_exact : ℕ → S → Outcome IoError (List ℕ × S)
  pub write_all : List ℕ → S → Outcome IoError S

-- What they do while the connection is open: `read_exact` fills a buffer with the next bytes of the
-- peer, if that many have come, and `write_all` sends the whole buffer.
pub record IsOpen {S IoError : Type 0} (ops : StreamOps S IoError) : Type 0 where
  pub pending : S → List ℕ
  pub sent : S → List ℕ
  pub reads :
      (s : S) (bytes rest : List ℕ)
      → pending s ≡ bytes ++ rest
      → (s' : S) × (ops.read_exact (length bytes) s ≡ ok (bytes, s'))
        × (pending s' ≡ rest)
        × (sent s' ≡ sent s)
  pub writes :
      (s : S) (bytes : List ℕ)
      → (s' : S) × (ops.write_all bytes s ≡ ok s')
        × (sent s' ≡ sent s ++ bytes)
        × (pending s' ≡ pending s)
