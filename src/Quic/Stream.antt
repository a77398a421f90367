-- ===== src/Quic/Stream.antt =====
-- `BitReader` and `BitWriter` of crates/capsaicin-quic/src/lib.rs. A debug assertion that fails is a
-- panic, as it is in a debug build.
pub mod Bits
pub mod Writes
pub mod Reads
pub mod Ahead
use Prim.Native.Nat.{bit_or}
use capsaicin.Base.{
  ℕ, zero, suc, ◌+◌, ◌-◌, ◌*◌, ◌/◌, ◌%◌, ◌^◌, ◌&&◌, not, List, [], ◌++◌, ltb, leb, ◌==◌,
  if◌then◌else◌, length, take, drop, to_le_bytes, from_le_bytes,
}
use capsaicin.Base.Outcome.{Outcome, ok, err, panic, fail_if, ◌>>=◌, ◌>>◌}
use capsaicin.Quic.{QuicError, short}
use capsaicin.Quic.Header.{quic_header_size}
use capsaicin.Quic.Words.{shl, shr, bppmask}

pub record BitReader : Type 0 where
  pub bytes : List ℕ
  pub body_start : ℕ
  pub bit_pos : ℕ

unfoldable pub new_after_header : List ℕ → Outcome QuicError BitReader
new_after_header bytes = do
  fail_if (ltb (length bytes) quic_header_size) (short quic_header_size (length bytes))
  ok (record { bytes = bytes; body_start = quic_header_size; bit_pos = 0 })

unfoldable pub read_word_at : BitReader → ℕ → ℕ
read_word_at r byte_offset =
    if leb (byte_offset + 4) (length r.bytes)
    then from_le_bytes (take 4 (drop byte_offset r.bytes))
    else 0

unfoldable pub peek32 : BitReader → ℕ
peek32 r =
    let word_idx = r.bit_pos / 32 in
    let bit_in_word = r.bit_pos % 32 in
    let off = r.body_start + word_idx * 4 in
    let w0 = read_word_at r off in
    let w1 = read_word_at r (off + 4) in
    if bit_in_word == 0 then w0 else bit_or (shl w0 bit_in_word) (shr w1 (32 - bit_in_word))

unfoldable pub eat : BitReader → ℕ → Outcome QuicError BitReader
eat r len =
    if leb len 32
    then (let new_pos = r.bit_pos + len in
        let max_bits = (length r.bytes - r.body_start) * 8 in
        if ltb (max_bits + 32) new_pos
        then err (short ((new_pos - max_bits) / 8) 0)
        else ok (record r { bit_pos = new_pos }))
    else panic

unfoldable pub eat32 : BitReader → Outcome QuicError BitReader
unfolding eat
eat32 r = eat r 32

pub record BitWriter : Type 0 where
  pub buf : List ℕ
  pub io_word : ℕ
  pub available : ℕ

abbrev pub new : BitWriter
new = record { buf = []; io_word = 0; available = 32 }

unfoldable pub flush_word : BitWriter → BitWriter
flush_word w = record { buf = w.buf ++ to_le_bytes 4 w.io_word; io_word = 0; available = 32 }

-- Enough room in the word.
unfoldable pub write_within : BitWriter → ℕ → ℕ → BitWriter
write_within w word len =
    let available = w.available - len in
    record w { available = available; io_word = bit_or w.io_word (shl word available) }

-- The word is filled, and the rest starts the next one.
unfoldable pub write_across : BitWriter → ℕ → ℕ → BitWriter
unfolding flush_word
write_across w word len =
    let delta = len - w.available in
    let flushed = flush_word (record w { io_word = bit_or w.io_word (shr word delta) }) in
    record flushed {
      available = 32 - delta;
      io_word = if delta == 0 then 0 else shl word (32 - delta);
    }

unfoldable pub write : BitWriter → ℕ → ℕ → Outcome QuicError BitWriter
unfolding write_within write_across
write w word len =
    if ltb 0 len && ltb len 32 && ltb word (2 ^ len)
    then ok (if ltb len w.available then write_within w word len else write_across w word len)
    else panic

unfoldable pub finish : BitWriter → List ℕ
unfolding flush_word
finish w = (if w.available == 32 then w else flush_word w).buf

-- `while remaining >= 31`, in which each round takes 31 from `remaining`.
unfoldable pub write_31s : ℕ → BitWriter → ℕ → Outcome QuicError (BitWriter × ℕ)
write_31s zero w remaining = ok (w, remaining)
write_31s (suc rounds) w remaining = do
  w ← write w (bppmask 31) 31
  write_31s rounds w (remaining - 31)

unfoldable pub write_ones : BitWriter → ℕ → Outcome QuicError BitWriter
unfolding write_31s
write_ones w n = do
  (w, remaining) ← write_31s (n / 31) w n
  let rest = write w (bppmask remaining) remaining
  if ltb 0 remaining then rest else ok w
