-- ===== src/Tests/Net.antt =====
-- The channels of crates/capsaicin-net/src/channel.rs over a stream in memory.
use capsaicin.Base.{
  ℕ, ◌≡◌, refl, false, List, [], ◌∷◌, ◌++◌, ltb, le→ltb, if◌then◌else◌, arith, length,
  length-append, take, drop, take-append, drop-append,
}
use capsaicin.Base.Outcome.{ok, err}
use capsaicin.Net.{StreamOps, IsOpen}
use capsaicin.Net.Channel.{Channel}
use capsaicin.Net.Channel.Framing.{channel_at}
use capsaicin.Net.Channel.Sequence.{
  Messages, frames, numbered, write_messages, read_messages, messages_roundtrip,
}

-- What is to be read, and what has been written.
abbrev pub Pipe : Type 0
Pipe = List ℕ × List ℕ

abbrev pub pipe_ops : StreamOps Pipe (Unit {0})
pipe_ops = record {
  read_exact = λ n s. if ltb (length s.0) n then err tt else ok (take n s.0, (drop n s.0, s.1));
  write_all = λ bytes s. ok (s.0, s.1 ++ bytes);
}

abbrev pub pipe_is_open : IsOpen pipe_ops
pipe_is_open = record {
  pending = λ s. s.0;
  sent = λ s. s.1;
  reads = λ s bytes rest e.
      let fits : ltb (length (bytes ++ rest)) (length bytes) ≡ false =
        le→ltb _ _ (omega (arith, length-append bytes rest)) in
      ((rest, s.1), rw (e, fits, take-append bytes rest, drop-append bytes rest), refl, refl);
  writes = λ s bytes. ((s.0, s.1 ++ bytes), refl, refl, refl);
}

abbrev two_messages : Messages
two_messages = (7, 120 ∷ []) ∷ (8, 121 ∷ 122 ∷ []) ∷ []

messages_roundtrip_example :
    ((c : Channel Pipe) × (write_messages pipe_ops two_messages (channel_at false 1 1024 ([], []))
        ≡ ok c)
      × (c.stream.1 ≡ frames false 1 two_messages))
    × ((d : Channel Pipe) × (read_messages pipe_ops 2
            (channel_at false 1 1024 (frames false 1 two_messages ++ 9 ∷ [], []))
          ≡ ok (numbered false 1 two_messages, d))
        × (d.stream.0 ≡ 9 ∷ []))
messages_roundtrip_example =
    messages_roundtrip pipe_ops pipe_is_open pipe_ops pipe_is_open false 1024 1024 1 1 two_messages
      (9 ∷ []) ([], []) (frames false 1 two_messages ++ 9 ∷ [], []) (omega arith) (omega arith)
      (omega arith) (omega arith) (omega arith) refl
