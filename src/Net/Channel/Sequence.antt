-- ===== src/Net/Channel/Sequence.antt =====
-- Sequences of messages over a channel of crates/capsaicin-net/src/channel.rs.
use capsaicin.Base.{
  ℕ, zero, suc, ◌^◌, ◌≤◌, ◌<◌, ◌≡◌, refl, ◌∙◌, Bool, true, false, List, [], ◌∷◌, ◌++◌, append_assoc,
  append-nil, arith, length, All, IsU16, IsU64,
}
use capsaicin.Base.Outcome.{Outcome, ok, ◌>>=◌}
use capsaicin.Net.{NetError, StreamOps, IsOpen}
use capsaicin.Net.Channel.{Message, Channel, read_message, write_message}
use capsaicin.Net.Channel.Framing.{
  channel_at, frame, next_serial, serial_of, write_message_lem, read_message_lem,
}

-- A type and a body for each message.
abbrev pub Messages : Type 0
Messages = List (ℕ × List ℕ)

-- What a channel at serial `n` puts on the wire.
abbrev pub frames : Bool → ℕ → Messages → List ℕ
frames mini n [] = []
frames mini n ((t, body) ∷ ms) = frame mini n t body ++ frames mini (next_serial mini n) ms

-- The messages as the other side is to see them.
abbrev pub numbered : Bool → ℕ → Messages → List Message
numbered mini n [] = []
numbered mini n ((t, body) ∷ ms) =
    record { msg_type = t; serial = serial_of mini n; body = body }
    ∷ numbered mini (next_serial mini n) ms

-- Each type has 16 bits, and each body is within the limit.
abbrev pub Fit : ℕ → Messages → Type 0
Fit max = All (λ p. IsU16 p.0 × (length p.1 ≤ max))

next_serial-IsU64 : (mini : Bool) (n : ℕ) → IsU64 n → IsU64 (next_serial mini n)
next_serial-IsU64 true n h = h
next_serial-IsU64 false n h = omega arith

module _ {S IoError : Type 0} (ops : StreamOps S IoError) where
  unfoldable pub write_messages : Messages → Channel S → Outcome (NetError IoError) (Channel S)
  write_messages [] c = ok c
  write_messages ((t, body) ∷ ms) c = do c ← write_message ops t body c; write_messages ms c

  unfoldable pub read_messages :
      ℕ → Channel S → Outcome (NetError IoError) (List Message × Channel S)
  read_messages zero c = ok ([], c)
  read_messages (suc count) c = do
    (m, c) ← read_message ops c
    (ms, c) ← read_messages count c
    ok (m ∷ ms, c)

  module _ (conn : IsOpen ops) where
    write_messages_lem :
        (mini : Bool) (max : ℕ) (ms : Messages) (n : ℕ) (s : S)
        → max < 2 ^ 32
        → Fit max ms
        → (c : Channel S) × (write_messages ms (channel_at mini n max s) ≡ ok c)
          × (conn.sent c.stream ≡ conn.sent s ++ frames mini n ms)
    unfolding write_messages
    write_messages_lem mini max [] n s k fit = (channel_at mini n max s, refl, simp append-nil)
    write_messages_lem mini max ((t, body) ∷ ms) n s k fit =
        let (s1, e, o, p) = write_message_lem ops conn mini n max t body s fit.0.1 k in
        let (c, e', o') = write_messages_lem mini max ms (next_serial mini n) s1 k fit.1 in
        (
          c,
          rw e e',
          o'
              ∙ rw (
                o,
                append_assoc (conn.sent s) (frame mini n t body)
                    (frames mini (next_serial mini n) ms),
              ),
        )

    read_messages_lem :
        (mini : Bool) (max m : ℕ) (ms : Messages) (rest : List ℕ) (n : ℕ) (s : S)
        → max < 2 ^ 32
        → Fit max ms
        → IsU64 n
        → conn.pending s ≡ frames mini n ms ++ rest
        → (c : Channel S) × (read_messages (length ms) (channel_at mini m max s)
            ≡ ok (numbered mini n ms, c))
          × (conn.pending c.stream ≡ rest)
    unfolding read_messages
    read_messages_lem mini max m [] rest n s k fit hn e = (channel_at mini m max s, refl, e)
    read_messages_lem mini max m ((t, body) ∷ ms) rest n s k fit hn e =
        let more = frames mini (next_serial mini n) ms in
        let (s1, r, q) =
          read_message_lem ops conn mini n m max t body (more ++ rest) s fit.0.1 k fit.0.0 hn
            (e ∙ append_assoc (frame mini n t body) more rest) in
        let (c, r', q') =
          read_messages_lem mini max m ms rest (next_serial mini n) s1 k fit.1
            (next_serial-IsU64 mini n hn) q in
        (c, rw (r, r'), q')

-- Two channels over open streams agree on the kind of header and each has a limit of 32 bits, the
-- messages are within both limits and have 16-bit types, and the frames of the messages stand first
-- in what the receiver has pending. Then the sender writes them all and sends just those frames, and
-- the receiver reads as many messages: the same types and bodies in the same order, and with full
-- headers the serials counted up from the sender's. What follows is left.
pub messages_roundtrip :
    {S R IoError : Type 0} (ops : StreamOps S IoError) (conn : IsOpen ops)
    (ops' : StreamOps R IoError) (conn' : IsOpen ops') (mini : Bool) (max max' n m : ℕ)
    (ms : Messages) (rest : List ℕ) (s : S) (r : R)
    → max < 2 ^ 32
    → max' < 2 ^ 32
    → Fit max ms
    → Fit max' ms
    → IsU64 n
    → conn'.pending r ≡ frames mini n ms ++ rest
    → ((c : Channel S) × (write_messages ops ms (channel_at mini n max s) ≡ ok c)
        × (conn.sent c.stream ≡ conn.sent s ++ frames mini n ms))
      × ((d : Channel R) × (read_messages ops' (length ms) (channel_at mini m max' r)
            ≡ ok (numbered mini n ms, d))
          × (conn'.pending d.stream ≡ rest))
messages_roundtrip ops conn ops' conn' mini max max' n m ms rest s r k k' fit fit' hn came = (
  write_messages_lem ops conn mini max ms n s k fit,
  read_messages_lem ops' conn' mini max' m ms rest n r k' fit' hn came,
)
