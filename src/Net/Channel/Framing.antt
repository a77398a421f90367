-- ===== src/Net/Channel/Framing.antt =====
-- What one channel of crates/capsaicin-net/src/channel.rs writes, another reads.
use capsaicin.Base.{
  ℕ, ◌+◌, ◌-◌, ◌%◌, ◌^◌, ◌≤◌, ◌<◌, ◌≡◌, refl, ◌∙◌, Bool, true, false, Option, none, some, List, [],
  ◌++◌, append_assoc, append-nil, ltb, le→ltb, if◌then◌else◌, arith, length, length-append,
  length-to_le_bytes, IsU16, IsU64,
}
use capsaicin.Base.Outcome.{ok}
use capsaicin.Proto.Header.{
  DataHeader, decode_data_header, encode_data_header, MiniDataHeader, decode_mini_data_header,
  encode_mini_data_header,
}
use capsaicin.Proto.Header.RoundTrip.{message_headers_roundtrip}
use capsaicin.Net.{StreamOps, IsOpen}
use capsaicin.Net.Channel.{
  Channel, read_body, read_mini, read_full, read_message, next_header, write_message,
}

abbrev pub mini_of : ℕ → ℕ → MiniDataHeader
mini_of t size = record { msg_type = t; size = size }

abbrev pub full_of : ℕ → ℕ → ℕ → DataHeader
full_of n t size = record { serial = n; msg_type = t; size = size; sub_list = 0 }

abbrev pub header_of : Bool → ℕ → ℕ → ℕ → List ℕ
header_of true n t size = encode_mini_data_header (mini_of t size) []
header_of false n t size = encode_data_header (full_of n t size) []

-- A message on the wire, with the serial `n` that the channel is at.
abbrev pub frame : Bool → ℕ → ℕ → List ℕ → List ℕ
frame mini n t body = header_of mini n t (length body) ++ body

abbrev pub next_serial : Bool → ℕ → ℕ
next_serial true n = n
next_serial false n = (n + 1) % 2 ^ 64

abbrev pub serial_of : Bool → ℕ → Option ℕ
serial_of true n = none
serial_of false n = some n

abbrev pub channel_at : {S : Type 0} → Bool → ℕ → ℕ → S → Channel S
channel_at mini n max s = record {
  stream = s;
  mini_header = mini;
  send_serial = n;
  max_message_size = max;
}

pub decode_mini :
    (t size : ℕ)
    → t < 2 ^ 16
    → size < 2 ^ 32
    → decode_mini_data_header (header_of true 0 t size) ≡ ok (mini_of t size)
decode_mini t size h k =
    rw (append-nil (encode_mini_data_header (mini_of t size) [])) at
      (message_headers_roundtrip (full_of 0 t size) (mini_of t size) []
        (record { serial = omega arith; msg_type = h; size = k; sub_list = omega arith })
        (record { msg_type = h; size = k })).1

pub decode_full :
    (n t size : ℕ)
    → n < 2 ^ 64
    → t < 2 ^ 16
    → size < 2 ^ 32
    → decode_data_header (header_of false n t size) ≡ ok (full_of n t size)
decode_full n t size g h k =
    rw (append-nil (encode_data_header (full_of n t size) [])) at
      (message_headers_roundtrip (full_of n t size) (mini_of t size) []
        (record { serial = g; msg_type = h; size = k; sub_list = omega arith })
        (record { msg_type = h; size = k })).0

pub length-header_of :
    (mini : Bool) (n t size : ℕ) → length (header_of mini n t size) ≡ (if mini then 6 else 18)
unfolding encode_data_header encode_mini_data_header
length-header_of true n t size = omega (arith, length-append {A = ℕ}, length-to_le_bytes)
length-header_of false n t size = omega (arith, length-append {A = ℕ}, length-to_le_bytes)

next_header_lem :
    {S : Type 0} (mini : Bool) (n max t size : ℕ) (s : S)
    → next_header t size (channel_at mini n max s)
      ≡ (header_of mini n t size, channel_at mini (next_serial mini n) max s)
unfolding next_header
next_header_lem true n max t size s = refl
next_header_lem false n max t size s = refl

module _ {S IoError : Type 0} (ops : StreamOps S IoError) (conn : IsOpen ops) where
  -- A message within the limit of a 32-bit size is written behind its header in one piece, and the
  -- serial moves on where full headers are in use.
  pub write_message_lem :
      (mini : Bool) (n max t : ℕ) (body : List ℕ) (s : S)
      → length body ≤ max
      → max < 2 ^ 32
      → (s' : S) × (write_message ops t body (channel_at mini n max s)
          ≡ ok (channel_at mini (next_serial mini n) max s'))
        × (conn.sent s' ≡ conn.sent s ++ frame mini n t body)
        × (conn.pending s' ≡ conn.pending s)
  unfolding write_message
  write_message_lem mini n max t body s h k =
      let (s1, w1, o1, p1) = conn.writes s (header_of mini n t (length body)) in
      let (s2, w2, o2, p2) = conn.writes s1 body in
      let limit : ltb (2 ^ 32 - 1) (length body) ≡ false = le→ltb _ _ (omega arith) in
      let size : length body % 2 ^ 32 ≡ length body = omega arith in
      let fits : ltb max (length body) ≡ false = le→ltb _ _ h in
      (
        s2,
        rw (limit, size, fits, next_header_lem mini n max t (length body) s, w1, w2),
        o2 ∙ rw (o1, append_assoc (conn.sent s) (header_of mini n t (length body)) body),
        p2 ∙ p1,
      )

  read_body_lem :
      (mini : Bool) (m max : ℕ) (body rest : List ℕ) (s : S)
      → length body ≤ max
      → conn.pending s ≡ body ++ rest
      → (s' : S) × (read_body ops (channel_at mini m max s) (length body)
          ≡ ok (body, channel_at mini m max s'))
        × (conn.pending s' ≡ rest)
  unfolding read_body
  read_body_lem mini m max body rest s h e =
      let (s', r, q, o) = conn.reads s body rest e in
      let fits : ltb max (length body) ≡ false = le→ltb _ _ h in (s', rw (fits, r), q)

  -- A message that stands next in the stream and is within the limit is read, with its serial where
  -- full headers are in use, and what follows it is left.
  pub read_message_lem :
      (mini : Bool) (n m max t : ℕ) (body rest : List ℕ) (s : S)
      → length body ≤ max
      → max < 2 ^ 32
      → IsU16 t
      → IsU64 n
      → conn.pending s ≡ frame mini n t body ++ rest
      → (s' : S) × (read_message ops (channel_at mini m max s)
          ≡ ok (
            record { msg_type = t; serial = serial_of mini n; body = body },
            channel_at mini m max s',
          ))
        × (conn.pending s' ≡ rest)
  unfolding read_message read_mini read_full
  read_message_lem true n m max t body rest s h k ht hn e =
      let (s1, r1, q1, o1) =
        conn.reads s (header_of true n t (length body)) (body ++ rest)
          (e ∙ append_assoc (header_of true n t (length body)) body rest) in
      let (s2, r2, q2) = read_body_lem true m max body rest s1 h q1 in
      let r : ops.read_exact 6 s ≡ ok (header_of true n t (length body), s1) =
        rw (length-header_of true n t (length body)) at r1 in
      (s2, rw (r, decode_mini t (length body) ht (omega arith), r2), q2)
  read_message_lem false n m max t body rest s h k ht hn e =
      let (s1, r1, q1, o1) =
        conn.reads s (header_of false n t (length body)) (body ++ rest)
          (e ∙ append_assoc (header_of false n t (length body)) body rest) in
      let (s2, r2, q2) = read_body_lem false m max body rest s1 h q1 in
      let r : ops.read_exact 18 s ≡ ok (header_of false n t (length body), s1) =
        rw (length-header_of false n t (length body)) at r1 in
      (s2, rw (r, decode_full n t (length body) hn ht (omega arith), r2), q2)
