-- ===== src/Quic/State/Runs.antt =====
-- `decode_state_run` and `encode_state_run` of crates/capsaicin-quic/src/lib.rs.
use capsaicin.Base.{ℕ, zero, suc, ◌+◌, ◌-◌, ◌%◌, ◌^◌, leb, ◌==◌, if◌then◌else◌, length}
use capsaicin.Base.Outcome.{Outcome, ok, stuck, ◌>>=◌}
use capsaicin.Quic.{QuicError}
use capsaicin.Quic.Words.{shr, leading_zeros}
use capsaicin.Quic.Stream.{BitReader, BitWriter, peek32, eat, write, write_ones}
use capsaicin.Quic.State.{CommonState, climb, descend}

-- `for _ in 0..temp`
unfoldable pub count_hits : ℕ → ℕ → CommonState → ℕ × CommonState
count_hits zero runlen s = (runlen, s)
count_hits (suc temp) runlen s = count_hits temp ((runlen + s.melcorder) % 2 ^ 32) (climb s)

-- `(!(reader.peek32() >> 24) as u8).leading_zeros()`
unfoldable pub leading_ones : BitReader → ℕ
unfolding leading_zeros
leading_ones r = leading_zeros 8 (255 - shr (peek32 r) 24 % 2 ^ 8)

-- The loop over the leading ones. Each round but the last takes 8 bits.
unfoldable pub take_hits :
    ℕ → BitReader → CommonState → ℕ → Outcome QuicError (BitReader × CommonState × ℕ)
unfolding leading_ones count_hits
take_hits zero r s runlen = stuck
take_hits (suc fuel) r s runlen =
    let temp = leading_ones r in
    let (runlen, s) = count_hits temp runlen s in
    let last = (do r ← eat r (temp + 1); ok (r, s, runlen)) in
    let next = (do r ← eat r 8; take_hits fuel r s runlen) in if temp == 8 then next else last

-- The bits behind the leading ones.
unfoldable pub take_rest : BitReader → CommonState → ℕ → Outcome QuicError (BitReader × ℕ)
take_rest r s runlen =
    if s.melclen == 0
    then ok (r, runlen)
    else (let read = (runlen + shr (peek32 r) (32 - s.melclen)) % 2 ^ 32 in
        do r ← eat r s.melclen; ok (r, read))

unfoldable pub decode_state_run :
    BitReader → CommonState → Outcome QuicError (BitReader × CommonState × ℕ)
unfolding take_hits take_rest
decode_state_run r s = do
  (r, s, runlen) ← take_hits (length r.bytes + 6) r s 0
  (r, runlen) ← take_rest r s runlen
  ok (r, descend s, runlen)

-- `while runlen >= melcorder`. A round takes at least 1 from `runlen`.
unfoldable pub give_hits : ℕ → CommonState → ℕ → ℕ → Outcome QuicError (CommonState × ℕ × ℕ)
give_hits zero s hits runlen = stuck
give_hits (suc fuel) s hits runlen =
    let more = give_hits fuel (climb s) (hits + 1) (runlen - s.melcorder) in
    if leb s.melcorder runlen then more else ok (s, hits, runlen)

unfoldable pub encode_state_run :
    BitWriter → CommonState → ℕ → Outcome QuicError (BitWriter × CommonState)
unfolding give_hits
encode_state_run w s runlen = do
  (s, hits, runlen) ← give_hits (suc runlen) s 0 runlen
  w ← write_ones w hits
  w ← write w runlen (s.melclen + 1)
  ok (w, descend s)
