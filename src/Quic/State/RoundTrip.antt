-- ===== src/Quic/State/RoundTrip.antt =====
-- `decode_state_run` against `encode_state_run`.
use capsaicin.Base.{ℕ, ◌^◌, ◌<◌, ◌≡◌, refl, ap, List, [], ◌++◌, length}
use capsaicin.Base.Outcome.{ok}
use capsaicin.Quic.Stream.{BitReader, BitWriter, new, finish}
use capsaicin.Quic.Stream.Writes.{new-Holds, finish-Finished}
use capsaicin.Quic.State.{CommonState}
use capsaicin.Quic.State.Runs.{encode_state_run, decode_state_run}
use capsaicin.Quic.State.Melc.{IsMelc}
use capsaicin.Quic.State.RunCodes.{encode_state_run_lem, decode_state_run_lem}

-- From a consistent state of the run coder, a run of any `u32` length is written, and a reader at the
-- start of the finished stream, behind any 20 bytes of header, reads the length back. Both sides end
-- in the same state.
pub state_run_roundtrip :
    (s : CommonState) (n : ℕ) (head : List ℕ)
    → IsMelc s
    → n < 2 ^ 32
    → length head ≡ 20
    → (w : BitWriter) × (r : BitReader) × (t : CommonState) × (encode_state_run new s n ≡ ok (w, t))
      × (decode_state_run (record { bytes = head ++ finish w; body_start = 20; bit_pos = 0 }) s
          ≡ ok (r, t, n))
state_run_roundtrip s n head melc small size =
    let (w, e, holds) = encode_state_run_lem s n melc new-Holds in
    let f = finish-Finished holds in
    let (t, q) = decode_state_run_lem s n melc {ws = f.ws} {done = []} f.padding small (record {
      reading = record {
        head = head;
        length_head = size;
        stream = ap (λ (t : List ℕ). head ++ t) f.stream;
        start = refl;
        words = f.words;
      };
      position = refl;
      split = f.bits;
    }) in
    (w, t.reader, _, e, q)
