-- ===== src/Quic/State/RunCodes.antt =====
-- `decode_state_run` against `encode_state_run`.
use capsaicin.Base.{
  ℕ, suc, ◌+◌, ◌-◌, ◌*◌, ◌^◌, ◌<◌, ◌≡◌, ap, ◌∙◌, subst, List, [], ◌++◌, append_assoc, arith, length,
  length-append,
}
use capsaicin.Base.Outcome.{ok}
use capsaicin.Base.Powers.{pow_mono}
use capsaicin.Quic.Stream.{BitReader, BitWriter}
use capsaicin.Quic.Stream.Bits.{to_bits, to_bits-fields}
use capsaicin.Quic.Stream.Writes.{Holds, write-Holds}
use capsaicin.Quic.Stream.Reads.{Before, length-bits_of, length_stream}
use capsaicin.Quic.State.{CommonState, descend}
use capsaicin.Quic.State.Runs.{decode_state_run, give_hits, encode_state_run}
use capsaicin.Quic.State.Ones.{ones, length-ones, write_ones-Holds}
use capsaicin.Quic.State.Melc.{IsMelc, IsMelc-short, descend-IsMelc, descend-Same}
use capsaicin.Quic.State.Hits.{Given, give_hits_lem, Taken, take_hits_lem, take_rest_lem}

-- The bits of a run of `n`, and the state behind it.
unfoldable pub run_code : CommonState → ℕ → List ℕ
run_code s n = elim (give_hits (suc n) s 0 n) [
  | ok (t, hits, rest) ↦ ones hits ++ to_bits (t.melclen + 1) rest
  | _ ↦ []
]

unfoldable pub run_state : CommonState → ℕ → CommonState
run_state s n = elim (give_hits (suc n) s 0 n) [ ok (t, hits, rest) ↦ descend t | _ ↦ s ]

module _ (s : CommonState) (n : ℕ) (m : IsMelc s) where
  given : Given (suc n) s 0 n
  given = give_hits_lem (suc n) s 0 n m (omega arith)

  given_hits : give_hits (suc n) s 0 n ≡ ok (given.state, given.more, given.rest)
  given_hits = given.given ∙ (let e : 0 + given.more ≡ given.more = omega arith in rw e)

  run_code_written : run_code s n ≡ ones given.more ++ to_bits (given.state.melclen + 1) given.rest
  unfolding run_code
  run_code_written = rw (run_code, given_hits)

  run_code_lem :
      run_code s n ≡ ones given.more ++ (to_bits 1 0 ++ to_bits given.state.melclen given.rest)
  run_code_lem =
      let t = given.state in
      let small : given.rest < 2 ^ t.melclen = rw (← given.melc.order) given.small in
      let e : t.melclen + 1 ≡ 1 + t.melclen = omega arith in
      let v : given.rest ≡ 0 * 2 ^ t.melclen + given.rest = omega arith in
      run_code_written
      ∙ ap (λ x. ones given.more ++ x)
          (ap (λ (k : ℕ). to_bits k given.rest) e
            ∙ ap (to_bits (1 + t.melclen)) v
            ∙ to_bits-fields 1 t.melclen 0 given.rest small)

  run_state_lem : run_state s n ≡ descend given.state
  unfolding run_state
  run_state_lem = rw (run_state, given_hits)

  pub run_state-IsMelc : IsMelc (run_state s n)
  run_state-IsMelc = rw run_state_lem (descend-IsMelc given.melc)

  pub run_state_wait : (run_state s n).waitcnt ≡ s.waitcnt
  run_state_wait = rw run_state_lem ((descend-Same given.state).0 ∙ given.same.0)

  pub run_state_idx : (run_state s n).wmidx ≡ s.wmidx
  run_state_idx = rw run_state_lem ((descend-Same given.state).1 ∙ given.same.1)

  -- The encoder writes the run's bits.
  pub encode_state_run_lem :
      {w : BitWriter} {bs : List ℕ}
      → Holds w bs
      → (w' : BitWriter) × (encode_state_run w s n ≡ ok (w', run_state s n))
        × Holds w' (bs ++ run_code s n)
  unfolding encode_state_run
  encode_state_run_lem {w} {bs} h =
      let t = given.state in
      let (w1, e1, h1) = write_ones-Holds given.more h in
      let short = IsMelc-short given.melc in
      let small : given.rest < 2 ^ (t.melclen + 1) =
        omega (arith, given.small, given.melc.order, pow_mono t.melclen (t.melclen + 1)) in
      let (w2, e2, h2) =
        write-Holds h1 given.rest (t.melclen + 1) small (omega arith) (omega (arith, short)) in
      (
        w2,
        rw (given_hits, e1, e2, run_state_lem),
        rw run_code_written
            (rw (append_assoc bs (ones given.more) (to_bits (t.melclen + 1) given.rest)) at h2),
      )

  -- The decoder reads the run back from its bits.
  pub decode_state_run_lem :
      {r : BitReader} {ws done : List ℕ} (more : List ℕ)
      → n < 2 ^ 32
      → Before r ws done (run_code s n ++ more)
      → (t : Taken r ws (done ++ run_code s n) more) × (decode_state_run r s
          ≡ ok (t.reader, run_state s n, n))
  unfolding decode_state_run
  decode_state_run_lem {r} {ws} {done} more fits b =
      let g = given.more in
      let t = given.state in
      let low = to_bits t.melclen given.rest in
      let all : run_code s n ++ more ≡ ones g ++ (to_bits 1 0 ++ (low ++ more)) =
        ap (λ x. x ++ more) run_code_lem ∙ simp append_assoc in
      let b1 : Before r ws done (ones g ++ (to_bits 1 0 ++ (low ++ more))) =
        subst (Before r ws done) all b in
      let enough : g < 8 * (length r.bytes + 6) = omega (
        arith,
        length_stream b1.reading,
        length-bits_of ws,
        ap length b1.split,
        length-append done (ones g ++ (to_bits 1 0 ++ (low ++ more))),
        length-append (ones g) (to_bits 1 0 ++ (low ++ more)),
        length-ones g,
      ) in
      let (u, p) = take_hits_lem (length r.bytes + 6) g (low ++ more) s 0 enough b1 in
      let c = given.counted 0 (omega (arith, fits)) in
      let small : given.rest < 2 ^ t.melclen = rw (← given.melc.order) given.small in
      let acc = 0 + n - given.rest in
      let sum : acc + given.rest ≡ n = omega (arith, c.1) in
      let (v, q) =
        take_rest_lem given.rest more t acc (IsMelc-short given.melc) small
          (omega (arith, fits, sum)) u.before in
      (
        record {
          reader = v.reader;
          kept_bytes = v.kept_bytes ∙ u.kept_bytes;
          before =
              subst (λ d. Before v.reader ws d more) (rw run_code_lem (simp append_assoc)) v.before;
        },
        rw (p, c.0, q, sum, run_state_lem),
      )
