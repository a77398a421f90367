-- ===== src/Quic/State/Hits.antt =====
-- The loops of `encode_state_run` and `decode_state_run`.
use capsaicin.Base.{
  ℕ, zero, suc, ◌+◌, ◌-◌, ◌*◌, ◌%◌, ◌^◌, ◌≤◌, ◌<◌, ◌≡◌, refl, ap, ◌∙◌, sym, subst, false, inl, inr,
  List, [], ◌++◌, append_assoc, append-nil, arith, ltb, leb, ◌==◌, ltb→lt, ltb→le, Bool-cases,
}
use capsaicin.Base.Outcome.{ok}
use capsaicin.Base.Powers.{pow_pos, split_div}
use native.Mathlib.Nat.{mod-eq_of_lt}
use capsaicin.Quic.Words.{shr}
use capsaicin.Quic.Stream.{BitReader, peek32}
use capsaicin.Quic.Stream.Bits.{to_bits, to_bits_none}
use capsaicin.Quic.Stream.Reads.{Before, peek32-Leads, eat-Before}
use capsaicin.Quic.State.{CommonState, climb}
use capsaicin.Quic.State.Runs.{count_hits, take_hits, take_rest, give_hits}
use capsaicin.Quic.State.Ones.{
  ones, ones-append, leading_ones_lem, leading_ones_all, ones-zero, to_bits-ones,
}
use capsaicin.Quic.State.Melc.{IsMelc, climb-IsMelc, climb-Same}

-- What the encoder's loop leaves, and what the decoder counts for the same number of ones.
pub record Given (fuel : ℕ) (s : CommonState) (hits runlen : ℕ) : Type 0 where
  pub state : CommonState
  pub more : ℕ
  pub rest : ℕ
  pub melc : IsMelc state
  pub given : give_hits fuel s hits runlen ≡ ok (state, hits + more, rest)
  pub small : rest < state.melcorder
  pub same : (state.waitcnt ≡ s.waitcnt) × (state.wmidx ≡ s.wmidx)
  pub counted :
      (acc : ℕ)
      → acc + runlen < 2 ^ 32
      → (count_hits more acc s ≡ (acc + runlen - rest, state)) × (rest ≤ runlen)

pub give_hits_lem :
    (fuel : ℕ) (s : CommonState) (hits runlen : ℕ)
    → IsMelc s
    → runlen < fuel
    → Given fuel s hits runlen
unfolding give_hits count_hits
give_hits_lem zero s hits runlen m h = absurd (omega arith)
give_hits_lem (suc fuel) s hits runlen m h = elim (Bool-cases (leb s.melcorder runlen)) [
  | inl again ↦
      let pos : 0 < s.melcorder = omega (arith, m.order, pow_pos s.melclen) in
      let le : s.melcorder ≤ runlen = ground arith in
      let g =
        give_hits_lem fuel (climb s) (hits + 1) (runlen - s.melcorder) (climb-IsMelc m)
          (omega arith) in
      record {
        state = g.state;
        more = suc g.more;
        rest = g.rest;
        melc = g.melc;
        given =
            (let n : hits + 1 + g.more ≡ hits + suc g.more = omega arith in
              rw again (g.given ∙ rw n));
        small = g.small;
        same = (let c = climb-Same s in (g.same.0 ∙ c.0, g.same.1 ∙ c.1));
        counted = λ acc fits.
            let wrap : (acc + s.melcorder) % 2 ^ 32 ≡ acc + s.melcorder =
              mod-eq_of_lt (omega (arith, le, fits)) in
            let c = g.counted (acc + s.melcorder) (omega (arith, le, fits)) in
            let n : acc + s.melcorder + (runlen - s.melcorder) - g.rest ≡ acc + runlen - g.rest =
              omega (arith, le) in
            (rw wrap (c.0 ∙ rw n), omega (arith, c.1));
      }
  | inr done ↦
      let z : hits + 0 ≡ hits = omega arith in
      record {
        state = s;
        more = 0;
        rest = runlen;
        melc = m;
        given = rw (done, z);
        small = ground arith;
        same = (refl, refl);
        counted =
            λ acc fits. let n : acc + runlen - runlen ≡ acc = omega arith in (rw n, omega arith);
      }
]

count_hits_add :
    (n k acc : ℕ) (s : CommonState)
    → count_hits (n + k) acc s ≡ count_hits k (count_hits n acc s).0 (count_hits n acc s).1
unfolding count_hits
count_hits_add zero k acc s = let e : 0 + k ≡ k = omega arith in rw e
count_hits_add (suc n) k acc s =
    let e : suc n + k ≡ suc (n + k) = omega arith in
    rw e (count_hits_add n k ((acc + s.melcorder) % 2 ^ 32) (climb s))

-- The reader after bits that it has taken.
pub record Taken (r : BitReader) (ws done more : List ℕ) : Type 0 where
  pub reader : BitReader
  pub kept_bytes : reader.bytes ≡ r.bytes
  pub before : Before reader ws done more

take_hits_last :
    (fuel h : ℕ) {r : BitReader} {ws done : List ℕ} (more : List ℕ) (s : CommonState) (acc : ℕ)
    → h < 8
    → Before r ws done (ones h ++ (to_bits 1 0 ++ more))
    → (t : Taken r ws (done ++ (ones h ++ to_bits 1 0)) more) × (take_hits (suc fuel) r s acc
        ≡ ok (t.reader, (count_hits h acc s).1, (count_hits h acc s).0))
unfolding take_hits
take_hits_last fuel h {r} {ws} {done} more s acc small b =
    let b' : Before r ws done (to_bits (suc h) (2 ^ suc h - 2) ++ more) =
      rw (ones-zero h, append_assoc (ones h) (to_bits 1 0) more) b in
    let n = leading_ones_lem h more small b' in
    let (e, after) = eat-Before (2 ^ suc h - 2) (suc h) more b' (omega (arith, small)) in
    let seven : (h == 8) ≡ false = ground arith in
    let plus : h + 1 ≡ suc h = omega arith in
    (
      record {
        reader = record r { bit_pos = r.bit_pos + suc h };
        kept_bytes = refl;
        before = rw (ones-zero h) at after;
      },
      rw (n, seven, plus, e),
    )

take_hits_next :
    (fuel h : ℕ) {r : BitReader} {ws done : List ℕ} (more : List ℕ) (s : CommonState) (acc : ℕ)
    → Before r ws done (ones (8 + h) ++ more)
    → (t : Taken r ws (done ++ ones 8) (ones h ++ more)) × (take_hits (suc fuel) r s acc
        ≡ take_hits fuel t.reader (count_hits 8 acc s).1 (count_hits 8 acc s).0)
unfolding take_hits
take_hits_next fuel h {r} {ws} {done} more s acc b =
    let b' : Before r ws done (ones 8 ++ (ones h ++ more)) =
      subst (Before r ws done)
        (ap (λ t. t ++ more) (ones-append 8 h) ∙ append_assoc (ones 8) (ones h) more) b in
    let n = leading_ones_all (ones h ++ more) b' in
    let b'' : Before r ws done (to_bits 8 255 ++ (ones h ++ more)) = rw (to_bits-ones 8) b' in
    let (e, after) = eat-Before 255 8 (ones h ++ more) b'' (omega arith) in
    (
      record {
        reader = record r { bit_pos = r.bit_pos + 8 };
        kept_bytes = refl;
        before = rw (to_bits-ones 8) at after;
      },
      rw (n, e),
    )

pub take_hits_lem :
    (fuel h : ℕ) {r : BitReader} {ws done : List ℕ} (more : List ℕ) (s : CommonState) (acc : ℕ)
    → h < 8 * fuel
    → Before r ws done (ones h ++ (to_bits 1 0 ++ more))
    → (t : Taken r ws (done ++ (ones h ++ to_bits 1 0)) more) × (take_hits fuel r s acc
        ≡ ok (t.reader, (count_hits h acc s).1, (count_hits h acc s).0))
take_hits_lem zero h more s acc enough b = absurd (omega arith)
take_hits_lem (suc fuel) h {r} {ws} {done} more s acc enough b = elim (Bool-cases (ltb h 8)) [
  | inl small ↦ take_hits_last fuel h more s acc (ltb→lt h 8 small) b
  | inr large ↦
      let k = h - 8 in
      let e : h ≡ 8 + k = omega (arith, ltb→le h 8 large) in
      let b' : Before r ws done (ones (8 + k) ++ (to_bits 1 0 ++ more)) =
        subst (λ (t : ℕ). Before r ws done (ones t ++ (to_bits 1 0 ++ more))) e b in
      let (t, p) = take_hits_next fuel k (to_bits 1 0 ++ more) s acc b' in
      let (u, q) =
        take_hits_lem fuel k more (count_hits 8 acc s).1 (count_hits 8 acc s).0
          (omega (arith, enough, e)) t.before in
      let c = ap (λ (t : ℕ). count_hits t acc s) e ∙ count_hits_add 8 k acc s in
      let bits : (done ++ ones 8) ++ (ones k ++ to_bits 1 0) ≡ done ++ (ones h ++ to_bits 1 0) =
        rw
          (
            append_assoc done (ones 8) (ones k ++ to_bits 1 0),
            ← append_assoc (ones 8) (ones k) (to_bits 1 0),
            ← ones-append 8 k,
          )
          (ap (λ (t : ℕ). done ++ (ones t ++ to_bits 1 0)) (sym e)) in
      (
        record {
          reader = u.reader;
          kept_bytes = u.kept_bytes ∙ t.kept_bytes;
          before = subst (λ d. Before u.reader ws d more) bits u.before;
        },
        p ∙ rw c q,
      )
]

pub take_rest_lem :
    {r : BitReader} {ws done : List ℕ} (rest : ℕ) (more : List ℕ) (s : CommonState) (acc : ℕ)
    → s.melclen ≤ 15
    → rest < 2 ^ s.melclen
    → acc + rest < 2 ^ 32
    → Before r ws done (to_bits s.melclen rest ++ more)
    → (t : Taken r ws (done ++ to_bits s.melclen rest) more) × (take_rest r s acc
        ≡ ok (t.reader, acc + rest))
unfolding take_rest
take_rest_lem {r} {ws} {done} rest more s acc short small fits b =
    let len = s.melclen in
    let l = peek32-Leads rest len more b (omega (arith, short)) small in
    let (e, after) = eat-Before rest len more b (omega (arith, short)) in
    let t : Taken r ws (done ++ to_bits len rest) more = record {
      reader = record r { bit_pos = r.bit_pos + len };
      kept_bytes = refl;
      before = after;
    } in
    elim (Bool-cases (len == 0)) [
      | inl none ↦
          let z : len ≡ 0 = ground arith in
          let one : 2 ^ len ≡ 1 = rw z in
          let v : rest ≡ 0 = omega (arith, small, one) in
          let w : acc ≡ acc + rest = omega (arith, v) in
          let empty : to_bits len rest ≡ [] =
            ap (λ (n : ℕ). to_bits n rest) z ∙ to_bits_none rest in
          (
            record {
              reader = r;
              kept_bytes = refl;
              before =
                  (let b' : Before r ws done more =
                      subst (λ x. Before r ws done (x ++ more)) empty b in
                    subst (λ d. Before r ws d more)
                      (sym (append-nil done) ∙ ap (λ x. done ++ x) (sym empty)) b');
            },
            rw none (ap (λ (n : ℕ). ok (r, n)) w),
          )
      | inr some ↦
          let top : shr (peek32 r) (32 - len) ≡ rest =
            rw l.value (split_div rest (2 ^ (32 - len)) l.below l.fits) in
          let sum : (acc + rest) % 2 ^ 32 ≡ acc + rest = mod-eq_of_lt fits in
          (t, rw (some, top, sum, e))
    ]
