-- ===== src/Quic/Segment/Walk/Stretch.antt =====
-- One round of the outer loop of a segment, run by an encoder and a decoder that agree at each step.
use capsaicin.Quic.Segment.Walk.Distance.{
  step, add_u32_small, waited, distance, run-distance, step_distance, over, on,
}
use Prim.Native.Nat.{bit_and}
use capsaicin.Base.{
  ℕ, ◌+◌, ◌-◌, ◌≤◌, ◌<◌, ◌≡◌, refl, sym, Option, some, List, ◌==◌, arith, Bool-cases, inl, inr,
}
use capsaicin.Base.Outcome.{Outcome, and_then}
use capsaicin.Quic.{QuicError}
use capsaicin.Quic.Words.{wrapping_sub, bppmask}
use capsaicin.Quic.State.{CommonState, tabrand}
use capsaicin.Quic.Segment.{Steps, Walked, Round, reached, ran, after_run, stretch, tail}
use capsaicin.Quic.Segment.Lockstep.{Pair, Lockstep, Lockstep-ok, Lockstep-bind, Lockstep-eq}
use capsaicin.Quic.Segment.Walk.{
  IsState, at, Agree, Ending, through, behind, IsRun, walk, pixels_lem, wrapping_sub-le,
}

module _ {S D : Type 0} {p : Pair S D} {enc : Steps S} {dec : Steps D} {width : ℕ}
    (agree : Agree p enc dec width) (k end : ℕ) (few : k ≤ 6) (fits : end ≤ width)
    (small : width ≤ 16384) where
  after_run_lem :
      (st : CommonState) (from i : ℕ) (run_index : Option ℕ) (start target : ℕ) (bs : List ℕ)
      (s : S)
      → 0 < start
      → target ≤ end
      → IsRun k end target run_index start st from i
      → p.Writes i bs s
      → Lockstep p
          (step k end (distance end run_index start))
          i
          bs
          s
          (after_run end st s from i)
          (λ d. after_run end st d from i)
  unfolding after_run
  after_run_lem st from i run_index start target bs s pos low g h = elim (Bool-cases (i == end)) [
    | inl last ↦
        let e : i ≡ end = ground arith in
        Lockstep-eq p (step k end (distance end run_index start)) i bs s (rw last)
          (λ more d r. rw last)
          (Lockstep-ok p (step k end (distance end run_index start)) (over st) i bs s g.state
            (sym e) h)
    | inr more ↦
        let sum = add_u32_small i st.waitcnt (omega (arith, g.inside, fits, small, g.state.wait)) in
        Lockstep-eq p (step k end (distance end run_index start)) i bs s (rw (more, sum))
          (λ _ d r. rw (more, sum))
          (Lockstep-ok p (step k end (distance end run_index start))
            (on st (some from) i (i + st.waitcnt)) i bs s
            (record {
              state = g.state;
              pos = omega (arith, pos, g.after_start, g.forward);
              inside = g.inside;
              ahead = omega arith;
              near = omega (arith, g.state.wait);
              nearer =
                  run-distance end start from i run_index g.after_start g.forward g.inside
                    (omega (arith, g.in_loop, low)) g.not_last;
            })
            refl h)
  ]

  -- What follows the pixels: the round of a run that they ended with, or the rest of the round.
  walked :
      (run_index : Option ℕ) (i target : ℕ) (bs : List ℕ) (s : S)
      (f : S → Outcome QuicError (Round S)) (g : D → Outcome QuicError (Round D))
      {m : Outcome QuicError (Walked S)} {n : D → Outcome QuicError (Walked D)}
      → 0 < i
      → target ≤ end
      → Lockstep p (walk k end target run_index i) i bs s m n
      → ((bs' : List ℕ) (s' : S)
          → p.Writes target bs' s'
          → Lockstep p (step k end (distance end run_index i)) target bs' s' (f s') g)
      → Lockstep p
          (step k end (distance end run_index i))
          i
          bs
          s
          (and_then m
            (λ w. elim w [ ran state s from i ↦ after_run end state s from i | reached s ↦ f s ]))
          (λ d.
            and_then
              (n d)
              (λ w. elim w [ ran state d from i ↦ after_run end state d from i | reached d ↦ g d ]))
  walked run_index i target bs s f g {m} {n} pos inside l rest =
      Lockstep-bind p (walk k end target run_index i) (step k end (distance end run_index i)) i bs s
        m n _ _ l go
    where
      go :
          (t : Ending) (bs' : List ℕ) (s' : S)
          → (walk {S = S} {D = D} k end target run_index i).Good t
          → p.Writes ((walk {S = S} {D = D} k end target run_index i).at_pixel t) bs' s'
          → Lockstep p
              (step k end (distance end run_index i))
              ((walk {S = S} {D = D} k end target run_index i).at_pixel t)
              bs'
              s'
              (elim ((walk {S = S} {D = D} k end target run_index i).enc_result t s') [
                | ran state s from i ↦ after_run end state s from i
                | reached s ↦ f s
              ])
              (λ d. elim ((walk {S = S} {D = D} k end target run_index i).dec_result t d) [
                | ran state d from i ↦ after_run end state d from i
                | reached d ↦ g d
              ])
      go (behind st' from i') bs' s' r h' =
          after_run_lem st' from i' run_index i target bs' s' pos inside r h'
      go through bs' s' r h' = rest bs' s' h'

  seeded :
      (st : CommonState) (seed : ℕ) → IsState k st → IsState k (record st { tabrand_seed = seed })
  seeded st seed g = record {
    melc = record { within = g.melc.within; len = g.melc.len; order = g.melc.order };
    wait = g.wait;
    idx = g.idx;
  }

  -- A stretch, with the update of the model behind it.
  pub stretch_lem :
      (st : CommonState) (run_index : Option ℕ) (i stopidx : ℕ) (bs : List ℕ) (s : S)
      → IsState k st
      → 0 < i
      → i ≤ stopidx
      → stopidx ≤ i + 63
      → stopidx < end
      → p.Writes i bs s
      → Lockstep p
          (step k end (distance end run_index i))
          i
          bs
          s
          (stretch enc (bppmask k) end st run_index s i stopidx)
          (λ d. stretch dec (bppmask k) end st run_index d i stopidx)
  unfolding stretch
  stretch_lem st run_index i stopidx bs s g pos ahead near less h =
      let (drawn, seed) = tabrand st.tabrand_seed in
      let bound = waited drawn k few in
      let wait = bit_and drawn (bppmask k) in
      let sum = add_u32_small (stopidx + 1) wait (omega (arith, bound, less, fits, small)) in
      let sh = step k end (distance end run_index i) in
      walked run_index i (stopidx + 1) bs s _ _ pos (omega (arith, less))
        (pixels_lem agree k stopidx end (stopidx + 1) st run_index g.melc g.idx (omega arith)
          (omega (arith, less)) fits (omega (arith, less, fits, small)) (stopidx + 1 - i) i bs s pos
          (omega (arith, ahead)) near h)
        (λ bs' s' h'.
          Lockstep-bind p (at (stopidx + 1)) sh (stopidx + 1) bs' s' (enc.update st s' stopidx)
            (λ d. dec.update st d stopidx) _ _
            (agree.update st (stopidx + 1) stopidx bs' s' (omega arith) (omega (arith, less, fits))
              h')
            (λ t bs2 s2 u h2.
              Lockstep-eq p sh (stopidx + 1) bs2 s2 (rw sum) (λ more d r. rw sum)
                (Lockstep-ok p sh
                  (on (record st { tabrand_seed = seed }) run_index (stopidx + 1)
                    (stopidx + 1 + wait))
                  (stopidx + 1) bs2 s2
                  (record {
                    state = seeded st seed g;
                    pos = omega arith;
                    inside = omega (arith, less);
                    ahead = omega arith;
                    near = omega (arith, bound);
                    nearer =
                        step_distance end run_index i (stopidx + 1) (omega (arith, ahead))
                          (omega (arith, less));
                  })
                  refl h2)))

  -- The tail of the segment.
  pub tail_lem :
      (st : CommonState) (run_index : Option ℕ) (i stopidx : ℕ) (bs : List ℕ) (s : S)
      → IsState k st
      → 0 < i
      → i ≤ end
      → stopidx ≤ i + 63
      → end ≤ stopidx
      → p.Writes i bs s
      → Lockstep p
          (step k end (distance end run_index i))
          i
          bs
          s
          (tail enc end st run_index s i stopidx)
          (λ d. tail dec end st run_index d i stopidx)
  unfolding tail
  tail_lem st run_index i stopidx bs s g pos inside near beyond h =
      walked run_index i end bs s _ _ pos (omega arith)
        (pixels_lem agree k stopidx end end st run_index g.melc g.idx (omega (arith, beyond))
          (omega arith) fits (omega (arith, near, inside, fits, small)) (end - i) i bs s pos
          (omega (arith, inside)) near h)
        (λ bs' s' h'.
          let w = wrapping_sub-le stopidx end beyond (omega (arith, near, inside, fits, small)) in
          Lockstep-ok p (step k end (distance end run_index i))
            (over (record st { waitcnt = wrapping_sub stopidx end })) end bs' s'
            (record {
              melc = record { within = g.melc.within; len = g.melc.len; order = g.melc.order };
              wait = omega (arith, w, near, inside);
              idx = g.idx;
            })
            refl h')
