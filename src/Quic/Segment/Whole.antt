-- ===== src/Quic/Segment/Whole.antt =====
-- Whole segments, run by an encoder and a decoder that agree at each step.
use Prim.Native.Nat.{bit_and}
use capsaicin.Base.{
  ℕ, zero, suc, ◌+◌, ◌-◌, ◌*◌, ◌≤◌, ◌<◌, ◌≡◌, refl, false, none, List, ltb, ◌==◌, arith, Bool-cases,
  inl, inr,
}
use capsaicin.Base.Outcome.{ok, ◌>>=◌}
use capsaicin.Quic.Words.{add_u32, bppmask}
use capsaicin.Quic.State.{CommonState, tabrand}
use capsaicin.Quic.State.Melc.{IsMelc}
use capsaicin.Quic.Segment.{Steps, begin, segment, rounds}
use capsaicin.Quic.Segment.Lockstep.{Pair, Lockstep, Lockstep-ok, Lockstep-bind, Lockstep-eq}
use capsaicin.Quic.Segment.Walk.{IsState, at, Agree, is_last}
use capsaicin.Quic.Segment.Walk.Rounds.{rounds_lem}
use capsaicin.Quic.Segment.Walk.Distance.{done, add_u32_small, waited, distance}

-- The shared state between rows.
pub record IsRowState (st : CommonState) : Type 0 where
  pub melc : IsMelc st
  pub wait : st.waitcnt ≤ 63
  pub idx : st.wmidx ≤ 6

pub distance_start : (end i : ℕ) → distance end none i ≡ 2 * (end - i) + 1
unfolding distance is_last
distance_start end i = refl

module _ {S D : Type 0} {p : Pair S D} {enc : Steps S} {dec : Steps D} {width : ℕ}
    (agree : Agree p enc dec width) (small : width ≤ 16384) where
  begin_lem :
      (st : CommonState) (bs : List ℕ) (s : S)
      → IsRowState st
      → 0 < width
      → p.Writes 0 bs s
      → Lockstep p
          (done st.wmidx 1)
          0
          bs
          s
          (begin enc (bppmask st.wmidx) st s)
          (λ d. begin dec (bppmask st.wmidx) st d)
  unfolding begin
  begin_lem st bs s g some_pixel h =
      let drawn = bit_and (tabrand st.tabrand_seed).0 (bppmask st.wmidx) in
      let st' = record st { waitcnt = drawn; tabrand_seed = (tabrand st.tabrand_seed).1 } in
      let melc' : IsMelc st' = record {
        within = g.melc.within;
        len = g.melc.len;
        order = g.melc.order;
      } in
      Lockstep-bind p (at 1) (done st.wmidx 1) 0 bs s (enc.first s) dec.first _ _
        (agree.first bs s h)
        (λ t bs1 s1 u h1. elim (Bool-cases (ltb 0 st.waitcnt)) [
          | inl wait ↦
              Lockstep-eq p (done st.wmidx 1) 1 bs1 s1 (rw wait) (λ more d r. rw wait)
                (Lockstep-ok p (done st.wmidx 1) (record st { waitcnt = st.waitcnt - 1 }) 1 bs1 s1
                  (record {
                    melc = record {
                      within = g.melc.within;
                      len = g.melc.len;
                      order = g.melc.order;
                    };
                    wait = omega (arith, g.wait);
                    idx = refl;
                  })
                  refl h1)
          | inr now ↦
              Lockstep-eq p (done st.wmidx 1) 1 bs1 s1 (rw now) (λ more d r. rw now)
                (Lockstep-bind p (at 1) (done st.wmidx 1) 1 bs1 s1 (enc.update st' s1 0)
                  (λ d. dec.update st' d 0) (λ s. ok (st', s)) (λ d. ok (st', d))
                  (agree.update st' 1 0 bs1 s1 (omega arith) (omega (arith, some_pixel)) h1)
                  (λ t bs2 s2 u h2.
                    Lockstep-ok p (done st.wmidx 1) st' 1 bs2 s2
                      (record {
                        melc = melc';
                        wait = waited (tabrand st.tabrand_seed).0 st.wmidx g.idx;
                        idx = refl;
                      })
                      refl h2))
        ])

  -- The pixels of a segment from `i` on, behind the first.
  rest_lem :
      (k fuel end : ℕ) (st : CommonState) (i : ℕ) (bs : List ℕ) (s : S)
      → k ≤ 6
      → IsState k st
      → 0 < i
      → i ≤ end
      → end ≤ width
      → 2 * (end - i) + 1 < fuel
      → p.Writes i bs s
      → Lockstep p
          (done k end)
          i
          bs
          s
          (do stop ← add_u32 i st.waitcnt; rounds fuel enc (bppmask k) end st none s i stop)
          (λ d. do stop ← add_u32 i st.waitcnt; rounds fuel dec (bppmask k) end st none d i stop)
  rest_lem k fuel end st i bs s few g pos inside fits enough h =
      let sum = add_u32_small i st.waitcnt (omega (arith, inside, fits, small, g.wait)) in
      Lockstep-eq p (done k end) i bs s (rw sum) (λ more d r. rw sum)
        (rounds_lem agree k end few fits small fuel st none i (i + st.waitcnt) bs s g pos inside
          (omega arith) (omega (arith, g.wait)) (omega (arith, distance_start end i, enough)) h)

  pub segment_lem :
      (st : CommonState) (start end : ℕ) (bs : List ℕ) (s : S)
      → IsRowState st
      → start < end
      → end ≤ width
      → p.Writes start bs s
      → Lockstep p
          (done st.wmidx end)
          start
          bs
          s
          (segment enc st s start end)
          (λ d. segment dec st d start end)
  unfolding segment
  segment_lem st zero end bs s g less fits h =
      Lockstep-bind p (done st.wmidx 1) (done st.wmidx end) 0 bs s
        (begin enc (bppmask st.wmidx) st s) (λ d. begin dec (bppmask st.wmidx) st d) _ _
        (begin_lem st bs s g (omega (arith, less, fits)) h)
        (λ st' bs' s' g' h'.
          rest_lem st.wmidx (2 * (end - 0) + 2) end st' 1 bs' s' g.idx g' (omega arith)
            (omega (arith, less)) fits (omega arith) h')
  segment_lem st (suc start) end bs s g less fits h =
      let later : (suc start == 0) ≡ false = ground arith in
      let state : IsState st.wmidx st = record { melc = g.melc; wait = g.wait; idx = refl } in
      Lockstep-eq p (done st.wmidx end) (suc start) bs s (rw later) (λ more d r. rw later)
        (rest_lem st.wmidx (2 * (end - suc start) + 2) end st (suc start) bs s g.idx state
          (omega arith) (omega (arith, less)) fits (omega arith) h)
