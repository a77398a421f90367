-- ===== src/Quic/Returns/Rows.antt =====
-- The loops over a row come to an end, whatever the bits are, when their steps do.
use capsaicin.Quic.Returns.Loops.{Halting, IsRun, WalkedIn, IsOn, Nearer, Walked-bind, Round-bind}
use capsaicin.Base.{
  ℕ, zero, suc, ◌+◌, ◌-◌, ◌*◌, ◌≤◌, ◌<◌, ◌≡◌, refl, ◌∙◌, Option, none, ◌&&◌, arith, ltb, leb, ◌==◌,
  if◌then◌else◌, ltb→lt,
}
use capsaicin.Base.Settles.{Settles, gives, Settles-bind, Settles-if, Settles-map}
use capsaicin.Quic.State.{CommonState}
use capsaicin.Quic.Segment.{
  Steps, Walked, reached, ran, pixels, after_run, stretch, tail, rounds, begin, segment,
  row_segments, row,
}
use capsaicin.Quic.Segment.Walk.Distance.{distance, run-distance, step_distance}
use capsaicin.Quic.Segment.Rows.{set_wm_trigger-wmidx}
use capsaicin.Quic.Segment.Whole.{distance_start}
use capsaicin.Quic.Returns.Runs.{add_u32-Settles}

module _ {S : Type 0} {I : S → Type 0} {steps : Steps S} (halting : Halting I steps) where
  pixels-Settles :
      (n stopidx end : ℕ) (st : CommonState) (run_index : Option ℕ) (s : S) (j : ℕ)
      → I s
      → j + n ≤ end
      → Settles (WalkedIn I st.wmidx end run_index j) (pixels n steps stopidx end st run_index s j)
  unfolding pixels
  pixels-Settles zero stopidx end st run_index s j kept fits = gives kept
  pixels-Settles (suc n) stopidx end st run_index s j kept fits =
      Settles-bind (halting.starts s j run_index) (λ b fresh.
        Settles-if b _ _
          (λ start. Settles-bind (halting.run _ s j end kept) (λ t p. gives (
            p.0,
            record {
              after_start = omega arith;
              in_loop = omega (arith, fits);
              forward = p.1;
              inside = p.2;
              idx = p.3;
              fresh = λ e. fresh start;
            },
          )))
          (λ on. Settles-bind (halting.pixel s j kept) (λ s' p.
            Settles-map (later st.wmidx end run_index j)
              (pixels-Settles n stopidx end st run_index s' (j + 1) p (omega (arith, fits))))))
    where
      later :
          (k end : ℕ) (run_index : Option ℕ) (j : ℕ) (w : Walked S)
          → WalkedIn I k end run_index (j + 1) w
          → WalkedIn I k end run_index j w
      later k end run_index j (reached s) p = p
      later k end run_index j (ran st s from i) p = (
        p.0,
        record {
          after_start = omega (arith, p.1.after_start);
          in_loop = p.1.in_loop;
          forward = p.1.forward;
          inside = p.1.inside;
          idx = p.1.idx;
          fresh = λ e. absurd (omega (arith, p.1.after_start, e));
        },
      )

  after_run-Settles :
      (k end : ℕ) (run_index : Option ℕ) (start : ℕ) (st : CommonState) (s : S) (from i : ℕ)
      → I s
      → IsRun k end run_index start st from i
      → Settles (Nearer I k end (distance end run_index start)) (after_run end st s from i)
  unfolding after_run
  after_run-Settles k end run_index start st s from i kept r =
      Settles-if (i == end) _ _ (λ last. gives (kept, r.idx))
        (λ more. Settles-bind (add_u32-Settles i st.waitcnt) (λ stop e. gives (
          kept,
          record {
            idx = r.idx;
            inside = r.inside;
            ahead = omega (arith, e);
            nearer =
                run-distance end start from i run_index r.after_start r.forward r.inside r.in_loop
                  r.fresh;
          },
        )))

  stretch-Settles :
      (mask end : ℕ) (st : CommonState) (run_index : Option ℕ) (s : S) (i stopidx : ℕ)
      → I s
      → i ≤ stopidx
      → stopidx < end
      → Settles
          (Nearer I st.wmidx end (distance end run_index i))
          (stretch steps mask end st run_index s i stopidx)
  unfolding stretch
  stretch-Settles mask end st run_index s i stopidx kept ahead inside =
      Walked-bind
        (pixels-Settles (stopidx + 1 - i) stopidx end st run_index s i kept
          (omega (arith, ahead, inside)))
        (λ s' p. Settles-bind (halting.update st s' stopidx p) (λ s'' q.
          Settles-bind (add_u32-Settles (stopidx + 1) _) (λ stop e. gives (
            q,
            record {
              idx = refl;
              inside = omega (arith, inside);
              ahead = omega (arith, e);
              nearer =
                  step_distance end run_index i (stopidx + 1) (omega (arith, ahead))
                    (omega (arith, inside));
            },
          ))))
        (λ st' s' from i' p q. after_run-Settles st.wmidx end run_index i st' s' from i' p q)

  tail-Settles :
      (end : ℕ) (st : CommonState) (run_index : Option ℕ) (s : S) (i stopidx : ℕ)
      → I s
      → i ≤ end
      → Settles
          (Nearer I st.wmidx end (distance end run_index i))
          (tail steps end st run_index s i stopidx)
  unfolding tail
  tail-Settles end st run_index s i stopidx kept inside =
      Walked-bind
        (pixels-Settles (end - i) stopidx end st run_index s i kept (omega (arith, inside)))
        (λ s' p. gives (p, refl))
        (λ st' s' from i' p q. after_run-Settles st.wmidx end run_index i st' s' from i' p q)

  rounds-Settles :
      (fuel mask k end : ℕ) (st : CommonState) (run_index : Option ℕ) (s : S) (i stopidx : ℕ)
      → I s
      → IsOn k end fuel st run_index i stopidx
      → Settles
          (λ t. (I t.1) × (t.0.wmidx ≡ k))
          (rounds fuel steps mask end st run_index s i stopidx)
  unfolding rounds
  rounds-Settles zero mask k end st run_index s i stopidx kept on =
      absurd (omega (arith, on.nearer))
  rounds-Settles (suc fuel) mask k end st run_index s i stopidx kept on =
      Round-bind
        (Settles-if (ltb stopidx end) _ _
          (λ less.
            stretch-Settles mask end st run_index s i stopidx kept on.ahead
              (ltb→lt stopidx end less))
          (λ more. tail-Settles end st run_index s i stopidx kept on.inside))
        (λ st' s' p q. gives (p, q ∙ on.idx))
        (λ st' s' run' i' stop' p q. rounds-Settles fuel mask k end st' run' s' i' stop' p (record {
          idx = q.idx ∙ on.idx;
          inside = q.inside;
          ahead = q.ahead;
          nearer = omega (arith, q.nearer, on.nearer);
        }))

  begin-Settles :
      (mask : ℕ) (st : CommonState) (s : S)
      → I s
      → Settles (λ t. (I t.1) × (t.0.wmidx ≡ st.wmidx)) (begin steps mask st s)
  unfolding begin
  begin-Settles mask st s kept = Settles-bind (halting.first s kept) (λ s' p.
      Settles-if (ltb 0 st.waitcnt) _ _ (λ wait. gives (p, refl))
        (λ draw. Settles-bind (halting.update _ s' 0 p) (λ s'' q. gives (q, refl))))

  -- A segment that holds a pixel.
  segment-Settles :
      (st : CommonState) (s : S) (start end : ℕ)
      → I s
      → start < end
      → Settles (λ t. (I t.1) × (t.0.wmidx ≡ st.wmidx)) (segment steps st s start end)
  unfolding segment
  segment-Settles st s start end kept less =
      Settles-bind
        (Settles-if (start == 0) _ _ (λ zero'. begin-Settles _ st s kept)
          (λ later. gives (kept, refl)))
        (λ t p.
          let i = if start == 0 then 1 else start in
          let inside : (start ≤ i) × (i ≤ end) = ground arith in
          Settles-bind (add_u32-Settles i t.0.waitcnt) (λ stop e.
            rounds-Settles (2 * (end - start) + 2) _ st.wmidx end t.0 none t.1 i stop p.0 (record {
              idx = p.1;
              inside = inside.1;
              ahead = omega (arith, e);
              nearer = omega (arith, distance_start end i, inside.0);
            })))

  row_segments-Settles :
      (fuel : ℕ) (st : CommonState) (s : S) (pos remaining : ℕ)
      → I s
      → 0 < fuel
      → 7 ≤ fuel + st.wmidx
      → Settles (λ t. I t.1) (row_segments fuel steps st s pos remaining)
  unfolding row_segments
  row_segments-Settles zero st s pos remaining kept some_fuel enough = absurd (omega arith)
  row_segments-Settles (suc fuel) st s pos remaining kept some_fuel enough =
      Settles-if (ltb st.wmidx 6 && leb st.wmileft remaining) _ _
        (λ more.
          let low : st.wmidx < 6 = ground arith in
          Settles-bind
            (Settles-if {P = λ t. (I t.1) × (t.0.wmidx ≡ st.wmidx)} (ltb 0 st.wmileft) _ _
              (λ some_left.
                Settles-bind
                  (segment-Settles st s pos (pos + st.wmileft) kept
                    (omega (arith, ltb→lt 0 st.wmileft some_left)))
                  (λ t p. gives p))
              (λ none_left. gives (kept, refl)))
            (λ t p. row_segments-Settles fuel _ t.1 t.2 t.3 p.0 (omega (arith, enough, low)) (
              omega
                (arith, set_wm_trigger-wmidx (record t.0 { wmidx = t.0.wmidx + 1 }), p.1, enough))))
        (λ done. gives kept)

  pub row-Settles :
      (st : CommonState) (s : S) (width : ℕ) → I s → Settles (λ t. I t.1) (row steps st s width)
  unfolding row
  row-Settles st s width kept =
      Settles-bind (row_segments-Settles 7 st s 0 width kept (omega arith) (omega arith)) (λ t p.
        Settles-if (ltb 0 t.3) _ _
          (λ some_left.
            Settles-bind
              (segment-Settles t.0 t.1 t.2 (t.2 + t.3) p (omega (arith, ltb→lt 0 t.3 some_left)))
              (λ u q. gives q.0))
          (λ none_left. gives p))
