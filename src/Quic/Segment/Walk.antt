-- ===== src/Quic/Segment/Walk.antt =====
-- The loops over the pixels of a segment, run by an encoder and a decoder that agree at each step.
pub mod Rounds
pub mod Stretch
pub mod Distance
use Prim.Native.Nat.{bit_and}
use capsaicin.Base.{
  ℕ, zero, suc, ◌+◌, ◌-◌, ◌*◌, ◌%◌, ◌^◌, ◌≤◌, ◌<◌, ◌≡◌, refl, ◌∙◌, ap, sym, Bool, true, false,
  Option, none, some, List, ltb, leb, ◌==◌, if◌then◌else◌, arith, Bool-cases, inl, inr,
}
use capsaicin.Base.Outcome.{Outcome, ok, ◌>>=◌, and_then}
use native.Mathlib.Nat.{mod-eq_of_lt}
use capsaicin.Quic.{QuicError}
use capsaicin.Quic.Words.{wrapping_sub}
use capsaicin.Quic.State.{CommonState}
use capsaicin.Quic.State.Melc.{IsMelc}
use capsaicin.Quic.Segment.{Steps, Walked, reached, ran, pixels}
use capsaicin.Quic.Segment.Lockstep.{
  Pair, Shaped, Lockstep, Lockstep-ok, Lockstep-bind, Lockstep-eq, Lockstep-weaken,
}

-- The run at `i` is the last one, which may not be repeated.
unfoldable pub is_last : Option ℕ → ℕ → Bool
is_last none i = false
is_last (some k) i = k == i

-- The shared state in a row whose segments use wait mask number `k`.
pub record IsState (k : ℕ) (st : CommonState) : Type 0 where
  pub melc : IsMelc st
  pub wait : st.waitcnt ≤ 63
  pub idx : st.wmidx ≡ k

module _ {S D : Type 0} where
  -- A state alone, at a given pixel.
  abbrev pub at : ℕ → Shaped S D S D (Unit {0})
  at i = record {
    enc_result = λ t s. s;
    dec_result = λ t d. d;
    Good = λ t. Unit {0};
    at_pixel = λ t. i;
  }

  -- A run from `i` in a segment up to `end`: the shared state and the index behind it.
  abbrev pub after :
      CommonState → ℕ → ℕ → Shaped S D (CommonState × S × ℕ) (CommonState × D × ℕ) (CommonState × ℕ)
  after st i end = record {
    enc_result = λ t s. (t.0, s, t.1);
    dec_result = λ t d. (t.0, d, t.1);
    Good = λ t.
        (i ≤ t.1) × (t.1 ≤ end) × IsMelc t.0 × (t.0.waitcnt ≡ st.waitcnt) × (t.0.wmidx ≡ st.wmidx);
    at_pixel = λ t. t.1;
  }

  -- Whether a run starts: both sides decide alike.
  pub record Starting (p : Pair S D) (enc : Steps S) (dec : Steps D) (i : ℕ) (run_index : Option ℕ)
      (bs : List ℕ) (s : S) : Type 0 where
    pub starts : Bool
    pub enc_starts : enc.starts s i run_index ≡ ok starts
    pub not_last : starts ≡ true → is_last run_index i ≡ false
    pub dec_starts :
        (more : List ℕ) (d : D) → p.Reads i bs more s d → dec.starts d i run_index ≡ ok starts

  -- The steps of the two sides agree in a row of `width` pixels.
  pub record Agree (p : Pair S D) (enc : Steps S) (dec : Steps D) (width : ℕ) : Type 0 where
    pub first :
        (bs : List ℕ) (s : S) → p.Writes 0 bs s → Lockstep p (at 1) 0 bs s (enc.first s) dec.first
    pub pixel :
        (i : ℕ) (bs : List ℕ) (s : S)
        → 0 < i
        → i < width
        → p.Writes i bs s
        → Lockstep p (at (i + 1)) i bs s (enc.pixel s i) (λ d. dec.pixel d i)
    pub update :
        (st : CommonState) (i k : ℕ) (bs : List ℕ) (s : S)
        → k < i
        → i ≤ width
        → p.Writes i bs s
        → Lockstep p (at i) i bs s (enc.update st s k) (λ d. dec.update st d k)
    pub starts :
        (i : ℕ) (run_index : Option ℕ) (bs : List ℕ) (s : S)
        → 0 < i
        → i < width
        → p.Writes i bs s
        → Starting p enc dec i run_index bs s
    pub run :
        (st : CommonState) (i end : ℕ) (bs : List ℕ) (s : S)
        → 0 < i
        → i < end
        → end ≤ width
        → IsMelc st
        → p.Writes i bs s
        → Lockstep p (after st i end) i bs s (enc.run st s i end) (λ d. dec.run st d i end)

-- How a loop over pixels ends.
pub data Ending : Type 0 where
  through : Ending
  behind : CommonState → (from : ℕ) → (i : ℕ) → Ending

-- The run that ended the loop over the pixels from `j` to `target`.
pub record IsRun (k end target : ℕ) (run_index : Option ℕ) (j : ℕ) (st : CommonState) (from i : ℕ)
    : Type 0 where
  pub after_start : j ≤ from
  pub in_loop : from < target
  pub forward : from ≤ i
  pub inside : i ≤ end
  pub state : IsState k st
  pub not_last : from ≡ j → is_last run_index j ≡ false

module _ {S D : Type 0} (k end target : ℕ) (run_index : Option ℕ) where
  abbrev pub walk : ℕ → Shaped S D (Walked S) (Walked D) Ending
  walk j = record {
    enc_result = λ t s. elim t [ through ↦ reached s | behind st from i ↦ ran st s from i ];
    dec_result = λ t d. elim t [ through ↦ reached d | behind st from i ↦ ran st d from i ];
    Good = λ t. elim t [
      | through ↦ Unit {0}
      | behind st from i ↦ IsRun k end target run_index j st from i
    ];
    at_pixel = λ t. elim t [ through ↦ target | behind st from i ↦ i ];
  }

pub wrapping_sub-le : (a b : ℕ) → b ≤ a → a < 2 ^ 32 → wrapping_sub a b ≡ a - b
wrapping_sub-le a b h k = omega arith

module _ {S D : Type 0} {p : Pair S D} {enc : Steps S} {dec : Steps D} {width : ℕ}
    (agree : Agree p enc dec width) (k stopidx end target : ℕ) (st : CommonState)
    (run_index : Option ℕ) (good : IsMelc st) (idx : st.wmidx ≡ k) (reach : target ≤ stopidx + 1)
    (inside : target ≤ end) (fits : end ≤ width) (small : stopidx < 2 ^ 32) where
  -- Where a run starts.
  pixels_run :
      (j : ℕ) (bs : List ℕ) (s : S)
      → 0 < j
      → j < target
      → stopidx ≤ j + 63
      → is_last run_index j ≡ false
      → p.Writes j bs s
      → Lockstep p
          (walk k end target run_index j)
          j
          bs
          s
          (do
            (st, s, i) ← enc.run (record st { waitcnt = wrapping_sub stopidx j }) s j end
            ok (ran st s j i))
          (λ d. do
            (st, d, i) ← dec.run (record st { waitcnt = wrapping_sub stopidx j }) d j end
            ok (ran st d j i))
  pixels_run j bs s pos less near fresh h =
      let waiting = record st { waitcnt = wrapping_sub stopidx j } in
      let melc : IsMelc waiting = record {
        within = good.within;
        len = good.len;
        order = good.order;
      } in
      let w = wrapping_sub-le stopidx j (omega (arith, less, reach)) small in
      Lockstep-bind p (after waiting j end) (walk k end target run_index j) j bs s
        (enc.run waiting s j end) (λ d. dec.run waiting d j end)
        (λ r. let (st, s, i) = r in ok (ran st s j i))
        (λ r. let (st, d, i) = r in ok (ran st d j i))
        (agree.run waiting j end bs s pos (omega (arith, less, inside)) fits melc h)
        (λ t bs' s' g h'.
          Lockstep-ok p (walk k end target run_index j) (behind t.0 j t.1) t.1 bs' s'
            (record {
              after_start = omega arith;
              in_loop = less;
              forward = g.0;
              inside = g.1;
              state = record { melc = g.2; wait = omega (arith, g.3, w, near); idx = g.4 ∙ idx };
              not_last = λ e. fresh;
            })
            refl h')

  pub pixels_lem :
      (rounds j : ℕ) (bs : List ℕ) (s : S)
      → 0 < j
      → j + rounds ≡ target
      → stopidx ≤ j + 63
      → p.Writes j bs s
      → Lockstep p
          (walk k end target run_index j)
          j
          bs
          s
          (pixels rounds enc stopidx end st run_index s j)
          (λ d. pixels rounds dec stopidx end st run_index d j)
  unfolding pixels
  pixels_lem zero j bs s pos e near h =
      Lockstep-ok p (walk k end target run_index j) through j bs s tt (omega (arith, e)) h
  pixels_lem (suc rounds) j bs s pos e near h =
      let less : j < target = omega (arith, e) in
      let c = agree.starts j run_index bs s pos (omega (arith, less, inside, fits)) h in
      elim (Bool-cases c.starts) [
        | inl t ↦
            Lockstep-eq p (walk k end target run_index j) j bs s (rw (c.enc_starts, t))
              (λ more d r. rw (c.dec_starts more d r, t))
              (pixels_run j bs s pos less near (c.not_last t) h)
        | inr t ↦
            Lockstep-eq p (walk k end target run_index j) j bs s (rw (c.enc_starts, t))
              (λ more d r. rw (c.dec_starts more d r, t))
              (Lockstep-bind p (at (j + 1)) (walk k end target run_index j) j bs s (enc.pixel s j)
                (λ d. dec.pixel d j) (λ s. pixels rounds enc stopidx end st run_index s (j + 1))
                (λ d. pixels rounds dec stopidx end st run_index d (j + 1))
                (agree.pixel j bs s pos (omega (arith, less, inside, fits)) h)
                (λ t bs' s' g h'.
                  Lockstep-weaken p (walk k end target run_index (j + 1))
                    (walk k end target run_index j) (j + 1) bs' s' (λ t. t) (λ t s. refl)
                    (λ t d. refl) (λ t. refl) (further j)
                    (pixels_lem rounds (j + 1) bs' s' (omega arith) (omega (arith, e))
                      (omega (arith, near)) h')))
      ]
    where
      further :
          (j : ℕ) (t : Ending)
          → (walk {S = S} {D = D} k end target run_index (j + 1)).Good t
          → (walk {S = S} {D = D} k end target run_index j).Good t
      further j through g = tt
      further j (behind st from i) g = record {
        after_start = omega (arith, g.after_start);
        in_loop = g.in_loop;
        forward = g.forward;
        inside = g.inside;
        state = g.state;
        not_last = λ e. absurd (omega (arith, g.after_start, e));
      }
