-- ===== src/Quic/Segment/Rows.antt =====
-- Whole rows, run by an encoder and a decoder that agree at each step.
use capsaicin.Quic.Segment.Whole.{IsRowState, segment_lem}
use capsaicin.Base.{
  ℕ, zero, suc, ◌+◌, ◌-◌, ◌≤◌, ◌<◌, ◌≡◌, refl, sym, ◌&&◌, List, ltb, leb, if◌then◌else◌, arith,
  Bool-cases, inl, inr, ltb→lt, ltb→le,
}
use capsaicin.Base.Outcome.{ok, ◌>>=◌}
use capsaicin.Quic.Words.{wrapping_sub}
use capsaicin.Quic.State.{CommonState, set_wm_trigger, defwminext}
use capsaicin.Quic.Segment.{Steps, segment, row_segments, row}
use capsaicin.Quic.Segment.Lockstep.{
  Pair, Shaped, Lockstep, Lockstep-ok, Lockstep-bind, Lockstep-if,
}
use capsaicin.Quic.Segment.Walk.{IsState, Agree}
use capsaicin.Quic.Segment.Walk.Distance.{done}

-- Where the first loop of a row stops: the state, the position and the pixels that remain.
record IsPart (width : ℕ) (st : CommonState) (pos remaining : ℕ) : Type 0 where
  state : IsRowState st
  whole : pos + remaining ≡ width

module _ {S D : Type 0} (width : ℕ) where
  abbrev part : Shaped S D (CommonState × S × ℕ × ℕ) (CommonState × D × ℕ × ℕ) (CommonState × ℕ × ℕ)
  part = record {
    enc_result = λ t s. (t.0, s, t.1, t.2);
    dec_result = λ t d. (t.0, d, t.1, t.2);
    Good = λ t. IsPart width t.0 t.1 t.2;
    at_pixel = λ t. t.1;
  }

  -- Behind a round of that loop, before the next mask.
  abbrev at_part :
      ℕ → Shaped S D (CommonState × S × ℕ × ℕ) (CommonState × D × ℕ × ℕ) (CommonState × ℕ × ℕ)
  at_part k = record {
    enc_result = λ t s. (t.0, s, t.1, t.2);
    dec_result = λ t d. (t.0, d, t.1, t.2);
    Good = λ t. IsState k t.0 × (t.1 + t.2 ≡ width);
    at_pixel = λ t. t.1;
  }

-- The end of a row.
module _ {S D : Type 0} (width : ℕ) where
  abbrev pub row_done : Shaped S D (CommonState × S) (CommonState × D) CommonState
  row_done = record {
    enc_result = λ st s. (st, s);
    dec_result = λ st d. (st, d);
    Good = λ st. IsRowState st;
    at_pixel = λ st. width;
  }

pub set_wm_trigger-wmidx : (st : CommonState) → (set_wm_trigger st).wmidx ≡ st.wmidx
unfolding set_wm_trigger
set_wm_trigger-wmidx st = refl

-- The state for the next wait mask.
next_mask : CommonState → CommonState
next_mask st = record (set_wm_trigger (record st { wmidx = st.wmidx + 1 })) { wmileft = defwminext }

next_mask-IsRowState :
    {k : ℕ} {st : CommonState}
    → IsState k st
    → k < 6
    → IsRowState (next_mask st) × ((next_mask st).wmidx ≡ suc k)
unfolding next_mask set_wm_trigger
next_mask-IsRowState g less = (
  record {
    melc = record { within = g.melc.within; len = g.melc.len; order = g.melc.order };
    wait = g.wait;
    idx = omega (arith, g.idx, less);
  },
  omega (arith, g.idx),
)

-- The wait that a segment leaves over for the next row.
left_over :
    {k : ℕ} (st : CommonState) (remaining : ℕ)
    → IsState k st
    → k ≤ 6
    → IsRowState
        (if ltb st.wmidx 6 then record st { wmileft = wrapping_sub st.wmileft remaining } else st)
left_over st remaining g few = elim (Bool-cases (ltb st.wmidx 6)) [
  | inl t ↦ rw t (record {
    melc = record { within = g.melc.within; len = g.melc.len; order = g.melc.order };
    wait = g.wait;
    idx = omega (arith, g.idx, few);
  })
  | inr t ↦ rw t (record { melc = g.melc; wait = g.wait; idx = omega (arith, g.idx, few) })
]

module _ {S D : Type 0} {p : Pair S D} {enc : Steps S} {dec : Steps D} {width : ℕ}
    (agree : Agree p enc dec width) (small : width ≤ 16384) where
  -- One round of the first loop, up to the state for the next mask.
  one_part :
      (st : CommonState) (pos remaining : ℕ) (bs : List ℕ) (s : S)
      → IsRowState st
      → pos + remaining ≡ width
      → st.wmileft ≤ remaining
      → p.Writes pos bs s
      → Lockstep p
          (at_part width st.wmidx)
          pos
          bs
          s
          (if ltb 0 st.wmileft
            then (do
              (st', s) ← segment enc st s pos (pos + st.wmileft)
              ok (st', s, pos + st.wmileft, remaining - st.wmileft))
            else ok (st, s, pos, remaining))
          (λ d.
            if ltb 0 st.wmileft
            then (do
              (st', d) ← segment dec st d pos (pos + st.wmileft)
              ok (st', d, pos + st.wmileft, remaining - st.wmileft))
            else ok (st, d, pos, remaining))
  one_part st pos remaining bs s g whole le h =
      let left = st.wmileft in
      Lockstep-if p (at_part width st.wmidx) pos bs s (ltb 0 left) _ _ _ _
        (λ first.
          Lockstep-bind p (done st.wmidx (pos + left)) (at_part width st.wmidx) pos bs s
            (segment enc st s pos (pos + left)) (λ d. segment dec st d pos (pos + left)) _ _
            (segment_lem agree small st pos (pos + left) bs s g (omega (arith, ltb→lt 0 left first))
              (omega (arith, whole, le)) h)
            (λ st' bs' s' g' h'.
              Lockstep-ok p (at_part width st.wmidx) (st', pos + left, remaining - left)
                (pos + left) bs' s' (g', omega (arith, whole, le)) refl h'))
        (λ none'.
          Lockstep-ok p (at_part width st.wmidx) (st, pos, remaining) pos bs s
            (record { melc = g.melc; wait = g.wait; idx = refl }, whole) refl h)

  row_segments_lem :
      (fuel : ℕ) (st : CommonState) (pos remaining : ℕ) (bs : List ℕ) (s : S)
      → IsRowState st
      → pos + remaining ≡ width
      → 6 - st.wmidx < fuel
      → p.Writes pos bs s
      → Lockstep p
          (part width)
          pos
          bs
          s
          (row_segments fuel enc st s pos remaining)
          (λ d. row_segments fuel dec st d pos remaining)
  unfolding row_segments next_mask
  row_segments_lem zero st pos remaining bs s g whole enough h = absurd (omega (arith, enough))
  row_segments_lem (suc fuel) st pos remaining bs s g whole enough h =
      Lockstep-if p (part width) pos bs s (ltb st.wmidx 6 && leb st.wmileft remaining) _ _ _ _
        (λ again.
          let less : st.wmidx < 6 = ground arith in
          let le : st.wmileft ≤ remaining = ground arith in
          Lockstep-bind p (at_part width st.wmidx) (part width) pos bs s _ _ _ _
            (one_part st pos remaining bs s g whole le h)
            (λ t bs' s' g' h'.
              let n = next_mask-IsRowState g'.0 less in
              row_segments_lem fuel (next_mask t.0) t.1 t.2 bs' s' n.0 g'.1
                (omega (arith, n.1, enough, less)) h'))
        (λ last.
          Lockstep-ok p (part width) (st, pos, remaining) pos bs s
            (record { state = g; whole = whole }) refl h)

  -- A row of the encoder and the row of the decoder.
  pub row_lem :
      (st : CommonState) (bs : List ℕ) (s : S)
      → IsRowState st
      → p.Writes 0 bs s
      → Lockstep p (row_done width) 0 bs s (row enc st s width) (λ d. row dec st d width)
  unfolding row
  row_lem st bs s g h =
      Lockstep-bind p (part width) (row_done width) 0 bs s (row_segments 7 enc st s 0 width)
        (λ d. row_segments 7 dec st d 0 width) _ _
        (row_segments_lem 7 st 0 width bs s g (omega arith) (omega arith) h)
        (λ t bs' s' r h'.
          Lockstep-if p (row_done width) t.1 bs' s' (ltb 0 t.2) _ _ _ _
            (λ first.
              Lockstep-bind p (done t.0.wmidx (t.1 + t.2)) (row_done width) t.1 bs' s'
                (segment enc t.0 s' t.1 (t.1 + t.2)) (λ d. segment dec t.0 d t.1 (t.1 + t.2)) _ _
                (segment_lem agree small t.0 t.1 (t.1 + t.2) bs' s' r.state
                  (omega (arith, ltb→lt 0 t.2 first)) (omega (arith, r.whole)) h')
                (λ st2 bs2 s2 g2 h2.
                  Lockstep-ok p (row_done width)
                    (if ltb st2.wmidx 6
                      then record st2 { wmileft = wrapping_sub st2.wmileft t.2 }
                      else st2)
                    (t.1 + t.2) bs2 s2 (left_over st2 t.2 g2 r.state.idx) (sym r.whole) h2))
            (λ none'.
              Lockstep-ok p (row_done width) t.0 t.1 bs' s' r.state
                (omega (arith, r.whole, ltb→le 0 t.2 none')) h'))
