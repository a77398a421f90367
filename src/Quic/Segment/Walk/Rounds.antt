-- ===== src/Quic/Segment/Walk/Rounds.antt =====
-- The outer loop of a segment, run by an encoder and a decoder that agree at each step.
use capsaicin.Quic.Segment.Walk.Stretch.{stretch_lem, tail_lem}
use capsaicin.Quic.Segment.Walk.Distance.{done, step, distance, Step, over, on, IsOn}
use capsaicin.Base.{
  ℕ, zero, suc, ◌+◌, ◌≤◌, ◌<◌, refl, Option, List, ltb, if◌then◌else◌, arith, Bool-cases, inl, inr,
  ltb→lt, ltb→le,
}
use capsaicin.Base.Outcome.{ok}
use capsaicin.Quic.Words.{bppmask}
use capsaicin.Quic.State.{CommonState}
use capsaicin.Quic.Segment.{Steps, finished, onwards, stretch, tail, rounds}
use capsaicin.Quic.Segment.Lockstep.{Pair, Lockstep, Lockstep-ok, Lockstep-bind, Lockstep-eq}
use capsaicin.Quic.Segment.Walk.{IsState, Agree}

module _ {S D : Type 0} {p : Pair S D} {enc : Steps S} {dec : Steps D} {width : ℕ}
    (agree : Agree p enc dec width) (k end : ℕ) (few : k ≤ 6) (fits : end ≤ width)
    (small : width ≤ 16384) where
  -- Behind a round the loop ends or goes on.
  settle :
      (fuel limit : ℕ)
      → ((st : CommonState) (run_index : Option ℕ) (i stopidx : ℕ) (bs : List ℕ) (s : S)
          → IsOn k end limit st run_index i stopidx
          → p.Writes i bs s
          → Lockstep p
              (done k end)
              i
              bs
              s
              (rounds fuel enc (bppmask k) end st run_index s i stopidx)
              (λ d. rounds fuel dec (bppmask k) end st run_index d i stopidx))
      → (t : Step) (bs' : List ℕ) (s' : S) → (step {S = S} {D = D} k end limit).Good t
      → p.Writes ((step {S = S} {D = D} k end limit).at_pixel t) bs' s'
      → Lockstep p
          (done k end)
          ((step {S = S} {D = D} k end limit).at_pixel t)
          bs'
          s'
          (elim ((step {S = S} {D = D} k end limit).enc_result t s') [
            | finished state s ↦ ok (state, s)
            | onwards state s run_index i stopidx ↦
                rounds fuel enc (bppmask k) end state run_index s i stopidx
          ])
          (λ d. elim ((step {S = S} {D = D} k end limit).dec_result t d) [
            | finished state s ↦ ok (state, s)
            | onwards state s run_index i stopidx ↦
                rounds fuel dec (bppmask k) end state run_index s i stopidx
          ])
  settle fuel limit again (over st') bs' s' r h' =
      Lockstep-ok p (done k end) st' end bs' s' r refl h'
  settle fuel limit again (on st' run_index' i' stop') bs' s' r h' =
      again st' run_index' i' stop' bs' s' r h'

  -- The loop from any round on, with enough fuel.
  pub rounds_lem :
      (fuel : ℕ) (st : CommonState) (run_index : Option ℕ) (i stopidx : ℕ) (bs : List ℕ) (s : S)
      → IsState k st
      → 0 < i
      → i ≤ end
      → i ≤ stopidx
      → stopidx ≤ i + 63
      → distance end run_index i < fuel
      → p.Writes i bs s
      → Lockstep p
          (done k end)
          i
          bs
          s
          (rounds fuel enc (bppmask k) end st run_index s i stopidx)
          (λ d. rounds fuel dec (bppmask k) end st run_index d i stopidx)
  unfolding rounds
  rounds_lem zero st run_index i stopidx bs s g pos inside ahead near enough h =
      absurd (omega (arith, enough))
  rounds_lem (suc fuel) st run_index i stopidx bs s g pos inside ahead near enough h =
      Lockstep-bind p (step k end (distance end run_index i)) (done k end) i bs s
        (if ltb stopidx end
          then stretch enc (bppmask k) end st run_index s i stopidx
          else tail enc end st run_index s i stopidx)
        (λ d.
          if ltb stopidx end
          then stretch dec (bppmask k) end st run_index d i stopidx
          else tail dec end st run_index d i stopidx)
        _ _
        (elim (Bool-cases (ltb stopidx end)) [
          | inl t ↦
              Lockstep-eq p (step k end (distance end run_index i)) i bs s (rw t) (λ more d r. rw t)
                (stretch_lem agree k end few fits small st run_index i stopidx bs s g pos ahead near
                  (ltb→lt stopidx end t) h)
          | inr t ↦
              Lockstep-eq p (step k end (distance end run_index i)) i bs s (rw t) (λ more d r. rw t)
                (tail_lem agree k end few fits small st run_index i stopidx bs s g pos inside near
                  (ltb→le stopidx end t) h)
        ])
        (settle fuel (distance end run_index i) (λ st' r' i' stop' bs' s' on h'.
          rounds_lem fuel st' r' i' stop' bs' s' on.state on.pos on.inside on.ahead on.near
            (omega (arith, on.nearer, enough)) h'))
