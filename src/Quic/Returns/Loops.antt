-- ===== src/Quic/Returns/Loops.antt =====
-- What the loops over a row rely on in their steps, and what a loop over pixels leaves to the rest.
use capsaicin.Base.{ℕ, ◌≤◌, ◌<◌, ◌≡◌, true, false, Option}
use capsaicin.Base.Outcome.{Outcome, and_then}
use capsaicin.Base.Settles.{Settles, fails, gives, panics}
use capsaicin.Quic.{QuicError}
use capsaicin.Quic.State.{CommonState}
use capsaicin.Quic.Segment.{Steps, Walked, reached, ran, Round, finished, onwards}
use capsaicin.Quic.Segment.Walk.{is_last}
use capsaicin.Quic.Segment.Walk.Distance.{distance}

-- Each step returns and keeps `I`; a run does not start where the last one did, and ends within its segment.
pub record Halting {S : Type 0} (I : S → Type 0) (steps : Steps S) : Type 0 where
  pub first : (s : S) → I s → Settles I (steps.first s)
  pub pixel : (s : S) (i : ℕ) → I s → Settles I (steps.pixel s i)
  pub update : (st : CommonState) (s : S) (i : ℕ) → I s → Settles I (steps.update st s i)
  pub starts :
      (s : S) (j : ℕ) (run_index : Option ℕ)
      → Settles (λ b. b ≡ true → is_last run_index j ≡ false) (steps.starts s j run_index)
  pub run :
      (st : CommonState) (s : S) (j end : ℕ)
      → I s
      → Settles
          (λ t. (I t.1) × (j ≤ t.2) × (t.2 ≤ end) × (t.0.wmidx ≡ st.wmidx))
          (steps.run st s j end)

-- The run behind which a loop over pixels ended, from pixel `j` on.
pub record IsRun (k end : ℕ) (run_index : Option ℕ) (j : ℕ) (st : CommonState) (from i : ℕ)
    : Type 0 where
  pub after_start : j ≤ from
  pub in_loop : from < end
  pub forward : from ≤ i
  pub inside : i ≤ end
  pub idx : st.wmidx ≡ k
  pub fresh : from ≡ j → is_last run_index j ≡ false

abbrev pub WalkedIn : {S : Type 0} → (S → Type 0) → ℕ → ℕ → Option ℕ → ℕ → Walked S → Type 0
WalkedIn I k end run_index j (reached s) = I s
WalkedIn I k end run_index j (ran st s from i) = (I s) × (IsRun k end run_index j st from i)

pub record IsOn (k end limit : ℕ) (st : CommonState) (run_index : Option ℕ) (i stopidx : ℕ)
    : Type 0 where
  pub idx : st.wmidx ≡ k
  pub inside : i ≤ end
  pub ahead : i ≤ stopidx
  pub nearer : distance end run_index i < limit

abbrev pub Nearer : {S : Type 0} → (S → Type 0) → ℕ → ℕ → ℕ → Round S → Type 0
Nearer I k end limit (finished st s) = (I s) × (st.wmidx ≡ k)
Nearer I k end limit (onwards st s run_index i stopidx) =
    (I s) × (IsOn k end limit st run_index i stopidx)

-- What follows a loop over pixels, and a round.
pub Walked-bind :
    {S B : Type 0} {I : S → Type 0} {Q : B → Type 0} {m : Outcome QuicError (Walked S)} {k end : ℕ}
    {run_index : Option ℕ} {j : ℕ} {f : S → Outcome QuicError B}
    {g : CommonState → S → ℕ → ℕ → Outcome QuicError B}
    → Settles (WalkedIn I k end run_index j) m
    → ((s : S) → I s → Settles Q (f s))
    → ((st : CommonState) (s : S) (from i : ℕ)
        → I s
        → IsRun k end run_index j st from i
        → Settles Q (g st s from i))
    → Settles Q (and_then m (λ w. elim w [ ran st s from i ↦ g st s from i | reached s ↦ f s ]))
Walked-bind (gives {a = reached s} p) h l = h s p
Walked-bind (gives {a = ran st s from i} p) h l = l st s from i p.0 p.1
Walked-bind fails h l = fails
Walked-bind panics h l = panics

pub Round-bind :
    {S B : Type 0} {I : S → Type 0} {Q : B → Type 0} {m : Outcome QuicError (Round S)}
    {k end limit : ℕ} {f : CommonState → S → Outcome QuicError B}
    {g : CommonState → S → Option ℕ → ℕ → ℕ → Outcome QuicError B}
    → Settles (Nearer I k end limit) m
    → ((st : CommonState) (s : S) → I s → st.wmidx ≡ k → Settles Q (f st s))
    → ((st : CommonState) (s : S) (run_index : Option ℕ) (i stopidx : ℕ)
        → I s
        → IsOn k end limit st run_index i stopidx
        → Settles Q (g st s run_index i stopidx))
    → Settles Q (
        and_then m (λ r. elim r [
          | finished st s ↦ f st s
          | onwards st s run_index i stopidx ↦ g st s run_index i stopidx
        ]))
Round-bind (gives {a = finished st s} p) h l = h st s p.0 p.1
Round-bind (gives {a = onwards st s run_index i stopidx} p) h l = l st s run_index i stopidx p.0 p.1
Round-bind fails h l = fails
Round-bind panics h l = panics
