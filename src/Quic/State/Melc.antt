-- ===== src/Quic/State/Melc.antt =====
-- The state of the run coder: the length and the order belong to it.
use capsaicin.Base.{
  ℕ, ◌+◌, ◌-◌, ◌^◌, ◌≤◌, ◌<◌, ◌≡◌, refl, true, inl, inr, arith, ltb, leb, ltb→lt, Bool-cases,
}
use capsaicin.Base.Bits.{all_below, all_below_lem}
use capsaicin.Quic.Words.{get_or}
use capsaicin.Quic.State.{CommonState, j_table, set_melcstate, climb, descend}

-- The length and the order belong to the state.
pub record IsMelc (s : CommonState) : Type 0 where
  pub within : s.melcstate < 32
  pub len : s.melclen ≡ get_or j_table s.melcstate 0
  pub order : s.melcorder ≡ 2 ^ s.melclen

j_tested : all_below 32 (λ k. leb (get_or j_table k 0) 15) ≡ true
unfolding all_below
j_tested = refl

pub IsMelc-short : {s : CommonState} → IsMelc s → s.melclen ≤ 15
IsMelc-short {s} m =
    let t = all_below_lem 32 (λ k. leb (get_or j_table k 0) 15) s.melcstate j_tested m.within in
    rw m.len (ground arith)

set_melcstate-IsMelc : (s : CommonState) (k : ℕ) → k < 32 → IsMelc (set_melcstate s k)
unfolding set_melcstate
set_melcstate-IsMelc s k h = record { within = h; len = refl; order = refl }

pub climb-IsMelc : {s : CommonState} → IsMelc s → IsMelc (climb s)
unfolding climb
climb-IsMelc {s} m = elim (Bool-cases (ltb s.melcstate 31)) [
  | inl t ↦ rw t (set_melcstate-IsMelc s (s.melcstate + 1) (omega (arith, ltb→lt s.melcstate 31 t)))
  | inr t ↦ rw t m
]

pub descend-IsMelc : {s : CommonState} → IsMelc s → IsMelc (descend s)
unfolding descend
descend-IsMelc {s} m = elim (Bool-cases (ltb 0 s.melcstate)) [
  | inl t ↦ rw t (set_melcstate-IsMelc s (s.melcstate - 1) (omega (arith, m.within)))
  | inr t ↦ rw t m
]

set_melcstate_same :
    (s : CommonState) (k : ℕ)
    → ((set_melcstate s k).waitcnt ≡ s.waitcnt) × ((set_melcstate s k).wmidx ≡ s.wmidx)
unfolding set_melcstate
set_melcstate_same s k = (refl, refl)

-- The other fields stay as they are.
abbrev pub Same : CommonState → CommonState → Type 0
Same t s = (t.waitcnt ≡ s.waitcnt) × (t.wmidx ≡ s.wmidx)

pub climb-Same : (s : CommonState) → Same (climb s) s
unfolding climb
climb-Same s = elim (Bool-cases (ltb s.melcstate 31)) [
  | inl t ↦ rw t (set_melcstate_same s (s.melcstate + 1))
  | inr t ↦ rw t (refl, refl)
]

pub descend-Same : (s : CommonState) → Same (descend s) s
unfolding descend
descend-Same s = elim (Bool-cases (ltb 0 s.melcstate)) [
  | inl t ↦ rw t (set_melcstate_same s (s.melcstate - 1))
  | inr t ↦ rw t (refl, refl)
]
