-- ===== src/Quic/State.antt =====
-- `CommonState` of crates/capsaicin-quic/src/lib.rs: the state that the channels share.
pub mod Chaos
pub mod Runs
pub mod Ones
pub mod RoundTrip
pub mod Melc
pub mod Hits
pub mod RunCodes
use Prim.Native.Nat.{bit_and}
use capsaicin.Base.{ℕ, ◌+◌, ◌-◌, ◌%◌, ◌^◌, List, [], ◌∷◌, ltb, if◌then◌else◌}
use capsaicin.Quic.Words.{get_or}
use capsaicin.Quic.State.Chaos.{tabrand_chaos}

abbrev pub melcstates : ℕ
melcstates = 32

-- The exponent of each state of the run coder.
abbrev pub j_table : List ℕ
j_table =
    0 ∷ 0 ∷ 0 ∷ 0 ∷ 1 ∷ 1 ∷ 1 ∷ 1 ∷ 2 ∷ 2 ∷ 2 ∷ 2 ∷ 3 ∷ 3 ∷ 3 ∷ 3 ∷ 4 ∷ 4 ∷ 5 ∷ 5 ∷ 6 ∷ 6 ∷ 7 ∷ 7
    ∷ 8 ∷ 9 ∷ 10 ∷ 11 ∷ 12 ∷ 13 ∷ 14 ∷ 15 ∷ []

abbrev pub defwminext : ℕ
defwminext = 2048

abbrev pub defwmimax : ℕ
defwmimax = 6

-- `BESTTRIGTAB[DEFEVOL / 2]`, the row that is used.
abbrev pub besttrigtab : List ℕ
besttrigtab = 110 ∷ 550 ∷ 900 ∷ 800 ∷ 550 ∷ 400 ∷ 350 ∷ 250 ∷ 140 ∷ 160 ∷ 140 ∷ []

abbrev pub tabrand_seedmask : ℕ
tabrand_seedmask = 0x0FF

pub record CommonState : Type 0 where
  pub waitcnt : ℕ
  pub tabrand_seed : ℕ
  pub wm_trigger : ℕ
  pub wmidx : ℕ
  pub wmileft : ℕ
  pub melcstate : ℕ
  pub melclen : ℕ
  pub melcorder : ℕ

unfoldable pub set_wm_trigger : CommonState → CommonState
set_wm_trigger s =
    let wm = if ltb 10 s.wmidx then 10 else s.wmidx in
    record s { wm_trigger = get_or besttrigtab wm 0 }

-- The state of the run coder, with the length and the order that belong to it. The callers give a
-- state below 32.
unfoldable pub set_melcstate : CommonState → ℕ → CommonState
set_melcstate s k = record s {
  melcstate = k;
  melclen = get_or j_table k 0;
  melcorder = 2 ^ get_or j_table k 0;
}

unfoldable pub reset_rle : CommonState → CommonState
unfolding set_melcstate
reset_rle s = set_melcstate s 0

unfoldable pub default : CommonState
unfolding set_wm_trigger
default = set_wm_trigger (record {
  waitcnt = 0;
  tabrand_seed = tabrand_seedmask;
  wm_trigger = 0;
  wmidx = 0;
  wmileft = defwminext;
  melcstate = 0;
  melclen = get_or j_table 0 0;
  melcorder = 2 ^ get_or j_table 0 0;
})

-- The number drawn and the next seed.
unfoldable pub tabrand : ℕ → ℕ × ℕ
unfolding tabrand_chaos
tabrand seed =
    let next = (seed + 1) % 2 ^ 32 in (get_or tabrand_chaos (bit_and next tabrand_seedmask) 0, next)

-- `if melcstate < MELCSTATES - 1 { melcstate += 1; .. }`
unfoldable pub climb : CommonState → CommonState
unfolding set_melcstate
climb s = if ltb s.melcstate (melcstates - 1) then set_melcstate s (s.melcstate + 1) else s

-- `if melcstate > 0 { melcstate -= 1; .. }`
unfoldable pub descend : CommonState → CommonState
unfolding set_melcstate
descend s = if ltb 0 s.melcstate then set_melcstate s (s.melcstate - 1) else s
