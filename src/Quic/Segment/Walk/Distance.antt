-- ===== src/Quic/Segment/Walk/Distance.antt =====
-- How far the outer loop of a segment is from its end.
use Prim.Native.Nat.{bit_and}
use capsaicin.Base.{
  ℕ, ◌+◌, ◌-◌, ◌*◌, ◌^◌, ◌≤◌, ◌<◌, ◌≡◌, Bool, true, false, Option, some, ◌==◌, if◌then◌else◌, arith,
  Bool-cases, inl, inr, lt→ltb,
}
use capsaicin.Base.Outcome.{ok}
use capsaicin.Base.Bits.{bit_and_ones}
use capsaicin.Base.Powers.{pow_pos, pow_mono}
use native.Mathlib.Nat.{mod-lt}
use capsaicin.Quic.Words.{add_u32, bppmask}
use capsaicin.Quic.Family.Unary.{bppmask_below}
use capsaicin.Quic.State.{CommonState}
use capsaicin.Quic.Segment.{Round, finished, onwards}
use capsaicin.Quic.Segment.Lockstep.{Shaped}
use capsaicin.Quic.Segment.Walk.{is_last, IsState}

pub add_u32_small : (a b : ℕ) → a + b < 2 ^ 32 → add_u32 a b ≡ ok (a + b)
unfolding add_u32
add_u32_small a b h = rw (lt→ltb _ _ h)

-- A number under a wait mask.
pub waited : (x k : ℕ) → k ≤ 6 → bit_and x (bppmask k) ≤ 63
waited x k h =
    let m = bit_and_ones k x in
    rw (bppmask_below k (omega (arith, h)), m) (omega (arith, mod-lt x (pow_pos k), pow_mono k 6 h))

-- How far the loop is from its end: a run of no pixels is followed by a pixel.
unfoldable pub distance : ℕ → Option ℕ → ℕ → ℕ
distance end run_index i = 2 * (end - i) + (if is_last run_index i then 0 else 1)

is_last_self : (i : ℕ) → is_last (some i) i ≡ true
unfolding is_last
is_last_self i = ground arith

rank_bound : (b : Bool) → (if b then 0 else 1) ≤ 1
rank_bound b = ground arith

-- A run moves the loop on.
pub run-distance :
    (end i from i' : ℕ) (run_index : Option ℕ)
    → i ≤ from
    → from ≤ i'
    → i' ≤ end
    → from < end
    → (from ≡ i → is_last run_index i ≡ false)
    → distance end (some from) i' < distance end run_index i
unfolding distance
run-distance end i from i' run_index h k l less fresh = elim (Bool-cases (i' == i)) [
  | inl same ↦
      let e : i' ≡ i = ground arith in
      let f : from ≡ i = omega (arith, e, h, k) in
      let g : from ≡ i' = omega (arith, e, f) in rw (fresh f, e, f, is_last_self i) (omega arith)
  | inr moved ↦
      let far : i < i' = ground arith in
      let a = rank_bound (is_last (some from) i') in omega (arith, a, far, l)
]

-- A stretch without a run moves the loop on by a pixel at least.
pub step_distance :
    (end : ℕ) (run_index : Option ℕ) (i i' : ℕ)
    → i < i'
    → i' ≤ end
    → distance end run_index i' < distance end run_index i
unfolding distance
step_distance end run_index i i' h k = let a = rank_bound (is_last run_index i') in omega (arith, a)

pub data Step : Type 0 where
  over : CommonState → Step
  on : CommonState → Option ℕ → (i : ℕ) → (stopidx : ℕ) → Step

pub record IsOn (k end limit : ℕ) (st : CommonState) (run_index : Option ℕ) (i stopidx : ℕ)
    : Type 0 where
  pub state : IsState k st
  pub pos : 0 < i
  pub inside : i ≤ end
  pub ahead : i ≤ stopidx
  pub near : stopidx ≤ i + 63
  pub nearer : distance end run_index i < limit

module _ {S D : Type 0} (k end limit : ℕ) where
  abbrev pub step : Shaped S D (Round S) (Round D) Step
  step = record {
    enc_result = λ t s. elim t [ over st ↦ finished st s | on st r i stop ↦ onwards st s r i stop ];
    dec_result = λ t d. elim t [ over st ↦ finished st d | on st r i stop ↦ onwards st d r i stop ];
    Good = λ t. elim t [ over st ↦ IsState k st | on st r i stop ↦ IsOn k end limit st r i stop ];
    at_pixel = λ t. elim t [ over st ↦ end | on st r i stop ↦ i ];
  }

-- The end of a segment: the shared state.
module _ {S D : Type 0} (k end : ℕ) where
  abbrev pub done : Shaped S D (CommonState × S) (CommonState × D) CommonState
  done = record {
    enc_result = λ st s. (st, s);
    dec_result = λ st d. (st, d);
    Good = λ st. IsState k st;
    at_pixel = λ st. end;
  }
