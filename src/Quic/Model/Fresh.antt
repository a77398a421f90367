-- ===== src/Quic/Model/Fresh.antt =====
-- A new channel of bytes is well formed.
use capsaicin.Quic.Model.Invariant.{IsModel}
use capsaicin.Base.{
  ℕ, zero, suc, ◌+◌, ◌-◌, ◌<◌, ◌≡◌, refl, Bool, true, false, none, some, List, [], ◌∷◌, ◌++◌, ltb,
  arith, Option-cases, inl, inr, ltb→lt, length, get_elem?, replicate, length-replicate,
}
use mathlib.Core.List.{map}
use capsaicin.Base.Outcome.{ok}
use capsaicin.Base.Bits.{all_below, all_below_lem}
use capsaicin.Quic.Model.{ChannelDecoder, new_bucket, new_channel}

-- The buckets of a new channel of bytes, and the bucket of each value.
abbrev sizes_8 : List ℕ
sizes_8 = 1 ∷ 2 ∷ 4 ∷ 8 ∷ 16 ∷ 32 ∷ 64 ∷ 129 ∷ []

-- The slots of a list of buckets, as they are filled.
pub slots : ℕ → List ℕ → List ℕ
slots i [] = []
slots i (sz ∷ sizes) = replicate sz i ++ slots (i + 1) sizes

abbrev new_8 : ℕ → ChannelDecoder
new_8 width = record {
  buckets = map (λ _. new_bucket 8) sizes_8;
  bucket_ptrs = slots 0 sizes_8 ++ replicate (256 - length (slots 0 sizes_8)) (length sizes_8 - 1);
  correlate_row = replicate width 0;
  prev_minus1 = 0;
}

new_channel_8 : (width : ℕ) → new_channel 8 width ≡ ok (new_8 width)
unfolding new_channel slots
new_channel_8 width = refl

-- Each value has one of the eight buckets.
has_bucket : List ℕ → ℕ → Bool
has_bucket ptrs val = elim (get_elem? ptrs val) [ none ↦ false | some i ↦ ltb i 8 ]

has_bucket_lem :
    (ptrs : List ℕ) (val : ℕ)
    → has_bucket ptrs val ≡ true
    → (i : ℕ) × (get_elem? ptrs val ≡ some i) × (i < 8)
unfolding has_bucket
has_bucket_lem ptrs val h = elim (Option-cases (get_elem? ptrs val)) [
  | inl e ↦ absurd (ground arith)
  | inr (i, e) ↦ (i, e, ltb→lt i 8 (rw (has_bucket, e) at h))
]

buckets_tested : (width : ℕ) → all_below 256 (has_bucket (new_8 width).bucket_ptrs) ≡ true
unfolding all_below has_bucket slots
buckets_tested width = refl

replicate_zero : (n i v : ℕ) → get_elem? (replicate n 0) i ≡ some v → v < 256
replicate_zero zero i v e = cc
replicate_zero (suc n) zero v e = let z : 0 ≡ v = cc in omega (arith, z)
replicate_zero (suc n) (suc i) v e = replicate_zero n i v e

entry_8 :
    (i : ℕ) → i < 8 → get_elem? (map (λ (_ : ℕ). new_bucket 8) sizes_8) i ≡ some (new_bucket 8)
entry_8 zero h = refl
entry_8 (suc zero) h = refl
entry_8 (suc (suc zero)) h = refl
entry_8 (suc (suc (suc zero))) h = refl
entry_8 (suc (suc (suc (suc zero)))) h = refl
entry_8 (suc (suc (suc (suc (suc zero))))) h = refl
entry_8 (suc (suc (suc (suc (suc (suc zero)))))) h = refl
entry_8 (suc (suc (suc (suc (suc (suc (suc zero))))))) h = refl
entry_8 (suc (suc (suc (suc (suc (suc (suc (suc i)))))))) h = absurd (omega (arith, h))

-- A new channel is made without a panic, and it is a model.
pub new_channel-IsModel :
    (width : ℕ) → (c : ChannelDecoder) × (new_channel 8 width ≡ ok c) × IsModel width c
new_channel-IsModel width = (
  new_8 width,
  new_channel_8 width,
  record {
    found = λ val small.
        (let t =
            all_below_lem 256 (has_bucket (new_8 width).bucket_ptrs) val (buckets_tested width)
              small in
          let (i, e, h) = has_bucket_lem (new_8 width).bucket_ptrs val t in
          record {
            idx = i;
            bucket = new_bucket 8;
            ptr = e;
            entry = entry_8 i h;
            best = omega arith;
          });
    row = length-replicate width 0;
    residuals = replicate_zero width;
    first = omega arith;
  },
)
