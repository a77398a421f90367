-- ===== src/Quic/Model.antt =====
-- `Bucket` and `ChannelDecoder` of crates/capsaicin-quic/src/lib.rs: the adaptive model of a channel.
pub mod Invariant
pub mod Fresh
use capsaicin.Base.{
  ℕ, zero, suc, ◌+◌, ◌-◌, ◌*◌, ◌/◌, ◌%◌, ◌^◌, List, [], ◌∷◌, ◌++◌, ltb, leb, ◌==◌, if◌then◌else◌,
  length, take, drop, set, replicate, get_elem?,
}
use mathlib.Core.List.{map}
use capsaicin.Base.Outcome.{Outcome, ok, panic, stuck, index, ◌>>=◌}
use capsaicin.Quic.{QuicError}
use capsaicin.Quic.Words.{get_or}
use capsaicin.Quic.Family.{Family, max_num_codes, family_golomb_code_len}
use capsaicin.Quic.State.{CommonState}

pub record Bucket : Type 0 where
  pub counters : List ℕ
  pub bestcode : ℕ

pub record ChannelDecoder : Type 0 where
  pub buckets : List Bucket
  pub bucket_ptrs : List ℕ
  pub correlate_row : List ℕ
  pub prev_minus1 : ℕ

abbrev pub new_bucket : ℕ → Bucket
new_bucket bpc = record { counters = replicate max_num_codes 0; bestcode = bpc - 1 }

-- `xs[i] = v`
unfoldable pub store {ℓ} : {A : Type ℓ} → List A → ℕ → A → Outcome QuicError (List A)
store xs i v = if ltb i (length xs) then ok (set xs i v) else panic

-- The loop of `build_bucket_sizes`. Each round moves `bend` towards `levels - 1`.
unfoldable pub bucket_sizes_from : ℕ → ℕ → List ℕ → ℕ → ℕ → ℕ → Outcome QuicError (List ℕ)
bucket_sizes_from zero levels sizes bend bsize repcntr = stuck
bucket_sizes_from (suc fuel) levels sizes bend bsize repcntr =
    let bstart = if length sizes == 0 then 0 else bend + 1 in
    let last = repcntr - 1 == 0 in
    let repcntr = if last then 1 else repcntr - 1 in
    let bsize = if last then bsize * 2 else bsize in
    let new_bend = bstart + bsize - 1 in
    let bend = if leb levels (new_bend + bsize) then levels - 1 else new_bend in
    let sizes = sizes ++ ((bend - bstart + 1) ∷ []) in
    let more = bucket_sizes_from fuel levels sizes bend bsize repcntr in
    if leb (levels - 1) bend then ok sizes else more

unfoldable pub build_bucket_sizes : ℕ → Outcome QuicError (List ℕ)
unfolding bucket_sizes_from
build_bucket_sizes levels = bucket_sizes_from (suc levels) levels [] 0 1 2

-- `for _ in 0..sz`: the slots from `pos` on, which is the length of `ptrs`, are set to bucket `i`.
unfoldable pub fill_bucket : ℕ → ℕ → ℕ → List ℕ → Outcome QuicError (List ℕ)
fill_bucket zero levels i ptrs = ok ptrs
fill_bucket (suc rounds) levels i ptrs =
    let filled = ptrs ++ (i ∷ []) in
    let more = fill_bucket rounds levels i filled in
    if ltb (length ptrs) levels
    then (if length filled == levels then ok filled else more)
    else panic

unfoldable pub fill_buckets : List ℕ → ℕ → ℕ → List ℕ → Outcome QuicError (List ℕ)
unfolding fill_bucket
fill_buckets [] levels i ptrs = ok ptrs
fill_buckets (sz ∷ sizes) levels i ptrs = do
  ptrs ← fill_bucket sz levels i ptrs
  fill_buckets sizes levels (i + 1) ptrs

unfoldable pub new_channel : ℕ → ℕ → Outcome QuicError ChannelDecoder
unfolding build_bucket_sizes fill_buckets
new_channel bpc width = do
  let levels = 2 ^ bpc
  sizes ← build_bucket_sizes levels
  ptrs ← fill_buckets sizes levels 0 []
  let last = length sizes - 1
  ok (record {
    buckets = map (λ _. new_bucket bpc) sizes;
    bucket_ptrs = ptrs ++ replicate (levels - length ptrs) last;
    correlate_row = replicate width 0;
    prev_minus1 = 0;
  })

unfoldable pub find_bucket_idx : ChannelDecoder → ℕ → Outcome QuicError ℕ
find_bucket_idx c val = index c.bucket_ptrs val

unfoldable pub find_bucket : ChannelDecoder → ℕ → Outcome QuicError Bucket
unfolding find_bucket_idx
find_bucket c val = do idx ← find_bucket_idx c val; index c.buckets idx

-- The search for the code with the shortest words so far.
pub record Search : Type 0 where
  pub counters : List ℕ
  pub bestcode : ℕ
  pub best_codelen : ℕ

-- `counters[i] = counters[i].wrapping_add(..)`
unfoldable pub count_code : Family → ℕ → ℕ → List ℕ → List ℕ
count_code f curval i counters =
    set counters i ((get_or counters i 0 + family_golomb_code_len f curval i) % 2 ^ 32)

unfoldable pub try_code : Family → ℕ → ℕ → Search → Search
unfolding count_code
try_code f curval i s =
    let counters = count_code f curval i s.counters in
    let count = get_or counters i 0 in
    if ltb count s.best_codelen
    then record { counters = counters; bestcode = i; best_codelen = count }
    else record s { counters = counters }

-- `for i in (0..n).rev()`
unfoldable pub try_codes : ℕ → Family → ℕ → Search → Search
unfolding try_code
try_codes zero f curval s = s
try_codes (suc i) f curval s = try_codes i f curval (try_code f curval i s)

unfoldable pub update_model : Family → CommonState → Bucket → ℕ → Bucket
unfolding try_codes count_code
update_model f state bucket curval =
    let last = f.bpc - 1 in
    let counters = count_code f curval last bucket.counters in
    let start : Search = record {
      counters = counters;
      bestcode = last;
      best_codelen = get_or counters last 0;
    } in
    let s = try_codes last f curval start in
    let halved = map (λ c. c / 2) (take f.bpc s.counters) ++ drop f.bpc s.counters in
    record {
      counters = if ltb state.wm_trigger s.best_codelen then halved else s.counters;
      bestcode = s.bestcode;
    }

-- The round for one channel of `update_models_at`, which is also `update_alpha_model_at`.
unfoldable pub update_model_at :
    Family → CommonState → ChannelDecoder → ℕ → Outcome QuicError ChannelDecoder
unfolding find_bucket_idx store
update_model_at f state c i = do
  let behind = index c.correlate_row (i - 1)
  bucket_val ← (if i == 0 then ok c.prev_minus1 else behind)
  curval ← index c.correlate_row i
  bidx ← find_bucket_idx c bucket_val
  bucket ← index c.buckets bidx
  buckets ← store c.buckets bidx (update_model f state bucket curval)
  ok (record c { buckets = buckets })
