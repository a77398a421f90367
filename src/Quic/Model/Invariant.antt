-- ===== src/Quic/Model/Invariant.antt =====
-- What holds of a channel of bytes: every value has a bucket, and every bucket a code.
use capsaicin.Base.{
  ℕ, zero, suc, ◌-◌, ◌≤◌, ◌<◌, ◌≡◌, ◌≢◌, refl, ◌∙◌, false, some, List, [], ◌∷◌, ◌==◌, if◌then◌else◌,
  arith, Bool-cases, inl, inr, lt→ltb, length, set, get_elem?, length-set, get_elem?-set_self,
  get_elem?-set_ne, get_elem?_within,
}
use capsaicin.Base.Outcome.{Outcome, ok, index}
use capsaicin.Quic.{QuicError}
use capsaicin.Quic.Family.{Family}
use capsaicin.Quic.State.{CommonState}
use capsaicin.Quic.Model.{
  Bucket, ChannelDecoder, store, find_bucket_idx, find_bucket, Search, try_code, try_codes,
  update_model, update_model_at,
}

-- The bucket of a value.
pub record Finds (c : ChannelDecoder) (val : ℕ) : Type 0 where
  pub idx : ℕ
  pub bucket : Bucket
  pub ptr : get_elem? c.bucket_ptrs val ≡ some idx
  pub entry : get_elem? c.buckets idx ≡ some bucket
  pub best : bucket.bestcode < 8

pub record IsModel (width : ℕ) (c : ChannelDecoder) : Type 0 where
  pub found : (val : ℕ) → val < 256 → Finds c val
  pub row : length c.correlate_row ≡ width
  pub residuals : (i v : ℕ) → get_elem? c.correlate_row i ≡ some v → v < 256
  pub first : c.prev_minus1 < 256

pub find_bucket_lem :
    {c : ChannelDecoder} {val : ℕ} (f : Finds c val) → find_bucket c val ≡ ok f.bucket
unfolding find_bucket find_bucket_idx index
find_bucket_lem f = rw (f.ptr, f.entry)

-- A residual is kept.
abbrev pub keep : ChannelDecoder → ℕ → ℕ → ChannelDecoder
keep c i n = record c { correlate_row = set c.correlate_row i n }

set_bound :
    (xs : List ℕ) (i n : ℕ)
    → n < 256
    → ((j v : ℕ) → get_elem? xs j ≡ some v → v < 256)
    → (j v : ℕ) → get_elem? (set xs i n) j ≡ some v
    → v < 256
set_bound [] i n h all j v e = cc
set_bound (x ∷ xs) zero n h all zero v e = let s : n ≡ v = cc in omega (arith, s, h)
set_bound (x ∷ xs) zero n h all (suc j) v e = all (suc j) v e
set_bound (x ∷ xs) (suc i) n h all zero v e = all zero v e
set_bound (x ∷ xs) (suc i) n h all (suc j) v e = set_bound xs i n h (λ j v e. all (suc j) v e) j v e

pub keep-IsModel :
    {width : ℕ} {c : ChannelDecoder} (i n : ℕ)
    → n < 256
    → IsModel width c
    → IsModel width (keep c i n)
keep-IsModel {width} {c} i n h m = record {
  found = λ val small.
      (let f = m.found val small in
        record { idx = f.idx; bucket = f.bucket; ptr = f.ptr; entry = f.entry; best = f.best });
  row = length-set c.correlate_row i n ∙ m.row;
  residuals = set_bound c.correlate_row i n h m.residuals;
  first = m.first;
}

-- A row's residuals, in a row of `width` pixels.
pub residual_at :
    {width : ℕ} {c : ChannelDecoder}
    → IsModel width c
    → (i : ℕ) → i < width
    → (v : ℕ) × (get_elem? c.correlate_row i ≡ some v) × (v < 256)
residual_at {c = c} m i h =
    let (v, e) = get_elem?_within c.correlate_row i (omega (arith, h, m.row)) in
    (v, e, m.residuals i v e)

try_codes_best :
    (n : ℕ) (f : Family) (curval : ℕ) (s : Search)
    → s.bestcode < 8
    → n ≤ 8
    → (try_codes n f curval s).bestcode < 8
unfolding try_codes try_code
try_codes_best zero f curval s h k = h
try_codes_best (suc i) f curval s h k =
    try_codes_best i f curval (try_code f curval i s) (ground arith) (omega arith)

pub update_model_best :
    (f : Family) (st : CommonState) (b : Bucket) (curval : ℕ)
    → f.bpc ≡ 8
    → (update_model f st b curval).bestcode < 8
unfolding update_model
update_model_best f st b curval e =
    try_codes_best (f.bpc - 1) f curval _ (omega (arith, e)) (omega (arith, e))

pub store_lem {ℓ} :
    {A : Type ℓ} (xs : List A) (i : ℕ) (v : A) → i < length xs → store xs i v ≡ ok (set xs i v)
unfolding store
store_lem xs i v h = rw (lt→ltb _ _ h)

get_elem?-length {ℓ} :
    {A : Type ℓ} (xs : List A) (i : ℕ) {v : A} → get_elem? xs i ≡ some v → i < length xs
get_elem?-length [] i e = cc
get_elem?-length (x ∷ xs) zero e = omega arith
get_elem?-length (x ∷ xs) (suc i) e = omega (arith, get_elem?-length xs i e)

set_bucket-Finds :
    {c : ChannelDecoder} {val : ℕ} (i : ℕ) (b : Bucket)
    → b.bestcode < 8
    → Finds c val
    → Finds (record c { buckets = set c.buckets i b }) val
set_bucket-Finds {c} i b h f = elim (Bool-cases (i == f.idx)) [
  | inl same ↦
      let e : i ≡ f.idx = ground arith in
      record {
        idx = f.idx;
        bucket = b;
        ptr = f.ptr;
        entry =
            rw e (get_elem?-set_self c.buckets f.idx b (get_elem?-length c.buckets f.idx f.entry));
        best = h;
      }
  | inr other ↦
      let ne : i ≢ f.idx = λ e. ground arith in
      record {
        idx = f.idx;
        bucket = f.bucket;
        ptr = f.ptr;
        entry = get_elem?-set_ne c.buckets i f.idx b ne ∙ f.entry;
        best = f.best;
      }
]

-- The value whose bucket is updated.
abbrev bucket_value : ChannelDecoder → ℕ → Outcome QuicError ℕ
bucket_value c i = if i == 0 then ok c.prev_minus1 else index c.correlate_row (i - 1)

bucket_value_lem :
    {width : ℕ} {c : ChannelDecoder} (i : ℕ)
    → i < width
    → IsModel width c
    → (v : ℕ) × (bucket_value c i ≡ ok v) × (v < 256)
unfolding index
bucket_value_lem {c = c} zero less m = (c.prev_minus1, refl, m.first)
bucket_value_lem (suc i) less m =
    let (v, e, h) = residual_at m i (omega (arith, less)) in
    let back : suc i - 1 ≡ i = omega arith in
    let later : (suc i == 0) ≡ false = ground arith in (v, rw (later, back, e), h)

-- An update of the model at a pixel of the row succeeds in the 8-bit family, and the channel stays
-- well formed: each byte has a bucket whose best code is below 8, and the residuals are bytes.
pub update_model_at-IsModel :
    {width : ℕ} {c : ChannelDecoder} (f : Family) (st : CommonState) (i : ℕ)
    → f.bpc ≡ 8
    → i < width
    → IsModel width c
    → (c' : ChannelDecoder) × (update_model_at f st c i ≡ ok c') × IsModel width c'
unfolding update_model_at index find_bucket_idx
update_model_at-IsModel {width} {c} f st i bits less m =
    let (cur, ec, hc) = residual_at m i less in
    let (left, el, hl) = bucket_value_lem i less m in
    let b = m.found left hl in
    let new = update_model f st b.bucket cur in
    let st' = store_lem c.buckets b.idx new (get_elem?-length c.buckets b.idx b.entry) in
    (
      record c { buckets = set c.buckets b.idx new },
      rw (el, ec, b.ptr, b.entry, st'),
      record {
        found = λ val small.
            set_bucket-Finds b.idx new (update_model_best f st b.bucket cur bits)
              (m.found val small);
        row = m.row;
        residuals = m.residuals;
        first = m.first;
      },
    )

-- The row's first residual is the next row's predecessor.
pub next_row-IsModel :
    {width : ℕ} {c : ChannelDecoder} (v : ℕ)
    → v < 256
    → IsModel width c
    → IsModel width (record c { prev_minus1 = v })
next_row-IsModel v h m = record {
  found = λ val small.
      (let f = m.found val small in
        record { idx = f.idx; bucket = f.bucket; ptr = f.ptr; entry = f.entry; best = f.best });
  row = m.row;
  residuals = m.residuals;
  first = h;
}
