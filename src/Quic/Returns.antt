-- ===== src/Quic/Returns.antt =====
-- The calls of the QUIC decoders that have no fuel: none gets stuck, and writes keep the length of a row.
pub mod Pixels
pub mod Runs
pub mod Rows
pub mod Loops
pub mod Phases
pub mod Images
use capsaicin.Base.{
  length, length-set, ◌≡◌, ◌∙◌, ℕ, zero, suc, ◌+◌, Option, none, some, List, get_elem?,
}
use capsaicin.Base.Outcome.{Outcome, ok, index, ◌>>=◌, and_then}
use capsaicin.Base.Settles.{
  Settles, Settles-bind, Settles-if, fails, gives, panics, Anything, Halts-bind, Halts-ok,
  Halts-panic, Halts-if, Halts-or_panic, Halts-fail_if,
}
use capsaicin.Quic.{QuicError}
use capsaicin.Quic.Family.{Family}
use capsaicin.Quic.Stream.{BitReader, eat}
use capsaicin.Quic.State.{CommonState}
use capsaicin.Quic.Model.{ChannelDecoder, store, find_bucket, find_bucket_idx, update_model_at}
use capsaicin.Quic.Plane.{decode_residual, first_value, next_value, decode_byte_pos0, decode_byte}

module _ {ℓ} {A : Type 0} where
  pub index-Settles : {E : Type ℓ} (xs : List A) (i : ℕ) → Settles {E = E} Anything (index xs i)
  unfolding index
  index-Settles xs i = Halts-or_panic (get_elem? xs i)

pub store-Settles : {A : Type 0} (xs : List A) (i : ℕ) (v : A) → Settles Anything (store xs i v)
unfolding store
store-Settles xs i v = Halts-if _ (Halts-ok _) Halts-panic

pub eat-Settles : (r : BitReader) (len : ℕ) → Settles Anything (eat r len)
unfolding eat
eat-Settles r len = Halts-if _ (Halts-if _ fails (Halts-ok _)) Halts-panic

pub find_bucket-Settles : (c : ChannelDecoder) (val : ℕ) → Settles Anything (find_bucket c val)
unfolding find_bucket find_bucket_idx
find_bucket-Settles c val = search (Halts-bind, index-Settles)

pub ruleset halts =
    (Halts-bind, Halts-ok, index-Settles, store-Settles, eat-Settles, find_bucket-Settles)

pub decode_residual-Settles :
    (f : Family) (r : BitReader) (c : ChannelDecoder) (i v : ℕ)
    → Settles Anything (decode_residual f r c i v)
unfolding decode_residual
decode_residual-Settles f r c i v = search halts

pub first_value-Settles :
    (prev : Option (List ℕ)) (dst u : ℕ) → Settles Anything (first_value prev dst u)
unfolding first_value
first_value-Settles none dst u = search halts
first_value-Settles (some prev) dst u = search halts

pub next_value-Settles :
    (prev : Option (List ℕ)) (mask pos a u : ℕ) → Settles Anything (next_value prev mask pos a u)
unfolding next_value
next_value-Settles none mask pos a u = search halts
next_value-Settles (some prev) mask pos a u = search halts

pub update_model_at-Settles :
    (f : Family) (st : CommonState) (c : ChannelDecoder) (i : ℕ)
    → Settles Anything (update_model_at f st c i)
unfolding update_model_at find_bucket_idx
update_model_at-Settles f st c i = search (halts, Halts-if) depth 12

-- A write keeps the length.
pub store-Sized :
    {A : Type 0} {n : ℕ} (xs : List A) (i : ℕ) (v : A)
    → length xs ≡ n
    → Settles (λ ys. length ys ≡ n) (store xs i v)
unfolding store
store-Sized xs i v h =
    Settles-if _ _ _ (λ inside. gives (length-set xs i v ∙ h)) (λ outside. panics)

pub store-Sized-bind :
    {A B : Type 0} {Q : B → Type 0} {n : ℕ} (xs : List A) (i : ℕ) (v : A)
    {k : List A → Outcome QuicError B}
    → length xs ≡ n
    → ((ys : List A) → length ys ≡ n → Settles Q (k ys))
    → Settles Q (and_then (store xs i v) k)
store-Sized-bind xs i v h k = Settles-bind (store-Sized xs i v h) k

pub any-bind :
    {A B : Type 0} {Q : B → Type 0} {m : Outcome QuicError A} {k : A → Outcome QuicError B}
    → Settles Anything m
    → ((a : A) → Settles Q (k a))
    → Settles Q (and_then m k)
any-bind h k = Settles-bind h (λ a p. k a)

pub row-bind :
    {B : Type 0} {Q : B → Type 0} {n : ℕ}
    {m : Outcome QuicError (BitReader × ChannelDecoder × List ℕ)}
    {k : BitReader × ChannelDecoder × List ℕ → Outcome QuicError B}
    → Settles (λ t. length t.2 ≡ n) m
    → ((t : BitReader × ChannelDecoder × List ℕ) → length t.2 ≡ n → Settles Q (k t))
    → Settles Q (and_then m k)
row-bind h k = Settles-bind h k

pub ruleset keeps = (
  row-bind, store-Sized-bind, any-bind, gives, index-Settles, eat-Settles, decode_residual-Settles,
  first_value-Settles, next_value-Settles,
)

module _ (f : Family) (prev : Option (List ℕ)) where
  pub decode_byte_pos0-Sized :
      {n : ℕ} (dst : ℕ) (r : BitReader) (c : ChannelDecoder) (cur : List ℕ)
      → length cur ≡ n
      → Settles (λ t. length t.2 ≡ n) (decode_byte_pos0 f prev dst r c cur)
  unfolding decode_byte_pos0
  decode_byte_pos0-Sized dst r c cur h = search keeps depth 12

  pub decode_byte-Sized :
      {n : ℕ} (mask size dst i : ℕ) (r : BitReader) (c : ChannelDecoder) (cur : List ℕ)
      → length cur ≡ n
      → Settles (λ t. length t.2 ≡ n) (decode_byte f prev mask size dst i r c cur)
  unfolding decode_byte
  decode_byte-Sized mask size dst i r c cur h = search keeps depth 14
