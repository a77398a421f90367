-- ===== src/Base/Slices.antt =====
-- Slices of a buffer, and the integers read from them.
use Prim.Native.Nat.{ℕ, zero, suc, ◌+◌, ◌-◌, ◌^◌, ◌≤◌, ◌<◌}
use mathlib.Core.Path.{◌≡◌, refl, sym, ◌∙◌}
use mathlib.Core.Bool.{true}
use mathlib.Core.List.{List, [], ◌∷◌, ◌++◌, append_assoc}
use mathlib.Core.Option.{some}
use native.Mathlib.Omega.{arith}
use capsaicin.Base.Tests.{leb, ◌==◌, ==_self}
use capsaicin.Base.Lists.{
  length, take, drop, get_elem?, length-append, take-append, drop-append, length-take, length-drop,
}
use capsaicin.Base.Bytes.{
  to_le_bytes, from_le_bytes, to_be_bytes, from_be_bytes, length-to_le_bytes, length-to_be_bytes,
  from_le_bytes-to_le_bytes, from_be_bytes-to_be_bytes,
}
use capsaicin.Base.Outcome.{Outcome, ok, ◌>>=◌, slice, index, to_array}
use capsaicin.Base.Ensures.{Ensures, returns}

module _ {ℓ} {E : Type ℓ} where
  -- `uN::from_le_bytes(buf[a..b].try_into().unwrap())`, for an integer of `n` bytes.
  unfoldable pub le_uint : ℕ → List ℕ → ℕ → ℕ → Outcome E ℕ
  unfolding to_array
  le_uint n buf a b = do s ← slice buf a b; bytes ← to_array n s; ok (from_le_bytes bytes)

  unfoldable pub be_uint : ℕ → List ℕ → ℕ → ℕ → Outcome E ℕ
  unfolding to_array
  be_uint n buf a b = do s ← slice buf a b; bytes ← to_array n s; ok (from_be_bytes bytes)

module _ {ℓ κ} {E : Type ℓ} {A : Type κ} where
  pub slice_within :
      (xs : List A) (a b : ℕ)
      → a ≤ b
      → b ≤ length xs
      → slice {E = E} xs a b ≡ ok (take (b - a) (drop a xs))
  unfolding slice
  slice_within xs a b h k =
      let low : leb a b ≡ true = ground arith in
      let high : leb b (length xs) ≡ true = ground arith in rw (low, high)

  pub slice_middle :
      (pre mid suf : List A)
      → slice {E = E} (pre ++ (mid ++ suf)) (length pre) (length pre + length mid) ≡ ok mid
  slice_middle pre mid suf =
      let n : length pre + length mid - length pre ≡ length mid = omega arith in
      let s =
        slice_within (pre ++ (mid ++ suf)) (length pre) (length pre + length mid) (omega arith)
          (omega (arith, length-append pre (mid ++ suf), length-append mid suf)) in
      rw (s, drop-append pre (mid ++ suf), n, take-append mid suf)

-- `xs[a..b]` is there, and it is `mid`.
pub record Segment {ℓ} {A : Type ℓ} (xs : List A) (a b : ℕ) (mid : List A) : Type ℓ where
  pub ordered : a ≤ b
  pub within : b ≤ length xs
  pub part : take (b - a) (drop a xs) ≡ mid

module _ {ℓ} {A : Type ℓ} where
  pub Segment-middle :
      (pre mid suf : List A) {a b : ℕ}
      → length pre ≡ a
      → a + length mid ≡ b
      → Segment (pre ++ (mid ++ suf)) a b mid
  Segment-middle pre mid suf {a = a} {b = b} h k = record {
    ordered = omega arith;
    within = omega (arith, length-append pre (mid ++ suf), length-append mid suf);
    part =
        let d : drop a (pre ++ (mid ++ suf)) ≡ mid ++ suf =
          rw (← h) (drop-append pre (mid ++ suf)) in
        let n : b - a ≡ length mid = omega arith in rw (d, n) (take-append mid suf);
  }

  -- A buffer described by its parts, each with its size.
  abbrev pub join : List (ℕ × List A) → List A
  join [] = []
  join ((n, p) ∷ ps) = p ++ join ps

  abbrev pub Sized : List (ℕ × List A) → Type ℓ
  Sized [] = Unit
  Sized ((n, p) ∷ ps) = (length p ≡ n) × Sized ps

  abbrev pub widths : List (ℕ × List A) → ℕ
  widths [] = 0
  widths ((n, p) ∷ ps) = n + widths ps

  pub length-join : (ps : List (ℕ × List A)) → Sized ps → length (join ps) ≡ widths ps
  length-join [] s = refl
  length-join ((n, p) ∷ ps) s = omega (arith, s.0, length-append p (join ps), length-join ps s.1)

  -- From `a` on, `xs` holds the parts one after the other.
  abbrev pub Laid : List A → ℕ → List (ℕ × List A) → Type ℓ
  Laid xs a [] = Unit
  Laid xs a ((n, p) ∷ ps) = Segment xs a (a + n) p × Laid xs (a + n) ps

  Laid-join_from :
      (pre : List A) (ps : List (ℕ × List A)) (suf xs : List A) {a : ℕ}
      → length pre ≡ a
      → xs ≡ pre ++ (join ps ++ suf)
      → Sized ps
      → Laid xs a ps
  Laid-join_from pre [] suf xs h e s = tt
  Laid-join_from pre ((n, p) ∷ ps) suf xs {a = a} h e s =
      let whole : xs ≡ pre ++ (p ++ (join ps ++ suf)) = e ∙ rw (append_assoc p (join ps) suf) in
      let next : xs ≡ (pre ++ p) ++ (join ps ++ suf) =
        whole ∙ sym (append_assoc pre p (join ps ++ suf)) in
      (
        rw whole (Segment-middle pre p (join ps ++ suf) h (omega (arith, s.0))),
        Laid-join_from (pre ++ p) ps suf xs (omega (arith, s.0, length-append pre p)) next s.1,
      )

  pub Laid-join :
      (ps : List (ℕ × List A)) (suf xs : List A) → xs ≡ join ps ++ suf → Sized ps → Laid xs 0 ps
  Laid-join ps suf xs e s = Laid-join_from [] ps suf xs refl e s

drop_head {ℓ} :
    {A : Type ℓ} (k : ℕ) (xs : List A) (a : ℕ) (v : A)
    → take k (drop a xs) ≡ v ∷ []
    → get_elem? xs a ≡ some v
drop_head zero xs a v h = cc
drop_head (suc k) [] zero v h = cc
drop_head (suc k) [] (suc a) v h = cc
drop_head (suc k) (x ∷ xs) zero v h = cc
drop_head (suc k) (x ∷ xs) (suc a) v h = drop_head (suc k) xs a v h

module _ {ℓ κ} {E : Type ℓ} {A : Type κ} where
  pub slice-Segment :
      {xs mid : List A} {a b : ℕ} → Segment xs a b mid → slice {E = E} xs a b ≡ ok mid
  slice-Segment {xs = xs} {a = a} {b = b} s = rw (slice_within xs a b s.ordered s.within, s.part)

  pub index-Segment :
      {xs : List A} {a b : ℕ} {v : A} → Segment xs a b (v ∷ []) → index {E = E} xs a ≡ ok v
  unfolding index
  index-Segment {xs = xs} {a = a} {b = b} {v = v} s = rw (drop_head (b - a) xs a v s.part)

module _ {ℓ} {E : Type ℓ} where
  pub le_uint-Segment :
      (n v : ℕ) {buf : List ℕ} {a b : ℕ}
      → Segment buf a b (to_le_bytes n v)
      → v < 256 ^ n
      → le_uint {E = E} n buf a b ≡ ok v
  unfolding le_uint
  le_uint-Segment n v s fits = rw (
    slice-Segment {E = E} s,
    length-to_le_bytes n v,
    ==_self n,
    from_le_bytes-to_le_bytes n v fits,
  )

  pub be_uint-Segment :
      (n v : ℕ) {buf : List ℕ} {a b : ℕ}
      → Segment buf a b (to_be_bytes n v)
      → v < 256 ^ n
      → be_uint {E = E} n buf a b ≡ ok v
  unfolding be_uint
  be_uint-Segment n v s fits = rw (
    slice-Segment {E = E} s,
    length-to_be_bytes n v,
    ==_self n,
    from_be_bytes-to_be_bytes n v fits,
  )

  -- An integer whose bytes are in the buffer is read.
  pub le_uint_lem :
      (n : ℕ) (buf : List ℕ) (a b : ℕ)
      → a + n ≡ b
      → b ≤ length buf
      → Ensures {E = E} (λ v. Unit {0}) (le_uint n buf a b)
  unfolding le_uint to_array
  le_uint_lem n buf a b h k =
      let size : length (take (b - a) (drop a buf)) ≡ n =
        omega (arith, length-take (b - a) (drop a buf), length-drop a buf) in
      let whole : (length (take (b - a) (drop a buf)) == n) ≡ true = ground arith in
      rw (slice_within {E = E} buf a b (omega arith) k, whole) (returns tt)
