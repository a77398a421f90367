-- ===== src/Proto/Reader/At.antt =====
-- What the reader's methods return, from a reader that stands before known bytes.
use capsaicin.Base.{
  ℕ, ◌+◌, ◌-◌, ◌^◌, ◌<◌, ◌≡◌, refl, List, [], ◌∷◌, ◌++◌, append_assoc, true, false, ltb, leb,
  ==_self, arith, length, length-append, take-append, drop-append, to_le_bytes, length-to_le_bytes,
  from_le_bytes-to_le_bytes,
}
use capsaicin.Base.Outcome.{ok, and_then, slice}
use capsaicin.Base.Int.{ℤ, of_signed, IsI32, IsI64, to_signed-of_signed, of_signed_bound}
use capsaicin.Proto.Error.{ProtoError}
use capsaicin.Proto.Reader
use capsaicin.Proto.Reader.{Reader, Read, remaining, u8, unsigned, i16, i32, i64, run, new}

-- A reader over `pre ++ suf` that has read `pre`.
unfoldable pub at : List ℕ → List ℕ → Reader
at pre suf = record { buf = pre ++ suf; pos = length pre }

pub remaining-at : (pre suf : List ℕ) → remaining (at pre suf) ≡ length suf
unfolding remaining at
remaining-at pre suf = omega (arith, length-append pre suf)

slice_middle :
    (pre mid suf : List ℕ)
    → slice {E = ProtoError} (pre ++ (mid ++ suf)) (length pre) (length pre + length mid) ≡ ok mid
unfolding slice
slice_middle pre mid suf =
    let n : length pre + length mid - length pre ≡ length mid = omega arith in
    let low : leb (length pre) (length pre + length mid) ≡ true = ground arith in
    let high : leb (length pre + length mid) (length (pre ++ (mid ++ suf))) ≡ true =
      ground (arith, length-append pre (mid ++ suf), length-append mid suf) in
    rw (low, high, drop-append pre (mid ++ suf), n, take-append mid suf)

pub take-at :
    (pre mid suf : List ℕ)
    → Reader.take (length mid) (at pre (mid ++ suf)) ≡ ok (mid, at (pre ++ mid) suf)
unfolding Reader.take at
take-at pre mid suf =
    let enough : ltb (length (pre ++ (mid ++ suf)) - length pre) (length mid) ≡ false =
      ground (arith, length-append pre (mid ++ suf), length-append mid suf) in
    rw (enough, slice_middle pre mid suf, append_assoc, length-append pre mid)

pub unsigned-at :
    (n v : ℕ) (pre suf : List ℕ)
    → v < 256 ^ n
    → unsigned n (at pre (to_le_bytes n v ++ suf)) ≡ ok (v, at (pre ++ to_le_bytes n v) suf)
unfolding unsigned
unsigned-at n v pre suf h =
    let read : Reader.take n (at pre (to_le_bytes n v ++ suf))
        ≡ ok (to_le_bytes n v, at (pre ++ to_le_bytes n v) suf) =
      rw (length-to_le_bytes n v) at (take-at pre (to_le_bytes n v) suf) in
    rw (read, length-to_le_bytes n v, ==_self n, from_le_bytes-to_le_bytes n v h)

pub u8-at : (v : ℕ) (pre suf : List ℕ) → u8 (at pre (v ∷ suf)) ≡ ok (v, at (pre ++ v ∷ []) suf)
unfolding u8
u8-at v pre suf = rw (take-at pre (v ∷ []) suf)

-- `v.to_le_bytes()` of a signed integer.
abbrev pub le_i16 : ℤ → List ℕ
le_i16 v = to_le_bytes 2 (of_signed (2 ^ 15) v)

-- `v.to_le_bytes()` of a signed integer.
abbrev pub le_i32 : ℤ → List ℕ
le_i32 v = to_le_bytes 4 (of_signed (2 ^ 31) v)

pub i32-at :
    (v : ℤ) (pre suf : List ℕ)
    → IsI32 v
    → i32 (at pre (le_i32 v ++ suf)) ≡ ok (v, at (pre ++ le_i32 v) suf)
unfolding i32
i32-at v pre suf h = rw (
  unsigned-at 4 (of_signed (2 ^ 31) v) pre suf (of_signed_bound (2 ^ 31) v h),
  to_signed-of_signed (2 ^ 31) v h,
)

-- `v.to_le_bytes()` of a signed integer.
abbrev pub le_i64 : ℤ → List ℕ
le_i64 v = to_le_bytes 8 (of_signed (2 ^ 63) v)

pub i64-at :
    (v : ℤ) (pre suf : List ℕ)
    → IsI64 v
    → i64 (at pre (le_i64 v ++ suf)) ≡ ok (v, at (pre ++ le_i64 v) suf)
unfolding i64
i64-at v pre suf h = rw (
  unsigned-at 8 (of_signed (2 ^ 63) v) pre suf (of_signed_bound (2 ^ 63) v h),
  to_signed-of_signed (2 ^ 63) v h,
)

pub run-at :
    {A : Type 0} (m : Read A) (buf : List ℕ) → run m buf ≡ and_then (m (at [] buf)) (λ p. ok p.0)
unfolding run at
run-at m buf = refl
