-- ===== src/Proto/Reader/Layout.antt =====
-- Readers of a fixed layout: how many bytes they take, and what they answer when bytes are missing.
use capsaicin.Base.{
  ℕ, ◌+◌, ◌-◌, ◌≤◌, ◌<◌, ◌≡◌, refl, List, [], ◌∷◌, true, false, leb, ltb, ==_self, get_elem?, some,
  from_le_bytes, le→ltb, lt→ltb, arith, length, length-take, length-drop, ◌⊎◌,
}
use capsaicin.Base
use native.Mathlib.Decide.{dec_le}
use capsaicin.Base.Outcome.{Outcome, ok, err, slice}
use capsaicin.Proto.Error.{ProtoError, short}
use capsaicin.Proto.Reader
use capsaicin.Proto.Reader.{
  Reader, Read, remaining, u8, unsigned, i16, i32, i64, run, new, ◌>>=◌, pure,
}

-- With `n` bytes left or more the reader advances by `n`; with fewer it fails with `short`.
pub record Takes {A : Type 0} (n : ℕ) (m : Read A) : Type 0 where
  pub enough :
      (r : Reader)
      → r.pos + n ≤ length r.buf
      → (a : A) × (m r ≡ ok (a, record r { pos = r.pos + n }))
  pub lacking :
      (r : Reader)
      → r.pos ≤ length r.buf
      → length r.buf < r.pos + n
      → (need : ℕ) × (left : ℕ) × (m r ≡ err (short need left))

slice_enough :
    (xs : List ℕ) (p n : ℕ)
    → p + n ≤ length xs
    → slice {E = ProtoError} xs p (p + n) ≡ ok (Base.take n (Base.drop p xs))
unfolding slice
slice_enough xs p n h =
    let d : p + n - p ≡ n = omega arith in
    let low : leb p (p + n) ≡ true = ground arith in
    let high : leb (p + n) (length xs) ≡ true = ground arith in rw (low, high, d)

take_enough :
    (n : ℕ) (r : Reader)
    → r.pos + n ≤ length r.buf
    → Reader.take n r ≡ ok (Base.take n (Base.drop r.pos r.buf), record r { pos = r.pos + n })
unfolding Reader.take
take_enough n r h =
    let t : ltb (length r.buf - r.pos) n ≡ false = ground arith in
    rw (t, slice_enough r.buf r.pos n h)

take_lacking :
    (n : ℕ) (r : Reader)
    → length r.buf < r.pos + n
    → r.pos ≤ length r.buf
    → Reader.take n r ≡ err (short n (remaining r))
unfolding Reader.take
take_lacking n r h k = let t : ltb (length r.buf - r.pos) n ≡ true = ground arith in rw t

length_taken :
    (n : ℕ) (r : Reader)
    → r.pos + n ≤ length r.buf
    → length (Base.take n (Base.drop r.pos r.buf)) ≡ n
length_taken n r h = omega (arith, length-take n (Base.drop r.pos r.buf), length-drop r.pos r.buf)

pub Takes-take : (n : ℕ) → Takes n (Reader.take n)
Takes-take n = record {
  enough = λ r h. (Base.take n (Base.drop r.pos r.buf), take_enough n r h);
  lacking = λ r k h. (n, remaining r, take_lacking n r h k);
}

pub Takes-unsigned : (n : ℕ) → Takes n (unsigned n)
unfolding unsigned
Takes-unsigned n = record {
  enough = λ r h. (
    from_le_bytes (Base.take n (Base.drop r.pos r.buf)),
    rw (take_enough n r h, length_taken n r h, ==_self n),
  );
  lacking = λ r k h. (n, remaining r, rw (take_lacking n r h k));
}

first_elem : (xs : List ℕ) → length xs ≡ 1 → (a : ℕ) × (get_elem? xs 0 ≡ some a)
first_elem [] h = absurd (omega arith)
first_elem (x ∷ xs) h = (x, refl)

pub Takes-u8 : Takes 1 u8
unfolding u8
Takes-u8 = record {
  enough = λ r h.
      let (a, e) = first_elem (Base.take 1 (Base.drop r.pos r.buf)) (length_taken 1 r h) in
      (a, rw (take_enough 1 r h, e));
  lacking = λ r k h. (1, remaining r, rw (take_lacking 1 r h k));
}

module _ {A B : Type 0} where
  Takes-pure_bind : {n : ℕ} {m : Read A} (g : A → B) → Takes n m → Takes n (m >>= λ a. pure (g a))
  Takes-pure_bind g t = record {
    enough = λ r h. let (a, e) = t.enough r h in (g a, rw e);
    lacking = λ r k h. let (need, left, e) = t.lacking r k h in (need, left, rw e);
  }

pub Takes-i16 : Takes 2 i16
unfolding i16
Takes-i16 = Takes-pure_bind _ (Takes-unsigned 2)

pub Takes-i32 : Takes 4 i32
unfolding i32
Takes-i32 = Takes-pure_bind _ (Takes-unsigned 4)

pub Takes-i64 : Takes 8 i64
unfolding i64
Takes-i64 = Takes-pure_bind _ (Takes-unsigned 8)

abbrev pub sum : List ℕ → ℕ
sum [] = 0
sum (n ∷ ns) = n + sum ns

-- `m` reads fields of these sizes, in order.
pub record Layout {A : Type 0} (ns : List ℕ) (m : Read A) : Type 0 where
  pub takes : Takes (sum ns) m

at_self : (r : Reader) → record r { pos = r.pos + 0 } ≡ r
at_self r = let e : r.pos + 0 ≡ r.pos = omega arith in rw e

pub Layout-pure : {A : Type 0} (a : A) → Layout [] (pure a)
Layout-pure a = record {
  takes = record { enough = λ r h. (a, rw (at_self r)); lacking = λ r k h. absurd (omega arith) };
}

module _ {A B : Type 0} {n : ℕ} {ns : List ℕ} {m : Read A} {f : A → Read B} where
  pub Layout-bind : Takes n m → ((a : A) → Layout ns (f a)) → Layout (n ∷ ns) (m >>= f)
  Layout-bind t l = record {
    takes = record {
      enough = λ r h.
          let (a, e) = t.enough r (omega arith) in
          let (b, e') = (l a).takes.enough (record r { pos = r.pos + n }) (omega arith) in
          let p : r.pos + n + sum ns ≡ r.pos + (n + sum ns) = omega arith in (b, rw (e, e', p));
      lacking = λ r k h. elim (dec_le (r.pos + n) (length r.buf)) [
        | yes fits ↦
            let (a, e) = t.enough r fits in
            let (need, left, e') =
              (l a).takes.lacking (record r { pos = r.pos + n }) fits (omega arith) in
            (need, left, rw (e, e'))
        | no over ↦ let (need, left, e) = t.lacking r k (omega arith) in (need, left, rw e)
      ];
    };
  }

pub ruleset layout_rules = (
  Layout-pure, Layout-bind, Takes-take, Takes-unsigned, Takes-u8, Takes-i16, Takes-i32, Takes-i64,
)

-- A whole-message decoder of `n` bytes: it accepts every buffer that has them, and answers `short`
-- on every other.
pub record DecodesAt {A : Type 0} (n : ℕ) (decode : List ℕ → Outcome ProtoError A) : Type 0 where
  pub accepts : (buf : List ℕ) → n ≤ length buf → (a : A) × (decode buf ≡ ok a)
  pub rejects :
      (buf : List ℕ)
      → length buf < n
      → (need : ℕ) × (left : ℕ) × (decode buf ≡ err (short need left))

pub DecodesAt-run :
    {A : Type 0} {ns : List ℕ} {m : Read A} → Layout ns m → DecodesAt (sum ns) (run m)
unfolding run
DecodesAt-run l = record {
  accepts = λ buf h. let (a, e) = l.takes.enough (new buf) (omega arith) in (a, rw e);
  rejects = λ buf h.
      let (need, left, e) = l.takes.lacking (new buf) (omega arith) (omega arith) in
      (need, left, rw e);
}
