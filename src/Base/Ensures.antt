-- ===== src/Base/Ensures.antt =====
-- Postconditions of calls: the call returns, and a value that it returns satisfies `P`.
use mathlib.Core.Bool.{Bool, true, false}
use mathlib.Core.Path.{◌≡◌, refl, subst}
use capsaicin.Base.Tests.{if◌then◌else◌}
use capsaicin.Base.Outcome.{Outcome, ok, err, and_then, fail_if, Returns}

pub data Ensures {ℓ κ} {E : Type ℓ} {A : Type κ} (P : A → Type 0) : Outcome E A → Type (ℓ ⊔ κ) where
  returns : {a : A} → P a → Ensures P (ok a)
  fails : {e : E} → Ensures P (err e)

module _ {ℓ} {E : Type ℓ} {A B : Type 0} {P : A → Type 0} {Q : B → Type 0} where
  pub Ensures-bind :
      {m : Outcome E A} {f : A → Outcome E B}
      → Ensures P m
      → ((a : A) → P a → Ensures Q (f a))
      → Ensures Q (and_then m f)
  Ensures-bind (returns {a = a} p) k = k a p
  Ensures-bind fails k = fails

module _ {ℓ} {E : Type ℓ} {B : Type 0} {Q : B → Type 0} where
  -- After an early return the test is known to be false.
  pub Ensures-fail_if :
      (b : Bool) (e : E) (k : Unit {0} → Outcome E B)
      → (b ≡ false → Ensures Q (k tt))
      → Ensures Q (and_then (fail_if b e) k)
  Ensures-fail_if true e k h = fails
  Ensures-fail_if false e k h = h refl

pub Ensures-guard {ℓ} :
    {E : Type ℓ} {P : Unit {0} → Type 0} (b : Bool) (e : E)
    → (b ≡ false → P tt)
    → Ensures P (fail_if b e)
Ensures-guard true e h = fails
Ensures-guard false e h = returns (h refl)

module _ {ℓ} {E : Type ℓ} {A : Type 0} {P : A → Type 0} where
  pub Ensures-if :
      (b : Bool) (m n : Outcome E A)
      → (b ≡ true → Ensures P m)
      → (b ≡ false → Ensures P n)
      → Ensures P (if b then m else n)
  Ensures-if true m n h k = h refl
  Ensures-if false m n h k = k refl

  pub Ensures-map :
      {Q : A → Type 0} {m : Outcome E A} → ((a : A) → P a → Q a) → Ensures P m → Ensures Q m
  Ensures-map f (returns {a = a} p) = returns (f a p)
  Ensures-map f fails = fails

  pub Ensures-Returns : {m : Outcome E A} → Ensures P m → Returns m
  Ensures-Returns (returns p) = tt
  Ensures-Returns fails = tt

  pub Ensures-ok : {m : Outcome E A} {a : A} → Ensures P m → m ≡ ok a → P a
  Ensures-ok (returns {a = b} p) e = subst P (cc) p
  Ensures-ok fails e = cc

module _ {E A : Type 0} {P : A → Type 0} where
  -- The postcondition together with the call's equation.
  pub Ensures-kept : {m : Outcome E A} → Ensures P m → Ensures (λ a. (m ≡ ok a) × P a) m
  Ensures-kept (returns p) = returns (refl, p)
  Ensures-kept fails = fails
