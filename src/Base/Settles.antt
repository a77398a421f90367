-- ===== src/Base/Settles.antt =====
-- Postconditions of calls that may fail or panic: the call does not run out of fuel, and a value that
-- it returns satisfies `P`.
use mathlib.Core.Bool.{Bool, true, false}
use mathlib.Core.Path.{◌≡◌, refl}
use mathlib.Core.Option.{Option, none, some}
use capsaicin.Base.Tests.{if◌then◌else◌}
use capsaicin.Base.Outcome.{Outcome, ok, err, panic, and_then, fail_if, or_panic}

pub data Settles {ℓ κ} {E : Type ℓ} {A : Type κ} (P : A → Type 0) : Outcome E A → Type (ℓ ⊔ κ) where
  gives : {a : A} → P a → Settles P (ok a)
  fails : {e : E} → Settles P (err e)
  panics : Settles P panic

module _ {ℓ} {E : Type ℓ} {A B : Type 0} {P : A → Type 0} {Q : B → Type 0} where
  pub Settles-bind :
      {m : Outcome E A} {f : A → Outcome E B}
      → Settles P m
      → ((a : A) → P a → Settles Q (f a))
      → Settles Q (and_then m f)
  Settles-bind (gives {a = a} p) k = k a p
  Settles-bind fails k = fails
  Settles-bind panics k = panics

module _ {ℓ} {E : Type ℓ} {A : Type 0} {P : A → Type 0} where
  pub Settles-if :
      (b : Bool) (m n : Outcome E A)
      → (b ≡ true → Settles P m)
      → (b ≡ false → Settles P n)
      → Settles P (if b then m else n)
  Settles-if true m n h k = h refl
  Settles-if false m n h k = k refl

  pub Settles-map :
      {Q : A → Type 0} {m : Outcome E A} → ((a : A) → P a → Q a) → Settles P m → Settles Q m
  Settles-map f (gives {a = a} p) = gives (f a p)
  Settles-map f fails = fails
  Settles-map f panics = panics

module _ {ℓ} {E : Type ℓ} {B : Type 0} {Q : B → Type 0} where
  -- After an early return the test is known to be false.
  pub Settles-fail_if :
      (b : Bool) (e : E) (k : Unit {0} → Outcome E B)
      → (b ≡ false → Settles Q (k tt))
      → Settles Q (and_then (fail_if b e) k)
  Settles-fail_if true e k h = fails
  Settles-fail_if false e k h = h refl

-- Calls of whose value nothing is said.
abbrev pub Anything {ℓ} : {A : Type ℓ} → A → Type 0
Anything a = Unit {0}

module _ {ℓ} {E : Type ℓ} {A B : Type 0} where
  pub Halts-bind :
      {m : Outcome E A} {f : A → Outcome E B}
      → Settles Anything m
      → ((a : A) → Settles Anything (f a))
      → Settles Anything (and_then m f)
  Halts-bind h k = Settles-bind h (λ a p. k a)

module _ {ℓ} {E : Type ℓ} {A : Type 0} where
  pub Halts-ok : (a : A) → Settles {E = E} Anything (ok a)
  Halts-ok a = gives tt

  pub Halts-panic : Settles {E = E} {A = A} Anything panic
  Halts-panic = panics

  pub Halts-if :
      (b : Bool) {m n : Outcome E A}
      → Settles Anything m
      → Settles Anything n
      → Settles Anything (if b then m else n)
  Halts-if true h k = h
  Halts-if false h k = k

  pub Halts-or_panic : (o : Option A) → Settles {E = E} Anything (or_panic o)
  Halts-or_panic none = panics
  Halts-or_panic (some a) = gives tt

pub Halts-fail_if {ℓ} : {E : Type ℓ} (b : Bool) (e : E) → Settles Anything (fail_if b e)
Halts-fail_if true e = fails
Halts-fail_if false e = gives tt
