-- ===== src/Base/Outcome.antt =====
-- What a Rust call does: it returns a value, returns an error, or panics.
use Prim.Native.Nat.{ℕ, ◌-◌}
use mathlib.Core.Bool.{Bool, true, false, ◌&&◌}
use mathlib.Core.List.{List}
use mathlib.Core.Option.{Option, none, some}
use capsaicin.Base.Tests.{leb, ◌==◌, if◌then◌else◌}
use capsaicin.Base.Lists.{length, take, drop, get_elem?}

-- `stuck` is no Rust outcome: a loop of the model used up its fuel.
pub data Outcome {ℓ κ} (E : Type ℓ) (A : Type κ) : Type (ℓ ⊔ κ) where
  ok : A → Outcome E A
  err : E → Outcome E A
  panic : Outcome E A
  stuck : Outcome E A

-- The `?` operator, also by a plain name.
abbrev pub and_then {ℓ κ ν} :
    {E : Type ℓ} {A : Type κ} {B : Type ν} → Outcome E A → (A → Outcome E B) → Outcome E B
and_then (ok a) f = f a
and_then (err e) f = err e
and_then panic f = panic
and_then stuck f = stuck

infixl 5 ◌>>=◌
abbrev pub ◌>>=◌ {ℓ κ ν} :
    {E : Type ℓ} {A : Type κ} {B : Type ν} → Outcome E A → (A → Outcome E B) → Outcome E B
m >>= f = and_then m f

infixl 5 ◌>>◌
abbrev pub ◌>>◌ {ℓ κ} : {E : Type ℓ} {B : Type κ} → Outcome E (Unit {0}) → Outcome E B → Outcome E B
m >> k = and_then m (λ _. k)

-- `if test { return Err(e); }`
abbrev pub fail_if {ℓ} : {E : Type ℓ} → Bool → E → Outcome E (Unit {0})
fail_if true e = err e
fail_if false e = ok tt

-- An access that panics where there is nothing.
abbrev pub or_panic {ℓ κ} : {E : Type ℓ} {A : Type κ} → Option A → Outcome E A
or_panic none = panic
or_panic (some a) = ok a

-- The call returns, with a value or an error: it neither panics nor runs out of fuel.
abbrev pub Returns {ℓ κ} : {E : Type ℓ} {A : Type κ} → Outcome E A → Type 0
Returns (ok a) = Unit
Returns (err e) = Unit
Returns panic = ⊥
Returns stuck = ⊥

module _ {ℓ κ} {E : Type ℓ} {A : Type κ} where
  -- `&xs[a..b]`
  unfoldable pub slice : List A → ℕ → ℕ → Outcome E (List A)
  slice xs a b = if leb a b && leb b (length xs) then ok (take (b - a) (drop a xs)) else panic

  -- `xs[i]`
  unfoldable pub index : List A → ℕ → Outcome E A
  index xs i = or_panic (get_elem? xs i)

  -- `xs.try_into().unwrap()`, at an array of `n` elements.
  unfoldable pub to_array : ℕ → List A → Outcome E (List A)
  to_array n xs = if length xs == n then ok xs else panic
