-- ===== src/Glz/Window/Images.antt =====
-- The map of a GLZ window: lookups, sizes and ages after a removal.
use capsaicin.Base.{
  ℕ, ◌+◌, ◌≤◌, ◌<◌, ◌≡◌, refl, subst, All-map, ==_self, inl, inr, none, some, [], ◌∷◌, leb, ◌==◌,
  if◌then◌else◌, arith, length, All, Bool-cases, Option-cases, ==_iff,
}
use capsaicin.Glz.Window.{WindowEntry, Images, lookup, without, older, oldest}

abbrev pub total : Images → ℕ
total [] = 0
total ((k, e) ∷ m) = length e.pixels + total m

-- No key stands twice.
abbrev pub HasDistinctKeys : Images → Type 0
HasDistinctKeys [] = Unit
HasDistinctKeys ((k, e) ∷ m) = (lookup k m ≡ none) × HasDistinctKeys m

abbrev pub YoungerThan : ℕ → Images → Type 0
YoungerThan bound = All (λ p. p.1.seq < bound)

pub lookup-without :
    (k j : ℕ) (m : Images) → lookup j (without k m) ≡ (if k == j then none else lookup j m)
unfolding lookup without
lookup-without k j [] = ground arith
lookup-without k j ((i, e) ∷ m) = ground (arith, lookup-without k j m)

-- Nothing is dropped where the key is not there.
pub total-without-none : (k : ℕ) (m : Images) → lookup k m ≡ none → total (without k m) ≡ total m
unfolding lookup without
total-without-none k [] h = refl
total-without-none k ((i, e) ∷ m) h = ground (arith, total-without-none k m)

pub total-without :
    (k : ℕ) (e : WindowEntry) (m : Images)
    → HasDistinctKeys m
    → lookup k m ≡ some e
    → total (without k m) + length e.pixels ≡ total m
unfolding lookup without
total-without k e [] d h = cc
total-without k e ((i, x) ∷ m) d h = elim (Bool-cases (i == k)) [
  | inl here ↦
      let same : i ≡ k = (==_iff i k).0 here in
      let gone : lookup k m ≡ none = rw (← same) d.0 in ground (arith, total-without-none k m)
  | inr there ↦ ground (arith, total-without k e m)
]

pub without-HasDistinctKeys :
    (k : ℕ) (m : Images) → HasDistinctKeys m → HasDistinctKeys (without k m)
unfolding without
without-HasDistinctKeys k [] d = tt
without-HasDistinctKeys k ((i, e) ∷ m) d = elim (Bool-cases (i == k)) [
  | inl here ↦ rw here (without-HasDistinctKeys k m d.1)
  | inr there ↦
      rw there (ground (arith, lookup-without k i m, d.0), without-HasDistinctKeys k m d.1)
]

pub without-All :
    (P : ℕ × WindowEntry → Type 0) (k : ℕ) (m : Images) → All P m → All P (without k m)
unfolding without
without-All P k [] h = tt
without-All P k ((i, e) ∷ m) h = elim (Bool-cases (i == k)) [
  | inl here ↦ rw here (without-All P k m h.1)
  | inr there ↦ rw there (h.0, without-All P k m h.1)
]

pub length-without : (k : ℕ) (m : Images) → length (without k m) ≤ length m
unfolding without
length-without k [] = omega arith
length-without k ((i, e) ∷ m) = ground (arith, length-without k m)

pub length-without-some :
    (k : ℕ) (e : WindowEntry) (m : Images) → lookup k m ≡ some e → length (without k m) < length m
unfolding lookup without
length-without-some k e [] h = cc
length-without-some k e ((i, x) ∷ m) h =
    ground (arith, length-without-some k e m, length-without k m)

pub lookup-All :
    (P : ℕ × WindowEntry → Type 0) (k : ℕ) (e : WindowEntry) (m : Images)
    → All P m
    → lookup k m ≡ some e
    → P (k, e)
unfolding lookup
lookup-All P k e [] h f = cc
lookup-All P k e ((i, x) ∷ m) h f = elim (Bool-cases (i == k)) [
  | inl here ↦ subst P (cc ((==_iff i k).0 here, rw here at f)) h.0
  | inr there ↦ lookup-All P k e m h.1 (rw there at f)
]

-- The oldest entry is in the map, and none is older.
pub record IsOldest (m : Images) (k seq : ℕ) : Type 0 where
  pub entry : WindowEntry
  pub found : lookup k m ≡ some entry
  pub aged : entry.seq ≡ seq
  pub least : All (λ p. seq ≤ p.1.seq) m

pub oldest-none : (m : Images) → oldest m ≡ none → m ≡ []
unfolding oldest
oldest-none [] h = refl
oldest-none (x ∷ m) h = cc

lookup_here : (k : ℕ) (e : WindowEntry) (m : Images) → lookup k ((k, e) ∷ m) ≡ some e
unfolding lookup
lookup_here k e m = rw (==_self k)

lookup_there :
    (i k : ℕ) (e x : WindowEntry) (m : Images)
    → lookup i m ≡ none
    → lookup k m ≡ some e
    → lookup k ((i, x) ∷ m) ≡ some e
unfolding lookup
lookup_there i k e x m gone h = elim (Bool-cases (i == k)) [
  | inl same ↦
      let e' : i ≡ k = (==_iff i k).0 same in
      let none_at : lookup k m ≡ none = rw (← e') gone in cc (none_at, h)
  | inr other ↦ rw (other, h)
]

older_IsOldest :
    (i : ℕ) (e : WindowEntry) (m : Images) (b : ℕ × ℕ)
    → lookup i m ≡ none
    → IsOldest m b.0 b.1
    → IsOldest ((i, e) ∷ m) (older (i, e.seq) (some b)).0 (older (i, e.seq) (some b)).1
unfolding older
older_IsOldest i e m b gone o = elim (Bool-cases (leb e.seq b.1)) [
  | inl first ↦ rw first (record {
    entry = e;
    found = lookup_here i e m;
    aged = refl;
    least = (omega arith, All-map _ m (λ p h. ground arith) o.least);
  })
  | inr later ↦ rw later (record {
    entry = o.entry;
    found = lookup_there i b.0 o.entry e m gone o.found;
    aged = o.aged;
    least = (ground arith, o.least);
  })
]

pub oldest-IsOldest :
    (m : Images) (v : ℕ × ℕ) → HasDistinctKeys m → oldest m ≡ some v → IsOldest m v.0 v.1
unfolding oldest older
oldest-IsOldest [] v d h = cc
oldest-IsOldest ((i, e) ∷ m) v d h = elim (Option-cases (oldest m)) [
  | inl alone ↦
      let nil : m ≡ [] = oldest-none m alone in
      let first : v ≡ (i, e.seq) = cc (alone, h) in
      rw first (record {
        entry = e;
        found = lookup_here i e m;
        aged = refl;
        least = (omega arith, rw nil tt);
      })
  | inr (b, more) ↦
      let next : v ≡ older (i, e.seq) (some b) = cc (more, h) in
      rw next (older_IsOldest i e m b d.0 (oldest-IsOldest m b d.1 more))
]
