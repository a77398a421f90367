-- ===== src/Proto/Caps/Laws.antt =====
-- `CapSet::set` against `CapSet::has`, crates/capsaicin-proto/src/caps.rs.
use capsaicin.Base.{
  ℕ, zero, suc, ◌+◌, ◌-◌, ◌/◌, ◌%◌, ◌^◌, ◌<◌, ◌≡◌, ◌≢◌, refl, ◌∙◌, Bool, true, false, Option, none,
  some, List, [], ◌∷◌, ◌++◌, leb, ◌==◌, ==_iff, inl, inr, if◌then◌else◌, arith, length,
  length-append, length-replicate, get_elem?, get_elem?_within, get_elem?-set_self,
  get_elem?-set_ne, set, replicate, Bool-cases, Option-cases,
}
use native.Mathlib.Nat.{zero-div}
use capsaicin.Proto.Caps.{
  CapSet, new, bit_set, with_bit, has, resize, set_cap, with_caps_from, with_caps,
}
use capsaicin.Proto.Caps.Bits.{bit_set-with_bit}

-- A word that is not there counts as 0.
or_zero : Option ℕ → ℕ
or_zero none = 0
or_zero (some w) = w

bit_set_zero : (b : ℕ) → bit_set 0 b ≡ false
unfolding bit_set
bit_set_zero b = rw (zero-div (2 ^ b))

has_lem :
    (words : CapSet) (cap : ℕ)
    → has words cap ≡ bit_set (or_zero (get_elem? words (cap / 32))) (cap % 32)
unfolding has or_zero
has_lem words cap = elim (Option-cases (get_elem? words (cap / 32))) [
  | inl gone ↦ rw (has, gone, bit_set_zero (cap % 32)) refl
  | inr (w, found) ↦ rw (has, found) refl
]

zeros_lem : (k j : ℕ) → or_zero (get_elem? (replicate k 0) j) ≡ 0
unfolding or_zero
zeros_lem zero j = refl
zeros_lem (suc k) zero = refl
zeros_lem (suc k) (suc j) = zeros_lem k j

padded_lem :
    (words : CapSet) (k j : ℕ)
    → or_zero (get_elem? (words ++ replicate k 0) j) ≡ or_zero (get_elem? words j)
unfolding or_zero
padded_lem [] k j = zeros_lem k j
padded_lem (w ∷ words) k zero = refl
padded_lem (w ∷ words) k (suc j) = padded_lem words k j

-- The words as `set` has them after the resize.
abbrev grown : CapSet → ℕ → CapSet
grown words word =
    if leb (length words) word then words ++ replicate (word + 1 - length words) 0 else words

grown_lem :
    (words : CapSet) (word j : ℕ)
    → or_zero (get_elem? (grown words word) j) ≡ or_zero (get_elem? words j)
grown_lem words word j = elim (Bool-cases (leb (length words) word)) [
  | inl short ↦ rw short (padded_lem words (word + 1 - length words) j)
  | inr long ↦ rw long
]

length-grown : (words : CapSet) (word : ℕ) → word < length (grown words word)
length-grown words word = elim (Bool-cases (leb (length words) word)) [
  | inl short ↦ rw short (
      omega (
        arith,
        length-append words (replicate (word + 1 - length words) 0),
        length-replicate {A = ℕ} (word + 1 - length words) 0,
      ))
  | inr long ↦ rw long (ground arith)
]

set_cap-grown :
    (words : CapSet) (cap w : ℕ)
    → get_elem? (grown words (cap / 32)) (cap / 32) ≡ some w
    → set_cap words cap ≡ set (grown words (cap / 32)) (cap / 32) (with_bit w (cap % 32))
unfolding set_cap resize
set_cap-grown words cap w found = rw (set_cap, found) refl

set_cap_lem :
    (words : CapSet) (cap j : ℕ)
    → or_zero (get_elem? (set_cap words cap) j) ≡ (
        if cap / 32 == j
        then with_bit (or_zero (get_elem? words j)) (cap % 32)
        else or_zero (get_elem? words j))
unfolding or_zero
set_cap_lem words cap j =
    let word = cap / 32 in
    let room = length-grown words word in
    let (w, found) = get_elem?_within (grown words word) word room in
    let step = set_cap-grown words cap w found in
    let old : w ≡ or_zero (get_elem? words word) = rw found at (grown_lem words word word) in
    elim (Bool-cases (word == j)) [
      | inl here ↦
          let e : word ≡ j = (==_iff word j).0 here in
          rw (
            step,
            here,
            ← e,
            ← old,
            get_elem?-set_self (grown words word) word (with_bit w (cap % 32)) room,
          )
      | inr there ↦
          let ne : word ≢ j = ground arith in
          rw (step, there, get_elem?-set_ne (grown words word) word j (with_bit w (cap % 32)) ne)
            (grown_lem words word j)
    ]

split_cap : (a b : ℕ) → a / 32 ≡ b / 32 → (a % 32 == b % 32) ≡ (a == b)
split_cap a b h = ground arith

-- After a capability is set it is there, and every other capability is there just if it was before.
pub has-set_cap :
    (words : CapSet) (cap c : ℕ)
    → has (set_cap words cap) c ≡ (if cap == c then true else has words c)
has-set_cap words cap c = elim (Bool-cases (cap / 32 == c / 32)) [
  | inl here ↦
      let e : cap / 32 ≡ c / 32 = (==_iff (cap / 32) (c / 32)).0 here in
      rw (
        has_lem (set_cap words cap) c,
        has_lem words c,
        set_cap_lem words cap (c / 32),
        here,
        bit_set-with_bit (or_zero (get_elem? words (c / 32))) (cap % 32) (c % 32),
        split_cap cap c e,
      )
  | inr there ↦
      let ne : (cap == c) ≡ false = ground arith in
      rw (has_lem (set_cap words cap) c, has_lem words c, set_cap_lem words cap (c / 32), there, ne)
]

-- Whether a capability is in a list.
abbrev pub listed : ℕ → List ℕ → Bool
listed c [] = false
listed c (cap ∷ caps) = if cap == c then true else listed c caps

with_caps_from_lem :
    (s : CapSet) (caps : List ℕ) (c : ℕ)
    → has (with_caps_from s caps) c ≡ (if listed c caps then true else has s c)
unfolding with_caps_from
with_caps_from_lem s [] c = refl
with_caps_from_lem s (cap ∷ caps) c = elim (Bool-cases (cap == c)) [
  | inl here ↦
      rw (with_caps_from_lem (set_cap s cap) caps c, has-set_cap s cap c, here) (ground arith)
  | inr there ↦ rw (with_caps_from_lem (set_cap s cap) caps c, has-set_cap s cap c, there)
]

-- A set built from a list holds exactly the capabilities of the list.
pub has-with_caps : (caps : List ℕ) (c : ℕ) → has (with_caps caps) c ≡ listed c caps
unfolding with_caps new or_zero
has-with_caps caps c =
    let empty : has [] c ≡ false = has_lem [] c ∙ bit_set_zero (c % 32) in
    rw (with_caps_from_lem [] caps c, empty) (ground arith)
