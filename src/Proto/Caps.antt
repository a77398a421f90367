-- ===== src/Proto/Caps.antt =====
-- `CapSet` of crates/capsaicin-proto/src/caps.rs: a list of 32-bit words, one bit for each capability.
pub mod Bits
pub mod Laws
use capsaicin.Base.{
  ℕ, zero, suc, ◌+◌, ◌-◌, ◌/◌, ◌%◌, ◌^◌, Bool, false, Option, none, some, List, [], ◌∷◌, ◌++◌, ltb,
  leb, ◌==◌, if◌then◌else◌, length, get_elem?, set, replicate,
}

-- The tuple struct around the words.
abbrev pub CapSet : Type 0
CapSet = List ℕ

unfoldable pub new : CapSet
new = []

-- `w & (1 << bit) != 0`
unfoldable pub bit_set : ℕ → ℕ → Bool
bit_set w bit = w / 2 ^ bit % 2 == 1

-- `w | 1 << bit`
unfoldable pub with_bit : ℕ → ℕ → ℕ
unfolding bit_set
with_bit w bit = if bit_set w bit then w else w + 2 ^ bit

unfoldable pub has : CapSet → ℕ → Bool
unfolding bit_set
has words cap = elim (get_elem? words (cap / 32)) [ none ↦ false | some w ↦ bit_set w (cap % 32) ]

-- `self.0.resize(n, 0)`, called where there are fewer words.
unfoldable pub resize : ℕ → CapSet → CapSet
resize n words = words ++ replicate (n - length words) 0

-- The index is within the resized words, so the case without a word, a panic in the code, is not met.
unfoldable pub set_cap : CapSet → ℕ → CapSet
unfolding with_bit resize
set_cap words cap =
    let word = cap / 32 in
    let words' = if leb (length words) word then resize (word + 1) words else words in
    elim (get_elem? words' word) [
      | none ↦ words'
      | some w ↦ set words' word (with_bit w (cap % 32))
    ]

unfoldable pub with_caps_from : CapSet → List ℕ → CapSet
unfolding set_cap
with_caps_from s [] = s
with_caps_from s (c ∷ caps) = with_caps_from (set_cap s c) caps

unfoldable pub with_caps : List ℕ → CapSet
unfolding with_caps_from new
with_caps caps = with_caps_from new caps
