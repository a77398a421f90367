-- ===== src/Quic/Family/Tables.antt =====
-- What `Family::init` puts into the tables, for the two sizes of channels that the decoders use.
use capsaicin.Base.{
  ℕ, ◌+◌, ◌-◌, ◌*◌, ◌^◌, ◌≤◌, ◌<◌, ◌≡◌, refl, Bool, true, false, ◌&&◌, ltb, leb, ◌==◌, arith, List,
  Option, some, get_elem?,
}
use capsaicin.Base.Bits.{all_below, all_below_lem}
use capsaicin.Quic.Words.{get_or, leading_zeros}
use capsaicin.Quic.Family.{Family, init, altprefixlen, suffixlen}
use capsaicin.Quic.Family.Unary.{IsCode}

-- The conditions of `IsCode`, as a test.
is_code : Family → ℕ → ℕ → ℕ → Bool
is_code f l alt suf =
    ltb 0 alt
    && leb (alt + suf) 26
    && leb (alt + l) 26
    && (get_or f.n_gr_codewords l 0 == alt * 2 ^ l)
    && (get_or f.not_gr_cwlen l 0 == alt + suf)
    && (get_or f.not_gr_prefixmask l 0 == 2 ^ (32 - alt) - 1)
    && (get_or f.not_gr_suffixlen l 0 == suf)

is_code-IsCode : (f : Family) (l alt suf : ℕ) → is_code f l alt suf ≡ true → IsCode f l alt suf
unfolding is_code
is_code-IsCode f l alt suf h = record {
  some_prefix = ground arith;
  short = ground arith;
  fits = ground arith;
  codewords = ground arith;
  cwlen = ground arith;
  prefixmask = ground arith;
  suffix = ground arith;
}

-- A code for each parameter below the number of bits, with a word for every value of a channel.
pub record IsComplete (f : Family) (l : ℕ) : Type 0 where
  pub code : IsCode f l (altprefixlen f.bpc l) (suffixlen f.bpc l)
  pub complete : 2 ^ f.bpc ≤ altprefixlen f.bpc l * 2 ^ l + 2 ^ suffixlen f.bpc l

complete_test : Family → ℕ → Bool
unfolding is_code
complete_test f l =
    is_code f l (altprefixlen f.bpc l) (suffixlen f.bpc l)
    && leb (2 ^ f.bpc) (altprefixlen f.bpc l * 2 ^ l + 2 ^ suffixlen f.bpc l)

tested-IsComplete : (f : Family) (l : ℕ) → complete_test f l ≡ true → IsComplete f l
unfolding complete_test
tested-IsComplete f l h = record {
  code = is_code-IsCode f l (altprefixlen f.bpc l) (suffixlen f.bpc l) (ground arith);
  complete = ground arith;
}

init_8_tested : all_below 8 (complete_test (init 8)) ≡ true
unfolding all_below complete_test init suffixlen leading_zeros altprefixlen
init_8_tested = refl

init_5_tested : all_below 5 (complete_test (init 5)) ≡ true
unfolding all_below complete_test init suffixlen leading_zeros altprefixlen
init_5_tested = refl

pub init_8-IsComplete : (l : ℕ) → l < 8 → IsComplete (init 8) l
init_8-IsComplete l h =
    tested-IsComplete (init 8) l (all_below_lem 8 (complete_test (init 8)) l init_8_tested h)

pub init_5-IsComplete : (l : ℕ) → l < 5 → IsComplete (init 5) l
init_5-IsComplete l h =
    tested-IsComplete (init 5) l (all_below_lem 5 (complete_test (init 5)) l init_5_tested h)

-- The entry of `xs` at `i` is `v`.
holds : List ℕ → ℕ → ℕ → Bool
holds xs i v = elim (get_elem? xs i) [ Option.none ↦ false | Option.some w ↦ w == v ]

holds_lem : (xs : List ℕ) (i v : ℕ) → holds xs i v ≡ true → get_elem? xs i ≡ some v
unfolding holds
holds_lem xs i v h = ground arith

-- The two translations of `x`, one after the other.
there_and_back : Family → ℕ → Bool
unfolding holds
there_and_back f x =
    holds f.xlat_u2l x (get_or f.xlat_u2l x 0)
    && holds f.xlat_l2u (get_or f.xlat_u2l x 0) x
    && ltb (get_or f.xlat_u2l x 0) (2 ^ f.bpc)

pub record IsTranslated (f : Family) (x : ℕ) : Type 0 where
  pub u2l : get_elem? f.xlat_u2l x ≡ some (get_or f.xlat_u2l x 0)
  pub l2u : get_elem? f.xlat_l2u (get_or f.xlat_u2l x 0) ≡ some x
  pub below : get_or f.xlat_u2l x 0 < 2 ^ f.bpc

there_and_back-IsTranslated : (f : Family) (x : ℕ) → there_and_back f x ≡ true → IsTranslated f x
unfolding there_and_back
there_and_back-IsTranslated f x h = record {
  u2l = holds_lem f.xlat_u2l x (get_or f.xlat_u2l x 0) (ground arith);
  l2u = holds_lem f.xlat_l2u (get_or f.xlat_u2l x 0) x (ground arith);
  below = ground arith;
}

tables_8_tested : all_below 256 (there_and_back (init 8)) ≡ true
unfolding all_below there_and_back init
tables_8_tested = refl

pub tables_8 : (x : ℕ) → x < 256 → IsTranslated (init 8) x
tables_8 x h =
    there_and_back-IsTranslated (init 8) x
      (all_below_lem 256 (there_and_back (init 8)) x tables_8_tested h)

pub IsCode-8 : (l : ℕ) → l < 8 → IsCode (init 8) l (altprefixlen 8 l) (suffixlen 8 l)
unfolding init
IsCode-8 l h = (init_8-IsComplete l h).code

pub complete_8 : (l : ℕ) → l < 8 → 256 ≤ altprefixlen 8 l * 2 ^ l + 2 ^ suffixlen 8 l
unfolding init
complete_8 l h = (init_8-IsComplete l h).complete

pub bpc_8 : (init 8).bpc ≡ 8
unfolding init
bpc_8 = refl
