-- ===== src/Tests/Caps.antt =====
-- The capability sets of crates/capsaicin-proto/src/caps.rs at concrete inputs.
use capsaicin.Base.{◌≡◌, refl, false, [], ◌∷◌}
use capsaicin.Proto.Caps.{
  CapSet, new, has, set_cap, with_caps, with_caps_from, bit_set, with_bit, resize,
}
use capsaicin.Proto.Caps.Laws.{has-set_cap, has-with_caps}

abbrev words_one_three : CapSet
words_one_three = 10 ∷ []

with_caps_run : with_caps (1 ∷ 3 ∷ []) ≡ words_one_three
unfolding with_caps with_caps_from new set_cap with_bit bit_set resize
with_caps_run = refl

second_word_run : set_cap words_one_three 33 ≡ 10 ∷ 2 ∷ []
unfolding set_cap with_bit bit_set resize
second_word_run = refl

has-set_cap_example : has (set_cap words_one_three 33) 3 ≡ has words_one_three 3
has-set_cap_example = has-set_cap words_one_three 33 3

has-with_caps_example : has (with_caps (1 ∷ 3 ∷ [])) 2 ≡ false
has-with_caps_example = has-with_caps (1 ∷ 3 ∷ []) 2
