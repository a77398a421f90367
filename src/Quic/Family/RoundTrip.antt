-- ===== src/Quic/Family/RoundTrip.antt =====
-- `Family::golomb_decode` against `Family::golomb_encode`, in the family of 8 bits, and the length that
-- `family_golomb_code_len` gives.
use capsaicin.Base.{ℕ, ◌+◌, ◌-◌, ◌*◌, ◌^◌, ◌≤◌, ◌<◌, ◌≡◌, refl, inl, inr, ltb, arith, Bool-cases}
use capsaicin.Quic.Words.{get_or}
use capsaicin.Quic.Family.{
  Family, init, golomb_encode, golomb_decode, family_golomb_code_len, altprefixlen, suffixlen,
}
use capsaicin.Quic.Family.Codes.{golomb_roundtrip}
use capsaicin.Quic.Family.Tables.{IsCode-8, complete_8}

-- In the 8-bit family every byte has a codeword of 1 to 26 bits under each parameter below 8, and the
-- decoder, given the codeword at the top of 32 bits whatever follows it, returns the byte and the
-- codeword's length.
pub byte_code_roundtrip :
    (l n rest : ℕ)
    → l < 8
    → n < 256
    → rest < 2 ^ (32 - (golomb_encode (init 8) n l).1)
    → (0 < (golomb_encode (init 8) n l).1)
      × ((golomb_encode (init 8) n l).1 ≤ 26)
      × ((golomb_encode (init 8) n l).0 < 2 ^ (golomb_encode (init 8) n l).1)
      × (golomb_decode
            (init 8)
            l
            ((golomb_encode (init 8) n l).0 * 2 ^ (32 - (golomb_encode (init 8) n l).1) + rest)
          ≡ (n, (golomb_encode (init 8) n l).1))
byte_code_roundtrip l n rest low byte fits =
    golomb_roundtrip (init 8) l (altprefixlen 8 l) (suffixlen 8 l) n (IsCode-8 l low) rest
      (omega (arith, complete_8 l low, byte)) (omega (arith, byte)) fits

-- The length that the model's update counts for a symbol is the length of the codeword that the
-- encoder writes for it, in every family and under every parameter.
pub family_golomb_code_len_lem :
    (f : Family) (n l : ℕ) → family_golomb_code_len f n l ≡ (golomb_encode f n l).1
unfolding family_golomb_code_len golomb_encode
family_golomb_code_len_lem f n l = elim (Bool-cases (ltb n (get_or f.n_gr_codewords l 0))) [
  | inl t ↦ rw t refl
  | inr t ↦ rw t refl
]
