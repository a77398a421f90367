-- ===== src/Quic/Plane/Codewords.antt =====
-- The codeword of a residual, and the residual of a byte.
use Prim.Native.Nat.{bit_and}
use capsaicin.Base.{ℕ, ◌+◌, ◌-◌, ◌*◌, ◌%◌, ◌^◌, ◌≤◌, ◌<◌, ◌≡◌, refl, ◌∙◌, ap, List, ◌++◌, arith}
use capsaicin.Base.Outcome.{ok}
use capsaicin.Base.Bits.{bit_and_ones}
use capsaicin.Base.Powers.{pow_pos}
use capsaicin.Quic.Words.{get_or, wrapping_sub}
use capsaicin.Quic.Family.{init, golomb_decode, golomb_encode, altprefixlen, suffixlen}
use capsaicin.Quic.Family.Codes.{golomb_roundtrip}
use capsaicin.Quic.Family.Tables.{IsCode-8, complete_8, tables_8, IsTranslated}
use capsaicin.Quic.Stream.{BitReader, BitWriter, peek32, eat, write}
use capsaicin.Quic.Stream.Bits.{to_bits}
use capsaicin.Quic.Stream.Writes.{Holds, write-Holds}
use capsaicin.Quic.Stream.Reads.{Before, peek32-Leads, eat-Before}
use capsaicin.Quic.State.Hits.{Taken}

-- The codeword of a residual, as bits.
unfoldable pub word : ℕ → ℕ → List ℕ
word n l = to_bits (golomb_encode (init 8) n l).1 (golomb_encode (init 8) n l).0

module _ (n l : ℕ) (small : n < 256) (code : l < 8) where
  abbrev c : ℕ
  c = (golomb_encode (init 8) n l).0

  abbrev len : ℕ
  len = (golomb_encode (init 8) n l).1

  round_trip :
      (rest : ℕ)
      → rest < 2 ^ (32 - len)
      → (0 < len)
        × (len ≤ 26)
        × (c < 2 ^ len)
        × (golomb_decode (init 8) l (c * 2 ^ (32 - len) + rest) ≡ (n, len))
  round_trip rest h =
      golomb_roundtrip (init 8) l (altprefixlen 8 l) (suffixlen 8 l) n (IsCode-8 l code) rest
        (omega (arith, complete_8 l code, small)) (omega (arith, small)) h

  pub write_word :
      {w : BitWriter} {bs : List ℕ}
      → Holds w bs
      → (w' : BitWriter) × (write w c len ≡ ok w') × Holds w' (bs ++ word n l)
  unfolding word
  write_word h =
      let t = round_trip 0 (pow_pos (32 - len)) in write-Holds h c len t.2 t.0 (omega (arith, t.1))

  pub read_word :
      {r : BitReader} {ws done : List ℕ} (more : List ℕ)
      → Before r ws done (word n l ++ more)
      → (golomb_decode (init 8) l (peek32 r) ≡ (n, len))
        × (t : Taken r ws (done ++ word n l) more) × (eat r len ≡ ok t.reader)
  unfolding word
  read_word {r} more b =
      let t = round_trip 0 (pow_pos (32 - len)) in
      let lead = peek32-Leads c len more b (omega (arith, t.1)) t.2 in
      let (e, after) = eat-Before c len more b (omega (arith, t.1)) in
      (
        ap (golomb_decode (init 8) l) lead.value ∙ (round_trip lead.below lead.fits).3,
        record {
          reader = record r { bit_pos = r.bit_pos + len };
          kept_bytes = refl;
          before = after;
        },
        e,
      )

-- The difference of two bytes, as a byte, and the residual that stands for it.
abbrev pub diff : ℕ → ℕ → ℕ
diff x p = (x + 256 - p) % 256

abbrev pub residual_of : ℕ → ℕ → ℕ
residual_of x p = get_or (init 8).xlat_u2l (diff x p) 0

pub masked : (x p : ℕ) → x < 256 → p < 256 → bit_and (wrapping_sub x p) 0xFF ≡ diff x p
masked x p h k = bit_and_ones 8 (wrapping_sub x p) ∙ omega (arith, h, k)

pub restored : (x p : ℕ) → x < 256 → p < 256 → bit_and (diff x p + p) 0xFF % 2 ^ 8 ≡ x
restored x p h k = ap (λ (t : ℕ). t % 2 ^ 8) (bit_and_ones 8 (diff x p + p)) ∙ omega (arith, h, k)

pub residual : (x p : ℕ) → x < 256 → p < 256 → IsTranslated (init 8) (diff x p)
residual x p h k = tables_8 (diff x p) (omega (arith, h, k))

pub residual-IsByte : (x p : ℕ) → x < 256 → p < 256 → residual_of x p < 256
unfolding init
residual-IsByte x p h k = (residual x p h k).below
