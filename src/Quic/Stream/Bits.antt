-- ===== src/Quic/Stream/Bits.antt =====
-- Words as lists of bits, the highest first: the view by which the reader and the writer of
-- crates/capsaicin-quic/src/lib.rs are compared.
use capsaicin.Base.{
  ℕ, zero, suc, ◌+◌, ◌*◌, ◌/◌, ◌%◌, ◌^◌, ◌<◌, ◌≡◌, refl, ap, ◌∙◌, sym, List, [], ◌∷◌, ◌++◌,
  append_assoc, append-nil, arith, length, to_le_bytes,
}
use capsaicin.Base.Powers.{pow_pos, pow_add, split_div, div_below}
use native.Mathlib.Nat.{
  pow-suc, div-div-eq-div-mul, mul-add-div_right, mod-lt, mod-eq-sub-div-mul, div-mul-le_self,
}

-- The low `n` bits of `v`.
unfoldable pub to_bits : ℕ → ℕ → List ℕ
to_bits zero v = []
to_bits (suc n) v = (v / 2 ^ n % 2) ∷ to_bits n v

unfoldable pub from_bits : List ℕ → ℕ
from_bits [] = 0
from_bits (b ∷ bs) = b * 2 ^ length bs + from_bits bs

-- The words of a stream, as bytes and as bits.
unfoldable pub bytes_of : List ℕ → List ℕ
bytes_of [] = []
bytes_of (w ∷ ws) = to_le_bytes 4 w ++ bytes_of ws

unfoldable pub bits_of : List ℕ → List ℕ
bits_of [] = []
bits_of (w ∷ ws) = to_bits 32 w ++ bits_of ws

pub length-to_bits : (n v : ℕ) → length (to_bits n v) ≡ n
unfolding to_bits
length-to_bits zero v = refl
length-to_bits (suc n) v = ap suc (length-to_bits n v)

-- What stands above the low bits does not matter.
to_bits_above : (b k y : ℕ) → to_bits b (k * 2 ^ b + y) ≡ to_bits b y
unfolding to_bits
to_bits_above zero k y = refl
to_bits_above (suc b) k y =
    let e : k * 2 ^ suc b ≡ (2 * k) * 2 ^ b = rw (pow-suc 2 b) (grind arith) in
    let d : ((2 * k) * 2 ^ b + y) / 2 ^ b % 2 ≡ y / 2 ^ b % 2 =
      rw (mul-add-div_right (pow_pos b) (2 * k) y) (omega arith) in
    rw (e, d, to_bits_above b (2 * k) y)

-- Two fields of a word.
pub to_bits-fields :
    (a b x y : ℕ) → y < 2 ^ b → to_bits (a + b) (x * 2 ^ b + y) ≡ to_bits a x ++ to_bits b y
unfolding to_bits
to_bits-fields zero b x y h = let e : zero + b ≡ b = omega arith in rw e (to_bits_above b x y)
to_bits-fields (suc a) b x y h =
    let e : suc a + b ≡ suc (a + b) = omega arith in
    let c : a + b ≡ b + a = omega arith in
    let p : 2 ^ (a + b) ≡ 2 ^ b * 2 ^ a = rw c (pow_add b a) in
    let d : (x * 2 ^ b + y) / 2 ^ (a + b) ≡ x / 2 ^ a =
      rw (p, ← div-div-eq-div-mul (x * 2 ^ b + y) (2 ^ b) (2 ^ a), split_div x (2 ^ b) y h) in
    rw (e, d, to_bits-fields a b x y h)

-- A number as its upper and its lower part.
pub halves : (v b : ℕ) → v ≡ v / 2 ^ b * 2 ^ b + v % 2 ^ b
halves v b = omega (arith, mod-eq-sub-div-mul v (2 ^ b), div-mul-le_self v (2 ^ b))

pub to_bits_split : (a b v : ℕ) → to_bits (a + b) v ≡ to_bits a (v / 2 ^ b) ++ to_bits b (v % 2 ^ b)
to_bits_split a b v =
    ap (to_bits (a + b)) (halves v b)
    ∙ to_bits-fields a b (v / 2 ^ b) (v % 2 ^ b) (mod-lt v (pow_pos b))

pub from_bits-to_bits : (n v : ℕ) → v < 2 ^ n → from_bits (to_bits n v) ≡ v
unfolding to_bits from_bits
from_bits-to_bits zero v h = omega arith
from_bits-to_bits (suc n) v h =
    let low : to_bits n v ≡ to_bits n (v % 2 ^ n) =
      ap (to_bits n) (halves v n) ∙ to_bits_above n (v / 2 ^ n) (v % 2 ^ n) in
    let one : v / 2 ^ n < 2 ^ 1 =
      (let e : 1 + n ≡ suc n = omega arith in div_below v 1 n (rw e h)) in
    let bit : v / 2 ^ n % 2 ≡ v / 2 ^ n = omega (arith, one) in
    rw (length-to_bits n v, low, from_bits-to_bits n (v % 2 ^ n) (mod-lt v (pow_pos n)), bit)
      (sym (halves v n))

pub bytes_of-append : (us ws : List ℕ) → bytes_of (us ++ ws) ≡ bytes_of us ++ bytes_of ws
unfolding bytes_of
bytes_of-append [] ws = refl
bytes_of-append (u ∷ us) ws = simp (bytes_of-append us ws, append_assoc)

pub bits_of-append : (us ws : List ℕ) → bits_of (us ++ ws) ≡ bits_of us ++ bits_of ws
unfolding bits_of
bits_of-append [] ws = refl
bits_of-append (u ∷ us) ws = simp (bits_of-append us ws, append_assoc)

pub length-bytes_of : (ws : List ℕ) → length (bytes_of ws) ≡ 4 * length ws
unfolding bytes_of to_le_bytes
length-bytes_of [] = refl
length-bytes_of (w ∷ ws) = omega (arith, length-bytes_of ws)

pub bytes_of_one : (w : ℕ) → bytes_of (w ∷ []) ≡ to_le_bytes 4 w
unfolding bytes_of
bytes_of_one w = simp append-nil

pub bits_of_one : (w : ℕ) → bits_of (w ∷ []) ≡ to_bits 32 w
unfolding bits_of
bits_of_one w = simp append-nil

pub to_bits_none : (v : ℕ) → to_bits 0 v ≡ []
unfolding to_bits
to_bits_none v = refl
