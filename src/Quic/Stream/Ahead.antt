-- ===== src/Quic/Stream/Ahead.antt =====
-- The bits of the words that a reader looks at: the next 32, with zeros behind the end.
use capsaicin.Base.{
  ℕ, zero, suc, ◌+◌, ◌-◌, ◌*◌, ◌/◌, ◌%◌, ◌^◌, ◌≤◌, ◌<◌, ◌≡◌, refl, ap, ◌∙◌, sym, List, [], ◌∷◌,
  ◌++◌, append_assoc, append-nil, arith, length, take, drop, replicate, length-replicate,
}
use capsaicin.Base.Powers.{pow_pos}
use native.Mathlib.Nat.{mod-eq_of_lt, div-eq_of_lt}
use capsaicin.Quic.Words.{get_or}
use capsaicin.Quic.Stream.Bits.{to_bits, length-to_bits, to_bits_split, bits_of}

module _ {ℓ} {A : Type ℓ} where
  -- Positions behind a part of known length.
  pub drop_past : (xs ys : List A) (n k : ℕ) → length xs ≡ n → drop (n + k) (xs ++ ys) ≡ drop k ys
  drop_past [] ys n k h = let e : n + k ≡ k = omega (arith, h) in rw e
  drop_past (x ∷ xs) ys zero k h = absurd (omega arith)
  drop_past (x ∷ xs) ys (suc n) k h =
      let e : suc n + k ≡ suc (n + k) = omega arith in rw e (drop_past xs ys n k (omega arith))

  pub take_past :
      (xs ys : List A) (n k : ℕ) → length xs ≡ n → take (n + k) (xs ++ ys) ≡ xs ++ take k ys
  take_past [] ys n k h = let e : n + k ≡ k = omega (arith, h) in rw e
  take_past (x ∷ xs) ys zero k h = absurd (omega arith)
  take_past (x ∷ xs) ys (suc n) k h =
      let e : suc n + k ≡ suc (n + k) = omega arith in
      rw e (ap (λ t. x ∷ t) (take_past xs ys n k (omega arith)))

pub zeros : ℕ → List ℕ
zeros n = replicate n 0

length-zeros : (n : ℕ) → length (zeros n) ≡ n
unfolding zeros
length-zeros n = length-replicate n 0

take-zeros : (n k : ℕ) → n ≤ k → take n (zeros k) ≡ zeros n
unfolding zeros
take-zeros zero k h = refl
take-zeros (suc n) zero h = absurd (omega arith)
take-zeros (suc n) (suc k) h = ap (λ t. 0 ∷ t) (take-zeros n k (omega arith))

zeros-append : (n k : ℕ) → zeros n ++ zeros k ≡ zeros (n + k)
unfolding zeros
zeros-append zero k = let e : 0 + k ≡ k = omega arith in rw e
zeros-append (suc n) k =
    let e : suc n + k ≡ suc (n + k) = omega arith in rw e (ap (λ t. 0 ∷ t) (zeros-append n k))

to_bits-zero : (n : ℕ) → to_bits n 0 ≡ zeros n
unfolding to_bits zeros
to_bits-zero zero = refl
to_bits-zero (suc n) =
    let e : 0 / 2 ^ n % 2 ≡ 0 = rw (div-eq_of_lt (pow_pos n)) in rw (e, to_bits-zero n)

-- The next 32 bits, with zeros behind the end.
abbrev pub ahead : List ℕ → ℕ → List ℕ
ahead ws p = take 32 (drop p (bits_of ws) ++ zeros 32)

-- The words that a reader at bit `b` of word `i` looks at.
abbrev pub window : List ℕ → ℕ → ℕ → List ℕ
window ws i b =
    to_bits (32 - b) (get_or ws i 0 % 2 ^ (32 - b))
    ++ to_bits b (get_or ws (i + 1) 0 / 2 ^ (32 - b))

next_part :
    (ws : List ℕ) (b : ℕ)
    → b < 32
    → take b (bits_of ws ++ zeros 32) ≡ to_bits b (get_or ws 0 0 / 2 ^ (32 - b))
unfolding bits_of
next_part [] b h =
    let z : 0 / 2 ^ (32 - b) ≡ 0 = div-eq_of_lt (pow_pos (32 - b)) in
    rw (take-zeros b 32 (omega arith), z, to_bits-zero b)
next_part (w ∷ ws) b h =
    let n : b + (32 - b) ≡ 32 = omega arith in
    let s : to_bits 32 w ≡ to_bits b (w / 2 ^ (32 - b)) ++ to_bits (32 - b) (w % 2 ^ (32 - b)) =
      ap (λ (t : ℕ). to_bits t w) (sym n) ∙ to_bits_split b (32 - b) w in
    let l : b + 0 ≡ b = omega arith in
    rw (s, append_assoc, append_assoc)
      (rw l at (
        take_past (to_bits b (w / 2 ^ (32 - b)))
          (to_bits (32 - b) (w % 2 ^ (32 - b)) ++ (bits_of ws ++ zeros 32)) b 0
          (length-to_bits b (w / 2 ^ (32 - b)))
        ∙ append-nil _))

pub window-ahead :
    (ws : List ℕ) (i b : ℕ)
    → b < 32
    → 32 * i + b ≤ 32 * length ws
    → ahead ws (32 * i + b) ≡ window ws i b
unfolding bits_of
window-ahead [] i b h k =
    let p : 32 * i + b ≡ 0 = omega (arith, k) in
    let none_lo : 0 % 2 ^ (32 - b) ≡ 0 = mod-eq_of_lt (pow_pos (32 - b)) in
    let none_hi : 0 / 2 ^ (32 - b) ≡ 0 = div-eq_of_lt (pow_pos (32 - b)) in
    let n : (32 - b) + b ≡ 32 = omega arith in
    rw (p, none_lo, none_hi, to_bits-zero (32 - b), to_bits-zero b, zeros-append (32 - b) b, n)
      (take-zeros 32 32 (omega arith))
window-ahead (w ∷ ws) zero b h k =
    let p : 32 * 0 + b ≡ b + 0 = omega arith in
    let n : b + (32 - b) ≡ 32 = omega arith in
    let m : (32 - b) + b ≡ 32 = omega arith in
    let hi = to_bits b (w / 2 ^ (32 - b)) in
    let lo = to_bits (32 - b) (w % 2 ^ (32 - b)) in
    let s : to_bits 32 w ≡ hi ++ lo =
      ap (λ (t : ℕ). to_bits t w) (sym n) ∙ to_bits_split b (32 - b) w in
    let past : drop (b + 0) (to_bits 32 w ++ bits_of ws) ≡ lo ++ bits_of ws =
      rw (s, append_assoc)
        (drop_past hi (lo ++ bits_of ws) b 0 (length-to_bits b (w / 2 ^ (32 - b)))) in
    let first : take 32 (lo ++ (bits_of ws ++ zeros 32)) ≡ lo ++ take b (bits_of ws ++ zeros 32) =
      ap (λ (t : ℕ). take t (lo ++ (bits_of ws ++ zeros 32))) (sym m)
      ∙ take_past lo (bits_of ws ++ zeros 32) (32 - b) b
          (length-to_bits (32 - b) (w % 2 ^ (32 - b))) in
    rw (p, past, append_assoc, first, next_part ws b h)
window-ahead (w ∷ ws) (suc i) b h k =
    let e : 32 * suc i + b ≡ 32 + (32 * i + b) = omega arith in
    let s : suc i + 1 ≡ suc (i + 1) = omega arith in
    rw (e, drop_past (to_bits 32 w) (bits_of ws) 32 (32 * i + b) (length-to_bits 32 w), s)
      (window-ahead ws i b h (omega arith))
