-- ===== src/Proto/Caps/Bits.antt =====
-- The bits of one word, crates/capsaicin-proto/src/caps.rs.
use capsaicin.Base.{
  ℕ, zero, suc, ◌+◌, ◌-◌, ◌*◌, ◌/◌, ◌%◌, ◌^◌, ◌<◌, ◌≡◌, ◌≢◌, ap, true, false, ltb, ==_iff, ◌==◌,
  inl, inr, if◌then◌else◌, arith, Bool-cases,
}
use native.Mathlib.Nat.{one-le-pow, pow-suc, add-div_right, add-mul-div_left, div-div-eq-div-mul}
use capsaicin.Proto.Caps.{bit_set, with_bit}

pow_pos : (n : ℕ) → zero < 2 ^ n
pow_pos n = omega (arith, one-le-pow n 2 (omega arith))

pow_split : (b k : ℕ) → 2 ^ (b + k) ≡ 2 ^ b * 2 ^ k
pow_split zero k = let e : zero + k ≡ k = omega arith in rw e (omega arith)
pow_split (suc b) k =
    let e : suc b + k ≡ suc (b + k) = omega arith in
    rw (e, pow-suc 2 (b + k), pow_split b k, pow-suc 2 b) (grind arith)

-- Above a bit that was clear, setting it changes nothing.
add_above : (w b k : ℕ) → w / 2 ^ b % 2 ≡ 0 → (w + 2 ^ b) / 2 ^ (b + suc k) ≡ w / 2 ^ (b + suc k)
add_above w b k clear =
    let q = w / 2 ^ b in
    let half : (q + 1) / 2 ≡ q / 2 = omega (arith, clear) in
    let p : 2 ^ suc k ≡ 2 * 2 ^ k = omega (arith, pow-suc 2 k) in
    rw (
      pow_split b (suc k),
      ← div-div-eq-div-mul (w + 2 ^ b) (2 ^ b) (2 ^ suc k),
      ← div-div-eq-div-mul w (2 ^ b) (2 ^ suc k),
      add-div_right w (pow_pos b),
      p,
      ← div-div-eq-div-mul (q + 1) 2 (2 ^ k),
      ← div-div-eq-div-mul q 2 (2 ^ k),
      half,
    )

-- Below the bit, a multiple of twice the lower power is added.
add_below : (w c k : ℕ) → (w + 2 ^ (c + suc k)) / 2 ^ c % 2 ≡ w / 2 ^ c % 2
add_below w c k =
    let p : 2 ^ suc k ≡ 2 * 2 ^ k = omega (arith, pow-suc 2 k) in
    rw (pow_split c (suc k), add-mul-div_left w (2 ^ suc k) (pow_pos c), p) (omega arith)

bit_set-add_self : (w b : ℕ) → w / 2 ^ b % 2 ≡ 0 → (w + 2 ^ b) / 2 ^ b % 2 ≡ 1
bit_set-add_self w b clear = rw (add-div_right w (pow_pos b)) (omega (arith, clear))

bit_set-add_other :
    (w b c : ℕ) → b ≢ c → w / 2 ^ b % 2 ≡ 0 → (w + 2 ^ b) / 2 ^ c % 2 ≡ w / 2 ^ c % 2
bit_set-add_other w b c other clear = elim (Bool-cases (ltb b c)) [
  | inl above ↦
      let e : b + suc (c - b - 1) ≡ c = ground arith in
      ap (λ v. v % 2) (rw e at (add_above w b (c - b - 1) clear))
  | inr below ↦
      let e : c + suc (b - c - 1) ≡ b = ground arith in rw e at (add_below w c (b - c - 1))
]

with_bit_held : (w b : ℕ) → bit_set w b ≡ true → with_bit w b ≡ w
unfolding with_bit
with_bit_held w b held = rw held

with_bit_clear : (w b : ℕ) → bit_set w b ≡ false → with_bit w b ≡ w + 2 ^ b
unfolding with_bit
with_bit_clear w b clear = rw clear

bit_set_clear : (w b : ℕ) → bit_set w b ≡ false → w / 2 ^ b % 2 ≡ 0
unfolding bit_set
bit_set_clear w b clear = ground arith

bit_set_at : (w b : ℕ) → w / 2 ^ b % 2 ≡ 1 → bit_set w b ≡ true
unfolding bit_set
bit_set_at w b e = rw e

bit_set_same : (v w c : ℕ) → v / 2 ^ c % 2 ≡ w / 2 ^ c % 2 → bit_set v c ≡ bit_set w c
unfolding bit_set
bit_set_same v w c e = rw e

-- After a bit is set in a word it is set, and every other bit is as it was.
pub bit_set-with_bit :
    (w b c : ℕ) → bit_set (with_bit w b) c ≡ (if b == c then true else bit_set w c)
bit_set-with_bit w b c = elim (Bool-cases (b == c)) [
  | inl here ↦
      let e : b ≡ c = (==_iff b c).0 here in
      elim (Bool-cases (bit_set w b)) [
        | inl held ↦ rw (here, with_bit_held w b held, ← e) held
        | inr clear ↦
            rw (here, with_bit_clear w b clear, ← e)
              (bit_set_at (w + 2 ^ b) b (bit_set-add_self w b (bit_set_clear w b clear)))
      ]
  | inr there ↦ elim (Bool-cases (bit_set w b)) [
    | inl held ↦ rw (there, with_bit_held w b held)
    | inr clear ↦
        rw (there, with_bit_clear w b clear)
          (bit_set_same (w + 2 ^ b) w c
            (bit_set-add_other w b c (ground arith) (bit_set_clear w b clear)))
  ]
]
