-- ===== src/Quic/State/Ones.antt =====
-- Runs of ones in a stream: how `write_ones` writes them and how `decode_state_run` counts them.
use capsaicin.Base.{
  ℕ, zero, suc, ◌+◌, ◌-◌, ◌*◌, ◌/◌, ◌%◌, ◌^◌, ◌≤◌, ◌<◌, ◌≡◌, refl, ap, ◌∙◌, sym, subst, inl, inr,
  List, ◌∷◌, ◌++◌, append_assoc, append-nil, arith, length, length-replicate, replicate, ltb,
  ltb→lt, ltb→le, Bool-cases,
}
use capsaicin.Base.Outcome.{ok}
use capsaicin.Base.Powers.{pow_pos, pow_add}
use native.Mathlib.Nat.{pow-suc, add-mul}
use capsaicin.Quic.Words.{shr, leading_zeros, bppmask}
use capsaicin.Quic.Family.Unary.{leading_zeros_at, bppmask_below}
use capsaicin.Quic.Stream.{BitReader, BitWriter, peek32, write, write_31s, write_ones}
use capsaicin.Quic.Stream.Bits.{to_bits, to_bits-fields}
use capsaicin.Quic.Stream.Writes.{Holds, write-Holds}
use capsaicin.Quic.Stream.Reads.{Before, Leads, peek32-Leads}
use capsaicin.Quic.State.Runs.{leading_ones}

unfoldable pub ones : ℕ → List ℕ
ones n = replicate n 1

pub length-ones : (n : ℕ) → length (ones n) ≡ n
unfolding ones
length-ones n = length-replicate n 1

pub ones-append : (n k : ℕ) → ones (n + k) ≡ ones n ++ ones k
unfolding ones
ones-append zero k = let e : 0 + k ≡ k = omega arith in rw e
ones-append (suc n) k =
    let e : suc n + k ≡ suc (n + k) = omega arith in rw e (ap (λ t. 1 ∷ t) (ones-append n k))

pub to_bits-ones : (n : ℕ) → to_bits n (2 ^ n - 1) ≡ ones n
unfolding to_bits ones
to_bits-ones zero = refl
to_bits-ones (suc n) =
    let e : 2 ^ suc n - 1 ≡ 1 * 2 ^ n + (2 ^ n - 1) = omega (arith, pow-suc 2 n, pow_pos n) in
    let one : suc n ≡ 1 + n = omega arith in
    ap (to_bits (suc n)) e
    ∙ ap (λ (t : ℕ). to_bits t (1 * 2 ^ n + (2 ^ n - 1))) one
    ∙ to_bits-fields 1 n 1 (2 ^ n - 1) (omega (arith, pow_pos n))
    ∙ ap (λ t. 1 ∷ t) (to_bits-ones n)

-- A word of `n` ones.
write_word :
    {w : BitWriter} {bs : List ℕ} (n : ℕ)
    → Holds w bs
    → 0 < n
    → n < 32
    → (w' : BitWriter) × (write w (bppmask n) n ≡ ok w') × Holds w' (bs ++ ones n)
write_word n h some small =
    rw (bppmask_below n small, ← to_bits-ones n)
      (write-Holds h (2 ^ n - 1) n (omega (arith, pow_pos n)) some small)

write_31s-Holds :
    (rounds rem : ℕ) {w : BitWriter} {bs : List ℕ}
    → Holds w bs
    → (w' : BitWriter) × (write_31s rounds w rem ≡ ok (w', rem - 31 * rounds))
      × Holds w' (bs ++ ones (31 * rounds))
unfolding write_31s ones
write_31s-Holds zero rem {w} {bs} h =
    let e : rem - 31 * 0 ≡ rem = omega arith in (w, rw e, rw (append-nil bs) h)
write_31s-Holds (suc rounds) rem {w} {bs} h =
    let (w1, e1, h1) = write_word 31 h (omega arith) (omega arith) in
    let (w2, e2, h2) = write_31s-Holds rounds (rem - 31) h1 in
    let n : 31 * suc rounds ≡ 31 + 31 * rounds = omega arith in
    let m : rem - 31 - 31 * rounds ≡ rem - (31 + 31 * rounds) = omega arith in
    (
      w2,
      rw (e1, e2, n, m),
      rw (n, ones-append 31 (31 * rounds), ← append_assoc bs (ones 31) (ones (31 * rounds))) h2,
    )

pub write_ones-Holds :
    (n : ℕ) {w : BitWriter} {bs : List ℕ}
    → Holds w bs
    → (w' : BitWriter) × (write_ones w n ≡ ok w') × Holds w' (bs ++ ones n)
unfolding write_ones
write_ones-Holds n {w} {bs} h =
    let (w1, e1, h1) = write_31s-Holds (n / 31) n h in
    let k = n - 31 * (n / 31) in
    let whole : n ≡ 31 * (n / 31) + k = omega arith in
    elim (Bool-cases (ltb 0 k)) [
      | inl some ↦
          let (w2, e2, h2) = write_word k h1 (ltb→lt 0 k some) (omega arith) in
          (
            w2,
            rw (e1, some, e2),
            subst (λ t. Holds w2 (bs ++ t)) (sym (ap ones whole ∙ ones-append (31 * (n / 31)) k))
                (rw (append_assoc bs (ones (31 * (n / 31))) (ones k)) at h2),
          )
      | inr none ↦
          let e : 31 * (n / 31) ≡ n = omega (arith, ltb→le 0 k none) in
          (w1, rw (e1, none), subst (λ (t : ℕ). Holds w1 (bs ++ ones t)) e h1)
    ]

-- The top byte of 32 bits that begin with `h` ones and a zero.
count_ones :
    (v h : ℕ)
    → h < 8
    → Leads v (2 ^ suc h - 2) (suc h)
    → leading_zeros 8 (255 - shr v 24 % 2 ^ 8) ≡ h
count_ones v h s l =
    let k = 7 - h in
    let top : 2 ^ suc h * 2 ^ k ≡ 2 ^ 8 =
      (let e : suc h + k ≡ 8 = omega (arith, s) in
        sym (pow_add (suc h) k) ∙ ap (λ (t : ℕ). 2 ^ t) e) in
    let low : 2 ^ (32 - suc h) ≡ 2 ^ k * 2 ^ 24 =
      (let e : 32 - suc h ≡ k + 24 = omega (arith, s) in rw e (pow_add k 24)) in
    let c = 2 ^ suc h - 2 in
    let two : 2 ≤ 2 ^ suc h = omega (arith, pow-suc 2 h, pow_pos h) in
    let sum : c * 2 ^ k + 2 * 2 ^ k ≡ 2 ^ 8 =
      (let e : c + 2 ≡ 2 ^ suc h = omega (arith, two) in
        sym (add-mul c 2 (2 ^ k)) ∙ ap (λ (t : ℕ). t * 2 ^ k) e ∙ top) in
    let value : v ≡ c * 2 ^ k * 2 ^ 24 + l.below =
      l.value ∙ ap (λ (t : ℕ). c * t + l.below) low ∙ grind arith in
    leading_zeros_at 8 k _ (omega arith) (omega (arith, value, l.fits, low, sum))
      (omega (arith, value, l.fits, low, sum, pow-suc 2 k))
    ∙ omega (arith, s)

-- The bits ahead begin with `h` ones and a zero.
pub leading_ones_lem :
    {r : BitReader} {ws done : List ℕ} (h : ℕ) (more : List ℕ)
    → h < 8
    → Before r ws done (to_bits (suc h) (2 ^ suc h - 2) ++ more)
    → leading_ones r ≡ h
unfolding leading_ones
leading_ones_lem {r} h more small b = count_ones (peek32 r) h small (
    peek32-Leads (2 ^ suc h - 2) (suc h) more b (omega (arith, small))
      (omega (arith, pow_pos (suc h))))

-- The bits ahead begin with eight ones.
pub leading_ones_all :
    {r : BitReader} {ws done : List ℕ} (more : List ℕ)
    → Before r ws done (ones 8 ++ more)
    → leading_ones r ≡ 8
unfolding leading_ones leading_zeros
leading_ones_all {r} {ws} {done} more b =
    let b' : Before r ws done (to_bits 8 (2 ^ 8 - 1) ++ more) = rw (to_bits-ones 8) b in
    let l = peek32-Leads 255 8 more b' (omega arith) (omega arith) in
    let e : 255 - shr (peek32 r) 24 % 2 ^ 8 ≡ 0 = omega (arith, l.value, l.fits) in rw e

-- The ones and the zero behind them, as one word.
pub ones-zero : (h : ℕ) → to_bits (suc h) (2 ^ suc h - 2) ≡ ones h ++ to_bits 1 0
ones-zero h =
    let e : 2 ^ suc h - 2 ≡ (2 ^ h - 1) * 2 ^ 1 + 0 = omega (arith, pow-suc 2 h, pow_pos h) in
    let n : suc h ≡ h + 1 = omega arith in
    ap (to_bits (suc h)) e
    ∙ ap (λ (t : ℕ). to_bits t ((2 ^ h - 1) * 2 ^ 1 + 0)) n
    ∙ to_bits-fields h 1 (2 ^ h - 1) 0 (omega arith)
    ∙ ap (λ t. t ++ to_bits 1 0) (to_bits-ones h)
