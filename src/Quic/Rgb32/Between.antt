-- ===== src/Quic/Rgb32/Between.antt =====
-- What is done between two rows of an RGB32 image, and the spans of the rows in the buffer.
use capsaicin.Base.{ℕ, zero, suc, ◌+◌, ◌*◌, ◌≤◌, ◌<◌, ◌≡◌, refl, List, [], ◌∷◌, arith, length, drop}
use capsaicin.Base.Outcome.{ok, index}
use capsaicin.Quic.Model.{ChannelDecoder}
use capsaicin.Quic.Model.Invariant.{IsModel, residual_at, next_row-IsModel}
use capsaicin.Quic.Rgb32.{Channels}
use capsaicin.Quic.Rgb32.Image.{next_row, next_rows}
use capsaicin.Quic.Rgb32.Calls.{AreModels}

drop-empty {ℓ} : {A : Type ℓ} (n : ℕ) → drop {A = A} n [] ≡ []
drop-empty zero = refl
drop-empty (suc n) = refl

pub drop-drop {ℓ} : {A : Type ℓ} (m n : ℕ) (xs : List A) → drop n (drop m xs) ≡ drop (m + n) xs
drop-drop zero n xs = let e : 0 + n ≡ n = omega arith in rw e refl
drop-drop (suc m) n [] = let e : suc m + n ≡ suc (m + n) = omega arith in rw e (drop-empty n)
drop-drop (suc m) n (x ∷ xs) =
    let e : suc m + n ≡ suc (m + n) = omega arith in rw e (drop-drop m n xs)

pub drop_whole {ℓ} : {A : Type ℓ} (xs : List A) (n : ℕ) → length xs ≡ n → drop n xs ≡ []
drop_whole [] n h = drop-empty n
drop_whole (x ∷ xs) zero h = absurd (omega (arith, h))
drop_whole (x ∷ xs) (suc n) h = drop_whole xs n (omega (arith, h))

pub row_span : (n m : ℕ) → (n + 1) * m ≡ n * m + m
row_span n m = omega arith

pub row_within : (n k m : ℕ) → n * m + m ≤ (n + 1 + k) * m
row_within n k m = omega arith

next_row_lem :
    {width : ℕ} {c : ChannelDecoder}
    → 0 < width
    → IsModel width c
    → (c' : ChannelDecoder) × (next_row c ≡ ok c') × IsModel width c'
unfolding next_row index
next_row_lem {c = c} wide m =
    let (v, e, h) = residual_at m 0 wide in
    (record c { prev_minus1 = v }, rw e, next_row-IsModel v h m)

pub next_rows_lem :
    {width : ℕ} {cs : Channels}
    → 0 < width
    → AreModels width cs
    → (cs' : Channels) × (next_rows cs ≡ ok cs') × AreModels width cs'
unfolding next_rows
next_rows_lem {cs = cs} wide m =
    let (r, qr, mr) = next_row_lem wide m.r in
    let (g, qg, mg) = next_row_lem wide m.g in
    let (b, qb, mb) = next_row_lem wide m.b in
    (
      record { chan_r = r; chan_g = g; chan_b = b },
      rw (qr, qg, qb),
      record { r = mr; g = mg; b = mb },
    )
