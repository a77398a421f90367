-- ===== src/Quic/Rgb32/Alpha.antt =====
-- The decoder's picture: the colours of the encoder's, and zeros for alpha.
use capsaicin.Base.{
  ℕ, zero, suc, ◌+◌, ◌*◌, ◌<◌, ◌≡◌, refl, ap, sym, subst, some, List, [], ◌∷◌, ◌++◌, arith, length,
  get_elem?,
}
use capsaicin.Quic.Rgb32.Painted.{Painted}

-- BGRA pixels with zeros for alpha.
unfoldable pub erase_alpha : List ℕ → List ℕ
erase_alpha (b ∷ g ∷ r ∷ a ∷ pixels) = b ∷ g ∷ r ∷ 0 ∷ erase_alpha pixels
erase_alpha pixels = []

pub erase_alpha-append :
    (n : ℕ) (xs ys : List ℕ)
    → length xs ≡ n * 4
    → erase_alpha (xs ++ ys) ≡ erase_alpha xs ++ erase_alpha ys
unfolding erase_alpha
erase_alpha-append n [] ys h = refl
erase_alpha-append (suc n) (b ∷ g ∷ r ∷ a ∷ xs) ys h =
    ap (λ t. b ∷ g ∷ r ∷ 0 ∷ t) (erase_alpha-append n xs ys (omega (arith, h)))
erase_alpha-append zero (b ∷ xs) ys h = absurd (omega (arith, h))
erase_alpha-append (suc n) (b ∷ []) ys h = absurd (omega (arith, h))
erase_alpha-append (suc n) (b ∷ g ∷ []) ys h = absurd (omega (arith, h))
erase_alpha-append (suc n) (b ∷ g ∷ r ∷ []) ys h = absurd (omega (arith, h))

some_eq : {x y : ℕ} → some x ≡ some y → x ≡ y
some_eq h = cc

module _ {b g r a b' g' r' a' : ℕ} {cur out : List ℕ} {width : ℕ}
    (p : Painted (suc width) (b ∷ g ∷ r ∷ a ∷ cur) (b' ∷ g' ∷ r' ∷ a' ∷ out) (suc width)) where
  Painted_tail : Painted width cur out width
  Painted_tail = record {
    size = omega (arith, p.size);
    colour = λ k dst h l.
        let e : suc k * 4 + dst ≡ suc (suc (suc (suc (k * 4 + dst)))) = omega arith in
        subst (λ (t : ℕ). get_elem? (b' ∷ g' ∷ r' ∷ a' ∷ out) t ≡ get_elem? (b ∷ g ∷ r ∷ a ∷ cur) t)
          e (p.colour (suc k) dst (omega (arith, h)) l);
    pad = λ k h.
        let e : suc k * 4 + 3 ≡ suc (suc (suc (suc (k * 4 + 3)))) = omega arith in
        subst (λ (t : ℕ). get_elem? (b' ∷ g' ∷ r' ∷ a' ∷ out) t ≡ some 0) e
          (p.pad (suc k) (omega (arith, h)));
  }

-- A whole row.
pub Painted-erase_alpha :
    (width : ℕ) (cur out : List ℕ)
    → length cur ≡ width * 4
    → Painted width cur out width
    → out ≡ erase_alpha cur
unfolding erase_alpha
Painted-erase_alpha zero [] [] h p = refl
Painted-erase_alpha zero [] (x ∷ out) h p = absurd (omega (arith, p.size))
Painted-erase_alpha zero (x ∷ cur) out h p = absurd (omega (arith, h))
Painted-erase_alpha (suc w) (b ∷ g ∷ r ∷ a ∷ cur) (b' ∷ g' ∷ r' ∷ a' ∷ out) h p =
    let e0 : b' ≡ b = some_eq (p.colour 0 0 (omega arith) (omega arith)) in
    let e1 : g' ≡ g = some_eq (p.colour 0 1 (omega arith) (omega arith)) in
    let e2 : r' ≡ r = some_eq (p.colour 0 2 (omega arith) (omega arith)) in
    let e3 : a' ≡ 0 = some_eq (p.pad 0 (omega arith)) in
    let rest = Painted-erase_alpha w cur out (omega (arith, h)) (Painted_tail p) in
    rw (e0, e1, e2, e3, rest) refl
Painted-erase_alpha (suc w) [] out h p = absurd (omega (arith, h))
Painted-erase_alpha (suc w) (b ∷ []) out h p = absurd (omega (arith, h))
Painted-erase_alpha (suc w) (b ∷ g ∷ []) out h p = absurd (omega (arith, h))
Painted-erase_alpha (suc w) (b ∷ g ∷ r ∷ []) out h p = absurd (omega (arith, h))
Painted-erase_alpha (suc w) (b ∷ g ∷ r ∷ a ∷ cur) [] h p = absurd (omega (arith, p.size))
Painted-erase_alpha (suc w) (b ∷ g ∷ r ∷ a ∷ cur) (x ∷ []) h p = absurd (omega (arith, p.size))
Painted-erase_alpha (suc w) (b ∷ g ∷ r ∷ a ∷ cur) (x ∷ y ∷ []) h p = absurd (omega (arith, p.size))
Painted-erase_alpha (suc w) (b ∷ g ∷ r ∷ a ∷ cur) (x ∷ y ∷ z ∷ []) h p =
    absurd (omega (arith, p.size))

-- The row with its alpha erased is painted with the row's colours.
module _ (b g r a : ℕ) {cur : List ℕ} {width : ℕ}
    (p : Painted width cur (erase_alpha cur) width) where
  colour_next :
      (k dst : ℕ)
      → k < suc width
      → dst < 3
      → get_elem? (b ∷ g ∷ r ∷ 0 ∷ erase_alpha cur) (k * 4 + dst)
        ≡ get_elem? (b ∷ g ∷ r ∷ a ∷ cur) (k * 4 + dst)
  colour_next zero zero h l = refl
  colour_next zero (suc zero) h l = refl
  colour_next zero (suc (suc zero)) h l = refl
  colour_next zero (suc (suc (suc d))) h l = absurd (omega (arith, l))
  colour_next (suc k) dst h l =
      let e : suc k * 4 + dst ≡ suc (suc (suc (suc (k * 4 + dst)))) = omega arith in
      subst
        (λ (t : ℕ).
          get_elem? (b ∷ g ∷ r ∷ 0 ∷ erase_alpha cur) t ≡ get_elem? (b ∷ g ∷ r ∷ a ∷ cur) t)
        (sym e) (p.colour k dst (omega (arith, h)) l)

  pad_next :
      (k : ℕ) → k < suc width → get_elem? (b ∷ g ∷ r ∷ 0 ∷ erase_alpha cur) (k * 4 + 3) ≡ some 0
  pad_next zero h = refl
  pad_next (suc k) h =
      let e : suc k * 4 + 3 ≡ suc (suc (suc (suc (k * 4 + 3)))) = omega arith in
      subst (λ (t : ℕ). get_elem? (b ∷ g ∷ r ∷ 0 ∷ erase_alpha cur) t ≡ some 0) (sym e)
        (p.pad k (omega (arith, h)))

pub erase_alpha-Painted :
    (width : ℕ) (cur : List ℕ) → length cur ≡ width * 4 → Painted width cur (erase_alpha cur) width
unfolding erase_alpha
erase_alpha-Painted zero [] h = record {
  size = refl;
  colour = λ k dst h l. absurd (omega (arith, h));
  pad = λ k h. absurd (omega (arith, h));
}
erase_alpha-Painted zero (x ∷ cur) h = absurd (omega (arith, h))
erase_alpha-Painted (suc w) (b ∷ g ∷ r ∷ a ∷ cur) h =
    let p = erase_alpha-Painted w cur (omega (arith, h)) in
    record {
      size = omega (arith, p.size);
      colour = λ k dst l m. colour_next b g r a p k dst l m;
      pad = λ k l. pad_next b g r a p k l;
    }
erase_alpha-Painted (suc w) [] h = absurd (omega (arith, h))
erase_alpha-Painted (suc w) (b ∷ []) h = absurd (omega (arith, h))
erase_alpha-Painted (suc w) (b ∷ g ∷ []) h = absurd (omega (arith, h))
erase_alpha-Painted (suc w) (b ∷ g ∷ r ∷ []) h = absurd (omega (arith, h))
