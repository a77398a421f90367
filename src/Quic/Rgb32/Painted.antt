-- ===== src/Quic/Rgb32/Painted.antt =====
-- Rows of BGRA pixels: the decoder's row has the colours of the encoder's, and zeros for alpha, up to
-- a pixel.
use capsaicin.Base.{
  ℕ, zero, suc, ◌+◌, ◌*◌, ◌≤◌, ◌<◌, ◌≡◌, ◌≢◌, ◌∙◌, sym, subst, Option, none, some, List, arith,
  length, set, get_elem?, get_elem?-set_self, get_elem?-set_ne, get_elem?_within, length-set, ltb,
  Bool-cases, inl, inr, ltb→lt, ltb→le,
}
use capsaicin.Quic.Plane.Channel.{Above, no_row, same}

pub record IsRow (width : ℕ) (cur : List ℕ) : Type 0 where
  pub size : length cur ≡ width * 4
  pub bytes : (pos v : ℕ) → get_elem? cur pos ≡ some v → v < 256

pub record Painted (width : ℕ) (cur out : List ℕ) (i : ℕ) : Type 0 where
  pub size : length out ≡ width * 4
  pub colour :
      (k dst : ℕ) → k < i → dst < 3 → get_elem? out (k * 4 + dst) ≡ get_elem? cur (k * 4 + dst)
  pub pad : (k : ℕ) → k < i → get_elem? out (k * 4 + 3) ≡ some 0

-- A byte of a row.
pub row_byte :
    {width : ℕ} {cur : List ℕ}
    → IsRow width cur
    → (k dst : ℕ) → k < width
    → dst < 4
    → (v : ℕ) × (get_elem? cur (k * 4 + dst) ≡ some v) × (v < 256)
row_byte {width} {cur} r k dst h l =
    let (v, e) = get_elem?_within cur (k * 4 + dst) (omega (arith, h, l, r.size)) in
    (v, e, r.bytes (k * 4 + dst) v e)

-- A write at pixel `i` or behind it leaves the pixels before as they are.
pub Painted-set :
    {width : ℕ} {cur out : List ℕ} {i : ℕ} (pos v : ℕ)
    → i * 4 ≤ pos
    → Painted width cur out i
    → Painted width cur (set out pos v) i
Painted-set {out = out} pos v h p = record {
  size = length-set out pos v ∙ p.size;
  colour = λ k dst less small.
      get_elem?-set_ne out pos (k * 4 + dst) v (λ e. absurd (omega (arith, e, h, less, small)))
      ∙ p.colour k dst less small;
  pad = λ k less.
      get_elem?-set_ne out pos (k * 4 + 3) v (λ e. absurd (omega (arith, e, h, less)))
      ∙ p.pad k less;
}

-- The next pixel is painted too.
pub Painted-grow :
    {width : ℕ} {cur out : List ℕ} {i : ℕ}
    → Painted width cur out i
    → ((dst : ℕ) → dst < 3 → get_elem? out (i * 4 + dst) ≡ get_elem? cur (i * 4 + dst))
    → get_elem? out (i * 4 + 3) ≡ some 0
    → Painted width cur out (i + 1)
Painted-grow {cur = cur} {out = out} {i = i} p colour pad = record {
  size = p.size;
  colour = λ k dst less small. (elim (Bool-cases (ltb k i)) [
    | inl t ↦ p.colour k dst (ltb→lt k i t) small
    | inr t ↦
        let e : i ≡ k = omega (arith, less, ltb→le k i t) in
        subst (λ (k : ℕ). get_elem? out (k * 4 + dst) ≡ get_elem? cur (k * 4 + dst)) e
          (colour dst small)
  ]);
  pad = λ k less. (elim (Bool-cases (ltb k i)) [
    | inl t ↦ p.pad k (ltb→lt k i t)
    | inr t ↦
        let e : i ≡ k = omega (arith, less, ltb→le k i t) in
        subst (λ (k : ℕ). get_elem? out (k * 4 + 3) ≡ some 0) e pad
  ]);
}

-- A pixel's four writes, alpha first.
abbrev pub paint : List ℕ → ℕ → ℕ → ℕ → ℕ → List ℕ
paint out i r g b =
    set (set (set (set out (i * 4 + 3) 0) (i * 4 + 2) r) (i * 4 + 1) g) (i * 4 + 0) b

pub paint-Painted :
    {width : ℕ} {cur out : List ℕ} {i : ℕ} (r g b : ℕ)
    → i < width
    → get_elem? cur (i * 4 + 2) ≡ some r
    → get_elem? cur (i * 4 + 1) ≡ some g
    → get_elem? cur (i * 4 + 0) ≡ some b
    → Painted width cur out i
    → Painted width cur (paint out i r g b) (i + 1)
paint-Painted {width} {cur} {out} {i} r g b inside er eg eb p =
    let o1 = set out (i * 4 + 3) 0 in
    let o2 = set o1 (i * 4 + 2) r in
    let o3 = set o2 (i * 4 + 1) g in
    let l1 = length-set out (i * 4 + 3) 0 ∙ p.size in
    let l2 = length-set o1 (i * 4 + 2) r ∙ l1 in
    let l3 = length-set o2 (i * 4 + 1) g ∙ l2 in
    let ne : (x y : ℕ) → x ≢ y → i * 4 + x ≢ i * 4 + y = λ x y h e. h (omega (arith, e)) in
    let all = Painted-set (i * 4 + 0) b (omega arith) (
      Painted-set (i * 4 + 1) g (omega arith)
        (Painted-set (i * 4 + 2) r (omega arith) (Painted-set (i * 4 + 3) 0 (omega arith) p))) in
    let at0 : get_elem? (paint out i r g b) (i * 4 + 0) ≡ some b =
      get_elem?-set_self o3 (i * 4 + 0) b (omega (arith, l3, inside)) in
    let at1 : get_elem? (paint out i r g b) (i * 4 + 1) ≡ some g =
      get_elem?-set_ne o3 (i * 4 + 0) (i * 4 + 1) b (ne 0 1 (λ e. absurd (omega (arith, e))))
      ∙ get_elem?-set_self o2 (i * 4 + 1) g (omega (arith, l2, inside)) in
    let at2 : get_elem? (paint out i r g b) (i * 4 + 2) ≡ some r =
      get_elem?-set_ne o3 (i * 4 + 0) (i * 4 + 2) b (ne 0 2 (λ e. absurd (omega (arith, e))))
      ∙ get_elem?-set_ne o2 (i * 4 + 1) (i * 4 + 2) g (ne 1 2 (λ e. absurd (omega (arith, e))))
      ∙ get_elem?-set_self o1 (i * 4 + 2) r (omega (arith, l1, inside)) in
    let at3 : get_elem? (paint out i r g b) (i * 4 + 3) ≡ some 0 =
      get_elem?-set_ne o3 (i * 4 + 0) (i * 4 + 3) b (ne 0 3 (λ e. absurd (omega (arith, e))))
      ∙ get_elem?-set_ne o2 (i * 4 + 1) (i * 4 + 3) g (ne 1 3 (λ e. absurd (omega (arith, e))))
      ∙ get_elem?-set_ne o1 (i * 4 + 2) (i * 4 + 3) r (ne 2 3 (λ e. absurd (omega (arith, e))))
      ∙ get_elem?-set_self out (i * 4 + 3) 0 (omega (arith, p.size, inside)) in
    Painted-grow all (three (paint out i r g b) at0 at1 at2) at3
  where
    three :
        (o : List ℕ)
        → get_elem? o (i * 4 + 0) ≡ some b
        → get_elem? o (i * 4 + 1) ≡ some g
        → get_elem? o (i * 4 + 2) ≡ some r
        → (dst : ℕ) → dst < 3
        → get_elem? o (i * 4 + dst) ≡ get_elem? cur (i * 4 + dst)
    three o h0 h1 h2 zero small = h0 ∙ sym eb
    three o h0 h1 h2 (suc zero) small = h1 ∙ sym eg
    three o h0 h1 h2 (suc (suc zero)) small = h2 ∙ sym er
    three o h0 h1 h2 (suc (suc (suc d))) small = absurd (omega (arith, small))

-- The row above, on both sides.
pub data RowAbove (width : ℕ) : Option (List ℕ) → Option (List ℕ) → Type 0 where
  top : RowAbove width none none
  below :
      {prev out : List ℕ}
      → IsRow width prev
      → Painted width prev out width
      → RowAbove width (some prev) (some out)

pub RowAbove-Above :
    {width : ℕ} {pe pd : Option (List ℕ)}
    → RowAbove width pe pd
    → (k dst : ℕ) → k < width
    → dst < 3
    → Above pe pd (k * 4 + dst)
RowAbove-Above top k dst h l = no_row
RowAbove-Above (below r p) k dst h l =
    let (v, e, byte) = row_byte r k dst h (omega (arith, l)) in
    same v e (p.colour k dst h l ∙ e) byte
