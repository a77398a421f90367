-- ===== src/Quic/Rgb32/Starts.antt =====
-- Pixels of an RGB32 row and the comparisons that decide where a run starts.
use capsaicin.Base.{
  ℕ, ◌+◌, ◌-◌, ◌*◌, ◌<◌, ◌≡◌, refl, ◌∙◌, sym, subst, Bool, true, false, Option, none, some, List,
  arith, get_elem?, leb, ◌==◌, if◌then◌else◌, Bool-cases, inl, inr, ltb→le,
}
use capsaicin.Base.Outcome.{ok, index}
use capsaicin.Quic.Segment.Walk.{is_last, Starting}
use capsaicin.Quic.Rgb32.{
  Encoding, Decoding, same_bgr, is_run_index, rle_match, encode_steps, decode_steps,
}
use capsaicin.Quic.Family.{init}
use capsaicin.Quic.Rgb32.Painted.{IsRow, Painted, row_byte, RowAbove, top, below}
use capsaicin.Quic.Rgb32.Calls.{sides}

-- The colours of pixel `k`.
pub record Pixel (xs : List ℕ) (k b g r : ℕ) : Type 0 where
  pub at0 : get_elem? xs (k * 4) ≡ some b
  pub at1 : get_elem? xs (k * 4 + 1) ≡ some g
  pub at2 : get_elem? xs (k * 4 + 2) ≡ some r

pub record Colours (xs : List ℕ) (k : ℕ) : Type 0 where
  pub b : ℕ
  pub g : ℕ
  pub r : ℕ
  pub pixel : Pixel xs k b g r

pub row_pixel : {width : ℕ} {cur : List ℕ} → IsRow width cur → (k : ℕ) → k < width → Colours cur k
row_pixel {cur = cur} row k h =
    let (b, eb, _) = row_byte row k 0 h (omega arith) in
    let (g, eg, _) = row_byte row k 1 h (omega arith) in
    let (r, er, _) = row_byte row k 2 h (omega arith) in
    let z : k * 4 + 0 ≡ k * 4 = omega arith in
    record {
      b = b;
      g = g;
      r = r;
      pixel = record { at0 = subst (λ (t : ℕ). get_elem? cur t ≡ some b) z eb; at1 = eg; at2 = er };
    }

pub painted-Pixel :
    {width : ℕ} {cur out : List ℕ} {i : ℕ}
    → Painted width cur out i
    → {b g r : ℕ} (k : ℕ) → k < i
    → Pixel cur k b g r
    → Pixel out k b g r
painted-Pixel {cur = cur} {out = out} p k h x =
    let z : k * 4 + 0 ≡ k * 4 = omega arith in
    record {
      at0 =
          subst (λ (t : ℕ). get_elem? out t ≡ get_elem? cur t) z (p.colour k 0 h (omega arith))
          ∙ x.at0;
      at1 = p.colour k 1 h (omega arith) ∙ x.at1;
      at2 = p.colour k 2 h (omega arith) ∙ x.at2;
    }

-- The comparison of two pixels.
pub same_colours : ℕ → ℕ → ℕ → ℕ → ℕ → ℕ → Bool
same_colours b g r b' g' r' = if b == b' then (if g == g' then r == r' else false) else false

pub same_colours_eq :
    (b g r b' g' r' : ℕ) → same_colours b g r b' g' r' ≡ true → (b ≡ b') × (g ≡ g') × (r ≡ r')
unfolding same_colours
same_colours_eq b g r b' g' r' h = (ground arith, ground arith, ground arith)

pub same_bgr_lem :
    {a c : List ℕ} (i k : ℕ) {b g r b' g' r' : ℕ}
    → Pixel a i b g r
    → Pixel c k b' g' r'
    → same_bgr a i c k ≡ ok (same_colours b g r b' g' r')
unfolding same_bgr same_colours index
same_bgr_lem i k {b} {g} {r} {b'} {g'} {r'} x y = elim (Bool-cases (b == b')) [
  | inl t ↦ elim (Bool-cases (g == g')) [
    | inl u ↦ rw (x.at0, y.at0, t, x.at1, y.at1, u, x.at2, y.at2)
    | inr u ↦ rw (x.at0, y.at0, t, x.at1, y.at1, u)
  ]
  | inr t ↦ rw (x.at0, y.at0, t)
]

-- The decision to start a run, on a row whose two pixels before are `x` and the row above.
module _ {prev cur : List ℕ} (i : ℕ) (run_index : Option ℕ) {b g r b1 g1 r1 b2 g2 r2 b3 g3 r3 : ℕ}
    (x : Pixel prev (i - 1) b g r) (y : Pixel prev i b1 g1 r1) (u : Pixel cur (i - 1) b2 g2 r2)
    (v : Pixel cur (i - 2) b3 g3 r3) where
  abbrev pub decision : Bool
  decision =
      if leb i 2
      then false
      else if is_run_index run_index i
      then false
      else if same_colours b g r b1 g1 r1
      then same_colours b2 g2 r2 b3 g3 r3
      else false

  pub rle_match_lem : rle_match (some prev) cur i run_index ≡ ok decision
  unfolding rle_match
  rle_match_lem =
      let p = same_bgr_lem (i - 1) i x y in
      let q = same_bgr_lem (i - 1) (i - 2) u v in
      elim (Bool-cases (leb i 2)) [
        | inl t ↦ rw t
        | inr t ↦ elim (Bool-cases (is_run_index run_index i)) [
          | inl k ↦ rw (t, k)
          | inr k ↦ elim (Bool-cases (same_colours b g r b1 g1 r1)) [
            | inl m ↦ rw (t, k, p, m, q)
            | inr m ↦ rw (t, k, p, m)
          ]
        ]
      ]

pub is_last_index : (run_index : Option ℕ) (i : ℕ) → is_last run_index i ≡ is_run_index run_index i
unfolding is_last is_run_index
is_last_index none i = refl
is_last_index (some k) i = refl

decision_fresh :
    (low last a b : Bool)
    → (if low then false else if last then false else if a then b else false) ≡ true
    → last ≡ false
decision_fresh true last a b h = cc
decision_fresh false true a b h = cc
decision_fresh false false a b h = refl

rle_match_low :
    (prev cur : List ℕ) (i : ℕ) (run_index : Option ℕ)
    → leb i 2 ≡ true
    → rle_match (some prev) cur i run_index ≡ ok false
unfolding rle_match
rle_match_low prev cur i run_index h = rw h

rle_match_top :
    (cur : List ℕ) (i : ℕ) (run_index : Option ℕ) → rle_match none cur i run_index ≡ ok false
unfolding rle_match
rle_match_top cur i run_index = refl

-- Where a run starts, the two sides agree.
module _ {width : ℕ} {cur : List ℕ} (row : IsRow width cur) where
  pub starts_lem :
      {pe pd : Option (List ℕ)}
      → RowAbove width pe pd
      → (i : ℕ) (run_index : Option ℕ) (bs : List ℕ) (e : Encoding) → i < width
      → Starting
          (sides width cur)
          (encode_steps (init 8) pe cur)
          (decode_steps (init 8) pd)
          i
          run_index
          bs
          e
  unfolding encode_steps decode_steps
  starts_lem top i run_index bs e inside = record {
    starts = false;
    enc_starts = rle_match_top cur i run_index;
    not_last = λ h. cc;
    dec_starts = λ more d v. rle_match_top d.cur_bgra i run_index;
  }
  starts_lem (below {prev} {out} r p) i run_index bs e inside = elim (Bool-cases (leb i 2)) [
    | inl low ↦ record {
      starts = false;
      enc_starts = rle_match_low prev cur i run_index low;
      not_last = λ h. cc;
      dec_starts = λ more d v. rle_match_low out d.cur_bgra i run_index low;
    }
    | inr high ↦
        let x = row_pixel r (i - 1) (omega (arith, inside)) in
        let y = row_pixel r i inside in
        let u = row_pixel row (i - 1) (omega (arith, inside)) in
        let v = row_pixel row (i - 2) (omega (arith, inside)) in
        record {
          starts = decision i run_index x.pixel y.pixel u.pixel v.pixel;
          enc_starts = rle_match_lem i run_index x.pixel y.pixel u.pixel v.pixel;
          not_last = λ h.
              is_last_index run_index i
              ∙ decision_fresh (leb i 2) (is_run_index run_index i)
                  (same_colours x.b x.g x.r y.b y.g y.r) (same_colours u.b u.g u.r v.b v.g v.r) h;
          dec_starts = λ more d t.
              let back = λ (k : ℕ) (less : k < i) (c : Colours cur k).
                subst (λ (d : Decoding). Pixel d.cur_bgra k c.b c.g c.r) (sym t.same)
                  (painted-Pixel t.painted k less c.pixel) in
              let pos = ltb→le i 2 in
              rle_match_lem i run_index (painted-Pixel p (i - 1) (omega (arith, inside)) x.pixel)
                (painted-Pixel p i inside y.pixel) (back (i - 1) (ground arith) u)
                (back (i - 2) (ground arith) v);
        }
  ]
