-- ===== src/Quic/Rgb32/Copies.antt =====
-- Runs of equal pixels in an RGB32 row: how long one is, and its copies.
use capsaicin.Base.{
  ℕ, zero, suc, ◌+◌, ◌-◌, ◌*◌, ◌≤◌, ◌<◌, ◌≡◌, ◌≢◌, refl, ◌∙◌, ap, sym, subst, true, false, some,
  List, arith, set, get_elem?, get_elem?-set_ne, get_elem?-set_self, Bool-cases, inl, inr, ltb,
  ltb→le,
}
use capsaicin.Base.Outcome.{ok, index}
use capsaicin.Quic.Model.{store}
use capsaicin.Quic.Model.Invariant.{store_lem}
use capsaicin.Quic.Rgb32.{same_bgr, do_run_copy_rgb32, run_size}
use capsaicin.Quic.Rgb32.Painted.{IsRow, Painted, Painted-set, Painted-grow}
use capsaicin.Quic.Rgb32.Starts.{
  Pixel, row_pixel, painted-Pixel, same_colours, same_colours_eq, same_bgr_lem,
}

-- Pixel `k` has the colours of the pixel before.
abbrev pub IsCopy : List ℕ → ℕ → Type 0
IsCopy cur k = (dst : ℕ) → dst < 3 → get_elem? cur (k * 4 + dst) ≡ get_elem? cur ((k - 1) * 4 + dst)

Pixel-byte :
    {xs : List ℕ} {k b g r : ℕ}
    → Pixel xs k b g r
    → (dst : ℕ) → dst < 3
    → get_elem? xs (k * 4 + dst)
      ≡ (elim dst [ zero ↦ some b | suc d ↦ elim d [ zero ↦ some g | suc d' ↦ some r ] ])
Pixel-byte {xs} {k} {b} x zero h =
    let z : k * 4 + 0 ≡ k * 4 = omega arith in
    subst (λ (t : ℕ). get_elem? xs t ≡ some b) (sym z) x.at0
Pixel-byte x (suc zero) h = x.at1
Pixel-byte x (suc (suc zero)) h = x.at2
Pixel-byte x (suc (suc (suc d))) h = absurd (omega (arith, h))

same_pixels :
    {cur out : List ℕ} {k l b g r : ℕ}
    → Pixel cur k b g r
    → Pixel out l b g r
    → (dst : ℕ) → dst < 3
    → get_elem? cur (k * 4 + dst) ≡ get_elem? out (l * 4 + dst)
same_pixels x y dst h = Pixel-byte x dst h ∙ sym (Pixel-byte y dst h)

-- A counted run.
pub record Run (cur : List ℕ) (left j : ℕ) : Type 0 where
  pub size : ℕ
  pub counted : run_size left cur j ≡ ok size
  pub short : size ≤ left
  pub copies : (k : ℕ) → j ≤ k → k < j + size → IsCopy cur k

run_size_stop :
    (left : ℕ) (cur : List ℕ) (j : ℕ)
    → same_bgr cur j cur (j - 1) ≡ ok false
    → run_size (suc left) cur j ≡ ok 0
unfolding run_size
run_size_stop left cur j h = rw h

run_size_on :
    (left : ℕ) (cur : List ℕ) (j n : ℕ)
    → same_bgr cur j cur (j - 1) ≡ ok true
    → run_size left cur (j + 1) ≡ ok n
    → run_size (suc left) cur j ≡ ok (n + 1)
unfolding run_size
run_size_on left cur j n h e = rw (h, e)

run_size-zero : (cur : List ℕ) (j : ℕ) → run_size zero cur j ≡ ok 0
unfolding run_size
run_size-zero cur j = refl

module _ {width : ℕ} {cur : List ℕ} (row : IsRow width cur) where
  pub run_size_lem : (left j : ℕ) → 0 < j → j + left ≤ width → Run cur left j
  run_size_lem zero j pos fits = record {
    size = 0;
    counted = run_size-zero cur j;
    short = omega arith;
    copies = λ k h l. absurd (omega (arith, h, l));
  }
  run_size_lem (suc left) j pos fits =
      let x = row_pixel row j (omega (arith, fits)) in
      let y = row_pixel row (j - 1) (omega (arith, fits, pos)) in
      let q = same_bgr_lem j (j - 1) x.pixel y.pixel in
      let rest = run_size_lem left (j + 1) (omega arith) (omega (arith, fits)) in
      elim (Bool-cases (same_colours x.b x.g x.r y.b y.g y.r)) [
        | inl t ↦
            let (eb, eg, er) = same_colours_eq x.b x.g x.r y.b y.g y.r t in
            let z : Pixel cur (j - 1) x.b x.g x.r = rw (eb, eg, er) y.pixel in
            record {
              size = rest.size + 1;
              counted = run_size_on left cur j rest.size (q ∙ ap ok t) rest.counted;
              short = omega (arith, rest.short);
              copies = λ k h l. (elim (Bool-cases (ltb j k)) [
                | inl less ↦ rest.copies k (ground arith) (omega (arith, l))
                | inr more ↦
                    let e : j ≡ k = omega (arith, h, ltb→le j k more) in
                    subst (λ (k : ℕ). IsCopy cur k) e (same_pixels x.pixel z)
              ]);
            }
        | inr f ↦ record {
          size = 0;
          counted = run_size_stop left cur j (q ∙ ap ok f);
          short = omega arith;
          copies = λ k h l. absurd (omega (arith, h, l));
        }
      ]

round :
    (i : ℕ) {b g r : ℕ} (out : List ℕ) (n : ℕ) {o1 o2 o3 o4 : List ℕ}
    → get_elem? out ((i - 1) * 4) ≡ some b
    → store out (i * 4) b ≡ ok o1
    → get_elem? o1 ((i - 1) * 4 + 1) ≡ some g
    → store o1 (i * 4 + 1) g ≡ ok o2
    → get_elem? o2 ((i - 1) * 4 + 2) ≡ some r
    → store o2 (i * 4 + 2) r ≡ ok o3
    → store o3 (i * 4 + 3) 0 ≡ ok o4
    → do_run_copy_rgb32 (suc n) out i ≡ do_run_copy_rgb32 n o4 (i + 1)
unfolding do_run_copy_rgb32 index
round i out n eb s1 eg s2 er s3 s4 = rw (eb, s1, eg, s2, er, s3, s4)

-- A copied pixel's four writes, alpha last.
abbrev copied : List ℕ → ℕ → ℕ → ℕ → ℕ → List ℕ
copied out i b g r = set (set (set (set out (i * 4) b) (i * 4 + 1) g) (i * 4 + 2) r) (i * 4 + 3) 0

module _ {width : ℕ} {cur out : List ℕ} {i b g r : ℕ} (inside : i < width) (x : Pixel cur i b g r)
    (p : Painted width cur out i) where
  copied-Painted : Painted width cur (copied out i b g r) (i + 1)
  copied-Painted =
      let o1 = set out (i * 4) b in
      let o2 = set o1 (i * 4 + 1) g in
      let o3 = set o2 (i * 4 + 2) r in
      let p1 = Painted-set (i * 4) b (omega arith) p in
      let p2 = Painted-set (i * 4 + 1) g (omega arith) p1 in
      let p3 = Painted-set (i * 4 + 2) r (omega arith) p2 in
      let p4 = Painted-set (i * 4 + 3) 0 (omega arith) p3 in
      let ne : (k l : ℕ) → k ≢ l → i * 4 + k ≢ i * 4 + l = λ k l h e. h (omega (arith, e)) in
      let no : (l : ℕ) → 0 < l → i * 4 ≢ i * 4 + l = λ l h e. absurd (omega (arith, e, h)) in
      let y : Pixel (copied out i b g r) i b g r = record {
        at0 =
            get_elem?-set_ne o3 (i * 4 + 3) (i * 4) 0 (λ e. absurd (omega (arith, e)))
            ∙ get_elem?-set_ne o2 (i * 4 + 2) (i * 4) r (λ e. absurd (omega (arith, e)))
            ∙ get_elem?-set_ne o1 (i * 4 + 1) (i * 4) g (λ e. absurd (omega (arith, e)))
            ∙ get_elem?-set_self out (i * 4) b (omega (arith, p.size, inside));
        at1 =
            get_elem?-set_ne o3 (i * 4 + 3) (i * 4 + 1) 0 (λ e. absurd (omega (arith, e)))
            ∙ get_elem?-set_ne o2 (i * 4 + 2) (i * 4 + 1) r (λ e. absurd (omega (arith, e)))
            ∙ get_elem?-set_self o1 (i * 4 + 1) g (omega (arith, p1.size, inside));
        at2 =
            get_elem?-set_ne o3 (i * 4 + 3) (i * 4 + 2) 0 (λ e. absurd (omega (arith, e)))
            ∙ get_elem?-set_self o2 (i * 4 + 2) r (omega (arith, p2.size, inside));
      } in
      Painted-grow p4 (λ dst h. same_pixels y x dst h)
        (get_elem?-set_self o3 (i * 4 + 3) 0 (omega (arith, p3.size, inside)))

  -- A round of the copying loop reads the pixel before, which the writes leave as it is.
  copy_round :
      0 < i
      → IsCopy cur i
      → (n : ℕ) → do_run_copy_rgb32 (suc n) out i ≡ do_run_copy_rgb32 n (copied out i b g r) (i + 1)
  copy_round pos c n =
      let before : Pixel cur (i - 1) b g r = record {
        at0 =
            let z : (k : ℕ) → k * 4 + 0 ≡ k * 4 = λ k. omega arith in
            ap (get_elem? cur) (sym (z (i - 1)))
            ∙ sym (c 0 (omega arith))
            ∙ ap (get_elem? cur) (z i)
            ∙ x.at0;
        at1 = sym (c 1 (omega arith)) ∙ x.at1;
        at2 = sym (c 2 (omega arith)) ∙ x.at2;
      } in
      let p1 = Painted-set (i * 4) b (omega arith) p in
      let p2 = Painted-set (i * 4 + 1) g (omega arith) p1 in
      let p3 = Painted-set (i * 4 + 2) r (omega arith) p2 in
      let less : i - 1 < i = omega (arith, pos) in
      round i out n (painted-Pixel p (i - 1) less before).at0
        (store_lem out (i * 4) b (omega (arith, p.size, inside)))
        (painted-Pixel p1 (i - 1) less before).at1
        (store_lem _ (i * 4 + 1) g (omega (arith, p1.size, inside)))
        (painted-Pixel p2 (i - 1) less before).at2
        (store_lem _ (i * 4 + 2) r (omega (arith, p2.size, inside)))
        (store_lem _ (i * 4 + 3) 0 (omega (arith, p3.size, inside)))

copy_none : (out : List ℕ) (j : ℕ) → do_run_copy_rgb32 zero out j ≡ ok out
unfolding do_run_copy_rgb32
copy_none out j = refl

-- The copies of a run.
pub copy_lem :
    {width : ℕ} {cur : List ℕ}
    → IsRow width cur
    → (n j : ℕ) (out : List ℕ) → 0 < j
    → j + n ≤ width
    → ((k : ℕ) → j ≤ k → k < j + n → IsCopy cur k)
    → Painted width cur out j
    → (out' : List ℕ) × (do_run_copy_rgb32 n out j ≡ ok out') × Painted width cur out' (j + n)
copy_lem row zero j out pos fits c p =
    let e : j + 0 ≡ j = omega arith in (out, copy_none out j, rw e p)
copy_lem {width} {cur} row (suc n) j out pos fits c p =
    let x = row_pixel row j (omega (arith, fits)) in
    let inside : j < width = omega (arith, fits) in
    let (out', e, q) =
      copy_lem row n (j + 1) (copied out j x.b x.g x.r) (omega arith) (omega (arith, fits))
        (λ k h l. c k (omega (arith, h)) (omega (arith, l))) (copied-Painted inside x.pixel p) in
    let sum : j + 1 + n ≡ j + suc n = omega arith in
    (
      out',
      copy_round inside x.pixel p pos (c j (omega arith) (omega arith)) n ∙ e,
      subst (λ (k : ℕ). Painted width cur out' k) sum q,
    )
