-- ===== src/Lz/Pass/Paint.antt =====
-- What writing pixels changes in the output buffer.
use capsaicin.Base.{
  ℕ, ◌+◌, ◌*◌, ◌≤◌, ◌<◌, ◌≡◌, refl, ◌∙◌, ◌⊎◌, inl, inr, List, some, arith, length, set, get_elem?,
  length-set, get_elem?-set_self, get_elem?-set_ne,
}
use native.Mathlib.Decide.{dec_lt}
use capsaicin.Lz.Pass.{Stage, bgr, alpha}

-- From `out` to `out'` only the pixels from `lo` up to `hi` have changed: no other byte has, the alpha
-- stage touches no colour byte, and the colour stage leaves each of their alpha bytes at 0.
pub record Paints (stage : Stage) (lo hi : ℕ) (out out' : List ℕ) : Type 0 where
  pub size : length out' ≡ length out
  pub before : (j : ℕ) → j < lo * 4 → get_elem? out' j ≡ get_elem? out j
  pub behind : (j : ℕ) → hi * 4 ≤ j → get_elem? out' j ≡ get_elem? out j
  pub colours :
      stage ≡ alpha → (i c : ℕ) → c < 3 → get_elem? out' (i * 4 + c) ≡ get_elem? out (i * 4 + c)
  pub blank : stage ≡ bgr → (i : ℕ) → lo ≤ i → i < hi → get_elem? out' (i * 4 + 3) ≡ some 0

pub Paints-refl : (stage : Stage) (op : ℕ) (out : List ℕ) → Paints stage op op out out
Paints-refl stage op out = record {
  size = refl;
  before = λ j h. refl;
  behind = λ j h. refl;
  colours = λ e i c h. refl;
  blank = λ e i h k. absurd (omega arith);
}

pub Paints-trans :
    {stage : Stage} {lo mid hi : ℕ} {a b c : List ℕ}
    → lo ≤ mid
    → mid ≤ hi
    → Paints stage lo mid a b
    → Paints stage mid hi b c
    → Paints stage lo hi a c
Paints-trans {mid = mid} h k p q = record {
  size = q.size ∙ p.size;
  before = λ j l. q.before j (omega arith) ∙ p.before j l;
  behind = λ j l. q.behind j l ∙ p.behind j (omega arith);
  colours = λ e i n l. q.colours e i n l ∙ p.colours e i n l;
  blank = λ e i l m. elim (dec_lt i mid) [
    | yes below ↦ q.before (i * 4 + 3) (omega arith) ∙ p.blank e i l below
    | no above ↦ q.blank e i (omega arith) m
  ];
}

-- The four writes of a colour pixel.
abbrev pub set_bgr : List ℕ → ℕ → ℕ → ℕ → ℕ → List ℕ
set_bgr out op b g r =
    set (set (set (set out (op * 4) b) (op * 4 + 1) g) (op * 4 + 2) r) (op * 4 + 3) 0

length-set_bgr : (out : List ℕ) (op b g r : ℕ) → length (set_bgr out op b g r) ≡ length out
length-set_bgr out op b g r = simp length-set

set_bgr_ne :
    (out : List ℕ) (op b g r j : ℕ)
    → (j < op * 4) ⊎ (op * 4 + 4 ≤ j)
    → get_elem? (set_bgr out op b g r) j ≡ get_elem? out j
set_bgr_ne out op b g r j h =
    get_elem?-set_ne _ (op * 4 + 3) j 0 (omega arith)
    ∙ get_elem?-set_ne _ (op * 4 + 2) j r (omega arith)
    ∙ get_elem?-set_ne _ (op * 4 + 1) j g (omega arith)
    ∙ get_elem?-set_ne out (op * 4) j b (omega arith)

pub Paints-set_bgr :
    (out : List ℕ) (op b g r : ℕ)
    → op * 4 + 4 ≤ length out
    → Paints bgr op (op + 1) out (set_bgr out op b g r)
Paints-set_bgr out op b g r h = record {
  size = length-set_bgr out op b g r;
  before = λ j k. set_bgr_ne out op b g r j (inl k);
  behind = λ j k. set_bgr_ne out op b g r j (inr (omega arith));
  colours = λ e i c k. cc;
  blank = λ e i k l.
      let same : i ≡ op = omega arith in
      rw same (get_elem?-set_self _ (op * 4 + 3) 0 (simp length-set (omega arith)));
}

pub Paints-set_alpha :
    (out : List ℕ) (op a : ℕ) → Paints alpha op (op + 1) out (set out (op * 4 + 3) a)
Paints-set_alpha out op a = record {
  size = length-set out (op * 4 + 3) a;
  before = λ j k. get_elem?-set_ne out _ j a (omega arith);
  behind = λ j k. get_elem?-set_ne out _ j a (omega arith);
  colours = λ e i c k. get_elem?-set_ne out _ _ a (omega arith);
  blank = λ e i k l. cc;
}
