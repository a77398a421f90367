-- ===== src/Glz/Decode/Copies.antt =====
-- The copies of a GLZ reference, crates/capsaicin-glz/src/lib.rs, and the pixels that they cover.
use capsaicin.Base.{ℕ, zero, suc, ◌+◌, ◌*◌, ◌≤◌, ◌<◌, ◌≡◌, List, arith, length, set, length-set}
use capsaicin.Base.Ensures.{Ensures, returns, Ensures-bind, Ensures-map}
use capsaicin.Lz.Pass.{bgr}
use capsaicin.Lz.Pass.Paint.{Paints, Paints-refl, Paints-trans, Paints-set_bgr}
use capsaicin.Glz.Window.{WindowEntry}
use capsaicin.Glz.Decode.{copy_pixel, copy_within_pixel, copy_within, copy_across}
use capsaicin.Glz.Decode.Reads.{store_within, index_within}

copy_within_pixel_lem :
    (src op : ℕ) (out : List ℕ)
    → src < op
    → op * 4 + 4 ≤ length out
    → Ensures (Paints bgr op (op + 1) out) (copy_within_pixel (src * 4) (op * 4) out)
unfolding copy_within_pixel
copy_within_pixel_lem src op out h k =
    let (b, eb) = index_within out (src * 4) (omega arith) in
    let out1 : List ℕ = set out (op * 4) b in
    let n1 : length out1 ≡ length out = length-set out (op * 4) b in
    let (g, eg) = index_within out1 (src * 4 + 1) (omega arith) in
    let out2 : List ℕ = set out1 (op * 4 + 1) g in
    let n2 : length out2 ≡ length out1 = length-set out1 (op * 4 + 1) g in
    let (r, er) = index_within out2 (src * 4 + 2) (omega arith) in
    let out3 : List ℕ = set out2 (op * 4 + 2) r in
    let n3 : length out3 ≡ length out2 = length-set out2 (op * 4 + 2) r in
    rw
      (
        eb,
        store_within out (op * 4) b (omega arith),
        eg,
        store_within out1 (op * 4 + 1) g (omega arith),
        er,
        store_within out2 (op * 4 + 2) r (omega arith),
        store_within out3 (op * 4 + 3) 0 (omega arith),
      )
      (returns (Paints-set_bgr out op b g r k))

copy_pixel_lem :
    (pixels : List ℕ) (s op : ℕ) (out : List ℕ)
    → s + 3 ≤ length pixels
    → op * 4 + 4 ≤ length out
    → Ensures (Paints bgr op (op + 1) out) (copy_pixel pixels s (op * 4) out)
unfolding copy_pixel
copy_pixel_lem pixels s op out h k =
    let (b, eb) = index_within pixels s (omega arith) in
    let out1 : List ℕ = set out (op * 4) b in
    let n1 : length out1 ≡ length out = length-set out (op * 4) b in
    let (g, eg) = index_within pixels (s + 1) (omega arith) in
    let out2 : List ℕ = set out1 (op * 4 + 1) g in
    let n2 : length out2 ≡ length out1 = length-set out1 (op * 4 + 1) g in
    let (r, er) = index_within pixels (s + 2) (omega arith) in
    let out3 : List ℕ = set out2 (op * 4 + 2) r in
    let n3 : length out3 ≡ length out2 = length-set out2 (op * 4 + 2) r in
    rw
      (
        eb,
        store_within out (op * 4) b (omega arith),
        eg,
        store_within out1 (op * 4 + 1) g (omega arith),
        er,
        store_within out2 (op * 4 + 2) r (omega arith),
        store_within out3 (op * 4 + 3) 0 (omega arith),
      )
      (returns (Paints-set_bgr out op b g r k))

pub copy_within_lem :
    (len src op : ℕ) (out : List ℕ)
    → src < op
    → (op + len) * 4 ≤ length out
    → Ensures (Paints bgr op (op + len) out) (copy_within len src op out)
unfolding copy_within
copy_within_lem zero src op out h k =
    let e : op + 0 ≡ op = omega arith in rw e (returns (Paints-refl bgr op out))
copy_within_lem (suc len) src op out h k =
    let e : op + suc len ≡ op + 1 + len = omega arith in
    rw e (
      Ensures-bind (copy_within_pixel_lem src op out h (omega arith)) λ out' p.
        Ensures-map (λ out'' q. Paints-trans (omega arith) (omega arith) p q)
          (copy_within_lem len (src + 1) (op + 1) out' (omega arith) (omega (arith, p.size))))

pub copy_across_lem :
    (len : ℕ) (entry : WindowEntry) (src op : ℕ) (out : List ℕ)
    → 3 ≤ entry.bpp
    → src + len * entry.bpp ≤ length entry.pixels
    → (op + len) * 4 ≤ length out
    → Ensures (Paints bgr op (op + len) out) (copy_across len entry src op out)
unfolding copy_across
copy_across_lem zero entry src op out w h k =
    let e : op + 0 ≡ op = omega arith in rw e (returns (Paints-refl bgr op out))
copy_across_lem (suc len) entry src op out w h k =
    let e : op + suc len ≡ op + 1 + len = omega arith in
    rw e (
      Ensures-bind (copy_pixel_lem entry.pixels src op out (omega arith) (omega arith)) λ out' p.
        Ensures-map (λ out'' q. Paints-trans (omega arith) (omega arith) p q)
          (copy_across_lem len entry (src + entry.bpp) (op + 1) out' w (omega arith)
            (omega (arith, p.size))))
