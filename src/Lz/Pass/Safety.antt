-- ===== src/Lz/Pass/Safety.antt =====
-- `decompress_pass` of crates/capsaicin-lz/src/lib.rs on every input.
use capsaicin.Base.{
  ℕ, zero, suc, ◌+◌, ◌-◌, ◌*◌, ◌≤◌, ◌<◌, ◌≡◌, ◌||◌, List, arith, length, set, length-set, ltb, leb,
  ◌==◌,
}
use capsaicin.Base.Ensures.{
  Ensures, returns, Ensures-bind, Ensures-fail_if, Ensures-map, Ensures-if,
}
use capsaicin.Lz.{max_copy}
use capsaicin.Lz.Pass.{
  Stage, bgr, alpha, wrap, length_bias, copy_pixel, copy_run, literal_pixel, literal_run,
  back_reference, literal, token, pass_loop, decompress_pass,
}
use capsaicin.Lz.Pass.Paint.{Paints, Paints-refl, Paints-trans, Paints-set_bgr, Paints-set_alpha}
use capsaicin.Lz.Pass.Reads.{
  read_byte_lem, store_within, index_within, read_length_lem, read_distance_lem,
}

copy_pixel_lem :
    (stage : Stage) (src op : ℕ) (out : List ℕ)
    → src < op
    → op * 4 + 4 ≤ length out
    → Ensures (Paints stage op (op + 1) out) (copy_pixel stage src op out)
unfolding copy_pixel
copy_pixel_lem bgr src op out h k =
    let (b, eb) = index_within out (src * 4) (omega arith) in
    let out1 : List ℕ = set out (op * 4) b in
    let n1 : length out1 ≡ length out = length-set out (op * 4) b in
    let (g, eg) = index_within out1 (src * 4 + 1) (omega arith) in
    let out2 : List ℕ = set out1 (op * 4 + 1) g in
    let n2 : length out2 ≡ length out1 = length-set out1 (op * 4 + 1) g in
    let (r, er) = index_within out2 (src * 4 + 2) (omega arith) in
    let out3 : List ℕ = set out2 (op * 4 + 2) r in
    let n3 : length out3 ≡ length out2 = length-set out2 (op * 4 + 2) r in
    rw
      (
        eb,
        store_within out (op * 4) b (omega arith),
        eg,
        store_within out1 (op * 4 + 1) g (omega arith),
        er,
        store_within out2 (op * 4 + 2) r (omega arith),
        store_within out3 (op * 4 + 3) 0 (omega arith),
      )
      (returns (Paints-set_bgr out op b g r k))
copy_pixel_lem alpha src op out h k =
    let (a, e) = index_within out (src * 4 + 3) (omega arith) in
    rw (e, store_within out (op * 4 + 3) a (omega arith)) (returns (Paints-set_alpha out op a))

copy_run_lem :
    (stage : Stage) (len src op : ℕ) (out : List ℕ)
    → src < op
    → (op + len) * 4 ≤ length out
    → Ensures (Paints stage op (op + len) out) (copy_run stage len src op out)
unfolding copy_run
copy_run_lem stage zero src op out h k =
    let e : op + 0 ≡ op = omega arith in rw e (returns (Paints-refl stage op out))
copy_run_lem stage (suc len) src op out h k =
    let e : op + suc len ≡ op + 1 + len = omega arith in
    rw e (
      Ensures-bind (copy_pixel_lem stage src op out h (omega arith)) λ out' p.
        Ensures-map (λ out'' q. Paints-trans (omega arith) (omega arith) p q)
          (copy_run_lem stage len (src + 1) (op + 1) out' (omega arith) (omega (arith, p.size))))

literal_pixel_lem :
    (stage : Stage) (input : List ℕ) (ip op : ℕ) (out : List ℕ)
    → ip ≤ length input
    → op * 4 + 4 ≤ length out
    → Ensures
        (λ p. (ip ≤ p.0) × (p.0 ≤ length input) × Paints stage op (op + 1) out p.1)
        (literal_pixel stage input ip op out)
unfolding literal_pixel
literal_pixel_lem bgr input ip op out h k =
    Ensures-bind (read_byte_lem input ip) λ (b, ip1) (e1, l1).
      rw (store_within out (op * 4) b (omega arith)) (
        Ensures-bind (read_byte_lem input ip1) λ (g, ip2) (e2, l2).
          let out1 : List ℕ = set out (op * 4) b in
          let n1 : length out1 ≡ length out = length-set out (op * 4) b in
          rw (store_within out1 (op * 4 + 1) g (omega arith)) (
            Ensures-bind (read_byte_lem input ip2) λ (r, ip3) (e3, l3).
              let out2 : List ℕ = set out1 (op * 4 + 1) g in
              let n2 : length out2 ≡ length out1 = length-set out1 (op * 4 + 1) g in
              let out3 : List ℕ = set out2 (op * 4 + 2) r in
              let n3 : length out3 ≡ length out2 = length-set out2 (op * 4 + 2) r in
              rw
                (
                  store_within out2 (op * 4 + 2) r (omega arith),
                  store_within out3 (op * 4 + 3) 0 (omega arith),
                )
                (returns (omega arith, omega arith, Paints-set_bgr out op b g r k))))
literal_pixel_lem alpha input ip op out h k =
    Ensures-bind (read_byte_lem input ip) λ (a, ip1) (e1, l1).
      rw (store_within out (op * 4 + 3) a (omega arith))
        (returns (omega arith, omega arith, Paints-set_alpha out op a))

literal_run_lem :
    (stage : Stage) (count : ℕ) (input : List ℕ) (ip op : ℕ) (out : List ℕ)
    → ip ≤ length input
    → (op + count) * 4 ≤ length out
    → Ensures
        (λ p. (ip ≤ p.0) × (p.0 ≤ length input) × Paints stage op (op + count) out p.1)
        (literal_run stage count input ip op out)
unfolding literal_run
literal_run_lem stage zero input ip op out h k =
    let e : op + 0 ≡ op = omega arith in
    rw e (returns (omega arith, omega arith, Paints-refl stage op out))
literal_run_lem stage (suc count) input ip op out h k =
    let e : op + suc count ≡ op + 1 + count = omega arith in
    rw e (
      Ensures-bind (literal_pixel_lem stage input ip op out h (omega arith))
        λ (ip1, out1) (a, b, p).
          Ensures-map
            (λ q r. (omega (arith, r.0), r.1, Paints-trans (omega arith) (omega arith) p r.2))
            (literal_run_lem stage count input ip1 (op + 1) out1 b (omega (arith, p.size))))

-- A round at `ip`, `op` and `out` takes input, and paints the pixels from `op` to its new `op`.
record Advances (stage : Stage) (input : List ℕ) (num_pixels ip op : ℕ) (out : List ℕ)
    (next : ℕ × ℕ × List ℕ) : Type 0 where
  takes : ip ≤ next.0
  within : next.0 ≤ length input
  grows : op ≤ next.1
  bounded : next.1 ≤ num_pixels
  paints : Paints stage op next.1 out next.2

module _ (stage : Stage) (input : List ℕ) (num_pixels : ℕ) where
  back_reference_lem :
      (ctrl ip op : ℕ) (out : List ℕ)
      → ip ≤ length input
      → num_pixels * 4 ≤ length out
      → Ensures
          (Advances stage input num_pixels ip op out)
          (back_reference stage input num_pixels ctrl ip op out)
  unfolding back_reference
  back_reference_lem ctrl ip op out h k =
      Ensures-bind (read_length_lem input ctrl ip h) λ (len, ip1) (a, b).
        Ensures-bind (read_distance_lem input ctrl ip1 b) λ (ofs, ip2) (c, d).
          let len' = wrap (len + length_bias stage) in
          let ofs' = wrap (ofs + 1) in
          Ensures-fail_if (ofs' == 0 || ltb op ofs' || ltb num_pixels (op + len')) _ _ λ valid.
            let v : (0 < ofs') × (ofs' ≤ op) × (op + len' ≤ num_pixels) = ground arith in
            Ensures-bind
              (copy_run_lem stage len' (op - ofs') op out (omega (arith, v)) (omega (arith, v)))
              λ out' p. returns (record {
                takes = omega arith;
                within = omega arith;
                grows = omega arith;
                bounded = v.2;
                paints = p;
              })

  literal_lem :
      (ctrl ip op : ℕ) (out : List ℕ)
      → ip ≤ length input
      → num_pixels * 4 ≤ length out
      → Ensures
          (Advances stage input num_pixels ip op out)
          (literal stage input num_pixels ctrl ip op out)
  unfolding literal
  literal_lem ctrl ip op out h k = Ensures-fail_if (ltb num_pixels (op + (ctrl + 1))) _ _ λ valid.
      let v : op + (ctrl + 1) ≤ num_pixels = ground arith in
      Ensures-bind (literal_run_lem stage (ctrl + 1) input ip op out h (omega arith))
        λ (ip1, out1) (a, b, p).
          returns (record { takes = a; within = b; grows = omega arith; bounded = v; paints = p })

  token_lem :
      (ip op : ℕ) (out : List ℕ)
      → num_pixels * 4 ≤ length out
      → Ensures
          (λ next. (ip < length input) × Advances stage input num_pixels (ip + 1) op out next)
          (token stage input num_pixels ip op out)
  unfolding token
  token_lem ip op out k = Ensures-bind (read_byte_lem input ip) λ (ctrl, ip1) (e, l).
      Ensures-if (leb max_copy ctrl) _ _
        (λ reference.
          Ensures-map (λ q r. (l, rw (← e) r)) (back_reference_lem ctrl ip1 op out (omega arith) k))
        (λ run. Ensures-map (λ q r. (l, rw (← e) r)) (literal_lem ctrl ip1 op out (omega arith) k))

  pass_loop_lem :
      (fuel ip op : ℕ) (out : List ℕ)
      → length input < ip + fuel
      → ip ≤ length input
      → op ≤ num_pixels
      → num_pixels * 4 ≤ length out
      → Ensures
          (λ p. (p.0 ≤ length input) × Paints stage op num_pixels out p.1)
          (pass_loop fuel stage input num_pixels ip op out)
  unfolding pass_loop
  pass_loop_lem zero ip op out f i h k = absurd (omega arith)
  pass_loop_lem (suc fuel) ip op out f i h k =
      Ensures-if (ltb op num_pixels) _ _
        (λ more. Ensures-bind (token_lem ip op out k) λ (ip1, op1, out1) (l, a).
          Ensures-map (λ q r. (r.0, Paints-trans a.grows a.bounded a.paints r.1))
            (pass_loop_lem fuel ip1 op1 out1 (omega (arith, a.takes)) a.within a.bounded
              (omega (arith, a.paints.size))))
        (λ over.
          let e : op ≡ num_pixels = ground arith in
          rw e (returns (i, Paints-refl stage num_pixels out)))

-- On every input, and a buffer with room for the pixels, the pass returns: it neither panics nor
-- runs out of fuel. If it succeeds it has consumed no more bytes than there are, and has painted
-- just the pixels that were asked for.
pub decompress_pass_lem :
    (input : List ℕ) (num_pixels : ℕ) (out : List ℕ) (stage : Stage)
    → num_pixels * 4 ≤ length out
    → Ensures
        (λ p. (p.0 ≤ length input) × Paints stage 0 num_pixels out p.1)
        (decompress_pass input num_pixels out stage)
unfolding decompress_pass
decompress_pass_lem input num_pixels out stage h =
    pass_loop_lem stage input num_pixels (suc (length input)) 0 0 out (omega arith) (omega arith)
      (omega arith) h
