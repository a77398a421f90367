-- ===== src/Glz/Decode/Reads.antt =====
-- What the reads of a GLZ body return.
use capsaicin.Base.{
  ℕ, zero, suc, ◌+◌, ◌-◌, ◌*◌, ◌/◌, ◌%◌, ◌^◌, ◌≤◌, ◌<◌, ◌≡◌, refl, true, List, arith, length, set,
  get_elem?_within, length-set, ltb, leb, ◌==◌, All, IsByte, get_elem?-All,
}
use capsaicin.Base.Outcome.{ok, index}
use capsaicin.Base.Ensures.{
  Ensures, returns, Ensures-bind, Ensures-fail_if, Ensures-map, Ensures-if,
}
use capsaicin.Lz.Pass.{bgr}
use capsaicin.Lz.Pass.Paint.{Paints, Paints-refl, Paints-trans, Paints-set_bgr}
use capsaicin.Glz.{GlzError}
use capsaicin.Glz.Decode.{
  take_byte, store, add_u32, extend_len, read_length, read_dist, read_target, literal_pixel,
  literal_run,
}

pub store_within : (out : List ℕ) (i v : ℕ) → i < length out → store out i v ≡ ok (set out i v)
unfolding store
store_within out i v h = ground arith

pub index_within :
    (out : List ℕ) (i : ℕ) → i < length out → (b : ℕ) × (index {E = GlzError} out i ≡ ok b)
unfolding index
index_within out i h = let (b, e) = get_elem?_within out i h in (b, rw e)

module _ (body : List ℕ) (bytes : All IsByte body) where
  pub take_byte_lem :
      (ip : ℕ)
      → Ensures (λ p. (p.1 ≡ ip + 1) × (ip < length body) × (p.0 < 256)) (take_byte body ip)
  unfolding take_byte index
  take_byte_lem ip = Ensures-fail_if (leb (length body) ip) _ _ λ e.
      let h : ip < length body = ground arith in
      let (b, f) = get_elem?_within body ip h in
      rw f (returns (refl, h, get_elem?-All IsByte body ip b bytes f))

  extend_len_lem :
      (fuel ip len : ℕ)
      → ip ≤ length body
      → length body < ip + fuel
      → len + 255 * (length body - ip) < 2 ^ 32
      → Ensures (λ p. (ip ≤ p.1) × (p.1 ≤ length body)) (extend_len fuel body ip len)
  unfolding extend_len add_u32
  extend_len_lem zero ip len h k m = absurd (omega arith)
  extend_len_lem (suc fuel) ip len h k m = Ensures-bind (take_byte_lem ip) λ (code, next) (e, l, b).
      let fits : ltb (len + code) (2 ^ 32) ≡ true = ground arith in
      rw fits (
        Ensures-if (code == 255) _ _
          (λ more.
            Ensures-map (λ p q. omega arith)
              (extend_len_lem fuel next (len + code) (omega arith) (omega arith) (omega arith)))
          (λ last. returns (omega arith)))

  -- A body of less than 2 ^ 24 bytes cannot make the length overflow.
  pub read_length_lem :
      (ctrl ip : ℕ)
      → ip ≤ length body
      → length body < 2 ^ 24
      → Ensures (λ p. (ip ≤ p.1) × (p.1 ≤ length body)) (read_length body ctrl ip)
  unfolding read_length
  read_length_lem ctrl ip h k =
      Ensures-if (ctrl / 2 ^ 5 == 7) _ _
        (λ long. extend_len_lem (suc (length body)) ip 7 h (omega arith) (omega arith))
        (λ brief. returns (omega arith))

  read_dist_lem :
      (rounds shift ip image_dist : ℕ)
      → ip ≤ length body
      → Ensures (λ p. (ip ≤ p.1) × (p.1 ≤ length body)) (read_dist rounds body shift ip image_dist)
  unfolding read_dist
  read_dist_lem zero shift ip image_dist h = returns (omega arith)
  read_dist_lem (suc rounds) shift ip image_dist h =
      Ensures-bind (take_byte_lem ip) λ (extra, next) (e, l, b).
        Ensures-map (λ p q. omega arith) (read_dist_lem rounds (shift + 8) next _ (omega arith))

  pub read_target_lem :
      (ctrl ip : ℕ)
      → ip ≤ length body
      → Ensures (λ t. (ip ≤ t.next_ip) × (t.next_ip ≤ length body)) (read_target body ctrl ip)
  unfolding read_target
  read_target_lem ctrl ip h = Ensures-bind (take_byte_lem ip) λ (first, ip1) (e1, l1, b1).
      Ensures-bind (take_byte_lem ip1) λ (code, ip2) (e2, l2, b2).
        Ensures-if (ctrl / 2 ^ 4 % 2 == 0) _ _
          (λ near.
            Ensures-bind (read_dist_lem (code / 2 ^ 6 % 4) 6 ip2 (code % 64) (omega arith))
              λ (d, ip3) q. returns (omega arith))
          (λ wide.
            Ensures-bind (read_dist_lem (code / 2 ^ 6 % 4) 0 ip2 0 (omega arith)) λ (d, ip3) q.
              Ensures-if (code / 2 ^ 5 % 2 == 0) _ _ (λ f. returns (omega arith))
                (λ f.
                  Ensures-bind (take_byte_lem ip3) λ (x, ip4) (e4, l4, b4). returns (omega arith)))

  literal_pixel_lem :
      (ip op : ℕ) (out : List ℕ)
      → ip ≤ length body
      → op * 4 + 4 ≤ length out
      → Ensures
          (λ p. (ip ≤ p.0) × (p.0 ≤ length body) × Paints bgr op (op + 1) out p.1)
          (literal_pixel body ip op out)
  unfolding literal_pixel
  literal_pixel_lem ip op out h k = Ensures-bind (take_byte_lem ip) λ (b, ip1) (e1, l1, m1).
      rw (store_within out (op * 4) b (omega arith)) (
        Ensures-bind (take_byte_lem ip1) λ (g, ip2) (e2, l2, m2).
          let out1 : List ℕ = set out (op * 4) b in
          let n1 : length out1 ≡ length out = length-set out (op * 4) b in
          rw (store_within out1 (op * 4 + 1) g (omega arith)) (
            Ensures-bind (take_byte_lem ip2) λ (r, ip3) (e3, l3, m3).
              let out2 : List ℕ = set out1 (op * 4 + 1) g in
              let n2 : length out2 ≡ length out1 = length-set out1 (op * 4 + 1) g in
              let out3 : List ℕ = set out2 (op * 4 + 2) r in
              let n3 : length out3 ≡ length out2 = length-set out2 (op * 4 + 2) r in
              rw
                (
                  store_within out2 (op * 4 + 2) r (omega arith),
                  store_within out3 (op * 4 + 3) 0 (omega arith),
                )
                (returns (omega arith, omega arith, Paints-set_bgr out op b g r k))))

  pub literal_run_lem :
      (count ip op : ℕ) (out : List ℕ)
      → ip ≤ length body
      → (op + count) * 4 ≤ length out
      → Ensures
          (λ p. (ip ≤ p.0) × (p.0 ≤ length body) × Paints bgr op (op + count) out p.1)
          (literal_run count body ip op out)
  unfolding literal_run
  literal_run_lem zero ip op out h k =
      let e : op + 0 ≡ op = omega arith in
      rw e (returns (omega arith, omega arith, Paints-refl bgr op out))
  literal_run_lem (suc count) ip op out h k =
      let e : op + suc count ≡ op + 1 + count = omega arith in
      rw e (
        Ensures-bind (literal_pixel_lem ip op out h (omega arith)) λ (ip1, out1) (a, b, p).
          Ensures-map
            (λ q r. (omega (arith, r.0), r.1, Paints-trans (omega arith) (omega arith) p r.2))
            (literal_run_lem count ip1 (op + 1) out1 b (omega (arith, p.size))))
