-- ===== src/Lz/Pass/Reads.antt =====
-- The reads of `decompress_pass`, crates/capsaicin-lz/src/lib.rs, and the accesses of its buffer.
use capsaicin.Base.{
  ℕ, zero, suc, ◌+◌, ◌-◌, ◌*◌, ◌/◌, ◌%◌, ◌^◌, ◌≤◌, ◌<◌, ◌≡◌, refl, ◌&&◌, List, arith, length, set,
  get_elem?_within, leb, ◌==◌,
}
use capsaicin.Base.Outcome.{ok, index}
use capsaicin.Base.Ensures.{
  Ensures, returns, Ensures-bind, Ensures-fail_if, Ensures-map, Ensures-if,
}
use capsaicin.Lz.{LzError}
use capsaicin.Lz.Pass.{wrap, read_byte, store, extend_len, read_length, read_distance}

pub read_byte_lem :
    (input : List ℕ) (ip : ℕ)
    → Ensures (λ p. (p.1 ≡ ip + 1) × (ip < length input)) (read_byte input ip)
unfolding read_byte index
read_byte_lem input ip = Ensures-fail_if (leb (length input) ip) _ _ λ e.
    let h : ip < length input = ground arith in
    let (b, f) = get_elem?_within input ip h in rw (f, index) (returns (refl, h))

pub store_within : (out : List ℕ) (i v : ℕ) → i < length out → store out i v ≡ ok (set out i v)
unfolding store
store_within out i v h = ground arith

pub index_within :
    (out : List ℕ) (i : ℕ) → i < length out → (b : ℕ) × (index {E = LzError} out i ≡ ok b)
unfolding index
index_within out i h = let (b, e) = get_elem?_within out i h in (b, rw e)

pub extend_len_lem :
    (fuel : ℕ) (input : List ℕ) (ip len : ℕ)
    → ip ≤ length input
    → length input < ip + fuel
    → Ensures (λ p. (ip ≤ p.1) × (p.1 ≤ length input)) (extend_len fuel input ip len)
unfolding extend_len
extend_len_lem zero input ip len h k = absurd (omega arith)
extend_len_lem (suc fuel) input ip len h k =
    Ensures-bind (read_byte_lem input ip) λ (code, next) (e, l).
      Ensures-if (code == 255) _ _
        (λ more.
          Ensures-map (λ p q. omega arith)
            (extend_len_lem fuel input next (wrap (len + code)) (omega arith) (omega arith)))
        (λ last. returns (omega arith))

pub read_length_lem :
    (input : List ℕ) (ctrl ip : ℕ)
    → ip ≤ length input
    → Ensures (λ p. (ip ≤ p.1) × (p.1 ≤ length input)) (read_length input ctrl ip)
unfolding read_length
read_length_lem input ctrl ip h =
    Ensures-if (wrap (ctrl / 2 ^ 5 + 2 ^ 32 - 1) == 6) _ _
      (λ long. extend_len_lem (suc (length input)) input ip _ h (omega arith))
      (λ brief. returns (omega arith))

pub read_distance_lem :
    (input : List ℕ) (ctrl ip : ℕ)
    → ip ≤ length input
    → Ensures (λ p. (ip ≤ p.1) × (p.1 ≤ length input)) (read_distance input ctrl ip)
unfolding read_distance
read_distance_lem input ctrl ip h = Ensures-bind (read_byte_lem input ip) λ (code, near) (e, l).
    Ensures-if (code == 255 && wrap (ctrl % 32 * 2 ^ 8 + code) - code == 31 * 2 ^ 8) _ _
      (λ far. Ensures-bind (read_byte_lem input near) λ (hi, ip2) (e2, l2).
        Ensures-bind (read_byte_lem input ip2) λ (lo, ip3) (e3, l3). returns (omega arith))
      (λ short_form. returns (omega arith))
