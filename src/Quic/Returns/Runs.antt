-- ===== src/Quic/Returns/Runs.antt =====
-- `decode_state_run` returns on every stream, and keeps the wait count and the wait mask's index.
use capsaicin.Base.{
  ℕ, zero, suc, ◌+◌, ◌-◌, ◌*◌, ◌%◌, ◌^◌, ◌≤◌, ◌<◌, ◌≡◌, refl, ◌∙◌, ap, arith, length, ltb, leb,
  ◌==◌, ltb→le,
}
use capsaicin.Base.Settles.{
  Settles, fails, gives, panics, Anything, Settles-bind, Settles-if, Settles-map, Settles-fail_if,
  Halts-bind, Halts-ok, Halts-if,
}
use capsaicin.Quic.Words.{add_u32}
use capsaicin.Quic.Stream.{BitReader, eat}
use capsaicin.Quic.State.{CommonState, climb, descend}
use capsaicin.Quic.State.Runs.{count_hits, leading_ones, take_hits, take_rest, decode_state_run}
use capsaicin.Quic.State.Melc.{Same, climb-Same, descend-Same}
use capsaicin.Quic.Rgb32.{Decoding, decode_run}
use capsaicin.Quic.Returns.{eat-Settles}
use capsaicin.Quic.Returns.Pixels.{do_run_copy_rgb32-Sized}

-- How far the reader may go.
abbrev limit : BitReader → ℕ
limit r = (length r.bytes - r.body_start) * 8 + 32

eat_lem :
    (r : BitReader) (len : ℕ)
    → Settles
        (λ r'. (r' ≡ record r { bit_pos = r.bit_pos + len }) × (r.bit_pos + len ≤ limit r))
        (eat r len)
unfolding eat
eat_lem r len =
    Settles-if (leb len 32) _ _
      (λ small.
        Settles-if (ltb (limit r) (r.bit_pos + len)) _ _ (λ far. fails)
          (λ near. gives (refl, ltb→le (limit r) (r.bit_pos + len) near)))
      (λ large. panics)

count_hits-Same : (n runlen : ℕ) (s : CommonState) → Same (count_hits n runlen s).1 s
unfolding count_hits
count_hits-Same zero runlen s = (refl, refl)
count_hits-Same (suc n) runlen s =
    let a = count_hits-Same n ((runlen + s.melcorder) % 2 ^ 32) (climb s) in
    let b = climb-Same s in (a.0 ∙ b.0, a.1 ∙ b.1)

Same-trans : (s t u : CommonState) → Same s t → Same t u → Same s u
Same-trans s t u a b = (a.0 ∙ b.0, a.1 ∙ b.1)

take_hits-Settles :
    (fuel : ℕ) (r : BitReader) (s : CommonState) (runlen : ℕ)
    → 0 < fuel
    → limit r < 8 * fuel + r.bit_pos
    → Settles (λ t. Same t.1 s) (take_hits fuel r s runlen)
unfolding take_hits
take_hits-Settles zero r s runlen some_fuel enough = absurd (omega arith)
take_hits-Settles (suc fuel) r s runlen some_fuel enough =
    let temp = leading_ones r in
    let counted = count_hits-Same temp runlen s in
    let s' = (count_hits temp runlen s).1 in
    Settles-if (temp == 8) _ _
      (λ all. Settles-bind (eat_lem r 8) (λ r' p.
        let same = ap limit p.0 in
        let pos : r'.bit_pos ≡ r.bit_pos + 8 = ap (λ (x : BitReader). x.bit_pos) p.0 in
        Settles-map (λ t q. Same-trans t.1 s' s q counted)
          (take_hits-Settles fuel r' s' (count_hits temp runlen s).0 (omega (arith, enough, p.1))
            (omega (arith, same, pos, enough, p.1)))))
      (λ some_zero. Settles-bind (eat_lem r (temp + 1)) (λ r' p. gives counted))

take_rest-Settles : (r : BitReader) (s : CommonState) (n : ℕ) → Settles Anything (take_rest r s n)
unfolding take_rest
take_rest-Settles r s n =
    Halts-if _ (Halts-ok _) (Halts-bind (eat-Settles r s.melclen) (λ r'. Halts-ok _))

pub decode_state_run-Settles :
    (r : BitReader) (s : CommonState) → Settles (λ t. Same t.1 s) (decode_state_run r s)
unfolding decode_state_run
decode_state_run-Settles r s =
    Settles-bind (take_hits-Settles (length r.bytes + 6) r s 0 (omega arith) (omega arith))
      (λ t same.
        Settles-bind (take_rest-Settles t.0 t.1 t.2)
          (λ u p. gives (Same-trans (descend t.1) t.1 s (descend-Same t.1) same)))

pub add_u32-Settles : (a b : ℕ) → Settles (λ n. n ≡ a + b) (add_u32 a b)
unfolding add_u32
add_u32-Settles a b = Settles-if (ltb (a + b) (2 ^ 32)) _ _ (λ small. gives refl) (λ large. panics)

-- A run of the RGB32 decoder ends within its segment, and keeps the row's length.
pub decode_run-Settles :
    {n : ℕ} (s : CommonState) (d : Decoding) (j end : ℕ)
    → length d.cur_bgra ≡ n
    → Settles
        (λ t. (length t.1.cur_bgra ≡ n) × (j ≤ t.2) × (t.2 ≤ end) × (t.0.wmidx ≡ s.wmidx))
        (decode_run s d j end)
unfolding decode_run
decode_run-Settles s d j end h = Settles-bind (decode_state_run-Settles d.reader s) (λ t same.
    Settles-bind (add_u32-Settles j t.2) (λ run_end e.
      Settles-fail_if (ltb end run_end) _ _ (λ inside.
        Settles-bind (do_run_copy_rgb32-Sized (run_end - j) d.cur_bgra j h)
          (λ cur p. gives (p, omega (arith, e), ltb→le end run_end inside, same.1)))))
