-- ===== src/Quic/Family.antt =====
-- `Family` of crates/capsaicin-quic/src/lib.rs: the tables of the Golomb-Rice codes, and the codes.
pub mod Codes
pub mod Unary
pub mod RoundTrip
pub mod Tables
use Prim.Native.Nat.{bit_and, bit_or}
use capsaicin.Base.{ℕ, ◌+◌, ◌-◌, ◌*◌, ◌/◌, ◌%◌, ◌^◌, List, ltb, leb, ◌==◌, if◌then◌else◌}
use capsaicin.Quic.Words.{shl, shr, leading_zeros, bppmask, ceil_log2, get_or, table}

abbrev pub max_num_codes : ℕ
max_num_codes = 8

abbrev pub def_max_clen : ℕ
def_max_clen = 26

pub record Family : Type 0 where
  pub bpc : ℕ
  pub n_gr_codewords : List ℕ
  pub not_gr_cwlen : List ℕ
  pub not_gr_prefixmask : List ℕ
  pub not_gr_suffixlen : List ℕ
  pub xlat_l2u : List ℕ
  pub xlat_u2l : List ℕ

-- The numbers that one round of the loop over `l` computes.
unfoldable pub altprefixlen : ℕ → ℕ → ℕ
unfolding bppmask
altprefixlen bpc l =
    let cap = bppmask (bpc - l) in if ltb cap (def_max_clen - bpc) then cap else def_max_clen - bpc

unfoldable pub altcodewords : ℕ → ℕ → ℕ
unfolding altprefixlen bppmask
altcodewords bpc l = bppmask bpc + 1 - altprefixlen bpc l * 2 ^ l

unfoldable pub suffixlen : ℕ → ℕ → ℕ
unfolding altcodewords ceil_log2
suffixlen bpc l = ceil_log2 (altcodewords bpc l)

-- The entries of the two translation tables.
unfoldable pub u2l_entry : ℕ → ℕ → ℕ
unfolding bppmask
u2l_entry bpc s =
    let mask = bppmask bpc in (if leb s (mask / 2) then s * 2 else (mask - s) * 2 + 1) % 2 ^ 8

unfoldable pub l2u_entry : ℕ → ℕ → ℕ
unfolding bppmask
l2u_entry bpc s = let mask = bppmask bpc in if s % 2 == 0 then s / 2 else mask - s / 2

unfoldable pub init : ℕ → Family
unfolding altprefixlen suffixlen bppmask u2l_entry l2u_entry
init bpc = record {
  bpc = bpc;
  n_gr_codewords = table max_num_codes bpc (λ l. altprefixlen bpc l * 2 ^ l);
  not_gr_cwlen = table max_num_codes bpc (λ l. altprefixlen bpc l + suffixlen bpc l);
  not_gr_prefixmask = table max_num_codes bpc (λ l. bppmask (32 - altprefixlen bpc l));
  not_gr_suffixlen = table max_num_codes bpc (λ l. suffixlen bpc l);
  xlat_l2u = table 256 (bppmask bpc + 1) (l2u_entry bpc);
  xlat_u2l = table 256 (bppmask bpc + 1) (u2l_entry bpc);
}

-- The value of the codeword at the top of `bits`, and the codeword's length. The callers give an `l`
-- below 8.
unfoldable pub golomb_decode : Family → ℕ → ℕ → ℕ × ℕ
unfolding leading_zeros bppmask
golomb_decode f l bits =
    if ltb (get_or f.not_gr_prefixmask l 0) bits
    then (let zeroprefix = leading_zeros 32 bits in
        let cwlen = zeroprefix + 1 + l in
        (bit_or (shl zeroprefix l) (bit_and (shr bits (32 - cwlen)) (bppmask l)), cwlen))
    else (let cwlen = get_or f.not_gr_cwlen l 0 in
        let suffix = bppmask (get_or f.not_gr_suffixlen l 0) in
        (get_or f.n_gr_codewords l 0 + bit_and (shr bits (32 - cwlen)) suffix, cwlen))

-- The codeword of `n`, and its length.
unfoldable pub golomb_encode : Family → ℕ → ℕ → ℕ × ℕ
unfolding bppmask
golomb_encode f n l =
    if ltb n (get_or f.n_gr_codewords l 0)
    then (bit_or (shl 1 l) (bit_and n (bppmask l)), shr n l + l + 1)
    else (n - get_or f.n_gr_codewords l 0, get_or f.not_gr_cwlen l 0)

unfoldable pub family_golomb_code_len : Family → ℕ → ℕ → ℕ
family_golomb_code_len f n l =
    if ltb n (get_or f.n_gr_codewords l 0) then shr n l + l + 1 else get_or f.not_gr_cwlen l 0
