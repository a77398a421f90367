-- ===== src/Proto/Link/Safety.antt =====
-- What the decoders of crates/capsaicin-proto/src/link.rs do on bytes of any peer.
use capsaicin.Base.{
  ℕ, ◌+◌, ◌-◌, ◌*◌, ◌≤◌, true, ◌≡◌, refl, not, List, ltb, ltb→le, ◌==◌, arith, length, length-take,
  length-drop, drop, le_uint_lem, slice_within, get_elem?_within,
}
use capsaicin.Base.Outcome.{slice, index, to_array}
use capsaicin.Base.Ensures.{Ensures, returns, Ensures-bind, Ensures-map, Ensures-fail_if}
use capsaicin.Proto.Error.{ProtoError}
use capsaicin.Proto.Enums.{spice_magic, spice_version_major, max_caps_entries}
use capsaicin.Proto.Enums.Tags.{
  channel_type_from_u8_lem, link_error_from_u32_lem, bounded_count_lem,
}
use capsaicin.Proto.Link.{
  decode_link_header, decode_link_mess, decode_link_reply, decode_link_result,
}
use capsaicin.Proto.Link.Caps.{read_caps_lem}

-- A link message that was accepted: no more capability words than the cap, and no more than the
-- bytes that came.
pub record IsBounded (buf : List ℕ) (common channel : List ℕ) : Type 0 where
  pub common_count : length common ≤ max_caps_entries
  pub channel_count : length channel ≤ max_caps_entries
  pub common_bytes : 4 * length common ≤ length buf
  pub channel_bytes : 4 * length channel ≤ length buf

index_lem :
    (buf : List ℕ) (i : ℕ)
    → i + 1 ≤ length buf
    → Ensures {E = ProtoError} (λ v. Unit {0}) (index buf i)
unfolding index
index_lem buf i h = let (v, e) = get_elem?_within buf i (omega arith) in rw e (returns tt)

-- On every buffer the decoder of a link header returns, and a header that it accepts has the right
-- magic and major version.
pub decode_link_header_lem :
    (buf : List ℕ)
    → Ensures
        (λ h. (h.magic ≡ spice_magic) × (h.major_version ≡ spice_version_major))
        (decode_link_header buf)
unfolding decode_link_header
decode_link_header_lem buf = Ensures-fail_if (ltb (length buf) 16) _ _ λ long.
    let n = ltb→le _ _ long in
    Ensures-bind (le_uint_lem 4 buf 0 4 refl (omega arith)) λ magic u.
      Ensures-fail_if (not (magic == spice_magic)) _ _ λ m.
        Ensures-bind (le_uint_lem 4 buf 4 8 refl (omega arith)) λ major u.
          Ensures-bind (le_uint_lem 4 buf 8 12 refl (omega arith)) λ minor u.
            Ensures-fail_if (not (major == spice_version_major)) _ _ λ v.
              Ensures-bind (le_uint_lem 4 buf 12 16 refl (omega arith))
                λ size u. returns (ground arith, ground arith)

-- On every buffer the decoder of a link message returns, whatever counts and offset the peer
-- declares, and a message that it accepts holds 64 capability words of each kind at most,
-- and no more of either kind than the buffer has bytes for.
pub decode_link_mess_lem :
    (buf : List ℕ)
    → Ensures (λ m. IsBounded buf m.common_caps m.channel_caps) (decode_link_mess buf)
unfolding decode_link_mess
decode_link_mess_lem buf = Ensures-fail_if (ltb (length buf) 18) _ _ λ long.
    let n = ltb→le _ _ long in
    Ensures-bind (le_uint_lem 4 buf 0 4 refl (omega arith)) λ connection_id u.
      Ensures-bind (index_lem buf 4 (omega arith)) λ tag u.
        Ensures-bind (channel_type_from_u8_lem tag) λ channel_type u.
          Ensures-bind (index_lem buf 5 (omega arith)) λ channel_id u.
            Ensures-bind (le_uint_lem 4 buf 6 10 refl (omega arith)) λ a u.
              Ensures-bind (bounded_count_lem a 64) λ common c.
                Ensures-bind (le_uint_lem 4 buf 10 14 refl (omega arith)) λ b u.
                  Ensures-bind (bounded_count_lem b 64) λ channel d.
                    Ensures-bind (le_uint_lem 4 buf 14 18 refl (omega arith)) λ offset u.
                      Ensures-bind (read_caps_lem buf offset common) λ xs p.
                        Ensures-bind (read_caps_lem buf (offset + 4 * common) channel) λ ys q.
                          returns (record {
                            common_count = omega (arith, p, c);
                            channel_count = omega (arith, q, d);
                            common_bytes = omega (arith, p);
                            channel_bytes = omega (arith, q);
                          })

to_array_lem :
    (n : ℕ) (xs : List ℕ)
    → length xs ≡ n
    → Ensures {E = ProtoError} (λ a. length a ≡ n) (to_array n xs)
unfolding to_array
to_array_lem n xs h = let t : (length xs == n) ≡ true = ground arith in rw t (returns h)

slice_lem :
    (buf : List ℕ) (a b : ℕ)
    → a ≤ b
    → b ≤ length buf
    → Ensures {E = ProtoError} (λ s. length s ≡ b - a) (slice buf a b)
slice_lem buf a b h k =
    rw (slice_within {E = ProtoError} buf a b h k)
      (returns (omega (arith, length-take (b - a) (drop a buf), length-drop a buf)))

-- On every buffer the decoder of a link reply returns, and a reply that it accepts holds a key of
-- 162 bytes and 64 capability words of each kind at most, and no more of either kind than the buffer
-- has bytes for. The decoder of the final result returns on every buffer too.
pub decode_link_reply_lem :
    (buf : List ℕ)
    → Ensures
        (λ r. (length r.pub_key ≡ 162) × IsBounded buf r.common_caps r.channel_caps)
        (decode_link_reply buf)
      × Ensures (λ e. Unit {0}) (decode_link_result buf)
unfolding decode_link_reply decode_link_result
decode_link_reply_lem buf = (
  Ensures-fail_if (ltb (length buf) 178) _ _ λ long.
      let n = ltb→le _ _ long in
      Ensures-bind (le_uint_lem 4 buf 0 4 refl (omega arith)) λ tag u.
        Ensures-bind (link_error_from_u32_lem tag) λ code u.
          Ensures-bind (slice_lem buf 4 166 (omega arith) (omega arith)) λ key k.
            Ensures-bind (to_array_lem 162 key k) λ pub_key k'.
              Ensures-bind (le_uint_lem 4 buf 166 170 refl (omega arith)) λ a u.
                Ensures-bind (bounded_count_lem a 64) λ common c.
                  Ensures-bind (le_uint_lem 4 buf 170 174 refl (omega arith)) λ b u.
                    Ensures-bind (bounded_count_lem b 64) λ channel d.
                      Ensures-bind (le_uint_lem 4 buf 174 178 refl (omega arith)) λ offset u.
                        Ensures-bind (read_caps_lem buf offset common) λ xs p.
                          Ensures-bind (read_caps_lem buf (offset + 4 * common) channel) λ ys q.
                            returns (
                              k',
                              record {
                                common_count = omega (arith, p, c);
                                channel_count = omega (arith, q, d);
                                common_bytes = omega (arith, p);
                                channel_bytes = omega (arith, q);
                              },
                            ),
  Ensures-fail_if (ltb (length buf) 4) _ _ λ long.
      Ensures-bind (le_uint_lem 4 buf 0 4 refl (ltb→le _ _ long))
        λ tag u. Ensures-map (λ e p. tt) (link_error_from_u32_lem tag),
)
