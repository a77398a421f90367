-- ===== src/Proto/Link/RoundTrip.antt =====
-- Reading back the link messages of crates/capsaicin-proto/src/link.rs.
use capsaicin.Base.{
  ℕ, ◌+◌, ◌*◌, ◌%◌, ◌^◌, ◌≤◌, ◌≡◌, refl, false, List, [], ◌∷◌, ◌++◌, append_assoc, ltb, arith,
  length, to_le_bytes, length-to_le_bytes, All, IsByte, IsU32, Laid, Laid-join, join, length-join,
  Sized, le_uint-Segment, index-Segment,
}
use capsaicin.Base.Outcome.{ok}
use capsaicin.Proto.Error.{ProtoError}
use capsaicin.Proto.Enums.{max_caps_entries, channel_type_to_u8}
use capsaicin.Proto.Enums.Tags.{channel_type_from_u8-channel_type_to_u8, bounded_count_within}
use capsaicin.Proto.Link.{LinkMess, decode_link_mess, encode_link_mess, read_caps}
use capsaicin.Proto.Link.Caps.{caps_bytes, write_caps_lem, read_caps_both}

pub record FitsLinkMess (m : LinkMess) : Type 0 where
  pub connection_id : IsU32 m.connection_id
  pub channel_id : IsByte m.channel_id
  pub common_caps : All IsU32 m.common_caps
  pub channel_caps : All IsU32 m.channel_caps
  pub common_count : length m.common_caps ≤ max_caps_entries
  pub channel_count : length m.channel_caps ≤ max_caps_entries

abbrev pub mess_parts : LinkMess → List (ℕ × List ℕ)
mess_parts m =
    (4, to_le_bytes 4 m.connection_id)
    ∷ (1, channel_type_to_u8 m.channel_type ∷ [])
    ∷ (1, m.channel_id ∷ [])
    ∷ (4, to_le_bytes 4 (length m.common_caps % 2 ^ 32))
    ∷ (4, to_le_bytes 4 (length m.channel_caps % 2 ^ 32))
    ∷ (4, to_le_bytes 4 18)
    ∷ []

pub mess_parts-Sized : (m : LinkMess) → Sized (mess_parts m)
mess_parts-Sized m = omega (arith, length-to_le_bytes)

-- The message is its fixed part and the two arrays of words.
pub encode_link_mess_lem :
    (m : LinkMess)
    → encode_link_mess m []
      ≡ join (mess_parts m) ++ (caps_bytes m.common_caps ++ caps_bytes m.channel_caps)
unfolding encode_link_mess
encode_link_mess_lem m = simp (write_caps_lem, append_assoc)

decode_link_mess-Laid :
    (m : LinkMess) (buf : List ℕ)
    → Laid buf 0 (mess_parts m)
    → read_caps buf 18 (length m.common_caps) ≡ ok m.common_caps
    → read_caps buf (18 + 4 * length m.common_caps) (length m.channel_caps) ≡ ok m.channel_caps
    → FitsLinkMess m
    → decode_link_mess buf ≡ ok m
unfolding decode_link_mess
decode_link_mess-Laid m buf l first second fits =
    let t : ltb (length buf) 18 ≡ false = ground (arith, l.1.1.1.1.1.0.within) in
    let common : length m.common_caps % 2 ^ 32 ≡ length m.common_caps =
      omega (arith, fits.common_count) in
    let channel : length m.channel_caps % 2 ^ 32 ≡ length m.channel_caps =
      omega (arith, fits.channel_count) in
    rw (
      t,
      le_uint-Segment {E = ProtoError} 4 m.connection_id l.0 fits.connection_id,
      index-Segment {E = ProtoError} l.1.0,
      channel_type_from_u8-channel_type_to_u8 m.channel_type,
      index-Segment {E = ProtoError} l.1.1.0,
      le_uint-Segment {E = ProtoError} 4 (length m.common_caps % 2 ^ 32) l.1.1.1.0 (omega arith),
      common,
      bounded_count_within (length m.common_caps) 64 fits.common_count,
      le_uint-Segment {E = ProtoError} 4 (length m.channel_caps % 2 ^ 32) l.1.1.1.1.0 (omega arith),
      channel,
      bounded_count_within (length m.channel_caps) 64 fits.channel_count,
      le_uint-Segment {E = ProtoError} 4 18 l.1.1.1.1.1.0 (omega arith),
      first,
      second,
    )

-- A link message whose fields fit their widths, with 64 capability words of each kind at most, is
-- read back from what its encoder writes, whatever bytes follow.
pub link_mess_roundtrip :
    (m : LinkMess) (rest : List ℕ)
    → FitsLinkMess m
    → decode_link_mess (encode_link_mess m [] ++ rest) ≡ ok m
link_mess_roundtrip m rest fits =
    let tail = caps_bytes m.common_caps ++ (caps_bytes m.channel_caps ++ rest) in
    let e : encode_link_mess m [] ++ rest ≡ join (mess_parts m) ++ tail =
      rw (encode_link_mess_lem m) (simp append_assoc) in
    let both =
      read_caps_both (join (mess_parts m)) m.common_caps m.channel_caps rest 18
        (length-join (mess_parts m) (mess_parts-Sized m))
        (omega (arith, fits.common_count, fits.channel_count)) fits.common_caps fits.channel_caps in
    rw e (
      decode_link_mess-Laid m (join (mess_parts m) ++ tail)
        (Laid-join (mess_parts m) tail _ refl (mess_parts-Sized m)) both.0 both.1 fits)
