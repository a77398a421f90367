-- ===== src/Proto/Link/Reply.antt =====
-- Reading back what the server answers during the handshake, and the header in front of each link
-- message: crates/capsaicin-proto/src/link.rs.
use capsaicin.Base.{
  ℕ, ◌+◌, ◌*◌, ◌%◌, ◌^◌, ◌≤◌, ◌≡◌, refl, false, le→ltb, List, [], ◌∷◌, ◌++◌, append_assoc, ltb,
  arith, length, length-append, to_le_bytes, length-to_le_bytes, All, IsU32, Laid, Laid-join, join,
  length-join, Sized, le_uint-Segment, slice-Segment,
}
use capsaicin.Base.Outcome.{ok, to_array}
use capsaicin.Proto.Error.{ProtoError}
use capsaicin.Proto.Enums.{
  spice_magic, spice_version_major, spice_version_minor, max_caps_entries, LinkError,
  link_error_to_u32,
}
use capsaicin.Proto.Enums.Tags.{
  link_error_from_u32-link_error_to_u32, link_error_to_u32_bound, bounded_count_within,
}
use capsaicin.Proto.Link.{
  new, decode_link_header, encode_link_header, LinkReply, decode_link_reply, encode_link_reply,
  decode_link_result, encode_link_result, read_caps, LinkMess, encode_link_mess, encoded_mess_len,
  encoded_reply_len,
}
use capsaicin.Proto.Link.Caps.{caps_bytes, length-caps_bytes, write_caps_lem, read_caps_both}
use capsaicin.Proto.Link.RoundTrip.{mess_parts, mess_parts-Sized, encode_link_mess_lem}

pub record FitsLinkReply (r : LinkReply) : Type 0 where
  pub pub_key : length r.pub_key ≡ 162
  pub common_caps : All IsU32 r.common_caps
  pub channel_caps : All IsU32 r.channel_caps
  pub common_count : length r.common_caps ≤ max_caps_entries
  pub channel_count : length r.channel_caps ≤ max_caps_entries

abbrev reply_parts : LinkReply → List (ℕ × List ℕ)
reply_parts r =
    (4, to_le_bytes 4 (link_error_to_u32 r.error))
    ∷ (162, r.pub_key)
    ∷ (4, to_le_bytes 4 (length r.common_caps % 2 ^ 32))
    ∷ (4, to_le_bytes 4 (length r.channel_caps % 2 ^ 32))
    ∷ (4, to_le_bytes 4 178)
    ∷ []

reply_parts-Sized : (r : LinkReply) → FitsLinkReply r → Sized (reply_parts r)
reply_parts-Sized r fits = omega (arith, length-to_le_bytes, fits.pub_key)

encode_link_reply_lem :
    (r : LinkReply)
    → encode_link_reply r []
      ≡ join (reply_parts r) ++ (caps_bytes r.common_caps ++ caps_bytes r.channel_caps)
unfolding encode_link_reply
encode_link_reply_lem r = simp (write_caps_lem, append_assoc)

decode_link_reply-Laid :
    (r : LinkReply) (buf : List ℕ)
    → Laid buf 0 (reply_parts r)
    → read_caps buf 178 (length r.common_caps) ≡ ok r.common_caps
    → read_caps buf (178 + 4 * length r.common_caps) (length r.channel_caps) ≡ ok r.channel_caps
    → FitsLinkReply r
    → decode_link_reply buf ≡ ok r
unfolding decode_link_reply to_array
decode_link_reply-Laid r buf l first second fits =
    let t : ltb (length buf) 178 ≡ false =
      le→ltb (length buf) 178 (omega (arith, l.1.1.1.1.0.within)) in
    let common : length r.common_caps % 2 ^ 32 ≡ length r.common_caps =
      omega (arith, fits.common_count) in
    let channel : length r.channel_caps % 2 ^ 32 ≡ length r.channel_caps =
      omega (arith, fits.channel_count) in
    rw (
      t,
      le_uint-Segment {E = ProtoError} 4 (link_error_to_u32 r.error) l.0
          (omega (arith, link_error_to_u32_bound r.error)),
      link_error_from_u32-link_error_to_u32 r.error,
      slice-Segment {E = ProtoError} l.1.0,
      fits.pub_key,
      le_uint-Segment {E = ProtoError} 4 (length r.common_caps % 2 ^ 32) l.1.1.0 (omega arith),
      common,
      bounded_count_within (length r.common_caps) 64 fits.common_count,
      le_uint-Segment {E = ProtoError} 4 (length r.channel_caps % 2 ^ 32) l.1.1.1.0 (omega arith),
      channel,
      bounded_count_within (length r.channel_caps) 64 fits.channel_count,
      le_uint-Segment {E = ProtoError} 4 178 l.1.1.1.1.0 (omega arith),
      first,
      second,
    )

-- A link reply with a key of 162 bytes and 64 capability words of each kind at most, each of 32
-- bits, is read back from what its encoder writes, whatever bytes follow.
pub link_reply_roundtrip :
    (r : LinkReply) (rest : List ℕ)
    → FitsLinkReply r
    → decode_link_reply (encode_link_reply r [] ++ rest) ≡ ok r
link_reply_roundtrip r rest fits =
    let tail = caps_bytes r.common_caps ++ (caps_bytes r.channel_caps ++ rest) in
    let e : encode_link_reply r [] ++ rest ≡ join (reply_parts r) ++ tail =
      rw (encode_link_reply_lem r) (simp append_assoc) in
    let both =
      read_caps_both (join (reply_parts r)) r.common_caps r.channel_caps rest 178
        (length-join (reply_parts r) (reply_parts-Sized r fits))
        (omega (arith, fits.common_count, fits.channel_count)) fits.common_caps fits.channel_caps in
    rw e (
      decode_link_reply-Laid r (join (reply_parts r) ++ tail)
        (Laid-join (reply_parts r) tail _ refl (reply_parts-Sized r fits)) both.0 both.1 fits)

abbrev header_parts : ℕ → List (ℕ × List ℕ)
header_parts size =
    (4, to_le_bytes 4 spice_magic)
    ∷ (4, to_le_bytes 4 spice_version_major)
    ∷ (4, to_le_bytes 4 spice_version_minor)
    ∷ (4, to_le_bytes 4 size)
    ∷ []

decode_link_header-Laid :
    (size : ℕ) (buf : List ℕ)
    → Laid buf 0 (header_parts size)
    → IsU32 size
    → decode_link_header buf ≡ ok (new size)
unfolding decode_link_header new
decode_link_header-Laid size buf l fits =
    let t : ltb (length buf) 16 ≡ false = ground (arith, l.1.1.1.0.within) in
    rw (
      t,
      le_uint-Segment {E = ProtoError} 4 spice_magic l.0 (omega arith),
      le_uint-Segment {E = ProtoError} 4 spice_version_major l.1.0 (omega arith),
      le_uint-Segment {E = ProtoError} 4 spice_version_minor l.1.1.0 (omega arith),
      le_uint-Segment {E = ProtoError} 4 size l.1.1.1.0 fits,
    )

-- A link header made for a payload of a 32-bit size passes the checks of magic and version and is
-- read back, and so is the final result, whatever its code; any bytes may follow.
pub link_header_roundtrip :
    (size : ℕ) (code : LinkError) (rest : List ℕ)
    → IsU32 size
    → (decode_link_header (encode_link_header (new size) [] ++ rest) ≡ ok (new size))
      × (decode_link_result (encode_link_result code [] ++ rest) ≡ ok code)
unfolding encode_link_header new decode_link_result encode_link_result
link_header_roundtrip size code rest fits =
    let e : encode_link_header (new size) [] ++ rest ≡ join (header_parts size) ++ rest =
      simp append_assoc in
    let parts : List (ℕ × List ℕ) = (4, to_le_bytes 4 (link_error_to_u32 code)) ∷ [] in
    let l : Laid (to_le_bytes 4 (link_error_to_u32 code) ++ rest) 0 parts =
      Laid-join parts rest _ (simp append_assoc) (omega (arith, length-to_le_bytes)) in
    let t : ltb (length (to_le_bytes 4 (link_error_to_u32 code) ++ rest)) 4 ≡ false =
      ground (arith, l.0.within) in
    (
      decode_link_header-Laid size _
          (Laid-join (header_parts size) rest _ e (omega (arith, length-to_le_bytes))) fits,
      rw (
        t,
        le_uint-Segment {E = ProtoError} 4 (link_error_to_u32 code) l.0
            (omega (arith, link_error_to_u32_bound code)),
        link_error_from_u32-link_error_to_u32 code,
      ),
    )

-- The sizes that go into the link headers are those of the encoded messages: a link message, and a
-- link reply with a key of 162 bytes.
pub encoded_len_lem :
    (m : LinkMess) (r : LinkReply)
    → length r.pub_key ≡ 162
    → (length (encode_link_mess m []) ≡ encoded_mess_len m)
      × (length (encode_link_reply r []) ≡ encoded_reply_len r)
unfolding encoded_mess_len encoded_reply_len
encoded_len_lem m r k = (
  rw (encode_link_mess_lem m) (
      omega (
        arith,
        length-append {A = ℕ},
        length-caps_bytes,
        length-join (mess_parts m) (mess_parts-Sized m),
      )),
  rw (encode_link_reply_lem r) (
      omega (
        arith,
        length-append {A = ℕ},
        length-caps_bytes,
        length-join (reply_parts r) (omega (arith, length-to_le_bytes, k)),
      )),
)
