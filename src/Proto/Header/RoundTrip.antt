-- ===== src/Proto/Header/RoundTrip.antt =====
-- Reading back the message headers of crates/capsaicin-proto/src/header.rs.
use capsaicin.Base.{
  ℕ, ◌≡◌, false, List, [], ◌∷◌, ◌++◌, append_assoc, ltb, arith, length, to_le_bytes,
  length-to_le_bytes, IsU16, IsU32, IsU64, Laid, Laid-join, join, le_uint-Segment,
}
use capsaicin.Base.Outcome.{ok}
use capsaicin.Proto.Error.{ProtoError}
use capsaicin.Proto.Header.{
  DataHeader, decode_data_header, encode_data_header, MiniDataHeader, decode_mini_data_header,
  encode_mini_data_header,
}

pub record FitsDataHeader (h : DataHeader) : Type 0 where
  pub serial : IsU64 h.serial
  pub msg_type : IsU16 h.msg_type
  pub size : IsU32 h.size
  pub sub_list : IsU32 h.sub_list

pub record FitsMiniDataHeader (h : MiniDataHeader) : Type 0 where
  pub msg_type : IsU16 h.msg_type
  pub size : IsU32 h.size

abbrev data_parts : DataHeader → List (ℕ × List ℕ)
data_parts h =
    (8, to_le_bytes 8 h.serial)
    ∷ (2, to_le_bytes 2 h.msg_type)
    ∷ (4, to_le_bytes 4 h.size)
    ∷ (4, to_le_bytes 4 h.sub_list)
    ∷ []

abbrev mini_parts : MiniDataHeader → List (ℕ × List ℕ)
mini_parts h = (2, to_le_bytes 2 h.msg_type) ∷ (4, to_le_bytes 4 h.size) ∷ []

decode_data_header-Laid :
    (h : DataHeader) (buf : List ℕ)
    → Laid buf 0 (data_parts h)
    → FitsDataHeader h
    → decode_data_header buf ≡ ok h
unfolding decode_data_header
decode_data_header-Laid h buf l fits =
    let t : ltb (length buf) 18 ≡ false = ground (arith, l.1.1.1.0.within) in
    rw (
      t,
      le_uint-Segment {E = ProtoError} 8 h.serial l.0 fits.serial,
      le_uint-Segment {E = ProtoError} 2 h.msg_type l.1.0 fits.msg_type,
      le_uint-Segment {E = ProtoError} 4 h.size l.1.1.0 fits.size,
      le_uint-Segment {E = ProtoError} 4 h.sub_list l.1.1.1.0 fits.sub_list,
    )

decode_mini_data_header-Laid :
    (h : MiniDataHeader) (buf : List ℕ)
    → Laid buf 0 (mini_parts h)
    → FitsMiniDataHeader h
    → decode_mini_data_header buf ≡ ok h
unfolding decode_mini_data_header
decode_mini_data_header-Laid h buf l fits =
    let t : ltb (length buf) 6 ≡ false = ground (arith, l.1.0.within) in
    rw (
      t,
      le_uint-Segment {E = ProtoError} 2 h.msg_type l.0 fits.msg_type,
      le_uint-Segment {E = ProtoError} 4 h.size l.1.0 fits.size,
    )

-- Both message headers are read back from what their encoders write, if their fields fit their
-- widths, whatever bytes follow.
pub message_headers_roundtrip :
    (h : DataHeader) (m : MiniDataHeader) (rest : List ℕ)
    → FitsDataHeader h
    → FitsMiniDataHeader m
    → (decode_data_header (encode_data_header h [] ++ rest) ≡ ok h)
      × (decode_mini_data_header (encode_mini_data_header m [] ++ rest) ≡ ok m)
unfolding encode_data_header encode_mini_data_header
message_headers_roundtrip h m rest fh fm =
    let e : encode_data_header h [] ++ rest ≡ join (data_parts h) ++ rest = simp append_assoc in
    let e' : encode_mini_data_header m [] ++ rest ≡ join (mini_parts m) ++ rest =
      simp append_assoc in
    (
      decode_data_header-Laid h _
          (Laid-join (data_parts h) rest _ e (omega (arith, length-to_le_bytes))) fh,
      decode_mini_data_header-Laid m _
          (Laid-join (mini_parts m) rest _ e' (omega (arith, length-to_le_bytes))) fm,
    )
