-- ===== src/Quic/Rgb32/Calls.antt =====
-- The calls that code and decode the three bytes of a pixel, one after the other.
use capsaicin.Base.{ℕ, ◌+◌, ◌*◌, ◌≡◌, refl, Option, List, ◌++◌, append_assoc}
use capsaicin.Base.Outcome.{Outcome, ok}
use capsaicin.Quic.{QuicError}
use capsaicin.Quic.Words.{bppmask}
use capsaicin.Quic.Family.{Family, init}
use capsaicin.Quic.Stream.{BitReader, BitWriter}
use capsaicin.Quic.Stream.Writes.{Holds}
use capsaicin.Quic.Stream.Reads.{Before}
use capsaicin.Quic.Model.{ChannelDecoder, store}
use capsaicin.Quic.Model.Invariant.{IsModel}
use capsaicin.Quic.Plane.{decode_byte, encode_byte, decode_byte_pos0, encode_byte_pos0}
use capsaicin.Quic.Segment.Lockstep.{Pair}
use capsaicin.Quic.Rgb32.{
  Channels, Decoding, Encoding, decode_one_pixel, encode_one_pixel, decode_one_pixel_pos0,
  encode_one_pixel_pos0,
}
use capsaicin.Quic.Rgb32.Painted.{Painted}

pub record AreModels (width : ℕ) (cs : Channels) : Type 0 where
  pub r : IsModel width cs.chan_r
  pub g : IsModel width cs.chan_g
  pub b : IsModel width cs.chan_b

pub record Writing (width : ℕ) (bs : List ℕ) (e : Encoding) : Type 0 where
  pub holds : Holds e.writer bs
  pub models : AreModels width e.chans

abbrev pub decoding : BitReader → Channels → List ℕ → Decoding
decoding r cs out = record { reader = r; chans = cs; cur_bgra = out }

pub record Reading (width : ℕ) (cur : List ℕ) (i : ℕ) (bs more : List ℕ) (e : Encoding)
    (d : Decoding) : Type 0 where
  pub ws : List ℕ
  pub reader : BitReader
  pub out : List ℕ
  pub same : d ≡ decoding reader e.chans out
  pub before : Before reader ws bs more
  pub painted : Painted width cur out i

module _ (width : ℕ) (cur : List ℕ) where
  -- The two sides of an image's row.
  abbrev pub sides : Pair Encoding Decoding
  sides = record {
    Writes = λ i bs e. Writing width bs e;
    Reads = λ i bs more e d. Reading width cur i bs more e d;
  }

-- Three codes, one behind the other.
pub joined {ℓ} :
    {A : Type ℓ} (done x y z : List A) → ((done ++ x) ++ y) ++ z ≡ done ++ (x ++ (y ++ z))
joined done x y z = simp append_assoc

pub opened {ℓ} :
    {A : Type ℓ} (x y z more : List A) → (x ++ (y ++ z)) ++ more ≡ x ++ (y ++ (z ++ more))
opened x y z more = simp append_assoc

pub mask_8 : bppmask (init 8).bpc ≡ 255
unfolding bppmask init
mask_8 = refl

-- The calls of the two sides, one after the other.
module _ (f : Family) (prev : Option (List ℕ)) (mask i : ℕ) (known : bppmask f.bpc ≡ mask) where
  pub encode_three :
      (cur : List ℕ) (e : Encoding) {w1 w2 w3 : BitWriter} {c1 c2 c3 : ChannelDecoder}
      → encode_byte f prev cur mask 2 i e.writer e.chans.chan_r ≡ ok (w1, c1)
      → encode_byte f prev cur mask 1 i w1 e.chans.chan_g ≡ ok (w2, c2)
      → encode_byte f prev cur mask 0 i w2 e.chans.chan_b ≡ ok (w3, c3)
      → encode_one_pixel f prev cur e i
        ≡ ok (record { writer = w3; chans = record { chan_r = c1; chan_g = c2; chan_b = c3 } })
  unfolding encode_one_pixel
  encode_three cur e p q r = rw (known, p, q, r)

  pub decode_three :
      (r0 : BitReader) (cs : Channels) (out : List ℕ) {r1 r2 r3 : BitReader}
      {c1 c2 c3 : ChannelDecoder} {o1 o2 o3 o4 : List ℕ}
      → store out (i * 4 + 3) 0 ≡ ok o1
      → decode_byte f prev mask 4 2 i r0 cs.chan_r o1 ≡ ok (r1, c1, o2)
      → decode_byte f prev mask 4 1 i r1 cs.chan_g o2 ≡ ok (r2, c2, o3)
      → decode_byte f prev mask 4 0 i r2 cs.chan_b o3 ≡ ok (r3, c3, o4)
      → decode_one_pixel f prev (decoding r0 cs out) i
        ≡ ok (decoding r3 (record { chan_r = c1; chan_g = c2; chan_b = c3 }) o4)
  unfolding decode_one_pixel
  decode_three r0 cs out s p q r = rw (known, s, p, q, r)

  pub encode_three_pos0 :
      (cur : List ℕ) (e : Encoding) {w1 w2 w3 : BitWriter} {c1 c2 c3 : ChannelDecoder}
      → encode_byte_pos0 f prev cur 2 e.writer e.chans.chan_r ≡ ok (w1, c1)
      → encode_byte_pos0 f prev cur 1 w1 e.chans.chan_g ≡ ok (w2, c2)
      → encode_byte_pos0 f prev cur 0 w2 e.chans.chan_b ≡ ok (w3, c3)
      → encode_one_pixel_pos0 f prev cur e
        ≡ ok (record { writer = w3; chans = record { chan_r = c1; chan_g = c2; chan_b = c3 } })
  unfolding encode_one_pixel_pos0
  encode_three_pos0 cur e p q r = rw (p, q, r)

  pub decode_three_pos0 :
      (r0 : BitReader) (cs : Channels) (out : List ℕ) {r1 r2 r3 : BitReader}
      {c1 c2 c3 : ChannelDecoder} {o1 o2 o3 o4 : List ℕ}
      → store out 3 0 ≡ ok o1
      → decode_byte_pos0 f prev 2 r0 cs.chan_r o1 ≡ ok (r1, c1, o2)
      → decode_byte_pos0 f prev 1 r1 cs.chan_g o2 ≡ ok (r2, c2, o3)
      → decode_byte_pos0 f prev 0 r2 cs.chan_b o3 ≡ ok (r3, c3, o4)
      → decode_one_pixel_pos0 f prev (decoding r0 cs out)
        ≡ ok (decoding r3 (record { chan_r = c1; chan_g = c2; chan_b = c3 }) o4)
  unfolding decode_one_pixel_pos0
  decode_three_pos0 r0 cs out s p q r = rw (s, p, q, r)

-- The decoder's step for a channel.
abbrev pub Decode : Type 0
Decode = BitReader → List ℕ → Outcome QuicError (BitReader × ChannelDecoder × List ℕ)

abbrev pub channels : ChannelDecoder → ChannelDecoder → ChannelDecoder → Channels
channels r g b = record { chan_r = r; chan_g = g; chan_b = b }

-- What the decoder's loop over the channels computes.
abbrev pub Loops :
    ℕ
    → Channels
    → Decode
    → Decode
    → Decode
    → ChannelDecoder
    → ChannelDecoder
    → ChannelDecoder
    → (Decoding → Outcome QuicError Decoding)
    → Type 0
Loops i cs dec_r dec_g dec_b r g b dec =
    (r0 : BitReader) (out : List ℕ) (r1 r2 r3 : BitReader) (o1 o2 o3 o4 : List ℕ)
    → store out (i * 4 + 3) 0 ≡ ok o1
    → dec_r r0 o1 ≡ ok (r1, r, o2)
    → dec_g r1 o2 ≡ ok (r2, g, o3)
    → dec_b r2 o3 ≡ ok (r3, b, o4)
    → dec (decoding r0 cs out) ≡ ok (decoding r3 (channels r g b) o4)
