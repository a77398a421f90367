-- ===== src/Tests/Quic.antt =====
-- Runs of the model of crates/capsaicin-quic/src/lib.rs, and its theorems at concrete inputs.
use capsaicin.Quic.Plane.{decode_byte_pos0, decode_byte, encode_byte_pos0, encode_byte}
use capsaicin.Quic.Rgb32.Image.{
  next_row, next_rows, new_channels, compress_rows, compress_rgb32, decompress_rgb_phase,
  decompress_rgb32,
}
use capsaicin.Quic.Segment.{row}
use capsaicin.Quic.Model.{
  new_channel, find_bucket, find_bucket_idx, update_model, store, update_model_at,
}
use capsaicin.Quic.State.{
  reset_rle, default, tabrand, set_wm_trigger, climb, descend, set_melcstate,
}
use capsaicin.Quic.Rgb32.{
  encode_steps, decode_steps, update_models_at, same_bgr, is_run_index, rle_match,
  do_run_copy_rgb32, decode_one_pixel_pos0, decode_one_pixel, decode_run, encode_one_pixel_pos0,
  encode_one_pixel, run_size, encode_run,
}
use capsaicin.Quic.Family.{init, golomb_encode, golomb_decode, family_golomb_code_len}
use capsaicin.Quic.Stream.{write, write_ones, peek32, read_word_at, eat, finish, new_after_header}
use capsaicin.Quic.State.Runs.{encode_state_run, decode_state_run}
use capsaicin.Quic.Words.{bppmask, add_u32}
use capsaicin.Quic.{validate_dims, to_u32}
use capsaicin.Quic.Header.{encode}
use capsaicin.Quic.Header.{decode}
use capsaicin.Quic.Header.RoundTrip.{quic_header_roundtrip}
use capsaicin.Quic.Family.RoundTrip.{byte_code_roundtrip, family_golomb_code_len_lem}
use capsaicin.Quic.Model.{ChannelDecoder}
use capsaicin.Quic.Model.Invariant.{IsModel, update_model_at-IsModel}
use capsaicin.Quic.Model.Fresh.{new_channel-IsModel}
use capsaicin.Quic.Stream.{BitReader, BitWriter, new}
use capsaicin.Quic.State.{CommonState}
use capsaicin.Quic.State.Melc.{IsMelc}
use capsaicin.Quic.State.RoundTrip.{state_run_roundtrip}
use capsaicin.Quic.Rgb32.Alpha.{erase_alpha}
use capsaicin.Quic.Rgb32.RoundTrip.{rgb32_header, rgb32_roundtrip}
use capsaicin.Base.Settles.{Settles}
use capsaicin.Quic.Single.Image.{decompress_gray, decompress_rgba}
use capsaicin.Quic.Rgb16.{decompress_rgb16}
use capsaicin.Quic.Returns.Images.{IsImage, quic_decoders_terminate}
use capsaicin.Base.{
  to_le_bytes, from_le_bytes, ℕ, ◌+◌, ◌-◌, ◌*◌, ◌^◌, ◌≤◌, ◌<◌, ◌≡◌, refl, List, [], ◌∷◌, ◌++◌,
  arith, replicate, All, IsByte,
}
use capsaicin.Base.Outcome.{slice, index, ok, and_then}

-- Five pixels a row, the rows nearly constant.
abbrev picture : List ℕ
picture =
    (9 ∷ 8 ∷ 7 ∷ 0 ∷ 9 ∷ 8 ∷ 7 ∷ 0 ∷ 9 ∷ 8 ∷ 7 ∷ 0 ∷ 9 ∷ 8 ∷ 7 ∷ 0 ∷ 9 ∷ 8 ∷ 7 ∷ 0 ∷ [])
    ++ (1 ∷ 8 ∷ 7 ∷ 0 ∷ 200 ∷ 8 ∷ 7 ∷ 0 ∷ 200 ∷ 8 ∷ 7 ∷ 0 ∷ 200 ∷ 8 ∷ 7 ∷ 0 ∷ 9 ∷ 8 ∷ 77 ∷ 0 ∷ [])

picture_roundtrip : and_then (compress_rgb32 picture 5 2) (λ s. decompress_rgb32 s 5 2) ≡ ok picture
unfolding next_row next_rows new_channels compress_rows decompress_rgb_phase add_u32 store
    update_model_at decode_byte_pos0 decode_byte encode_byte_pos0 encode_byte update_models_at
    same_bgr is_run_index rle_match do_run_copy_rgb32 decode_one_pixel_pos0 decode_one_pixel
    decode_run encode_one_pixel_pos0 encode_one_pixel run_size encode_run compress_rgb32
    decompress_rgb32 row new_channel find_bucket find_bucket_idx update_model reset_rle default
    tabrand set_wm_trigger climb descend set_melcstate encode_steps decode_steps init golomb_encode
    golomb_decode family_golomb_code_len write write_ones peek32 read_word_at eat finish
    new_after_header encode_state_run decode_state_run bppmask validate_dims to_u32 encode
    to_le_bytes from_le_bytes slice index
picture_roundtrip = refl

picture_bytes : All IsByte picture
picture_bytes = omega arith

rgb32_roundtrip_example :
    (stream : List ℕ) × (compress_rgb32 picture 5 2 ≡ ok stream)
    × (decode stream ≡ ok (rgb32_header 5 2))
    × (decompress_rgb32 stream 5 2 ≡ ok (erase_alpha picture))
rgb32_roundtrip_example =
    rgb32_roundtrip picture 5 2 (omega arith) (omega arith) (omega arith) (omega arith)
      (omega arith) refl picture_bytes

quic_header_roundtrip_example :
    decode (encode (rgb32_header 640 480) [] ++ (1 ∷ 2 ∷ [])) ≡ ok (rgb32_header 640 480)
quic_header_roundtrip_example =
    quic_header_roundtrip (rgb32_header 640 480) (1 ∷ 2 ∷ [])
      (record { width = omega arith; height = omega arith })

room : 1 < 2 ^ (32 - (golomb_encode (init 8) 200 3).1)
unfolding init golomb_encode bppmask
room = omega arith

byte_code_roundtrip_example :
    (0 < (golomb_encode (init 8) 200 3).1)
    × ((golomb_encode (init 8) 200 3).1 ≤ 26)
    × ((golomb_encode (init 8) 200 3).0 < 2 ^ (golomb_encode (init 8) 200 3).1)
    × (golomb_decode
          (init 8)
          3
          ((golomb_encode (init 8) 200 3).0 * 2 ^ (32 - (golomb_encode (init 8) 200 3).1) + 1)
        ≡ (200, (golomb_encode (init 8) 200 3).1))
byte_code_roundtrip_example = byte_code_roundtrip 3 200 1 (omega arith) (omega arith) room

family_golomb_code_len_lem_example :
    family_golomb_code_len (init 8) 200 3 ≡ (golomb_encode (init 8) 200 3).1
family_golomb_code_len_lem_example = family_golomb_code_len_lem (init 8) 200 3

default-IsMelc : IsMelc default
unfolding default set_wm_trigger
default-IsMelc = record { within = omega arith; len = refl; order = refl }

state_run_roundtrip_example :
    (w : BitWriter) × (r : BitReader) × (t : CommonState) × (encode_state_run new default 1000
      ≡ ok (w, t))
    × (decode_state_run
          (record { bytes = replicate 20 7 ++ finish w; body_start = 20; bit_pos = 0 })
          default
        ≡ ok (r, t, 1000))
state_run_roundtrip_example =
    state_run_roundtrip default 1000 (replicate 20 7) default-IsMelc (omega arith) refl

bits : (init 8).bpc ≡ 8
unfolding init
bits = refl

update_model_at-IsModel_example :
    (c : ChannelDecoder) × (update_model_at (init 8) default (new_channel-IsModel 5).0 2 ≡ ok c)
    × IsModel 5 c
update_model_at-IsModel_example =
    update_model_at-IsModel (init 8) default 2 bits (omega arith) (new_channel-IsModel 5).2

quic_decoders_terminate_example :
    (Settles (IsImage 3 2) (decompress_rgb32 (replicate 40 255) 3 2))
    × (Settles (IsImage 3 2) (decompress_rgba (replicate 40 255) 3 2))
    × (Settles (IsImage 3 2) (decompress_gray (replicate 40 255) 3 2))
    × (Settles (IsImage 3 2) (decompress_rgb16 (replicate 40 255) 3 2))
quic_decoders_terminate_example = quic_decoders_terminate (replicate 40 255) 3 2
