-- ===== src/Quic/Returns/Pixels.antt =====
-- What the decoders do at a pixel does not get stuck.
use capsaicin.Base.{ℕ, zero, suc, ◌+◌, ◌≡◌, Option, none, some, List, length}
use capsaicin.Base.Settles.{Settles, gives, Anything, Halts-if}
use capsaicin.Quic.Family.{Family}
use capsaicin.Quic.Stream.{BitReader}
use capsaicin.Quic.State.{CommonState}
use capsaicin.Quic.Model.{ChannelDecoder}
use capsaicin.Quic.Rgb32.{
  Channels, Decoding, update_models_at, same_bgr, do_run_copy_rgb32, decode_one_pixel_pos0,
  decode_one_pixel,
}
use capsaicin.Quic.Rgb16.{
  Packing, first_channel, next_channel, decode_channel_pos0, decode_channel,
  decode_rgb16_pixel_pos0, decode_rgb16_pixel,
}
use capsaicin.Quic.Single.{
  Single, first_gray, decode_alpha_pixel_pos0, decode_alpha_pixel, decode_gray_pixel_pos0,
  decode_gray_pixel,
}
use capsaicin.Quic.Returns.{
  halts, keeps, any-bind, row-bind, store-Sized-bind, index-Settles, decode_byte_pos0-Sized,
  decode_byte-Sized, update_model_at-Settles,
}

pub update_models_at-Settles :
    (f : Family) (st : CommonState) (cs : Channels) (i : ℕ)
    → Settles Anything (update_models_at f st cs i)
unfolding update_models_at
update_models_at-Settles f st cs i = search (halts, update_model_at-Settles) depth 12

pub same_bgr-Settles :
    (a : List ℕ) (i : ℕ) (b : List ℕ) (k : ℕ) → Settles Anything (same_bgr a i b k)
unfolding same_bgr
same_bgr-Settles a i b k = search (halts, Halts-if) depth 12

-- Each keeps the row's length.
pub do_run_copy_rgb32-Sized :
    {size : ℕ} (n : ℕ) (cur : List ℕ) (k : ℕ)
    → length cur ≡ size
    → Settles (λ out. length out ≡ size) (do_run_copy_rgb32 n cur k)
unfolding do_run_copy_rgb32
do_run_copy_rgb32-Sized zero cur k h = gives h
do_run_copy_rgb32-Sized (suc n) cur k h = any-bind (index-Settles _ _) (λ b.
    store-Sized-bind _ _ _ h (λ cur h. any-bind (index-Settles _ _) (λ g.
      store-Sized-bind _ _ _ h (λ cur h. any-bind (index-Settles _ _) (λ r.
        store-Sized-bind _ _ _ h (λ cur h.
          store-Sized-bind _ _ _ h (λ cur h. do_run_copy_rgb32-Sized n cur (k + 1) h)))))))

module _ (f : Family) (prev : Option (List ℕ)) {n : ℕ} where
  pub decode_one_pixel_pos0-Sized :
      (d : Decoding)
      → length d.cur_bgra ≡ n
      → Settles (λ d'. length d'.cur_bgra ≡ n) (decode_one_pixel_pos0 f prev d)
  unfolding decode_one_pixel_pos0
  decode_one_pixel_pos0-Sized d h = store-Sized-bind _ _ _ h (λ cur h.
      row-bind (decode_byte_pos0-Sized f prev _ _ _ _ h) (λ t a.
        row-bind (decode_byte_pos0-Sized f prev _ _ _ _ a)
          (λ t b. row-bind (decode_byte_pos0-Sized f prev _ _ _ _ b) (λ t c. gives c))))

  pub decode_one_pixel-Sized :
      (d : Decoding) (i : ℕ)
      → length d.cur_bgra ≡ n
      → Settles (λ d'. length d'.cur_bgra ≡ n) (decode_one_pixel f prev d i)
  unfolding decode_one_pixel
  decode_one_pixel-Sized d i h = store-Sized-bind _ _ _ h (λ cur h.
      row-bind (decode_byte-Sized f prev _ _ _ _ _ _ _ h) (λ t a.
        row-bind (decode_byte-Sized f prev _ _ _ _ _ _ _ a)
          (λ t b. row-bind (decode_byte-Sized f prev _ _ _ _ _ _ _ b) (λ t c. gives c))))

  pub decode_alpha_pixel_pos0-Sized :
      (d : Single)
      → length d.cur ≡ n
      → Settles (λ d'. length d'.cur ≡ n) (decode_alpha_pixel_pos0 f prev d)
  unfolding decode_alpha_pixel_pos0
  decode_alpha_pixel_pos0-Sized d h =
      row-bind (decode_byte_pos0-Sized f prev _ _ _ _ h) (λ t p. gives p)

  pub decode_alpha_pixel-Sized :
      (d : Single) (i : ℕ)
      → length d.cur ≡ n
      → Settles (λ d'. length d'.cur ≡ n) (decode_alpha_pixel f prev d i)
  unfolding decode_alpha_pixel
  decode_alpha_pixel-Sized d i h =
      row-bind (decode_byte-Sized f prev _ _ _ _ _ _ _ h) (λ t p. gives p)

  pub decode_gray_pixel-Sized :
      (d : Single) (i : ℕ)
      → length d.cur ≡ n
      → Settles (λ d'. length d'.cur ≡ n) (decode_gray_pixel f prev d i)
  unfolding decode_gray_pixel
  decode_gray_pixel-Sized d i h =
      row-bind (decode_byte-Sized f prev _ _ _ _ _ _ _ h) (λ t p. gives p)

first_gray-Settles :
    (prev : Option (List ℕ)) (mask u : ℕ) → Settles Anything (first_gray prev mask u)
unfolding first_gray
first_gray-Settles none mask u = search halts
first_gray-Settles (some prev) mask u = search halts

first_channel-Settles :
    (prev : Option (List ℕ)) (k u : ℕ) → Settles Anything (first_channel prev k u)
unfolding first_channel
first_channel-Settles none k u = search halts
first_channel-Settles (some prev) k u = search halts

next_channel-Settles :
    (prev : Option (List ℕ)) (mask k i a u : ℕ) → Settles Anything (next_channel prev mask k i a u)
unfolding next_channel
next_channel-Settles none mask k i a u = search halts
next_channel-Settles (some prev) mask k i a u = search halts

module _ (f : Family) (prev : Option (List ℕ)) {n : ℕ} where
  pub decode_gray_pixel_pos0-Sized :
      (d : Single)
      → length d.cur ≡ n
      → Settles (λ d'. length d'.cur ≡ n) (decode_gray_pixel_pos0 f prev d)
  unfolding decode_gray_pixel_pos0
  decode_gray_pixel_pos0-Sized d h = search (keeps, first_gray-Settles) depth 12

  decode_channel_pos0-Sized :
      (k : ℕ) (r : BitReader) (c : ChannelDecoder) (cur : List ℕ)
      → length cur ≡ n
      → Settles (λ t. length t.2 ≡ n) (decode_channel_pos0 f prev k r c cur)
  unfolding decode_channel_pos0
  decode_channel_pos0-Sized k r c cur h = search (keeps, first_channel-Settles) depth 12

  decode_channel-Sized :
      (mask k i : ℕ) (r : BitReader) (c : ChannelDecoder) (cur : List ℕ)
      → length cur ≡ n
      → Settles (λ t. length t.2 ≡ n) (decode_channel f prev mask k i r c cur)
  unfolding decode_channel
  decode_channel-Sized mask k i r c cur h = search (keeps, next_channel-Settles) depth 14

  pub decode_rgb16_pixel_pos0-Sized :
      (d : Packing)
      → length d.cur ≡ n
      → Settles (λ d'. length d'.cur ≡ n) (decode_rgb16_pixel_pos0 f prev d)
  unfolding decode_rgb16_pixel_pos0
  decode_rgb16_pixel_pos0-Sized d h = store-Sized-bind _ _ _ h (λ cur h.
      row-bind (decode_channel_pos0-Sized _ _ _ _ h) (λ t a.
        row-bind (decode_channel_pos0-Sized _ _ _ _ a)
          (λ t b. row-bind (decode_channel_pos0-Sized _ _ _ _ b) (λ t c. gives c))))

  pub decode_rgb16_pixel-Sized :
      (d : Packing) (i : ℕ)
      → length d.cur ≡ n
      → Settles (λ d'. length d'.cur ≡ n) (decode_rgb16_pixel f prev d i)
  unfolding decode_rgb16_pixel
  decode_rgb16_pixel-Sized d i h = store-Sized-bind _ _ _ h (λ cur h.
      row-bind (decode_channel-Sized _ _ _ _ _ _ h) (λ t a.
        row-bind (decode_channel-Sized _ _ _ _ _ _ a)
          (λ t b. row-bind (decode_channel-Sized _ _ _ _ _ _ b) (λ t c. gives c))))
