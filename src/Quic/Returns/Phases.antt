-- ===== src/Quic/Returns/Phases.antt =====
-- The rows of QUIC images are decoded in bounded time and keep their lengths, whatever the bits are.
use capsaicin.Base.{
  ℕ, ◌-◌, suc, refl, ap, length, All, ◌≡◌, ◌∙◌, true, false, Option, none, some, List, [], ◌∷◌, leb,
}
use capsaicin.Base.Outcome.{Outcome}
use capsaicin.Base.Settles.{
  Settles, gives, panics, Anything, Settles-bind, Settles-if, Settles-map, Halts-ok, Halts-if,
}
use capsaicin.Quic.{QuicError}
use capsaicin.Quic.Family.{Family}
use capsaicin.Quic.Stream.{BitReader}
use capsaicin.Quic.State.{CommonState}
use capsaicin.Quic.Model.{ChannelDecoder}
use capsaicin.Quic.Segment.Walk.{is_last}
use capsaicin.Quic.Rgb32.{Channels, is_run_index, rle_match, decode_steps}
use capsaicin.Quic.Rgb32.Starts.{is_last_index}
use capsaicin.Quic.Rgb32.Image.{next_row, next_rows, decompress_rgb_phase}
use capsaicin.Quic.Rgb16.{rgb16_steps, decompress_rgb16_phase}
use capsaicin.Quic.Single.{Single, alpha_steps, gray_steps}
use capsaicin.Quic.Single.Image.{decompress_single_phase}
use capsaicin.Quic.Returns.{halts, any-bind, update_model_at-Settles}
use capsaicin.Quic.Returns.Pixels.{
  update_models_at-Settles, same_bgr-Settles, decode_one_pixel_pos0-Sized, decode_one_pixel-Sized,
  decode_alpha_pixel_pos0-Sized, decode_alpha_pixel-Sized, decode_gray_pixel_pos0-Sized,
  decode_gray_pixel-Sized, decode_rgb16_pixel_pos0-Sized, decode_rgb16_pixel-Sized,
}
use capsaicin.Quic.Returns.Runs.{decode_run-Settles}
use capsaicin.Quic.Returns.Rows.{row-Settles}
use capsaicin.Quic.Returns.Loops.{Halting}

rle_match-Settles :
    (prev : Option (List ℕ)) (cur : List ℕ) (j : ℕ) (run_index : Option ℕ)
    → Settles (λ b. b ≡ true → is_last run_index j ≡ false) (rle_match prev cur j run_index)
unfolding rle_match
rle_match-Settles none cur j run_index = gives (λ h. cc)
rle_match-Settles (some prev) cur j run_index =
    Settles-if (leb j 2) _ _ (λ low. gives (λ h. cc))
      (λ high.
        Settles-if (is_run_index run_index j) _ _ (λ last. gives (λ h. cc))
          (λ fresh.
            let e = is_last_index run_index j ∙ fresh in
            Settles-bind (same_bgr-Settles prev (j - 1) prev j) (λ above p.
              Settles-map (λ b q h. e)
                (Halts-if above (same_bgr-Settles cur (j - 1) cur (j - 2)) (Halts-ok false)))))

-- A row of `n` bytes, or of `n` pixels, keeps that length.
module _ (f : Family) (prev : Option (List ℕ)) (n : ℕ) where
  decode_steps-Halting : Halting (λ d. length d.cur_bgra ≡ n) (decode_steps f prev)
  unfolding decode_steps
  decode_steps-Halting = record {
    first = decode_one_pixel_pos0-Sized f prev;
    pixel = decode_one_pixel-Sized f prev;
    update = λ st d i h. any-bind (update_models_at-Settles f st d.chans i) (λ cs. gives h);
    starts = λ d j run_index. rle_match-Settles prev d.cur_bgra j run_index;
    run = decode_run-Settles;
  }

  pub alpha_steps-Halting : Halting (λ d. length d.cur ≡ n) (alpha_steps f prev)
  unfolding alpha_steps
  alpha_steps-Halting = record {
    first = decode_alpha_pixel_pos0-Sized f prev;
    pixel = decode_alpha_pixel-Sized f prev;
    update = λ st d i h. any-bind (update_model_at-Settles f st d.chan i) (λ c. gives h);
    starts = λ d j run_index. gives (λ h. cc);
    run = λ st d j end h. panics;
  }

  pub gray_steps-Halting : Halting (λ d. length d.cur ≡ n) (gray_steps f prev)
  unfolding gray_steps
  gray_steps-Halting = record {
    first = decode_gray_pixel_pos0-Sized f prev;
    pixel = decode_gray_pixel-Sized f prev;
    update = λ st d i h. any-bind (update_model_at-Settles f st d.chan i) (λ c. gives h);
    starts = λ d j run_index. gives (λ h. cc);
    run = λ st d j end h. panics;
  }

  rgb16_steps-Halting : Halting (λ d. length d.cur ≡ n) (rgb16_steps f prev)
  unfolding rgb16_steps
  rgb16_steps-Halting = record {
    first = decode_rgb16_pixel_pos0-Sized f prev;
    pixel = decode_rgb16_pixel-Sized f prev;
    update = λ st d i h. any-bind (update_models_at-Settles f st d.chans i) (λ cs. gives h);
    starts = λ d j run_index. gives (λ h. cc);
    run = λ st d j end h. panics;
  }

next_row-Settles : (c : ChannelDecoder) → Settles Anything (next_row c)
unfolding next_row
next_row-Settles c = search halts

next_rows-Settles : (cs : Channels) → Settles Anything (next_rows cs)
unfolding next_rows
next_rows-Settles cs = search (halts, next_row-Settles) depth 12

-- `height` rows of `n` elements.
abbrev pub IsGrid : ℕ → ℕ → List (List ℕ) → Type 0
IsGrid n height rows = (length rows ≡ height) × (All (λ row. length row ≡ n) rows)

-- The decoders of the rows keep their number and their lengths.
pub rgb_phase-Settles :
    (f : Family) (n height width : ℕ) (prev : Option (List ℕ)) (st : CommonState) (r : BitReader)
    (cs : Channels) (rows : List (List ℕ))
    → IsGrid n height rows
    → Settles (λ t. IsGrid n height t.1) (decompress_rgb_phase f width prev st r cs rows)
unfolding decompress_rgb_phase
rgb_phase-Settles f n height width prev st r cs [] g = gives g
rgb_phase-Settles f n height width prev st r cs (cur ∷ rows) g =
    Settles-bind
      (row-Settles (decode_steps-Halting f prev n) st
        (record { reader = r; chans = cs; cur_bgra = cur }) width g.1.0)
      (λ t p. any-bind (next_rows-Settles t.1.chans) (λ cs'.
        Settles-bind
          (rgb_phase-Settles f n (length rows) width (some t.1.cur_bgra) t.0 t.1.reader cs' rows
            (refl, g.1.1))
          (λ u q. gives (ap suc q.0 ∙ g.0, (p, q.1)))))

pub rgb16_phase-Settles :
    (f : Family) (n height width : ℕ) (prev : Option (List ℕ)) (st : CommonState) (r : BitReader)
    (cs : Channels) (rows : List (List ℕ))
    → IsGrid n height rows
    → Settles (IsGrid n height) (decompress_rgb16_phase f width prev st r cs rows)
unfolding decompress_rgb16_phase
rgb16_phase-Settles f n height width prev st r cs [] g = gives g
rgb16_phase-Settles f n height width prev st r cs (cur ∷ rows) g =
    Settles-bind
      (row-Settles (rgb16_steps-Halting f prev n) st (record { reader = r; chans = cs; cur = cur })
        width g.1.0)
      (λ t p. any-bind (next_rows-Settles t.1.chans) (λ cs'.
        Settles-bind
          (rgb16_phase-Settles f n (length rows) width (some t.1.cur) t.0 t.1.reader cs' rows
            (refl, g.1.1))
          (λ u q. gives (ap suc q.0 ∙ g.0, (p, q.1)))))

pub single_phase-Settles :
    (n : ℕ)
    (decode_row : Option (List ℕ)
      → CommonState
      → Single
      → ℕ
      → Outcome QuicError (CommonState × Single))
    → ((prev : Option (List ℕ)) (st : CommonState) (s : Single) (width : ℕ)
        → length s.cur ≡ n
        → Settles (λ t. length t.1.cur ≡ n) (decode_row prev st s width))
    → (height width : ℕ) (prev : Option (List ℕ)) (st : CommonState) (r : BitReader)
      (c : ChannelDecoder) (rows : List (List ℕ))
    → IsGrid n height rows
    → Settles (IsGrid n height) (decompress_single_phase decode_row width prev st r c rows)
unfolding decompress_single_phase
single_phase-Settles n decode_row h height width prev st r c [] g = gives g
single_phase-Settles n decode_row h height width prev st r c (cur ∷ rows) g =
    Settles-bind (h prev st (record { reader = r; chan = c; cur = cur }) width g.1.0) (λ t p.
      any-bind (next_row-Settles t.1.chan) (λ c'.
        Settles-bind
          (single_phase-Settles n decode_row h (length rows) width (some t.1.cur) t.0 t.1.reader c'
            rows (refl, g.1.1))
          (λ u q. gives (ap suc q.0 ∙ g.0, (p, q.1)))))
