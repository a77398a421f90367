-- ===== src/Quic/Rgb32/Pixels.antt =====
-- A pixel of an RGB32 row, coded and decoded.
use capsaicin.Quic.Rgb32.Calls.{
  sides, Writing, decoding, Reading, joined, opened, mask_8, encode_three, decode_three,
  encode_three_pos0, decode_three_pos0, Decode, channels, Loops,
}
use capsaicin.Base.{
  ℕ, ◌+◌, ◌-◌, ◌*◌, ◌≤◌, ◌<◌, ◌≡◌, refl, ◌∙◌, ap, sym, subst, Option, some, List, ◌++◌, append-nil,
  [], arith, set, get_elem?,
}
use capsaicin.Base.Outcome.{Outcome, ok, ◌>>=◌}
use capsaicin.Quic.{QuicError}
use capsaicin.Quic.Family.{init}
use capsaicin.Quic.Family.Tables.{bpc_8}
use capsaicin.Quic.Stream.{BitReader, BitWriter}
use capsaicin.Quic.Stream.Writes.{Holds}
use capsaicin.Quic.Stream.Reads.{Before}
use capsaicin.Quic.State.{CommonState}
use capsaicin.Quic.Model.{ChannelDecoder}
use capsaicin.Quic.Model.Invariant.{store_lem, update_model_at-IsModel}
use capsaicin.Quic.Plane.Channel.{ByteCoded, byte_next, byte_pos0}
use capsaicin.Quic.Segment.Lockstep.{Lockstep}
use capsaicin.Quic.Segment.Walk.{at}
use capsaicin.Quic.Rgb32.{
  Channels, Decoding, Encoding, decode_one_pixel, encode_one_pixel, decode_one_pixel_pos0,
  encode_one_pixel_pos0, update_models_at,
}
use capsaicin.Quic.Rgb32.Painted.{
  IsRow, Painted, Painted-set, row_byte, paint, paint-Painted, RowAbove, RowAbove-Above,
}

-- A pixel from its three bytes.
module _ {width : ℕ} {cur : List ℕ} (i : ℕ) (bs : List ℕ) (e : Encoding) (inside : i < width)
    {xr xg xb : ℕ} {Fr Fg Fb : List ℕ → Type 0} (er : get_elem? cur (i * 4 + 2) ≡ some xr)
    (eg : get_elem? cur (i * 4 + 1) ≡ some xg) (eb : get_elem? cur (i * 4 + 0) ≡ some xb)
    {enc_r enc_g enc_b : Outcome QuicError (BitWriter × ChannelDecoder)}
    {dec_r dec_g dec_b : Decode} (r : ByteCoded width bs (i * 4 + 2) xr Fr enc_r dec_r)
    (g : ByteCoded width (bs ++ r.code) (i * 4 + 1) xg Fg enc_g dec_g)
    (b : ByteCoded width ((bs ++ r.code) ++ g.code) (i * 4 + 0) xb Fb enc_b dec_b)
    (fit_r : (o : List ℕ) → Painted width cur o i → Fr o)
    (fit_g : (o : List ℕ) → Painted width cur o i → Fg o)
    (fit_b : (o : List ℕ) → Painted width cur o i → Fb o) where
  decode_pixel :
      (dec : Decoding → Outcome QuicError Decoding)
      → Loops i e.chans dec_r dec_g dec_b r.chan g.chan b.chan dec
      → (more : List ℕ) (d : Decoding)
      → Reading width cur i bs ((r.code ++ (g.code ++ b.code)) ++ more) e d
      → (d' : Decoding) × (dec d ≡ ok d')
        × Reading width cur
            (i + 1)
            (bs ++ (r.code ++ (g.code ++ b.code)))
            more
            (record { writer = b.writer; chans = channels r.chan g.chan b.chan })
            d'
  decode_pixel dec loops more d v =
      let out = v.out in
      let o1 = set out (i * 4 + 3) 0 in
      let o2 = set o1 (i * 4 + 2) xr in
      let o3 = set o2 (i * 4 + 1) xg in
      let p1 = Painted-set (i * 4 + 3) 0 (omega arith) v.painted in
      let p2 = Painted-set (i * 4 + 2) xr (omega arith) p1 in
      let p3 = Painted-set (i * 4 + 1) xg (omega arith) p2 in
      let start = subst (Before v.reader v.ws bs) (opened r.code g.code b.code more) v.before in
      let (tr, qr) =
        r.decoded (g.code ++ (b.code ++ more)) o1 start (omega (arith, p1.size, inside))
          (fit_r o1 p1) in
      let (tg, qg) =
        g.decoded (b.code ++ more) o2 tr.before (omega (arith, p2.size, inside)) (fit_g o2 p2) in
      let (tb, qb) = b.decoded more o3 tg.before (omega (arith, p3.size, inside)) (fit_b o3 p3) in
      let st = store_lem out (i * 4 + 3) 0 (omega (arith, v.painted.size, inside)) in
      (
        decoding tb.reader (channels r.chan g.chan b.chan) (paint out i xr xg xb),
        ap dec v.same
            ∙ loops v.reader out tr.reader tg.reader tb.reader o1 o2 o3 (paint out i xr xg xb) st qr
                qg qb,
        record {
          ws = v.ws;
          reader = tb.reader;
          out = paint out i xr xg xb;
          same = refl;
          before =
              subst (λ t. Before tb.reader v.ws t more) (joined bs r.code g.code b.code) tb.before;
          painted = paint-Painted xr xg xb inside er eg eb v.painted;
        },
      )

  coded_pixel :
      (enc : Outcome QuicError Encoding) (dec : Decoding → Outcome QuicError Decoding)
      → enc ≡ ok (record { writer = b.writer; chans = channels r.chan g.chan b.chan })
      → Loops i e.chans dec_r dec_g dec_b r.chan g.chan b.chan dec
      → Lockstep (sides width cur) (at (i + 1)) i bs e enc dec
  coded_pixel enc dec encoded loops = record {
    shape = tt;
    good = tt;
    next = record { writer = b.writer; chans = channels r.chan g.chan b.chan };
    code = r.code ++ (g.code ++ b.code);
    encoded = encoded;
    kept = record {
      holds = subst (Holds b.writer) (joined bs r.code g.code b.code) b.holds;
      models = record { r = r.model; g = g.model; b = b.model };
    };
    decoded = decode_pixel dec loops;
  }

module _ {width : ℕ} {cur : List ℕ} {pe pd : Option (List ℕ)} (row : IsRow width cur)
    (above : RowAbove width pe pd) where
  pub pixel_lem :
      (i : ℕ) (bs : List ℕ) (e : Encoding)
      → 0 < i
      → i < width
      → Writing width bs e
      → Lockstep
          (sides width cur)
          (at (i + 1))
          i
          bs
          e
          (encode_one_pixel (init 8) pe cur e i)
          (λ d. decode_one_pixel (init 8) pd d i)
  pixel_lem i bs e pos inside h =
      let back : i * 4 - 4 ≡ (i - 1) * 4 = omega arith in
      let (xr, er, br) = row_byte row i 2 inside (omega arith) in
      let (xg, eg, bg) = row_byte row i 1 inside (omega arith) in
      let (xb, eb, bb) = row_byte row i 0 inside (omega arith) in
      let (ar, fr, cr) = row_byte row (i - 1) 2 (omega (arith, inside)) (omega arith) in
      let (ag, fg, cg) = row_byte row (i - 1) 1 (omega (arith, inside)) (omega arith) in
      let (ab, fb, cb) = row_byte row (i - 1) 0 (omega (arith, inside)) (omega arith) in
      let left = λ (dst a : ℕ) (e : get_elem? cur ((i - 1) * 4 + dst) ≡ some a).
        subst (λ (t : ℕ). get_elem? cur (t + dst) ≡ some a) (sym back) e in
      let r =
        byte_next h.models.r h.holds pe pd cur xr br i 2 ar pos inside cr er (left 2 ar fr)
          (RowAbove-Above above i 2 inside (omega arith)) in
      let g =
        byte_next h.models.g r.holds pe pd cur xg bg i 1 ag pos inside cg eg (left 1 ag fg)
          (RowAbove-Above above i 1 inside (omega arith)) in
      let b =
        byte_next h.models.b g.holds pe pd cur xb bb i 0 ab pos inside cb eb (left 0 ab fb)
          (RowAbove-Above above i 0 inside (omega arith)) in
      coded_pixel i bs e inside er eg eb r g b
        (λ o p. p.colour (i - 1) 2 (omega (arith, pos)) (omega arith) ∙ fr)
        (λ o p. p.colour (i - 1) 1 (omega (arith, pos)) (omega arith) ∙ fg)
        (λ o p. p.colour (i - 1) 0 (omega (arith, pos)) (omega arith) ∙ fb)
        (encode_one_pixel (init 8) pe cur e i) (λ d. decode_one_pixel (init 8) pd d i)
        (encode_three (init 8) pe 255 i mask_8 cur e r.encoded g.encoded b.encoded)
        (λ r0 out r1 r2 r3 o1 o2 o3 o4. decode_three (init 8) pd 255 i mask_8 r0 e.chans out)

  pub first_lem :
      (bs : List ℕ) (e : Encoding)
      → 0 < width
      → Writing width bs e
      → Lockstep
          (sides width cur)
          (at 1)
          0
          bs
          e
          (encode_one_pixel_pos0 (init 8) pe cur e)
          (λ d. decode_one_pixel_pos0 (init 8) pd d)
  first_lem bs e inside h =
      let (xr, er, br) = row_byte row 0 2 inside (omega arith) in
      let (xg, eg, bg) = row_byte row 0 1 inside (omega arith) in
      let (xb, eb, bb) = row_byte row 0 0 inside (omega arith) in
      let r =
        byte_pos0 h.models.r h.holds pe pd cur xr br 2 inside er
          (RowAbove-Above above 0 2 inside (omega arith)) in
      let g =
        byte_pos0 h.models.g r.holds pe pd cur xg bg 1 inside eg
          (RowAbove-Above above 0 1 inside (omega arith)) in
      let b =
        byte_pos0 h.models.b g.holds pe pd cur xb bb 0 inside eb
          (RowAbove-Above above 0 0 inside (omega arith)) in
      coded_pixel 0 bs e inside er eg eb r g b (λ o p. tt) (λ o p. tt) (λ o p. tt)
        (encode_one_pixel_pos0 (init 8) pe cur e) (λ d. decode_one_pixel_pos0 (init 8) pd d)
        (encode_three_pos0 (init 8) pe 255 0 mask_8 cur e r.encoded g.encoded b.encoded)
        (λ r0 out r1 r2 r3 o1 o2 o3 o4. decode_three_pos0 (init 8) pd 255 0 mask_8 r0 e.chans out)

  -- The update of the models, which neither side's bits show.
  pub update_lem :
      (st : CommonState) (i k : ℕ) (bs : List ℕ) (e : Encoding)
      → k < i
      → i ≤ width
      → Writing width bs e
      → Lockstep
          (sides width cur)
          (at i)
          i
          bs
          e
          (do chans ← update_models_at (init 8) st e.chans k; ok (record e { chans = chans }))
          (λ d. do chans ← update_models_at (init 8) st d.chans k; ok (record d { chans = chans }))
  unfolding update_models_at
  update_lem st i k bs e less inside h =
      let at_k : k < width = omega (arith, less, inside) in
      let (r, qr, mr) = update_model_at-IsModel (init 8) st k bpc_8 at_k h.models.r in
      let (g, qg, mg) = update_model_at-IsModel (init 8) st k bpc_8 at_k h.models.g in
      let (b, qb, mb) = update_model_at-IsModel (init 8) st k bpc_8 at_k h.models.b in
      let cs : Channels = record { chan_r = r; chan_g = g; chan_b = b } in
      let both : update_models_at (init 8) st e.chans k ≡ ok cs = rw (qr, qg, qb) in
      record {
        shape = tt;
        good = tt;
        next = record e { chans = cs };
        code = [];
        encoded = rw both;
        kept = record {
          holds = subst (Holds e.writer) (sym (append-nil bs)) h.holds;
          models = record { r = mr; g = mg; b = mb };
        };
        decoded = λ more d v. (
          decoding v.reader cs v.out,
          updated st k d v.reader e.chans cs v.out v.same both,
          record {
            ws = v.ws;
            reader = v.reader;
            out = v.out;
            same = refl;
            before = subst (λ t. Before v.reader v.ws t more) (sym (append-nil bs)) v.before;
            painted = v.painted;
          },
        );
      }
    where
      updated :
          (st : CommonState) (k : ℕ) (d : Decoding) (r : BitReader) (cs cs' : Channels)
          (out : List ℕ)
          → d ≡ decoding r cs out
          → update_models_at (init 8) st cs k ≡ ok cs'
          → (do chans ← update_models_at (init 8) st d.chans k; ok (record d { chans = chans }))
            ≡ ok (decoding r cs' out)
      updated st k d r cs cs' out e q =
          ap
            (λ (d : Decoding). do
              chans ← update_models_at (init 8) st d.chans k
              ok (record d { chans = chans }))
            e
          ∙ rw q
