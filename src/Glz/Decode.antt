-- ===== src/Glz/Decode.antt =====
-- `decompress_rgb32_inner` of crates/capsaicin-glz/src/lib.rs and its two entry points. The mutable
-- `ip`, `op` and `out` are passed along; a pixel is four bytes of `out`. An addition to a `u32` that
-- may overflow is checked, as it is in a debug build.
mod Reads
mod Copies
pub mod Safety
pub mod Intra
pub mod Panics
use capsaicin.Base.{
  ℕ, zero, suc, ◌+◌, ◌-◌, ◌*◌, ◌/◌, ◌%◌, ◌^◌, ◌≡◌, refl, ◌&&◌, ◌||◌, not, Option, none, some, List,
  [], ◌∷◌, ltb, leb, ◌==◌, if◌then◌else◌, length, set, replicate,
}
use capsaicin.Base.Outcome.{Outcome, ok, err, panic, stuck, fail_if, index, slice, ◌>>=◌, ◌>>◌}
use capsaicin.Lz.{max_copy, to_u32, rgb32}
use capsaicin.Glz.{GlzError, short, cross_image, bad_reference, unsupported_type, validate_dims}
use capsaicin.Glz.Header.{GlzHeader, glz_header_size}
use capsaicin.Glz.Window.{GlzWindow, WindowEntry, get}

-- `take!()`: the byte and the next `ip`.
unfoldable pub take_byte : List ℕ → ℕ → Outcome GlzError (ℕ × ℕ)
take_byte body ip = do fail_if (leb (length body) ip) (short 1 0); b ← index body ip; ok (b, ip + 1)

-- `out[i] = v`
unfoldable pub store : List ℕ → ℕ → ℕ → Outcome GlzError (List ℕ)
store out i v = if ltb i (length out) then ok (set out i v) else panic

-- `a + b` on `u32`
unfoldable pub add_u32 : ℕ → ℕ → Outcome GlzError ℕ
add_u32 a b = if ltb (a + b) (2 ^ 32) then ok (a + b) else panic

-- The loop of a long length: bytes are added up to the first that is not 255.
unfoldable pub extend_len : ℕ → List ℕ → ℕ → ℕ → Outcome GlzError (ℕ × ℕ)
extend_len zero body ip len = stuck
extend_len (suc fuel) body ip len = do
  (code, ip) ← take_byte body ip
  len ← add_u32 len code
  let more = extend_len fuel body ip len
  if code == 255 then more else ok (len, ip)

-- The length of a reference, and the next `ip`.
unfoldable pub read_length : List ℕ → ℕ → ℕ → Outcome GlzError (ℕ × ℕ)
read_length body ctrl ip =
    if ctrl / 2 ^ 5 == 7 then extend_len (suc (length body)) body ip 7 else ok (ctrl / 2 ^ 5, ip)

-- `for i in 0..image_flag`, with `image_flag` at most 3: byte number `i` is shifted by
-- `first + 8 * i`, 22 at most, so the sum fits a `u32`.
unfoldable pub read_dist : ℕ → List ℕ → ℕ → ℕ → ℕ → Outcome GlzError (ℕ × ℕ)
read_dist zero body shift ip image_dist = ok (image_dist, ip)
read_dist (suc rounds) body shift ip image_dist = do
  (extra, ip) ← take_byte body ip
  read_dist rounds body (shift + 8) ip (image_dist + extra * 2 ^ shift)

-- Where a reference points.
pub record Target : Type 0 where
  pub image_dist : ℕ
  pub pixel_ofs : ℕ
  pub next_ip : ℕ

-- The offset and the image distance. The sums stay below 2 ^ 26 and 2 ^ 31.
unfoldable pub read_target : List ℕ → ℕ → ℕ → Outcome GlzError Target
read_target body ctrl ip = do
  (code, ip) ← take_byte body ip
  let pixel_ofs = ctrl % 16 + code * 2 ^ 4
  (code, ip) ← take_byte body ip
  let image_flag = code / 2 ^ 6 % 4
  let near = (do
    (image_dist, ip) ← read_dist image_flag body 6 ip (code % 64)
    ok (record { image_dist = image_dist; pixel_ofs = pixel_ofs; next_ip = ip }))
  let wide = (do
    (image_dist, ip) ← read_dist image_flag body 0 ip 0
    let pixel_ofs = pixel_ofs + code % 32 * 2 ^ 12
    let wider = (do
      (extra, ip) ← take_byte body ip
      ok (record { image_dist = image_dist; pixel_ofs = pixel_ofs + extra * 2 ^ 17; next_ip = ip }))
    if code / 2 ^ 5 % 2 == 0
        then ok (record { image_dist = image_dist; pixel_ofs = pixel_ofs; next_ip = ip })
        else wider)
  if ctrl / 2 ^ 4 % 2 == 0 then near else wide

-- One pixel of `out` from three bytes of `src`, which may be `out` itself.
unfoldable pub copy_pixel : List ℕ → ℕ → ℕ → List ℕ → Outcome GlzError (List ℕ)
copy_pixel pixels s d out = do
  b ← index pixels s
  out ← store out d b
  g ← index pixels (s + 1)
  out ← store out (d + 1) g
  r ← index pixels (s + 2)
  out ← store out (d + 2) r
  store out (d + 3) 0

-- The same within `out`, where each read sees the writes before it.
unfoldable pub copy_within_pixel : ℕ → ℕ → List ℕ → Outcome GlzError (List ℕ)
copy_within_pixel s d out = do
  b ← index out s
  out ← store out d b
  g ← index out (s + 1)
  out ← store out (d + 1) g
  r ← index out (s + 2)
  out ← store out (d + 2) r
  store out (d + 3) 0

-- `for _ in 0..len_us` of a reference within the image.
unfoldable pub copy_within : ℕ → ℕ → ℕ → List ℕ → Outcome GlzError (List ℕ)
copy_within zero src op out = ok out
copy_within (suc len) src op out = do
  out ← copy_within_pixel (src * 4) (op * 4) out
  copy_within len (src + 1) (op + 1) out

-- `for k in 0..len_us` of a reference to another image, with `src` at `src_start + k * bpp`.
unfoldable pub copy_across : ℕ → WindowEntry → ℕ → ℕ → List ℕ → Outcome GlzError (List ℕ)
copy_across zero entry src op out = ok out
copy_across (suc len) entry src op out = do
  out ← copy_pixel entry.pixels src (op * 4) out
  copy_across len entry (src + entry.bpp) (op + 1) out

-- `let Some(x) = o else { return Err(e) }`
abbrev pub or_fail : {A : Type 0} → Option A → GlzError → Outcome GlzError A
or_fail none e = err e
or_fail (some a) e = ok a

-- `window` and then `window.get(self_id.wrapping_sub(image_dist))`
unfoldable pub find_entry : Option GlzWindow → ℕ → ℕ → Outcome GlzError WindowEntry
find_entry window self_id image_dist = do
  w ← or_fail window (cross_image image_dist)
  or_fail (get w ((self_id + 2 ^ 64 - image_dist) % 2 ^ 64)) (cross_image image_dist)

unfoldable pub refer_within : ℕ → ℕ → ℕ → List ℕ → Outcome GlzError (List ℕ)
refer_within len pixel_ofs op out = do
  fail_if (pixel_ofs == 0 || ltb op pixel_ofs) bad_reference
  copy_within len (op - pixel_ofs) op out

unfoldable pub refer_across :
    Option GlzWindow → ℕ → ℕ → ℕ → ℕ → ℕ → List ℕ → Outcome GlzError (List ℕ)
refer_across window self_id image_dist len pixel_ofs op out = do
  entry ← find_entry window self_id image_dist
  let src_start = pixel_ofs * entry.bpp
  fail_if (ltb (length entry.pixels) (src_start + len * entry.bpp)) bad_reference
  copy_across len entry src_start op out

-- The next `ip` and `op`, and the buffer.
unfoldable pub reference :
    Option GlzWindow → ℕ → List ℕ → ℕ → ℕ → ℕ → ℕ → List ℕ → Outcome GlzError (ℕ × ℕ × List ℕ)
reference window self_id body n_pixels ctrl ip op out = do
  (len, ip) ← read_length body ctrl ip
  t ← read_target body ctrl ip
  fail_if (ltb n_pixels (op + len)) bad_reference
  out ←
      (if t.image_dist == 0
        then refer_within len (t.pixel_ofs + 1) op out
        else refer_across window self_id t.image_dist len t.pixel_ofs op out)
  ok (t.next_ip, op + len, out)

unfoldable pub literal_pixel : List ℕ → ℕ → ℕ → List ℕ → Outcome GlzError (ℕ × List ℕ)
literal_pixel body ip op out = do
  (b, ip) ← take_byte body ip
  out ← store out (op * 4) b
  (g, ip) ← take_byte body ip
  out ← store out (op * 4 + 1) g
  (r, ip) ← take_byte body ip
  out ← store out (op * 4 + 2) r
  out ← store out (op * 4 + 3) 0
  ok (ip, out)

unfoldable pub literal_run : ℕ → List ℕ → ℕ → ℕ → List ℕ → Outcome GlzError (ℕ × List ℕ)
literal_run zero body ip op out = ok (ip, out)
literal_run (suc count) body ip op out = do
  (ip, out) ← literal_pixel body ip op out
  literal_run count body ip (op + 1) out

unfoldable pub literal : List ℕ → ℕ → ℕ → ℕ → ℕ → List ℕ → Outcome GlzError (ℕ × ℕ × List ℕ)
literal body n_pixels ctrl ip op out = do
  fail_if (ltb n_pixels (op + (ctrl + 1))) bad_reference
  (ip, out) ← literal_run (ctrl + 1) body ip op out
  ok (ip, op + (ctrl + 1), out)

unfoldable pub token :
    Option GlzWindow → ℕ → List ℕ → ℕ → ℕ → ℕ → List ℕ → Outcome GlzError (ℕ × ℕ × List ℕ)
token window self_id body n_pixels ip op out = do
  (ctrl, ip) ← take_byte body ip
  if leb max_copy ctrl
      then reference window self_id body n_pixels ctrl ip op out
      else literal body n_pixels ctrl ip op out

-- `vec![0u8; n_pixels * 4]`
abbrev pub zeroed : ℕ → List ℕ
zeroed n_pixels = replicate (n_pixels * 4) 0

-- `while op < n_pixels`, with fuel.
unfoldable pub decode_loop :
    ℕ → Option GlzWindow → ℕ → List ℕ → ℕ → ℕ → ℕ → List ℕ → Outcome GlzError (List ℕ)
decode_loop zero window self_id body n_pixels ip op out = stuck
decode_loop (suc fuel) window self_id body n_pixels ip op out =
    let round = (do
      (ip, op, out) ← token window self_id body n_pixels ip op out
      decode_loop fuel window self_id body n_pixels ip op out) in
    if ltb op n_pixels then round else ok out

-- Each round takes a byte at least, so one round more than the body is long is enough.
unfoldable pub decompress_rgb32_inner :
    List ℕ → GlzHeader → Option GlzWindow → ℕ → Outcome GlzError (List ℕ)
decompress_rgb32_inner stream header window self_id = do
  bytes ← validate_dims header.width header.height 4
  fail_if (not (to_u32 header.image_type == to_u32 rgb32)) (unsupported_type header.image_type)
  body ← slice stream glz_header_size (length stream)
  let n_pixels = header.width * header.height
  decode_loop (suc (length body)) window self_id body n_pixels 0 0 (zeroed n_pixels)

unfoldable pub decompress_rgb32_intra : List ℕ → GlzHeader → Outcome GlzError (List ℕ)
decompress_rgb32_intra stream header = decompress_rgb32_inner stream header none header.id

unfoldable pub decompress_rgb32 : List ℕ → GlzHeader → GlzWindow → Outcome GlzError (List ℕ)
decompress_rgb32 stream header window = decompress_rgb32_inner stream header (some window) header.id
