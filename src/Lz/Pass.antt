-- ===== src/Lz/Pass.antt =====
-- `decompress_pass` of crates/capsaicin-lz/src/lib.rs. The mutable `ip`, `op` and `out` are passed
-- along. Words are `u32`, so each wrapping sum is taken modulo 2 ^ 32; a pixel is four bytes of `out`.
pub mod Paint
pub mod Reads
pub mod Safety
use capsaicin.Base.{
  ℕ, zero, suc, ◌+◌, ◌-◌, ◌*◌, ◌/◌, ◌%◌, ◌^◌, ◌≡◌, refl, ◌&&◌, ◌||◌, List, [], ◌∷◌, ltb, leb, ◌==◌,
  if◌then◌else◌, length, set, replicate,
}
use capsaicin.Base.Outcome.{Outcome, ok, err, panic, stuck, fail_if, index, ◌>>=◌, ◌>>◌}
use capsaicin.Lz.{LzError, short, max_copy, max_distance}

pub data Stage : Type 0 where
  bgr alpha : Stage

abbrev pub wrap : ℕ → ℕ
wrap v = v % 2 ^ 32

-- `read_byte!()`: the byte and the next `ip`.
unfoldable pub read_byte : List ℕ → ℕ → Outcome LzError (ℕ × ℕ)
read_byte input ip = do
  fail_if (leb (length input) ip) (short 1 0)
  b ← index input ip
  ok (b, ip + 1)

-- `out[i] = v`
unfoldable pub store : List ℕ → ℕ → ℕ → Outcome LzError (List ℕ)
store out i v = if ltb i (length out) then ok (set out i v) else panic

-- The loop of a long length: bytes are added up to the first that is not 255.
unfoldable pub extend_len : ℕ → List ℕ → ℕ → ℕ → Outcome LzError (ℕ × ℕ)
extend_len zero input ip len = stuck
extend_len (suc fuel) input ip len = do
  (code, ip) ← read_byte input ip
  let more = extend_len fuel input ip (wrap (len + code))
  if code == 255 then more else ok (wrap (len + code), ip)

unfoldable pub length_bias : Stage → ℕ
length_bias bgr = 1
length_bias alpha = 3

-- The length of a back-reference whose control byte is `ctrl`, without the bias of the stage, and the
-- next `ip`. Each round of the loop takes a byte, so fuel one more than the input is long is enough.
unfoldable pub read_length : List ℕ → ℕ → ℕ → Outcome LzError (ℕ × ℕ)
read_length input ctrl ip =
    let len = wrap (ctrl / 2 ^ 5 + 2 ^ 32 - 1) in
    if len == 6 then extend_len (suc (length input)) input ip len else ok (len, ip)

-- Its distance, before 1 is added, and the next `ip`.
unfoldable pub read_distance : List ℕ → ℕ → ℕ → Outcome LzError (ℕ × ℕ)
read_distance input ctrl ip = do
  (code, ip) ← read_byte input ip
  let ofs = wrap (ctrl % 32 * 2 ^ 8 + code)
  let far = (do
    (hi, ip) ← read_byte input ip
    (lo, ip) ← read_byte input ip
    ok (wrap (hi * 2 ^ 8 + lo + max_distance), ip))
  if code == 255 && ofs - code == 31 * 2 ^ 8 then far else ok (ofs, ip)

-- One pixel copied from `src` to `op`.
unfoldable pub copy_pixel : Stage → ℕ → ℕ → List ℕ → Outcome LzError (List ℕ)
copy_pixel bgr src op out = do
  b ← index out (src * 4)
  out ← store out (op * 4) b
  g ← index out (src * 4 + 1)
  out ← store out (op * 4 + 1) g
  r ← index out (src * 4 + 2)
  out ← store out (op * 4 + 2) r
  store out (op * 4 + 3) 0
copy_pixel alpha src op out = do a ← index out (src * 4 + 3); store out (op * 4 + 3) a

-- `for _ in 0..len`, with `src` and `op` one further each time.
unfoldable pub copy_run : Stage → ℕ → ℕ → ℕ → List ℕ → Outcome LzError (List ℕ)
copy_run stage zero src op out = ok out
copy_run stage (suc len) src op out = do
  out ← copy_pixel stage src op out
  copy_run stage len (src + 1) (op + 1) out

-- One pixel read from the input: the next `ip`, and the buffer.
unfoldable pub literal_pixel : Stage → List ℕ → ℕ → ℕ → List ℕ → Outcome LzError (ℕ × List ℕ)
literal_pixel bgr input ip op out = do
  (b, ip) ← read_byte input ip
  out ← store out (op * 4) b
  (g, ip) ← read_byte input ip
  out ← store out (op * 4 + 1) g
  (r, ip) ← read_byte input ip
  out ← store out (op * 4 + 2) r
  out ← store out (op * 4 + 3) 0
  ok (ip, out)
literal_pixel alpha input ip op out = do
  (a, ip) ← read_byte input ip
  out ← store out (op * 4 + 3) a
  ok (ip, out)

-- `for _ in 0..count`
unfoldable pub literal_run : Stage → ℕ → List ℕ → ℕ → ℕ → List ℕ → Outcome LzError (ℕ × List ℕ)
literal_run stage zero input ip op out = ok (ip, out)
literal_run stage (suc count) input ip op out = do
  (ip, out) ← literal_pixel stage input ip op out
  literal_run stage count input ip (op + 1) out

-- The body of the main loop, behind the read of `ctrl`: the next `ip` and `op`, and the buffer.
unfoldable pub back_reference :
    Stage → List ℕ → ℕ → ℕ → ℕ → ℕ → List ℕ → Outcome LzError (ℕ × ℕ × List ℕ)
back_reference stage input num_pixels ctrl ip op out = do
  (len, ip) ← read_length input ctrl ip
  (ofs, ip) ← read_distance input ctrl ip
  let len = wrap (len + length_bias stage)
  let ofs = wrap (ofs + 1)
  fail_if (ofs == 0 || ltb op ofs || ltb num_pixels (op + len)) (short len 0)
  out ← copy_run stage len (op - ofs) op out
  ok (ip, op + len, out)

unfoldable pub literal : Stage → List ℕ → ℕ → ℕ → ℕ → ℕ → List ℕ → Outcome LzError (ℕ × ℕ × List ℕ)
literal stage input num_pixels ctrl ip op out = do
  let count = ctrl + 1
  fail_if (ltb num_pixels (op + count)) (short count 0)
  (ip, out) ← literal_run stage count input ip op out
  ok (ip, op + count, out)

unfoldable pub token : Stage → List ℕ → ℕ → ℕ → ℕ → List ℕ → Outcome LzError (ℕ × ℕ × List ℕ)
token stage input num_pixels ip op out = do
  (ctrl, ip) ← read_byte input ip
  if leb max_copy ctrl
      then back_reference stage input num_pixels ctrl ip op out
      else literal stage input num_pixels ctrl ip op out

-- `while op < num_pixels`, with fuel.
unfoldable pub pass_loop : ℕ → Stage → List ℕ → ℕ → ℕ → ℕ → List ℕ → Outcome LzError (ℕ × List ℕ)
pass_loop zero stage input num_pixels ip op out = stuck
pass_loop (suc fuel) stage input num_pixels ip op out =
    let round = (do
      (ip, op, out) ← token stage input num_pixels ip op out
      pass_loop fuel stage input num_pixels ip op out) in
    if ltb op num_pixels then round else ok (ip, out)

-- Each round takes a byte at least, so one round more than the input is long is enough.
-- The result is `ip`, the number of bytes consumed, and the buffer.
unfoldable pub decompress_pass : List ℕ → ℕ → List ℕ → Stage → Outcome LzError (ℕ × List ℕ)
decompress_pass input num_pixels out stage =
    pass_loop (suc (length input)) stage input num_pixels 0 0 out
