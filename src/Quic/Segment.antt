-- ===== src/Quic/Segment.antt =====
-- The loops over a row that the decoders and the encoder of crates/capsaicin-quic/src/lib.rs share:
-- `decompress_seg_rgb32`, `compress_seg_rgb32`, `decompress_alpha_seg`, `decompress_gray_seg`,
-- `decompress_rgb16_seg` and the functions for a row around them. They differ in what is done at one
-- pixel and in their state, `S`.
pub mod Lockstep
pub mod Walk
pub mod Rows
pub mod Whole
use Prim.Native.Nat.{bit_and}
use capsaicin.Base.{
  ℕ, zero, suc, ◌+◌, ◌-◌, ◌*◌, ◌%◌, ◌^◌, Bool, Option, none, some, ◌&&◌, ltb, leb, ◌==◌,
  if◌then◌else◌,
}
use capsaicin.Base.Outcome.{Outcome, ok, stuck, ◌>>=◌}
use capsaicin.Quic.{QuicError}
use capsaicin.Quic.Words.{bppmask, add_u32, wrapping_sub}
use capsaicin.Quic.State.{CommonState, tabrand, set_wm_trigger, defwmimax, defwminext}

-- What a loop does at a pixel. `run` handles a run that starts at a pixel of a segment with the given
-- end, and gives the index behind the run. A loop without runs never `starts` one.
pub record Steps (S : Type 0) : Type 0 where
  pub first : S → Outcome QuicError S
  pub pixel : S → ℕ → Outcome QuicError S
  pub update : CommonState → S → ℕ → Outcome QuicError S
  pub starts : S → ℕ → Option ℕ → Outcome QuicError Bool
  pub run : CommonState → S → ℕ → ℕ → Outcome QuicError (CommonState × S × ℕ)

-- Where a loop over pixels ends: behind its last pixel, or behind a run that started at `from`.
pub data Walked (S : Type 0) : Type 0 where
  reached : S → Walked S
  ran : CommonState → S → (from : ℕ) → (i : ℕ) → Walked S

-- A round of the outer loop ends the segment, or the loop goes on at `i` up to `stopidx`.
pub data Round (S : Type 0) : Type 0 where
  finished : CommonState → S → Round S
  onwards : CommonState → S → Option ℕ → (i : ℕ) → (stopidx : ℕ) → Round S

module _ {S : Type 0} where
  -- `while j <= stopidx` and `while j < end`, for the pixels from `j` on.
  unfoldable pub pixels :
      ℕ → Steps S → ℕ → ℕ → CommonState → Option ℕ → S → ℕ → Outcome QuicError (Walked S)
  pixels zero steps stopidx end state run_index s j = ok (reached s)
  pixels (suc rounds) steps stopidx end state run_index s j = do
    starts ← steps.starts s j run_index
    let jump = (do
      (state, s, i) ← steps.run (record state { waitcnt = wrapping_sub stopidx j }) s j end
      ok (ran state s j i))
    let step = (do s ← steps.pixel s j; pixels rounds steps stopidx end state run_index s (j + 1))
    if starts then jump else step

  -- Behind a run.
  unfoldable pub after_run : ℕ → CommonState → S → ℕ → ℕ → Outcome QuicError (Round S)
  unfolding add_u32
  after_run end state s from i =
      let more = (do
        stopidx ← add_u32 i state.waitcnt
        ok (onwards state s (some from) i stopidx)) in
      if i == end then ok (finished state s) else more

  -- A stretch up to `stopidx`, where the model is updated.
  unfoldable pub stretch :
      Steps S → ℕ → ℕ → CommonState → Option ℕ → S → ℕ → ℕ → Outcome QuicError (Round S)
  unfolding pixels after_run
  stretch steps waitmask end state run_index s i stopidx = do
    w ← pixels (stopidx + 1 - i) steps stopidx end state run_index s i
    elim w [
      | ran state s from i ↦ after_run end state s from i
      | reached s ↦ do
        s ← steps.update state s stopidx
        let (drawn, seed) = tabrand state.tabrand_seed
        next ← add_u32 (stopidx + 1) (bit_and drawn waitmask)
        ok (onwards (record state { tabrand_seed = seed }) s run_index (stopidx + 1) next)
    ]

  -- The tail of the segment.
  unfoldable pub tail :
      Steps S → ℕ → CommonState → Option ℕ → S → ℕ → ℕ → Outcome QuicError (Round S)
  unfolding pixels after_run
  tail steps end state run_index s i stopidx = do
    w ← pixels (end - i) steps stopidx end state run_index s i
    elim w [
      | ran state s from i ↦ after_run end state s from i
      | reached s ↦ ok (finished (record state { waitcnt = wrapping_sub stopidx end }) s)
    ]

  -- `'outer: loop`. A round moves `i`, except that a run may be empty, and then a pixel follows.
  unfoldable pub rounds :
      ℕ → Steps S → ℕ → ℕ → CommonState → Option ℕ → S → ℕ → ℕ → Outcome QuicError (CommonState × S)
  unfolding stretch tail
  rounds zero steps waitmask end state run_index s i stopidx = stuck
  rounds (suc fuel) steps waitmask end state run_index s i stopidx = do
    let one = stretch steps waitmask end state run_index s i stopidx
    let rest = tail steps end state run_index s i stopidx
    r ← (if ltb stopidx end then one else rest)
    elim r [
      | finished state s ↦ ok (state, s)
      | onwards state s run_index i stopidx ↦
          rounds fuel steps waitmask end state run_index s i stopidx
    ]

  -- The first pixel of a row, and the wait behind it.
  unfoldable pub begin : Steps S → ℕ → CommonState → S → Outcome QuicError (CommonState × S)
  begin steps waitmask state s = do
    s ← steps.first s
    let (drawn, seed) = tabrand state.tabrand_seed
    let drawn_state = record state { waitcnt = bit_and drawn waitmask; tabrand_seed = seed }
    let update = (do s ← steps.update drawn_state s 0; ok (drawn_state, s))
    if ltb 0 state.waitcnt then ok (record state { waitcnt = state.waitcnt - 1 }, s) else update

  unfoldable pub segment : Steps S → CommonState → S → ℕ → ℕ → Outcome QuicError (CommonState × S)
  unfolding rounds begin add_u32
  segment steps state s start end = do
    let waitmask = bppmask state.wmidx
    let head = begin steps waitmask state s
    (state, s) ← (if start == 0 then head else ok (state, s))
    let i = if start == 0 then 1 else start
    stopidx ← add_u32 i state.waitcnt
    rounds (2 * (end - start) + 2) steps waitmask end state none s i stopidx

  -- The first loop of a row: a segment for each `waitmask`. `wmidx` grows in each round.
  unfoldable pub row_segments :
      ℕ → Steps S → CommonState → S → ℕ → ℕ → Outcome QuicError (CommonState × S × ℕ × ℕ)
  unfolding segment
  row_segments zero steps state s pos remaining = stuck
  row_segments (suc fuel) steps state s pos remaining =
      let part = segment steps state s pos (pos + state.wmileft) in
      let left = state.wmileft in
      let next = (do
        (state, s, pos, remaining) ←
            (if ltb 0 left
              then (do (state, s) ← part; ok (state, s, pos + left, remaining - left))
              else ok (state, s, pos, remaining))
        let state = record (set_wm_trigger (record state { wmidx = state.wmidx + 1 })) {
          wmileft = defwminext;
        }
        row_segments fuel steps state s pos remaining) in
      if ltb state.wmidx defwmimax && leb state.wmileft remaining
      then next
      else ok (state, s, pos, remaining)

  unfoldable pub row : Steps S → CommonState → S → ℕ → Outcome QuicError (CommonState × S)
  unfolding row_segments
  row steps state s width = do
    (state, s, pos, remaining) ← row_segments (suc defwmimax) steps state s 0 width
    let last = (do
      (state, s) ← segment steps state s pos (pos + remaining)
      ok (
        if ltb state.wmidx defwmimax
            then record state { wmileft = wrapping_sub state.wmileft remaining }
            else state,
        s,
      ))
    if ltb 0 remaining then last else ok (state, s)
