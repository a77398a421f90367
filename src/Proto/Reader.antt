-- ===== src/Proto/Reader.antt =====
-- `Reader` and `Writer` of crates/capsaicin-proto/src/types.rs. A writer is the list of its bytes.
pub mod At
pub mod Layout
pub mod Many
use capsaicin.Base.{
  ℕ, ◌+◌, ◌-◌, ◌^◌, List, [], ◌∷◌, ◌++◌, ltb, if◌then◌else◌, length, to_le_bytes, from_le_bytes,
}
use capsaicin.Base.Outcome.{Outcome, ok, err, and_then, slice, index, to_array}
use capsaicin.Base.Int.{ℤ, to_signed, of_signed}
use capsaicin.Proto.Error.{ProtoError, short}

pub record Reader : Type 0 where
  pub buf : List ℕ
  pub pos : ℕ

-- A method on `&mut Reader`.
abbrev pub Read : Type 0 → Type 0
Read A = Reader → Outcome ProtoError (A × Reader)

infixl 5 ◌>>=◌
abbrev pub ◌>>=◌ : {A B : Type 0} → Read A → (A → Read B) → Read B
◌>>=◌ m f r = and_then (m r) (λ p. f p.0 p.1)

abbrev pub pure : {A : Type 0} → A → Read A
pure a r = ok (a, r)

-- A call of a function that does not touch the reader, under `?`.
abbrev pub lift : {A : Type 0} → Outcome ProtoError A → Read A
lift o r = and_then o (λ a. ok (a, r))

unfoldable pub new : List ℕ → Reader
new buf = record { buf = buf; pos = 0 }

unfoldable pub remaining : Reader → ℕ
remaining r = length r.buf - r.pos

unfoldable pub take : ℕ → Read (List ℕ)
unfolding remaining
take n r =
    if ltb (remaining r) n
    then err (short n (remaining r))
    else and_then (slice r.buf r.pos (r.pos + n)) (λ out. ok (out, record r { pos = r.pos + n }))

unfoldable pub u8 : Read ℕ
unfolding index
u8 = do out ← take 1; lift (index out 0)

-- `uN::from_le_bytes(self.take(n)?.try_into().unwrap())`
unfoldable pub unsigned : ℕ → Read ℕ
unfolding to_array
unsigned n = do out ← take n; bytes ← lift (to_array n out); pure (from_le_bytes bytes)

abbrev pub u16 : Read ℕ
u16 = unsigned 2

abbrev pub u32 : Read ℕ
u32 = unsigned 4

abbrev pub u64 : Read ℕ
u64 = unsigned 8

unfoldable pub i16 : Read ℤ
i16 = do w ← u16; pure (to_signed (2 ^ 15) w)

unfoldable pub i32 : Read ℤ
i32 = do w ← u32; pure (to_signed (2 ^ 31) w)

unfoldable pub i64 : Read ℤ
i64 = do w ← u64; pure (to_signed (2 ^ 63) w)

abbrev pub bytes : ℕ → Read (List ℕ)
bytes n = take n

abbrev pub get_remaining : Read ℕ
get_remaining r = ok (remaining r, r)

-- `decode(buf)` of a message: read from a new reader and drop it.
unfoldable pub run : {A : Type 0} → Read A → List ℕ → Outcome ProtoError A
unfolding new
run m buf = and_then (m (new buf)) (λ p. ok p.0)

abbrev pub Writer : Type 0
Writer = List ℕ

-- A method call on the writer.
infixl 20 ◌▸◌
abbrev pub ◌▸◌ : Writer → (Writer → Writer) → Writer
w ▸ f = f w

unfoldable pub put_u8 : ℕ → Writer → Writer
put_u8 v w = w ++ v ∷ []

unfoldable pub put_u16 : ℕ → Writer → Writer
put_u16 v w = w ++ to_le_bytes 2 v

unfoldable pub put_u32 : ℕ → Writer → Writer
put_u32 v w = w ++ to_le_bytes 4 v

unfoldable pub put_u64 : ℕ → Writer → Writer
put_u64 v w = w ++ to_le_bytes 8 v

unfoldable pub put_i16 : ℤ → Writer → Writer
unfolding put_u16
put_i16 v w = put_u16 (of_signed (2 ^ 15) v) w

unfoldable pub put_i32 : ℤ → Writer → Writer
unfolding put_u32
put_i32 v w = put_u32 (of_signed (2 ^ 31) v) w

unfoldable pub put_i64 : ℤ → Writer → Writer
unfolding put_u64
put_i64 v w = put_u64 (of_signed (2 ^ 63) v) w

unfoldable pub put_bytes : List ℕ → Writer → Writer
put_bytes v w = w ++ v
