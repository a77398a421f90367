-- ===== src/Proto/Reader/Many.antt =====
-- Counted sequences in the messages of crates/capsaicin-proto/src: `for _ in 0..count` around a
-- `decode` that takes the reader, and the `for` of the encoder.
use capsaicin.Base.{ℕ, zero, suc, ◌≡◌, List, [], ◌∷◌, ◌++◌, append-nil, append_assoc, length, All}
use capsaicin.Base.Outcome.{ok}
use capsaicin.Proto.Reader.{Read, Writer, ◌>>=◌, pure}
use capsaicin.Proto.Reader.At.{at}

unfoldable pub many : {A : Type 0} → ℕ → Read A → Read (List A)
many zero m = pure []
many (suc count) m = do x ← m; xs ← many count m; pure (x ∷ xs)

unfoldable pub put_many : {A : Type 0} → (A → Writer → Writer) → List A → Writer → Writer
put_many put [] w = w
put_many put (x ∷ xs) w = put_many put xs (put x w)

abbrev pub wires : {A : Type 0} → (A → List ℕ) → List A → List ℕ
wires wire [] = []
wires wire (x ∷ xs) = wire x ++ wires wire xs

pub put_many_lem :
    {A : Type 0} (put : A → Writer → Writer) (wire : A → List ℕ)
    → ((x : A) (w : Writer) → put x w ≡ w ++ wire x)
    → (xs : List A) (w : Writer) → put_many put xs w ≡ w ++ wires wire xs
unfolding put_many
put_many_lem put wire h [] w = simp append-nil
put_many_lem put wire h (x ∷ xs) w =
    rw (put_many_lem put wire h xs (put x w), h x w) (append_assoc w (wire x) (wires wire xs))

pub many-at :
    {A : Type 0} (m : Read A) (wire : A → List ℕ) (Fits : A → Type 0)
    → ((x : A) (pre suf : List ℕ)
        → Fits x
        → m (at pre (wire x ++ suf)) ≡ ok (x, at (pre ++ wire x) suf))
    → (xs : List A) (pre suf : List ℕ) → All Fits xs
    → many (length xs) m (at pre (wires wire xs ++ suf)) ≡ ok (xs, at (pre ++ wires wire xs) suf)
unfolding many
many-at m wire Fits h [] pre suf fits = simp append-nil
many-at m wire Fits h (x ∷ xs) pre suf fits =
    let first = h x pre (wires wire xs ++ suf) fits.0 in
    let rest = many-at m wire Fits h xs (pre ++ wire x) suf fits.1 in
    rw (
      append_assoc (wire x) (wires wire xs) suf,
      first,
      rest,
      append_assoc pre (wire x) (wires wire xs),
    )
