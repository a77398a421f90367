-- ===== src/Glz/Window.antt =====
-- `GlzWindow` of crates/capsaicin-glz/src/lib.rs: the images of a session that a stream may refer to.
-- The hash map is an association list without repeated keys. Among entries of one age the code
-- evicts whichever its map yields first; the model evicts the first of the list.
pub mod Images
pub mod Evict
pub mod Insert
pub mod Order
use capsaicin.Base.{
  ℕ, zero, suc, ◌+◌, ◌-◌, ◌*◌, ◌%◌, ◌^◌, ◌&&◌, Option, none, some, List, [], ◌∷◌, ltb, leb, ◌==◌,
  if◌then◌else◌, length,
}
use Prim.Native.Nat.{max}

pub record WindowEntry : Type 0 where
  pub pixels : List ℕ
  pub bpp : ℕ
  pub seq : ℕ

abbrev pub Images : Type 0
Images = List (ℕ × WindowEntry)

pub record GlzWindow : Type 0 where
  pub images : Images
  pub bytes_used : ℕ
  pub capacity_bytes : ℕ
  pub next_seq : ℕ

unfoldable pub new : ℕ → GlzWindow
new capacity_bytes = record {
  images = [];
  bytes_used = 0;
  capacity_bytes = max capacity_bytes 1024;
  next_seq = 0;
}

unfoldable pub clear : GlzWindow → GlzWindow
clear w = record w { images = []; bytes_used = 0 }

-- `self.images.get(&id)`
unfoldable pub lookup : ℕ → Images → Option WindowEntry
lookup id [] = none
lookup id ((k, e) ∷ m) = if k == id then some e else lookup id m

-- The map that `self.images.remove(&id)` leaves.
unfoldable pub without : ℕ → Images → Images
without id [] = []
without id ((k, e) ∷ m) = let rest = without id m in if k == id then rest else (k, e) ∷ rest

unfoldable pub get : GlzWindow → ℕ → Option WindowEntry
unfolding lookup
get w id = lookup id w.images

-- Removes an entry, and its bytes from the budget. (`-` stops at 0, as `saturating_sub` does.)
unfoldable pub remove : ℕ → GlzWindow → GlzWindow
remove id w = elim (lookup id w.images) [
  | none ↦ w
  | some old ↦ record w {
    images = without id w.images;
    bytes_used = w.bytes_used - length old.pixels;
  }
]

-- `self.images.iter().min_by_key(|(_, e)| e.seq)`: the key and the age of the oldest entry.
unfoldable pub older : ℕ × ℕ → Option (ℕ × ℕ) → ℕ × ℕ
older a none = a
older a (some b) = if leb a.1 b.1 then a else b

unfoldable pub oldest : Images → Option (ℕ × ℕ)
oldest [] = none
oldest ((k, e) ∷ m) = some (older (k, e.seq) (oldest m))

-- The eviction loop. Each round drops an image, so as many rounds as there are images are enough.
unfoldable pub evict : ℕ → GlzWindow → GlzWindow
evict zero w = w
evict (suc fuel) w =
    let next : GlzWindow = elim (oldest w.images) [
      | none ↦ w
      | some (victim, seq) ↦ evict fuel (remove victim w)
    ] in
    if ltb w.capacity_bytes w.bytes_used && ltb 1 (length w.images) then next else w

-- The new image put in, before anything is evicted.
unfoldable pub place : GlzWindow → ℕ → List ℕ → ℕ → GlzWindow
place w id pixels bpp =
    let w' = remove id (record w { next_seq = (w.next_seq + 1) % 2 ^ 64 }) in
    record w' {
      images = (id, record { pixels = pixels; bpp = bpp; seq = w.next_seq }) ∷ w'.images;
      bytes_used = w'.bytes_used + length pixels;
    }

unfoldable pub insert : GlzWindow → ℕ → List ℕ → ℕ → GlzWindow
insert w id pixels bpp = let w' = place w id pixels bpp in evict (length w'.images) w'
