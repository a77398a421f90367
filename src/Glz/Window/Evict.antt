-- ===== src/Glz/Window/Evict.antt =====
-- The eviction loop of `GlzWindow::insert`, crates/capsaicin-glz/src/lib.rs: what every round keeps.
use capsaicin.Base.{
  ℕ, zero, suc, ◌<◌, ◌≡◌, refl, inl, inr, none, some, ltb, ltb→lt, ◌==◌, if◌then◌else◌, arith,
  length, All, Bool-cases, Option-cases,
}
use capsaicin.Glz.Window.{WindowEntry, GlzWindow, lookup, without, remove, oldest, evict}
use capsaicin.Glz.Window.Images.{
  total, HasDistinctKeys, YoungerThan, lookup-without, total-without, without-HasDistinctKeys,
  without-All, IsOldest, oldest-IsOldest,
}

-- The budget counts exactly the bytes held, no id is held twice, every image is older than the
-- next one.
pub record IsWindow (w : GlzWindow) : Type 0 where
  pub counted : w.bytes_used ≡ total w.images
  pub distinct : HasDistinctKeys w.images
  pub younger : YoungerThan w.next_seq w.images

pub remove-images :
    (id : ℕ) (w : GlzWindow) (e : WindowEntry)
    → lookup id w.images ≡ some e
    → (remove id w).images ≡ without id w.images
unfolding remove without
remove-images id w e h = rw (remove, h)

pub remove-IsWindow : (id : ℕ) (w : GlzWindow) → IsWindow w → IsWindow (remove id w)
unfolding remove
remove-IsWindow id w h = elim (Option-cases (lookup id w.images)) [
  | inl gone ↦ rw (remove, gone) h
  | inr (e, found) ↦
      rw (remove, found)
        (record {
          counted = omega (arith, total-without id e w.images h.distinct found, h.counted);
          distinct = without-HasDistinctKeys id w.images h.distinct;
          younger = without-All _ id w.images h.younger;
        })
]

pub lookup-remove :
    (id j : ℕ) (w : GlzWindow)
    → lookup j (remove id w).images ≡ (if id == j then none else lookup j w.images)
unfolding remove
lookup-remove id j w = elim (Option-cases (lookup id w.images)) [
  | inl gone ↦ ground (arith, gone)
  | inr (e, found) ↦ rw (remove, found) (lookup-without id j w.images)
]

pub remove-All :
    (P : ℕ × WindowEntry → Type 0) (id : ℕ) (w : GlzWindow)
    → All P w.images
    → All P (remove id w).images
unfolding remove
remove-All P id w h = elim (Option-cases (lookup id w.images)) [
  | inl gone ↦ rw (remove, gone) h
  | inr (e, found) ↦ rw (remove, found) (without-All P id w.images h)
]

pub remove-next_seq : (id : ℕ) (w : GlzWindow) → (remove id w).next_seq ≡ w.next_seq
unfolding remove
remove-next_seq id w = elim (Option-cases (lookup id w.images)) [
  | inl gone ↦ rw (remove, gone) refl
  | inr (e, found) ↦ rw (remove, found) refl
]

pub remove-capacity_bytes :
    (id : ℕ) (w : GlzWindow) → (remove id w).capacity_bytes ≡ w.capacity_bytes
unfolding remove
remove-capacity_bytes id w = elim (Option-cases (lookup id w.images)) [
  | inl gone ↦ rw (remove, gone) refl
  | inr (e, found) ↦ rw (remove, found) refl
]

-- One round: over budget with more than one image left, the oldest image goes.
pub record Evicts (w : GlzWindow) (victim seq : ℕ) : Type 0 where
  pub over : w.capacity_bytes < w.bytes_used
  pub several : 1 < length w.images
  pub chosen : IsOldest w.images victim seq

-- What every round keeps, the loop keeps.
pub evict-keeps :
    (P : GlzWindow → Type 0)
    → ((w : GlzWindow) (v s : ℕ) → IsWindow w → Evicts w v s → P w → P (remove v w))
    → (fuel : ℕ) (w : GlzWindow) → IsWindow w
    → P w
    → P (evict fuel w)
unfolding evict
evict-keeps P step zero w h p = p
evict-keeps P step (suc fuel) w h p = elim (Bool-cases (ltb w.capacity_bytes w.bytes_used)) [
  | inl over ↦ elim (Bool-cases (ltb 1 (length w.images))) [
    | inl several ↦ elim (Option-cases (oldest w.images)) [
      | inl empty ↦ rw (over, several, empty) p
      | inr (v, found) ↦
          let round : Evicts w v.0 v.1 = record {
            over = ltb→lt _ _ over;
            several = ltb→lt _ _ several;
            chosen = oldest-IsOldest w.images v h.distinct found;
          } in
          rw (over, several, found)
            (evict-keeps P step fuel (remove v.0 w) (remove-IsWindow v.0 w h)
              (step w v.0 v.1 h round p))
    ]
    | inr single ↦ rw (over, single) p
  ]
  | inr within ↦ rw within p
]

pub evict-IsWindow : (fuel : ℕ) (w : GlzWindow) → IsWindow w → IsWindow (evict fuel w)
evict-IsWindow fuel w h = evict-keeps IsWindow (λ w v s h e p. remove-IsWindow v w h) fuel w h h
