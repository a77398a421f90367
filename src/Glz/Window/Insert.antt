-- ===== src/Glz/Window/Insert.antt =====
-- `GlzWindow::insert`, crates/capsaicin-glz/src/lib.rs: the image put in, and the loop after it.
use capsaicin.Base.{
  ℕ, zero, suc, ◌+◌, ◌^◌, ◌%◌, ◌≤◌, ◌<◌, ◌≡◌, refl, ap, ==_self, ◌⊎◌, inl, inr, some, List, [], ◌∷◌,
  ltb, ltb→lt, ◌==◌, arith, length, All, All-map, Bool-cases, Option-cases, ==_iff,
}
use capsaicin.Glz.Window.{
  WindowEntry, Images, GlzWindow, lookup, remove, oldest, evict, place, insert, get, new, clear,
}
use capsaicin.Glz.Window.Images.{HasDistinctKeys, length-without-some, oldest-IsOldest, oldest-none}
use capsaicin.Glz.Window.Evict.{
  IsWindow, remove-images, lookup-remove, remove-All, remove-next_seq, remove-capacity_bytes,
  remove-IsWindow, Evicts, evict-keeps, evict-IsWindow,
}

-- The window after the removal of the old image of that id, with the counter advanced.
abbrev advanced : GlzWindow → ℕ → GlzWindow
advanced w id = remove id (record w { next_seq = (w.next_seq + 1) % 2 ^ 64 })

advance_lem : (n : ℕ) → n + 1 < 2 ^ 64 → (n + 1) % 2 ^ 64 ≡ n + 1
advance_lem n h = omega arith

advanced-IsWindow :
    (w : GlzWindow) (id : ℕ) → IsWindow w → w.next_seq + 1 < 2 ^ 64 → IsWindow (advanced w id)
advanced-IsWindow w id h room = remove-IsWindow id _ (record {
  counted = h.counted;
  distinct = h.distinct;
  younger = rw (advance_lem w.next_seq room) (All-map _ w.images (λ p q. omega arith) h.younger);
})

pub place-IsWindow :
    (w : GlzWindow) (id : ℕ) (pixels : List ℕ) (bpp : ℕ)
    → IsWindow w
    → w.next_seq + 1 < 2 ^ 64
    → IsWindow (place w id pixels bpp)
unfolding place
place-IsWindow w id pixels bpp h room =
    let a = advanced-IsWindow w id h room in
    record {
      counted = omega (arith, a.counted);
      distinct = (
        ground (arith, lookup-remove id id (record w { next_seq = (w.next_seq + 1) % 2 ^ 64 })),
        a.distinct,
      );
      younger = (
        rw (remove-next_seq id (record w { next_seq = (w.next_seq + 1) % 2 ^ 64 }))
            (omega (arith, advance_lem w.next_seq room)),
        a.younger,
      );
    }

-- An insertion into a well-formed window whose counter does not wrap leaves it well formed: the
-- budget counts the bytes held, no id is held twice, and every image is older than the next one.
pub insert-IsWindow :
    (w : GlzWindow) (id : ℕ) (pixels : List ℕ) (bpp : ℕ)
    → IsWindow w
    → w.next_seq + 1 < 2 ^ 64
    → IsWindow (insert w id pixels bpp)
unfolding insert
insert-IsWindow w id pixels bpp h room =
    evict-IsWindow _ (place w id pixels bpp) (place-IsWindow w id pixels bpp h room)

-- The loop ends within budget, or with one image.
evict_fits :
    (fuel : ℕ) (w : GlzWindow) (budget : ℕ)
    → w.capacity_bytes ≡ budget
    → IsWindow w
    → length w.images ≤ fuel
    → ((evict fuel w).bytes_used ≤ budget) ⊎ (length (evict fuel w).images ≤ 1)
unfolding evict
evict_fits zero w budget c h n = inr (omega arith)
evict_fits (suc fuel) w budget c h n = elim (Bool-cases (ltb w.capacity_bytes w.bytes_used)) [
  | inl over ↦ elim (Bool-cases (ltb 1 (length w.images))) [
    | inl several ↦ elim (Option-cases (oldest w.images)) [
      | inl empty ↦
          absurd (omega (arith, ap length (oldest-none w.images empty), ltb→lt _ _ several))
      | inr (v, found) ↦
          let o = oldest-IsOldest w.images v h.distinct found in
          let shorter : length (remove v.0 w).images < length w.images =
            rw (remove-images v.0 w o.entry o.found)
              (length-without-some v.0 o.entry w.images o.found) in
          rw (over, several, found)
            (evict_fits fuel (remove v.0 w) budget (rw (remove-capacity_bytes v.0 w) c)
              (remove-IsWindow v.0 w h) (omega arith))
    ]
    | inr single ↦ rw (over, single) (inr (ground arith))
  ]
  | inr within ↦ rw within (inl (ground arith))
]

-- One image of the window is that of the id, and every other one is older.
record IsNewest (id : ℕ) (e : WindowEntry) (w : GlzWindow) : Type 0 where
  found : lookup id w.images ≡ some e
  older : All (λ p. (p.0 ≡ id) ⊎ (p.1.seq < e.seq)) w.images

place-IsNewest :
    (w : GlzWindow) (id : ℕ) (pixels : List ℕ) (bpp : ℕ)
    → IsWindow w
    → IsNewest id (record { pixels = pixels; bpp = bpp; seq = w.next_seq }) (place w id pixels bpp)
unfolding place lookup
place-IsNewest w id pixels bpp h = record {
  found = rw (==_self id) refl;
  older = (
    inl refl,
    All-map _ _ (λ p q. inr q)
        (remove-All _ id (record w { next_seq = (w.next_seq + 1) % 2 ^ 64 }) h.younger),
  );
}

only_key :
    (id n : ℕ) (m : Images)
    → HasDistinctKeys m
    → All (λ p. (p.0 ≡ id) ⊎ (p.1.seq < n)) m
    → All (λ p. n ≤ p.1.seq) m
    → length m ≤ 1
unfolding lookup
only_key id n [] d o l = omega arith
only_key id n (x ∷ []) d o l = omega arith
only_key id n ((i, e) ∷ (j, f) ∷ m) d o l = ground (arith, d.0, o.0, o.1.0, l.0, l.1.0)

evict-IsNewest :
    (id : ℕ) (e : WindowEntry) (w : GlzWindow) (v s : ℕ)
    → IsWindow w
    → Evicts w v s
    → IsNewest id e w
    → IsNewest id e (remove v w)
evict-IsNewest id e w v s h r n = elim (Bool-cases (v == id)) [
  | inl same ↦
      let e' : v ≡ id = (==_iff v id).0 same in
      let entry : r.chosen.entry ≡ e = cc (e', r.chosen.found, n.found) in
      let age : e.seq ≡ s = rw entry at r.chosen.aged in
      absurd (
        omega
          (arith, only_key id e.seq w.images h.distinct n.older (rw age r.chosen.least), r.several))
  | inr other ↦ record {
    found = rw (lookup-remove v id w, other) n.found;
    older = remove-All _ v w n.older;
  }
]

-- On a well-formed window whose counter does not wrap, the bytes held after an insertion are within the budget,
-- or a single image is left.
pub insert_fits :
    (w : GlzWindow) (id : ℕ) (pixels : List ℕ) (bpp : ℕ)
    → IsWindow w
    → w.next_seq + 1 < 2 ^ 64
    → ((insert w id pixels bpp).bytes_used ≤ w.capacity_bytes)
      ⊎ (length (insert w id pixels bpp).images ≤ 1)
unfolding insert place
insert_fits w id pixels bpp h room =
    evict_fits _ (place w id pixels bpp) w.capacity_bytes
      (remove-capacity_bytes id (record w { next_seq = (w.next_seq + 1) % 2 ^ 64 }))
      (place-IsWindow w id pixels bpp h room) (omega arith)

-- On a well-formed window whose counter does not wrap, the image inserted is found under its id, however small
-- the budget is.
pub insert-get :
    (w : GlzWindow) (id : ℕ) (pixels : List ℕ) (bpp : ℕ)
    → IsWindow w
    → w.next_seq + 1 < 2 ^ 64
    → get (insert w id pixels bpp) id
      ≡ some (record { pixels = pixels; bpp = bpp; seq = w.next_seq })
unfolding insert get
insert-get w id pixels bpp h room =
    (evict-keeps (IsNewest id _) (λ w' v s h' r n. evict-IsNewest id _ w' v s h' r n) _
      (place w id pixels bpp) (place-IsWindow w id pixels bpp h room)
      (place-IsNewest w id pixels bpp h)).found

-- A new window, and a window that has been cleared, are well formed.
pub new-IsWindow :
    (capacity_bytes : ℕ) (w : GlzWindow) → IsWindow (new capacity_bytes) × IsWindow (clear w)
unfolding new clear
new-IsWindow capacity_bytes w = (
  record { counted = refl; distinct = tt; younger = tt },
  record { counted = refl; distinct = tt; younger = tt },
)
