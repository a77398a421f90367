-- ===== src/Glz/Window/Order.antt =====
-- What `GlzWindow::insert`, crates/capsaicin-glz/src/lib.rs, does to the other images.
use capsaicin.Base.{
  ℕ, ◌+◌, ◌^◌, ◌%◌, ◌≤◌, ◌<◌, ◌≡◌, ◌≢◌, refl, ◌⊎◌, inl, inr, none, some, List, ◌==◌, arith,
  Bool-cases, ==_iff,
}
use capsaicin.Glz.Window.{WindowEntry, GlzWindow, lookup, remove, place, insert, get}
use capsaicin.Glz.Window.Images.{lookup-All}
use capsaicin.Glz.Window.Evict.{IsWindow, lookup-remove, Evicts, evict-keeps}
use capsaicin.Glz.Window.Insert.{place-IsWindow}

-- `now` has either dropped the id or holds the image that `before` holds.
abbrev KeptOrDropped : ℕ → GlzWindow → GlzWindow → Type 0
KeptOrDropped j before now =
    (lookup j now.images ≡ none) ⊎ (lookup j now.images ≡ lookup j before.images)

remove-KeptOrDropped :
    (j v : ℕ) (before now : GlzWindow)
    → KeptOrDropped j before now
    → KeptOrDropped j before (remove v now)
remove-KeptOrDropped j v before now h = ground (arith, lookup-remove v j now)

place-lookup :
    (w : GlzWindow) (id j : ℕ) (pixels : List ℕ) (bpp : ℕ)
    → id ≢ j
    → lookup j (place w id pixels bpp).images ≡ lookup j w.images
unfolding place lookup
place-lookup w id j pixels bpp h =
    ground (arith, lookup-remove id j (record w { next_seq = (w.next_seq + 1) % 2 ^ 64 }))

-- On a well-formed window whose counter does not wrap, an insertion leaves the image of another id as it was,
-- or drops it.
pub insert-get_other :
    (w : GlzWindow) (id j : ℕ) (pixels : List ℕ) (bpp : ℕ)
    → IsWindow w
    → w.next_seq + 1 < 2 ^ 64
    → id ≢ j
    → (get (insert w id pixels bpp) j ≡ none) ⊎ (get (insert w id pixels bpp) j ≡ get w j)
unfolding insert get
insert-get_other w id j pixels bpp h room other = rw (← place-lookup w id j pixels bpp other) (
    evict-keeps (KeptOrDropped j (place w id pixels bpp))
      (λ w' v s h' r. remove-KeptOrDropped j v (place w id pixels bpp) w') _ (place w id pixels bpp)
      (place-IsWindow w id pixels bpp h room) (inr refl))

-- `k` has been dropped, or `j` is still there, or `j` was no younger than `k`.
abbrev InOrder : ℕ → ℕ → WindowEntry → WindowEntry → GlzWindow → Type 0
InOrder j k a b now =
    (lookup k now.images ≡ none)
    ⊎ ((a.seq ≤ b.seq) ⊎ ((lookup j now.images ≡ some a) × (lookup k now.images ≡ some b)))

evict-InOrder :
    (j k : ℕ) (a b : WindowEntry) (w : GlzWindow) (v s : ℕ)
    → Evicts w v s
    → InOrder j k a b w
    → InOrder j k a b (remove v w)
evict-InOrder j k a b w v s r (inl gone) = inl (ground (arith, lookup-remove v k w))
evict-InOrder j k a b w v s r (inr (inl le)) = inr (inl le)
evict-InOrder j k a b w v s r (inr (inr (at_j, at_k))) = elim (Bool-cases (v == k)) [
  | inl last ↦ inl (ground (arith, lookup-remove v k w))
  | inr later ↦ elim (Bool-cases (v == j)) [
    | inl first ↦
        let e' : v ≡ j = (==_iff v j).0 first in
        let entry : r.chosen.entry ≡ a = cc (e', r.chosen.found, at_j) in
        let age : a.seq ≡ s = rw entry at r.chosen.aged in
        inr (inl (rw (age) (lookup-All _ k b w.images r.chosen.least at_k)))
    | inr other ↦
        inr (inr (ground (arith, lookup-remove v j w), ground (arith, lookup-remove v k w)))
  ]
]

-- On a well-formed window whose counter does not wrap, of two other images, when an insertion drops the one and
-- keeps the other, the one dropped was inserted no later than the one kept.
pub insert_oldest_first :
    (w : GlzWindow) (id : ℕ) (pixels : List ℕ) (bpp j k : ℕ) (a b c : WindowEntry)
    → IsWindow w
    → w.next_seq + 1 < 2 ^ 64
    → id ≢ j
    → id ≢ k
    → get w j ≡ some a
    → get w k ≡ some b
    → get (insert w id pixels bpp) j ≡ none
    → get (insert w id pixels bpp) k ≡ some c
    → a.seq ≤ b.seq
unfolding insert get
insert_oldest_first w id pixels bpp j k a b c h room nj nk at_j at_k gone kept =
    let start : InOrder j k a b (place w id pixels bpp) = inr (
      inr (
        rw (place-lookup w id j pixels bpp nj) at_j,
        rw (place-lookup w id k pixels bpp nk) at_k,
      )) in
    let end : InOrder j k a b (insert w id pixels bpp) =
      evict-keeps (InOrder j k a b) (λ w' v s h' r. evict-InOrder j k a b w' v s r) _
        (place w id pixels bpp) (place-IsWindow w id pixels bpp h room) start in
    elim end [
      | inl none_k ↦ absurd (cc (none_k, kept))
      | inr (inl le) ↦ le
      | inr (inr both) ↦ absurd (cc (both.0, gone))
    ]
