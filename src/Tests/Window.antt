-- ===== src/Tests/Window.antt =====
-- The window of crates/capsaicin-glz/src/lib.rs at concrete inputs: three images of 512 bytes in
-- a budget of 1024.
use capsaicin.Base.{ℕ, ◌≤◌, ◌≡◌, ◌⊎◌, refl, none, some, List, [], ◌∷◌, arith, length, replicate}
use capsaicin.Glz.Window.{
  WindowEntry, GlzWindow, new, get, insert, place, evict, remove, lookup, without, oldest, older,
}
use capsaicin.Glz.Window.Evict.{IsWindow}
use capsaicin.Glz.Window.Insert.{insert-IsWindow, insert_fits, insert-get}
use capsaicin.Glz.Window.Order.{insert-get_other, insert_oldest_first}

abbrev pixels : ℕ → List ℕ
pixels v = replicate 512 v

abbrev entry : ℕ → ℕ → WindowEntry
entry v seq = record { pixels = pixels v; bpp = 4; seq = seq }

abbrev two_images : GlzWindow
two_images = record {
  images = (2, entry 2 1) ∷ (1, entry 1 0) ∷ [];
  bytes_used = 1024;
  capacity_bytes = 1024;
  next_seq = 2;
}

two_images_run : insert (insert (new 1024) 1 (pixels 1) 4) 2 (pixels 2) 4 ≡ two_images
unfolding new insert place evict remove lookup without oldest older
two_images_run = refl

two_images-IsWindow : IsWindow two_images
unfolding lookup
two_images-IsWindow = record {
  counted = refl;
  distinct = (refl, (refl, tt));
  younger = (omega arith, (omega arith, tt));
}

third_evicts : get (insert two_images 3 (pixels 3) 4) 1 ≡ none
unfolding get insert place evict remove lookup without oldest older
third_evicts = refl

third_keeps : get (insert two_images 3 (pixels 3) 4) 2 ≡ some (entry 2 1)
unfolding get insert place evict remove lookup without oldest older
third_keeps = refl

insert-IsWindow_example : IsWindow (insert two_images 3 (pixels 3) 4)
insert-IsWindow_example =
    insert-IsWindow two_images 3 (pixels 3) 4 two_images-IsWindow (omega arith)

insert_fits_example :
    ((insert two_images 3 (pixels 3) 4).bytes_used ≤ 1024)
    ⊎ (length (insert two_images 3 (pixels 3) 4).images ≤ 1)
insert_fits_example = insert_fits two_images 3 (pixels 3) 4 two_images-IsWindow (omega arith)

insert-get_example : get (insert two_images 3 (pixels 3) 4) 3 ≡ some (entry 3 2)
insert-get_example = insert-get two_images 3 (pixels 3) 4 two_images-IsWindow (omega arith)

insert-get_other_example :
    (get (insert two_images 3 (pixels 3) 4) 2 ≡ none)
    ⊎ (get (insert two_images 3 (pixels 3) 4) 2 ≡ get two_images 2)
insert-get_other_example =
    insert-get_other two_images 3 2 (pixels 3) 4 two_images-IsWindow (omega arith) (omega arith)

found_first : get two_images 1 ≡ some (entry 1 0)
unfolding get lookup
found_first = refl

found_second : get two_images 2 ≡ some (entry 2 1)
unfolding get lookup
found_second = refl

insert_oldest_first_example : 0 ≤ 1
insert_oldest_first_example =
    insert_oldest_first two_images 3 (pixels 3) 4 1 2 (entry 1 0) (entry 2 1) (entry 2 1)
      two_images-IsWindow (omega arith) (omega arith) (omega arith) found_first found_second
      third_evicts third_keeps
