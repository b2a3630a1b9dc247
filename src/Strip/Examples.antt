-- ===== src/Strip/Examples.antt =====
-- The theorems on the strip at concrete strips, with natural numbers for pixels.
use simulboot.Base.{
  ℕ, ◌+◌, ◌≡◌, refl, true, false, ◌&&◌, none, some, [], ◌∷◌, ◌++◌, arith, ltb, leb, codes,
}
use simulboot.Examples.Numbers.{naturals, naturals-Ordered, naturals-Linear}
use simulboot.Wire.{h265, linux}
use simulboot.Strip.{
  Surface, Strip, Hit, append, remove, scroll_by, set_scroll, hit_test, any_id, insert_ordered,
  sum_widths, clamp, new_strip, set_focus,
}
use simulboot.Strip.Order.{
  Numbered, Sorted, with_order, sized_for, append-Numbered, insert_ordered-Sorted,
}
use simulboot.Strip.Scroll.{Clamped, Removed, scroll_by-Clamped, set_scroll-Clamped, remove-Removed}
use simulboot.Strip.Focus.{FocusValid, here, next, appended, focused, Reach-new-FocusValid}
use simulboot.Strip.Hits.{At, Under, hit_test-Under, hit_test-none}

abbrev surface : ℕ → ℕ → Surface ℕ ℕ
surface i order = record {
  id = i ∷ [];
  name = codes "s";
  order = order;
  width = 300;
  height = 600;
  source_width = 1920;
  source_height = 1080;
  codec = h265;
  provenance = record {
    os = linux;
    machine_name = codes "m";
    tailscale_addr = codes "t";
    capture_description = codes "d";
  };
  host_addr = 7001;
  last_pts = none;
  frames_received = 0;
}

abbrev three : Strip ℕ ℕ
three = record {
  surfaces = surface 1 0 ∷ surface 2 1 ∷ surface 3 2 ∷ [];
  scroll_pos = 0;
  viewport_width = 500;
  viewport_height = 600;
  focus = some (2 ∷ []);
}

append-Numbered_example :
    Numbered 0 (append naturals (surface 4 0) three).0.surfaces
    × (append naturals (surface 4 0) three
        ≡ (record three { surfaces = three.surfaces ++ surface 4 3 ∷ [] }, 3))
unfolding sized_for
append-Numbered_example =
    append-Numbered naturals (surface 4 0) three (refl, (refl, (refl, tt))) (omega arith)

insert_ordered-Sorted_example :
    Sorted (insert_ordered (surface 4 1) three).surfaces
    × ((k : ℕ)
        → with_order k (insert_ordered (surface 4 1) three).surfaces
          ≡ with_order k (three.surfaces ++ surface 4 1 ∷ []))
insert_ordered-Sorted_example = insert_ordered-Sorted (surface 4 1) three

scroll_by-Clamped_example :
    Clamped naturals naturals-Ordered naturals-Linear refl three (scroll_by naturals 900 three)
scroll_by-Clamped_example =
    scroll_by-Clamped naturals naturals-Ordered naturals-Linear refl 900 three refl

set_scroll-Clamped_example :
    Clamped naturals naturals-Ordered naturals-Linear refl three (set_scroll naturals 900 three)
set_scroll-Clamped_example =
    set_scroll-Clamped naturals naturals-Ordered naturals-Linear refl 900 three refl

remove-Removed_example :
    (any_id (2 ∷ []) three.surfaces ≡ false → remove naturals (2 ∷ []) three ≡ some (three, none))
    × (any_id (2 ∷ []) three.surfaces ≡ true
        → Removed naturals naturals-Ordered naturals-Linear refl
            (2 ∷ [])
            three
            (remove naturals (2 ∷ []) three))
remove-Removed_example =
    remove-Removed naturals naturals-Ordered naturals-Linear refl (2 ∷ []) three refl (omega arith)

abbrev hit : Hit ℕ
hit = record { id = 2 ∷ []; nx = 0; ny = 0 }

hits : hit_test naturals 310 100 three ≡ some hit
unfolding hit_test clamp
hits = refl

hit_test-Under_example :
    Under naturals 310 100 0 three.surfaces hit × (ltb 100 0 ≡ false) × (ltb 600 100 ≡ false)
hit_test-Under_example = hit_test-Under naturals 310 100 three {h = hit} hits

abbrev second : At naturals three.surfaces
second = record {
  before = surface 1 0 ∷ [];
  surface = surface 2 1;
  after = surface 3 2 ∷ [];
  whole = refl;
}

hit_test-none_example :
    (leb (sum_widths naturals 0 (surface 1 0 ∷ [])) 5000
      && ltb 5000 (sum_widths naturals 0 (surface 1 0 ∷ []) + 300))
    ≡ false
hit_test-none_example =
    hit_test-none naturals 5000 100 three second (unfold hit_test in refl) refl refl

abbrev built : Strip ℕ ℕ
built = (set_focus (4 ∷ []) (append naturals (surface 4 0) (new_strip naturals 500 600)).0).0

Reach-new-FocusValid_example : FocusValid built
Reach-new-FocusValid_example =
    Reach-new-FocusValid naturals 500 600
      (next (next here (appended (surface 4 0))) (focused (4 ∷ [])))
