-- ===== src/Strip/Scroll.antt =====
-- The scroll position stays in its range, and no call panics.
use simulboot.Base.{
  ◌^◌, ◌≤◌, ◌<◌, ◌≡◌, refl, sym, ap, ◌∙◌, inl, inr, true, false, Option, none, some, List, ◌∷◌, map,
  arith, if◌then◌else◌, Option-cases, length, length-append,
}
use mathlib.Core.Bool.{false≢true}
use simulboot.Float.{Float, Ordered, HasZero, Linear}
use simulboot.Wire.{SurfaceId}
use simulboot.Strip.{
  Surface, Strip, any_id, take_id, clamp, max_scroll, clamp_scroll, scroll_by, set_scroll, is_focus,
  after_remove, remove, removed, content_width,
}
use simulboot.Strip.Order.{
  Numbered, unordered, renumber-Numbered, renumber-unordered, Split, take_id-Split, take_id-none,
}

module _ (f : Float) (ord : Ordered f) (lin : Linear f) where
  open f use {Carrier, le, is_nan}

  -- `clamp` between numbers in order gives a value between them.
  pub clamp_between :
      (lo hi x : Carrier)
      → is_nan lo ≡ false
      → is_nan hi ≡ false
      → is_nan x ≡ false
      → le lo hi ≡ true
      → (le lo (clamp f lo hi x) ≡ true) × (le (clamp f lo hi x) hi ≡ true)
  unfolding clamp
  clamp_between lo hi x nl nh nx h = ground (
    arith,
    lin.le_of_not_lt x lo nx nl,
    lin.le_of_not_lt hi x nh nx,
    ord.le_refl hi nh,
    ord.le_refl lo nl,
  )

  -- A value between them is left as it is.
  pub clamp_inside : (lo hi x : Carrier) → le lo x ≡ true → le x hi ≡ true → clamp f lo hi x ≡ x
  unfolding clamp
  clamp_inside lo hi x h k = ground (arith, lin.not_lt_of_le lo x h, lin.not_lt_of_le x hi k)

  module _ (zero_ok : HasZero f) {A : Type 0} where
    -- The scroll position lies between 0 and `max_scroll`.
    pub record InRange (self : Strip Carrier A) : Type 0 where
      pub low : le (f.of_ℕ 0) self.scroll_pos ≡ true
      pub high : le self.scroll_pos (max_scroll f self) ≡ true

    -- `clamp_scroll` does not panic, changes the scroll position only, and puts it in range.
    pub record Clamped (self : Strip Carrier A) (result : Option (Strip Carrier A)) : Type 0 where
      pub strip : Strip Carrier A
      pub returns : result ≡ some strip
      pub surfaces : strip.surfaces ≡ self.surfaces
      pub focus : strip.focus ≡ self.focus
      pub in_range : InRange strip

    zero-le-max_scroll : (self : Strip Carrier A) → le (f.of_ℕ 0) (max_scroll f self) ≡ true
    unfolding max_scroll
    zero-le-max_scroll self = lin.le-max _ _ zero_ok

    max_scroll-is_nan : (self : Strip Carrier A) → is_nan (max_scroll f self) ≡ false
    unfolding max_scroll
    max_scroll-is_nan self = lin.max-is_nan _ _ zero_ok

    max_scroll-scroll_pos :
        (self : Strip Carrier A) (x : Carrier)
        → max_scroll f (record self { scroll_pos = x }) ≡ max_scroll f self
    unfolding max_scroll content_width
    max_scroll-scroll_pos self x = refl

    clamp_scroll-Clamped :
        (self : Strip Carrier A)
        → is_nan self.scroll_pos ≡ false
        → Clamped self (clamp_scroll f self)
    unfolding clamp_scroll
    clamp_scroll-Clamped self n =
        let top = max_scroll f self in
        let low = zero-le-max_scroll self in
        let (a, b) =
          clamp_between (f.of_ℕ 0) top self.scroll_pos zero_ok (max_scroll-is_nan self) n low in
        record {
          strip = record self { scroll_pos = clamp f (f.of_ℕ 0) top self.scroll_pos };
          returns = rw low;
          surfaces = refl;
          focus = refl;
          in_range = record {
            low = a;
            high = rw (max_scroll-scroll_pos self (clamp f (f.of_ℕ 0) top self.scroll_pos)) b;
          };
        }

    -- After `scroll_by`, unless the sum is NaN, the scroll position lies between 0 and `max_scroll`;
    -- surfaces and focus are as before, and the clamp does not panic.
    pub scroll_by-Clamped :
        (dx : Carrier) (self : Strip Carrier A)
        → is_nan (f.add self.scroll_pos dx) ≡ false
        → Clamped self (scroll_by f dx self)
    unfolding scroll_by
    scroll_by-Clamped dx self n =
        let c = clamp_scroll-Clamped (record self { scroll_pos = f.add self.scroll_pos dx }) n in
        record {
          strip = c.strip;
          returns = c.returns;
          surfaces = c.surfaces;
          focus = c.focus;
          in_range = c.in_range;
        }

    -- `set_scroll` of a number does the same.
    pub set_scroll-Clamped :
        (pos : Carrier) (self : Strip Carrier A)
        → is_nan pos ≡ false
        → Clamped self (set_scroll f pos self)
    unfolding set_scroll
    set_scroll-Clamped pos self n =
        let c = clamp_scroll-Clamped (record self { scroll_pos = pos }) n in
        record {
          strip = c.strip;
          returns = c.returns;
          surfaces = c.surfaces;
          focus = c.focus;
          in_range = c.in_range;
        }

    -- `set_scroll` never panics.
    pub set_scroll_lem :
        (pos : Carrier) (self : Strip Carrier A)
        → set_scroll f pos self
          ≡ some (record self { scroll_pos = clamp f (f.of_ℕ 0) (max_scroll f self) pos })
    unfolding set_scroll clamp_scroll
    set_scroll_lem pos self =
        rw (max_scroll-scroll_pos self pos) (rw (zero-le-max_scroll self) refl)

    -- What `remove` does to a strip that holds the id.
    pub record Removed (id : SurfaceId) (self : Strip Carrier A)
        (result : Option (Strip Carrier A × Option (Surface Carrier A))) : Type 0 where
      pub strip : Strip Carrier A
      pub surface : Surface Carrier A
      pub returns : result ≡ some (strip, some surface)
      pub split :
          (rest : List (Surface Carrier A)) × Split id self.surfaces surface rest
          × (map unordered strip.surfaces ≡ map unordered rest)
      pub numbered : Numbered 0 strip.surfaces
      pub focus : strip.focus ≡ (if is_focus self.focus id then none else self.focus)
      pub in_range : InRange strip

    length-Split :
        {id : SurfaceId} {ss rest : List (Surface Carrier A)} {s : Surface Carrier A}
        → Split id ss s rest
        → length rest < length ss
    length-Split sp = omega (
      arith,
      ap length sp.whole,
      ap length sp.without,
      length-append sp.before sp.after,
      length-append sp.before (_ ∷ sp.after),
    )

    removed-Removed :
        (id : SurfaceId) (self : Strip Carrier A) (s : Surface Carrier A)
        (rest : List (Surface Carrier A))
        → is_nan self.scroll_pos ≡ false
        → length self.surfaces ≤ 2 ^ 32
        → Split id self.surfaces s rest
        → Removed id self (removed f id self (some (s, rest)))
    unfolding removed after_remove
    removed-Removed id self s rest n fits sp =
        let c = clamp_scroll-Clamped (after_remove f id self rest) n in
        record {
          strip = c.strip;
          surface = s;
          returns = rw c.returns;
          split = (rest, sp, ap (map unordered) c.surfaces ∙ renumber-unordered 0 rest);
          numbered = rw c.surfaces (renumber-Numbered 0 rest (omega (arith, length-Split sp)));
          focus = c.focus;
          in_range = c.in_range;
        }

    -- On a strip of at most 2^32 surfaces whose scroll position is a number, `remove` takes out the
    -- first surface with the id, keeps the others as they stand and numbers them from 0, clears the
    -- focus if it was on the id, and puts the scroll position back in range; where no surface has the
    -- id, it changes nothing and returns `None`. Floats compare as IEEE 754 says (`Linear`).
    pub remove-Removed :
        (id : SurfaceId) (self : Strip Carrier A)
        → is_nan self.scroll_pos ≡ false
        → length self.surfaces ≤ 2 ^ 32
        → (any_id id self.surfaces ≡ false → remove f id self ≡ some (self, none))
          × (any_id id self.surfaces ≡ true → Removed id self (remove f id self))
    unfolding remove
    remove-Removed id self n fits =
        ((λ h. unfold removed in rw ((take_id-none id self.surfaces).1 h)), λ h. present h)
      where
        present : any_id id self.surfaces ≡ true → Removed id self (remove f id self)
        present h = elim (Option-cases (take_id id self.surfaces)) [
          | inl missing ↦ absurd (false≢true (sym ((take_id-none id self.surfaces).0 missing) ∙ h))
          | inr ((s, rest), e) ↦
              rw e (removed-Removed id self s rest n fits (take_id-Split id self.surfaces e))
        ]
