-- ===== src/Strip/Hits.antt =====
-- Hit tests, left edges and visibility agree on where a surface lies.
use simulboot.Base.{
  ◌≡◌, refl, ap, ◌⊎◌, inl, inr, Bool, true, false, ◌&&◌, none, some, List, [], ◌∷◌, ◌++◌, arith,
  if◌then◌else◌, Bool-cases, &&-eq-true, bytes_eq_refl,
}
use simulboot.Float.{Float, Linear}
use simulboot.Strip.{
  Surface, Strip, Hit, any_id, clamp, sum_widths, surface_left, left_from, visible, visible_from,
  hit_test, hit_from,
}

module _ (f : Float) {A : Type 0} where
  open f use {Carrier, of_ℕ, le, lt, add, sub, div}

  -- A place in the list: the surfaces before and behind.
  pub record At (ss : List (Surface Carrier A)) : Type 0 where
    pub before : List (Surface Carrier A)
    pub surface : Surface Carrier A
    pub after : List (Surface Carrier A)
    pub whole : ss ≡ before ++ surface ∷ after

  -- The left edge of the surface at a place: the widths before it, summed from `x` on.
  abbrev pub left_edge : Carrier → {ss : List (Surface Carrier A)} → At ss → Carrier
  left_edge x at = sum_widths f x at.before

  -- `l <= strip_x && strip_x < l + width`
  abbrev pub Spans : Carrier → Surface Carrier A → Carrier → Type 0
  Spans l s strip_x = (le l strip_x ≡ true) × (lt strip_x (add l s.width) ≡ true)

  -- The hit of a point, at the first surface that spans it.
  pub record Under (strip_x vy x : Carrier) (ss : List (Surface Carrier A)) (h : Hit Carrier)
      : Type 0 where
    pub at : At ss
    pub spans : Spans (left_edge x at) at.surface strip_x
    pub id : h.id ≡ at.surface.id
    pub nx : h.nx ≡ div (sub strip_x (left_edge x at)) at.surface.width
    pub ny : h.ny ≡ clamp f (of_ℕ 0) (of_ℕ 1) (div vy at.surface.height)

  At-cons : (s : Surface Carrier A) {ss : List (Surface Carrier A)} → At ss → At (s ∷ ss)
  At-cons s at = record {
    before = s ∷ at.before;
    surface = at.surface;
    after = at.after;
    whole = ap (λ l. s ∷ l) at.whole;
  }

  hit_from-Under :
      (strip_x vy x : Carrier) (ss : List (Surface Carrier A)) {h : Hit Carrier}
      → hit_from f strip_x vy x ss ≡ some h
      → Under strip_x vy x ss h
  unfolding hit_from sum_widths At-cons
  hit_from-Under strip_x vy x [] e = cc
  hit_from-Under strip_x vy x (s ∷ ss) {h} e =
      elim (Bool-cases (le x strip_x && lt strip_x (add x s.width))) [
        | inl inside ↦
            let spans = &&-eq-true _ _ inside in
            record {
              at = record { before = []; surface = s; after = ss; whole = refl };
              spans = spans;
              id = ground arith;
              nx = ground arith;
              ny = ground arith;
            }
        | inr outside ↦
            let later = hit_from-Under strip_x vy (add x s.width) ss {h = h} (ground arith) in
            record {
              at = At-cons s later.at;
              spans = later.spans;
              id = later.id;
              nx = later.nx;
              ny = later.ny;
            }
      ]

  -- A hit is on a surface of the strip whose interval, from its left edge over its width, holds the
  -- point; the point's own coordinates are its offset over the width and, for a point in the
  -- viewport's band, its height over the surface's, clamped to 0 and 1.
  pub hit_test-Under :
      (vx vy : Carrier) (self : Strip Carrier A) {h : Hit Carrier}
      → hit_test f vx vy self ≡ some h
      → Under (add vx self.scroll_pos) vy (of_ℕ 0) self.surfaces h
        × (lt vy (of_ℕ 0) ≡ false)
        × (lt self.viewport_height vy ≡ false)
  unfolding hit_test
  hit_test-Under vx vy self {h} e = (
    hit_from-Under (add vx self.scroll_pos) vy (of_ℕ 0) self.surfaces {h = h} (ground arith),
    ground arith,
    ground arith,
  )

  hit_from-none :
      (strip_x vy x : Carrier) (ss before after : List (Surface Carrier A)) (s : Surface Carrier A)
      → hit_from f strip_x vy x ss ≡ none
      → ss ≡ before ++ s ∷ after
      → (le (sum_widths f x before) strip_x && lt strip_x (add (sum_widths f x before) s.width))
        ≡ false
  unfolding hit_from sum_widths
  hit_from-none strip_x vy x [] [] after s e w = cc
  hit_from-none strip_x vy x [] (b ∷ before) after s e w = cc
  hit_from-none strip_x vy x (t ∷ ss) [] after s e w = ground arith
  hit_from-none strip_x vy x (t ∷ ss) (b ∷ before) after s e w =
      let same : t ≡ b = ground arith in
      rw (← same)
        (hit_from-none strip_x vy (add x t.width) ss before after s (ground arith) (ground arith))

  -- Where a point in the viewport's band hits nothing, no surface of the strip spans it.
  pub hit_test-none :
      (vx vy : Carrier) (self : Strip Carrier A) (at : At self.surfaces)
      → hit_test f vx vy self ≡ none
      → lt vy (of_ℕ 0) ≡ false
      → lt self.viewport_height vy ≡ false
      → (le (left_edge (of_ℕ 0) at) (add vx self.scroll_pos)
          && lt (add vx self.scroll_pos) (add (left_edge (of_ℕ 0) at) at.surface.width))
        ≡ false
  unfolding hit_test
  hit_test-none vx vy self at e low high =
      hit_from-none (add vx self.scroll_pos) vy (of_ℕ 0) self.surfaces at.before at.after at.surface
        (ground arith) at.whole

  left_from-At :
      (x : Carrier) (before after : List (Surface Carrier A)) (s : Surface Carrier A)
      → any_id s.id before ≡ false
      → left_from f x s.id (before ++ s ∷ after) ≡ some (sum_widths f x before)
  unfolding left_from sum_widths any_id
  left_from-At x [] after s h = rw (bytes_eq_refl s.id)
  left_from-At x (b ∷ before) after s h =
      ground (arith, left_from-At (add x b.width) before after s)

  -- `surface_left` gives that left edge, for the first surface with its id.
  pub surface_left-left_edge :
      (self : Strip Carrier A) (at : At self.surfaces)
      → any_id at.surface.id at.before ≡ false
      → surface_left f at.surface.id self ≡ some (left_edge (of_ℕ 0) at)
  unfolding surface_left
  surface_left-left_edge self at h =
      rw at.whole (left_from-At (of_ℕ 0) at.before at.after at.surface h)

  -- The surface is in the list.
  abbrev pub Occurs : Surface Carrier A → List (Surface Carrier A) → Type 0
  Occurs s [] = ⊥
  Occurs s (t ∷ ts) = (s ≡ t) ⊎ Occurs s ts

  Occurs-if :
      (c : Bool) (s b : Surface Carrier A) (later : List (Surface Carrier A))
      → Occurs s later
      → Occurs s (if c then b ∷ later else later)
  Occurs-if true s b later o = inr o
  Occurs-if false s b later o = o

  visible_from-Occurs :
      (view_l view_r x : Carrier) (before after : List (Surface Carrier A)) (s : Surface Carrier A)
      → lt view_l (add (sum_widths f x before) s.width) ≡ true
      → lt (sum_widths f x before) view_r ≡ true
      → Occurs s (visible_from f view_l view_r x (before ++ s ∷ after))
  unfolding visible_from sum_widths
  visible_from-Occurs view_l view_r x [] after s h k = rw (h, k) (inl refl)
  visible_from-Occurs view_l view_r x (b ∷ before) after s h k =
      Occurs-if (lt view_l (add x b.width) && lt x view_r) s b _
        (visible_from-Occurs view_l view_r (add x b.width) before after s h k)

  -- A point that lies in the window of the viewport hits only surfaces that are visible.
  pub hit_test-visible :
      Linear f
      → (vx vy : Carrier) (self : Strip Carrier A) {h : Hit Carrier}
      → le self.scroll_pos (add vx self.scroll_pos) ≡ true
      → lt (add vx self.scroll_pos) (add self.scroll_pos self.viewport_width) ≡ true
      → hit_test f vx vy self ≡ some h
      → (s : Surface Carrier A) × (h.id ≡ s.id) × Occurs s (visible f self)
  unfolding visible
  hit_test-visible lin vx vy self {h} low high e =
      let u = (hit_test-Under vx vy self {h = h} e).0 in
      (
        u.at.surface,
        u.id,
        rw u.at.whole (
            visible_from-Occurs self.scroll_pos (add self.scroll_pos self.viewport_width) (of_ℕ 0)
              u.at.before u.at.after u.at.surface (lin.le_lt_trans _ _ _ low u.spans.1)
              (lin.le_lt_trans _ _ _ u.spans.0 high)),
      )
