-- ===== src/Strip/Focus.antt =====
-- The focus is always on a surface of the strip, whatever operations are made.
use simulboot.Base.{
  ℕ, ◌+◌, ◌≡◌, refl, sym, ap, ◌∙◌, true, false, ◌||◌, Option, none, some, List, [], ◌∷◌, ◌++◌,
  arith, if◌then◌else◌, bytes_eq, bytes_eq_iff, bytes_eq_refl,
}
use mathlib.Core.Path.{subst}
use simulboot.Float.{Float}
use simulboot.Wire.{SurfaceId}
use simulboot.Strip.{
  Surface, Strip, Hit, any_id, take_id, renumber, clamp_scroll, scroll_by, set_scroll, is_focus,
  after_remove, remove, removed, with_removed, append, insert_ordered, sort_by_order,
  insert_by_order, note_in, note_frame, set_focus, set_focus_opt, click, focus_hit, hit_test,
  hit_from, new_strip,
}
use simulboot.Strip.Order.{Split, take_id-Split}

module _ {F A : Type 0} where
  abbrev pub FocusValid : Strip F A → Type 0
  FocusValid self = (id : SurfaceId) → self.focus ≡ some id → any_id id self.surfaces ≡ true

  any_id-append :
      (id : SurfaceId) (xs ys : List (Surface F A))
      → any_id id (xs ++ ys) ≡ (any_id id xs || any_id id ys)
  unfolding any_id
  any_id-append id [] ys = refl
  any_id-append id (x ∷ xs) ys = ground (arith, any_id-append id xs ys)

  any_id-insert :
      (id : SurfaceId) (s : Surface F A) (ss : List (Surface F A))
      → any_id id (insert_by_order s ss) ≡ any_id id (s ∷ ss)
  unfolding any_id insert_by_order
  any_id-insert id s [] = refl
  any_id-insert id s (t ∷ ss) = ground (arith, any_id-insert id s ss)

  any_id-sort :
      (id : SurfaceId) (ss : List (Surface F A)) → any_id id (sort_by_order ss) ≡ any_id id ss
  unfolding any_id sort_by_order
  any_id-sort id [] = refl
  any_id-sort id (s ∷ ss) = ground (arith, any_id-insert id s (sort_by_order ss), any_id-sort id ss)

  any_id-renumber :
      (id : SurfaceId) (k : ℕ) (ss : List (Surface F A)) → any_id id (renumber k ss) ≡ any_id id ss
  unfolding any_id renumber
  any_id-renumber id k [] = refl
  any_id-renumber id k (s ∷ ss) = ground (arith, any_id-renumber id (k + 1) ss)

  any_id-note_in :
      (id j : SurfaceId) (pts : ℕ) (ss : List (Surface F A))
      → any_id id (note_in j pts ss) ≡ any_id id ss
  unfolding any_id note_in
  any_id-note_in id j pts [] = refl
  any_id-note_in id j pts (s ∷ ss) = ground (arith, any_id-note_in id j pts ss)

  any_id_skip :
      (j : SurfaceId) (s : Surface F A) (ss : List (Surface F A))
      → bytes_eq s.id j ≡ false
      → any_id j (s ∷ ss) ≡ any_id j ss
  unfolding any_id
  any_id_skip j s ss h = rw h

  any_id-Split :
      {id : SurfaceId} {ss rest : List (Surface F A)} {s : Surface F A} (j : SurfaceId)
      → Split id ss s rest
      → bytes_eq j id ≡ false
      → any_id j ss ≡ any_id j rest
  any_id-Split {id} {ss} {rest} {s} j sp other =
      ap (any_id j) sp.whole
      ∙ any_id-append j sp.before (s ∷ sp.after)
      ∙ ap (λ b. any_id j sp.before || b) skipped
      ∙ sym (any_id-append j sp.before sp.after)
      ∙ ap (any_id j) (sym sp.without)
    where
      skipped : any_id j (s ∷ sp.after) ≡ any_id j sp.after
      skipped =
          any_id_skip j s sp.after
            (ground (arith, bytes_eq_iff s.id j, bytes_eq_iff j id, sp.found))

clear_focus :
    (focus : Option SurfaceId) (id j : SurfaceId)
    → (if is_focus focus id then none else focus) ≡ some j
    → (focus ≡ some j) × (bytes_eq j id ≡ false)
clear_focus none id j e = cc
clear_focus (some i) id j e = ground arith

module _ (f : Float) {A : Type 0} where
  open f use {Carrier}

  hit_from-any_id :
      (sx vy x : Carrier) (ss : List (Surface Carrier A)) {h : Hit Carrier}
      → hit_from f sx vy x ss ≡ some h
      → any_id h.id ss ≡ true
  unfolding hit_from any_id
  hit_from-any_id sx vy x [] e = cc
  hit_from-any_id sx vy x (s ∷ ss) {h} e =
      ground (arith, bytes_eq_refl s.id, hit_from-any_id sx vy (f.add x s.width) ss {h = h})

  -- One call of an operation that changes the strip.
  pub data Step : Strip Carrier A → Strip Carrier A → Type 0 where
    appended : {self : Strip Carrier A} (s : Surface Carrier A) → Step self (append f s self).0
    inserted : {self : Strip Carrier A} (s : Surface Carrier A) → Step self (insert_ordered s self)
    removes :
        {self after : Strip Carrier A} (id : SurfaceId) {got : Option (Surface Carrier A)}
        → remove f id self ≡ some (after, got)
        → Step self after
    noted : {self : Strip Carrier A} (id : SurfaceId) (pts : ℕ) → Step self (note_frame id pts self)
    scrolled :
        {self after : Strip Carrier A} (dx : Carrier)
        → scroll_by f dx self ≡ some after
        → Step self after
    placed :
        {self after : Strip Carrier A} (pos : Carrier)
        → set_scroll f pos self ≡ some after
        → Step self after
    focused : {self : Strip Carrier A} (id : SurfaceId) → Step self (set_focus id self).0
    refocused : {self : Strip Carrier A} (id : Option SurfaceId) → Step self (set_focus_opt id self)
    clicked : {self : Strip Carrier A} (vx vy : Carrier) → Step self (click f vx vy self).0

  pub data Reach (s : Strip Carrier A) : Strip Carrier A → Type 0 where
    here : Reach s s
    next : {t u : Strip Carrier A} → Reach s t → Step t u → Reach s u

  clamp_scroll-keeps :
      (self : Strip Carrier A) {after : Strip Carrier A}
      → clamp_scroll f self ≡ some after
      → (after.surfaces ≡ self.surfaces) × (after.focus ≡ self.focus)
  unfolding clamp_scroll
  clamp_scroll-keeps self e = ground arith

  with_removed-eq-some :
      (s : Surface Carrier A) (result : Option (Strip Carrier A)) {after : Strip Carrier A}
      {got : Option (Surface Carrier A)}
      → with_removed f s result ≡ some (after, got)
      → result ≡ some after
  unfolding with_removed
  with_removed-eq-some s none e = cc
  with_removed-eq-some s (some strip) e = ground arith

  removed-FocusValid :
      (id : SurfaceId) (self after : Strip Carrier A)
      (found : Option (Surface Carrier A × List (Surface Carrier A)))
      {got : Option (Surface Carrier A)}
      → FocusValid self
      → take_id id self.surfaces ≡ found
      → removed f id self found ≡ some (after, got)
      → FocusValid after
  unfolding removed after_remove
  removed-FocusValid id self after none v t e j h =
      let same : self ≡ after = ground arith in subst FocusValid same v j h
  removed-FocusValid id self after (some (s, rest)) v t e j h =
      let (surfaces, focus) =
        clamp_scroll-keeps (after_remove f id self rest)
          (with_removed-eq-some s (clamp_scroll f (after_remove f id self rest)) e) in
      let (was, other) = clear_focus self.focus id j (sym focus ∙ h) in
      ap (any_id j) surfaces
      ∙ any_id-renumber j 0 rest
      ∙ sym (any_id-Split j (take_id-Split id self.surfaces t) other)
      ∙ v j was

  clamp_scroll-FocusValid :
      (self : Strip Carrier A) {after : Strip Carrier A}
      → FocusValid self
      → clamp_scroll f self ≡ some after
      → FocusValid after
  clamp_scroll-FocusValid self v e j h =
      let (surfaces, focus) = clamp_scroll-keeps self e in
      ap (any_id j) surfaces ∙ v j (sym focus ∙ h)

  focus_hit-FocusValid :
      (self : Strip Carrier A) (hit : Option (Hit Carrier))
      → ((h : Hit Carrier) → hit ≡ some h → any_id h.id self.surfaces ≡ true)
      → FocusValid self
      → FocusValid (focus_hit f self hit).0
  unfolding focus_hit
  focus_hit-FocusValid self none inside v j e = v j e
  focus_hit-FocusValid self (some h) inside v j e =
      let same : h.id ≡ j = ground arith in rw (← same) (inside h refl)

  set_focus-FocusValid :
      (id : SurfaceId) (self : Strip Carrier A) → FocusValid self → FocusValid (set_focus id self).0
  unfolding set_focus
  set_focus-FocusValid id self v j e = ground (arith, v j)

  set_focus_opt-FocusValid :
      (id : Option SurfaceId) (self : Strip Carrier A) → FocusValid (set_focus_opt id self)
  unfolding set_focus_opt
  set_focus_opt-FocusValid none self j e = cc
  set_focus_opt-FocusValid (some id) self j e = ground arith

  hit_test-any_id :
      (vx vy : Carrier) (self : Strip Carrier A) {h : Hit Carrier}
      → hit_test f vx vy self ≡ some h
      → any_id h.id self.surfaces ≡ true
  unfolding hit_test
  hit_test-any_id vx vy self {h} e =
      ground (arith, hit_from-any_id (f.add vx self.scroll_pos) vy (f.of_ℕ 0) self.surfaces {h = h})

  Step-FocusValid : {t u : Strip Carrier A} → Step t u → FocusValid t → FocusValid u
  Step-FocusValid (appended {self} s) v id e =
      unfold append in rw (any_id-append id self.surfaces _, v id e)
  Step-FocusValid (inserted {self} s) v id e =
      unfold insert_ordered in
      rw (any_id-sort id (self.surfaces ++ s ∷ []), any_id-append id self.surfaces (s ∷ []), v id e)
  Step-FocusValid (removes {self} {after} id {got} e) v j h =
      removed-FocusValid id self after (take_id id self.surfaces) {got = got} v refl
        (unfold remove in e) j h
  Step-FocusValid (noted {self} id pts) v j e =
      unfold note_frame in rw (any_id-note_in j id pts self.surfaces) (v j e)
  Step-FocusValid (scrolled {self} {after} dx h) v id e =
      clamp_scroll-FocusValid (record self { scroll_pos = f.add self.scroll_pos dx })
        {after = after} v (unfold scroll_by in h) id e
  Step-FocusValid (placed {self} {after} pos h) v id e =
      clamp_scroll-FocusValid (record self { scroll_pos = pos }) {after = after} v
        (unfold set_scroll in h) id e
  Step-FocusValid (focused {self} j) v id e = set_focus-FocusValid j self v id e
  Step-FocusValid (refocused {self} j) v id e = set_focus_opt-FocusValid j self id e
  Step-FocusValid (clicked {self} vx vy) v id e =
      unfold click in
      focus_hit-FocusValid self (hit_test f vx vy self)
        (λ h found. hit_test-any_id vx vy self found) v id e

  Reach-FocusValid : {s t : Strip Carrier A} → FocusValid s → Reach s t → FocusValid t
  Reach-FocusValid v here = v
  Reach-FocusValid v (next r st) = Step-FocusValid st (Reach-FocusValid v r)

  -- Whatever operations are made of a new strip, in whatever sequence, its focus is on a surface that
  -- it holds, or on none.
  pub Reach-new-FocusValid :
      (width height : Carrier) {t : Strip Carrier A}
      → Reach (new_strip f width height) t
      → FocusValid t
  Reach-new-FocusValid width height r =
      Reach-FocusValid {s = new_strip f width height} (λ id e. unfold new_strip in cc) r
