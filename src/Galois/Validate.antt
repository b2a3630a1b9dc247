-- ===== src/Galois/Validate.antt =====
-- What `validate` accepts.
use simulboot.Base.{
  ℕ, ◌+◌, ◌≤◌, ◌≡◌, refl, sym, ◌∙◌, ◌↔◌, Bool, true, false, ◌||◌, List, [], ◌∷◌, map, arith,
  if◌then◌else◌, length, length-map, All, bytes_eq, bytes_eq_iff, bytes_eq_refl, ok,
}
use simulboot.Float.{Float}
use simulboot.Wire.{SurfaceId}
use simulboot.Session.{SessionImage, SurfaceEntry, Crypto}
use simulboot.Galois.{
  SurfaceCoefficient, count_refs, validate_surfaces, validate, ImageV1, gamma, top_for,
}

-- Some surface has the id.
unfoldable pub has_id : SurfaceId → List SurfaceEntry → Bool
has_id id [] = false
has_id id (s ∷ ss) = bytes_eq s.id id || has_id id ss

-- No two surfaces have one id.
abbrev pub Distinct : List SurfaceEntry → Type 0
Distinct [] = Unit
Distinct (s ∷ ss) = (has_id s.id ss ≡ false) × Distinct ss

module _ {D : Type 0} where
  -- Every surface has exactly one coefficient.
  abbrev pub Covered : List (SurfaceCoefficient D) → List SurfaceEntry → Type 0
  Covered cs = All (λ s. count_refs s.id cs ≡ 1)

  -- Every coefficient is that of a surface.
  abbrev pub Resolves : List (SurfaceCoefficient D) → List SurfaceEntry → Type 0
  Resolves cs ss = All (λ c. has_id c.surface_ref ss ≡ true) cs

  -- The number of coefficients that resolve.
  count_resolved : List SurfaceEntry → List (SurfaceCoefficient D) → ℕ
  count_resolved ss [] = 0
  count_resolved ss (c ∷ cs) = (if has_id c.surface_ref ss then 1 else 0) + count_resolved ss cs

  count_resolved-cons :
      (s : SurfaceEntry) (ss : List SurfaceEntry) (cs : List (SurfaceCoefficient D))
      → has_id s.id ss ≡ false
      → count_resolved (s ∷ ss) cs ≡ count_refs s.id cs + count_resolved ss cs
  unfolding count_resolved count_refs has_id
  count_resolved-cons s ss [] h = refl
  count_resolved-cons s ss (c ∷ cs) h = ground (
    arith,
    count_resolved-cons s ss cs h,
    bytes_eq_iff s.id c.surface_ref,
    bytes_eq_iff c.surface_ref s.id,
  )

  count_resolved-nil : (cs : List (SurfaceCoefficient D)) → count_resolved [] cs ≡ 0
  unfolding count_resolved has_id
  count_resolved-nil [] = refl
  count_resolved-nil (c ∷ cs) = omega (arith, count_resolved-nil cs)

  count_resolved-Covered :
      (ss : List SurfaceEntry) (cs : List (SurfaceCoefficient D))
      → Distinct ss
      → Covered cs ss
      → count_resolved ss cs ≡ length ss
  count_resolved-Covered [] cs d h = count_resolved-nil cs
  count_resolved-Covered (s ∷ ss) cs d h =
      omega (arith, count_resolved-cons s ss cs d.0, count_resolved-Covered ss cs d.1 h.1)

  count_resolved_le :
      (ss : List SurfaceEntry) (cs : List (SurfaceCoefficient D)) → count_resolved ss cs ≤ length cs
  unfolding count_resolved
  count_resolved_le ss [] = omega arith
  count_resolved_le ss (c ∷ cs) = ground (arith, count_resolved_le ss cs)

  Resolves-of_count :
      (ss : List SurfaceEntry) (cs : List (SurfaceCoefficient D))
      → count_resolved ss cs ≡ length cs
      → Resolves cs ss
  unfolding count_resolved
  Resolves-of_count ss [] h = tt
  Resolves-of_count ss (c ∷ cs) h = (
    ground (arith, count_resolved_le ss cs),
    Resolves-of_count ss cs (ground (arith, count_resolved_le ss cs)),
  )

  count-of_Resolves :
      (ss : List SurfaceEntry) (cs : List (SurfaceCoefficient D))
      → Resolves cs ss
      → count_resolved ss cs ≡ length cs
  unfolding count_resolved
  count-of_Resolves ss [] h = refl
  count-of_Resolves ss (c ∷ cs) h = rw (h.0) (omega (arith, count-of_Resolves ss cs h.1))

  Covered-cons :
      (c : SurfaceCoefficient D) (cs : List (SurfaceCoefficient D)) (ss : List SurfaceEntry)
      → has_id c.surface_ref ss ≡ false
      → Covered (c ∷ cs) ss ↔ Covered cs ss
  unfolding count_refs has_id
  Covered-cons c cs [] h = ((λ k. k), λ k. k)
  Covered-cons c cs (s ∷ ss) h =
      let (there, back) = Covered-cons c cs ss (ground (arith, bytes_eq_iff s.id c.surface_ref)) in
      (
        (λ k. (
          ground (arith, bytes_eq_iff s.id c.surface_ref, bytes_eq_iff c.surface_ref s.id),
          there k.1,
        )),
        λ k. (
          ground (arith, bytes_eq_iff s.id c.surface_ref, bytes_eq_iff c.surface_ref s.id),
          back k.1,
        ),
      )

module _ (f32 f64 : Float) (cr : Crypto) where
  validate_surfaces_iff :
      (cs : List (SurfaceCoefficient f64.Carrier)) (ss : List SurfaceEntry)
      → (validate_surfaces f32 f64 cr cs ss ≡ ok tt) ↔ Covered cs ss
  unfolding validate_surfaces
  validate_surfaces_iff cs [] = ((λ _. tt), λ _. refl)
  validate_surfaces_iff cs (s ∷ ss) =
      let (there, back) = validate_surfaces_iff cs ss in
      ((λ h. ground (arith, there)), λ h. ground (arith, back h.1))

  -- The tests of `validate`: as many coefficients as surfaces, and one for each surface.
  pub validate_tests :
      (img : ImageV1 f32 f64 cr)
      → (validate f32 f64 cr img ≡ ok tt) ↔ (
          (length img.coefficients ≡ length img.base.surfaces)
          × Covered img.coefficients img.base.surfaces)
  unfolding validate
  validate_tests img =
      let (there, back) = validate_surfaces_iff img.coefficients img.base.surfaces in
      ((λ h. ground (arith, there)), λ h. ground (arith, back h.1))

  -- Where no two surfaces have one id, `validate` accepts an image if and only if every surface has
  -- exactly one coefficient and every coefficient refers to a surface.
  pub validate_iff :
      (img : ImageV1 f32 f64 cr)
      → Distinct img.base.surfaces
      → (validate f32 f64 cr img ≡ ok tt)
        ↔ (Covered img.coefficients img.base.surfaces × Resolves img.coefficients img.base.surfaces)
  validate_iff img d =
      let cs = img.coefficients in
      let ss = img.base.surfaces in
      (
        (λ h.
            let (same, covered) = (validate_tests img).0 h in
            (covered, Resolves-of_count ss cs (count_resolved-Covered ss cs d covered ∙ sym same))),
        λ h.
            (validate_tests img).1
              (sym (count-of_Resolves ss cs h.1) ∙ count_resolved-Covered ss cs d h.0, h.0),
      )

  count_refs-gamma :
      (id : SurfaceId) (ss : List SurfaceEntry)
      → (count_refs id (map (top_for f32 f64 cr) ss) ≡ 0) ↔ (has_id id ss ≡ false)
  unfolding count_refs has_id top_for
  count_refs-gamma id [] = ((λ _. refl), λ _. refl)
  count_refs-gamma id (s ∷ ss) =
      let (there, back) = count_refs-gamma id ss in
      ((λ h. ground (arith, there)), λ h. ground (arith, back))

  pub Covered-gamma :
      (ss : List SurfaceEntry) → Covered (map (top_for f32 f64 cr) ss) ss ↔ Distinct ss
  Covered-gamma [] = ((λ _. tt), λ _. tt)
  Covered-gamma (s ∷ ss) =
      let (there, back) = Covered-gamma ss in
      let rest = map (top_for f32 f64 cr) ss in
      let one : count_refs s.id (top_for f32 f64 cr s ∷ rest) ≡ 1 + count_refs s.id rest =
        unfold count_refs top_for in rw (bytes_eq_refl s.id) in
      (
        (λ h.
            let alone = (count_refs-gamma s.id ss).0 (omega arith) in
            (
              alone,
              there ((Covered-cons (top_for f32 f64 cr s) rest ss (unfold top_for in alone)).0 h.1),
            )),
        λ h. (
          omega (arith, (count_refs-gamma s.id ss).1 h.0),
          (Covered-cons (top_for f32 f64 cr s) rest ss (unfold top_for in h.0)).1 (back h.1),
        ),
      )

  -- `gamma` makes a valid v1 image of exactly the v0 images in which no two surfaces have one id.
  pub validate-gamma :
      (base : SessionImage f32.Carrier)
      → (validate f32 f64 cr (gamma f32 f64 cr base) ≡ ok tt) ↔ Distinct base.surfaces
  unfolding gamma
  validate-gamma base =
      let (there, back) = validate_tests (gamma f32 f64 cr base) in
      let (to, from) = Covered-gamma base.surfaces in
      ((λ h. to (there h).1), λ h. back (length-map base.surfaces (top_for f32 f64 cr), from h))
