-- ===== src/Galois/Laws.antt =====
-- The laws of the maps between v0 and v1 images.
use simulboot.Base.{
  ◌≡◌, refl, sym, ap, ◌∙◌, inl, inr, Bool, true, false, ◌&&◌, some, List, [], ◌∷◌, map, arith, ◌==◌,
  ==_iff, Bool-cases, length, length-map, bytes_eq, bytes_eq_iff, ok,
}
use simulboot.Float.{Float, Ordered, HasZero, Printable}
use simulboot.Wire.{SurfaceId}
use simulboot.Session.{SessionImage, SurfaceEntry, Crypto, HexLaws}
use simulboot.Session.Write.{canonical_bytes}
use simulboot.Session.Write.Inj.{canonical_bytes_inj}
use simulboot.Coefficients.{top, is_top}
use simulboot.Coefficients.Top.{coefficient_leq-top, is_top_iff}
use simulboot.Galois.{
  SurfaceCoefficient, find_coefficient, all, validate, ImageV1, gamma, alpha, top_for, below_found,
  leq, base_eq, coeff_is_top,
}
use simulboot.Galois.Validate.{has_id, Distinct, Resolves, validate_iff, validate_tests}

module _ (f32 f64 : Float) (cr : Crypto) where
  abbrev pub one_path : SurfaceCoefficient f64.Carrier → Bool
  one_path c = length c.coefficient.timing == 1

  find_coefficient-gamma :
      (id : SurfaceId) (ss : List SurfaceEntry)
      → has_id id ss ≡ true
      → find_coefficient id (map (top_for f32 f64 cr) ss) ≡ some (top f64)
  unfolding find_coefficient has_id top_for
  find_coefficient-gamma id [] h = cc
  find_coefficient-gamma id (s ∷ ss) h = ground (arith, find_coefficient-gamma id ss)

  -- Every coefficient of the image of `gamma` is the top.
  pub coeff_is_top-gamma :
      (base : SessionImage f32.Carrier) → coeff_is_top f32 f64 cr (gamma f32 f64 cr base) ≡ true
  unfolding coeff_is_top gamma
  coeff_is_top-gamma base = tops base.surfaces
    where
      tops :
          (ss : List SurfaceEntry)
          → all
              (λ (c : SurfaceCoefficient f64.Carrier). is_top f64 c.coefficient)
              (map (top_for f32 f64 cr) ss)
            ≡ true
      tops [] = refl
      tops (s ∷ ss) = rw ((is_top_iff f64 (top f64)).1 refl) (tops ss)

  module _ (ord : Ordered f64) (zero_ok : HasZero f64) where
    all-below_top :
        (cs : List (SurfaceCoefficient f64.Carrier)) (ss : List SurfaceEntry)
        → Resolves cs ss
        → all
            (λ sc.
              below_found f32 f64 cr sc.coefficient
                (find_coefficient sc.surface_ref (map (top_for f32 f64 cr) ss)))
            cs
          ≡ all one_path cs
    unfolding all below_found
    all-below_top [] ss h = refl
    all-below_top (c ∷ cs) ss h = rw (
      find_coefficient-gamma c.surface_ref ss h.0,
      coefficient_leq-top f64 ord zero_ok c.coefficient,
      all-below_top cs ss h.1,
    )

    leq_same :
        (x : ImageV1 f32 f64 cr) (y : SessionImage f32.Carrier)
        → Distinct x.base.surfaces
        → validate f32 f64 cr x ≡ ok tt
        → x.base.surfaces ≡ y.surfaces
        → (all
              (λ sc.
                below_found f32 f64 cr sc.coefficient
                  (find_coefficient sc.surface_ref (map (top_for f32 f64 cr) y.surfaces)))
              x.coefficients
            && length x.coefficients == length (map (top_for f32 f64 cr) y.surfaces))
          ≡ all one_path x.coefficients
    leq_same x y d v same =
        let (covered, resolved) = (validate_iff f32 f64 cr x d).0 v in
        let count = ((validate_tests f32 f64 cr x).0 v).0 in
        let lengths : length x.coefficients ≡ length (map (top_for f32 f64 cr) y.surfaces) =
          count ∙ ap length same ∙ sym (length-map y.surfaces (top_for f32 f64 cr)) in
        rw (all-below_top x.coefficients y.surfaces (rw same at resolved), (==_iff _ _).1 lengths)
          (ground arith)

    module _ (ord32 : Ordered f32) (zero32 : HasZero f32) (printable : Printable f32)
        (hex : HexLaws cr) where
      -- For a valid v1 image `x` whose surface ids are distinct, and any v0 image `y`, both with a
      -- scroll position that is a number: `x` is below `gamma y` if and only if `alpha x` and `y`
      -- have one canonical form and every coefficient of `x` has exactly one delay path.
      pub leq-gamma :
          (x : ImageV1 f32 f64 cr) (y : SessionImage f32.Carrier)
          → Distinct x.base.surfaces
          → validate f32 f64 cr x ≡ ok tt
          → f32.is_nan x.base.layout.scroll_pos ≡ false
          → f32.is_nan y.layout.scroll_pos ≡ false
          → leq f32 f64 cr x (gamma f32 f64 cr y) ≡ (
              bytes_eq (canonical_bytes f32 cr (alpha f32 f64 cr x)) (canonical_bytes f32 cr y)
              && all one_path x.coefficients)
      unfolding leq gamma alpha base_eq
      leq-gamma x y d v nx ny =
          elim (Bool-cases (bytes_eq (canonical_bytes f32 cr x.base) (canonical_bytes f32 cr y))) [
            | inl same ↦
                let content =
                  canonical_bytes_inj f32 ord32 zero32 printable cr hex x.base y nx ny
                    ((bytes_eq_iff _ _).0 same) in
                rw same (leq_same x y d v content.surfaces)
            | inr other ↦ rw other
          ]
