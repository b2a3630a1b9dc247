-- ===== src/Coefficients/Top.antt =====
-- The place of `Coefficient::top` in the order.
use simulboot.Base.{◌≤◌, ◌≡◌, refl, ap, ◌↔◌, true, ◌&&◌, List, [], ◌∷◌, arith, ◌==◌, length}
use simulboot.Float.{Float, Ordered, HasZero}
use simulboot.Coefficients.{
  all_zip, is_unbounded, Bound, neg_inf, finite, pos_inf, Interval, Coefficient, Linearity,
  finite_uses, omega_uses, Confidentiality, public, Integrity, untrusted, bound_eq, interval_eq,
  contained_in, coefficient_leq, is_top, top, unbounded, confidentiality_rank, integrity_rank,
  linearity_le, bound_le,
}
use simulboot.Coefficients.Bounds.{Below, contained_in-Within}

confidentiality_rank_le :
    (c : Confidentiality) → confidentiality_rank c ≤ confidentiality_rank public
unfolding confidentiality_rank
confidentiality_rank_le c = ground arith

integrity_rank_le : (c : Integrity) → integrity_rank c ≤ integrity_rank untrusted
unfolding integrity_rank
integrity_rank_le c = ground arith

linearity_le-omega : (l : Linearity) → linearity_le l omega_uses ≡ true
unfolding linearity_le
linearity_le-omega (finite_uses n) = refl
linearity_le-omega omega_uses = refl

module _ (f : Float) where
  open f use {Carrier}

  interval_eq-unbounded :
      (iv : Interval Carrier) → (interval_eq f iv (unbounded f) ≡ true) ↔ (iv ≡ unbounded f)
  unfolding interval_eq bound_eq
  interval_eq-unbounded iv = ((λ h. ground arith), λ h. ground arith)

  is_unbounded_iff :
      (xs : List (Interval Carrier)) → (is_unbounded f xs ≡ true) ↔ (xs ≡ unbounded f ∷ [])
  unfolding is_unbounded
  is_unbounded_iff [] = ((λ h. cc), λ h. cc)
  is_unbounded_iff (iv ∷ []) = (
    (λ h. ap (λ x. x ∷ []) ((interval_eq-unbounded iv).0 h)),
    λ h. (interval_eq-unbounded iv).1 (cc),
  )
  is_unbounded_iff (iv ∷ j ∷ xs) = ((λ h. cc), λ h. cc)

  -- `is_top` recognises exactly the coefficient `top`.
  pub is_top_iff : (c : Coefficient Carrier) → (is_top f c ≡ true) ↔ (c ≡ top f)
  unfolding is_top confidentiality_rank integrity_rank
  is_top_iff c = (
    (λ h. ground (arith, (is_unbounded_iff c.timing).0)),
    λ h. ground (arith, (is_unbounded_iff c.timing).1),
  )

  Below-pos_inf : (b : Bound Carrier) → Below f b pos_inf
  Below-pos_inf neg_inf = tt
  Below-pos_inf (finite x) = tt
  Below-pos_inf pos_inf = tt

  module _ (ord : Ordered f) (zero_ok : HasZero f) where
    contained_in-unbounded : (iv : Interval Carrier) → contained_in f iv (unbounded f) ≡ true
    contained_in-unbounded iv =
        (contained_in-Within f ord zero_ok iv (unbounded f)).1 (tt, Below-pos_inf iv.hi)

    timing-top :
        (xs : List (Interval Carrier))
        → (length xs == 1 && all_zip (contained_in f) xs (unbounded f ∷ [])) ≡ (length xs == 1)
    timing-top [] = refl
    timing-top (iv ∷ []) = rw (contained_in-unbounded iv)
    timing-top (iv ∷ j ∷ xs) = ground arith

    -- A coefficient is below `top` if and only if it has one delay path, where the comparison of
    -- floats is an order.
    pub coefficient_leq-top :
        (c : Coefficient Carrier) → coefficient_leq f c (top f) ≡ (length c.timing == 1)
    unfolding coefficient_leq
    coefficient_leq-top c = ground (
      arith,
      timing-top c.timing,
      confidentiality_rank_le c.confidentiality,
      integrity_rank_le c.integrity,
      linearity_le-omega c.linearity,
    )

    contained_in_of_unbounded :
        (iv : Interval Carrier) → contained_in f (unbounded f) iv ≡ interval_eq f iv (unbounded f)
    unfolding contained_in interval_eq bound_eq bound_le
    contained_in_of_unbounded iv = ground (arith, ord.le_refl (f.of_ℕ 0) zero_ok)

    timing_of_top :
        (xs : List (Interval Carrier))
        → (1 == length xs && all_zip (contained_in f) (unbounded f ∷ []) xs) ≡ is_unbounded f xs
    unfolding is_unbounded
    timing_of_top [] = refl
    timing_of_top (iv ∷ []) = ground (arith, contained_in_of_unbounded iv)
    timing_of_top (iv ∷ j ∷ xs) = ground arith

    -- `top` is below a coefficient if and only if `is_top` holds of that, where the comparison of
    -- floats is an order.
    pub top-coefficient_leq : (c : Coefficient Carrier) → coefficient_leq f (top f) c ≡ is_top f c
    unfolding coefficient_leq is_top confidentiality_rank integrity_rank linearity_le
    top-coefficient_leq c = ground (arith, timing_of_top c.timing)
