-- ===== src/Coefficients/Bounds.antt =====
-- The order of bounds is that of the extended numbers, and containment is a preorder.
use simulboot.Base.{◌≡◌, refl, ◌↔◌, true, false, &&-eq-true}
use simulboot.Float.{Float, Ordered, HasZero}
use simulboot.Coefficients.{
  Bound, neg_inf, finite, pos_inf, Interval, bound_le, bound_eq, interval_eq, contained_in,
}

module _ (f : Float) where
  open f use {Carrier, le, is_nan}

  -- The order of the extended numbers, by cases.
  abbrev pub Below : Bound Carrier → Bound Carrier → Type 0
  Below neg_inf _ = Unit
  Below (finite x) neg_inf = ⊥
  Below (finite x) (finite y) = le x y ≡ true
  Below (finite x) pos_inf = Unit
  Below pos_inf neg_inf = ⊥
  Below pos_inf (finite y) = ⊥
  Below pos_inf pos_inf = Unit

  -- No endpoint is NaN, which the parser ensures.
  abbrev pub BoundIsNumber : Bound Carrier → Type 0
  BoundIsNumber neg_inf = Unit
  BoundIsNumber (finite x) = is_nan x ≡ false
  BoundIsNumber pos_inf = Unit

  abbrev pub IntervalIsNumber : Interval Carrier → Type 0
  IntervalIsNumber iv = BoundIsNumber iv.lo × BoundIsNumber iv.hi

  module _ (ord : Ordered f) (zero_ok : HasZero f) where
    -- `Bound::le` is exactly the order of the extended numbers, where the comparison of floats is an
    -- order.
    pub bound_le-Below : (a b : Bound Carrier) → (bound_le f a b ≡ true) ↔ Below a b
    unfolding bound_le
    bound_le-Below neg_inf neg_inf = ((λ _. tt), λ _. ord.le_refl _ zero_ok)
    bound_le-Below pos_inf pos_inf = ((λ _. tt), λ _. ord.le_refl _ zero_ok)
    bound_le-Below (finite x) (finite y) = ((λ h. h), λ h. h)
    bound_le-Below neg_inf (finite y) = ((λ _. tt), λ _. refl)
    bound_le-Below neg_inf pos_inf = ((λ _. tt), λ _. refl)
    bound_le-Below (finite x) pos_inf = ((λ _. tt), λ _. refl)
    bound_le-Below (finite x) neg_inf = ((λ h. cc), λ h. absurd h)
    bound_le-Below pos_inf neg_inf = ((λ h. cc), λ h. absurd h)
    bound_le-Below pos_inf (finite y) = ((λ h. cc), λ h. absurd h)

    Below-refl : (a : Bound Carrier) → BoundIsNumber a → Below a a
    Below-refl neg_inf n = tt
    Below-refl (finite x) n = ord.le_refl x n
    Below-refl pos_inf n = tt

    Below-trans : (a b c : Bound Carrier) → Below a b → Below b c → Below a c
    Below-trans neg_inf b c p q = tt
    Below-trans (finite x) (finite y) (finite z) p q = ord.le_trans x y z p q
    Below-trans (finite x) pos_inf pos_inf p q = tt
    Below-trans (finite x) (finite y) pos_inf p q = tt
    Below-trans pos_inf pos_inf pos_inf p q = tt
    Below-trans (finite x) neg_inf c p q = absurd p
    Below-trans (finite x) (finite y) neg_inf p q = absurd q
    Below-trans (finite x) pos_inf neg_inf p q = absurd q
    Below-trans (finite x) pos_inf (finite z) p q = absurd q
    Below-trans pos_inf neg_inf c p q = absurd p
    Below-trans pos_inf (finite y) c p q = absurd p
    Below-trans pos_inf pos_inf neg_inf p q = absurd q
    Below-trans pos_inf pos_inf (finite z) p q = absurd q

    Below-antisymm : (a b : Bound Carrier) → Below a b → Below b a → bound_eq f a b ≡ true
    unfolding bound_eq
    Below-antisymm neg_inf neg_inf p q = refl
    Below-antisymm (finite x) (finite y) p q = ord.le_antisymm x y p q
    Below-antisymm pos_inf pos_inf p q = refl
    Below-antisymm neg_inf (finite y) p q = absurd q
    Below-antisymm neg_inf pos_inf p q = absurd q
    Below-antisymm (finite x) neg_inf p q = absurd p
    Below-antisymm (finite x) pos_inf p q = absurd q
    Below-antisymm pos_inf neg_inf p q = absurd p
    Below-antisymm pos_inf (finite y) p q = absurd p

    -- `a` lies in `b`.
    abbrev pub Within : Interval Carrier → Interval Carrier → Type 0
    Within a b = Below b.lo a.lo × Below a.hi b.hi

    pub contained_in-Within : (a b : Interval Carrier) → (contained_in f a b ≡ true) ↔ Within a b
    unfolding contained_in
    contained_in-Within a b = (
      (λ h.
          let (p, q) = &&-eq-true _ _ h in
          ((bound_le-Below b.lo a.lo).0 p, (bound_le-Below a.hi b.hi).0 q)),
      (λ h. rw ((bound_le-Below b.lo a.lo).1 h.0) ((bound_le-Below a.hi b.hi).1 h.1)),
    )

    pub contained_in_refl : (a : Interval Carrier) → IntervalIsNumber a → contained_in f a a ≡ true
    contained_in_refl a (p, q) = (contained_in-Within a a).1 (Below-refl a.lo p, Below-refl a.hi q)

    pub contained_in_trans :
        (a b c : Interval Carrier)
        → contained_in f a b ≡ true
        → contained_in f b c ≡ true
        → contained_in f a c ≡ true
    contained_in_trans a b c p q =
        let (al, ah) = (contained_in-Within a b).0 p in
        let (bl, bh) = (contained_in-Within b c).0 q in
        (contained_in-Within a c).1
          (Below-trans c.lo b.lo a.lo bl al, Below-trans a.hi b.hi c.hi ah bh)

    pub contained_in_antisymm :
        (a b : Interval Carrier)
        → contained_in f a b ≡ true
        → contained_in f b a ≡ true
        → interval_eq f a b ≡ true
    unfolding interval_eq
    contained_in_antisymm a b p q =
        let (al, ah) = (contained_in-Within a b).0 p in
        let (bl, bh) = (contained_in-Within b a).0 q in
        rw (Below-antisymm a.lo b.lo bl al) (Below-antisymm a.hi b.hi ah bh)
