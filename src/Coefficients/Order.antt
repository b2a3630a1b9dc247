-- ===== src/Coefficients/Order.antt =====
-- The product order of coefficients, and the place of `top` in it.
use simulboot.Base.{
  ◌≤◌, ◌≡◌, refl, ◌∙◌, ◌↔◌, Bool, true, List, [], ◌∷◌, arith, &&-eq-true, length, All,
}
use simulboot.Float.{Float, Ordered, HasZero}
use simulboot.Coefficients.{
  Interval, Coefficient, Linearity, finite_uses, omega_uses, interval_eq, coefficient_eq,
  contained_in, coefficient_leq, all_zip, confidentiality_rank, integrity_rank, linearity_le,
  linearity_eq,
}
use simulboot.Coefficients.Bounds.{
  IntervalIsNumber, contained_in_refl, contained_in_trans, contained_in_antisymm,
}

module _ {ℓ} {A : Type ℓ} (p : A → A → Bool) where
  all_zip_refl : (xs : List A) → All (λ x. p x x ≡ true) xs → all_zip p xs xs ≡ true
  all_zip_refl [] h = refl
  all_zip_refl (x ∷ xs) (h, hs) = rw h (all_zip_refl xs hs)

  all_zip_trans :
      ((x y z : A) → p x y ≡ true → p y z ≡ true → p x z ≡ true)
      → (xs ys zs : List A) → length xs ≡ length ys
      → all_zip p xs ys ≡ true
      → all_zip p ys zs ≡ true
      → all_zip p xs zs ≡ true
  all_zip_trans t [] ys zs e h k = refl
  all_zip_trans t (x ∷ xs) [] zs e h k = absurd (omega arith)
  all_zip_trans t (x ∷ xs) (y ∷ ys) [] e h k = refl
  all_zip_trans t (x ∷ xs) (y ∷ ys) (z ∷ zs) e h k =
      let (h1, h2) = &&-eq-true _ _ h in
      let (k1, k2) = &&-eq-true _ _ k in
      rw (t x y z h1 k1) (all_zip_trans t xs ys zs (omega arith) h2 k2)

  all_zip_antisymm :
      (q : A → A → Bool)
      → ((x y : A) → p x y ≡ true → p y x ≡ true → q x y ≡ true)
      → (xs ys : List A) → all_zip p xs ys ≡ true
      → all_zip p ys xs ≡ true
      → all_zip q xs ys ≡ true
  all_zip_antisymm q t [] ys h k = refl
  all_zip_antisymm q t (x ∷ xs) [] h k = refl
  all_zip_antisymm q t (x ∷ xs) (y ∷ ys) h k =
      let (h1, h2) = &&-eq-true _ _ h in
      let (k1, k2) = &&-eq-true _ _ k in rw (t x y h1 k1) (all_zip_antisymm q t xs ys h2 k2)

linearity_le_refl : (a : Linearity) → linearity_le a a ≡ true
unfolding linearity_le
linearity_le_refl (finite_uses n) = ground arith
linearity_le_refl omega_uses = refl

linearity_le_trans :
    (a b c : Linearity)
    → linearity_le a b ≡ true
    → linearity_le b c ≡ true
    → linearity_le a c ≡ true
unfolding linearity_le
linearity_le_trans a b c h k = ground arith

linearity_le_antisymm :
    (a b : Linearity) → linearity_le a b ≡ true → linearity_le b a ≡ true → linearity_eq a b ≡ true
unfolding linearity_le
linearity_le_antisymm a b h k = ground arith

module _ (f : Float) where
  open f use {Carrier}

  -- What `leq` tests, part by part.
  pub record Leq (a b : Coefficient Carrier) : Type 0 where
    pub arity : length a.timing ≡ length b.timing
    pub timing : all_zip (contained_in f) a.timing b.timing ≡ true
    pub confidentiality :
        confidentiality_rank a.confidentiality ≤ confidentiality_rank b.confidentiality
    pub integrity : integrity_rank a.integrity ≤ integrity_rank b.integrity
    pub linearity : linearity_le a.linearity b.linearity ≡ true

  pub coefficient_leq-Leq : (a b : Coefficient Carrier) → (coefficient_leq f a b ≡ true) ↔ Leq a b
  unfolding coefficient_leq
  coefficient_leq-Leq a b = ((λ h. ground arith), λ h. ground arith)

  abbrev pub CoefficientIsNumber : Coefficient Carrier → Type 0
  CoefficientIsNumber c = All (IntervalIsNumber f) c.timing

  module _ (ord : Ordered f) (zero_ok : HasZero f) where
    contained-All :
        (xs : List (Interval Carrier))
        → All (IntervalIsNumber f) xs
        → All (λ x. contained_in f x x ≡ true) xs
    contained-All [] h = tt
    contained-All (x ∷ xs) (h, hs) = (contained_in_refl f ord zero_ok x h, contained-All xs hs)

    -- `leq` is reflexive on coefficients with no NaN in their timing, where the comparison of floats
    -- is an order.
    pub coefficient_leq_refl :
        (c : Coefficient Carrier) → CoefficientIsNumber c → coefficient_leq f c c ≡ true
    coefficient_leq_refl c h = (coefficient_leq-Leq c c).1 (record {
      arity = refl;
      timing = all_zip_refl (contained_in f) c.timing (contained-All c.timing h);
      confidentiality = omega arith;
      integrity = omega arith;
      linearity = linearity_le_refl c.linearity;
    })

    -- `leq` is transitive, where the comparison of floats is an order (`Ordered`, `HasZero`).
    pub coefficient_leq_trans :
        (a b c : Coefficient Carrier)
        → coefficient_leq f a b ≡ true
        → coefficient_leq f b c ≡ true
        → coefficient_leq f a c ≡ true
    coefficient_leq_trans a b c p q =
        let h = (coefficient_leq-Leq a b).0 p in
        let k = (coefficient_leq-Leq b c).0 q in
        (coefficient_leq-Leq a c).1 (record {
          arity = h.arity ∙ k.arity;
          timing =
              all_zip_trans (contained_in f) (contained_in_trans f ord zero_ok) a.timing b.timing
                c.timing h.arity h.timing k.timing;
          confidentiality = omega arith;
          integrity = omega arith;
          linearity =
              linearity_le_trans a.linearity b.linearity c.linearity h.linearity k.linearity;
        })

    -- Coefficients below one another are `==`, where the comparison of floats is an order.
    pub coefficient_leq_antisymm :
        (a b : Coefficient Carrier)
        → coefficient_leq f a b ≡ true
        → coefficient_leq f b a ≡ true
        → coefficient_eq f a b ≡ true
    unfolding coefficient_eq confidentiality_rank integrity_rank
    coefficient_leq_antisymm a b p q =
        let h = (coefficient_leq-Leq a b).0 p in
        let k = (coefficient_leq-Leq b a).0 q in
        ground (
          arith,
          all_zip_antisymm (contained_in f) (interval_eq f) (contained_in_antisymm f ord zero_ok)
              a.timing b.timing h.timing k.timing,
          linearity_le_antisymm a.linearity b.linearity h.linearity k.linearity,
        )
