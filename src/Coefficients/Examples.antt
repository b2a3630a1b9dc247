-- ===== src/Coefficients/Examples.antt =====
-- The theorems on coefficients at concrete values.
use simulboot.Base.{ℕ, ◌≡◌, refl, ◌↔◌, true, some, [], ◌∷◌, codes}
use simulboot.Examples.Numbers.{
  naturals, naturals-Ordered, levels, levels-Ordered, levels-Printable, middle,
}
use simulboot.Coefficients.{
  finite, pos_inf, Coefficient, finite_uses, secret, restricted, trusted, coefficient_leq, is_top,
  top, bound_le, bound_eq, bound_parse, bound_to_str, integrity_parse, integrity_to_str,
  contained_in, confidentiality_rank, integrity_rank, linearity_le,
}
use simulboot.Coefficients.Order.{coefficient_leq_trans}
use simulboot.Coefficients.Top.{coefficient_leq-top, top-coefficient_leq}
use simulboot.Coefficients.Spelling.{written_bound, bound_parse-to_str, integrity_parse_iff}

abbrev narrow : Coefficient ℕ
narrow = record {
  timing = record { lo = finite 3; hi = finite 5 } ∷ [];
  confidentiality = secret;
  integrity = trusted;
  linearity = finite_uses 1;
}

abbrev wide : Coefficient ℕ
wide = record narrow {
  timing = record { lo = finite 2; hi = pos_inf } ∷ [];
  confidentiality = restricted;
  linearity = finite_uses 4;
}

narrow-leq-wide : coefficient_leq naturals narrow wide ≡ true
unfolding coefficient_leq contained_in bound_le confidentiality_rank integrity_rank linearity_le
narrow-leq-wide = refl

coefficient_leq_trans_example : coefficient_leq naturals narrow (top naturals) ≡ true
coefficient_leq_trans_example =
    coefficient_leq_trans naturals naturals-Ordered refl narrow wide (top naturals) narrow-leq-wide
      (unfold coefficient_leq contained_in bound_le confidentiality_rank integrity_rank
          linearity_le in
        refl)

coefficient_leq-top_example : coefficient_leq naturals narrow (top naturals) ≡ true
coefficient_leq-top_example = coefficient_leq-top naturals naturals-Ordered refl narrow

top-coefficient_leq_example :
    coefficient_leq naturals (top naturals) narrow ≡ is_top naturals narrow
top-coefficient_leq_example = top-coefficient_leq naturals naturals-Ordered refl narrow

bound_parse-to_str_example :
    (bound_parse levels (bound_to_str levels (finite middle))
      ≡ some (written_bound levels (finite middle)))
    × (bound_eq levels (finite middle) (written_bound levels (finite middle)) ≡ true)
bound_parse-to_str_example =
    bound_parse-to_str levels levels-Ordered refl levels-Printable (finite middle) refl

integrity_parse_iff_example :
    (integrity_parse (codes "public") ≡ some trusted) ↔ (codes "public" ≡ integrity_to_str trusted)
integrity_parse_iff_example = integrity_parse_iff (codes "public") trusted
