-- ===== src/Galois/Examples.antt =====
-- The laws of the maps at a concrete image.
use simulboot.Base.{◌≡◌, refl, ◌↔◌, ◌&&◌, [], ◌∷◌, bytes_eq, ok}
use simulboot.Examples.Numbers.{
  levels, levels-Ordered, levels-Printable, naturals, naturals-Ordered,
}
use simulboot.Examples.Crates.{crates, crates-HexLaws}
use simulboot.Session.Examples.{image}
use simulboot.Session.Write.{canonical_bytes}
use simulboot.Galois.{ImageV1, gamma, alpha, validate, leq, count_refs, all}
use simulboot.Galois.Validate.{Distinct, has_id, Covered, Resolves, validate_iff, validate-gamma}
use simulboot.Galois.Laws.{leq-gamma, one_path}

abbrev v1 : ImageV1 levels naturals crates
v1 = record {
  base = image;
  coefficients =
      record {
        surface_ref = 7 ∷ 9 ∷ [];
        coefficient = record {
          timing = [];
          confidentiality = simulboot.Coefficients.secret;
          integrity = simulboot.Coefficients.trusted;
          linearity = simulboot.Coefficients.omega_uses;
        };
      }
      ∷ [];
}

distinct : Distinct image.surfaces
distinct = (unfold has_id in refl, tt)

validate_iff_example :
    (validate levels naturals crates v1 ≡ ok tt)
    ↔ (Covered v1.coefficients image.surfaces × Resolves v1.coefficients image.surfaces)
validate_iff_example = validate_iff levels naturals crates v1 distinct

valid : validate levels naturals crates v1 ≡ ok tt
valid =
    (validate_iff levels naturals crates v1 distinct).1
      (unfold count_refs bytes_eq in (refl, tt), unfold has_id bytes_eq in (refl, tt))

validate-gamma_example :
    (validate levels naturals crates (gamma levels naturals crates image) ≡ ok tt)
    ↔ Distinct image.surfaces
validate-gamma_example = validate-gamma levels naturals crates image

leq-gamma_example : leq levels naturals crates v1 (gamma levels naturals crates image) ≡ (
    bytes_eq
      (canonical_bytes levels crates (alpha levels naturals crates v1))
      (canonical_bytes levels crates image)
    && all (one_path levels naturals crates) v1.coefficients)
leq-gamma_example =
    leq-gamma levels naturals crates naturals-Ordered refl levels-Ordered refl levels-Printable
      crates-HexLaws v1 image distinct valid refl refl
