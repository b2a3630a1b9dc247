-- ===== src/Galois/Markup.antt =====
-- simulboot-common/src/galois.rs: the markup of the coefficient block that `write_coefficients` writes,
-- and its text. Events has its events.
pub mod Events
use simulboot.Base.{
  ℕ, ◌≡◌, refl, sym, ap, ◌∙◌, ◌⊎◌, inl, inr, true, Option, none, some, List, [], ◌∷◌, ◌++◌,
  append_assoc, arith, Option-cases, Bytes, codes, Lacks, All, if◌then◌else◌, ok,
}
use simulboot.Float.{Float, Printable}
use simulboot.Wire.{SurfaceId}
use simulboot.Base.Decimal.{to_string, to_string-IsDigit}
use simulboot.Session.{SurfaceEntry, Crypto, HexLaws, IsHexDigit, surface_id_to_str}
use simulboot.Session.Escape.{Unescape, UnescapeLaws}
use simulboot.Session.Write.Inj.{digits-Lacks}
use simulboot.Session.Markup.{
  Markup, open_tag, empty_tag, close_tag, print, print_attrs, attr_events, events_of,
  unescape-plain,
}
use simulboot.Session.Markup.Image.{line}
use simulboot.Coefficients.{
  Bound, finite, neg_inf, pos_inf, fmt_f64, Interval, Coefficient, Confidentiality, secret,
  restricted, public, Integrity, trusted, endorsed, untrusted, Linearity, omega_uses, finite_uses,
  bound_to_str, confidentiality_to_str, integrity_to_str, linearity_to_str,
}
use simulboot.Galois.{SurfaceCoefficient, ImageV1, find_coefficient, coefficient_for}
use simulboot.Galois.Write.{
  coefficients_namespace, write_delay_paths, write_coefficient, write_each, write_coefficients,
}
use simulboot.Galois.Block.{
  paths_events, coefficient_events, each_events, each_missing, each_found, block_events,
}

module _ (f64 : Float) where
  unfoldable pub paths_markup : List (Interval f64.Carrier) → List Markup → List Markup
  paths_markup [] rest = rest
  paths_markup (iv ∷ ivs) rest =
      line 4
        (empty_tag (codes "c:delay-path")
          ((codes "hi", bound_to_str f64 iv.hi) ∷ (codes "lo", bound_to_str f64 iv.lo) ∷ []))
        (paths_markup ivs rest)

  print-paths_markup :
      (ivs : List (Interval f64.Carrier)) (rest : List Markup)
      → print (paths_markup ivs rest) ≡ write_delay_paths f64 true ivs ++ print rest
  unfolding print print_attrs paths_markup write_delay_paths
  print-paths_markup [] rest = refl
  print-paths_markup (iv ∷ ivs) rest = simp (append_assoc, print-paths_markup ivs rest) refl

  module _ (cr : Crypto) where
    unfoldable pub coefficient_markup :
        SurfaceId → Coefficient f64.Carrier → List Markup → List Markup
    coefficient_markup id c rest =
        line 2
          (open_tag (codes "c:surface-coefficient")
            ((codes "surface-ref", surface_id_to_str cr id) ∷ []))
          (line 3 (open_tag (codes "c:timing") []) (
            paths_markup c.timing (
              line 3 (close_tag (codes "c:timing")) (
                line 3
                  (empty_tag (codes "c:security") (
                    (codes "confidentiality", confidentiality_to_str c.confidentiality)
                    ∷ (codes "integrity", integrity_to_str c.integrity)
                    ∷ []))
                  (line 3
                    (empty_tag (codes "c:linearity")
                      ((codes "count", linearity_to_str c.linearity) ∷ []))
                    (line 2 (close_tag (codes "c:surface-coefficient")) rest))))))

    print-coefficient_markup :
        (id : SurfaceId) (c : Coefficient f64.Carrier) (rest : List Markup)
        → print (coefficient_markup id c rest) ≡ write_coefficient f64 cr true id c ++ print rest
    unfolding print print_attrs coefficient_markup write_coefficient
    print-coefficient_markup id c rest = simp (append_assoc, print-paths_markup) refl

    unfoldable pub each_markup :
        List (SurfaceCoefficient f64.Carrier) → List SurfaceEntry → List Markup → List Markup
    each_markup cs [] rest = rest
    each_markup cs (s ∷ ss) rest = elim (find_coefficient s.id cs) [
      | none ↦ each_markup cs ss rest
      | some c ↦ coefficient_markup s.id c (each_markup cs ss rest)
    ]

    pub each_markup-missing :
        (cs : List (SurfaceCoefficient f64.Carrier)) (s : SurfaceEntry) (ss : List SurfaceEntry)
        (rest : List Markup)
        → find_coefficient s.id cs ≡ none
        → each_markup cs (s ∷ ss) rest ≡ each_markup cs ss rest
    unfolding each_markup
    each_markup-missing cs s ss rest missing = ground arith

    pub each_markup-found :
        (cs : List (SurfaceCoefficient f64.Carrier)) (s : SurfaceEntry) (ss : List SurfaceEntry)
        (rest : List Markup) {c : Coefficient f64.Carrier}
        → find_coefficient s.id cs ≡ some c
        → each_markup cs (s ∷ ss) rest ≡ coefficient_markup s.id c (each_markup cs ss rest)
    unfolding each_markup
    each_markup-found cs s ss rest found = ground arith

    unfoldable pub block_markup :
        List (SurfaceCoefficient f64.Carrier) → List SurfaceEntry → List Markup → List Markup
    block_markup cs ss rest =
        line 1 (open_tag (codes "c:coefficients") ((codes "xmlns:c", coefficients_namespace) ∷ []))
          (each_markup cs ss (line 1 (close_tag (codes "c:coefficients")) rest))

    module _ (f32 : Float) where
      write_each-missing :
          (img : ImageV1 f32 f64 cr) (s : SurfaceEntry) (ss : List SurfaceEntry)
          → find_coefficient s.id img.coefficients ≡ none
          → write_each f32 f64 cr true img (s ∷ ss) ≡ write_each f32 f64 cr true img ss
      unfolding write_each coefficient_for
      write_each-missing img s ss missing = ground arith

      write_each-found :
          (img : ImageV1 f32 f64 cr) (s : SurfaceEntry) (ss : List SurfaceEntry)
          {c : Coefficient f64.Carrier}
          → find_coefficient s.id img.coefficients ≡ some c
          → write_each f32 f64 cr true img (s ∷ ss)
            ≡ write_coefficient f64 cr true s.id c ++ write_each f32 f64 cr true img ss
      unfolding write_each coefficient_for
      write_each-found img s ss found = ground arith

      print-each_markup :
          (img : ImageV1 f32 f64 cr) (ss : List SurfaceEntry) (rest : List Markup)
          → print (each_markup img.coefficients ss rest)
            ≡ write_each f32 f64 cr true img ss ++ print rest
      print-each_markup img [] rest = unfold each_markup write_each in refl
      print-each_markup img (s ∷ ss) rest =
          elim (Option-cases (find_coefficient s.id img.coefficients)) [
            | inl missing ↦
                rw
                  (
                    each_markup-missing img.coefficients s ss rest missing,
                    write_each-missing img s ss missing,
                  )
                  (print-each_markup img ss rest)
            | inr (c, found) ↦
                rw
                  (
                    each_markup-found img.coefficients s ss rest found,
                    write_each-found img s ss found,
                  )
                  (print-coefficient_markup s.id c (each_markup img.coefficients ss rest)
                    ∙ ap (λ t. write_coefficient f64 cr true s.id c ++ t)
                        (print-each_markup img ss rest)
                    ∙ sym (append_assoc (write_coefficient f64 cr true s.id c) _ (print rest)))
          ]

      pub print-block_markup :
          (img : ImageV1 f32 f64 cr) (rest : List Markup)
          → print (block_markup img.coefficients img.base.surfaces rest)
            ≡ write_coefficients f32 f64 cr true img ++ print rest
      unfolding print print_attrs block_markup write_coefficients
      print-block_markup img rest =
          simp (append_assoc, print-each_markup img img.base.surfaces) refl
