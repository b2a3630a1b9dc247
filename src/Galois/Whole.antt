-- ===== src/Galois/Whole.antt =====
-- simulboot-common/src/galois.rs: `parse_coefficients` on a whole block that `to_xml` writes.
use simulboot.Base.{
  ◌≡◌, refl, ◌∙◌, inl, inr, false, none, some, List, [], ◌∷◌, ◌++◌, append-nil, append_assoc, arith,
  Option-cases, Bytes, codes, length, All, bytes_eq, ok,
}
use simulboot.Float.{Float, Ordered, HasZero, Printable}
use simulboot.Session.{SurfaceEntry, Crypto, HexLaws}
use simulboot.Session.Parse.{start, end, xml_err, local_name}
use simulboot.Session.Parse.Laws.{attr_of, tag_of}
use simulboot.Coefficients.{Coefficient}
use simulboot.Galois.{SurfaceCoefficient, find_coefficient}
use simulboot.Galois.Write.{coefficients_namespace}
use simulboot.Galois.Parse.{close_element, open_element, on_block_event, walk_block, block_start}
use simulboot.Galois.Block.{Events, each_events, each_missing, each_found, block_events}
use simulboot.Galois.Reading.{
  CoefficientFits, find_coefficient-All, between, written_for, coefficient_read,
}

module _ (f64 : Float) (cr : Crypto) (quoted : Bytes → Bytes) (laws : HexLaws cr)
    (ord : Ordered f64) (zero_ok : HasZero f64) (printable : Printable f64) where
  open f64 use {Carrier}

  -- The coefficients that are written for these surfaces, as they are read back.
  unfoldable pub written_all :
      List (SurfaceCoefficient Carrier) → List SurfaceEntry → List (SurfaceCoefficient Carrier)
  written_all cs [] = []
  written_all cs (s ∷ ss) = elim (find_coefficient s.id cs) [
    | none ↦ written_all cs ss
    | some c ↦ written_for f64 cr quoted laws ord zero_ok printable s.id c ∷ written_all cs ss
  ]

  written_all-missing :
      (cs : List (SurfaceCoefficient Carrier)) (s : SurfaceEntry) (ss : List SurfaceEntry)
      → find_coefficient s.id cs ≡ none
      → written_all cs (s ∷ ss) ≡ written_all cs ss
  unfolding written_all
  written_all-missing cs s ss missing = ground arith

  pub written_all-found :
      (cs : List (SurfaceCoefficient Carrier)) (s : SurfaceEntry) (ss : List SurfaceEntry)
      {c : Coefficient Carrier}
      → find_coefficient s.id cs ≡ some c
      → written_all cs (s ∷ ss)
        ≡ written_for f64 cr quoted laws ord zero_ok printable s.id c ∷ written_all cs ss
  unfolding written_all
  written_all-found cs s ss found = ground arith

  each_read :
      (cs : List (SurfaceCoefficient Carrier)) (ss : List SurfaceEntry)
      (out : List (SurfaceCoefficient Carrier)) (rest : Events)
      → All (λ s. length s.id ≡ 32) ss
      → All (λ sc. CoefficientFits f64 sc.coefficient) cs
      → walk_block f64 cr quoted
          (each_events f64 cr cs ss rest)
          (between f64 cr quoted laws ord zero_ok printable out)
        ≡ walk_block f64 cr quoted rest
            (between f64 cr quoted laws ord zero_ok printable (out ++ written_all cs ss))
  unfolding each_events
  each_read cs [] out rest sized fits = unfold written_all in rw (append-nil out) refl
  each_read cs (s ∷ ss) out rest sized fits = elim (Option-cases (find_coefficient s.id cs)) [
    | inl missing ↦
        rw (each_missing f64 cr cs s ss rest missing, written_all-missing cs s ss missing)
          (each_read cs ss out rest sized.1 fits)
    | inr (c, found) ↦
        (let first =
            coefficient_read f64 cr quoted laws ord zero_ok printable s.id c out
              (each_events f64 cr cs ss rest) sized.0
              (find_coefficient-All f64 s.id cs fits found) in
          let w : SurfaceCoefficient Carrier =
            written_for f64 cr quoted laws ord zero_ok printable s.id c in
          let later = each_read cs ss (out ++ w ∷ []) rest sized.1 fits in
          rw (each_found f64 cr cs s ss rest found, written_all-found cs s ss found)
            (first ∙ later ∙ rw (append_assoc out (w ∷ []) (written_all cs ss)) refl))
  ]

  block_closed :
      (out : List (SurfaceCoefficient Carrier))
      → walk_block f64 cr quoted
          (ok (end (codes "c:coefficients")) ∷ ok (end (codes "session")) ∷ [])
          (between f64 cr quoted laws ord zero_ok printable out)
        ≡ ok (record { out = out; in_coeffs = false; cur = none })
  unfolding walk_block on_block_event close_element local_name bytes_eq xml_err
  block_closed out = refl

  block_opened :
      (rest : Events)
      → walk_block f64 cr quoted
          (ok (
              start (
                tag_of
                  (codes "c:coefficients")
                  (attr_of (codes "xmlns:c") coefficients_namespace ∷ [])))
            ∷ rest)
          (block_start f64 cr quoted)
        ≡ walk_block f64 cr quoted rest (between f64 cr quoted laws ord zero_ok printable [])
  unfolding walk_block on_block_event open_element local_name bytes_eq xml_err
  block_opened rest = refl

  pub block_read :
      (cs : List (SurfaceCoefficient Carrier)) (ss : List SurfaceEntry)
      → All (λ s. length s.id ≡ 32) ss
      → All (λ sc. CoefficientFits f64 sc.coefficient) cs
      → walk_block f64 cr quoted
          (block_events f64 cr cs ss (ok (end (codes "session")) ∷ []))
          (block_start f64 cr quoted)
        ≡ ok (record { out = written_all cs ss; in_coeffs = false; cur = none })
  block_read cs ss sized fits =
      block_opened _ ∙ each_read cs ss [] _ sized fits ∙ block_closed (written_all cs ss)
