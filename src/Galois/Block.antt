-- ===== src/Galois/Block.antt =====
-- simulboot-common/src/galois.rs: the events of the coefficient block that `to_xml` writes, and that
-- the reader of v0 images passes over them.
use simulboot.Base.{
  ◌≡◌, refl, ◌∙◌, inl, inr, none, some, List, [], ◌∷◌, arith, Option-cases, Bytes, codes, bytes_eq,
  Result, ok,
}
use simulboot.Float.{Float}
use simulboot.Wire.{SurfaceId}
use simulboot.Session.{SurfaceEntry, Layout, Crypto, surface_id_to_str}
use simulboot.Session.Parse.{Event, start, empty, end, xml_err, local_name, SessionAttrs}
use simulboot.Session.Parse.Document.{open_named, on_start, on_end, on_event, is_text_element, walk}
use simulboot.Session.Parse.Laws.{attr_of, tag_of, outside}
use simulboot.Coefficients.{
  Interval, Coefficient, bound_to_str, confidentiality_to_str, integrity_to_str, linearity_to_str,
}
use simulboot.Galois.{SurfaceCoefficient, find_coefficient}
use simulboot.Galois.Write.{coefficients_namespace}

abbrev pub Events : Type 0
Events = List (Result Bytes Event)

module _ (f64 : Float) where
  abbrev pub paths_events : List (Interval f64.Carrier) → Events → Events
  paths_events [] rest = rest
  paths_events (iv ∷ ivs) rest =
      ok (
        empty (
          tag_of (codes "c:delay-path") (
            attr_of (codes "hi") (bound_to_str f64 iv.hi)
            ∷ attr_of (codes "lo") (bound_to_str f64 iv.lo)
            ∷ [])))
      ∷ paths_events ivs rest

  abbrev pub labels_events : Coefficient f64.Carrier → Events → Events
  labels_events c rest =
      ok (
        empty (
          tag_of (codes "c:security") (
            attr_of (codes "confidentiality") (confidentiality_to_str c.confidentiality)
            ∷ attr_of (codes "integrity") (integrity_to_str c.integrity)
            ∷ [])))
      ∷ ok (
          empty (
            tag_of (codes "c:linearity")
              (attr_of (codes "count") (linearity_to_str c.linearity) ∷ [])))
      ∷ ok (end (codes "c:surface-coefficient"))
      ∷ rest

  abbrev pub coefficient_events : Crypto → SurfaceId → Coefficient f64.Carrier → Events → Events
  coefficient_events cr id c rest =
      ok (
        start (
          tag_of (codes "c:surface-coefficient")
            (attr_of (codes "surface-ref") (surface_id_to_str cr id) ∷ [])))
      ∷ ok (start (tag_of (codes "c:timing") []))
      ∷ paths_events c.timing (ok (end (codes "c:timing")) ∷ labels_events c rest)

  module _ (cr : Crypto) where
    unfoldable pub each_events :
        List (SurfaceCoefficient f64.Carrier) → List SurfaceEntry → Events → Events
    each_events cs [] rest = rest
    each_events cs (s ∷ ss) rest = elim (find_coefficient s.id cs) [
      | none ↦ each_events cs ss rest
      | some c ↦ coefficient_events cr s.id c (each_events cs ss rest)
    ]

    pub each_missing :
        (cs : List (SurfaceCoefficient f64.Carrier)) (s : SurfaceEntry) (ss : List SurfaceEntry)
        (rest : Events)
        → find_coefficient s.id cs ≡ none
        → each_events cs (s ∷ ss) rest ≡ each_events cs ss rest
    unfolding each_events
    each_missing cs s ss rest missing = ground arith

    pub each_found :
        (cs : List (SurfaceCoefficient f64.Carrier)) (s : SurfaceEntry) (ss : List SurfaceEntry)
        (rest : Events) {c : Coefficient f64.Carrier}
        → find_coefficient s.id cs ≡ some c
        → each_events cs (s ∷ ss) rest ≡ coefficient_events cr s.id c (each_events cs ss rest)
    unfolding each_events
    each_found cs s ss rest found = ground arith

    abbrev pub block_events :
        List (SurfaceCoefficient f64.Carrier) → List SurfaceEntry → Events → Events
    block_events cs ss rest =
        ok (
          start (
            tag_of (codes "c:coefficients")
              (attr_of (codes "xmlns:c") coefficients_namespace ∷ [])))
        ∷ each_events cs ss (ok (end (codes "c:coefficients")) ∷ rest)

    module _ (f32 : Float) (quoted : Bytes → Bytes) (attrs : SessionAttrs)
        (read : List SurfaceEntry) (layout : Layout f32.Carrier) where
      paths_skipped :
          (ivs : List (Interval f64.Carrier)) (rest : Events)
          → walk f32 cr quoted (paths_events ivs rest) (outside cr f32 quoted attrs read layout)
            ≡ walk f32 cr quoted rest (outside cr f32 quoted attrs read layout)
      unfolding walk on_event on_start open_named local_name bytes_eq xml_err
      paths_skipped [] rest = refl
      paths_skipped (iv ∷ ivs) rest = paths_skipped ivs rest

      labels_skipped :
          (c : Coefficient f64.Carrier) (rest : Events)
          → walk f32 cr quoted
              (ok (end (codes "c:timing")) ∷ labels_events c rest)
              (outside cr f32 quoted attrs read layout)
            ≡ walk f32 cr quoted rest (outside cr f32 quoted attrs read layout)
      unfolding walk on_event on_start on_end open_named local_name bytes_eq xml_err is_text_element
      labels_skipped c rest = refl

      tags_skipped :
          (id : SurfaceId) (rest : Events)
          → walk f32 cr quoted
              (ok (
                  start (
                    tag_of
                      (codes "c:surface-coefficient")
                      (attr_of (codes "surface-ref") (surface_id_to_str cr id) ∷ [])))
                ∷ ok (start (tag_of (codes "c:timing") []))
                ∷ rest)
              (outside cr f32 quoted attrs read layout)
            ≡ walk f32 cr quoted rest (outside cr f32 quoted attrs read layout)
      unfolding walk on_event on_start open_named local_name bytes_eq xml_err
      tags_skipped id rest = refl

      coefficient_skipped :
          (id : SurfaceId) (c : Coefficient f64.Carrier) (rest : Events)
          → walk f32 cr quoted
              (coefficient_events cr id c rest)
              (outside cr f32 quoted attrs read layout)
            ≡ walk f32 cr quoted rest (outside cr f32 quoted attrs read layout)
      coefficient_skipped id c rest =
          tags_skipped id _ ∙ paths_skipped c.timing _ ∙ labels_skipped c rest

      each_skipped :
          (cs : List (SurfaceCoefficient f64.Carrier)) (ss : List SurfaceEntry) (rest : Events)
          → walk f32 cr quoted (each_events cs ss rest) (outside cr f32 quoted attrs read layout)
            ≡ walk f32 cr quoted rest (outside cr f32 quoted attrs read layout)
      unfolding each_events
      each_skipped cs [] rest = refl
      each_skipped cs (s ∷ ss) rest = elim (Option-cases (find_coefficient s.id cs)) [
        | inl missing ↦ rw (each_missing cs s ss rest missing) (each_skipped cs ss rest)
        | inr (c, found) ↦
            rw (each_found cs s ss rest found)
              (coefficient_skipped s.id c _ ∙ each_skipped cs ss rest)
      ]

      block_opens :
          (rest : Events)
          → walk f32 cr quoted
              (ok (
                  start (
                    tag_of
                      (codes "c:coefficients")
                      (attr_of (codes "xmlns:c") coefficients_namespace ∷ [])))
                ∷ rest)
              (outside cr f32 quoted attrs read layout)
            ≡ walk f32 cr quoted rest (outside cr f32 quoted attrs read layout)
      unfolding walk on_event on_start open_named local_name bytes_eq xml_err
      block_opens rest = refl

      block_ends :
          (rest : Events)
          → walk f32 cr quoted
              (ok (end (codes "c:coefficients")) ∷ rest)
              (outside cr f32 quoted attrs read layout)
            ≡ walk f32 cr quoted rest (outside cr f32 quoted attrs read layout)
      unfolding walk on_event on_end local_name bytes_eq xml_err is_text_element
      block_ends rest = refl

      pub block_skipped :
          (cs : List (SurfaceCoefficient f64.Carrier)) (ss : List SurfaceEntry) (rest : Events)
          → walk f32 cr quoted (block_events cs ss rest) (outside cr f32 quoted attrs read layout)
            ≡ walk f32 cr quoted rest (outside cr f32 quoted attrs read layout)
      block_skipped cs ss rest = block_opens _ ∙ each_skipped cs ss _ ∙ block_ends rest
