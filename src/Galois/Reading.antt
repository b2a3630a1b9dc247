-- ===== src/Galois/Reading.antt =====
-- simulboot-common/src/galois.rs: `parse_coefficients` reads back the block that `to_xml` writes.
use simulboot.Base.{
  ◌≡◌, refl, ◌∙◌, ◌≢◌, inl, inr, true, none, some, List, [], ◌∷◌, ◌++◌, map, append-nil,
  append_assoc, arith, Bool-cases, Bytes, codes, length, All, bytes_eq, ok,
}
use simulboot.Float.{Float, Ordered, HasZero, Printable}
use simulboot.Wire.{SurfaceId}
use simulboot.Session.{Crypto, HexLaws, surface_id_to_str, parse_surface_id-to_str}
use simulboot.Session.Parse.{start, end, xml_err, local_name, attr_str, attr_from}
use simulboot.Session.Parse.Laws.{attr_of, tag_of}
use simulboot.Coefficients.{
  Interval, Coefficient, bound_to_str, confidentiality_to_str, integrity_to_str, linearity_to_str,
}
use simulboot.Coefficients.Bounds.{BoundIsNumber}
use simulboot.Coefficients.Spelling.{
  LinearityFits, written_bound, bound_parse-written_bound, confidentiality_parse_iff,
  integrity_parse_iff, linearity_parse-to_str,
}
use simulboot.Galois.{SurfaceCoefficient, find_coefficient}
use simulboot.Galois.Parse.{
  CoeffBuilder, BlockReading, attr, build_coefficient, close_coefficient, close_element,
  read_security, read_linearity, read_delay_path, within, open_element, on_block_event, walk_block,
  new_builder,
}
use simulboot.Galois.Block.{Events, paths_events, labels_events, coefficient_events}

module _ (f64 : Float) where
  abbrev pub IntervalFits : Interval f64.Carrier → Type 0
  IntervalFits iv = BoundIsNumber f64 iv.lo × BoundIsNumber f64 iv.hi

  -- A coefficient that a document can hold: with a delay path, no NaN, and a count that is a `u64`.
  abbrev pub CoefficientFits : Coefficient f64.Carrier → Type 0
  CoefficientFits c = (c.timing ≢ []) × All IntervalFits c.timing × LinearityFits c.linearity

  pub find_coefficient-All :
      (id : SurfaceId) (cs : List (SurfaceCoefficient f64.Carrier)) {c : Coefficient f64.Carrier}
      → All (λ sc. CoefficientFits sc.coefficient) cs
      → find_coefficient id cs ≡ some c
      → CoefficientFits c
  unfolding find_coefficient
  find_coefficient-All id [] h found = cc
  find_coefficient-All id (sc ∷ cs) {c} h found = elim (Bool-cases (bytes_eq sc.surface_ref id)) [
    | inl same ↦ (let e : sc.coefficient ≡ c = ground arith in rw (← e) h.0)
    | inr differs ↦ find_coefficient-All id cs {c = c} h.1 (ground arith)
  ]

module _ (f64 : Float) (cr : Crypto) (quoted : Bytes → Bytes) (laws : HexLaws cr)
    (ord : Ordered f64) (zero_ok : HasZero f64) (printable : Printable f64) where
  open f64 use {Carrier}

  abbrev pub written_interval : Interval Carrier → Interval Carrier
  written_interval iv = record { lo = written_bound f64 iv.lo; hi = written_bound f64 iv.hi }

  -- A coefficient as it is read back: 0.0 for -0.0.
  unfoldable pub written_coefficient : Coefficient Carrier → Coefficient Carrier
  written_coefficient c = record c { timing = map written_interval c.timing }

  -- Inside of a block, with this builder.
  abbrev building : List (SurfaceCoefficient Carrier) → CoeffBuilder Carrier → BlockReading Carrier
  building out b = record { out = out; in_coeffs = true; cur = some b }

  abbrev pub between : List (SurfaceCoefficient Carrier) → BlockReading Carrier
  between out = record { out = out; in_coeffs = true; cur = none }

  path_read :
      (iv : Interval Carrier) (b : CoeffBuilder Carrier)
      → IntervalFits f64 iv
      → read_delay_path f64 cr quoted
          (tag_of (codes "c:delay-path") (
            attr_of (codes "hi") (bound_to_str f64 iv.hi)
            ∷ attr_of (codes "lo") (bound_to_str f64 iv.lo)
            ∷ []))
          b
        ≡ ok (record b { timing = b.timing ++ written_interval iv ∷ [] })
  unfolding read_delay_path attr attr_str attr_from local_name bytes_eq xml_err
  path_read iv b h =
      rw (bound_parse-written_bound f64 ord zero_ok printable iv.lo h.0)
        (rw (bound_parse-written_bound f64 ord zero_ok printable iv.hi h.1) refl)

  paths_read :
      (ivs : List (Interval Carrier)) (out : List (SurfaceCoefficient Carrier))
      (b : CoeffBuilder Carrier) (rest : Events)
      → All (IntervalFits f64) ivs
      → walk_block f64 cr quoted (paths_events f64 ivs rest) (building out b)
        ≡ walk_block f64 cr quoted rest
            (building out (record b { timing = b.timing ++ map written_interval ivs }))
  unfolding walk_block on_block_event open_element within local_name bytes_eq xml_err
  paths_read [] out b rest h = rw (append-nil b.timing) refl
  paths_read (iv ∷ ivs) out b rest h = rw (path_read iv b h.0) (
      paths_read ivs out (record b { timing = b.timing ++ written_interval iv ∷ [] }) rest h.1
      ∙ rw (append_assoc b.timing (written_interval iv ∷ []) (map written_interval ivs)) refl)

  security_read :
      (c : Coefficient Carrier) (b : CoeffBuilder Carrier)
      → read_security
          (tag_of (codes "c:security") (
            attr_of (codes "confidentiality") (confidentiality_to_str c.confidentiality)
            ∷ attr_of (codes "integrity") (integrity_to_str c.integrity)
            ∷ []))
          b
        ≡ ok (record b { confidentiality = some c.confidentiality; integrity = some c.integrity })
  unfolding read_security attr attr_str attr_from local_name bytes_eq xml_err
  security_read c b =
      rw
        ((confidentiality_parse_iff (confidentiality_to_str c.confidentiality) c.confidentiality).1
          refl)
        (rw ((integrity_parse_iff (integrity_to_str c.integrity) c.integrity).1 refl) refl)

  linearity_read :
      (c : Coefficient Carrier) (b : CoeffBuilder Carrier)
      → LinearityFits c.linearity
      → read_linearity quoted
          (tag_of
            (codes "c:linearity")
            (attr_of (codes "count") (linearity_to_str c.linearity) ∷ []))
          b
        ≡ ok (record b { linearity = some c.linearity })
  unfolding read_linearity attr attr_str attr_from local_name bytes_eq xml_err
  linearity_read c b h = rw (linearity_parse-to_str c.linearity h) refl

  -- The builder of a coefficient, with its delay paths read.
  abbrev timed : SurfaceId → List (Interval Carrier) → CoeffBuilder Carrier
  timed id timing = record {
    surface_ref = id;
    timing = timing;
    confidentiality = none;
    integrity = none;
    linearity = none;
  }

  labels_read :
      (id : SurfaceId) (c : Coefficient Carrier) (iv : Interval Carrier)
      (ivs : List (Interval Carrier)) (out : List (SurfaceCoefficient Carrier)) (rest : Events)
      → LinearityFits c.linearity
      → walk_block f64 cr quoted
          (ok (end (codes "c:timing")) ∷ labels_events f64 c rest)
          (building out (timed id (iv ∷ ivs)))
        ≡ walk_block f64 cr quoted rest (
            between (
              out
              ++ record { surface_ref = id; coefficient = record c { timing = iv ∷ ivs } } ∷ []))
  unfolding walk_block on_block_event open_element close_element close_coefficient build_coefficient
      within local_name bytes_eq xml_err
  labels_read id c iv ivs out rest h = rw (security_read c (timed id (iv ∷ ivs))) (
      rw
        (linearity_read c
          (record (timed id (iv ∷ ivs)) {
            confidentiality = some c.confidentiality;
            integrity = some c.integrity;
          })
          h)
        refl)

  coefficient_opened :
      (id : SurfaceId) (out : List (SurfaceCoefficient Carrier)) (rest : Events)
      → length id ≡ 32
      → walk_block f64 cr quoted
          (ok (
              start (
                tag_of
                  (codes "c:surface-coefficient")
                  (attr_of (codes "surface-ref") (surface_id_to_str cr id) ∷ [])))
            ∷ ok (start (tag_of (codes "c:timing") []))
            ∷ rest)
          (between out)
        ≡ walk_block f64 cr quoted rest (building out (timed id []))
  unfolding walk_block on_block_event open_element new_builder attr attr_str attr_from local_name
      bytes_eq xml_err
  coefficient_opened id out rest h = rw (parse_surface_id-to_str cr laws id h) refl

  map-cons :
      (ivs : List (Interval Carrier))
      → ivs ≢ []
      → (y : Interval Carrier) × (ys : List (Interval Carrier)) × (map written_interval ivs
          ≡ y ∷ ys)
  map-cons [] h = absurd (h refl)
  map-cons (iv ∷ ivs) h = (written_interval iv, map written_interval ivs, refl)

  abbrev pub written_for : SurfaceId → Coefficient Carrier → SurfaceCoefficient Carrier
  written_for id c = record { surface_ref = id; coefficient = written_coefficient c }

  pub coefficient_read :
      (id : SurfaceId) (c : Coefficient Carrier) (out : List (SurfaceCoefficient Carrier))
      (rest : Events)
      → length id ≡ 32
      → CoefficientFits f64 c
      → walk_block f64 cr quoted (coefficient_events f64 cr id c rest) (between out)
        ≡ walk_block f64 cr quoted rest (between (out ++ written_for id c ∷ []))
  unfolding written_coefficient
  coefficient_read id c out rest sized (timed_paths, numbers, counted) =
      let (y, ys, shape) = map-cons c.timing timed_paths in
      coefficient_opened id out _ sized
      ∙ paths_read c.timing out (timed id []) _ numbers
      ∙ rw shape (labels_read id c y ys out rest counted)
