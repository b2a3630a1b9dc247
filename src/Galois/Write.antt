-- ===== src/Galois/Write.antt =====
-- simulboot-common/src/galois.rs: the XML of a v1 image. A `String` that is pushed to is the
-- concatenation of the pieces, in order.
use simulboot.Base.{Bool, true, false, none, some, List, [], ◌∷◌, ◌++◌, Bytes, codes}
use simulboot.Float.{Float}
use simulboot.Wire.{SurfaceId}
use simulboot.Session.{SurfaceEntry, Crypto, surface_id_to_str}
use simulboot.Session.Write.{nl, ind, write_doc_with_id}
use simulboot.Coefficients.{
  Interval, Coefficient, bound_to_str, confidentiality_to_str, integrity_to_str, linearity_to_str,
}
use simulboot.Galois.{ImageV1, coefficient_for, session_id}

abbrev pub coefficients_namespace : Bytes
coefficients_namespace = codes "https://simulboot.dev/session/v1/coefficients"

abbrev pub coeff_prefix : Bytes
coeff_prefix = codes "c"

module _ (f64 : Float) where
  unfoldable pub write_delay_paths : Bool → List (Interval f64.Carrier) → Bytes
  write_delay_paths pretty [] = []
  write_delay_paths pretty (iv ∷ rest) =
      ind pretty 4
      ++ (codes "<"
          ++ (coeff_prefix
              ++ (codes ":delay-path hi=\""
                  ++ (bound_to_str f64 iv.hi
                      ++ (codes "\" lo=\""
                          ++ (bound_to_str f64 iv.lo
                              ++ (codes "\"/>"
                                  ++ (nl pretty ++ write_delay_paths pretty rest))))))))

  -- One `<c:surface-coefficient>`.
  unfoldable pub write_coefficient : Crypto → Bool → SurfaceId → Coefficient f64.Carrier → Bytes
  write_coefficient cr pretty id coeff =
      ind pretty 2
      ++ (codes "<"
          ++ (coeff_prefix
              ++ (codes ":surface-coefficient surface-ref=\""
                  ++ (surface_id_to_str cr id
                      ++ (codes "\">"
                          ++ (nl pretty
                              ++ (ind pretty 3
                                  ++ (codes "<"
                                      ++ (coeff_prefix
                                          ++ (codes ":timing>"
                                              ++ (nl pretty
                                                  ++ (write_delay_paths pretty coeff.timing
                                                      ++ (ind pretty 3
                                                          ++ (codes "</"
                                                            ++ (coeff_prefix
                                                            ++ (codes ":timing>"
                                                            ++ (nl pretty
                                                            ++ (ind pretty 3
                                                            ++ (codes "<"
                                                            ++ (coeff_prefix
                                                            ++ (codes ":security confidentiality=\""
                                                            ++ (confidentiality_to_str
                                                            coeff.confidentiality
                                                            ++ (codes "\" integrity=\""
                                                            ++ (integrity_to_str coeff.integrity
                                                            ++ (codes "\"/>"
                                                            ++ (nl pretty
                                                            ++ (ind pretty 3
                                                            ++ (codes "<"
                                                            ++ (coeff_prefix
                                                            ++ (codes ":linearity count=\""
                                                            ++ (linearity_to_str coeff.linearity
                                                            ++ (codes "\"/>"
                                                            ++ (nl pretty
                                                            ++ (ind pretty 2
                                                            ++ (codes "</"
                                                            ++ (coeff_prefix
                                                            ++ (codes ":surface-coefficient>"
                                                            ++ nl
                                                            pretty)))))))))))))))))))))))))))))))))))))

module _ (f32 f64 : Float) (cr : Crypto) where
  -- The loop over `base.surfaces`.
  unfoldable pub write_each : Bool → ImageV1 f32 f64 cr → List SurfaceEntry → Bytes
  write_each pretty self [] = []
  write_each pretty self (surf ∷ rest) = elim (coefficient_for f32 f64 cr self surf.id) [
    | none ↦ write_each pretty self rest
    | some coeff ↦ write_coefficient f64 cr pretty surf.id coeff ++ write_each pretty self rest
  ]

  unfoldable pub write_coefficients : Bool → ImageV1 f32 f64 cr → Bytes
  write_coefficients pretty self =
      ind pretty 1
      ++ (codes "<"
          ++ (coeff_prefix
              ++ (codes ":coefficients xmlns:"
                  ++ (coeff_prefix
                      ++ (codes "=\""
                          ++ (coefficients_namespace
                              ++ (codes "\">"
                                  ++ (nl pretty
                                      ++ (write_each pretty self self.base.surfaces
                                          ++ (ind pretty 1
                                              ++ (codes "</"
                                                  ++ (coeff_prefix
                                                      ++ (codes ":coefficients>"
                                                          ++ nl pretty)))))))))))))

  unfoldable pub to_xml_v1 : ImageV1 f32 f64 cr → Bytes
  to_xml_v1 self =
      codes "<?xml version=\"1.0\" encoding=\"UTF-8\"?>\n"
      ++ write_doc_with_id f32 cr true (some (session_id f32 f64 cr self))
          (some (write_coefficients true self)) self.base

  unfoldable pub canonical_bytes_v1 : ImageV1 f32 f64 cr → Bytes
  canonical_bytes_v1 self =
      write_doc_with_id f32 cr false none (some (write_coefficients false self)) self.base
