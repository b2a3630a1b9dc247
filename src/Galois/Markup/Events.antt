-- ===== src/Galois/Markup/Events.antt =====
-- simulboot-common/src/galois.rs: the events of the markup that `write_coefficients` writes.
use simulboot.Base.{
  ◌≡◌, refl, ap, ◌∙◌, inl, inr, List, [], ◌∷◌, arith, Option-cases, Bytes, Lacks, All,
}
use simulboot.Float.{Float, Printable}
use simulboot.Wire.{SurfaceId}
use simulboot.Base.Decimal.{to_string-IsDigit}
use simulboot.Session.{SurfaceEntry, Crypto, HexLaws, IsHexDigit, surface_id_to_str}
use simulboot.Session.Escape.{Unescape, UnescapeLaws}
use simulboot.Session.Write.Inj.{digits-Lacks}
use simulboot.Session.Markup.{Markup, attr_events, events_of, unescape-plain}
use simulboot.Coefficients.{
  Bound, finite, neg_inf, pos_inf, fmt_f64, Interval, Coefficient, Confidentiality, secret,
  restricted, public, Integrity, trusted, endorsed, untrusted, Linearity, omega_uses, finite_uses,
  bound_to_str, confidentiality_to_str, integrity_to_str, linearity_to_str,
}
use simulboot.Galois.{SurfaceCoefficient, find_coefficient}
use simulboot.Galois.Markup.{
  paths_markup, coefficient_markup, each_markup, each_markup-missing, each_markup-found,
  block_markup,
}
use simulboot.Galois.Write.{coefficients_namespace}
use simulboot.Galois.Block.{
  paths_events, coefficient_events, each_events, each_missing, each_found, block_events,
}

module _ (f64 : Float) where
  module _ (unescape : Unescape) (plain : UnescapeLaws unescape) (printable : Printable f64) where
    bound_to_str-Lacks : (b : Bound f64.Carrier) → Lacks b'&' (bound_to_str f64 b)
    unfolding bound_to_str fmt_f64
    bound_to_str-Lacks neg_inf = omega arith
    bound_to_str-Lacks pos_inf = omega arith
    bound_to_str-Lacks (finite v) = ground (arith, printable.display-plain v)

    linearity_to_str-Lacks : (l : Linearity) → Lacks b'&' (linearity_to_str l)
    unfolding linearity_to_str
    linearity_to_str-Lacks omega_uses = omega arith
    linearity_to_str-Lacks (finite_uses n) =
        digits-Lacks b'&' _ (inr (omega arith)) (to_string-IsDigit n)

    events-paths_markup :
        (ivs : List (Interval f64.Carrier)) (rest : List Markup)
        → events_of unescape (paths_markup f64 ivs rest)
          ≡ paths_events f64 ivs (events_of unescape rest)
    unfolding events_of attr_events paths_markup
    events-paths_markup [] rest = refl
    events-paths_markup (iv ∷ ivs) rest =
        rw (unescape-plain unescape _ plain (bound_to_str-Lacks iv.hi)) (
          rw (unescape-plain unescape _ plain (bound_to_str-Lacks iv.lo))
            (rw (events-paths_markup ivs rest) refl))

    module _ (cr : Crypto) (laws : HexLaws cr) where
      hex-Lacks : (s : Bytes) → All IsHexDigit s → Lacks b'&' s
      hex-Lacks [] h = tt
      hex-Lacks (c ∷ s) (h, hs) = (omega arith, hex-Lacks s hs)

      surface_id_to_str-Lacks : (id : SurfaceId) → Lacks b'&' (surface_id_to_str cr id)
      unfolding surface_id_to_str
      surface_id_to_str-Lacks id =
          let digits = hex-Lacks (cr.encode id) (laws.encode-IsHexDigit id) in
          ground (arith, digits)

      confidentiality_to_str-Lacks : (c : Confidentiality) → Lacks b'&' (confidentiality_to_str c)
      unfolding confidentiality_to_str
      confidentiality_to_str-Lacks secret = omega arith
      confidentiality_to_str-Lacks restricted = omega arith
      confidentiality_to_str-Lacks public = omega arith

      integrity_to_str-Lacks : (i : Integrity) → Lacks b'&' (integrity_to_str i)
      unfolding integrity_to_str
      integrity_to_str-Lacks trusted = omega arith
      integrity_to_str-Lacks endorsed = omega arith
      integrity_to_str-Lacks untrusted = omega arith

      events-coefficient_markup :
          (id : SurfaceId) (c : Coefficient f64.Carrier) (rest : List Markup)
          → events_of unescape (coefficient_markup f64 cr id c rest)
            ≡ coefficient_events f64 cr id c (events_of unescape rest)
      unfolding events_of attr_events coefficient_markup
      events-coefficient_markup id c rest =
          simp
            (
              events-paths_markup,
              unescape-plain unescape _ plain (surface_id_to_str-Lacks id),
              unescape-plain unescape _ plain (linearity_to_str-Lacks c.linearity),
              unescape-plain unescape _ plain (confidentiality_to_str-Lacks c.confidentiality),
              unescape-plain unescape _ plain (integrity_to_str-Lacks c.integrity),
            )
            refl

      events-each_markup :
          (cs : List (SurfaceCoefficient f64.Carrier)) (ss : List SurfaceEntry) (rest : List Markup)
          → events_of unescape (each_markup f64 cr cs ss rest)
            ≡ each_events f64 cr cs ss (events_of unescape rest)
      events-each_markup cs [] rest = unfold each_markup each_events in refl
      events-each_markup cs (s ∷ ss) rest = elim (Option-cases (find_coefficient s.id cs)) [
        | inl missing ↦
            rw
              (
                each_markup-missing f64 cr cs s ss rest missing,
                each_missing f64 cr cs s ss (events_of unescape rest) missing,
              )
              (events-each_markup cs ss rest)
        | inr (c, found) ↦
            rw
              (
                each_markup-found f64 cr cs s ss rest found,
                each_found f64 cr cs s ss (events_of unescape rest) found,
              )
              (events-coefficient_markup s.id c (each_markup f64 cr cs ss rest)
                ∙ ap (coefficient_events f64 cr s.id c) (events-each_markup cs ss rest))
      ]

      pub events-block_markup :
          (cs : List (SurfaceCoefficient f64.Carrier)) (ss : List SurfaceEntry) (rest : List Markup)
          → events_of unescape (block_markup f64 cr cs ss rest)
            ≡ block_events f64 cr cs ss (events_of unescape rest)
      unfolding events_of attr_events block_markup
      events-block_markup cs ss rest =
          simp
            (events-each_markup, unescape-plain unescape coefficients_namespace plain (omega arith))
            refl
