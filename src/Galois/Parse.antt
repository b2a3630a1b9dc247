-- ===== src/Galois/Parse.antt =====
-- simulboot-common/src/galois.rs: the reader of the coefficient block, on the events of the document.
use simulboot.Base.{
  Bool, true, false, not, Option, none, some, List, [], ◌∷◌, ◌++◌, if◌then◌else◌, Bytes, codes,
  bytes_eq, Result, ok, err, ◌>>=◌, ok_or,
}
use simulboot.Float.{Float}
use simulboot.Wire.{SurfaceId}
use simulboot.Session.{SessionError, malformed, unknown_enum, Crypto, parse_surface_id}
use simulboot.Session.Parse.{
  Tag, Event, start, empty, end, text, other, xml_err, local_name, attr_str,
}
use simulboot.Session.Parse.Document.{from_xml}
use simulboot.Coefficients.{
  Interval, Confidentiality, Integrity, Linearity, bound_parse, confidentiality_parse,
  integrity_parse, linearity_parse,
}
use simulboot.Galois.{SurfaceCoefficient, ImageV1, validate}

pub record CoeffBuilder (D : Type 0) : Type 0 where
  pub surface_ref : SurfaceId
  pub timing : List (Interval D)
  pub confidentiality : Option Confidentiality
  pub integrity : Option Integrity
  pub linearity : Option Linearity

-- The variables of `parse_coefficients`.
pub record BlockReading (D : Type 0) : Type 0 where
  pub out : List (SurfaceCoefficient D)
  pub in_coeffs : Bool
  pub cur : Option (CoeffBuilder D)

-- The same text as `attr_str` of session.rs, as is `local_name`.
unfoldable pub attr : Tag → Bytes → Result SessionError Bytes
attr tag key = attr_str tag key

unfoldable pub outside_surface : Bytes → SessionError
outside_surface tag = malformed (codes "<" ++ (tag ++ codes "> outside <surface-coefficient>"))

unfoldable pub miss : Bytes → SessionError
miss f = malformed (codes "surface-coefficient missing <" ++ (f ++ codes ">"))

module _ {D : Type 0} where
  unfoldable pub new_builder : SurfaceId → CoeffBuilder D
  new_builder surface_ref = record {
    surface_ref = surface_ref;
    timing = [];
    confidentiality = none;
    integrity = none;
    linearity = none;
  }

  unfoldable pub build_coefficient : CoeffBuilder D → Result SessionError (SurfaceCoefficient D)
  build_coefficient self = elim self.timing [
    | [] ↦ err (miss (codes "timing/delay-path"))
    | iv ∷ ivs ↦ ok_or self.confidentiality (miss (codes "security")) >>= λ confidentiality.
        ok_or self.integrity (miss (codes "security")) >>= λ integrity.
        ok_or self.linearity (miss (codes "linearity")) >>= λ linearity. ok (record {
          surface_ref = self.surface_ref;
          coefficient = record {
            timing = self.timing;
            confidentiality = confidentiality;
            integrity = integrity;
            linearity = linearity;
          };
        })
  ]

  -- `</surface-coefficient>`
  unfoldable pub close_coefficient :
      Option (CoeffBuilder D) → BlockReading D → Result SessionError (BlockReading D)
  close_coefficient none st = ok st
  close_coefficient (some b) st =
      build_coefficient b >>= λ c. ok (record st { cur = none; out = st.out ++ c ∷ [] })

  unfoldable pub close_element : Bytes → BlockReading D → Result SessionError (BlockReading D)
  close_element name st =
      if bytes_eq name (codes "coefficients")
      then ok (record st { in_coeffs = false })
      else if bytes_eq name (codes "surface-coefficient")
      then close_coefficient st.cur st
      else ok st

-- `attr(..).unwrap_or_default()`
unfoldable pub attr_or_default : Tag → Bytes → Bytes
attr_or_default tag key = elim (attr tag key) [ ok v ↦ v | err e ↦ [] ]

unfoldable pub read_security :
    {D : Type 0} → Tag → CoeffBuilder D → Result SessionError (CoeffBuilder D)
read_security tag b = attr tag (codes "confidentiality") >>= λ c.
    ok_or (confidentiality_parse c)
      (unknown_enum (codes "confidentiality") (attr_or_default tag (codes "confidentiality")))
    >>= λ confidentiality. attr tag (codes "integrity") >>= λ i.
        ok_or (integrity_parse i)
          (unknown_enum (codes "integrity") (attr_or_default tag (codes "integrity")))
        >>= λ integrity.
            ok (record b { confidentiality = some confidentiality; integrity = some integrity })

-- `quoted` is the print of a text in a message.
unfoldable pub read_linearity :
    {D : Type 0} → (Bytes → Bytes) → Tag → CoeffBuilder D → Result SessionError (CoeffBuilder D)
read_linearity quoted tag b = attr tag (codes "count") >>= λ count.
    ok_or (linearity_parse count)
      (malformed (codes "bad linearity/@count " ++ quoted (attr_or_default tag (codes "count"))))
    >>= λ linearity. ok (record b { linearity = some linearity })

module _ (f64 : Float) (cr : Crypto) (quoted : Bytes → Bytes) where
  open f64 use {Carrier}

  unfoldable pub read_delay_path :
      Tag → CoeffBuilder Carrier → Result SessionError (CoeffBuilder Carrier)
  read_delay_path tag b = attr tag (codes "lo") >>= λ l.
      ok_or (bound_parse f64 l) (malformed (codes "bad delay-path/@lo")) >>= λ lo.
      attr tag (codes "hi") >>= λ h.
      ok_or (bound_parse f64 h) (malformed (codes "bad delay-path/@hi")) >>= λ hi.
      ok (record b { timing = b.timing ++ record { lo = lo; hi = hi } ∷ [] })

  -- `cur.as_mut().ok_or_else(|| outside(tag))`, and what becomes of the builder
  unfoldable pub within :
      Bytes
      → (CoeffBuilder Carrier → Result SessionError (CoeffBuilder Carrier))
      → BlockReading Carrier
      → Result SessionError (BlockReading Carrier)
  within tag change st = ok_or st.cur (outside_surface tag) >>= λ b.
      change b >>= λ b'. ok (record st { cur = some b' })

  -- A start tag or an empty one, by its local name.
  unfoldable pub open_element :
      Bytes → Tag → BlockReading Carrier → Result SessionError (BlockReading Carrier)
  open_element name tag st =
      if bytes_eq name (codes "coefficients")
      then ok (record st { in_coeffs = true })
      else if not st.in_coeffs
      then ok st
      else if bytes_eq name (codes "surface-coefficient")
      then (attr tag (codes "surface-ref") >>= λ r.
          parse_surface_id cr r >>= λ id. ok (record st { cur = some (new_builder id) }))
      else if bytes_eq name (codes "delay-path")
      then within (codes "delay-path") (read_delay_path tag) st
      else if bytes_eq name (codes "security")
      then within (codes "security") (read_security tag) st
      else if bytes_eq name (codes "linearity")
      then within (codes "linearity") (read_linearity quoted tag) st
      else ok st

  unfoldable pub on_block_event :
      Event → BlockReading Carrier → Result SessionError (BlockReading Carrier)
  on_block_event (start tag) st = open_element (local_name tag.name) tag st
  on_block_event (empty tag) st = open_element (local_name tag.name) tag st
  on_block_event (end name) st = close_element (local_name name) st
  on_block_event (text t) st = ok st
  on_block_event other st = ok st

  unfoldable pub walk_block :
      List (Result Bytes Event) → BlockReading Carrier → Result SessionError (BlockReading Carrier)
  walk_block [] st = ok st
  walk_block (e ∷ rest) st =
      xml_err e >>= λ event. on_block_event event st >>= λ st'. walk_block rest st'

  abbrev pub block_start : BlockReading Carrier
  block_start = record { out = []; in_coeffs = false; cur = none }

  unfoldable pub parse_coefficients :
      List (Result Bytes Event) → Result SessionError (List (SurfaceCoefficient Carrier))
  parse_coefficients events = walk_block events block_start >>= λ st. ok st.out

  module _ (f32 : Float) where
    -- `SessionImageV1::from_xml`, with quick-xml's reader
    unfoldable pub from_xml_v1 :
        (Bytes → List (Result Bytes Event)) → Bytes → Result SessionError (ImageV1 f32 f64 cr)
    from_xml_v1 read_events doc = from_xml f32 cr quoted read_events doc >>= λ base.
        parse_coefficients (read_events doc) >>= λ coefficients.
        validate f32 f64 cr (record { base = base; coefficients = coefficients }) >>= λ valid.
        ok (record { base = base; coefficients = coefficients })
