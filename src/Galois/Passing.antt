-- ===== src/Galois/Passing.antt =====
-- simulboot-common/src/galois.rs: `parse_coefficients` passes over the base of a document.
use simulboot.Base.{
  ◌≡◌, refl, ◌∙◌, false, Option, none, some, List, [], ◌∷◌, Bytes, codes, bytes_eq, ok,
}
use simulboot.Base.Decimal.{to_string}
use simulboot.Float.{Float}
use simulboot.Session.{
  SurfaceEntry, SessionImage, Crypto, surface_id_to_str, os_to_str, codec_to_str, session_namespace,
  HexLaws,
}
use simulboot.Session.Write.{declared_or_computed}
use simulboot.Session.Parse.{start, empty, end, other, xml_err, local_name}
use simulboot.Session.Parse.Laws.{attr_of, tag_of, element, surfaces_events}
use simulboot.Session.Parse.RoundTrip.{document_onto, layout_onto}
use simulboot.Galois.Parse.{open_element, close_element, on_block_event, walk_block, block_start}
use simulboot.Galois.Block.{Events}

module _ (f64 : Float) (cr : Crypto) (quoted : Bytes → Bytes) where
  -- The name is none of those that the reader acts on outside of the block.
  abbrev Unmarked : Bytes → Type 0
  Unmarked name =
      (bytes_eq (local_name name) (codes "coefficients") ≡ false)
      × (bytes_eq (local_name name) (codes "surface-coefficient") ≡ false)

  plain_end :
      (name : Bytes) (rest : Events)
      → Unmarked name
      → walk_block f64 cr quoted (ok (end name) ∷ rest) (block_start f64 cr quoted)
        ≡ walk_block f64 cr quoted rest (block_start f64 cr quoted)
  unfolding walk_block on_block_event close_element xml_err
  plain_end name rest h = rw (h.0) (rw (h.1) refl)

  plain_element :
      (name s : Bytes) (rest : Events)
      → Unmarked name
      → walk_block f64 cr quoted (element name s rest) (block_start f64 cr quoted)
        ≡ walk_block f64 cr quoted rest (block_start f64 cr quoted)
  unfolding walk_block on_block_event open_element xml_err
  plain_element name [] rest h = rw (h.0) (plain_end name rest h)
  plain_element name (c ∷ s) rest h = rw (h.0) (plain_end name rest h)

  surface_opened :
      (s : SurfaceEntry) (rest : Events)
      → walk_block f64 cr quoted
          (ok (
              start (
                tag_of (codes "surface") (
                  attr_of (codes "id") (surface_id_to_str cr s.id)
                  ∷ attr_of (codes "name") s.name
                  ∷ attr_of (codes "order") (to_string s.order)
                  ∷ [])))
            ∷ ok (start (tag_of (codes "host") []))
            ∷ rest)
          (block_start f64 cr quoted)
        ≡ walk_block f64 cr quoted rest (block_start f64 cr quoted)
  unfolding walk_block on_block_event open_element xml_err local_name bytes_eq
  surface_opened s rest = refl

  surface_closed :
      (s : SurfaceEntry) (rest : Events)
      → walk_block f64 cr quoted
          (ok (
              empty (
                tag_of (codes "dimensions") (
                  attr_of (codes "height") (to_string s.height)
                  ∷ attr_of (codes "width") (to_string s.width)
                  ∷ [])))
            ∷ ok (end (codes "surface"))
            ∷ rest)
          (block_start f64 cr quoted)
        ≡ walk_block f64 cr quoted rest (block_start f64 cr quoted)
  unfolding walk_block on_block_event open_element close_element xml_err local_name bytes_eq
  surface_closed s rest = refl

  surfaces_passed :
      (ss : List SurfaceEntry) (rest : Events)
      → walk_block f64 cr quoted (surfaces_events cr ss rest) (block_start f64 cr quoted)
        ≡ walk_block f64 cr quoted rest (block_start f64 cr quoted)
  unfolding local_name bytes_eq
  surfaces_passed [] rest = refl
  surfaces_passed (s ∷ ss) rest =
      surface_opened s _
      ∙ plain_element (codes "address") s.host.address _ (refl, refl)
      ∙ plain_element (codes "os") (os_to_str s.host.os) _ (refl, refl)
      ∙ plain_element (codes "machine") s.host.machine _ (refl, refl)
      ∙ plain_element (codes "capture") s.host.capture _ (refl, refl)
      ∙ plain_end (codes "host") _ (refl, refl)
      ∙ plain_element (codes "codec") (codec_to_str s.codec) _ (refl, refl)
      ∙ surface_closed s _
      ∙ surfaces_passed ss rest

  module _ (f32 : Float) (laws : HexLaws cr) where
    layout_passed :
        (x : f32.Carrier) (focus : Option Bytes) (rest : Events)
        → walk_block f64 cr quoted
            (layout_onto f32 cr quoted laws (record { scroll_pos = x; focus = focus }) rest)
            (block_start f64 cr quoted)
          ≡ walk_block f64 cr quoted rest (block_start f64 cr quoted)
    unfolding walk_block on_block_event open_element close_element xml_err local_name bytes_eq
    layout_passed x none rest = refl
    layout_passed x (some id) rest = refl

    head_passed :
        (img : SessionImage f32.Carrier) (rest : Events)
        → walk_block f64 cr quoted
            (ok other
              ∷ ok (
                  start (
                    tag_of (codes "session") (
                      attr_of (codes "xmlns") session_namespace
                      ∷ attr_of (codes "created") img.created
                      ∷ attr_of (codes "id") (declared_or_computed f32 cr img.id img)
                      ∷ attr_of (codes "schema-version") (to_string img.schema_version)
                      ∷ [])))
              ∷ ok (start (tag_of (codes "surfaces") []))
              ∷ rest)
            (block_start f64 cr quoted)
          ≡ walk_block f64 cr quoted rest (block_start f64 cr quoted)
    unfolding walk_block on_block_event open_element xml_err local_name bytes_eq
    head_passed img rest = refl

    pub document_passed :
        (img : SessionImage f32.Carrier) (rest : Events)
        → walk_block f64 cr quoted
            (document_onto f32 cr quoted laws img rest)
            (block_start f64 cr quoted)
          ≡ walk_block f64 cr quoted rest (block_start f64 cr quoted)
    document_passed img rest =
        head_passed img _
        ∙ surfaces_passed img.surfaces _
        ∙ layout_passed img.layout.scroll_pos img.layout.focus rest
