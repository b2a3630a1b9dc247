-- ===== src/Session/Markup/RoundTrip.antt =====
-- simulboot-common/src/session.rs: `from_xml` reads back what `to_xml` writes.
use simulboot.Base.{◌≤◌, ◌≡◌, refl, ◌∙◌, false, none, List, Bytes, All, Result, ok}
use simulboot.Float.{Float, Printable}
use simulboot.Base.Decimal.{u32_max}
use simulboot.Session.{SessionImage, Crypto, HexLaws}
use simulboot.Session.Escape.{Unescape, UnescapeLaws}
use simulboot.Session.Write.{to_xml, declared_or_computed}
use simulboot.Session.Parse.{Event}
use simulboot.Session.Parse.Document.{from_xml}
use simulboot.Session.Parse.Laws.{Fits}
use simulboot.Session.Parse.RoundTrip.{FocusFits, reread, from_xml-document_events}
use simulboot.Session.Markup.{Markup, print, events_of, Reads}
use simulboot.Session.Markup.Image.{document_markup, print-document_markup}
use simulboot.Session.Markup.Events.{events-document_markup}

module _ (f : Float) (cr : Crypto) where
  -- The markup of the document of an image.
  abbrev pub image_markup : SessionImage f.Carrier → List Markup
  image_markup img = document_markup cr f (declared_or_computed f cr img.id img) img (λ rest. rest)

  pub to_xml-print : (img : SessionImage f.Carrier) → print (image_markup img) ≡ to_xml f cr img
  unfolding to_xml
  to_xml-print img =
      print-document_markup cr f (declared_or_computed f cr img.id img) img none (λ rest. rest)
        (λ rest. refl)

  module _ (quoted : Bytes → Bytes) (laws : HexLaws cr) (unescape : Unescape)
      (plain : UnescapeLaws unescape) where
    -- `from_xml` reads the document that `to_xml` writes for an image as the same image: with the id
    -- that it declares or has as its hash, its surfaces stably sorted by their order, and the scroll
    -- position as printed (0.0 for -0.0). Surface ids have 32 bytes, the numbers fit a `u32`, the
    -- scroll position is a number. The XML reader delivers, for the markup of the document as it is
    -- spelled, the events of that markup (no text with white space at its edges, which the reader
    -- trims), it unescapes the predefined entities, and floats and hex print as they should
    -- (`Reads`, `UnescapeLaws`, `Printable`, `HexLaws`).
    pub from_xml-to_xml :
        (read_events : Bytes → List (Result Bytes Event)) (img : SessionImage f.Carrier)
        → Printable f
        → All Fits img.surfaces
        → FocusFits f cr quoted laws img.layout.focus
        → img.schema_version ≤ u32_max
        → f.is_nan img.layout.scroll_pos ≡ false
        → Reads unescape read_events (image_markup img)
        → from_xml f cr quoted read_events (to_xml f cr img) ≡ ok (reread f cr quoted laws img)
    unfolding events_of
    from_xml-to_xml read_events img printable fits focus_fits small number reads =
        from_xml-document_events f cr quoted laws read_events (to_xml f cr img) img printable fits
          focus_fits small number
          (rw (← to_xml-print img) (
            reads
            ∙ events-document_markup unescape plain cr f quoted laws printable img (λ rest. rest)))
