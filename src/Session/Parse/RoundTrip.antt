-- ===== src/Session/Parse/RoundTrip.antt =====
-- simulboot-common/src/session.rs: `from_xml` on the events of the document of an image.
use simulboot.Base.{
  ◌≤◌, ◌≡◌, refl, ap, ◌∙◌, inl, inr, false, Option, none, some, List, [], ◌∷◌, if◌then◌else◌,
  Bool-cases, Bytes, codes, length, All, bytes_eq, Result, ok,
}
use simulboot.Float.{Float, Printable}
use simulboot.Base.Decimal.{to_string, u32_max, parse_uint-to_string}
use simulboot.Session.{
  SurfaceEntry, Layout, SessionImage, Crypto, HexLaws, surface_id_to_str, parse_surface_id-to_str,
  session_namespace,
}
use simulboot.Session.Write.{declared_or_computed, fmt_f32}
use simulboot.Session.Parse.{
  Event, start, empty, end, other, xml_err, local_name, SessionAttrs, attr_str, attr_from,
  parse_session, parse_attrs, set_attr,
}
use simulboot.Session.Parse.Document.{
  Reading, sort_by_order, attr_f32, open_named, on_start, is_text_element, on_end, on_event, walk,
  finish, at_start, from_events, from_xml,
}
use simulboot.Session.Parse.Laws.{attr_of, tag_of, surfaces_events, outside, Fits}
use simulboot.Session.Parse.Surfaces.{surfaces_read}

module _ (f : Float) (cr : Crypto) (quoted : Bytes → Bytes) (laws : HexLaws cr) where
  -- The scroll position as it is printed: 0.0 for -0.0.
  unfoldable pub printed : f.Carrier → f.Carrier
  printed v = if f.eq v (f.of_ℕ 0) then f.of_ℕ 0 else v

  parse-fmt_f32 :
      Printable f → (v : f.Carrier) → f.is_nan v ≡ false → f.parse (fmt_f32 f v) ≡ some (printed v)
  unfolding fmt_f32 printed
  parse-fmt_f32 printable v number = elim (Bool-cases (f.eq v (f.of_ℕ 0))) [
    | inl same ↦ rw same (printable.parse_zero)
    | inr apart ↦ rw apart (printable.parse-display v number)
  ]

  -- The events of a document: the texts and values unescaped, no text event for white space between
  -- elements.
  abbrev pub focus_events : Option Bytes → List (Result Bytes Event) → List (Result Bytes Event)
  focus_events none rest = rest
  focus_events (some id) rest =
      ok (
        empty
          (tag_of (codes "focus") (attr_of (codes "surface-ref") (surface_id_to_str cr id) ∷ [])))
      ∷ rest

  -- The events of a document up to the end of its layout, with what follows.
  abbrev pub layout_onto : Layout f.Carrier → List (Result Bytes Event) → List (Result Bytes Event)
  layout_onto layout rest =
      ok (end (codes "surfaces"))
      ∷ ok (start (tag_of (codes "layout") []))
      ∷ ok (
          empty (
            tag_of (codes "strip")
              (attr_of (codes "scroll-pos") (fmt_f32 f layout.scroll_pos) ∷ [])))
      ∷ focus_events layout.focus (ok (end (codes "layout")) ∷ rest)

  abbrev pub document_onto :
      SessionImage f.Carrier → List (Result Bytes Event) → List (Result Bytes Event)
  document_onto img rest =
      ok other
      ∷ ok (
          start (
            tag_of (codes "session") (
              attr_of (codes "xmlns") session_namespace
              ∷ attr_of (codes "created") img.created
              ∷ attr_of (codes "id") (declared_or_computed f cr img.id img)
              ∷ attr_of (codes "schema-version") (to_string img.schema_version)
              ∷ [])))
      ∷ ok (start (tag_of (codes "surfaces") []))
      ∷ surfaces_events cr img.surfaces (layout_onto img.layout rest)

  abbrev pub document_events : SessionImage f.Carrier → List (Result Bytes Event)
  document_events img = document_onto img (ok (end (codes "session")) ∷ [])

  abbrev pub attrs_of : SessionImage f.Carrier → SessionAttrs
  attrs_of img = record {
    id = some (declared_or_computed f cr img.id img);
    created = some img.created;
    schema_version = some img.schema_version;
  }

  head_read :
      (img : SessionImage f.Carrier) (rest : List (Result Bytes Event))
      → img.schema_version ≤ u32_max
      → walk f cr quoted
          (ok other
            ∷ ok (
                start (
                  tag_of (codes "session") (
                    attr_of (codes "xmlns") session_namespace
                    ∷ attr_of (codes "created") img.created
                    ∷ attr_of (codes "id") (declared_or_computed f cr img.id img)
                    ∷ attr_of (codes "schema-version") (to_string img.schema_version)
                    ∷ [])))
            ∷ ok (start (tag_of (codes "surfaces") []))
            ∷ rest)
          (at_start f cr quoted)
        ≡ walk f cr quoted rest
            (outside cr f quoted (attrs_of img) [] (record { scroll_pos = f.of_ℕ 0; focus = none }))
  unfolding walk on_event on_start open_named local_name bytes_eq xml_err parse_session parse_attrs
      set_attr
  head_read img rest small = rw (parse_uint-to_string u32_max img.schema_version small) refl

  abbrev pub FocusFits : Option Bytes → Type 0
  FocusFits none = Unit
  FocusFits (some id) = length id ≡ 32

  layout_read :
      (attrs : SessionAttrs) (ss : List SurfaceEntry) (x : f.Carrier) (focus : Option Bytes)
      (rest : List (Result Bytes Event))
      → Printable f
      → f.is_nan x ≡ false
      → FocusFits focus
      → walk f cr quoted
          (layout_onto (record { scroll_pos = x; focus = focus }) rest)
          (outside cr f quoted attrs ss (record { scroll_pos = f.of_ℕ 0; focus = none }))
        ≡ walk f cr quoted rest
            (outside cr f quoted attrs ss (record { scroll_pos = printed x; focus = focus }))
  unfolding walk on_event on_start on_end open_named local_name bytes_eq xml_err attr_f32 attr_str
      attr_from is_text_element
  layout_read attrs ss x none rest printable number fits =
      rw (parse-fmt_f32 printable x number) refl
  layout_read attrs ss x (some id) rest printable number fits =
      rw (parse-fmt_f32 printable x number) (rw (parse_surface_id-to_str cr laws id fits) refl)

  -- The image that a document is read back as.
  abbrev pub reread : SessionImage f.Carrier → SessionImage f.Carrier
  reread img = record {
    id = some (declared_or_computed f cr img.id img);
    created = img.created;
    schema_version = img.schema_version;
    surfaces = sort_by_order img.surfaces;
    layout = record { scroll_pos = printed img.layout.scroll_pos; focus = img.layout.focus };
  }

  -- The state of the reader behind the layout.
  abbrev pub laid_out : SessionImage f.Carrier → Reading f.Carrier
  laid_out img =
      outside cr f quoted (attrs_of img) img.surfaces
        (record { scroll_pos = printed img.layout.scroll_pos; focus = img.layout.focus })

  document_read :
      (img : SessionImage f.Carrier) (rest : List (Result Bytes Event))
      → Printable f
      → All Fits img.surfaces
      → FocusFits img.layout.focus
      → img.schema_version ≤ u32_max
      → f.is_nan img.layout.scroll_pos ≡ false
      → walk f cr quoted (document_onto img rest) (at_start f cr quoted)
        ≡ walk f cr quoted rest (laid_out img)
  document_read img rest printable fits focus_fits small number =
      let start_layout : Layout f.Carrier = record { scroll_pos = f.of_ℕ 0; focus = none } in
      let layout : Layout f.Carrier = img.layout in
      head_read img (surfaces_events cr img.surfaces (layout_onto layout rest)) small
      ∙ surfaces_read f cr quoted laws (attrs_of img) start_layout img.surfaces [] fits
          (layout_onto layout rest)
      ∙ layout_read (attrs_of img) img.surfaces layout.scroll_pos layout.focus rest printable number
          focus_fits

  session_closes :
      (img : SessionImage f.Carrier)
      → walk f cr quoted (ok (end (codes "session")) ∷ []) (laid_out img) ≡ ok (laid_out img)
  unfolding walk on_event on_end local_name bytes_eq xml_err is_text_element
  session_closes img = refl

  -- A document with more children, which leave the reader as it is.
  pub from_events-document_onto :
      (img : SessionImage f.Carrier) (more : List (Result Bytes Event) → List (Result Bytes Event))
      → Printable f
      → All Fits img.surfaces
      → FocusFits img.layout.focus
      → img.schema_version ≤ u32_max
      → f.is_nan img.layout.scroll_pos ≡ false
      → ((rest : List (Result Bytes Event))
          → walk f cr quoted (more rest) (laid_out img) ≡ walk f cr quoted rest (laid_out img))
      → from_events f cr quoted (document_onto img (more (ok (end (codes "session")) ∷ [])))
        ≡ ok (reread img)
  unfolding from_events finish
  from_events-document_onto img more printable fits focus_fits small number skipped =
      let last : List (Result Bytes Event) = ok (end (codes "session")) ∷ [] in
      rw
        (document_read img (more last) printable fits focus_fits small number
          ∙ skipped last
          ∙ session_closes img)
        refl

  -- `from_xml` on a text that is read off as the events of an image.
  pub from_xml-document_events :
      (read_events : Bytes → List (Result Bytes Event)) (doc : Bytes) (img : SessionImage f.Carrier)
      → Printable f
      → All Fits img.surfaces
      → FocusFits img.layout.focus
      → img.schema_version ≤ u32_max
      → f.is_nan img.layout.scroll_pos ≡ false
      → read_events doc ≡ document_events img
      → from_xml f cr quoted read_events doc ≡ ok (reread img)
  unfolding from_xml
  from_xml-document_events read_events doc img printable fits focus_fits small number reads =
      ap (from_events f cr quoted) reads
      ∙ from_events-document_onto img (λ rest. rest) printable fits focus_fits small number
          (λ rest. refl)
