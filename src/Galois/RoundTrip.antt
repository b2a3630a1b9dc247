-- ===== src/Galois/RoundTrip.antt =====
-- simulboot-common/src/galois.rs: v1 images and their documents.
mod Examples
use simulboot.Base.{
  suc, ◌+◌, ◌≤◌, ◌≡◌, refl, sym, ap, ◌∙◌, inl, inr, true, false, none, some, List, [], ◌∷◌, map,
  arith, if◌then◌else◌, Option-cases, Bytes, codes, length, All, bytes_eq, Result, ok,
}
use simulboot.Base.Decimal.{u32_max}
use simulboot.Float.{Float, Ordered, HasZero, Printable}
use simulboot.Wire.{SurfaceId}
use simulboot.Session.{SurfaceEntry, SessionImage, SessionError, Crypto, HexLaws}
use simulboot.Session.Parse.{Event, end}
use simulboot.Session.Parse.Document.{sort_by_order, from_xml, from_events}
use simulboot.Session.Parse.Laws.{Fits}
use simulboot.Session.Parse.RoundTrip.{
  document_onto, reread, attrs_of, printed, FocusFits, from_events-document_onto,
}
use simulboot.Coefficients.{Coefficient}
use simulboot.Galois.{
  SurfaceCoefficient, SessionImageV1, ImageV1, count_refs, find_coefficient, session_id, validate,
  alpha, top_for,
}
use simulboot.Galois.Validate.{Distinct, Covered, Covered-gamma, validate_tests}
use simulboot.Galois.Write.{to_xml_v1, write_coefficients}
use simulboot.Galois.Markup.{block_markup, print-block_markup}
use simulboot.Galois.Markup.Events.{events-block_markup}
use simulboot.Session.Escape.{Unescape, UnescapeLaws}
use simulboot.Session.Write.{write_doc_with_id}
use simulboot.Session.Markup.{Markup, close_tag, print, events_of, Reads}
use simulboot.Session.Markup.Image.{document_markup, print-document_markup}
use simulboot.Session.Markup.Events.{events-document_markup}
use simulboot.Galois.Parse.{walk_block, block_start, parse_coefficients, from_xml_v1}
use simulboot.Galois.Block.{Events, block_events, block_skipped}
use simulboot.Galois.Passing.{document_passed}
use simulboot.Galois.Reading.{CoefficientFits}
use simulboot.Galois.Whole.{written_all, written_all-found, block_read}

module _ {D : Type 0} where
  not_found :
      (id : SurfaceId) (cs : List (SurfaceCoefficient D))
      → find_coefficient id cs ≡ none
      → count_refs id cs ≡ 0
  unfolding find_coefficient count_refs
  not_found id [] h = refl
  not_found id (c ∷ cs) h = ground (arith, not_found id cs)

  found_one :
      (id : SurfaceId) (cs : List (SurfaceCoefficient D))
      → count_refs id cs ≡ 1
      → (c : Coefficient D) × (find_coefficient id cs ≡ some c)
  found_one id cs h = elim (Option-cases (find_coefficient id cs)) [
    | inl missing ↦ absurd (omega (arith, not_found id cs missing))
    | inr found ↦ found
  ]

  same_counts :
      (xs ys : List (SurfaceCoefficient D)) (ss : List SurfaceEntry)
      → ((id : SurfaceId) → count_refs id xs ≡ count_refs id ys)
      → Covered ys ss
      → Covered xs ss
  same_counts xs ys [] same h = tt
  same_counts xs ys (s ∷ ss) same h = (same s.id ∙ h.0, same_counts xs ys ss same h.1)

module _ (f32 f64 : Float) (cr : Crypto) (quoted : Bytes → Bytes) (laws : HexLaws cr)
    (ord : Ordered f64) (zero_ok : HasZero f64) (printable : Printable f64) where
  abbrev pub written : ImageV1 f32 f64 cr → List (SurfaceCoefficient f64.Carrier)
  written img =
      written_all f64 cr quoted laws ord zero_ok printable img.coefficients img.base.surfaces

  -- The base with the id that is written, and the events of the document.
  abbrev pub identified : ImageV1 f32 f64 cr → SessionImage f32.Carrier
  identified img = record img.base { id = some (session_id f32 f64 cr img) }

  abbrev pub document_events_v1 : ImageV1 f32 f64 cr → Events
  document_events_v1 img =
      document_onto f32 cr quoted laws (identified img)
        (block_events f64 cr img.coefficients img.base.surfaces (ok (end (codes "session")) ∷ []))

  count_refs-written_all :
      (cs : List (SurfaceCoefficient f64.Carrier)) (ss : List SurfaceEntry)
      → Covered cs ss
      → (id : SurfaceId)
      → count_refs id (written_all f64 cr quoted laws ord zero_ok printable cs ss)
        ≡ count_refs id (map (top_for f32 f64 cr) ss)
  unfolding count_refs top_for
  count_refs-written_all cs [] h id = unfold written_all in refl
  count_refs-written_all cs (s ∷ ss) h id =
      let (c, found) = found_one s.id cs (h.0) in
      rw (written_all-found f64 cr quoted laws ord zero_ok printable cs s ss found)
        (ap (λ n. (if bytes_eq s.id id then 1 else 0) + n) (count_refs-written_all cs ss h.1 id))

  length-written_all :
      (cs : List (SurfaceCoefficient f64.Carrier)) (ss : List SurfaceEntry)
      → Covered cs ss
      → length (written_all f64 cr quoted laws ord zero_ok printable cs ss) ≡ length ss
  length-written_all cs [] h = unfold written_all in refl
  length-written_all cs (s ∷ ss) h =
      let (c, found) = found_one s.id cs (h.0) in
      rw (written_all-found f64 cr quoted laws ord zero_ok printable cs s ss found)
        (ap suc (length-written_all cs ss h.1))

  validate-written :
      (base : SessionImage f32.Carrier) (img : ImageV1 f32 f64 cr)
      → base.surfaces ≡ img.base.surfaces
      → Distinct img.base.surfaces
      → validate f32 f64 cr img ≡ ok tt
      → validate f32 f64 cr (record { base = base; coefficients = written img }) ≡ ok tt
  validate-written base img same d valid =
      let (count, covered) = (validate_tests f32 f64 cr img).0 valid in
      let each =
        same_counts (written img) (map (top_for f32 f64 cr) img.base.surfaces) img.base.surfaces
          (count_refs-written_all img.coefficients img.base.surfaces covered)
          ((Covered-gamma f32 f64 cr img.base.surfaces).1 d) in
      (validate_tests f32 f64 cr (record { base = base; coefficients = written img })).1
        (rw same (length-written_all img.coefficients img.base.surfaces covered, each))

  sized : (ss : List SurfaceEntry) → All Fits ss → All (λ s. length s.id ≡ 32) ss
  sized [] h = tt
  sized (s ∷ ss) h = ((h.0).0, sized ss h.1)

  parse_coefficients-document :
      (img : ImageV1 f32 f64 cr)
      → All Fits img.base.surfaces
      → All (λ sc. CoefficientFits f64 sc.coefficient) img.coefficients
      → parse_coefficients f64 cr quoted (document_events_v1 img) ≡ ok (written img)
  unfolding parse_coefficients
  parse_coefficients-document img fits numbers =
      rw
        (document_passed f64 cr quoted f32 laws (identified img) _
          ∙ block_read f64 cr quoted laws ord zero_ok printable img.coefficients img.base.surfaces
              (sized img.base.surfaces fits) numbers)
        refl

  -- The markup of the document of a v1 image.
  abbrev pub image_markup_v1 : ImageV1 f32 f64 cr → List Markup
  image_markup_v1 img =
      document_markup cr f32 (session_id f32 f64 cr img) (identified img)
        (block_markup f64 cr img.coefficients img.base.surfaces)

  to_xml_v1-print :
      (img : ImageV1 f32 f64 cr) → print (image_markup_v1 img) ≡ to_xml_v1 f32 f64 cr img
  unfolding to_xml_v1
  to_xml_v1-print img =
      print-document_markup cr f32 (session_id f32 f64 cr img) (identified img)
        (some (write_coefficients f32 f64 cr true img))
        (block_markup f64 cr img.coefficients img.base.surfaces) (print-block_markup f64 cr f32 img)
      ∙ unfold write_doc_with_id in refl

  module _ (unescape : Unescape) (plain : UnescapeLaws unescape) (printable32 : Printable f32)
      (read_events : Bytes → List (Result Bytes Event)) where
    document_read_v1 :
        (img : ImageV1 f32 f64 cr)
        → Reads unescape read_events (image_markup_v1 img)
        → read_events (to_xml_v1 f32 f64 cr img) ≡ document_events_v1 img
    document_read_v1 img reads =
        ap read_events (sym (to_xml_v1-print img))
        ∙ reads
        ∙ events-document_markup unescape plain cr f32 quoted laws printable32 (identified img)
            (block_markup f64 cr img.coefficients img.base.surfaces)
        ∙ ap (document_onto f32 cr quoted laws (identified img)) (
            events-block_markup f64 unescape plain printable cr laws img.coefficients
              img.base.surfaces (close_tag (codes "session") ∷ [])
            ∙ unfold events_of in refl)

    -- The reader of v0 images takes the document that `to_xml` writes for a v1 image for that of its
    -- `alpha`: it reads the base with the content id, its surfaces stably sorted by their order and its
    -- scroll position as printed, whatever coefficients are in the document. Surface ids have 32 bytes,
    -- the numbers fit a `u32`, the scroll position is a number. The XML reader delivers, for the markup
    -- of the document as it is spelled, the events of that markup (no text with white space at its
    -- edges, which the reader trims), it unescapes the predefined entities, and floats and hex print as
    -- they should.
    pub from_xml-to_xml_v1 :
        (img : ImageV1 f32 f64 cr)
        → All Fits img.base.surfaces
        → FocusFits f32 cr quoted laws img.base.layout.focus
        → img.base.schema_version ≤ u32_max
        → f32.is_nan img.base.layout.scroll_pos ≡ false
        → Reads unescape read_events (image_markup_v1 img)
        → from_xml f32 cr quoted read_events (to_xml_v1 f32 f64 cr img)
          ≡ ok (
              reread f32 cr quoted laws
                (record (alpha f32 f64 cr img) { id = some (session_id f32 f64 cr img) }))
    unfolding from_xml alpha
    from_xml-to_xml_v1 img fits focus_fits small number reads =
        ap (from_events f32 cr quoted) (document_read_v1 img reads)
        ∙ from_events-document_onto f32 cr quoted laws (identified img)
            (block_events f64 cr img.coefficients img.base.surfaces) printable32 fits focus_fits
            small number
            (λ rest. block_skipped f64 cr f32 quoted _ _ _ img.coefficients img.base.surfaces rest)

    -- A valid v1 image is read back from the document that `to_xml` writes: the base with its content
    -- id and its scroll position as printed, and for each surface its coefficient, in the order of the
    -- surfaces, with 0.0 for -0.0 among its bounds. The surfaces are sorted by their order and no two
    -- have one id; ids have 32 bytes and numbers fit their types; every coefficient has a delay path
    -- and no NaN. The XML reader delivers, for the markup of the document as it is spelled, the events
    -- of that markup (no text with white space at its edges, which the reader trims), it unescapes the
    -- predefined entities, and floats and hex print as they should.
    pub from_xml_v1-to_xml_v1 :
        (img : ImageV1 f32 f64 cr)
        → All Fits img.base.surfaces
        → FocusFits f32 cr quoted laws img.base.layout.focus
        → img.base.schema_version ≤ u32_max
        → f32.is_nan img.base.layout.scroll_pos ≡ false
        → Reads unescape read_events (image_markup_v1 img)
        → All (λ sc. CoefficientFits f64 sc.coefficient) img.coefficients
        → Distinct img.base.surfaces
        → sort_by_order img.base.surfaces ≡ img.base.surfaces
        → validate f32 f64 cr img ≡ ok tt
        → from_xml_v1 f64 cr quoted f32 read_events (to_xml_v1 f32 f64 cr img)
          ≡ ok (record {
            base = reread f32 cr quoted laws (identified img);
            coefficients = written img;
          })
    unfolding from_xml_v1 alpha
    from_xml_v1-to_xml_v1 img fits focus_fits small number reads numbers d sorted valid =
        let base = from_xml-to_xml_v1 img fits focus_fits small number reads in
        let block =
          ap (parse_coefficients f64 cr quoted) (document_read_v1 img reads)
          ∙ parse_coefficients-document img fits numbers in
        let checked =
          validate-written (reread f32 cr quoted laws (identified img)) img sorted d valid in
        rw base (rw block (rw checked refl))
