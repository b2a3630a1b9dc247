-- ===== src/Galois/RoundTrip/Examples.antt =====
-- The document of a v1 image of one surface.
use simulboot.Base.{◌≡◌, refl, none, some, List, [], ◌∷◌, ◌++◌, arith, Bytes, codes, bytes_eq, ok}
use simulboot.Examples.Numbers.{levels, levels-Ordered, levels-Printable, low, middle}
use simulboot.Examples.Crates.{crates, crates-HexLaws}
use simulboot.Wire.{linux, h265}
use simulboot.Session.{SurfaceEntry}
use simulboot.Base.Text.{trim}
use simulboot.Base.Decimal.{to_string}
use simulboot.Examples.Entities.{scan, unescape_laws}
use simulboot.Examples.Reader.{
  read_document, read_pieces, text_event, markup_event, tag_event, read_attrs, split, cut,
}
use simulboot.Session.{surface_id_to_str, os_to_str, codec_to_str}
use simulboot.Session.Escape.{escape_attr, escape_text}
use simulboot.Session.Write.{
  fmt_f32, compute_id, canonical_bytes, write_doc_with_id, write_surfaces, write_surface,
  write_text_el, write_focus, write_id,
}
use simulboot.Session.Markup.{Markup, print, print_attrs, events_of, attr_events, Reads}
use simulboot.Session.Markup.Image.{
  document_markup, surfaces_markup, surface_markup, focus_markup, text_element, words_of,
}
use simulboot.Galois.Markup.{block_markup, each_markup, coefficient_markup, paths_markup}
use simulboot.Coefficients.{
  bound_to_str, fmt_f64, confidentiality_to_str, integrity_to_str, linearity_to_str,
}
use simulboot.Session.Parse.Document.{from_xml, sort_by_order, insert_by_order}
use simulboot.Session.Parse.RoundTrip.{reread}
use simulboot.Coefficients.{finite, pos_inf, secret, endorsed, finite_uses}
use simulboot.Galois.{ImageV1, alpha, session_id, validate, count_refs, find_coefficient}
use simulboot.Galois.Validate.{has_id}
use simulboot.Galois.Write.{to_xml_v1}
use simulboot.Galois.Parse.{from_xml_v1}
use simulboot.Galois.RoundTrip.{
  written, identified, image_markup_v1, from_xml-to_xml_v1, from_xml_v1-to_xml_v1,
}

abbrev eight : Bytes
eight = 1 ∷ 2 ∷ 3 ∷ 4 ∷ 5 ∷ 6 ∷ 7 ∷ 8 ∷ []

abbrev window : SurfaceEntry
window = record {
  id = eight ++ (eight ++ (eight ++ eight));
  name = codes "shell";
  order = 0;
  host = record { address = codes "peer:7001"; os = linux; machine = codes "desk"; capture = [] };
  codec = h265;
  width = 960;
  height = 540;
}

abbrev window_image : ImageV1 levels levels crates
window_image = record {
  base = record {
    id = none;
    created = codes "now";
    schema_version = 1;
    surfaces = window ∷ [];
    layout = record { scroll_pos = middle; focus = some window.id };
  };
  coefficients =
      record {
        surface_ref = window.id;
        coefficient = record {
          timing = record { lo = finite low; hi = pos_inf } ∷ [];
          confidentiality = secret;
          integrity = endorsed;
          linearity = finite_uses 3;
        };
      }
      ∷ [];
}

abbrev same : Bytes → Bytes
same s = s

abbrev window_markup : List Markup
window_markup =
    image_markup_v1 levels levels crates same crates-HexLaws levels-Ordered refl levels-Printable
      window_image

window_read : Reads (scan none) read_document window_markup
unfolding read_document read_pieces text_event markup_event tag_event read_attrs split cut print
    print_attrs events_of attr_events document_markup surfaces_markup surface_markup focus_markup
    text_element words_of scan trim escape_attr escape_text to_string bytes_eq surface_id_to_str
    crates os_to_str codec_to_str fmt_f32 block_markup each_markup coefficient_markup paths_markup
    bound_to_str fmt_f64 confidentiality_to_str integrity_to_str linearity_to_str find_coefficient
    session_id compute_id canonical_bytes write_doc_with_id write_surfaces write_surface
    write_text_el write_focus write_id
window_read = refl

window_valid : validate levels levels crates window_image ≡ ok tt
unfolding validate count_refs bytes_eq
window_valid = refl

from_xml-to_xml_v1_example :
    from_xml levels crates same read_document (to_xml_v1 levels levels crates window_image)
    ≡ ok (
        reread levels crates same crates-HexLaws (record (alpha levels levels crates window_image) {
          id = some (session_id levels levels crates window_image);
        }))
from_xml-to_xml_v1_example =
    from_xml-to_xml_v1 levels levels crates same crates-HexLaws levels-Ordered refl levels-Printable
      (scan none) unescape_laws levels-Printable read_document window_image
      ((refl, omega arith, omega arith, omega arith), tt) refl (omega arith) refl window_read

from_xml_v1-to_xml_v1_example :
    from_xml_v1 levels crates same levels read_document
      (to_xml_v1 levels levels crates window_image)
    ≡ ok (record {
      base = reread levels crates same crates-HexLaws (
          identified levels levels crates same crates-HexLaws levels-Ordered refl levels-Printable
            window_image);
      coefficients =
          written levels levels crates same crates-HexLaws levels-Ordered refl levels-Printable
            window_image;
    })
from_xml_v1-to_xml_v1_example =
    from_xml_v1-to_xml_v1 levels levels crates same crates-HexLaws levels-Ordered refl
      levels-Printable (scan none) unescape_laws levels-Printable read_document window_image
      ((refl, omega arith, omega arith, omega arith), tt) refl (omega arith) refl window_read
      (((λ h. cc), ((refl, tt), tt), omega arith), tt) (unfold has_id in refl, tt)
      (unfold sort_by_order insert_by_order in refl) window_valid
