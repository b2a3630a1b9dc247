-- ===== src/Session/Markup/Examples.antt =====
-- The documents of concrete images, read by a concrete reader.
use simulboot.Base.{◌≡◌, refl, none, some, arith, codes, bytes_eq, ok}
use simulboot.Examples.Numbers.{levels, levels-Printable, middle}
use simulboot.Examples.Crates.{crates, crates-HexLaws}
use simulboot.Examples.Entities.{scan, unescape_laws}
use simulboot.Examples.Reader.{
  read_document, read_pieces, text_event, markup_event, tag_event, read_attrs, split, cut,
}
use simulboot.Base.Text.{trim}
use simulboot.Base.Decimal.{to_string}
use simulboot.Session.{surface_id_to_str, os_to_str, codec_to_str}
use simulboot.Session.Write.{to_xml, fmt_f32}
use simulboot.Session.Escape.{escape_attr, escape_text}
use simulboot.Session.Parse.Document.{from_xml, sort_by_order}
use simulboot.Session.Parse.RoundTrip.{printed}
use simulboot.Session.Parse.Examples.{saved, shell, quotes}
use simulboot.Session.Markup.{print, print_attrs, events_of, attr_events, Reads}
use simulboot.Session.Markup.Image.{
  document_markup, surfaces_markup, surface_markup, focus_markup, text_element, words_of,
}
use simulboot.Session.Markup.RoundTrip.{image_markup, from_xml-to_xml}

saved_read : Reads (scan none) read_document (image_markup levels crates saved)
unfolding read_document read_pieces text_event markup_event tag_event read_attrs split cut print
    print_attrs events_of attr_events document_markup surfaces_markup surface_markup focus_markup
    text_element words_of scan trim escape_attr escape_text to_string bytes_eq surface_id_to_str
    crates os_to_str codec_to_str fmt_f32
saved_read = refl

from_xml-to_xml_example :
    from_xml levels crates quotes read_document (to_xml levels crates saved)
    ≡ ok (record {
      id = some (codes "sha256:ab");
      created = saved.created;
      schema_version = 1;
      surfaces = sort_by_order saved.surfaces;
      layout = record {
        scroll_pos = printed levels crates quotes crates-HexLaws middle;
        focus = some shell.id;
      };
    })
from_xml-to_xml_example =
    from_xml-to_xml levels crates quotes crates-HexLaws (scan none) unescape_laws read_document
      saved levels-Printable
      (
        (refl, omega arith, omega arith, omega arith),
        ((refl, omega arith, omega arith, omega arith), tt),
      )
      refl (omega arith) refl saved_read
