-- ===== src/Session/Parse/Laws.antt =====
-- simulboot-common/src/session.rs: `from_xml` against `to_xml`, on the events of a written document.
use simulboot.Base.{
  ◌≤◌, ◌≡◌, refl, Bool, true, false, Option, none, some, List, [], ◌∷◌, ◌++◌, Bytes, codes, length,
  bytes_eq, Result, ok,
}
use simulboot.Float.{Float}
use simulboot.Base.Decimal.{to_string, u32_max, parse_uint-to_string}
use simulboot.Wire.{OsKind, mac_os, windows, linux, Codec, h265, av1}
use simulboot.Session.{
  SurfaceEntry, Layout, Crypto, HexLaws, surface_id_to_str, parse_surface_id-to_str, os_to_str,
  os_from_str, codec_to_str, codec_from_str,
}
use simulboot.Session.Parse.{
  Attr, Tag, Event, start, empty, end, text, xml_err, local_name, TextTarget, SessionAttrs,
  SurfaceBuilder, attr_str, attr_from, attr_u32, apply_text,
}
use simulboot.Session.Parse.Document.{
  Reading, parse_surface, parse_dimensions, open_named, on_start, on_text, close_text,
  is_text_element, on_end, on_event, walk,
}

-- An attribute, a tag with attributes, and an element with a text; no event for an empty text.
abbrev pub attr_of : Bytes → Bytes → Result Bytes Attr
attr_of key value = ok (record { key = key; value = ok value })

abbrev pub tag_of : Bytes → List (Result Bytes Attr) → Tag
tag_of name attributes = record { name = name; attributes = attributes }

abbrev pub text_events : Bytes → List (Result Bytes Event)
text_events [] = []
text_events (c ∷ s) = ok (text (ok (c ∷ s))) ∷ []

abbrev pub element : Bytes → Bytes → List (Result Bytes Event) → List (Result Bytes Event)
element name s rest = ok (start (tag_of name [])) ∷ (text_events s ++ (ok (end name) ∷ rest))

-- What the types of a surface promise: an id of 32 bytes, and numbers that fit a `u32`.
abbrev pub Fits : SurfaceEntry → Type 0
Fits s = (length s.id ≡ 32) × (s.order ≤ u32_max) × (s.width ≤ u32_max) × (s.height ≤ u32_max)

-- A surface whose start tag is read.
unfoldable pub blank : SurfaceEntry → SurfaceBuilder
blank s = record {
  id = s.id;
  name = s.name;
  order = s.order;
  address = none;
  os = none;
  machine = none;
  capture = none;
  codec = none;
  width = none;
  height = none;
}

module _ (cr : Crypto) where
  -- The events of a surface, with what follows.
  abbrev pub surface_events : SurfaceEntry → List (Result Bytes Event) → List (Result Bytes Event)
  surface_events s rest =
      ok (
        start (
          tag_of (codes "surface") (
            attr_of (codes "id") (surface_id_to_str cr s.id)
            ∷ attr_of (codes "name") s.name
            ∷ attr_of (codes "order") (to_string s.order)
            ∷ [])))
      ∷ ok (start (tag_of (codes "host") []))
      ∷ element (codes "address") s.host.address (
          element (codes "os") (os_to_str s.host.os) (
            element (codes "machine") s.host.machine (
              element (codes "capture") s.host.capture (
                ok (end (codes "host"))
                ∷ element (codes "codec") (codec_to_str s.codec) (
                    ok (
                      empty (
                        tag_of (codes "dimensions") (
                          attr_of (codes "height") (to_string s.height)
                          ∷ attr_of (codes "width") (to_string s.width)
                          ∷ [])))
                    ∷ ok (end (codes "surface"))
                    ∷ rest)))))

  abbrev pub surfaces_events :
      List SurfaceEntry → List (Result Bytes Event) → List (Result Bytes Event)
  surfaces_events [] rest = rest
  surfaces_events (s ∷ ss) rest = surface_events s (surfaces_events ss rest)

  module _ (f : Float) (quoted : Bytes → Bytes) where
    -- A reading inside of a surface, and with a text of it read.
    abbrev pub inside :
        SessionAttrs
        → List SurfaceEntry
        → Layout f.Carrier
        → Bool
        → Option TextTarget
        → Bytes
        → SurfaceBuilder
        → Reading f.Carrier
    inside attrs ss layout host target buf b = record {
      session_attrs = attrs;
      surfaces = ss;
      layout = layout;
      cur_surface = some b;
      in_host = host;
      text_target = target;
      text_buf = buf;
    }

    module _ (attrs : SessionAttrs) (ss : List SurfaceEntry) (layout : Layout f.Carrier)
        (rest : List (Result Bytes Event)) where
      -- The texts of a surface, each put where it belongs.
      pub address_read :
          (s : Bytes) (b : SurfaceBuilder)
          → walk f cr quoted
              (element (codes "address") s rest)
              (inside attrs ss layout true none [] b)
            ≡ walk f cr quoted rest
                (inside attrs ss layout true none [] (record b { address = some s }))
      unfolding walk on_event on_start open_named on_text on_end close_text apply_text
          is_text_element local_name xml_err bytes_eq
      address_read [] b = refl
      address_read (c ∷ s) b = refl

      pub os_read :
          (os : OsKind) (b : SurfaceBuilder)
          → walk f cr quoted
              (element (codes "os") (os_to_str os) rest)
              (inside attrs ss layout true none [] b)
            ≡ walk f cr quoted rest
                (inside attrs ss layout true none [] (record b { os = some os }))
      unfolding walk on_event on_start open_named on_text on_end close_text apply_text
          is_text_element local_name xml_err bytes_eq os_to_str os_from_str
      os_read mac_os b = refl
      os_read windows b = refl
      os_read linux b = refl

      pub machine_read :
          (s : Bytes) (b : SurfaceBuilder)
          → walk f cr quoted
              (element (codes "machine") s rest)
              (inside attrs ss layout true none [] b)
            ≡ walk f cr quoted rest
                (inside attrs ss layout true none [] (record b { machine = some s }))
      unfolding walk on_event on_start open_named on_text on_end close_text apply_text
          is_text_element local_name xml_err bytes_eq
      machine_read [] b = refl
      machine_read (c ∷ s) b = refl

      pub capture_read :
          (s : Bytes) (b : SurfaceBuilder)
          → walk f cr quoted
              (element (codes "capture") s rest)
              (inside attrs ss layout true none [] b)
            ≡ walk f cr quoted rest
                (inside attrs ss layout true none [] (record b { capture = some s }))
      unfolding walk on_event on_start open_named on_text on_end close_text apply_text
          is_text_element local_name xml_err bytes_eq
      capture_read [] b = refl
      capture_read (c ∷ s) b = refl

      pub codec_read :
          (codec : Codec) (b : SurfaceBuilder)
          → walk f cr quoted
              (element (codes "codec") (codec_to_str codec) rest)
              (inside attrs ss layout false none [] b)
            ≡ walk f cr quoted rest
                (inside attrs ss layout false none [] (record b { codec = some codec }))
      unfolding walk on_event on_start open_named on_text on_end close_text apply_text
          is_text_element local_name xml_err bytes_eq codec_to_str codec_from_str
      codec_read h265 b = refl
      codec_read av1 b = refl

    -- Outside of surfaces.
    abbrev pub outside : SessionAttrs → List SurfaceEntry → Layout f.Carrier → Reading f.Carrier
    outside attrs ss layout = record {
      session_attrs = attrs;
      surfaces = ss;
      layout = layout;
      cur_surface = none;
      in_host = false;
      text_target = none;
      text_buf = [];
    }

    module _ (laws : HexLaws cr) (s : SurfaceEntry) (fits : Fits s) where
      pub surface_tag_read :
          parse_surface f cr quoted (
            tag_of (codes "surface") (
              attr_of (codes "id") (surface_id_to_str cr s.id)
              ∷ attr_of (codes "name") s.name
              ∷ attr_of (codes "order") (to_string s.order)
              ∷ []))
          ≡ ok (blank s)
      unfolding parse_surface attr_str attr_from attr_u32 local_name bytes_eq xml_err blank
      surface_tag_read =
          rw (parse_surface_id-to_str cr laws s.id (fits.0))
            (rw (parse_uint-to_string u32_max s.order (fits.1)) refl)

      pub dimensions_read :
          (b : SurfaceBuilder)
          → parse_dimensions f cr quoted
              (tag_of (codes "dimensions") (
                attr_of (codes "height") (to_string s.height)
                ∷ attr_of (codes "width") (to_string s.width)
                ∷ []))
              (some b)
            ≡ ok (record b { width = some s.width; height = some s.height })
      unfolding parse_dimensions attr_str attr_from attr_u32 local_name bytes_eq xml_err
      dimensions_read b =
          rw (parse_uint-to_string u32_max s.width (fits.2))
            (rw (parse_uint-to_string u32_max s.height (fits.3)) refl)
