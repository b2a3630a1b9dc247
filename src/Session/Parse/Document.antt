-- ===== src/Session/Parse/Document.antt =====
-- simulboot-common/src/session.rs, `mod parse`: the walk over the events of a document.
use simulboot.Base.{
  Bool, true, false, ◌||◌, Option, none, some, List, [], ◌∷◌, ◌++◌, leb, if◌then◌else◌, Bytes,
  codes, bytes_eq, Result, ok, err, ◌>>=◌, ok_or,
}
use simulboot.Float.{Float}
use simulboot.Session.{
  SessionError, malformed, SurfaceEntry, Layout, SessionImage, Crypto, parse_surface_id,
  schema_version_now,
}
use simulboot.Session.Parse.{
  Tag, Event, start, empty, end, text, other, xml_err, local_name, TextTarget, address_text,
  os_text, machine_text, capture_text, codec_text, SessionAttrs, SurfaceBuilder, attr_str, attr_u32,
  parse_session, build, apply_text,
}

-- The variables of `from_xml`.
pub record Reading (F : Type 0) : Type 0 where
  pub session_attrs : SessionAttrs
  pub surfaces : List SurfaceEntry
  pub layout : Layout F
  pub cur_surface : Option SurfaceBuilder
  pub in_host : Bool
  pub text_target : Option TextTarget
  pub text_buf : Bytes

-- The stable `sort_by_key(|s| s.order)`.
unfoldable pub insert_by_order : SurfaceEntry → List SurfaceEntry → List SurfaceEntry
insert_by_order s [] = s ∷ []
insert_by_order s (t ∷ rest) =
    let later = insert_by_order s rest in if leb s.order t.order then s ∷ t ∷ rest else t ∷ later

unfoldable pub sort_by_order : List SurfaceEntry → List SurfaceEntry
sort_by_order [] = []
sort_by_order (s ∷ rest) = insert_by_order s (sort_by_order rest)

module _ (f : Float) (cr : Crypto) (quoted : Bytes → Bytes) where
  open f use {Carrier}

  unfoldable pub attr_f32 : Tag → Bytes → Result SessionError Carrier
  attr_f32 tag key = attr_str tag key >>= λ v.
      ok_or (f.parse v)
        (malformed (codes "attribute @" ++ key ++ codes " is not an f32: " ++ quoted v))

  unfoldable pub parse_surface : Tag → Result SessionError SurfaceBuilder
  parse_surface tag = attr_str tag (codes "id") >>= λ written. parse_surface_id cr written >>= λ id.
      attr_str tag (codes "name") >>= λ name. attr_u32 quoted tag (codes "order") >>= λ order.
      ok (record {
        id = id;
        name = name;
        order = order;
        address = none;
        os = none;
        machine = none;
        capture = none;
        codec = none;
        width = none;
        height = none;
      })

  unfoldable pub parse_dimensions : Tag → Option SurfaceBuilder → Result SessionError SurfaceBuilder
  parse_dimensions tag none = err (malformed (codes "<dimensions> outside <surface>"))
  parse_dimensions tag (some b) = attr_u32 quoted tag (codes "width") >>= λ width.
      attr_u32 quoted tag (codes "height") >>= λ height.
      ok (record b { width = some width; height = some height })

  -- What a start tag with this local name changes, `text_buf` aside.
  unfoldable pub open_named : Bytes → Tag → Reading Carrier → Result SessionError (Reading Carrier)
  open_named name tag st =
      if bytes_eq name (codes "session")
      then parse_session quoted tag >>= (λ attrs. ok (record st { session_attrs = attrs }))
      else if bytes_eq name (codes "surface")
      then parse_surface tag >>= (λ b. ok (record st { cur_surface = some b }))
      else if bytes_eq name (codes "host")
      then ok (record st { in_host = true })
      else if bytes_eq name (codes "address")
      then ok (record st { text_target = some address_text })
      else if bytes_eq name (codes "os")
      then ok (record st { text_target = some os_text })
      else if bytes_eq name (codes "machine")
      then ok (record st { text_target = some machine_text })
      else if bytes_eq name (codes "capture")
      then ok (record st { text_target = some capture_text })
      else if bytes_eq name (codes "codec")
      then ok (record st { text_target = some codec_text })
      else if bytes_eq name (codes "dimensions")
      then parse_dimensions tag st.cur_surface >>= (λ b. ok (record st { cur_surface = some b }))
      else if bytes_eq name (codes "strip")
      then attr_f32 tag (codes "scroll-pos")
        >>= (λ x. ok (record st { layout = record st.layout { scroll_pos = x } }))
      else if bytes_eq name (codes "focus")
      then attr_str tag (codes "surface-ref") >>= (λ r.
        parse_surface_id cr r
        >>= (λ id. ok (record st { layout = record st.layout { focus = some id } })))
      else ok st

  unfoldable pub on_start : Tag → Reading Carrier → Result SessionError (Reading Carrier)
  on_start tag st =
      open_named (local_name tag.name) tag st >>= λ st'. ok (record st' { text_buf = [] })

  unfoldable pub on_text :
      Result Bytes Bytes → Reading Carrier → Result SessionError (Reading Carrier)
  on_text t st = elim st.text_target [
    | none ↦ ok st
    | some target ↦ xml_err t >>= λ s. ok (record st { text_buf = st.text_buf ++ s })
  ]

  unfoldable pub close_surface :
      Option SurfaceBuilder → Reading Carrier → Result SessionError (Reading Carrier)
  close_surface none st = err (malformed (codes "</surface> without start"))
  close_surface (some b) st =
      build b >>= λ s. ok (record st { cur_surface = none; surfaces = st.surfaces ++ s ∷ [] })

  unfoldable pub close_text :
      Option SurfaceBuilder → Reading Carrier → Result SessionError (Reading Carrier)
  close_text none st = err (malformed (codes "text element outside <surface>"))
  close_text (some b) st = apply_text st.in_host st.text_target st.text_buf b >>= λ b'.
      ok (record st { cur_surface = some b'; text_target = none; text_buf = [] })

  unfoldable pub is_text_element : Bytes → Bool
  is_text_element name =
      bytes_eq name (codes "address")
      || bytes_eq name (codes "os")
      || bytes_eq name (codes "machine")
      || bytes_eq name (codes "capture")
      || bytes_eq name (codes "codec")

  unfoldable pub on_end : Bytes → Reading Carrier → Result SessionError (Reading Carrier)
  on_end qname st =
      let name = local_name qname in
      if bytes_eq name (codes "host")
      then ok (record st { in_host = false })
      else if bytes_eq name (codes "surface")
      then close_surface st.cur_surface st
      else if is_text_element name
      then close_text st.cur_surface st
      else ok st

  unfoldable pub on_event : Event → Reading Carrier → Result SessionError (Reading Carrier)
  on_event (start tag) st = on_start tag st
  on_event (empty tag) st = on_start tag st
  on_event (text t) st = on_text t st
  on_event (end name) st = on_end name st
  on_event other st = ok st

  -- The loop, up to the end of the document.
  unfoldable pub walk :
      List (Result Bytes Event) → Reading Carrier → Result SessionError (Reading Carrier)
  walk [] st = ok st
  walk (e ∷ rest) st = xml_err e >>= λ event. on_event event st >>= λ st'. walk rest st'

  unfoldable pub finish : Reading Carrier → Result SessionError (SessionImage Carrier)
  finish st =
      ok_or st.session_attrs.created (malformed (codes "missing session/@created")) >>= λ created.
      ok (record {
        id = st.session_attrs.id;
        created = created;
        schema_version = elim st.session_attrs.schema_version [
          | some v ↦ v
          | none ↦ schema_version_now
        ];
        surfaces = sort_by_order st.surfaces;
        layout = st.layout;
      })

  abbrev pub at_start : Reading Carrier
  at_start = record {
    session_attrs = record { id = none; created = none; schema_version = none };
    surfaces = [];
    layout = record { scroll_pos = f.of_ℕ 0; focus = none };
    cur_surface = none;
    in_host = false;
    text_target = none;
    text_buf = [];
  }

  unfoldable pub from_events :
      List (Result Bytes Event) → Result SessionError (SessionImage Carrier)
  from_events events = walk events at_start >>= λ st. finish st

  -- `from_xml`, with quick-xml's reader
  unfoldable pub from_xml :
      (Bytes → List (Result Bytes Event)) → Bytes → Result SessionError (SessionImage Carrier)
  from_xml read_events doc = from_events (read_events doc)
