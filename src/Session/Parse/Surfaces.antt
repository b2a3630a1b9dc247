-- ===== src/Session/Parse/Surfaces.antt =====
-- simulboot-common/src/session.rs: `from_xml` on the events of the surfaces.
use simulboot.Base.{
  ◌≡◌, refl, ◌∙◌, true, false, none, some, List, [], ◌∷◌, ◌++◌, append-nil, append_assoc, Bytes,
  codes, All, bytes_eq, Result, ok,
}
use simulboot.Float.{Float}
use simulboot.Base.Decimal.{to_string}
use simulboot.Session.{SurfaceEntry, Layout, Crypto, HexLaws, surface_id_to_str}
use simulboot.Session.Parse.{
  Event, start, empty, end, xml_err, local_name, SessionAttrs, SurfaceBuilder, build, present,
}
use simulboot.Session.Parse.Document.{open_named, on_start, close_surface, on_end, on_event, walk}
use simulboot.Session.Parse.Laws.{
  attr_of, tag_of, surface_events, surfaces_events, inside, outside, blank, Fits, address_read,
  os_read, machine_read, capture_read, codec_read, surface_tag_read, dimensions_read,
}

module _ (f : Float) (cr : Crypto) (quoted : Bytes → Bytes) (laws : HexLaws cr) where
  module _ (attrs : SessionAttrs) (layout : Layout f.Carrier) where
    surface_opens :
        (s : SurfaceEntry) (fits : Fits s) (ss : List SurfaceEntry)
        (rest : List (Result Bytes Event))
        → walk f cr quoted
            (ok (
                start (
                  tag_of (codes "surface") (
                    attr_of (codes "id") (surface_id_to_str cr s.id)
                    ∷ attr_of (codes "name") s.name
                    ∷ attr_of (codes "order") (to_string s.order)
                    ∷ [])))
              ∷ ok (start (tag_of (codes "host") []))
              ∷ rest)
            (outside cr f quoted attrs ss layout)
          ≡ walk f cr quoted rest (inside cr f quoted attrs ss layout true none [] (blank s))
    unfolding walk on_event on_start open_named local_name bytes_eq xml_err
    surface_opens s fits ss rest = rw (surface_tag_read cr f quoted laws s fits) refl

    -- A surface with all its texts.
    filled : SurfaceEntry → SurfaceBuilder
    filled s = record (blank s) {
      address = some s.host.address;
      os = some s.host.os;
      machine = some s.host.machine;
      capture = some s.host.capture;
      codec = some s.codec;
    }

    surface_closes :
        (s : SurfaceEntry) (fits : Fits s) (ss : List SurfaceEntry)
        (rest : List (Result Bytes Event))
        → walk f cr quoted
            (ok (
                empty (
                  tag_of (codes "dimensions") (
                    attr_of (codes "height") (to_string s.height)
                    ∷ attr_of (codes "width") (to_string s.width)
                    ∷ [])))
              ∷ ok (end (codes "surface"))
              ∷ rest)
            (inside cr f quoted attrs ss layout false none [] (filled s))
          ≡ walk f cr quoted rest (outside cr f quoted attrs (ss ++ s ∷ []) layout)
    unfolding walk on_event on_start on_end open_named close_surface local_name bytes_eq xml_err
        build present filled blank
    surface_closes s fits ss rest = rw (dimensions_read cr f quoted laws s fits (filled s)) refl

    host_closes :
        (ss : List SurfaceEntry) (rest : List (Result Bytes Event)) (b : SurfaceBuilder)
        → walk f cr quoted
            (ok (end (codes "host")) ∷ rest)
            (inside cr f quoted attrs ss layout true none [] b)
          ≡ walk f cr quoted rest (inside cr f quoted attrs ss layout false none [] b)
    unfolding walk on_event on_end local_name bytes_eq xml_err
    host_closes ss rest b = refl

    surface_read :
        (s : SurfaceEntry) (fits : Fits s) (ss : List SurfaceEntry)
        (rest : List (Result Bytes Event))
        → walk f cr quoted (surface_events cr s rest) (outside cr f quoted attrs ss layout)
          ≡ walk f cr quoted rest (outside cr f quoted attrs (ss ++ s ∷ []) layout)
    unfolding filled
    surface_read s fits ss rest =
        surface_opens s fits ss _
        ∙ address_read cr f quoted attrs ss layout _ s.host.address _
        ∙ os_read cr f quoted attrs ss layout _ s.host.os _
        ∙ machine_read cr f quoted attrs ss layout _ s.host.machine _
        ∙ capture_read cr f quoted attrs ss layout _ s.host.capture _
        ∙ host_closes ss _ _
        ∙ codec_read cr f quoted attrs ss layout _ s.codec _
        ∙ surface_closes s fits ss rest

    pub surfaces_read :
        (more ss : List SurfaceEntry)
        → All Fits more
        → (rest : List (Result Bytes Event))
        → walk f cr quoted (surfaces_events cr more rest) (outside cr f quoted attrs ss layout)
          ≡ walk f cr quoted rest (outside cr f quoted attrs (ss ++ more) layout)
    surfaces_read [] ss fits rest = rw (append-nil ss) refl
    surfaces_read (s ∷ more) ss fits rest =
        surface_read s (fits.0) ss (surfaces_events cr more rest)
        ∙ surfaces_read more (ss ++ s ∷ []) (fits.1) rest
        ∙ rw (append_assoc ss (s ∷ []) more) refl
