-- ===== src/Session/Write.antt =====
-- simulboot-common/src/session.rs: `write_doc_with_id` and what it calls. A `String` that is pushed
-- to is the concatenation of the pieces, in order. `f` is `f32`.
pub mod Inj
use simulboot.Base.{
  ℕ, zero, suc, Bool, true, false, Option, none, some, List, [], ◌∷◌, ◌++◌, if◌then◌else◌, Bytes,
  codes,
}
use simulboot.Base.Decimal.{to_string}
use simulboot.Float.{Float}
use simulboot.Session.{
  SurfaceEntry, SessionImage, Layout, Crypto, surface_id_to_str, os_to_str, codec_to_str,
  session_namespace,
}
use simulboot.Session.Escape.{escape_attr, escape_text}

-- `str::repeat`
abbrev pub repeat : Bytes → ℕ → Bytes
repeat s zero = []
repeat s (suc n) = s ++ repeat s n

abbrev pub nl : Bool → Bytes
nl pretty = if pretty then codes "\n" else []

abbrev pub ind : Bool → ℕ → Bytes
ind pretty n = if pretty then repeat (codes "  ") n else []

unfoldable pub write_text_el : Bool → ℕ → Bytes → Bytes → Bytes
write_text_el pretty depth tag text =
    ind pretty depth
    ++ (codes "<"
        ++ (tag
            ++ (codes ">"
                ++ (escape_text text ++ (codes "</" ++ (tag ++ (codes ">" ++ nl pretty)))))))

module _ (f : Float) where
  unfoldable pub fmt_f32 : f.Carrier → Bytes
  fmt_f32 v = if f.eq v (f.of_ℕ 0) then codes "0" else f.display v

module _ (cr : Crypto) where
  unfoldable pub write_surface : Bool → SurfaceEntry → Bytes
  write_surface pretty surf =
      ind pretty 2
      ++ (codes "<surface id=\""
          ++ (escape_attr (surface_id_to_str cr surf.id)
              ++ (codes "\" name=\""
                  ++ (escape_attr surf.name
                      ++ (codes "\" order=\""
                          ++ (to_string surf.order
                              ++ (codes "\">"
                                  ++ (nl pretty
                                      ++ (ind pretty 3
                                          ++ (codes "<host>"
                                              ++ (nl pretty
                                                  ++ (write_text_el pretty 4 (codes "address")
                                                        surf.host.address
                                                      ++ (write_text_el pretty 4 (codes "os")
                                                            (os_to_str surf.host.os)
                                                          ++ (write_text_el pretty 4
                                                            (codes "machine") surf.host.machine
                                                            ++ (write_text_el pretty 4
                                                            (codes "capture") surf.host.capture
                                                            ++ (ind pretty 3
                                                            ++ (codes "</host>"
                                                            ++ (nl pretty
                                                            ++ (write_text_el pretty 3
                                                            (codes "codec")
                                                            (codec_to_str surf.codec)
                                                            ++ (ind pretty 3
                                                            ++ (codes "<dimensions height=\""
                                                            ++ (to_string surf.height
                                                            ++ (codes "\" width=\""
                                                            ++ (to_string surf.width
                                                            ++ (codes "\"/>"
                                                            ++ (nl pretty
                                                            ++ (ind pretty 2
                                                            ++ (codes "</surface>"
                                                            ++ nl pretty))))))))))))))))))))))))))))

  unfoldable pub write_surfaces : Bool → List SurfaceEntry → Bytes
  write_surfaces pretty [] = []
  write_surfaces pretty (surf ∷ rest) = write_surface pretty surf ++ write_surfaces pretty rest

  unfoldable pub write_focus : Bool → Option Bytes → Bytes
  write_focus pretty none = []
  write_focus pretty (some focus) =
      ind pretty 2
      ++ (codes "<focus surface-ref=\""
          ++ (escape_attr (surface_id_to_str cr focus) ++ (codes "\"/>" ++ nl pretty)))

unfoldable pub write_id : Option Bytes → Bytes
write_id none = []
write_id (some id) = codes " id=\"" ++ (escape_attr id ++ codes "\"")

abbrev pub or_empty : Option Bytes → Bytes
or_empty none = []
or_empty (some extra) = extra

module _ (f : Float) (cr : Crypto) where
  unfoldable pub write_doc_with_id :
      Bool → Option Bytes → Option Bytes → SessionImage f.Carrier → Bytes
  write_doc_with_id pretty id extra_children self =
      codes "<session xmlns=\""
      ++ (session_namespace
          ++ (codes "\""
              ++ (codes " created=\""
                  ++ (escape_attr self.created
                      ++ (codes "\""
                          ++ (write_id id
                              ++ (codes " schema-version=\""
                                  ++ (to_string self.schema_version
                                      ++ (codes "\""
                                          ++ (codes ">"
                                              ++ (nl pretty
                                                  ++ (ind pretty 1
                                                      ++ (codes "<surfaces>"
                                                          ++ (nl pretty
                                                            ++ (write_surfaces cr pretty
                                                            self.surfaces
                                                            ++ (ind pretty 1
                                                            ++ (codes "</surfaces>"
                                                            ++ (nl pretty
                                                            ++ (ind pretty 1
                                                            ++ (codes "<layout>"
                                                            ++ (nl pretty
                                                            ++ (ind pretty 2
                                                            ++ (codes "<strip scroll-pos=\""
                                                            ++ (fmt_f32 f self.layout.scroll_pos
                                                            ++ (codes "\"/>"
                                                            ++ (nl pretty
                                                            ++ (write_focus cr pretty
                                                            self.layout.focus
                                                            ++ (ind pretty 1
                                                            ++ (codes "</layout>"
                                                            ++ (nl pretty
                                                            ++ (or_empty extra_children
                                                            ++ codes
                                                            "</session>")))))))))))))))))))))))))))))))

  -- `write_doc(false, false)`: no id, no white space, no further children
  unfoldable pub canonical_bytes : SessionImage f.Carrier → Bytes
  canonical_bytes self = write_doc_with_id false none none self

  unfoldable pub compute_id : SessionImage f.Carrier → Bytes
  compute_id self = codes "sha256:" ++ cr.encode (cr.digest (canonical_bytes self))

  unfoldable pub with_computed_id : SessionImage f.Carrier → SessionImage f.Carrier
  with_computed_id self = record self { id = some (compute_id self) }

  abbrev pub declared_or_computed : Option Bytes → SessionImage f.Carrier → Bytes
  declared_or_computed none self = compute_id self
  declared_or_computed (some id) self = id

  unfoldable pub to_xml : SessionImage f.Carrier → Bytes
  to_xml self =
      codes "<?xml version=\"1.0\" encoding=\"UTF-8\"?>\n"
      ++ write_doc_with_id true (some (declared_or_computed self.id self)) none self
