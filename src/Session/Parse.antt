-- ===== src/Session/Parse.antt =====
-- simulboot-common/src/session.rs, `mod parse`: the reader of images. quick-xml is a parameter: what
-- it reads off a text, trimmed, is a list of events, each of which may be an error; the unescaped
-- texts and attribute values are part of them. Document has the walk over the events, Laws the
-- reading of a surface, Surfaces that of all surfaces, RoundTrip that of an image.
pub mod Document
pub mod Laws
pub mod Surfaces
pub mod RoundTrip
pub mod Examples
use simulboot.Base.{
  ℕ, Bool, true, false, not, ◌||◌, Option, none, some, List, [], ◌∷◌, ◌++◌, ◌==◌, if◌then◌else◌,
  Bytes, codes, bytes_eq, Result, ok, err, ◌>>=◌, ok_or,
}
use simulboot.Float.{Float}
use simulboot.Base.Decimal.{parse_uint, u32_max}
use simulboot.Wire.{SurfaceId, OsKind, Codec}
use simulboot.Session.{
  SessionError, xml, malformed, HostEntry, SurfaceEntry, Layout, SessionImage, Crypto, os_from_str,
  codec_from_str, parse_surface_id, schema_version_now,
}

pub record Attr : Type 0 where
  pub key : Bytes
  pub value : Result Bytes Bytes

pub record Tag : Type 0 where
  pub name : Bytes
  pub attributes : List (Result Bytes Attr)

pub data Event : Type 0 where
  start empty : Tag → Event
  end : Bytes → Event
  text : Result Bytes Bytes → Event
  other : Event

-- `map_err(|e| SessionError::Xml(e.to_string()))`
unfoldable pub xml_err : {A : Type 0} → Result Bytes A → Result SessionError A
xml_err (ok a) = ok a
xml_err (err e) = err (xml e)

-- `rsplit_once(':')`, or the whole
unfoldable pub local_name : Bytes → Bytes
local_name [] = []
local_name (c ∷ s) =
    let rest = local_name s in if any_colon s then rest else if c == b':' then s else c ∷ s
  where
    any_colon : Bytes → Bool
    any_colon [] = false
    any_colon (d ∷ t) = d == b':' || any_colon t

pub data TextTarget : Type 0 where
  address_text os_text machine_text capture_text codec_text : TextTarget

pub record SessionAttrs : Type 0 where
  pub id : Option Bytes
  pub created : Option Bytes
  pub schema_version : Option ℕ

pub record SurfaceBuilder : Type 0 where
  pub id : SurfaceId
  pub name : Bytes
  pub order : ℕ
  pub address : Option Bytes
  pub os : Option OsKind
  pub machine : Option Bytes
  pub capture : Option Bytes
  pub codec : Option Codec
  pub width : Option ℕ
  pub height : Option ℕ

unfoldable pub attr_from : List (Result Bytes Attr) → Bytes → Result SessionError Bytes
attr_from [] key = err (malformed (codes "missing attribute @" ++ key))
attr_from (err e ∷ rest) key = err (xml e)
attr_from (ok attr ∷ rest) key =
    let later = attr_from rest key in
    if bytes_eq (local_name attr.key) key then xml_err attr.value else later

unfoldable pub attr_str : Tag → Bytes → Result SessionError Bytes
attr_str tag key = attr_from tag.attributes key

-- The messages of `attr_u32` and `attr_f32` quote the value with `{v:?}`, `quoted` here.
module _ (quoted : Bytes → Bytes) where
  unfoldable pub attr_u32 : Tag → Bytes → Result SessionError ℕ
  attr_u32 tag key = attr_str tag key >>= λ v.
      ok_or (parse_uint u32_max v)
        (malformed (codes "attribute @" ++ key ++ codes " is not a u32: " ++ quoted v))

  -- One attribute of `<session>`.
  unfoldable pub set_attr : Bytes → Bytes → SessionAttrs → Result SessionError SessionAttrs
  set_attr key val out =
      if bytes_eq key (codes "id")
      then ok (record out { id = some val })
      else if bytes_eq key (codes "created")
      then ok (record out { created = some val })
      else if bytes_eq key (codes "schema-version")
      then (ok_or (parse_uint u32_max val) (malformed (codes "bad schema-version " ++ quoted val))
          >>= λ v. ok (record out { schema_version = some v }))
      else ok out

  unfoldable pub parse_attrs :
      List (Result Bytes Attr) → SessionAttrs → Result SessionError SessionAttrs
  parse_attrs [] out = ok out
  parse_attrs (err e ∷ rest) out = err (xml e)
  parse_attrs (ok attr ∷ rest) out = xml_err attr.value >>= λ val.
      set_attr (local_name attr.key) val out >>= λ out'. parse_attrs rest out'

  unfoldable pub parse_session : Tag → Result SessionError SessionAttrs
  parse_session tag =
      parse_attrs tag.attributes (record { id = none; created = none; schema_version = none })

-- `ok_or_else(|| miss(f))`
unfoldable pub present : {A : Type 0} → Option A → Bytes → Result SessionError A
present field f = ok_or field (malformed (codes "surface missing <" ++ f ++ codes ">"))

unfoldable pub build : SurfaceBuilder → Result SessionError SurfaceEntry
build b = present b.address (codes "address") >>= λ address. present b.os (codes "os") >>= λ os.
    present b.machine (codes "machine") >>= λ machine.
    present b.capture (codes "capture") >>= λ capture. present b.codec (codes "codec") >>= λ codec.
    present b.width (codes "dimensions/@width") >>= λ width.
    present b.height (codes "dimensions/@height") >>= λ height. ok (record {
      id = b.id;
      name = b.name;
      order = b.order;
      host = record { address = address; os = os; machine = machine; capture = capture };
      codec = codec;
      width = width;
      height = height;
    })

-- `apply_text` past its check that a surface is open
unfoldable pub apply_text :
    Bool → Option TextTarget → Bytes → SurfaceBuilder → Result SessionError SurfaceBuilder
apply_text true (some address_text) s b = ok (record b { address = some s })
apply_text true (some os_text) s b = os_from_str s >>= λ os. ok (record b { os = some os })
apply_text true (some machine_text) s b = ok (record b { machine = some s })
apply_text true (some capture_text) s b = ok (record b { capture = some s })
apply_text in_host (some codec_text) s b =
    codec_from_str s >>= λ codec. ok (record b { codec = some codec })
apply_text in_host target s b = ok b
