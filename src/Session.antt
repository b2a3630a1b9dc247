-- ===== src/Session.antt =====
-- simulboot-common/src/session.rs: the session image. A text is its characters (Unicode scalar
-- values), of which the hash takes the UTF-8 encoding. `F` is the type that stands for `f32`.
-- Escape has `escape_attr` and `escape_text`, Write the serialisation, Identity the content id,
-- Parse the reader of documents.
pub mod Parse
pub mod Escape
pub mod Markup
pub mod Write
pub mod Identity
pub mod Examples
use simulboot.Base.{
  ℕ, ◌≤◌, ◌≡◌, ◌⊎◌, Option, none, some, List, ◌++◌, arith, ◌==◌, if◌then◌else◌, Bytes, codes,
  length, All, bytes_eq, strip_prefix, Result, ok, err,
}
use simulboot.Base.Decimal.{to_string}
use simulboot.Wire.{SurfaceId, Codec, h265, av1, OsKind, mac_os, windows, linux}

abbrev pub session_namespace : Bytes
session_namespace = codes "https://simulboot.dev/session/v1"

abbrev pub schema_version_now : ℕ
schema_version_now = 1

-- A message is kept where the source writes one out.
pub data SessionError : Type 0 where
  xml : Bytes → SessionError
  malformed : Bytes → SessionError
  unknown_enum : Bytes → Bytes → SessionError
  bad_surface_id : Bytes → Bytes → SessionError
  integrity_mismatch : Bytes → Bytes → SessionError

pub record HostEntry : Type 0 where
  pub address : Bytes
  pub os : OsKind
  pub machine : Bytes
  pub capture : Bytes

pub record SurfaceEntry : Type 0 where
  pub id : SurfaceId
  pub name : Bytes
  pub order : ℕ
  pub host : HostEntry
  pub codec : Codec
  pub width : ℕ
  pub height : ℕ

pub record Layout (F : Type 0) : Type 0 where
  pub scroll_pos : F
  pub focus : Option SurfaceId

pub record SessionImage (F : Type 0) : Type 0 where
  pub id : Option Bytes
  pub created : Bytes
  pub schema_version : ℕ
  pub surfaces : List SurfaceEntry
  pub layout : Layout F

-- `SessionImage::new`
unfoldable pub new_image : {F : Type 0} → Bytes → List SurfaceEntry → Layout F → SessionImage F
new_image created surfaces layout = record {
  id = none;
  created = created;
  schema_version = schema_version_now;
  surfaces = surfaces;
  layout = layout;
}

unfoldable pub os_to_str : OsKind → Bytes
os_to_str mac_os = codes "macOS"
os_to_str windows = codes "Windows"
os_to_str linux = codes "Linux"

unfoldable pub os_from_str : Bytes → Result SessionError OsKind
os_from_str s =
    if bytes_eq s (codes "macOS")
    then ok mac_os
    else if bytes_eq s (codes "Windows")
    then ok windows
    else if bytes_eq s (codes "Linux")
    then ok linux
    else err (unknown_enum (codes "os") s)

unfoldable pub codec_to_str : Codec → Bytes
codec_to_str h265 = codes "H265"
codec_to_str av1 = codes "AV1"

unfoldable pub codec_from_str : Bytes → Result SessionError Codec
codec_from_str s =
    if bytes_eq s (codes "H265")
    then ok h265
    else if bytes_eq s (codes "AV1")
    then ok av1
    else err (unknown_enum (codes "codec") s)

-- What the code uses of the crates sha2 and hex. `digest` is `Sha256::digest` of the UTF-8 bytes of
-- a text; an error of `decode` is its message.
pub record Crypto : Type 0 where
  pub digest : Bytes → Bytes
  pub encode : Bytes → Bytes
  pub decode : Bytes → Result Bytes Bytes

-- A hexadecimal digit.
abbrev pub IsHexDigit : ℕ → Type 0
IsHexDigit c = ((b'0' ≤ c) × (c ≤ b'9')) ⊎ ((b'a' ≤ c) × (c ≤ b'f'))

-- What the documentation of hex says: `encode` writes lower-case digits, and `decode` undoes it.
pub record HexLaws (cr : Crypto) : Type 0 where
  pub decode-encode : (b : Bytes) → cr.decode (cr.encode b) ≡ ok b
  pub encode-IsHexDigit : (b : Bytes) → All IsHexDigit (cr.encode b)

module _ (cr : Crypto) where
  unfoldable pub surface_id_to_str : SurfaceId → Bytes
  surface_id_to_str id = codes "sha256:" ++ cr.encode id

  -- `bytes.try_into()`
  to_surface_id : Bytes → Bytes → Result SessionError SurfaceId
  to_surface_id s bytes =
      if length bytes == 32
      then ok bytes
      else err (bad_surface_id s (codes "expected 32 bytes, got " ++ to_string (length bytes)))

  decode_id : Bytes → Result Bytes Bytes → Result SessionError SurfaceId
  unfolding to_surface_id
  decode_id s (ok bytes) = to_surface_id s bytes
  decode_id s (err e) = err (bad_surface_id s e)

  strip_id : Bytes → Option Bytes → Result SessionError SurfaceId
  unfolding decode_id
  strip_id s (some hex) = decode_id s (cr.decode hex)
  strip_id s none = err (bad_surface_id s (codes "missing 'sha256:' prefix"))

  unfoldable pub parse_surface_id : Bytes → Result SessionError SurfaceId
  unfolding strip_id strip_prefix
  parse_surface_id s = strip_id s (strip_prefix (codes "sha256:") s)

  -- A surface id of 32 bytes is read back from its print.
  pub parse_surface_id-to_str :
      HexLaws cr
      → (id : SurfaceId) → length id ≡ 32
      → parse_surface_id (surface_id_to_str id) ≡ ok id
  unfolding parse_surface_id surface_id_to_str
  parse_surface_id-to_str laws id h = rw (laws.decode-encode id) (ground arith)
