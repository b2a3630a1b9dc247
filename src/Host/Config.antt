-- ===== src/Host/Config.antt =====
-- simulboot-host/src/main.rs: the configuration, and the surface that it announces. `A` is the type
-- of socket addresses.
use simulboot.Base.{
  ℕ, ◌+◌, ◌&&◌, ◌||◌, Option, none, some, List, [], ◌++◌, map, leb, ◌==◌, if◌then◌else◌, Bytes,
  codes, length, bytes_eq, Result, ok, err, ◌>>=◌,
}
use simulboot.Base.Decimal.{parse_uint, u32_max}
use simulboot.Cli.{Exit, fail, Flags, parse_args, help_or_unknown, parsed}
use simulboot.Wire.{SurfaceAnnounce, SurfaceId, OsKind, mac_os, windows, linux, h265}

pub record Config (A : Type 0) : Type 0 where
  pub bind : A
  pub name : Bytes
  pub os : OsKind
  pub machine : Bytes
  pub capture : Bytes
  pub tailscale_addr : Bytes
  pub width : ℕ
  pub height : ℕ

-- Socket addresses: `parse`, and `ip().to_string()`.
pub record Net (A : Type 0) : Type 0 where
  pub parse : Bytes → Option A
  pub ip : A → Bytes

-- `to_ascii_lowercase`
unfoldable pub to_lower : ℕ → ℕ
to_lower c = if leb b'A' c && leb c b'Z' then c + 32 else c

unfoldable pub parse_os : Bytes → Result Exit OsKind
parse_os s =
    let t = map to_lower s in
    if bytes_eq t (codes "macos") || bytes_eq t (codes "mac") || bytes_eq t (codes "osx")
    then ok mac_os
    else if bytes_eq t (codes "windows") || bytes_eq t (codes "win")
    then ok windows
    else if bytes_eq t (codes "linux")
    then ok linux
    else err (fail (codes "unknown os: " ++ t ++ codes " (expected macos|windows|linux)"))

module _ {A : Type 0} (net : Net A) where
  unfoldable pub flags : Flags (Config A)
  flags arg =
      if bytes_eq arg (codes "--bind")
      then some (λ value cfg.
        parsed (net.parse value) (codes "--bind must be host:port") >>= λ bind.
        ok (record cfg { bind = bind }))
      else if bytes_eq arg (codes "--name")
      then some (λ value cfg. ok (record cfg { name = value }))
      else if bytes_eq arg (codes "--os")
      then some (λ value cfg. parse_os value >>= λ os. ok (record cfg { os = os }))
      else if bytes_eq arg (codes "--machine")
      then some (λ value cfg. ok (record cfg { machine = value }))
      else if bytes_eq arg (codes "--capture")
      then some (λ value cfg. ok (record cfg { capture = value }))
      else if bytes_eq arg (codes "--tailscale-addr")
      then some (λ value cfg. ok (record cfg { tailscale_addr = value }))
      else if bytes_eq arg (codes "--width")
      then some (λ value cfg.
        parsed (parse_uint u32_max value) (codes "--width must be a number") >>= λ width.
        ok (record cfg { width = width }))
      else if bytes_eq arg (codes "--height")
      then some (λ value cfg. parsed (parse_uint u32_max value) (codes "--height") >>= λ height.
          ok (record cfg { height = height }))
      else none

  unfoldable pub default_addr : Config A → Config A
  default_addr cfg =
      if length cfg.tailscale_addr == 0
      then record cfg { tailscale_addr = net.ip cfg.bind }
      else cfg

  -- `from_args`, on the defaults: the address 0.0.0.0:7001, the system and the host's name.
  unfoldable pub from_args : A → OsKind → Bytes → List Bytes → Result Exit (Config A)
  from_args bind os hostname args =
      let start : Config A = record {
        bind = bind;
        name = codes "surface";
        os = os;
        machine = hostname;
        capture = codes "display:0";
        tailscale_addr = [];
        width = 960;
        height = 540;
      } in
      parse_args flags help_or_unknown args start >>= λ cfg. ok (default_addr cfg)

-- `surface_id_from_seed` is a parameter: SHA-256 of the seed.
unfoldable pub surface_announce : {A : Type 0} → (Bytes → SurfaceId) → Config A → SurfaceAnnounce
surface_announce surface_id_from_seed cfg = record {
  id = surface_id_from_seed (cfg.machine ++ codes "|" ++ cfg.capture ++ codes "|" ++ cfg.name);
  name = cfg.name;
  width = cfg.width;
  height = cfg.height;
  codec = h265;
  provenance = record {
    os = cfg.os;
    machine_name = cfg.machine;
    tailscale_addr = cfg.tailscale_addr;
    capture_description = cfg.capture;
  };
}
