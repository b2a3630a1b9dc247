-- ===== src/Cli/Broker.antt =====
-- simulboot-broker/src/main.rs: the broker's configuration.
use simulboot.Base.{
  ℕ, ◌||◌, Option, none, some, List, ◌++◌, if◌then◌else◌, Bytes, codes, bytes_eq, strip_prefix,
  Result, ok, err, ◌>>=◌, ok_or,
}
use simulboot.Base.Decimal.{parse_uint, u16_max}
use simulboot.Cli.{Exit, help, fail, Flags, parse_args, parsed}

pub record Config : Type 0 where
  pub image_path : Option Bytes
  pub bind : Bytes
  pub port : ℕ

unfoldable pub flags : Flags Config
flags arg =
    if bytes_eq arg (codes "--bind")
    then some (λ value cfg. ok (record cfg { bind = value }))
    else if bytes_eq arg (codes "--port")
    then some (λ value cfg.
      parsed (parse_uint u16_max value) (codes "--port must be a number") >>= λ port.
      ok (record cfg { port = port }))
    else none

-- `image_path.replace(positional)`
unfoldable pub set_path : Bytes → Config → Result Exit Config
set_path arg cfg = elim cfg.image_path [
  | none ↦ ok (record cfg { image_path = some arg })
  | some path ↦ err (fail (codes "expected a single session image path"))
]

unfoldable pub positional : Bytes → Config → Result Exit Config
positional arg cfg =
    if bytes_eq arg (codes "-h") || bytes_eq arg (codes "--help")
    then err help
    else elim (strip_prefix (codes "-") arg) [
      | some rest ↦ err (fail (codes "unknown flag: " ++ arg))
      | none ↦ set_path arg cfg
    ]

-- The configuration, its path in front.
unfoldable pub from_args : List Bytes → Result Exit (Bytes × Config)
from_args args =
    parse_args flags positional args
      (record { image_path = none; bind = codes "0.0.0.0"; port = 7000 })
    >>= λ cfg.
        ok_or cfg.image_path (fail (codes "missing session image path")) >>= λ path. ok (path, cfg)
