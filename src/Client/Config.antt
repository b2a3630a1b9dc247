-- ===== src/Client/Config.antt =====
-- simulboot-client/src/main.rs: the configuration of the compositor. `A` is the type of socket
-- addresses, `parse` their parser; `f` is `f32`.
use simulboot.Base.{
  ℕ, ◌||◌, Option, none, some, List, [], ◌∷◌, ◌++◌, ◌==◌, if◌then◌else◌, Bytes, codes, bytes_eq,
  Result, ok, err, ◌>>=◌,
}
use simulboot.Base.Decimal.{parse_uint, u16_max}
use simulboot.Float.{Float}
use simulboot.Cli.{Exit, fail, Flags, parse_args, help_or_unknown, parsed}

pub data Mode (A : Type 0) : Type 0 where
  live : List A → Mode A
  resume_mode : Bytes → Mode A

pub record Config (F A : Type 0) : Type 0 where
  pub mode : Mode A
  pub viewport : F × F
  pub out : Bytes
  pub broker_port : ℕ

-- The variables of `from_args`.
pub record Parsing (F A : Type 0) : Type 0 where
  pub hosts : List A
  pub resume : Option Bytes
  pub viewport : F × F
  pub out : Bytes
  pub broker_port : ℕ

-- `split_once(['x', 'X'])`
unfoldable pub split_x : Bytes → Option (Bytes × Bytes)
split_x [] = none
split_x (c ∷ s) =
    let rest = split_x s in
    if c == b'x' || c == b'X'
    then some ([], s)
    else elim rest [ none ↦ none | some parts ↦ some (c ∷ parts.0, parts.1) ]

module _ (f : Float) where
  open f use {Carrier, of_ℕ}

  unfoldable pub parse_viewport : Bytes → Result Exit (Carrier × Carrier)
  parse_viewport s = parsed (split_x s) (codes "--viewport must look like 1440x900") >>= λ parts.
      parsed (f.parse parts.0) (codes "bad viewport width") >>= λ width.
      parsed (f.parse parts.1) (codes "bad viewport height") >>= λ height. ok (width, height)

  module _ {A : Type 0} (parse : Bytes → Option A) where
    unfoldable pub flags : Flags (Parsing Carrier A)
    flags arg =
        if bytes_eq arg (codes "--host")
        then some (λ value cfg. parsed (parse value) (codes "--host must be host:port") >>= λ host.
            ok (record cfg { hosts = cfg.hosts ++ host ∷ [] }))
        else if bytes_eq arg (codes "--resume")
        then some (λ value cfg. ok (record cfg { resume = some value }))
        else if bytes_eq arg (codes "--viewport")
        then some (λ value cfg.
          parse_viewport value >>= λ viewport. ok (record cfg { viewport = viewport }))
        else if bytes_eq arg (codes "--out")
        then some (λ value cfg. ok (record cfg { out = value }))
        else if bytes_eq arg (codes "--broker-port")
        then some (λ value cfg.
          parsed (parse_uint u16_max value) (codes "--broker-port must be a number") >>= λ port.
          ok (record cfg { broker_port = port }))
        else none

    unfoldable pub choose_mode : Option Bytes → List A → Result Exit (Mode A)
    choose_mode (some url) [] = ok (resume_mode url)
    choose_mode (some url) (h ∷ hosts) =
        err (fail (codes "--resume cannot be combined with --host"))
    choose_mode none [] = err (fail (codes "provide --host H:P (one per surface) or --resume URL"))
    choose_mode none (h ∷ hosts) = ok (live (h ∷ hosts))

    abbrev pub defaults : Parsing Carrier A
    defaults = record {
      hosts = [];
      resume = none;
      viewport = (of_ℕ 1440, of_ℕ 900);
      out = codes "session.xml";
      broker_port = 7000;
    }

    unfoldable pub from_args : List Bytes → Result Exit (Config Carrier A)
    from_args args = parse_args flags help_or_unknown args defaults >>= λ cfg.
        choose_mode cfg.resume cfg.hosts >>= λ mode. ok (record {
          mode = mode;
          viewport = cfg.viewport;
          out = cfg.out;
          broker_port = cfg.broker_port;
        })
