-- ===== src/Cli.antt =====
-- The command lines of simulboot-host/src/main.rs, simulboot-client/src/main.rs and
-- simulboot-broker/src/main.rs: the loop over the arguments that the three `from_args` share.
-- Broker has the broker's configuration.
pub mod Broker
use simulboot.Base.{
  ◌||◌, Option, none, some, List, [], ◌∷◌, ◌++◌, if◌then◌else◌, Bytes, codes, bytes_eq, Result, ok,
  err, ◌>>=◌, ok_or,
}

-- Help ends the program with status 0, `fail` carries the message.
pub data Exit : Type 0 where
  help : Exit
  fail : Bytes → Exit

-- What a flag does with its value, if it takes one.
abbrev pub Flags : Type 0 → Type 0
Flags C = Bytes → Option (Bytes → C → Result Exit C)

module _ {C : Type 0} (flags : Flags C) (other : Bytes → C → Result Exit C) where
  -- `while let Some(arg) = args.next()`: a flag takes the next argument, `other` is for the rest.
  unfoldable pub parse_args : List Bytes → C → Result Exit C
  parse_args [] cfg = ok cfg
  parse_args (arg ∷ []) cfg = elim (flags arg) [
    | some set ↦ err (fail (arg ++ codes " needs a value"))
    | none ↦ other arg cfg
  ]
  parse_args (arg ∷ value ∷ rest) cfg = elim (flags arg) [
    | some set ↦ set value cfg >>= λ cfg'. parse_args rest cfg'
    | none ↦ other arg cfg >>= λ cfg'. parse_args (value ∷ rest) cfg'
  ]

-- An argument that is no flag with a value, for the programs that take no other.
unfoldable pub help_or_unknown : {C : Type 0} → Bytes → C → Result Exit C
help_or_unknown arg cfg =
    if bytes_eq arg (codes "-h") || bytes_eq arg (codes "--help")
    then err help
    else err (fail (codes "unknown argument: " ++ arg))

-- `parse()?` with its context
abbrev pub parsed : {A : Type 0} → Option A → Bytes → Result Exit A
parsed value context = ok_or value (fail context)
