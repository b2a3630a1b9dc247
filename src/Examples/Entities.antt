-- ===== src/Examples/Entities.antt =====
-- An unescaping function that meets the laws: it collects a name up to its semicolon.
use simulboot.Base.{
  ℕ, refl, true, false, Option, none, some, [], ◌∷◌, ◌++◌, arith, ◌==◌, if◌then◌else◌, Bytes, codes,
  bytes_eq, Result, ok, err,
}
use simulboot.Session.Escape.{UnescapeLaws, put}

entity : Bytes → Option ℕ
entity s =
    if bytes_eq s (codes "amp")
    then some b'&'
    else if bytes_eq s (codes "lt")
    then some b'<'
    else if bytes_eq s (codes "gt")
    then some b'>'
    else if bytes_eq s (codes "quot")
    then some b'"'
    else none

put_entity : Option ℕ → Result Bytes Bytes → Result Bytes Bytes
put_entity none rest = err (codes "unknown entity")
put_entity (some c) rest = put c rest

unfoldable pub scan : Option Bytes → Bytes → Result Bytes Bytes
unfolding entity put_entity
scan none [] = ok []
scan (some name) [] = err (codes "unterminated entity")
scan none (c ∷ s) = elim (c == b'&') [ true ↦ scan (some []) s | false ↦ put c (scan none s) ]
scan (some name) (c ∷ s) = elim (c == b';') [
  | true ↦ put_entity (entity name) (scan none s)
  | false ↦ scan (some (name ++ c ∷ [])) s
]

pub unescape_laws : UnescapeLaws (scan none)
unfolding scan bytes_eq
unescape_laws = record {
  nil = refl;
  plain = λ c s h. (ground arith);
  ampersand = λ s. refl;
  less = λ s. refl;
  greater = λ s. refl;
  quote = λ s. refl;
}
