-- ===== src/Broker/Http.antt =====
-- The parts of HTTP that simulboot-broker/src/lib.rs and simulboot-client/src/session/mod.rs share:
-- the end of a head, its first line, and the words of a line.
use simulboot.Base.{
  ℕ, ◌+◌, ◌&&◌, Option, none, some, [], ◌∷◌, ◌==◌, if◌then◌else◌, Bytes, strip_prefix,
}
use simulboot.Base.Text.{is_whitespace, trim_start}

abbrev pub header_end : Bytes
header_end = b'\r' ∷ b'\n' ∷ b'\r' ∷ b'\n' ∷ []

-- `windows(n).position(|w| w == p)`, for an `n` that is the length of `p`
unfoldable pub position : Bytes → Bytes → Option ℕ
position p [] = none
position p (c ∷ s) = elim (strip_prefix p (c ∷ s)) [
  | some rest ↦ some 0
  | none ↦ elim (position p s) [ some n ↦ some (n + 1) | none ↦ none ]
]

unfoldable pub find_header_end : Bytes → Option ℕ
find_header_end buf = position header_end buf

-- The first of `lines()`, or nothing.
unfoldable pub first_line : Bytes → Bytes
first_line [] = []
first_line (c ∷ []) = if c == b'\n' then [] else c ∷ []
first_line (c ∷ d ∷ s) =
    let rest = first_line (d ∷ s) in
    if c == b'\n' then [] else if c == b'\r' && d == b'\n' then [] else c ∷ rest

-- What stands before the first whitespace, and what stands from it on.
unfoldable pub word : Bytes → Bytes
word [] = []
word (c ∷ s) = if is_whitespace c then [] else c ∷ word s

unfoldable pub past_word : Bytes → Bytes
past_word [] = []
past_word (c ∷ s) = if is_whitespace c then c ∷ s else past_word s

-- The first of `split_whitespace()`, or nothing, and the text behind it.
unfoldable pub first_word : Bytes → Bytes
first_word s = word (trim_start s)

unfoldable pub after_word : Bytes → Bytes
after_word s = past_word (trim_start s)
