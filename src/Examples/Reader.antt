-- ===== src/Examples/Reader.antt =====
-- A reader of XML documents without comments and CDATA: it cuts the text at the angle brackets, trims
-- the texts and drops the empty ones, and cuts each tag at the quotation marks into attributes.
use simulboot.Base.{
  ℕ, Bool, true, false, none, List, [], ◌∷◌, ◌++◌, ◌==◌, if◌then◌else◌, Bytes, codes, bytes_eq,
  Result, ok,
}
use simulboot.Base.Text.{trim}
use simulboot.Examples.Entities.{scan}
use simulboot.Session.Parse.{Attr, Event, start, empty, end, text, other}
use simulboot.Session.Parse.Laws.{tag_of}

-- The text up to the first `b`, and all pieces behind it.
into_pieces : Bool → ℕ → Bytes × List Bytes → Bytes × List Bytes
into_pieces true c (piece, pieces) = ([], piece ∷ pieces)
into_pieces false c (piece, pieces) = (c ∷ piece, pieces)

unfoldable pub split : ℕ → Bytes → Bytes × List Bytes
unfolding into_pieces
split b [] = ([], [])
split b (c ∷ s) = into_pieces (c == b) c (split b s)

-- The text up to the first `b`, and the text behind it.
into_front : ℕ → Bytes × Bytes → Bytes × Bytes
into_front c (front, back) = (c ∷ front, back)

unfoldable pub cut : ℕ → Bytes → Bytes × Bytes
unfolding into_front
cut b [] = ([], [])
cut b (c ∷ s) = elim (c == b) [ true ↦ ([], s) | false ↦ into_front c (cut b s) ]

-- The attributes of a tag, and what stands behind the last.
unfoldable pub read_attrs : Bytes → List Bytes → List (Result Bytes Attr) × Bytes
read_attrs piece [] = ([], piece)
read_attrs piece (value ∷ []) = ([], piece)
read_attrs piece (value ∷ next ∷ rest) =
    let (attrs, last) = read_attrs next rest in
    let key = (cut b'=' (cut b' ' piece).1).0 in
    (ok (record { key = key; value = scan none value }) ∷ attrs, last)

unfoldable pub tag_event : Bytes → Event
tag_event s =
    let (piece, pieces) = split b'"' s in
    let (attrs, last) = read_attrs piece pieces in
    let tag = tag_of ((cut b' ' piece).0) attrs in
    if bytes_eq last (codes "/") then empty tag else start tag

unfoldable pub markup_event : Bytes → Event
markup_event [] = other
markup_event (c ∷ s) = if c == b'?' then other else if c == b'/' then end s else tag_event (c ∷ s)

unfoldable pub text_event : Bytes → List (Result Bytes Event)
text_event [] = []
text_event (c ∷ s) = ok (text (scan none (c ∷ s))) ∷ []

-- What stands behind each `<`.
unfoldable pub read_pieces : List Bytes → List (Result Bytes Event)
read_pieces [] = []
read_pieces (piece ∷ pieces) =
    let (markup, words) = cut b'>' piece in
    ok (markup_event markup) ∷ text_event (trim words) ++ read_pieces pieces

unfoldable pub read_document : Bytes → List (Result Bytes Event)
read_document doc = read_pieces (split b'<' doc).1
