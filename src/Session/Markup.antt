-- ===== src/Session/Markup.antt =====
-- What simulboot-common/src/session.rs relies on of quick-xml: an XML document as its markup, the text
-- that spells it, and the events that a reader with trimmed texts delivers for it. Image has the markup
-- of an image.
pub mod Image
pub mod Events
pub mod RoundTrip
mod Examples
use simulboot.Base.{◌≡◌, refl, ◌≢◌, List, [], ◌∷◌, ◌++◌, Bytes, codes, Lacks, Result, ok}
use simulboot.Session.Escape.{Unescape, UnescapeLaws, put}
use simulboot.Session.Parse.{Attr, Event, start, empty, end, text, other}
use simulboot.Session.Parse.Laws.{tag_of}

-- Attribute values and words stand as they are spelled, with their entities; `space` is the white space
-- between tags.
pub data Markup : Type 0 where
  declaration : Markup
  open_tag empty_tag : Bytes → List (Bytes × Bytes) → Markup
  close_tag words space : Bytes → Markup

-- The text of a document.
unfoldable pub print_attrs : List (Bytes × Bytes) → Bytes → Bytes
print_attrs [] rest = rest
print_attrs ((key, value) ∷ attrs) rest =
    codes " " ++ (key ++ (codes "=\"" ++ (value ++ (codes "\"" ++ print_attrs attrs rest))))

unfoldable pub print : List Markup → Bytes
print [] = []
print (declaration ∷ doc) = codes "<?xml version=\"1.0\" encoding=\"UTF-8\"?>" ++ print doc
print (open_tag name attrs ∷ doc) =
    codes "<" ++ (name ++ print_attrs attrs (codes ">" ++ print doc))
print (empty_tag name attrs ∷ doc) =
    codes "<" ++ (name ++ print_attrs attrs (codes "/>" ++ print doc))
print (close_tag name ∷ doc) = codes "</" ++ (name ++ (codes ">" ++ print doc))
print (words s ∷ doc) = s ++ print doc
print (space s ∷ doc) = s ++ print doc

module _ (unescape : Unescape) where
  unfoldable pub attr_events : List (Bytes × Bytes) → List (Result Bytes Attr)
  attr_events [] = []
  attr_events ((key, value) ∷ attrs) =
      ok (record { key = key; value = unescape value }) ∷ attr_events attrs

  -- The events of a document.
  unfoldable pub events_of : List Markup → List (Result Bytes Event)
  events_of [] = []
  events_of (declaration ∷ doc) = ok other ∷ events_of doc
  events_of (open_tag name attrs ∷ doc) =
      ok (start (tag_of name (attr_events attrs))) ∷ events_of doc
  events_of (empty_tag name attrs ∷ doc) =
      ok (empty (tag_of name (attr_events attrs))) ∷ events_of doc
  events_of (close_tag name ∷ doc) = ok (end name) ∷ events_of doc
  events_of (words s ∷ doc) = ok (text (unescape s)) ∷ events_of doc
  events_of (space s ∷ doc) = events_of doc

  -- The reader takes the text of this document apart into its events.
  abbrev pub Reads : (Bytes → List (Result Bytes Event)) → List Markup → Type 0
  Reads read_events doc = read_events (print doc) ≡ events_of doc

  -- A text with no ampersand stands for itself.
  pub unescape-plain : (s : Bytes) → UnescapeLaws unescape → Lacks b'&' s → unescape s ≡ ok s
  unescape-plain [] laws h = laws.nil
  unescape-plain (c ∷ s) laws h = rw (laws.plain c s h.0) (rw (unescape-plain s laws h.1) refl)
