-- ===== src/Session/Markup/Events.antt =====
-- simulboot-common/src/session.rs: the events of the markup that `to_xml` writes, where unescaping
-- meets its laws.
use simulboot.Base.{
  ℕ, ◌≡◌, refl, ap, ◌∙◌, inr, true, Option, none, some, List, [], ◌∷◌, ◌++◌, arith, Bytes, codes,
  Lacks, ok,
}
use simulboot.Float.{Float, Printable}
use simulboot.Base.Decimal.{to_string, to_string-IsDigit}
use simulboot.Session.{
  SurfaceEntry, SessionImage, Crypto, HexLaws, surface_id_to_str, session_namespace,
}
use simulboot.Session.Escape.{Unescape, UnescapeLaws, unescape-escape}
use simulboot.Session.Write.{nl, fmt_f32, declared_or_computed}
use simulboot.Session.Write.Inj.{digits-Lacks}
use simulboot.Session.Parse.Laws.{element, text_events, surface_events, surfaces_events}
use simulboot.Session.Parse.RoundTrip.{focus_events, document_onto}
use simulboot.Session.Markup.{Markup, close_tag, space, attr_events, events_of, unescape-plain}
use simulboot.Session.Markup.Image.{
  words_of, text_element, surface_markup, surfaces_markup, focus_markup, document_markup,
}

module _ (unescape : Unescape) (plain : UnescapeLaws unescape) where
  events-words_of :
      (s : Bytes) (rest : List Markup)
      → events_of unescape (words_of s rest) ≡ text_events s ++ events_of unescape rest
  unfolding events_of words_of
  events-words_of [] rest = refl
  events-words_of (c ∷ s) rest = rw ((unescape-escape unescape plain (c ∷ s)).1) refl

  events-text_element :
      (depth : ℕ) (tag s : Bytes) (rest : List Markup)
      → events_of unescape (text_element depth tag s rest) ≡ element tag s (events_of unescape rest)
  unfolding events_of attr_events text_element
  events-text_element depth tag s rest =
      rw (events-words_of s (close_tag tag ∷ space (nl true) ∷ rest)) refl

  pub unescape-to_string : (n : ℕ) → unescape (to_string n) ≡ ok (to_string n)
  unescape-to_string n =
      unescape-plain unescape (to_string n) plain
        (digits-Lacks b'&' _ (inr (omega arith)) (to_string-IsDigit n))

  unescape-namespace : unescape session_namespace ≡ ok session_namespace
  unescape-namespace = unescape-plain unescape session_namespace plain (omega arith)

  module _ (f : Float) (printable : Printable f) where
    unescape-fmt_f32 : (x : f.Carrier) → unescape (fmt_f32 f x) ≡ ok (fmt_f32 f x)
    unescape-fmt_f32 x = unescape-plain unescape (fmt_f32 f x) plain (lacks x)
      where
        lacks : (x : f.Carrier) → Lacks b'&' (fmt_f32 f x)
        lacks x = unfold fmt_f32 in ground (arith, printable.display-plain x)

  module _ (cr : Crypto) where
    events-surface_markup :
        (s : SurfaceEntry) (rest : List Markup)
        → events_of unescape (surface_markup cr s rest)
          ≡ surface_events cr s (events_of unescape rest)
    unfolding events_of attr_events surface_markup
    events-surface_markup s rest =
        simp
          (
            events-text_element,
            unescape-to_string,
            (unescape-escape unescape plain (surface_id_to_str cr s.id)).0,
            (unescape-escape unescape plain s.name).0,
          )
          refl

    events-surfaces_markup :
        (ss : List SurfaceEntry) (rest : List Markup)
        → events_of unescape (surfaces_markup cr ss rest)
          ≡ surfaces_events cr ss (events_of unescape rest)
    unfolding surfaces_markup
    events-surfaces_markup [] rest = refl
    events-surfaces_markup (s ∷ ss) rest =
        events-surface_markup s (surfaces_markup cr ss rest)
        ∙ ap (surface_events cr s) (events-surfaces_markup ss rest)

    module _ (f : Float) (quoted : Bytes → Bytes) (laws : HexLaws cr)
        (printable : Printable f) where
      events-focus_markup :
          (focus : Option Bytes) (rest : List Markup)
          → events_of unescape (focus_markup cr focus rest)
            ≡ focus_events f cr quoted laws focus (events_of unescape rest)
      unfolding events_of attr_events focus_markup
      events-focus_markup none rest = refl
      events-focus_markup (some focus) rest =
          rw ((unescape-escape unescape plain (surface_id_to_str cr focus)).0) refl

      -- The events of a document are those of its parts, whatever stands behind the layout.
      pub events-document_markup :
          (self : SessionImage f.Carrier) (more : List Markup → List Markup)
          → events_of unescape
              (document_markup cr f (declared_or_computed f cr self.id self) self more)
            ≡ document_onto f cr quoted laws self
                (events_of unescape (more (close_tag (codes "session") ∷ [])))
      unfolding events_of attr_events document_markup
      events-document_markup self more =
          simp
            (
              events-surfaces_markup,
              events-focus_markup,
              unescape-to_string,
              unescape-namespace,
              unescape-fmt_f32 f printable self.layout.scroll_pos,
              (unescape-escape unescape plain self.created).0,
              (unescape-escape unescape plain (declared_or_computed f cr self.id self)).0,
            )
            refl
