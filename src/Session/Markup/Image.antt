-- ===== src/Session/Markup/Image.antt =====
-- simulboot-common/src/session.rs: the markup of the document that `to_xml` writes.
use simulboot.Base.{
  ℕ, ◌≡◌, refl, sym, ap, ◌∙◌, true, Option, none, some, List, [], ◌∷◌, ◌++◌, append_assoc, Bytes,
  codes,
}
use simulboot.Float.{Float}
use simulboot.Base.Decimal.{to_string}
use simulboot.Session.{
  SurfaceEntry, SessionImage, Crypto, surface_id_to_str, os_to_str, codec_to_str, session_namespace,
}
use simulboot.Session.Escape.{escape_attr, escape_text}
use simulboot.Session.Write.{
  nl, ind, fmt_f32, write_text_el, write_surface, write_surfaces, write_focus, write_id, or_empty,
  write_doc_with_id,
}
use simulboot.Session.Markup.{
  Markup, declaration, open_tag, empty_tag, close_tag, words, space, print, print_attrs,
}

-- A line of the document, and an element with a text.
abbrev pub line : ℕ → Markup → List Markup → List Markup
line depth m rest = space (ind true depth) ∷ m ∷ space (nl true) ∷ rest

unfoldable pub words_of : Bytes → List Markup → List Markup
words_of [] rest = rest
words_of (c ∷ s) rest = words (escape_text (c ∷ s)) ∷ rest

unfoldable pub text_element : ℕ → Bytes → Bytes → List Markup → List Markup
text_element depth tag s rest =
    space (ind true depth) ∷ open_tag tag [] ∷ words_of s (close_tag tag ∷ space (nl true) ∷ rest)

print-words_of :
    (s : Bytes) (rest : List Markup) → print (words_of s rest) ≡ escape_text s ++ print rest
unfolding print words_of escape_text
print-words_of [] rest = refl
print-words_of (c ∷ s) rest = refl

pub print-text_element :
    (depth : ℕ) (tag s : Bytes) (rest : List Markup)
    → print (text_element depth tag s rest) ≡ write_text_el true depth tag s ++ print rest
unfolding print print_attrs write_text_el text_element
print-text_element depth tag s rest =
    rw (print-words_of s (close_tag tag ∷ space (nl true) ∷ rest)) (simp append_assoc refl)

module _ (cr : Crypto) where
  unfoldable pub surface_markup : SurfaceEntry → List Markup → List Markup
  surface_markup s rest =
      line 2
        (open_tag (codes "surface") (
          (codes "id", escape_attr (surface_id_to_str cr s.id))
          ∷ (codes "name", escape_attr s.name)
          ∷ (codes "order", to_string s.order)
          ∷ []))
        (line 3 (open_tag (codes "host") []) (
          text_element 4 (codes "address") s.host.address (
            text_element 4 (codes "os") (os_to_str s.host.os) (
              text_element 4 (codes "machine") s.host.machine (
                text_element 4 (codes "capture") s.host.capture (
                  line 3 (close_tag (codes "host")) (
                    text_element 3 (codes "codec") (codec_to_str s.codec) (
                      line 3
                        (empty_tag (codes "dimensions") (
                          (codes "height", to_string s.height)
                          ∷ (codes "width", to_string s.width)
                          ∷ []))
                        (line 2 (close_tag (codes "surface")) rest)))))))))

  print-surface_markup :
      (s : SurfaceEntry) (rest : List Markup)
      → print (surface_markup s rest) ≡ write_surface cr true s ++ print rest
  unfolding print print_attrs write_surface surface_markup
  print-surface_markup s rest = simp (append_assoc, print-text_element) refl

  unfoldable pub surfaces_markup : List SurfaceEntry → List Markup → List Markup
  surfaces_markup [] rest = rest
  surfaces_markup (s ∷ ss) rest = surface_markup s (surfaces_markup ss rest)

  print-surfaces_markup :
      (ss : List SurfaceEntry) (rest : List Markup)
      → print (surfaces_markup ss rest) ≡ write_surfaces cr true ss ++ print rest
  unfolding surfaces_markup write_surfaces
  print-surfaces_markup [] rest = refl
  print-surfaces_markup (s ∷ ss) rest =
      print-surface_markup s (surfaces_markup ss rest)
      ∙ ap (λ t. write_surface cr true s ++ t) (print-surfaces_markup ss rest)
      ∙ sym (append_assoc (write_surface cr true s) (write_surfaces cr true ss) (print rest))

  unfoldable pub focus_markup : Option Bytes → List Markup → List Markup
  focus_markup none rest = rest
  focus_markup (some focus) rest =
      line 2
        (empty_tag (codes "focus")
          ((codes "surface-ref", escape_attr (surface_id_to_str cr focus)) ∷ []))
        rest

  print-focus_markup :
      (focus : Option Bytes) (rest : List Markup)
      → print (focus_markup focus rest) ≡ write_focus cr true focus ++ print rest
  unfolding print print_attrs focus_markup write_focus
  print-focus_markup none rest = refl
  print-focus_markup (some focus) rest = simp append_assoc refl

  module _ (f : Float) where
    -- The document with the id `id`, and `more` markup behind the layout.
    unfoldable pub document_markup :
        Bytes → SessionImage f.Carrier → (List Markup → List Markup) → List Markup
    document_markup id self more =
        declaration
        ∷ space (codes "\n")
        ∷ open_tag (codes "session") (
            (codes "xmlns", session_namespace)
            ∷ (codes "created", escape_attr self.created)
            ∷ (codes "id", escape_attr id)
            ∷ (codes "schema-version", to_string self.schema_version)
            ∷ [])
        ∷ space (nl true)
        ∷ line 1 (open_tag (codes "surfaces") []) (
            surfaces_markup self.surfaces (
              line 1 (close_tag (codes "surfaces")) (
                line 1 (open_tag (codes "layout") []) (
                  line 2
                    (empty_tag (codes "strip")
                      ((codes "scroll-pos", fmt_f32 f self.layout.scroll_pos) ∷ []))
                    (focus_markup self.layout.focus (
                      line 1 (close_tag (codes "layout"))
                        (more (close_tag (codes "session") ∷ []))))))))

    pub print-document_markup :
        (id : Bytes) (self : SessionImage f.Carrier) (extra : Option Bytes)
        (more : List Markup → List Markup)
        → ((rest : List Markup) → print (more rest) ≡ or_empty extra ++ print rest)
        → print (document_markup id self more)
          ≡ codes "<?xml version=\"1.0\" encoding=\"UTF-8\"?>\n"
            ++ write_doc_with_id f cr true (some id) extra self
    unfolding print print_attrs document_markup write_doc_with_id write_id
    print-document_markup id self extra more h =
        simp
          (
            append_assoc,
            print-surfaces_markup,
            print-focus_markup,
            h (close_tag (codes "session") ∷ []),
          )
          refl
