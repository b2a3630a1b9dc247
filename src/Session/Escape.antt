-- ===== src/Session/Escape.antt =====
-- `escape_attr` and `escape_text`: replacements made one after another over the whole text. They
-- are one replacement for each character, XML's unescaping undoes them, and what they write holds
-- none of the characters that end a value.
use simulboot.Base.{
  ℕ, ◌≡◌, refl, sym, ◌∙◌, ◌≢◌, [], ◌∷◌, ◌++◌, arith, ◌==◌, if◌then◌else◌, Bytes, codes, Lacks,
  All-append, Result, ok, err,
}

-- `str::replace` of a character.
unfoldable pub replace : ℕ → Bytes → Bytes → Bytes
replace c by [] = []
replace c by (d ∷ s) = if d == c then by ++ replace c by s else d ∷ replace c by s

abbrev pub amp : Bytes
amp = codes "&amp;"

abbrev pub lt_entity : Bytes
lt_entity = codes "&lt;"

abbrev pub gt_entity : Bytes
gt_entity = codes "&gt;"

abbrev pub quot : Bytes
quot = codes "&quot;"

unfoldable pub escape_attr : Bytes → Bytes
unfolding replace
escape_attr s =
    replace b'"' quot (replace b'>' gt_entity (replace b'<' lt_entity (replace b'&' amp s)))

unfoldable pub escape_text : Bytes → Bytes
unfolding replace
escape_text s = replace b'>' gt_entity (replace b'<' lt_entity (replace b'&' amp s))

-- What becomes of one character.
escaped_attr : ℕ → Bytes
escaped_attr c =
    if c == b'&'
    then amp
    else if c == b'<'
    then lt_entity
    else if c == b'>'
    then gt_entity
    else if c == b'"'
    then quot
    else c ∷ []

escaped_text : ℕ → Bytes
escaped_text c =
    if c == b'&'
    then amp
    else if c == b'<'
    then lt_entity
    else if c == b'>'
    then gt_entity
    else c ∷ []

-- The escaped text, in one pass.
pub attr_chars : Bytes → Bytes
attr_chars [] = []
attr_chars (c ∷ s) = escaped_attr c ++ attr_chars s

pub text_chars : Bytes → Bytes
text_chars [] = []
text_chars (c ∷ s) = escaped_text c ++ text_chars s

-- The four replacements amount to one pass: none of them touches what another has written.
pub escape_attr-attr_chars : (s : Bytes) → escape_attr s ≡ attr_chars s
unfolding escape_attr attr_chars escaped_attr
escape_attr-attr_chars [] = refl
escape_attr-attr_chars (c ∷ s) = ground (arith, escape_attr-attr_chars s)

pub escape_text-text_chars : (s : Bytes) → escape_text s ≡ text_chars s
unfolding escape_text text_chars escaped_text
escape_text-text_chars [] = refl
escape_text-text_chars (c ∷ s) = ground (arith, escape_text-text_chars s)

escaped_attr-Lacks : (c : ℕ) → Lacks b'"' (escaped_attr c)
unfolding escaped_attr
escaped_attr-Lacks c = ground arith

escaped_text-Lacks : (c : ℕ) → Lacks b'<' (escaped_text c)
unfolding escaped_text
escaped_text-Lacks c = ground arith

attr_chars-Lacks : (s : Bytes) → Lacks b'"' (attr_chars s)
unfolding attr_chars
attr_chars-Lacks [] = tt
attr_chars-Lacks (c ∷ s) =
    All-append _ (escaped_attr c) (attr_chars s) (escaped_attr-Lacks c) (attr_chars-Lacks s)

text_chars-Lacks : (s : Bytes) → Lacks b'<' (text_chars s)
unfolding text_chars
text_chars-Lacks [] = tt
text_chars-Lacks (c ∷ s) =
    All-append _ (escaped_text c) (text_chars s) (escaped_text-Lacks c) (text_chars-Lacks s)

pub escape_attr-Lacks : (s : Bytes) → Lacks b'"' (escape_attr s)
escape_attr-Lacks s = rw (escape_attr-attr_chars s) (attr_chars-Lacks s)

pub escape_text-Lacks : (s : Bytes) → Lacks b'<' (escape_text s)
escape_text-Lacks s = rw (escape_text-text_chars s) (text_chars-Lacks s)

abbrev pub Unescape : Type 0
Unescape = Bytes → Result Bytes Bytes

-- `c` in front of what was read.
abbrev pub put : ℕ → Result Bytes Bytes → Result Bytes Bytes
put c (ok s) = ok (c ∷ s)
put c (err e) = err e

-- What quick-xml documents of `unescape`: the predefined entities stand for their characters, and
-- every other character but the ampersand for itself.
pub record UnescapeLaws (unescape : Unescape) : Type 0 where
  pub nil : unescape [] ≡ ok []
  pub plain : (c : ℕ) (s : Bytes) → c ≢ b'&' → unescape (c ∷ s) ≡ put c (unescape s)
  pub ampersand : (s : Bytes) → unescape (amp ++ s) ≡ put b'&' (unescape s)
  pub less : (s : Bytes) → unescape (lt_entity ++ s) ≡ put b'<' (unescape s)
  pub greater : (s : Bytes) → unescape (gt_entity ++ s) ≡ put b'>' (unescape s)
  pub quote : (s : Bytes) → unescape (quot ++ s) ≡ put b'"' (unescape s)

module _ (unescape : Unescape) (laws : UnescapeLaws unescape) where
  unescape-attr_chars : (s : Bytes) → unescape (attr_chars s) ≡ ok s
  unfolding attr_chars escaped_attr
  unescape-attr_chars [] = laws.nil
  unescape-attr_chars (c ∷ s) = ground (
    arith,
    unescape-attr_chars s,
    laws.plain c (attr_chars s),
    laws.ampersand (attr_chars s),
    laws.less (attr_chars s),
    laws.greater (attr_chars s),
    laws.quote (attr_chars s),
  )

  unescape-text_chars : (s : Bytes) → unescape (text_chars s) ≡ ok s
  unfolding text_chars escaped_text
  unescape-text_chars [] = laws.nil
  unescape-text_chars (c ∷ s) = ground (
    arith,
    unescape-text_chars s,
    laws.plain c (text_chars s),
    laws.ampersand (text_chars s),
    laws.less (text_chars s),
    laws.greater (text_chars s),
  )

  -- Unescaping, by a function that meets `UnescapeLaws`, gives back every text that `escape_attr` or
  -- `escape_text` has written.
  pub unescape-escape :
      (s : Bytes) → (unescape (escape_attr s) ≡ ok s) × (unescape (escape_text s) ≡ ok s)
  unescape-escape s = (
    rw (escape_attr-attr_chars s) (unescape-attr_chars s),
    rw (escape_text-text_chars s) (unescape-text_chars s),
  )

-- One character at a time, so that the escaped text determines the text.
attr_chars_inj : (x y : Bytes) → attr_chars x ≡ attr_chars y → x ≡ y
unfolding attr_chars escaped_attr
attr_chars_inj [] [] e = refl
attr_chars_inj [] (d ∷ y) e = ground arith
attr_chars_inj (c ∷ x) [] e = ground arith
attr_chars_inj (c ∷ x) (d ∷ y) e = ground (arith, attr_chars_inj x y)

text_chars_inj : (x y : Bytes) → text_chars x ≡ text_chars y → x ≡ y
unfolding text_chars escaped_text
text_chars_inj [] [] e = refl
text_chars_inj [] (d ∷ y) e = ground arith
text_chars_inj (c ∷ x) [] e = ground arith
text_chars_inj (c ∷ x) (d ∷ y) e = ground (arith, text_chars_inj x y)

-- The escaped text determines the text.
pub escape_inj :
    (x y : Bytes)
    → (escape_attr x ≡ escape_attr y → x ≡ y) × (escape_text x ≡ escape_text y → x ≡ y)
escape_inj x y = (
  (λ e. attr_chars_inj x y (sym (escape_attr-attr_chars x) ∙ e ∙ escape_attr-attr_chars y)),
  (λ e. text_chars_inj x y (sym (escape_text-text_chars x) ∙ e ∙ escape_text-text_chars y)),
)
