-- ===== src/Session/Write/Inj.antt =====
-- Two images with one canonical form have the same content: nothing is lost or run together.
use mathlib.Core.List.{append_cancel_left}
use simulboot.Base.{
  ℕ, ◌<◌, ◌≡◌, refl, sym, ap, ◌∙◌, ◌≢◌, ◌⊎◌, inr, true, false, Option, none, some, List, [], ◌∷◌,
  ◌++◌, append_assoc, arith, Bytes, codes, Lacks, All,
}
use simulboot.Base.Decimal.{to_string, to_string_inj, to_string-IsDigit, IsDigit}
use simulboot.Float.{Float, HasZero, Printable, Ordered}
use simulboot.Wire.{Codec, OsKind}
use simulboot.Session.{
  SurfaceEntry, SessionImage, Crypto, HexLaws, surface_id_to_str, os_to_str, codec_to_str,
}
use simulboot.Session.Escape.{
  escape_attr, escape_text, escape_attr-Lacks, escape_text-Lacks, escape_inj,
}
use simulboot.Session.Write.{
  write_text_el, fmt_f32, write_surface, write_surfaces, write_focus, write_id, write_doc_with_id,
  canonical_bytes,
}

-- A value that lacks the character behind it ends at the first one.
pub cut :
    (b : ℕ) (x y : Bytes) {r s : Bytes}
    → Lacks b x
    → Lacks b y
    → x ++ b ∷ r ≡ y ++ b ∷ s
    → (x ≡ y) × (r ≡ s)
cut b [] [] h k e = (refl, cc)
cut b [] (d ∷ y) h k e = absurd (k.0 (cc))
cut b (c ∷ x) [] h k e = absurd (h.0 (cc))
cut b (c ∷ x) (d ∷ y) {r} {s} h k e = let (p, q) = cut b x y {r = r} {s = s} h.1 k.1 (cc) in (cc, q)

head_or : Bytes → ℕ
head_or [] = 0
head_or (c ∷ x) = c

head_ne : {c d : ℕ} {x y : Bytes} → c ≢ d → c ∷ x ≡ d ∷ y → ⊥
unfolding head_or
head_ne h e = h (ap head_or e)

-- A fixed text in front.
pub skip : (p : Bytes) {r s : Bytes} → p ++ r ≡ p ++ s → r ≡ s
skip p {r} {s} = append_cancel_left p r s

pub digits-Lacks : (b : ℕ) (s : Bytes) → (b'9' < b) ⊎ (b < b'0') → All IsDigit s → Lacks b s
digits-Lacks b [] far h = tt
digits-Lacks b (c ∷ s) far (h, hs) = (omega arith, digits-Lacks b s far hs)

-- An escaped attribute value, a number and an escaped text, each with what ends it.
pub attr_cut :
    (x y : Bytes) {r s : Bytes}
    → escape_attr x ++ b'"' ∷ r ≡ escape_attr y ++ b'"' ∷ s
    → (x ≡ y) × (r ≡ s)
attr_cut x y e =
    let (p, q) =
      cut b'"' (escape_attr x) (escape_attr y) (escape_attr-Lacks x) (escape_attr-Lacks y) e in
    ((escape_inj x y).0 p, q)

pub text_cut :
    (x y : Bytes) {r s : Bytes}
    → escape_text x ++ b'<' ∷ r ≡ escape_text y ++ b'<' ∷ s
    → (x ≡ y) × (r ≡ s)
text_cut x y e =
    let (p, q) =
      cut b'<' (escape_text x) (escape_text y) (escape_text-Lacks x) (escape_text-Lacks y) e in
    ((escape_inj x y).1 p, q)

pub number_cut :
    (m n : ℕ) {r s : Bytes} → to_string m ++ b'"' ∷ r ≡ to_string n ++ b'"' ∷ s → (m ≡ n) × (r ≡ s)
number_cut m n e =
    let (p, q) =
      cut b'"' (to_string m) (to_string n)
        (digits-Lacks b'"' _ (inr (omega arith)) (to_string-IsDigit m))
        (digits-Lacks b'"' _ (inr (omega arith)) (to_string-IsDigit n)) e in
    (to_string_inj m n p, q)

el_form :
    (depth : ℕ) (tag x r : Bytes)
    → write_text_el false depth tag x ++ r
      ≡ codes "<" ++ (tag ++ (b'>' ∷ (escape_text x ++ (codes "</" ++ (tag ++ (b'>' ∷ r))))))
unfolding write_text_el
el_form depth tag x r = simp append_assoc

-- A text element ends where its text does.
el_cut :
    (depth : ℕ) (tag x y : Bytes) {r s : Bytes}
    → write_text_el false depth tag x ++ r ≡ write_text_el false depth tag y ++ s
    → (x ≡ y) × (r ≡ s)
el_cut depth tag x y {r} {s} e =
    let flat = skip (codes "<") (sym (el_form depth tag x r) ∙ e ∙ el_form depth tag y s) in
    let (p, q) = text_cut x y (skip (codes ">") (skip tag flat)) in
    (p, skip (codes ">") (skip tag (skip (codes "/") q)))

os_to_str_inj : (a b : OsKind) → os_to_str a ≡ os_to_str b → a ≡ b
unfolding os_to_str
os_to_str_inj a b e = ground arith

codec_to_str_inj : (a b : Codec) → codec_to_str a ≡ codec_to_str b → a ≡ b
unfolding codec_to_str
codec_to_str_inj a b e = ground arith

module _ (cr : Crypto) (laws : HexLaws cr) where
  surface_id_to_str_inj : (a b : Bytes) → surface_id_to_str cr a ≡ surface_id_to_str cr b → a ≡ b
  unfolding surface_id_to_str
  surface_id_to_str_inj a b e =
      let same : cr.encode a ≡ cr.encode b = skip (codes "sha256:") e in
      cc (laws.decode-encode a, laws.decode-encode b)

  -- A surface, with what follows it.
  surface_form : SurfaceEntry → Bytes → Bytes
  surface_form a r =
      codes "<surface id=\""
      ++ (escape_attr (surface_id_to_str cr a.id)
          ++ (codes "\" name=\""
              ++ (escape_attr a.name
                  ++ (codes "\" order=\""
                      ++ (to_string a.order
                          ++ (codes "\"><host>"
                              ++ (write_text_el false 4 (codes "address") a.host.address
                                  ++ (write_text_el false 4 (codes "os") (os_to_str a.host.os)
                                      ++ (write_text_el false 4 (codes "machine") a.host.machine
                                          ++ (write_text_el false 4 (codes "capture") a.host.capture
                                              ++ (codes "</host>"
                                                  ++ (write_text_el false 3 (codes "codec")
                                                        (codec_to_str a.codec)
                                                      ++ (codes "<dimensions height=\""
                                                          ++ (to_string a.height
                                                            ++ (codes "\" width=\""
                                                            ++ (to_string a.width
                                                            ++ (codes "\"/></surface>"
                                                            ++ r)))))))))))))))))

  write_surface-surface_form :
      (a : SurfaceEntry) (r : Bytes) → write_surface cr false a ++ r ≡ surface_form a r
  unfolding write_surface surface_form
  write_surface-surface_form a r = simp append_assoc

  surface_cut :
      (a b : SurfaceEntry) {r s : Bytes} → surface_form a r ≡ surface_form b s → (a ≡ b) × (r ≡ s)
  unfolding surface_form
  surface_cut a b {r} {s} e =
      let (i, e1) = attr_cut _ _ (skip (codes "<surface id=\"") e) in
      let (n, e2) = attr_cut a.name b.name (skip (codes " name=\"") e1) in
      let (o, e3) = number_cut a.order b.order (skip (codes " order=\"") e2) in
      let (ad, e4) = el_cut 4 (codes "address") _ _ (skip (codes "><host>") e3) in
      let (os, e5) = el_cut 4 (codes "os") _ _ e4 in
      let (m, e6) = el_cut 4 (codes "machine") _ _ e5 in
      let (c, e7) = el_cut 4 (codes "capture") _ _ e6 in
      let (k, e8) = el_cut 3 (codes "codec") _ _ (skip (codes "</host>") e7) in
      let (h, e9) = number_cut a.height b.height (skip (codes "<dimensions height=\"") e8) in
      let (w, e10) = number_cut a.width b.width (skip (codes " width=\"") e9) in
      let i' = surface_id_to_str_inj a.id b.id i in
      let os' = os_to_str_inj a.host.os b.host.os os in
      let k' = codec_to_str_inj a.codec b.codec k in (ground arith, skip (codes "/></surface>") e10)

  surfaces_cut :
      (xs ys : List SurfaceEntry) {r s : Bytes}
      → write_surfaces cr false xs ++ (codes "</surfaces>" ++ r)
        ≡ write_surfaces cr false ys ++ (codes "</surfaces>" ++ s)
      → (xs ≡ ys) × (r ≡ s)
  unfolding write_surfaces
  surfaces_cut [] [] e = (refl, skip (codes "</surfaces>") e)
  surfaces_cut [] (b ∷ ys) e =
      unfold write_surface in absurd (head_ne (omega arith) (skip (codes "<") e))
  surfaces_cut (a ∷ xs) [] e =
      unfold write_surface in absurd (head_ne (omega arith) (skip (codes "<") e))
  surfaces_cut (a ∷ xs) (b ∷ ys) {r} {s} e =
      let form = λ (c : SurfaceEntry) (cs : List SurfaceEntry) (t : Bytes).
        append_assoc (write_surface cr false c) (write_surfaces cr false cs) t
        ∙ write_surface-surface_form c (write_surfaces cr false cs ++ t) in
      let (p, rest) =
        surface_cut a b
          (sym (form a xs (codes "</surfaces>" ++ r)) ∙ e ∙ form b ys (codes "</surfaces>" ++ s)) in
      let (q, tail) = surfaces_cut xs ys rest in (cc, tail)

  focus_form :
      (i r : Bytes)
      → write_focus cr false (some i) ++ r
        ≡ codes "<focus surface-ref=\""
          ++ (escape_attr (surface_id_to_str cr i) ++ (codes "\"/>" ++ r))
  unfolding write_focus
  focus_form i r = simp append_assoc

  focus_cut :
      (a b : Option Bytes) (r s : Bytes)
      → write_focus cr false a ++ (codes "</layout>" ++ r)
        ≡ write_focus cr false b ++ (codes "</layout>" ++ s)
      → a ≡ b
  focus_cut none none r s e = refl
  focus_cut none (some j) r s e =
      unfold write_focus in absurd (head_ne (omega arith) (skip (codes "<") e))
  focus_cut (some i) none r s e =
      unfold write_focus in absurd (head_ne (omega arith) (skip (codes "<") e))
  focus_cut (some i) (some j) r s e =
      let (p, q) = attr_cut _ _ (
        skip (codes "<focus surface-ref=\"") (
          sym (focus_form i (codes "</layout>" ++ r))
          ∙ e
          ∙ focus_form j (codes "</layout>" ++ s))) in
      ap some (surface_id_to_str_inj i j p)

module _ (f : Float) where
  open f use {Carrier}

  -- The same number, or two zeros.
  abbrev pub SameNumber : Carrier → Carrier → Type 0
  SameNumber x y = (x ≡ y) ⊎ ((f.eq x (f.of_ℕ 0) ≡ true) × (f.eq y (f.of_ℕ 0) ≡ true))

  -- Two images agree on everything but the declared id.
  pub record SameContent (a b : SessionImage Carrier) : Type 0 where
    pub created : a.created ≡ b.created
    pub schema_version : a.schema_version ≡ b.schema_version
    pub surfaces : a.surfaces ≡ b.surfaces
    pub scroll_pos : SameNumber a.layout.scroll_pos b.layout.scroll_pos
    pub focus : a.layout.focus ≡ b.layout.focus

  module _ (ord : Ordered f) (zero_ok : HasZero f) (printable : Printable f) where
    fmt_f32-Lacks : (x : Carrier) → Lacks b'"' (fmt_f32 f x)
    unfolding fmt_f32
    fmt_f32-Lacks x = ground (arith, printable.display-Lacks x)

    fmt_f32_inj :
        (x y : Carrier)
        → f.is_nan x ≡ false
        → f.is_nan y ≡ false
        → fmt_f32 f x ≡ fmt_f32 f y
        → SameNumber x y
    unfolding fmt_f32
    fmt_f32_inj x y h k e =
        let zero_refl = ord.le_refl (f.of_ℕ 0) zero_ok in
        ground (
          arith,
          printable.parse-display x h,
          printable.parse-display y k,
          printable.parse_zero,
          ord.le_antisymm (f.of_ℕ 0) (f.of_ℕ 0) zero_refl zero_refl,
        )

    module _ (cr : Crypto) (laws : HexLaws cr) where
      -- Two images with one canonical form, whose scroll positions are numbers, have the same
      -- content: it loses nothing but the declared id, and no two fields can run into one another,
      -- whatever their text. Floats and hex print as they should (`Printable`, `HexLaws`).
      pub canonical_bytes_inj :
          (a b : SessionImage Carrier)
          → f.is_nan a.layout.scroll_pos ≡ false
          → f.is_nan b.layout.scroll_pos ≡ false
          → canonical_bytes f cr a ≡ canonical_bytes f cr b
          → SameContent a b
      unfolding canonical_bytes write_doc_with_id write_id
      canonical_bytes_inj a b h k e =
          let (c, e1) =
            attr_cut a.created b.created
              (skip (codes "<session xmlns=\"https://simulboot.dev/session/v1\" created=\"") e) in
          let (v, e2) =
            number_cut a.schema_version b.schema_version (skip (codes " schema-version=\"") e1) in
          let (s, e3) =
            surfaces_cut cr laws a.surfaces b.surfaces (skip (codes "><surfaces>") e2) in
          let (n, e4) =
            cut b'"' (fmt_f32 f a.layout.scroll_pos) (fmt_f32 f b.layout.scroll_pos)
              (fmt_f32-Lacks _) (fmt_f32-Lacks _)
              (skip (codes "<layout><strip scroll-pos=\"") e3) in
          let o = focus_cut cr laws a.layout.focus b.layout.focus _ _ (skip (codes "/>") e4) in
          record {
            created = c;
            schema_version = v;
            surfaces = s;
            scroll_pos = fmt_f32_inj _ _ h k n;
            focus = o;
          }
