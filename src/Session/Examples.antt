-- ===== src/Session/Examples.antt =====
-- The theorems on session images at concrete images, with the hash and the numbers of Examples.
use simulboot.Base.{ℕ, zero, suc, ◌≡◌, refl, ◌↔◌, none, some, [], ◌∷◌, Bytes, codes, ok}
use simulboot.Examples.Numbers.{levels, levels-Ordered, levels-Printable, Level, middle}
use simulboot.Examples.Crates.{crates, crates-HexLaws}
use simulboot.Wire.{h265, mac_os}
use simulboot.Session.{SessionImage, SurfaceEntry}
use simulboot.Examples.Entities.{scan, unescape_laws}
use simulboot.Session.Escape.{
  escape_attr, escape_text, attr_chars, unescape-escape, escape_attr-attr_chars,
}
use simulboot.Session.Write.{canonical_bytes, compute_id, with_computed_id, write_doc_with_id}
use simulboot.Session.Write.Inj.{SameContent, canonical_bytes_inj}
use simulboot.Session.Identity.{verify, verify_iff, verify_same, verify-with_computed_id}

abbrev macos : SurfaceEntry
macos = record {
  id = 7 ∷ 9 ∷ [];
  name = codes "a\"<b";
  order = 0;
  host = record {
    address = codes "127.0.0.1:7001";
    os = mac_os;
    machine = codes "m";
    capture = codes "display:0";
  };
  codec = h265;
  width = 960;
  height = 540;
}

abbrev pub image : SessionImage Level
image = record {
  id = none;
  created = codes "2026-06-28T19:44:09Z";
  schema_version = 1;
  surfaces = macos ∷ [];
  layout = record { scroll_pos = middle; focus = some (7 ∷ 9 ∷ []) };
}

abbrev renamed : SessionImage Level
renamed = record image { id = some (codes "other") }

canonical_bytes_inj_example : SameContent levels renamed image
canonical_bytes_inj_example =
    canonical_bytes_inj levels levels-Ordered refl levels-Printable crates crates-HexLaws renamed
      image refl refl (unfold canonical_bytes write_doc_with_id in refl)

abbrev verified : SessionImage Level
verified = record image { id = some (compute_id levels crates image) }

verify_iff_example :
    (verify levels crates verified ≡ ok tt)
    ↔ (some (compute_id levels crates image) ≡ some (compute_id levels crates verified))
verify_iff_example = verify_iff levels crates verified

verified-ok : verify levels crates verified ≡ ok tt
verified-ok = rw (← verified_lem) (verify-with_computed_id levels crates image)
  where
    verified_lem : with_computed_id levels crates image ≡ verified
    verified_lem = unfold with_computed_id in refl

verify_same_example : SameContent levels verified verified
verify_same_example =
    verify_same levels crates levels-Ordered refl levels-Printable crates-HexLaws verified verified
      refl refl (λ _. refl) refl verified-ok verified-ok

verify-with_computed_id_example :
    verify levels crates (with_computed_id levels crates renamed) ≡ ok tt
verify-with_computed_id_example = verify-with_computed_id levels crates renamed

unescape-escape_example :
    (scan none (escape_attr (codes "<a&\"")) ≡ ok (codes "<a&\""))
    × (scan none (escape_text (codes "<a&\"")) ≡ ok (codes "<a&\""))
unescape-escape_example = unescape-escape (scan none) unescape_laws (codes "<a&\"")

escape_attr-attr_chars_example : escape_attr (codes "<a&lt;\"") ≡ attr_chars (codes "<a&lt;\"")
escape_attr-attr_chars_example = escape_attr-attr_chars (codes "<a&lt;\"")

abbrev zeros : ℕ → Bytes
zeros zero = []
zeros (suc n) = 0 ∷ zeros n
