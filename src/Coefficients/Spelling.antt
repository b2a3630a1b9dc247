-- ===== src/Coefficients/Spelling.antt =====
-- The spellings of labels, counts and bounds are read back.
use simulboot.Base.{
  ℕ, ◌≤◌, ◌≡◌, refl, ◌≢◌, ◌↔◌, inl, inr, true, false, some, arith, if◌then◌else◌, Bool-cases, Bytes,
  codes, bytes_eq, bytes_eq_iff, bytes_eq_refl,
}
use simulboot.Base.Text.{trim}
use simulboot.Base.Decimal.{to_string, to_string-cons, parse_uint-to_string, u64_max}
use simulboot.Float.{Float, Ordered, HasZero, Printable}
use simulboot.Coefficients.{
  Bound, neg_inf, finite, pos_inf, Linearity, finite_uses, omega_uses, Confidentiality, secret,
  restricted, public, Integrity, trusted, endorsed, untrusted, bound_eq, bound_to_str, bound_parse,
  fmt_f64, confidentiality_to_str, confidentiality_parse, integrity_to_str, integrity_parse,
  linearity_to_str, linearity_parse,
}
use simulboot.Coefficients.Bounds.{BoundIsNumber}

-- A confidentiality label is read from its spelling and from no other text.
pub confidentiality_parse_iff :
    (s : Bytes) (c : Confidentiality)
    → (confidentiality_parse s ≡ some c) ↔ (s ≡ confidentiality_to_str c)
unfolding confidentiality_parse confidentiality_to_str bytes_eq
confidentiality_parse_iff s c = (
  (λ h. ground (
    arith,
    bytes_eq_iff s (codes "secret"),
    bytes_eq_iff s (codes "restricted"),
    bytes_eq_iff s (codes "public"),
  )),
  λ h. rw h (read c),
)
  where
    read : (c : Confidentiality) → confidentiality_parse (confidentiality_to_str c) ≡ some c
    read secret = refl
    read restricted = refl
    read public = refl

-- An integrity label is read from its spelling and from no other text.
pub integrity_parse_iff :
    (s : Bytes) (c : Integrity) → (integrity_parse s ≡ some c) ↔ (s ≡ integrity_to_str c)
unfolding integrity_parse integrity_to_str bytes_eq
integrity_parse_iff s c = (
  (λ h. ground (
    arith,
    bytes_eq_iff s (codes "trusted"),
    bytes_eq_iff s (codes "endorsed"),
    bytes_eq_iff s (codes "untrusted"),
  )),
  λ h. rw h (read c),
)
  where
    read : (c : Integrity) → integrity_parse (integrity_to_str c) ≡ some c
    read trusted = refl
    read endorsed = refl
    read untrusted = refl

abbrev pub LinearityFits : Linearity → Type 0
LinearityFits (finite_uses n) = n ≤ u64_max
LinearityFits omega_uses = Unit

not_omega : (n : ℕ) → bytes_eq (to_string n) (codes "omega") ≡ false
unfolding bytes_eq
not_omega n = let (d, s, e, digit) = to_string-cons n in rw e (ground arith)

-- A usage count is read back from its print: `omega`, and every count that fits a `u64`.
pub linearity_parse-to_str :
    (l : Linearity) → LinearityFits l → linearity_parse (linearity_to_str l) ≡ some l
unfolding linearity_parse linearity_to_str
linearity_parse-to_str omega_uses h = rw (bytes_eq_refl (codes "omega"))
linearity_parse-to_str (finite_uses n) h = rw (not_omega n, parse_uint-to_string u64_max n h)

module _ (f : Float) where
  -- The bound that a print stands for: 0.0 for -0.0.
  unfoldable pub written_bound : Bound f.Carrier → Bound f.Carrier
  written_bound neg_inf = neg_inf
  written_bound pos_inf = pos_inf
  written_bound (finite v) = if f.eq v (f.of_ℕ 0) then finite (f.of_ℕ 0) else finite v

module _ (f : Float) (ord : Ordered f) (zero_ok : HasZero f) (printable : Printable f) where
  open f use {Carrier}

  not_spelling : (s t : Bytes) → s ≢ t → bytes_eq s t ≡ false
  not_spelling s t h = ground (arith, (bytes_eq_iff s t).0)

  bound_parse_number :
      (t : Bytes) (v : Carrier)
      → trim t ≡ t
      → (t ≢ codes "-INF") × (t ≢ codes "+INF") × (t ≢ codes "INF")
      → f.parse t ≡ some v
      → f.is_nan v ≡ false
      → bound_parse f t ≡ some (finite v)
  unfolding bound_parse
  bound_parse_number t v trimmed (a, b, c) parsed number =
      rw (trimmed, not_spelling t _ a, not_spelling t _ b, not_spelling t _ c, parsed, number)

  trim_zero : trim (codes "0") ≡ codes "0"
  unfolding trim
  trim_zero = refl

  pub bound_parse-written_bound :
      (b : Bound Carrier)
      → BoundIsNumber f b
      → bound_parse f (bound_to_str f b) ≡ some (written_bound f b)
  unfolding bound_to_str written_bound fmt_f64
  bound_parse-written_bound neg_inf h = unfold bound_parse trim bytes_eq in refl
  bound_parse-written_bound pos_inf h = unfold bound_parse trim bytes_eq in refl
  bound_parse-written_bound (finite v) h = elim (Bool-cases (f.eq v (f.of_ℕ 0))) [
    | inl same ↦ rw same (
        bound_parse_number (codes "0") (f.of_ℕ 0) trim_zero (cc, cc, cc) printable.parse_zero
          zero_ok)
    | inr other ↦ rw other (
        bound_parse_number (f.display v) v (printable.trim-display v) (printable.display-ne v)
          (printable.parse-display v h) h)
  ]

  pub bound_eq-written_bound :
      (b : Bound Carrier) → BoundIsNumber f b → bound_eq f b (written_bound f b) ≡ true
  unfolding written_bound bound_eq
  bound_eq-written_bound neg_inf h = refl
  bound_eq-written_bound pos_inf h = refl
  bound_eq-written_bound (finite v) h = elim (Bool-cases (f.eq v (f.of_ℕ 0))) [
    | inl same ↦ rw same same
    | inr other ↦ rw other (ord.le_antisymm v v (ord.le_refl v h) (ord.le_refl v h))
  ]

  -- A bound other than NaN is read back from its print as itself, one that is `==` to 0.0 (so -0.0)
  -- as 0.0; what is read is `==` to the bound. Floats compare and print as IEEE 754 and `Display` say
  -- (`Ordered`, `Printable`).
  pub bound_parse-to_str :
      (b : Bound Carrier)
      → BoundIsNumber f b
      → (bound_parse f (bound_to_str f b) ≡ some (written_bound f b))
        × (bound_eq f b (written_bound f b) ≡ true)
  bound_parse-to_str b h = (bound_parse-written_bound b h, bound_eq-written_bound b h)
