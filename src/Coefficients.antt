-- ===== src/Coefficients.antt =====
-- simulboot-common/src/coefficients.rs: the grades of a v1 surface and their order. `f` is `f64`.
-- The order of bounds is characterised in Bounds, the order of coefficients in Order, the spellings
-- of the labels in Spelling.
pub mod Bounds
pub mod Order
pub mod Top
pub mod Spelling
mod Examples
use simulboot.Base.{
  ℕ, Bool, true, false, not, ◌&&◌, ◌||◌, Option, none, some, List, [], ◌∷◌, ltb, leb, ◌==◌,
  if◌then◌else◌, Bytes, codes, length, bytes_eq,
}
use simulboot.Base.Decimal.{to_string, parse_uint, u64_max}
use simulboot.Base.Text.{trim}
use simulboot.Float.{Float}

pub data Bound (F : Type 0) : Type 0 where
  neg_inf : Bound F
  finite : F → Bound F
  pos_inf : Bound F

pub record Interval (F : Type 0) : Type 0 where
  pub lo : Bound F
  pub hi : Bound F

pub data Confidentiality : Type 0 where
  secret restricted public : Confidentiality

pub data Integrity : Type 0 where
  trusted endorsed untrusted : Integrity

-- The count is a `u64`.
pub data Linearity : Type 0 where
  finite_uses : ℕ → Linearity
  omega_uses : Linearity

pub record Coefficient (F : Type 0) : Type 0 where
  pub timing : List (Interval F)
  pub confidentiality : Confidentiality
  pub integrity : Integrity
  pub linearity : Linearity

-- The tag of a comparison key, an `i8` that is -1, 0 or 1.
pub data Tag : Type 0 where
  minus_one zero_tag one : Tag

-- `<` and `!=` on tags, by their numbers shifted up by one.
abbrev tag_rank : Tag → ℕ
tag_rank minus_one = 0
tag_rank zero_tag = 1
tag_rank one = 2

unfoldable pub confidentiality_rank : Confidentiality → ℕ
confidentiality_rank secret = 0
confidentiality_rank restricted = 1
confidentiality_rank public = 2

unfoldable pub integrity_rank : Integrity → ℕ
integrity_rank trusted = 0
integrity_rank endorsed = 1
integrity_rank untrusted = 2

unfoldable pub linearity_le : Linearity → Linearity → Bool
linearity_le _ omega_uses = true
linearity_le omega_uses (finite_uses b) = false
linearity_le (finite_uses a) (finite_uses b) = leb a b

-- The derived `PartialEq` of the labels.
abbrev pub confidentiality_eq : Confidentiality → Confidentiality → Bool
unfolding confidentiality_rank
confidentiality_eq a b = confidentiality_rank a == confidentiality_rank b

abbrev pub integrity_eq : Integrity → Integrity → Bool
unfolding integrity_rank
integrity_eq a b = integrity_rank a == integrity_rank b

abbrev pub linearity_eq : Linearity → Linearity → Bool
linearity_eq omega_uses omega_uses = true
linearity_eq (finite_uses a) (finite_uses b) = a == b
linearity_eq _ _ = false

-- `iter().zip(..).all(..)`
abbrev pub all_zip {ℓ} : {A : Type ℓ} → (A → A → Bool) → List A → List A → Bool
all_zip p [] _ = true
all_zip p (x ∷ xs) [] = true
all_zip p (x ∷ xs) (y ∷ ys) = p x y && all_zip p xs ys

module _ (f : Float) where
  open f use {Carrier, of_ℕ, le, eq}

  key : Bound Carrier → Tag × Carrier
  key neg_inf = (minus_one, of_ℕ 0)
  key (finite x) = (zero_tag, x)
  key pos_inf = (one, of_ℕ 0)

  unfoldable pub bound_le : Bound Carrier → Bound Carrier → Bool
  unfolding key
  bound_le self other =
      let (ta, va) = key self in
      let (tb, vb) = key other in
      if not (tag_rank ta == tag_rank tb) then ltb (tag_rank ta) (tag_rank tb) else le va vb

  -- The derived `PartialEq` of bounds, intervals and coefficients.
  unfoldable pub bound_eq : Bound Carrier → Bound Carrier → Bool
  bound_eq neg_inf neg_inf = true
  bound_eq (finite x) (finite y) = eq x y
  bound_eq pos_inf pos_inf = true
  bound_eq _ _ = false

  unfoldable pub interval_eq : Interval Carrier → Interval Carrier → Bool
  interval_eq a b = bound_eq a.lo b.lo && bound_eq a.hi b.hi

  unfoldable pub coefficient_eq : Coefficient Carrier → Coefficient Carrier → Bool
  coefficient_eq a b =
      (length a.timing == length b.timing && all_zip interval_eq a.timing b.timing)
      && confidentiality_eq a.confidentiality b.confidentiality
      && integrity_eq a.integrity b.integrity
      && linearity_eq a.linearity b.linearity

  abbrev pub unbounded : Interval Carrier
  unbounded = record { lo = neg_inf; hi = pos_inf }

  unfoldable pub contained_in : Interval Carrier → Interval Carrier → Bool
  contained_in self other = bound_le other.lo self.lo && bound_le self.hi other.hi

  abbrev pub top : Coefficient Carrier
  top = record {
    timing = unbounded ∷ [];
    confidentiality = public;
    integrity = untrusted;
    linearity = omega_uses;
  }

  -- `self.timing.len() == 1 && self.timing[0] == Interval::unbounded()`
  is_unbounded : List (Interval Carrier) → Bool
  is_unbounded (iv ∷ []) = interval_eq iv unbounded
  is_unbounded _ = false

  unfoldable pub is_top : Coefficient Carrier → Bool
  unfolding is_unbounded
  is_top self =
      is_unbounded self.timing
      && confidentiality_eq self.confidentiality public
      && integrity_eq self.integrity untrusted
      && linearity_eq self.linearity omega_uses

  unfoldable pub coefficient_leq : Coefficient Carrier → Coefficient Carrier → Bool
  coefficient_leq self other =
      let timing_le =
        length self.timing == length other.timing
        && all_zip contained_in self.timing other.timing in
      timing_le
      && leb (confidentiality_rank self.confidentiality)
          (confidentiality_rank other.confidentiality)
      && leb (integrity_rank self.integrity) (integrity_rank other.integrity)
      && linearity_le self.linearity other.linearity

  -- `fmt_f64`: -0.0 is written as 0.
  unfoldable pub fmt_f64 : Carrier → Bytes
  fmt_f64 v = if eq v (of_ℕ 0) then codes "0" else f.display v

  unfoldable pub bound_to_str : Bound Carrier → Bytes
  bound_to_str neg_inf = codes "-INF"
  bound_to_str pos_inf = codes "+INF"
  bound_to_str (finite v) = fmt_f64 v

  -- `parse::<f64>().ok().filter(|v| !v.is_nan()).map(Bound::Finite)`
  finite_of : Option Carrier → Option (Bound Carrier)
  finite_of none = none
  finite_of (some v) = if f.is_nan v then none else some (finite v)

  unfoldable pub bound_parse : Bytes → Option (Bound Carrier)
  unfolding finite_of
  bound_parse s =
      let t = trim s in
      if bytes_eq t (codes "-INF")
      then some neg_inf
      else if bytes_eq t (codes "+INF") || bytes_eq t (codes "INF")
      then some pos_inf
      else finite_of (f.parse t)

unfoldable pub confidentiality_to_str : Confidentiality → Bytes
confidentiality_to_str secret = codes "secret"
confidentiality_to_str restricted = codes "restricted"
confidentiality_to_str public = codes "public"

unfoldable pub confidentiality_parse : Bytes → Option Confidentiality
confidentiality_parse s =
    if bytes_eq s (codes "secret")
    then some secret
    else if bytes_eq s (codes "restricted")
    then some restricted
    else if bytes_eq s (codes "public")
    then some public
    else none

unfoldable pub integrity_to_str : Integrity → Bytes
integrity_to_str trusted = codes "trusted"
integrity_to_str endorsed = codes "endorsed"
integrity_to_str untrusted = codes "untrusted"

unfoldable pub integrity_parse : Bytes → Option Integrity
integrity_parse s =
    if bytes_eq s (codes "trusted")
    then some trusted
    else if bytes_eq s (codes "endorsed")
    then some endorsed
    else if bytes_eq s (codes "untrusted")
    then some untrusted
    else none

unfoldable pub linearity_to_str : Linearity → Bytes
linearity_to_str omega_uses = codes "omega"
linearity_to_str (finite_uses n) = to_string n

-- `parse::<u64>().ok().map(Linearity::Finite)`
finite_uses_of : Option ℕ → Option Linearity
finite_uses_of none = none
finite_uses_of (some n) = some (finite_uses n)

unfoldable pub linearity_parse : Bytes → Option Linearity
unfolding finite_uses_of
linearity_parse s =
    if bytes_eq s (codes "omega") then some omega_uses else finite_uses_of (parse_uint u64_max s)
