-- ===== src/Float.antt =====
-- The floating-point type that the code computes with (`f32` or `f64`): its operations, and the
-- laws of IEEE 754 and of the standard library that theorems take as hypotheses.
use simulboot.Base.Text.{trim}
use simulboot.Base.{Lacks, some, ◌≢◌, codes, ℕ, ◌≡◌, Bool, true, false, Option, Bytes}

pub record Float : Type 1 where
  pub Carrier : Type 0
  pub of_ℕ : ℕ → Carrier
  pub le : Carrier → Carrier → Bool
  pub lt : Carrier → Carrier → Bool
  pub eq : Carrier → Carrier → Bool
  pub is_nan : Carrier → Bool
  pub add : Carrier → Carrier → Carrier
  pub sub : Carrier → Carrier → Carrier
  pub div : Carrier → Carrier → Carrier
  -- `f32::max`
  pub max : Carrier → Carrier → Carrier
  -- `format!("{v}")`, and `str::parse` with its error dropped
  pub display : Carrier → Bytes
  pub parse : Bytes → Option Carrier

-- `<=` on numbers is a preorder, and numbers below one another are `==`.
pub record Ordered (f : Float) : Type 0 where
  pub le_refl : (x : f.Carrier) → f.is_nan x ≡ false → f.le x x ≡ true
  pub le_trans : (x y z : f.Carrier) → f.le x y ≡ true → f.le y z ≡ true → f.le x z ≡ true
  pub le_antisymm : (x y : f.Carrier) → f.le x y ≡ true → f.le y x ≡ true → f.eq x y ≡ true

-- `0.0` is a number.
abbrev pub HasZero : Float → Type 0
HasZero f = f.is_nan (f.of_ℕ 0) ≡ false

-- What `{}` and `str::parse` promise of one another: the shortest print that reads back, with no
-- white space, quotation mark or ampersand, and never one of the spellings of an unbounded endpoint.
pub record Printable (f : Float) : Type 0 where
  pub parse-display : (x : f.Carrier) → f.is_nan x ≡ false → f.parse (f.display x) ≡ some x
  pub parse_zero : f.parse (codes "0") ≡ some (f.of_ℕ 0)
  pub trim-display : (x : f.Carrier) → trim (f.display x) ≡ f.display x
  pub display-Lacks : (x : f.Carrier) → Lacks b'"' (f.display x)
  pub display-plain : (x : f.Carrier) → Lacks b'&' (f.display x)
  pub display-ne :
      (x : f.Carrier)
      → (f.display x ≢ codes "-INF") × (f.display x ≢ codes "+INF") × (f.display x ≢ codes "INF")

-- On numbers, `<` is the negation of `>=`; and `max` with a number is a number above that.
pub record Linear (f : Float) : Type 0 where
  pub le_of_not_lt :
      (x y : f.Carrier)
      → f.is_nan x ≡ false
      → f.is_nan y ≡ false
      → f.lt x y ≡ false
      → f.le y x ≡ true
  pub not_lt_of_le : (x y : f.Carrier) → f.le x y ≡ true → f.lt y x ≡ false
  pub max-is_nan : (x y : f.Carrier) → f.is_nan y ≡ false → f.is_nan (f.max x y) ≡ false
  pub le-max : (x y : f.Carrier) → f.is_nan y ≡ false → f.le y (f.max x y) ≡ true
  pub le_lt_trans : (x y z : f.Carrier) → f.le x y ≡ true → f.lt y z ≡ true → f.lt x z ≡ true
