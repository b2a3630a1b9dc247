-- ===== src/Examples/Numbers.antt =====
-- Two types that meet the laws of floating-point numbers: the natural numbers, and three levels with
-- a print.
use simulboot.Base.{
  ℕ, ◌+◌, ◌-◌, ◌/◌, ◌≡◌, refl, true, false, Option, none, some, [], arith, ltb, leb, ◌==◌,
  if◌then◌else◌, Bytes, codes, bytes_eq,
}
use simulboot.Base.Text.{trim}
use simulboot.Float.{Float, Ordered, Linear, Printable}

abbrev pub naturals : Float
naturals = record {
  Carrier = ℕ;
  of_ℕ = λ n. n;
  le = leb;
  lt = ltb;
  eq = ◌==◌;
  is_nan = λ _. false;
  add = ◌+◌;
  sub = ◌-◌;
  div = ◌/◌;
  max = λ a b. if ltb a b then b else a;
  display = λ _. [];
  parse = λ _. none;
}

naturals_trans : (x y z : ℕ) → leb x y ≡ true → leb y z ≡ true → leb x z ≡ true
naturals_trans x y z h k = ground arith

pub naturals-Ordered : Ordered naturals
naturals-Ordered = record {
  le_refl = λ x _. (ground arith);
  le_trans = naturals_trans;
  le_antisymm = λ x y h k. (ground arith);
}

pub naturals-Linear : Linear naturals
naturals-Linear = record {
  le_of_not_lt = λ x y _ _ h. (ground arith);
  not_lt_of_le = λ x y h. (ground arith);
  max-is_nan = λ x y _. refl;
  le-max = λ x y _. (ground arith);
  le_lt_trans = λ x y z h k. (ground arith);
}

pub data Level : Type 0 where
  low middle high : Level

abbrev rank : Level → ℕ
rank low = 0
rank middle = 1
rank high = 2

abbrev level : ℕ → Level
level n = if n == 0 then low else if n == 1 then middle else high

abbrev print : Level → Bytes
print low = codes "0"
print middle = codes "1"
print high = codes "2"

abbrev read : Bytes → Option Level
read s =
    if bytes_eq s (codes "0")
    then some low
    else if bytes_eq s (codes "1")
    then some middle
    else if bytes_eq s (codes "2")
    then some high
    else none

abbrev pub levels : Float
levels = record {
  Carrier = Level;
  of_ℕ = level;
  le = λ a b. leb (rank a) (rank b);
  lt = λ a b. ltb (rank a) (rank b);
  eq = λ a b. rank a == rank b;
  is_nan = λ _. false;
  add = λ a b. level (rank a + rank b);
  sub = λ a b. level (rank a - rank b);
  div = λ a b. level (rank a / rank b);
  max = λ a b. if ltb (rank a) (rank b) then b else a;
  display = print;
  parse = read;
}

pub levels-Ordered : Ordered levels
levels-Ordered = record {
  le_refl = λ x _. (ground arith);
  le_trans = λ x y z h k. (ground arith);
  le_antisymm = λ x y h k. (ground arith);
}

print_parse : (x : Level) → read (print x) ≡ some x
unfolding bytes_eq
print_parse low = refl
print_parse middle = refl
print_parse high = refl

trim-print : (x : Level) → trim (print x) ≡ print x
unfolding trim
trim-print low = refl
trim-print middle = refl
trim-print high = refl

pub levels-Printable : Printable levels
levels-Printable = record {
  parse-display = λ x _. print_parse x;
  parse_zero = print_parse low;
  trim-display = trim-print;
  display-Lacks = λ x. (ground arith);
  display-plain = λ x. (ground arith);
  display-ne = λ x. (ground arith);
}

pub levels-Linear : Linear levels
levels-Linear = record {
  le_of_not_lt = λ x y _ _ h. (ground arith);
  not_lt_of_le = λ x y h. (ground arith);
  max-is_nan = λ x y _. refl;
  le-max = λ x y _. (ground arith);
  le_lt_trans = λ x y z h k. (ground arith);
}
