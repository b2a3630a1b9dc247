-- ===== src/Base/Decimal.antt =====
-- The standard library's decimal printing and parsing of unsigned integers (`{}`, `to_string`,
-- `str::parse`). `limit` is the greatest value of the integer type.
use Prim.Native.Nat.{ℕ, zero, suc, ◌+◌, ◌-◌, ◌*◌, ◌/◌, ◌%◌, ◌^◌, ◌≤◌, ◌<◌}
use mathlib.Core.Path.{◌≡◌, refl, sym, ap, ◌∙◌}
use mathlib.Core.Logic.{inl, inr}
use mathlib.Core.Bool.{Bool, ◌&&◌}
use mathlib.Core.List.{[], ◌∷◌}
use mathlib.Core.Option.{Option, none, some}
use native.Mathlib.Omega.{arith}
use simulboot.Base.Tests.{ltb, leb, ◌==◌, Bool-cases, if◌then◌else◌}
use simulboot.Base.Lists.{Bytes, All}

abbrev pub u16_max : ℕ
u16_max = 2 ^ 16 - 1

abbrev pub u32_max : ℕ
u32_max = 2 ^ 32 - 1

abbrev pub u64_max : ℕ
u64_max = 2 ^ 64 - 1

-- The digits of `n` in front of `acc`; the fuel is more than `n`.
digits_onto : ℕ → ℕ → Bytes → Bytes
digits_onto zero n acc = acc
digits_onto (suc fuel) n acc =
    let rest = digits_onto fuel (n / 10) ((b'0' + n % 10) ∷ acc) in
    if ltb n 10 then (b'0' + n) ∷ acc else rest

unfoldable pub to_string : ℕ → Bytes
unfolding digits_onto
to_string n = digits_onto (suc n) n []

unfoldable pub is_digit : ℕ → Bool
is_digit c = leb b'0' c && leb c b'9'

scan : ℕ → Bytes → ℕ → Option ℕ
unfolding is_digit
scan limit [] acc = some acc
scan limit (c ∷ s) acc =
    if is_digit c
    then (if leb (acc * 10 + (c - b'0')) limit then scan limit s (acc * 10 + (c - b'0')) else none)
    else none

-- A sign `+` is taken, and no digit at all is refused.
unfoldable pub parse_uint : ℕ → Bytes → Option ℕ
unfolding scan
parse_uint limit [] = none
parse_uint limit (c ∷ []) = scan limit (c ∷ []) 0
parse_uint limit (c ∷ d ∷ s) = if c == b'+' then scan limit (d ∷ s) 0 else scan limit (c ∷ d ∷ s) 0

scan_digit :
    (limit m d n : ℕ) (acc : Bytes)
    → d < 10
    → m * 10 + d ≡ n
    → n ≤ limit
    → scan limit ((b'0' + d) ∷ acc) m ≡ scan limit acc n
unfolding scan
scan_digit limit m d n acc h e k = ground arith

scan-digits_onto :
    (limit fuel n : ℕ) (acc : Bytes)
    → n < fuel
    → n ≤ limit
    → scan limit (digits_onto fuel n acc) 0 ≡ scan limit acc n
unfolding digits_onto
scan-digits_onto limit zero n acc h k = absurd (omega arith)
scan-digits_onto limit (suc fuel) n acc h k = ground (
  arith,
  scan_digit limit 0 n n acc,
  scan_digit limit (n / 10) (n % 10) n acc,
  scan-digits_onto limit fuel (n / 10) ((b'0' + n % 10) ∷ acc),
)

abbrev pub IsDigit : ℕ → Type 0
IsDigit c = (b'0' ≤ c) × (c ≤ b'9')

digits_onto-IsDigit :
    (fuel n : ℕ) (acc : Bytes) → All IsDigit acc → All IsDigit (digits_onto fuel n acc)
unfolding digits_onto
digits_onto-IsDigit zero n acc h = h
digits_onto-IsDigit (suc fuel) n acc h =
    ground (arith, digits_onto-IsDigit fuel (n / 10) ((b'0' + n % 10) ∷ acc))

-- A printed number is made of digits.
pub to_string-IsDigit : (n : ℕ) → All IsDigit (to_string n)
unfolding to_string
to_string-IsDigit n = digits_onto-IsDigit (suc n) n [] tt

digits_onto-cons :
    (fuel n c : ℕ) (acc : Bytes) → (d : ℕ) × (s : Bytes) × (digits_onto fuel n (c ∷ acc) ≡ d ∷ s)
unfolding digits_onto
digits_onto-cons zero n c acc = (c, acc, refl)
digits_onto-cons (suc fuel) n c acc = elim (Bool-cases (ltb n 10)) [
  | inl last ↦ (b'0' + n, c ∷ acc, rw last)
  | inr more ↦
      let (d, s, e) = digits_onto-cons fuel (n / 10) (b'0' + n % 10) (c ∷ acc) in (d, s, rw more e)
]

-- There is at least one.
pub to_string-cons : (n : ℕ) → (d : ℕ) × (s : Bytes) × (to_string n ≡ d ∷ s) × IsDigit d
unfolding to_string digits_onto
to_string-cons n = elim (Bool-cases (ltb n 10)) [
  | inl last ↦ (b'0' + n, [], rw last, ground arith)
  | inr more ↦
      let (d, s, e) = digits_onto-cons n (n / 10) (b'0' + n % 10) [] in
      let all : All IsDigit (d ∷ s) =
        rw e at (digits_onto-IsDigit n (n / 10) ((b'0' + n % 10) ∷ []) (omega arith)) in
      (d, s, rw more e, all.0)
]

parse_uint-scan :
    (limit c : ℕ) (s : Bytes) → IsDigit c → parse_uint limit (c ∷ s) ≡ scan limit (c ∷ s) 0
unfolding parse_uint
parse_uint-scan limit c [] h = refl
parse_uint-scan limit c (d ∷ s) h = ground arith

-- A number that fits the type is read back from its print.
pub parse_uint-to_string : (limit n : ℕ) → n ≤ limit → parse_uint limit (to_string n) ≡ some n
parse_uint-to_string limit n h =
    let (d, s, e, digit) = to_string-cons n in
    ap (parse_uint limit) e
    ∙ parse_uint-scan limit d s digit
    ∙ ap (λ t. scan limit t 0) (sym e)
    ∙ unfold to_string scan in scan-digits_onto limit (suc n) n [] (omega arith) h

-- Two numbers with one print are equal.
pub to_string_inj : (m n : ℕ) → to_string m ≡ to_string n → m ≡ n
to_string_inj m n e = cc (
  parse_uint-to_string (m + n) m (omega arith),
  parse_uint-to_string (m + n) n (omega arith),
  ap (parse_uint (m + n)) e,
)

prints : (to_string 0 ≡ b'0' ∷ []) × (to_string 1920 ≡ b'1' ∷ b'9' ∷ b'2' ∷ b'0' ∷ [])
unfolding to_string
prints = (refl, refl)
