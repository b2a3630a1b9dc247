-- ===== src/Client/Clock/Years.antt =====
-- simulboot-client/src/session/mod.rs: the years of an era of 400 years.
use simulboot.Base.{ℕ, ◌+◌, ◌-◌, ◌*◌, ◌/◌, ◌%◌, ◌≤◌, ◌<◌, ◌≡◌, arith}
use simulboot.Client.Clock.{year_of_era}
use native.Mathlib.Decide.{dec_lt}

-- The first day of a year of the era, from its first of March on.
unfoldable pub start_of : ℕ → ℕ
start_of y = 365 * y + y / 4 - y / 100 + y / 400

year_of_era_le : (doe : ℕ) → doe < 146097 → year_of_era doe ≤ 399
unfolding year_of_era
year_of_era_le doe h = omega arith

-- The year of a day of the era has begun, and the next has not.
start_of-year_of_era :
    (doe : ℕ)
    → doe < 146097
    → (start_of (year_of_era doe) ≤ doe) × (doe < start_of (year_of_era doe + 1))
unfolding year_of_era start_of
start_of-year_of_era doe h = (omega arith, omega arith)

start_of_mono : (a b : ℕ) → a < b → start_of (a + 1) ≤ start_of b
unfolding start_of
start_of_mono a b h = omega arith

start_of_last : (y : ℕ) → y ≤ 399 → start_of (y + 1) ≤ 146097
unfolding start_of
start_of_last y h = omega arith

-- The code's sum: the last term is 0 in the era.
start_of_lem : (y : ℕ) → y ≤ 399 → 365 * y + y / 4 - y / 100 ≡ start_of y
unfolding start_of
start_of_lem y h = omega arith

-- A day of the era is in one year only.
year_of_era_unique :
    (doe y : ℕ) → doe < 146097 → start_of y ≤ doe → doe < start_of (y + 1) → year_of_era doe ≡ y
year_of_era_unique doe y h begun before =
    let found = start_of-year_of_era doe h in
    elim (dec_lt (year_of_era doe) y) [
      | yes less ↦ absurd (omega (arith, start_of_mono (year_of_era doe) y less))
      | no not_less ↦ elim (dec_lt y (year_of_era doe)) [
        | yes more ↦ absurd (omega (arith, start_of_mono y (year_of_era doe) more))
        | no not_more ↦ omega arith
      ]
    ]

-- Where a day is: the era, the year in it, and the day of that year, which begins in March.
abbrev pub Falls : ℕ → ℕ → ℕ → ℕ → Type 0
Falls days era y doy =
    (y ≤ 399)
    × (days + 719468 ≡ era * 146097 + (start_of y + doy))
    × (start_of y + doy < start_of (y + 1))

pub falls : (days : ℕ) → (era : ℕ) × (y : ℕ) × (doy : ℕ) × Falls days era y doy
falls days =
    let z = days + 719468 in
    let doe = z % 146097 in
    let found = start_of-year_of_era doe (omega arith) in
    (
      z / 146097,
      year_of_era doe,
      doe - start_of (year_of_era doe),
      (year_of_era_le doe (omega arith), omega arith, omega arith),
    )

-- What the code computes of such a day.
pub Falls-days :
    (days era y doy : ℕ)
    → Falls days era y doy
    → (doe : ℕ) × ((days + 719468) / 146097 ≡ era)
      × (days + 719468 - era * 146097 ≡ doe)
      × (year_of_era doe ≡ y)
      × (doe - (365 * y + y / 4 - y / 100) ≡ doy)
Falls-days days era y doy (low, sum, inside) =
    let last = start_of_last y low in
    (
      start_of y + doy,
      omega arith,
      omega arith,
      year_of_era_unique (start_of y + doy) y (omega arith) (omega arith) inside,
      omega (arith, start_of_lem y low),
    )
