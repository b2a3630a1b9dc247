-- ===== src/Client/Clock/Calendar.antt =====
-- simulboot-client/src/session/mod.rs: the dates of `format_epoch_utc` against the Gregorian calendar.
use simulboot.Base.{
  ℕ, zero, suc, ◌+◌, ◌*◌, ◌/◌, ◌%◌, ◌<◌, ◌≡◌, refl, sym, ap, ◌∙◌, ◌≢◌, inl, inr, Bool, true, false,
  not, ◌&&◌, ◌||◌, arith, ltb, leb, ◌==◌, if◌then◌else◌, Bool-cases,
}
use native.Mathlib.Decide.{dec_lt}
use simulboot.Client.Clock.{Civil, civil_from_days, month_day, year_of_era}
use simulboot.Client.Clock.Years.{start_of, Falls, falls, Falls-days}

unfoldable pub is_leap : ℕ → Bool
is_leap y = y % 4 == 0 && (not (y % 100 == 0) || y % 400 == 0)

unfoldable pub days_in_month : ℕ → ℕ → ℕ
days_in_month y m =
    if m == 2
    then (if is_leap y then 29 else 28)
    else if m == 4 || m == 6 || m == 9 || m == 11
    then 30
    else 31

-- The day after.
unfoldable pub next_day : Civil → Civil
next_day c =
    if ltb c.day (days_in_month c.year c.month)
    then record c { day = c.day + 1 }
    else if c.month == 12
    then record { year = c.year + 1; month = 1; day = 1 }
    else record { year = c.year; month = c.month + 1; day = 1 }

-- The date of a day of a year that begins in March of `y`.
unfoldable pub date_of : ℕ → ℕ → Civil
date_of y doy = record {
  year = if leb (month_day doy).0 2 then y + 1 else y;
  month = (month_day doy).0;
  day = (month_day doy).1;
}

leap_length :
    (y era : ℕ) → start_of (y + 1) ≡ start_of y + (if is_leap (y + era * 400 + 1) then 366 else 365)
unfolding start_of is_leap
leap_length y era = ground arith

-- The length of a month of a year without leap day.
plain_length : ℕ → ℕ
plain_length m = if m == 2 then 28 else if m == 4 || m == 6 || m == 9 || m == 11 then 30 else 31

same_month :
    (doy : ℕ)
    → doy < 364
    → ltb (month_day doy).1 (plain_length (month_day doy).0) ≡ true
    → (5 * (doy + 1) + 2) / 153 ≡ (5 * doy + 2) / 153
unfolding month_day plain_length
same_month doy h inside = ground arith

next_month :
    (doy : ℕ)
    → doy < 364
    → ltb (month_day doy).1 (plain_length (month_day doy).0) ≡ false
    → (5 * (doy + 1) + 2) / 153 ≡ (5 * doy + 2) / 153 + 1
unfolding month_day plain_length
next_month doy h last = ground arith

month_goes :
    (doy : ℕ)
    → doy < 364
    → ltb (month_day doy).1 (plain_length (month_day doy).0) ≡ true
    → ((month_day (doy + 1)).0 ≡ (month_day doy).0)
      × ((month_day (doy + 1)).1 ≡ (month_day doy).1 + 1)
month_goes doy h inside =
    let same = same_month doy h inside in
    (unfold month_day in rw same refl, unfold month_day in omega arith)

month_ends :
    (doy : ℕ)
    → doy < 364
    → ltb (month_day doy).1 (plain_length (month_day doy).0) ≡ false
    → ((month_day (doy + 1)).0 ≡ (if (month_day doy).0 == 12 then 1 else (month_day doy).0 + 1))
      × ((month_day (doy + 1)).1 ≡ 1)
month_ends doy h last =
    let next = next_month doy h last in
    (unfold month_day in ground arith, unfold month_day plain_length in ground arith)

-- Short of the end of February, the months are those of a year without leap day.
before_march :
    (y doy : ℕ)
    → doy < 364
    → ltb (month_day doy).1 (days_in_month y (month_day doy).0)
      ≡ ltb (month_day doy).1 (plain_length (month_day doy).0)
unfolding month_day days_in_month plain_length
before_march y doy h = ground arith

not_february :
    (doy : ℕ)
    → doy < 364
    → ltb (month_day doy).1 (plain_length (month_day doy).0) ≡ false
    → (month_day doy).0 ≢ 2
unfolding month_day plain_length
not_february doy h last = λ same. (ground arith)

month_turns :
    (y m : ℕ)
    → m ≢ 2
    → ◌≡◌ {A = Civil}
        (record {
          year = if leb (if m == 12 then 1 else m + 1) 2 then y + 1 else y;
          month = if m == 12 then 1 else m + 1;
          day = 1;
        })
        (if m == 12
          then record { year = (if leb m 2 then y + 1 else y) + 1; month = 1; day = 1 }
          else record { year = if leb m 2 then y + 1 else y; month = m + 1; day = 1 })
month_turns y m h = ground arith

within_year : (y doy : ℕ) → doy < 364 → date_of y (doy + 1) ≡ next_day (date_of y doy)
unfolding date_of next_day
within_year y doy h = elim (Bool-cases (ltb (month_day doy).1 (plain_length (month_day doy).0))) [
  | inl inside ↦
      (let (m, d) = month_goes doy h inside in
        rw (before_march _ doy h) (rw inside (rw m (rw d refl))))
  | inr last ↦
      (let (m, d) = month_ends doy h last in
        rw (before_march _ doy h)
          (rw last (rw m (rw d (month_turns y (month_day doy).0 (not_february doy h last))))))
]

-- Around the end of February.
leap_day : (y : ℕ) → is_leap (y + 1) ≡ true → date_of y 365 ≡ next_day (date_of y 364)
unfolding date_of next_day month_day days_in_month
leap_day y leap = rw leap refl

leap_year_ends : (y : ℕ) → is_leap (y + 1) ≡ true → date_of (y + 1) 0 ≡ next_day (date_of y 365)
unfolding date_of next_day month_day days_in_month
leap_year_ends y leap = rw leap refl

common_year_ends : (y : ℕ) → is_leap (y + 1) ≡ false → date_of (y + 1) 0 ≡ next_day (date_of y 364)
unfolding date_of next_day month_day days_in_month
common_year_ends y common = rw common refl

civil-Falls :
    (days era y doy : ℕ) → Falls days era y doy → civil_from_days days ≡ date_of (y + era * 400) doy
unfolding civil_from_days date_of
civil-Falls days era y doy h =
    let (doe, e, d, yoe, day) = Falls-days days era y doy h in rw e (rw d (rw yoe (rw day refl)))

same_year :
    (days era y doy : ℕ)
    → Falls days era y doy
    → start_of y + (doy + 1) < start_of (y + 1)
    → civil_from_days (days + 1) ≡ date_of (y + era * 400) (doy + 1)
same_year days era y doy (low, sum, inside) more =
    civil-Falls (days + 1) era y (doy + 1) (low, omega arith, more)

-- The first day of the next year, of the same era or of the next.
turns :
    (days era y doy : ℕ)
    → Falls days era y doy
    → start_of y + (doy + 1) ≡ start_of (y + 1)
    → civil_from_days (days + 1) ≡ date_of (y + era * 400 + 1) 0
unfolding start_of
turns days era y doy (low, sum, inside) last = elim (dec_lt y 399) [
  | yes less ↦
      civil-Falls (days + 1) era (y + 1) 0 (omega arith, omega arith, omega arith)
      ∙ ap (λ n. date_of n 0) (omega arith)
  | no not_less ↦
      civil-Falls (days + 1) (era + 1) 0 0 (omega arith, omega arith, omega arith)
      ∙ ap (λ n. date_of n 0) (omega arith)
]

civil-suc :
    (days era y doy : ℕ)
    → Falls days era y doy
    → civil_from_days (days + 1) ≡ next_day (date_of (y + era * 400) doy)
civil-suc days era y doy h = elim (dec_lt doy 364) [
  | yes less ↦
      same_year days era y doy h (ground (arith, leap_length y era))
      ∙ within_year (y + era * 400) doy less
  | no not_less ↦ elim (Bool-cases (is_leap (y + era * 400 + 1))) [
    | inl leap ↦
        (let long : start_of (y + 1) ≡ start_of y + 366 = leap_length y era ∙ rw leap refl in
          elim (dec_lt doy 365) [
            | yes less ↦
                (let day : doy ≡ 364 = omega arith in
                  same_year days era y doy h (omega arith) ∙ rw day (leap_day (y + era * 400) leap))
            | no last ↦
                (let day : doy ≡ 365 = omega (arith, h.2) in
                  turns days era y doy h (omega arith)
                  ∙ rw day (leap_year_ends (y + era * 400) leap))
          ])
    | inr common ↦
        (let short : start_of (y + 1) ≡ start_of y + 365 = leap_length y era ∙ rw common refl in
          let day : doy ≡ 364 = omega (arith, h.2) in
          turns days era y doy h (omega arith) ∙ rw day (common_year_ends (y + era * 400) common))
  ]
]

-- The calendar, counted on from the first of January 1970.
unfoldable pub calendar : ℕ → Civil
calendar zero = record { year = 1970; month = 1; day = 1 }
calendar (suc n) = next_day (calendar n)

-- `format_epoch_utc` counts days as the Gregorian calendar does: day 0 is the first of January 1970,
-- and each next day has the next date.
pub civil_from_days-calendar : (days : ℕ) → civil_from_days days ≡ calendar days
unfolding calendar
civil_from_days-calendar zero = unfold civil_from_days month_day year_of_era in refl
civil_from_days-calendar (suc days) =
    let (era, y, doy, h) = falls days in
    ap civil_from_days (omega arith)
    ∙ civil-suc days era y doy h
    ∙ ap next_day (sym (civil-Falls days era y doy h) ∙ civil_from_days-calendar days)
