-- ===== src/Client/Clock.antt =====
-- simulboot-client/src/session/mod.rs: `format_epoch_utc`. A `u64` of seconds is less than 2^48 days, so
-- nothing overflows an `i64`, and no day number is negative.
pub mod Years
pub mod Calendar
use simulboot.Base.{
  ℕ, zero, suc, ◌+◌, ◌-◌, ◌*◌, ◌/◌, ◌%◌, Option, none, some, [], ◌∷◌, ◌++◌, ltb, leb, if◌then◌else◌,
  Bytes, codes, length,
}
use simulboot.Base.Decimal.{to_string}

pub record Civil : Type 0 where
  pub year : ℕ
  pub month : ℕ
  pub day : ℕ

unfoldable pub year_of_era : ℕ → ℕ
year_of_era doe = (doe - doe / 1460 + doe / 36524 - doe / 146096) / 365

-- The month and the day, of a year that begins in March.
unfoldable pub month_day : ℕ → ℕ × ℕ
month_day doy =
    let mp = (5 * doy + 2) / 153 in
    let d = doy - (153 * mp + 2) / 5 + 1 in let m = if ltb mp 10 then mp + 3 else mp - 9 in (m, d)

-- The date of a day since 1970-01-01.
unfoldable pub civil_from_days : ℕ → Civil
civil_from_days days =
    let z = days + 719468 in
    let era = z / 146097 in
    let doe = z - era * 146097 in
    let yoe = year_of_era doe in
    let y = yoe + era * 400 in
    let doy = doe - (365 * yoe + yoe / 4 - yoe / 100) in
    let (m, d) = month_day doy in record { year = if leb m 2 then y + 1 else y; month = m; day = d }

-- `{v:0width}`
unfoldable pub pad : ℕ → ℕ → Bytes
pad width v = zeros (width - length (to_string v)) ++ to_string v
  where
    zeros : ℕ → Bytes
    zeros zero = []
    zeros (suc n) = b'0' ∷ zeros n

unfoldable pub format_epoch_utc : ℕ → Bytes
format_epoch_utc secs =
    let date = civil_from_days (secs / 86400) in
    let rem = secs % 86400 in
    pad 4 date.year
    ++ (codes "-"
        ++ (pad 2 date.month
            ++ (codes "-"
                ++ (pad 2 date.day
                    ++ (codes "T"
                        ++ (pad 2 (rem / 3600)
                            ++ (codes ":"
                                ++ (pad 2 (rem % 3600 / 60)
                                    ++ (codes ":" ++ (pad 2 (rem % 60) ++ codes "Z"))))))))))

-- `now_rfc3339`, on the seconds since the epoch, if the clock is not before it
unfoldable pub now_rfc3339 : Option ℕ → Bytes
now_rfc3339 none = format_epoch_utc 0
now_rfc3339 (some secs) = format_epoch_utc secs
