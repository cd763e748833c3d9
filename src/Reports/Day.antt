-- ===== src/Reports/Day.antt =====
-- miniapp/backend/internal/biz/report/biz.go: `shanghaiDay`, with the calendar of the package time.
use Prim.Native.String.{◌++◌}
use tidewise_ai.Prelude.{
  ℕ, ◌+◌, ◌-◌, ◌*◌, ◌/◌, ◌%◌, ◌≤◌, ◌<◌, ◌≡◌, refl, String, ltb, leb, if◌then◌else◌, arith,
}
use tidewise_ai.Prelude.Decimal.{digit}
use tidewise_ai.Account.{Time}

abbrev pub hour : ℕ
hour = 3_600_000_000_000

abbrev pub day : ℕ
day = 86_400_000_000_000

-- Digits in front of which zeros fill the width.
abbrev two_digits : ℕ → String
two_digits n = digit (n / 10 % 10) ++ digit (n % 10)

abbrev four_digits : ℕ → String
four_digits n = two_digits (n / 100) ++ two_digits (n % 100)

-- The date of a day that is counted from 0001-01-01, by way of years that begin in March: the day of
-- the era of 400 years, the year of the era, the day of the year.
abbrev year_of_era : ℕ → ℕ
year_of_era doe = (doe - doe / 1460 + doe / 36524 - doe / 146096) / 365

abbrev day_of_year : ℕ → ℕ → ℕ
day_of_year doe yoe = doe - (365 * yoe + yoe / 4 - yoe / 100)

abbrev month_text : ℕ → ℕ → ℕ → String
month_text year mp doy =
    let month = if ltb mp 10 then mp + 3 else mp - 9 in
    four_digits (if leb month 2 then year + 1 else year)
    ++ "-"
    ++ two_digits month
    ++ "-"
    ++ two_digits (doy - (153 * mp + 2) / 5 + 1)

abbrev in_era : ℕ → ℕ → ℕ → String
in_era era doe yoe =
    let doy = day_of_year doe yoe in month_text (yoe + era * 400) ((5 * doy + 2) / 153) doy

-- `Format("2006-01-02")`
unfoldable pub date_text : ℕ → String
date_text days = let z = days + 306 in in_era (z / 146097) (z % 146097) (year_of_era (z % 146097))

-- The day of the clock in the zone UTC+8: its start, the start of the next day, and its date. A time
-- in the first 16 hours of the year 1 would have its start before the zero time.
pub record Day : Type 0 where
  pub from : Time
  pub to : Time
  pub date : String

unfoldable pub shanghai_day : Time → Day
shanghai_day now =
    let days = (now + 8 * hour) / day in
    record { from = days * day - 8 * hour; to = days * day - 8 * hour + day; date = date_text days }

date_text_test : date_text 738_944 ≡ "2024-02-29"
unfolding date_text digit
date_text_test = refl

first_date_test : date_text 0 ≡ "0001-01-01"
unfolding date_text digit
first_date_test = refl

-- The day holds the time that it was asked for, and is 24 hours long.
pub shanghai_day-from :
    (now : Time)
    → 16 * hour ≤ now
    → ((shanghai_day now).from ≤ now)
      × (now < (shanghai_day now).to)
      × ((shanghai_day now).to ≡ (shanghai_day now).from + day)
      × (((shanghai_day now).from + 8 * hour) % day ≡ 0)
unfolding shanghai_day
shanghai_day-from now h = omega arith
