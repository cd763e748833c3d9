-- ===== src/Stock/Quote.antt =====
-- `DailyQuote` and `ValidateDailyQuote` of biz/stock/biz.go.
pub mod Laws
use Prim.Native.Char.{code}
use tidewise_ai.Prelude.{
  ℕ, zero, suc, ◌+◌, ◌-◌, ◌*◌, ◌%◌, ◌≡◌, refl, String, Bool, true, false, ◌&&◌, ◌||◌, not, Option,
  none, some, Result, ok, err, ◌>>=◌, ◌>>◌, reject_if, ltb, leb, ◌==◌, str_eq, if◌then◌else◌,
}
use tidewise_ai.Stock.{Error, invalid}
use tidewise_ai.Stock.Decimal.{
  is_digit, canonical_quote_decimal, Comparison, less, equal, greater, compare_quote_decimal,
}

pub record DailyQuote : Type 0 where
  pub id : String
  pub stock_id : String
  pub date : String
  pub open_price : Option String
  pub high : Option String
  pub low : Option String
  pub close : String
  pub volume : String
  pub turnover : Option String
  pub change_pct : Option String
  pub status : String

abbrev pub quote_observed : String
quote_observed = "observed"

abbrev pub quote_placeholder : String
quote_placeholder = "placeholder"

-- n digits at the head of a text, as a number, and the rest.
unfoldable pub read_digits : ℕ → ℕ → String → Option (ℕ × String)
read_digits zero value s = some (value, s)
read_digits (suc n) value String.[] = none
read_digits (suc n) value (String.◌∷◌ c s) =
    let rest = read_digits n (value * 10 + (code c - b'0')) s in
    if is_digit (code c) then rest else none

abbrev behind_dash : Option (ℕ × String) → Option (ℕ × String)
behind_dash none = none
behind_dash (some (value, String.[])) = none
behind_dash (some (value, String.◌∷◌ c s)) = if code c == b'-' then some (value, s) else none

abbrev is_leap : ℕ → Bool
is_leap year = year % 4 == 0 && (not (year % 100 == 0) || year % 400 == 0)

abbrev days_in : ℕ → ℕ → ℕ
days_in month year =
    if month == 2
    then (if is_leap year then 29 else 28)
    else if month == 4 || month == 6 || month == 9 || month == 11
    then 30
    else 31

abbrev with_day : ℕ → ℕ → Option (ℕ × String) → Bool
with_day year month none = false
with_day year month (some (day, rest)) =
    str_eq rest "" && leb 1 month && leb month 12 && leb 1 day && leb day (days_in month year)

abbrev with_month : ℕ → Option (ℕ × String) → Bool
with_month year none = false
with_month year (some (month, rest)) = with_day year month (read_digits 2 0 rest)

abbrev with_year : Option (ℕ × String) → Bool
with_year none = false
with_year (some (year, rest)) = with_month year (behind_dash (read_digits 2 0 rest))

-- time.Parse("2006-01-02", s) without an error
unfoldable pub valid_date : String → Bool
unfolding read_digits
valid_date s = with_year (behind_dash (read_digits 4 0 s))

abbrev pub discard : Result Error String → Result Error (Unit {0})
discard (ok out) = ok tt
discard (err e) = err e

abbrev pub check_decimal : String → ℕ → ℕ → Result Error (Unit {0})
check_decimal value precision scale = discard (canonical_quote_decimal value precision scale)

abbrev pub check_optional : Option String → ℕ → ℕ → Result Error (Unit {0})
check_optional none precision scale = ok tt
check_optional (some value) precision scale = check_decimal value precision scale

abbrev pub is_less : Comparison → Bool
is_less less = true
is_less _ = false

abbrev pub is_greater : Comparison → Bool
is_greater greater = true
is_greater _ = false

abbrev pub is_equal : Comparison → Bool
is_equal equal = true
is_equal _ = false

-- `compareQuoteDecimal(a, b) < 0`, `> 0`, `!= 0` and `<= 0`
abbrev pub below : String → String → Bool
below a b = is_less (compare_quote_decimal a b)

abbrev pub above : String → String → Bool
above a b = is_greater (compare_quote_decimal a b)

abbrev pub differs : String → String → Bool
differs a b = not (is_equal (compare_quote_decimal a b))

abbrev pub negative_rate : Option String → Bool
negative_rate none = false
negative_rate (some rate) = below rate "0"

abbrev pub is_some : Option String → Bool
is_some none = false
is_some (some s) = true

-- The prices of an observed day.
abbrev pub inconsistent : String → Option String → Option String → Option String → Bool
inconsistent close (some open_price) (some high) (some low) =
    not (above low "0")
    || below high low
    || below open_price low
    || above open_price high
    || below close low
    || above close high
inconsistent close _ _ _ = true

-- The switch over the status.
abbrev pub check_status : DailyQuote → Result Error (Unit {0})
check_status q =
    if str_eq q.status quote_placeholder
    then reject_if (is_some q.open_price || is_some q.high || is_some q.low || differs q.volume "0")
        invalid
    else if str_eq q.status quote_observed
    then reject_if (inconsistent q.close q.open_price q.high q.low) invalid
    else err invalid

unfoldable pub validate_daily_quote : DailyQuote → Result Error (Unit {0})
unfolding valid_date canonical_quote_decimal compare_quote_decimal
validate_daily_quote q = do
  reject_if (not (valid_date q.date)) invalid
  check_decimal q.close 20 6
  check_decimal q.volume 24 6
  check_optional q.open_price 20 6
  check_optional q.high 20 6
  check_optional q.low 20 6
  check_optional q.turnover 20 10
  check_optional q.change_pct 20 10
  reject_if (not (above q.close "0") || below q.volume "0" || negative_rate q.turnover) invalid
  check_status q

date_test : valid_date "2024-02-29" ≡ true
unfolding valid_date
date_test = refl

date_refused : valid_date "2023-02-29" ≡ false
unfolding valid_date
date_refused = refl
