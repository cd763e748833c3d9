-- ===== src/Stock/Decimal.antt =====
-- `CanonicalQuoteDecimal` and `compareQuoteDecimal` of biz/stock/biz.go.
pub mod Digits
pub mod Laws
use Prim.Native.Char.{code}
use Prim.Native.String.{count, len, ◌++◌}
use tidewise_ai.Prelude.{
  ℕ, suc, ◌+◌, ◌-◌, ◌*◌, ◌^◌, ◌≡◌, refl, String, Bool, true, false, ◌&&◌, ◌||◌, not, Option, none,
  some, Result, ok, err, ltb, leb, ◌==◌, str_eq, if◌then◌else◌,
}
use tidewise_ai.Prelude.Int.{ℤ, pos, negsuc, ltb_ℤ}
use tidewise_ai.Prelude.Text.{trim_left, trim_right, all_chars}
use tidewise_ai.Stock.{Error, invalid}

abbrev pub is_digit : ℕ → Bool
is_digit c = leb b'0' c && leb c b'9'

abbrev pub is_zero : ℕ → Bool
is_zero c = c == b'0'

-- strings.HasPrefix(value, "-") and strings.TrimPrefix(value, "-")
unfoldable pub split_sign : String → Bool × String
split_sign String.[] = (false, String.[])
split_sign (String.◌∷◌ c s) = if code c == b'-' then (true, s) else (false, String.◌∷◌ c s)

-- strings.SplitN(value, ".", 2): what stands before the first full stop, and behind it.
unfoldable pub split_dot : String → String × Option String
split_dot String.[] = (String.[], none)
split_dot (String.◌∷◌ c s) =
    let rest = split_dot s in
    if code c == b'.' then (String.[], some s) else (String.◌∷◌ c rest.0, rest.1)

-- `(0|[1-9][0-9]*)`
unfoldable pub whole_number : String → Bool
whole_number String.[] = false
whole_number (String.◌∷◌ c s) =
    is_digit (code c) && all_chars is_digit s && (not (is_zero (code c)) || str_eq s "")

-- `(\.[0-9]+)?`, behind the full stop
abbrev pub fraction_digits : Option String → Bool
fraction_digits none = true
fraction_digits (some s) = not (str_eq s "") && all_chars is_digit s

-- `quoteDecimalPattern`: the digits of a number end at the first full stop.
unfoldable pub matches_decimal : String → Bool
unfolding split_sign split_dot whole_number all_chars
matches_decimal value =
    let parts = split_dot (split_sign value).1 in whole_number parts.0 && fraction_digits parts.1

abbrev pub trimmed_fraction : Option String → String
trimmed_fraction none = ""
trimmed_fraction (some s) = trim_right is_zero s

abbrev pub with_fraction : String → String → String
with_fraction whole fraction =
    if str_eq fraction "" then whole else whole ++ String.◌∷◌ "." fraction

abbrev pub with_sign : Bool → String → String
with_sign negative out = if negative && not (str_eq out "0") then String.◌∷◌ "-" out else out

-- What is returned behind the check of the pattern. `precision - scale` may be negative in Go; the test of
-- the digits before the full stop is written without it.
abbrev pub canonical_parts : Bool → String × Option String → ℕ → ℕ → Result Error String
canonical_parts negative parts precision scale =
    let fraction = trimmed_fraction parts.1 in
    if ltb precision (len (trim_left is_zero parts.0) + scale) || ltb scale (len fraction)
    then err invalid
    else ok (with_sign negative (with_fraction parts.0 fraction))

unfoldable pub canonical_quote_decimal : String → ℕ → ℕ → Result Error String
unfolding matches_decimal split_sign split_dot trim_left trim_right
canonical_quote_decimal value precision scale =
    let signed = split_sign value in
    if matches_decimal value
    then canonical_parts signed.0 (split_dot signed.1) precision scale
    else err invalid

-- A rational as big.Rat reads a decimal: a sign, the digits as one number, and how many of them stand
-- behind the full stop. It is read of texts that match the pattern alone.
pub record Decimal : Type 0 where
  pub negative : Bool
  pub digits : ℕ
  pub places : ℕ

unfoldable pub number_from : ℕ → String → ℕ
number_from n String.[] = n
number_from n (String.◌∷◌ c s) = number_from (n * 10 + (code c - b'0')) s

abbrev pub decimal_of_parts : Bool → String × Option String → Decimal
decimal_of_parts negative (whole, none) = record {
  negative = negative;
  digits = number_from 0 whole;
  places = 0;
}
decimal_of_parts negative (whole, some fraction) = record {
  negative = negative;
  digits = number_from (number_from 0 whole) fraction;
  places = count fraction;
}

unfoldable pub rat_of : String → Decimal
unfolding split_sign split_dot number_from
rat_of value = let signed = split_sign value in decimal_of_parts signed.0 (split_dot signed.1)

abbrev pub signed : Bool → ℕ → ℤ
signed false n = pos n
signed true n = if n == 0 then pos 0 else negsuc (n - 1)

pub data Comparison : Type 0 where
  less equal greater : Comparison

abbrev pub compare_ℤ : ℤ → ℤ → Comparison
compare_ℤ a b = if ltb_ℤ a b then less else if ltb_ℤ b a then greater else equal

-- Rat.Cmp, over the common denominator.
abbrev pub compare_decimals : Decimal → Decimal → Comparison
compare_decimals x y =
    compare_ℤ (signed x.negative (x.digits * 10 ^ y.places))
      (signed y.negative (y.digits * 10 ^ x.places))

unfoldable pub compare_quote_decimal : String → String → Comparison
unfolding rat_of
compare_quote_decimal a b = compare_decimals (rat_of a) (rat_of b)

canonical_test : canonical_quote_decimal "-012.50" 20 6 ≡ err invalid
unfolding canonical_quote_decimal
canonical_test = refl

canonical_zeros : canonical_quote_decimal "-12.500" 20 6 ≡ ok "-12.5"
unfolding canonical_quote_decimal
canonical_zeros = refl
