-- ===== src/Prelude/Decimal.antt =====
-- Numbers in base 10, as the packages strconv and fmt read and write them.
use Prim.Native.Nat.{ℕ, zero, suc, ◌+◌, ◌*◌, ◌-◌, ◌/◌, ◌%◌, ◌^◌}
use Prim.Native.Char.{code}
use Prim.Native.String.{String, ◌++◌}
use mathlib.Core.Path.{◌≡◌, refl}
use mathlib.Core.Bool.{Bool, true, false, ◌&&◌}
use mathlib.Core.Option.{Option, none, some}
use tidewise_ai.Prelude.Tests.{ltb, leb, ◌==◌, if◌then◌else◌}
use tidewise_ai.Prelude.Int.{ℤ, pos, negsuc}

-- A digit string of strconv.ParseInt in base 10, without its sign.
unfoldable pub decimal : ℕ → String → Option ℕ
decimal n String.[] = some n
decimal n (String.◌∷◌ c s) =
    let rest = decimal (n * 10 + (code c - b'0')) s in
    if leb b'0' (code c) && leb (code c) b'9' then rest else none

unfoldable pub digit : ℕ → String
digit d =
    if d == 0
    then "0"
    else if d == 1
    then "1"
    else if d == 2
    then "2"
    else if d == 3
    then "3"
    else if d == 4
    then "4"
    else if d == 5
    then "5"
    else if d == 6
    then "6"
    else if d == 7
    then "7"
    else if d == 8
    then "8"
    else "9"

-- `%d` of a number; the fuel is the number, and a digit takes one step.
unfoldable pub decimal_text : ℕ → ℕ → String
unfolding digit
decimal_text zero n = digit n
decimal_text (suc fuel) n = elim (ltb n 10) [
  | true ↦ digit n
  | false ↦ decimal_text fuel (n / 10) ++ digit (n % 10)
]

-- strconv.ParseInt in base 10: at least one digit behind a sign or none, in 64 bits.
abbrev bounded : Bool → ℕ → Option ℤ
bounded true n =
    if ltb (2 ^ 63) n then none else (if n == 0 then some (pos 0) else some (negsuc (n - 1)))
bounded false n = if ltb n (2 ^ 63) then some (pos n) else none

abbrev with_sign : Bool → Option ℕ → Option ℤ
with_sign minus none = none
with_sign minus (some n) = bounded minus n

abbrev digits : String → Option ℕ
digits String.[] = none
digits (String.◌∷◌ c s) = decimal 0 (String.◌∷◌ c s)

unfoldable pub parse_int : String → Option ℤ
unfolding decimal
parse_int String.[] = none
parse_int (String.◌∷◌ c s) =
    if code c == b'-'
    then with_sign true (digits s)
    else if code c == b'+'
    then with_sign false (digits s)
    else with_sign false (digits (String.◌∷◌ c s))

-- strconv.FormatInt in base 10
unfoldable pub format_int : ℤ → String
unfolding decimal_text
format_int (pos n) = decimal_text n n
format_int (negsuc n) = "-" ++ decimal_text (n + 1) (n + 1)

-- `%06d` of a number that is not negative
unfoldable pub format_06 : ℕ → String
unfolding decimal_text
format_06 n =
    (if ltb n 100_000 then "0" else "")
    ++ ((if ltb n 10_000 then "0" else "")
        ++ ((if ltb n 1_000 then "0" else "")
            ++ ((if ltb n 100 then "0" else "")
                ++ ((if ltb n 10 then "0" else "") ++ decimal_text n n))))

parse_int_test : parse_int "-42" ≡ some (negsuc 41)
unfolding parse_int
parse_int_test = refl

format_06_test : format_06 58 ≡ "000058"
unfolding format_06
format_06_test = refl
