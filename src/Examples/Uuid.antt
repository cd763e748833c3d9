-- ===== src/Examples/Uuid.antt =====
-- A concrete UUID package that behaves as google/uuid is documented: 36 digits in base 16, the lowest
-- first, so that every UUID has one text of 36 characters.
use Prim.Native.Char.{Char, code}
use Prim.Native.String.{count, ◌∷◌}
use native.Mathlib.Nat.{pow-suc}
use tidewise_ai.Prelude.{
  ℕ, zero, suc, ◌+◌, ◌*◌, ◌-◌, ◌/◌, ◌%◌, ◌^◌, ◌<◌, ◌≡◌, refl, String, Option, none, some, Bool,
  true, ◌&&◌, ap, false, arith, ltb, ◌==◌, if◌then◌else◌,
}
use text.Mathlib.TextLemmas.{length-cons}
use tidewise_ai.Prelude.{◌≤◌, Bool-cases, inl, inr}
use tidewise_ai.Identity.{UuidPackage}
use tidewise_ai.Identity.Laws.{UuidLaws}

unfoldable pub hex_char : ℕ → Char
hex_char d =
    if d == 0
    then "0"
    else if d == 1
    then "1"
    else if d == 2
    then "2"
    else if d == 3
    then "3"
    else if d == 4
    then "4"
    else if d == 5
    then "5"
    else if d == 6
    then "6"
    else if d == 7
    then "7"
    else if d == 8
    then "8"
    else if d == 9
    then "9"
    else if d == 10
    then "a"
    else if d == 11
    then "b"
    else if d == 12
    then "c"
    else if d == 13
    then "d"
    else if d == 14
    then "e"
    else "f"

unfoldable pub hex_value : ℕ → ℕ
hex_value c = if ltb c 58 then c - 48 else c - 87

-- The digits from one on are read back.
read_back_from : ℕ → ℕ → Bool
read_back_from d zero = true
read_back_from d (suc more) = hex_value (code (hex_char d)) == d && read_back_from (suc d) more

read_back_from-at :
    (d more k : ℕ)
    → read_back_from d more ≡ true
    → d ≤ k
    → k < d + more
    → hex_value (code (hex_char k)) ≡ k
unfolding read_back_from
read_back_from-at d zero k t low high = absurd (omega arith)
read_back_from-at d (suc more) k t low high = elim (Bool-cases (k == d)) [
  | inl e ↦ let same : k ≡ d = ground arith in rw same (ground arith)
  | inr e ↦ read_back_from-at (suc d) more k (ground arith) (ground arith) (omega arith)
]

hex_value-char : (d : ℕ) → d < 16 → hex_value (code (hex_char d)) ≡ d
unfolding read_back_from hex_value hex_char
hex_value-char d h = read_back_from-at 0 16 d refl (omega arith) (omega arith)

unfoldable pub hex_text : ℕ → ℕ → String
hex_text zero n = String.[]
hex_text (suc k) n = hex_char (n % 16) ∷ hex_text k (n / 16)

unfoldable pub hex_number : String → ℕ
hex_number String.[] = 0
hex_number (String.◌∷◌ c s) = hex_value (code c) + 16 * hex_number s

fits_quotient : (k n : ℕ) → n < 16 ^ suc k → n / 16 < 16 ^ k
fits_quotient k n h = omega (arith, pow-suc 16 k)

hex_number-text : (k n : ℕ) → n < 16 ^ k → hex_number (hex_text k n) ≡ n
unfolding hex_text hex_number
hex_number-text zero n h = omega arith
hex_number-text (suc k) n h =
    omega (
      arith,
      hex_number-text k (n / 16) (fits_quotient k n h),
      hex_value-char (n % 16) (omega arith),
    )

count-hex_text : (k n : ℕ) → count (hex_text k n) ≡ k
unfolding hex_text
count-hex_text zero n = refl
count-hex_text (suc k) n = rw length-cons (ap suc (count-hex_text k (n / 16)))

abbrev pub some_if : Bool → ℕ → Option ℕ
some_if true n = some n
some_if false n = none

unfoldable pub parse_hex : String → Option ℕ
parse_hex s = some_if (count s == 36 && ltb (hex_number s) (2 ^ 128)) (hex_number s)

abbrev pub uuid : UuidPackage
uuid = record { to_string = hex_text 36; parse = parse_hex; new_sha1 = λ s. 1 + count s % 1000 }

parse_hex-text : (n : ℕ) → n < 2 ^ 128 → parse_hex (hex_text 36 n) ≡ some n
unfolding parse_hex
parse_hex-text n h = rw (count-hex_text 36 n, hex_number-text 36 n (omega arith)) (ground arith)

parse_hex_fits : (s : String) (n : ℕ) → parse_hex s ≡ some n → n < 2 ^ 128
unfolding parse_hex
parse_hex_fits s n h = ground arith

-- The laws that the model asks of google/uuid can be met.
pub uuid_laws : UuidLaws uuid
uuid_laws = record {
  length_36 = λ n h. count-hex_text 36 n;
  parse-to_string = parse_hex-text;
  parse_fits = parse_hex_fits;
  new_sha1_fits = λ s. omega arith;
  new_sha1_ne_nil = λ s. omega arith;
}
