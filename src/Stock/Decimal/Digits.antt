-- ===== src/Stock/Decimal/Digits.antt =====
-- Runs of digits: what the splits find in them, and the number that they write.
use Prim.Native.Char.{Char, code}
use Prim.Native.String.{count, ◌++◌}
use text.Mathlib.TextLemmas.{nil-append, cons-append, length-cons}
use native.Mathlib.Nat.{pow-suc}
use tidewise_ai.Prelude.{
  ℕ, ◌+◌, ◌-◌, ◌*◌, ◌^◌, ◌≡◌, refl, String, true, false, ◌&&◌, none, some, ◌==◌, str_eq, arith,
  Bool-cases, inl, inr, str_eq_to,
}
use tidewise_ai.Prelude.Text.{is_empty, trim_right, all_chars}
use tidewise_ai.Stock.Decimal.{is_digit, is_zero, split_sign, split_dot, whole_number, number_from}

pub no_text : (s : String) → is_empty s ≡ true → s ≡ ""
no_text String.[] h = refl
no_text (String.◌∷◌ c s) h = absurd (cc)

pub pow_cons : (c : Char) (s : String) → 10 ^ count (String.◌∷◌ c s) ≡ 10 ^ count s * 10
pow_cons c s = rw (length-cons, pow-suc) refl

-- One character in front of both texts.
pub shift :
    (c : Char) (s t : String) (x y : ℕ)
    → x * 10 ^ count t ≡ y * 10 ^ count s
    → x * 10 ^ count (String.◌∷◌ c t) ≡ y * 10 ^ count (String.◌∷◌ c s)
shift c s t x y h = rw (pow_cons c s, pow_cons c t) (omega (arith, h))

pub number_from-trim :
    (n : ℕ) (s : String)
    → number_from n s * 10 ^ count (trim_right is_zero s)
      ≡ number_from n (trim_right is_zero s) * 10 ^ count s
unfolding number_from trim_right
number_from-trim n String.[] = refl
number_from-trim n (String.◌∷◌ c s) =
    elim (Bool-cases (is_zero (code c) && is_empty (trim_right is_zero s))) [
      | inl e ↦
          let gone : trim_right is_zero s ≡ "" = no_text (trim_right is_zero s) (ground arith) in
          let ih = number_from-trim (n * 10 + 0) s in
          let ih0 : number_from (n * 10 + 0) s * 1 ≡ (n * 10 + 0) * 10 ^ count s = rw gone at ih in
          let zero_digit : code c - b'0' ≡ 0 = ground arith in
          rw (e, zero_digit, pow_cons c s) (omega (arith, ih0))
      | inr e ↦
          rw e
            (shift c s (trim_right is_zero s) _ _ (number_from-trim (n * 10 + (code c - b'0')) s))
    ]

-- A run of digits has no full stop, and no sign in front.
pub split_dot-digits : (s : String) → all_chars is_digit s ≡ true → split_dot s ≡ (s, none)
unfolding split_dot all_chars
split_dot-digits String.[] h = refl
split_dot-digits (String.◌∷◌ c s) h =
    let no_dot : (code c == b'.') ≡ false = ground arith in
    rw (no_dot, split_dot-digits s (ground arith)) refl

pub split_dot-fraction :
    (s f : String) → all_chars is_digit s ≡ true → split_dot (s ++ String.◌∷◌ "." f) ≡ (s, some f)
unfolding split_dot all_chars
split_dot-fraction String.[] f h = rw nil-append refl
split_dot-fraction (String.◌∷◌ c s) f h =
    let no_dot : (code c == b'.') ≡ false = ground arith in
    rw (cons-append, no_dot, split_dot-fraction s f (ground arith)) refl

pub split_sign-whole :
    (s t : String) → whole_number s ≡ true → split_sign (s ++ t) ≡ (false, s ++ t)
unfolding split_sign whole_number
split_sign-whole String.[] t h = absurd (cc)
split_sign-whole (String.◌∷◌ c s) t h =
    let no_sign : (code c == b'-') ≡ false = ground arith in rw (cons-append, no_sign) refl

pub split_sign-minus : (s : String) → split_sign (String.◌∷◌ "-" s) ≡ (true, s)
unfolding split_sign
split_sign-minus s = refl

pub digits_of_whole : (s : String) → whole_number s ≡ true → all_chars is_digit s ≡ true
unfolding whole_number all_chars
digits_of_whole String.[] h = refl
digits_of_whole (String.◌∷◌ c s) h = ground arith

pub digits-trim :
    (s : String) → all_chars is_digit s ≡ true → all_chars is_digit (trim_right is_zero s) ≡ true
unfolding all_chars trim_right
digits-trim String.[] h = refl
digits-trim (String.◌∷◌ c s) h =
    let ih : all_chars is_digit (trim_right is_zero s) ≡ true = digits-trim s (ground arith) in
    elim (Bool-cases (is_zero (code c) && is_empty (trim_right is_zero s))) [
      | inl e ↦ rw e refl
      | inr e ↦ rw e (ground arith)
    ]

pub not_empty : (c : Char) (s : String) → str_eq (String.◌∷◌ c s) "" ≡ false
not_empty c s = elim (Bool-cases (str_eq (String.◌∷◌ c s) "")) [
  | inr e ↦ e
  | inl e ↦ let bad : String.◌∷◌ c s ≡ "" = str_eq_to e in absurd (cc)
]
