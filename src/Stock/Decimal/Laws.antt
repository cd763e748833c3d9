-- ===== src/Stock/Decimal/Laws.antt =====
-- The canonical decimal is the decimal that was read.
use mathlib.Core.Path.{subst}
use Prim.Native.String.{count, len, ◌++◌}
use text.Mathlib.TextLemmas.{append-nil}
use tidewise_ai.Prelude.{
  ℕ, ◌+◌, ◌*◌, ◌^◌, ◌≡◌, refl, sym, ap, ◌∙◌, String, Bool, true, false, ◌&&◌, ◌||◌, not, Option,
  none, some, ok, err, ltb, str_eq, arith, Bool-cases, inl, inr, ◌⊎◌, str_eq_to,
}
use tidewise_ai.Prelude.Int.{ℤ, pos}
use tidewise_ai.Prelude.Text.{trim_left, all_chars}
use tidewise_ai.Stock.{invalid}
use tidewise_ai.Stock.Decimal.{
  is_digit, is_zero, split_sign, split_dot, whole_number, matches_decimal, trimmed_fraction,
  with_fraction, with_sign, canonical_parts, canonical_quote_decimal, Decimal, number_from,
  decimal_of_parts, rat_of, signed, equal, compare_ℤ, fraction_digits, compare_decimals,
  compare_quote_decimal,
}
use tidewise_ai.Stock.Decimal.Digits.{
  number_from-trim, split_dot-digits, split_dot-fraction, split_sign-whole, digits_of_whole,
  digits-trim, not_empty,
}

split_sign-alone : (s : String) → whole_number s ≡ true → split_sign s ≡ (false, s)
split_sign-alone s w =
    subst (λ t. split_sign t ≡ (false, t)) (append-nil s) (split_sign-whole s "" w)

-- What the returned text reads as, without its sign.
abbrev parts_read : String → String → Decimal
parts_read whole fraction = record {
  negative = false;
  digits = number_from (number_from 0 whole) fraction;
  places = count fraction;
}

rat_of-with_fraction :
    (whole fraction : String)
    → whole_number whole ≡ true
    → all_chars is_digit fraction ≡ true
    → (split_sign (with_fraction whole fraction) ≡ (false, with_fraction whole fraction))
      × (decimal_of_parts false (split_dot (with_fraction whole fraction))
          ≡ parts_read whole fraction)
unfolding number_from
rat_of-with_fraction whole String.[] w f =
    (split_sign-alone whole w, rw (split_dot-digits whole (digits_of_whole whole w)) refl)
rat_of-with_fraction whole (String.◌∷◌ c s) w f =
    let t = String.◌∷◌ c s in
    let same : with_fraction whole t ≡ whole ++ String.◌∷◌ "." t = rw (not_empty c s) refl in
    subst
      (λ x.
        (split_sign x ≡ (false, x)) × (decimal_of_parts false (split_dot x) ≡ parts_read whole t))
      (sym same)
      (
        split_sign-whole whole (String.◌∷◌ "." t) w,
        ap (decimal_of_parts false) (split_dot-fraction whole t (digits_of_whole whole w)),
      )

signed-zero : (b : Bool) → signed b 0 ≡ pos 0
signed-zero true = refl
signed-zero false = refl

compare-same : (a b : ℤ) → a ≡ b → compare_ℤ a b ≡ equal
compare-same a b e = rw e (ground arith)

-- The value of the trimmed parts, with a sign that is dropped at zero alone.
decimal_of_parts-trim :
    (negative : Bool) (whole : String) (fraction : Option String)
    → let d = decimal_of_parts negative (whole, fraction) in
      let r = parts_read whole (trimmed_fraction fraction) in
      r.digits * 10 ^ d.places ≡ d.digits * 10 ^ r.places
unfolding number_from
decimal_of_parts-trim negative whole none = refl
decimal_of_parts-trim negative whole (some f) = sym (number_from-trim (number_from 0 whole) f)

decimal_of_parts-sign :
    (b : Bool) (parts : String × Option String)
    → decimal_of_parts b parts ≡ record (decimal_of_parts false parts) { negative = b }
decimal_of_parts-sign b (whole, none) = refl
decimal_of_parts-sign b (whole, some f) = refl

abbrev set_sign : Bool → Decimal → Decimal
set_sign b d = record d { negative = b }

-- The sign that the returned text has, and that it differs from the one that was read at zero alone.
with_sign-read :
    (negative : Bool) (out : String) (r : Decimal)
    → split_sign out ≡ (false, out)
    → decimal_of_parts false (split_dot out) ≡ r
    → (b : Bool) × (rat_of (with_sign negative out) ≡ record r { negative = b })
      × ((b ≡ negative) ⊎ (r.digits ≡ 0))
unfolding rat_of
with_sign-read negative out r p q = elim (Bool-cases (negative && not (str_eq out "0"))) [
  | inl e ↦
      let minus : negative ≡ true = ground arith in
      let same : with_sign negative out ≡ String.◌∷◌ "-" out = rw e refl in
      (
        true,
        subst (λ x. rat_of x ≡ record r { negative = true }) (sym same)
            (decimal_of_parts-sign true (split_dot out) ∙ ap (set_sign true) q),
        inl (sym minus),
      )
  | inr e ↦
      let same : with_sign negative out ≡ out = rw e refl in
      let read : rat_of out ≡ record r { negative = false } =
        rw p (decimal_of_parts-sign false (split_dot out) ∙ ap (set_sign false) q) in
      (
        false,
        subst (λ x. rat_of x ≡ record r { negative = false }) (sym same) read,
        elim (Bool-cases negative) [
          | inr plus ↦ inl (sym plus)
          | inl minus ↦
              let zero_text : out ≡ "0" = str_eq_to (ground arith) in
              inr (
                sym (ap (λ d. d.digits) q)
                ∙ ap (λ x. (decimal_of_parts false (split_dot x)).digits) zero_text
                ∙ (unfold split_dot number_from in refl))
        ],
      )
]

compare-read :
    (d r : Decimal) (b : Bool)
    → ((b ≡ d.negative) ⊎ (r.digits ≡ 0))
    → r.digits * 10 ^ d.places ≡ d.digits * 10 ^ r.places
    → compare_decimals (record r { negative = b }) d ≡ equal
compare-read d r b (inl e) h =
    compare-same (signed b (r.digits * 10 ^ d.places))
      (signed d.negative (d.digits * 10 ^ r.places))
      (ap (λ s. signed s (r.digits * 10 ^ d.places)) e ∙ ap (signed d.negative) h)
compare-read d r b (inr z) h =
    let left : r.digits * 10 ^ d.places ≡ 0 = rw z (omega arith) in
    let right : d.digits * 10 ^ r.places ≡ 0 = sym h ∙ left in
    compare-same (signed b (r.digits * 10 ^ d.places))
      (signed d.negative (d.digits * 10 ^ r.places))
      (ap (signed b) left
        ∙ signed-zero b
        ∙ sym (signed-zero d.negative)
        ∙ ap (signed d.negative) (sym right))

sign_of :
    (b : Bool) (whole : String) (fraction : Option String)
    → (decimal_of_parts b (whole, fraction)).negative ≡ b
sign_of b whole none = refl
sign_of b whole (some f) = refl

fraction-digits :
    (fraction : Option String)
    → fraction_digits fraction ≡ true
    → all_chars is_digit (trimmed_fraction fraction) ≡ true
unfolding all_chars
fraction-digits none h = refl
fraction-digits (some f) h = digits-trim f (ground arith)

parts-equal :
    (negative : Bool) (parts : String × Option String) (precision scale : ℕ) {out : String}
    → (whole_number parts.0 && fraction_digits parts.1) ≡ true
    → canonical_parts negative parts precision scale ≡ ok out
    → compare_decimals (rat_of out) (decimal_of_parts negative parts) ≡ equal
parts-equal negative (whole, fraction) precision scale {out} m h =
    elim (Bool-cases (
      ltb precision (len (trim_left is_zero whole) + scale)
      || ltb scale (len (trimmed_fraction fraction)))) [
        | inl e ↦ absurd (let bad : err invalid ≡ ok out = rw e at h in cc)
        | inr e ↦
            let f = trimmed_fraction fraction in
            let returned : ok (with_sign negative (with_fraction whole f)) ≡ ok out = rw e at h in
            let it : with_sign negative (with_fraction whole f) ≡ out = cc in
            let d = decimal_of_parts negative (whole, fraction) in
            let r = parts_read whole f in
            let (p, q) =
              rat_of-with_fraction whole f (ground arith)
                (fraction-digits fraction (ground arith)) in
            let (b, read, sign) = with_sign-read negative (with_fraction whole f) r p q in
            let signs : (b ≡ d.negative) ⊎ (r.digits ≡ 0) =
              subst (λ s. (b ≡ s) ⊎ (r.digits ≡ 0)) (sym (sign_of negative whole fraction)) sign in
            subst (λ x. compare_decimals (rat_of x) d ≡ equal) it
              (subst (λ x. compare_decimals x d ≡ equal) (sym read)
                (compare-read d r b signs (decimal_of_parts-trim negative whole fraction)))
      ]

-- A decimal that CanonicalQuoteDecimal accepts is returned with the value that it had: nothing is rounded,
-- whatever the precision and the scale.
pub canonical-equal :
    (value : String) (precision scale : ℕ) {out : String}
    → canonical_quote_decimal value precision scale ≡ ok out
    → compare_quote_decimal out value ≡ equal
unfolding canonical_quote_decimal compare_quote_decimal rat_of matches_decimal
canonical-equal value precision scale {out} h = elim (Bool-cases (matches_decimal value)) [
  | inr e ↦ absurd (let bad : err invalid ≡ ok out = rw e at h in cc)
  | inl e ↦
      let signed = split_sign value in
      parts-equal signed.0 (split_dot signed.1) precision scale e (rw e at h)
]
