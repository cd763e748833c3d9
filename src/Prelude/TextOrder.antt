-- ===== src/Prelude/TextOrder.antt =====
-- The order of texts is strict and total.
use Prim.Native.Nat.{Ordering, compare as compare_ℕ}
use Prim.Native.Char.{Char, code}
use Prim.Native.String.{String, compare, then}
use Prim.Native.String.compare.{nil-cons, cons-nil, cons-cons}
use mathlib.Core.Path.{◌≡◌, refl, sym, ap, ap₂, ◌∙◌}
use mathlib.Core.Bool.{Bool, true, false, ◌&&◌, ◌||◌}
use native.Mathlib.Omega.{arith}
use text.Mathlib.Text.{is_lt}
use text.Mathlib.TextEquality.{Char-path}
use tidewise_ai.Prelude.Tests.{ltb, ◌==◌}
use tidewise_ai.Prelude.Text.{str_lt}

then-lt :
    (o p : Ordering)
    → is_lt (then o p) ≡ (
        (elim o [ Ordering.lt ↦ true | _ ↦ false ])
        || (elim o [ Ordering.eq ↦ true | _ ↦ false ]) && is_lt p)
then-lt Ordering.lt p = refl
then-lt Ordering.eq p = refl
then-lt Ordering.gt p = refl

pub str_lt-cons :
    (c d : Char) (s t : String)
    → str_lt (String.◌∷◌ c s) (String.◌∷◌ d t)
      ≡ (ltb (code c) (code d) || code c == code d && str_lt s t)
str_lt-cons c d s t =
    ap is_lt (cons-cons c d s t) ∙ then-lt (compare_ℕ (code c) (code d)) (compare s t)

nil_lt : (d : Char) (t : String) → str_lt "" (String.◌∷◌ d t) ≡ true
nil_lt d t = ap is_lt (nil-cons d t)

not-lt_nil : (s : String) → str_lt s "" ≡ false
not-lt_nil String.[] = refl
not-lt_nil (String.◌∷◌ c s) = ap is_lt (cons-nil c s)

pub str_lt_trans : (s t u : String) → str_lt s t ≡ true → str_lt t u ≡ true → str_lt s u ≡ true
str_lt_trans s t String.[] h k = absurd (let bad : false ≡ true = sym (not-lt_nil t) ∙ k in cc)
str_lt_trans s String.[] (String.◌∷◌ e u) h k =
    absurd (let bad : false ≡ true = sym (not-lt_nil s) ∙ h in cc)
str_lt_trans String.[] (String.◌∷◌ d t) (String.◌∷◌ e u) h k = nil_lt e u
str_lt_trans (String.◌∷◌ c s) (String.◌∷◌ d t) (String.◌∷◌ e u) h k =
    let p = sym (str_lt-cons c d s t) ∙ h in
    let q = sym (str_lt-cons d e t u) ∙ k in
    str_lt-cons c e s u ∙ lex (code c) (code d) (code e) _ _ _ (str_lt_trans s t u) p q
  where
    lex :
        (a b c : _) (x y z : Bool)
        → (x ≡ true → y ≡ true → z ≡ true)
        → (ltb a b || a == b && x) ≡ true
        → (ltb b c || b == c && y) ≡ true
        → (ltb a c || a == c && z) ≡ true
    lex a b c x y z f p q = ground arith

pub str_lt_total : (s t : String) → str_lt s t ≡ false → str_lt t s ≡ false → s ≡ t
str_lt_total String.[] String.[] h k = refl
str_lt_total String.[] (String.◌∷◌ d t) h k =
    absurd (let bad : true ≡ false = sym (nil_lt d t) ∙ h in cc)
str_lt_total (String.◌∷◌ c s) String.[] h k =
    absurd (let bad : true ≡ false = sym (nil_lt c s) ∙ k in cc)
str_lt_total (String.◌∷◌ c s) (String.◌∷◌ d t) h k =
    let p = sym (str_lt-cons c d s t) ∙ h in
    let q = sym (str_lt-cons d c t s) ∙ k in
    let same : c ≡ d = Char-path c d (ground arith) in
    ap₂ String.◌∷◌ same (str_lt_total s t (ground arith) (ground arith))

pub str_lt_irrefl : (s : String) → str_lt s s ≡ false
str_lt_irrefl String.[] = refl
str_lt_irrefl (String.◌∷◌ c s) = str_lt-cons c c s s ∙ ground (arith, str_lt_irrefl s)
