-- ===== src/Prelude/Text.antt =====
-- Go strings, as texts of valid UTF-8, and what the code calls of the packages strings, unicode and
-- unicode/utf8. Go compares strings by bytes, which for valid UTF-8 is the order of the characters.
use Prim.Native.Nat.{ℕ}
use Prim.Native.Char.{code}
use Prim.Native.String.{String, compare, ◌++◌}
use mathlib.Core.Path.{◌≡◌, refl, sym, ap₂}
use mathlib.Core.Logic.{inl, inr}
use mathlib.Core.Option.{Option, none, some}
use native.Mathlib.Omega.{arith}
use text.Mathlib.TextEquality.{Char-path}
use text.Mathlib.TextLemmas.{nil-append, cons-append}
use mathlib.Core.Bool.{Bool, true, false, ◌&&◌, ◌||◌}
use mathlib.Core.List.{List, [], ◌∷◌}
use text.Mathlib.Text.{is_lt}
use tidewise_ai.Prelude.Tests.{ltb, leb, ◌==◌, str_eq, str_eq_to, Bool-cases, if◌then◌else◌}

abbrev pub str_lt : String → String → Bool
str_lt s t = is_lt (compare s t)

-- White space as the package unicode has it: the property White_Space.
abbrev pub is_space : ℕ → Bool
is_space c =
    leb 9 c && leb c 13
    || c == 32
    || c == 133
    || c == 160
    || c == 5760
    || leb 8192 c && leb c 8202
    || c == 8232
    || c == 8233
    || c == 8239
    || c == 8287
    || c == 12288

-- Control characters as the package unicode has them: the category Cc.
abbrev pub is_control : ℕ → Bool
is_control c = ltb c 32 || leb 127 c && ltb c 160

-- strings.TrimLeftFunc and strings.TrimRightFunc
unfoldable pub trim_left : (ℕ → Bool) → String → String
trim_left p String.[] = String.[]
trim_left p (String.◌∷◌ c s) = elim (p (code c)) [ true ↦ trim_left p s | false ↦ String.◌∷◌ c s ]

abbrev pub is_empty : String → Bool
is_empty String.[] = true
is_empty (String.◌∷◌ c s) = false

unfoldable pub trim_right : (ℕ → Bool) → String → String
trim_right p String.[] = String.[]
trim_right p (String.◌∷◌ c s) =
    let rest = trim_right p s in if p (code c) && is_empty rest then "" else String.◌∷◌ c rest

-- strings.TrimSpace
unfoldable pub trim_space : String → String
unfolding trim_left trim_right
trim_space s = trim_right is_space (trim_left is_space s)

-- A text with a character that meets the test: strings.IndexFunc(s, p) >= 0.
unfoldable pub has_char : (ℕ → Bool) → String → Bool
has_char p String.[] = false
has_char p (String.◌∷◌ c s) = p (code c) || has_char p s

unfoldable pub all_chars : (ℕ → Bool) → String → Bool
all_chars p String.[] = true
all_chars p (String.◌∷◌ c s) = p (code c) && all_chars p s

-- `strings.TrimSpace(s) == ""`
abbrev pub is_blank : String → Bool
is_blank s = str_eq (trim_space s) ""

-- `seen[key]`, for the keys that were put into a map or set.
unfoldable pub str_mem : String → List String → Bool
str_mem k [] = false
str_mem k (x ∷ xs) = str_eq x k || str_mem k xs

abbrev pub all_texts : (String → Bool) → List String → Bool
all_texts p [] = true
all_texts p (x ∷ xs) = p x && all_texts p xs

-- The keys of a list differ from one another.
abbrev pub Distinct : List String → Type 0
Distinct [] = Unit
Distinct (k ∷ ks) = (str_mem k ks ≡ false) × Distinct ks

trim_space_test : trim_space "\t a b \n" ≡ "a b"
unfolding trim_space
trim_space_test = refl

-- The rest of a text behind a prefix: strings.HasPrefix and strings.TrimPrefix in one.
unfoldable pub strip_prefix : String → String → Option String
strip_prefix String.[] s = some s
strip_prefix (String.◌∷◌ d p) String.[] = none
strip_prefix (String.◌∷◌ d p) (String.◌∷◌ c s) =
    let rest = strip_prefix p s in if code d == code c then rest else none

pub strip_prefix-some : (p s : String) {r : String} → strip_prefix p s ≡ some r → s ≡ p ++ r
unfolding strip_prefix
strip_prefix-some String.[] s h = rw nil-append (cc h)
strip_prefix-some (String.◌∷◌ d p) String.[] h = cc
strip_prefix-some (String.◌∷◌ d p) (String.◌∷◌ c s) {r} h = elim (Bool-cases (code d == code c)) [
  | inl e ↦
      let same : d ≡ c = Char-path d c (ground arith) in
      rw cons-append (ap₂ String.◌∷◌ (sym same) (strip_prefix-some p s (rw e at h)))
  | inr e ↦ let bad : none ≡ some r = rw e at h in cc
]

pub strip_prefix-append : (p r : String) → strip_prefix p (p ++ r) ≡ some r
unfolding strip_prefix
strip_prefix-append String.[] r = rw nil-append
strip_prefix-append (String.◌∷◌ d p) r = rw cons-append (ground (arith, strip_prefix-append p r))

-- A test that all texts of a list pass is passed by each text in it.
pub str_mem-test :
    (p : String → Bool) (k : String) (xs : List String)
    → all_texts p xs ≡ true
    → str_mem k xs ≡ true
    → p k ≡ true
unfolding str_mem
str_mem-test p k [] h m = cc
str_mem-test p k (x ∷ xs) h m = elim (Bool-cases (str_eq x k)) [
  | inl e ↦ rw (← str_eq_to e) (ground arith)
  | inr e ↦ str_mem-test p k xs (ground arith) (rw e at m)
]
