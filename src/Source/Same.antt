-- ===== src/Source/Same.antt =====
-- `sameSource` of biz/source/biz.go with `canonicalJSON`: stored and imported Sources are compared by
-- the values of their configurations, whatever the spelling of a number or the order of fields.
use Prim.Native.Char.{code}
use Prim.Native.String.{◌++◌, len}
use tidewise_ai.Prelude.{
  ℕ, zero, suc, ◌-◌, ◌/◌, String, Bool, true, false, ◌&&◌, ◌||◌, not, Option, none, some, ◌==◌,
  str_eq, if◌then◌else◌,
}
use tidewise_ai.Prelude.Int.{ℤ, pos, negsuc, eqb_ℤ, ◌+ℤ◌, sub_ℕ}
use tidewise_ai.Prelude.Text.{trim_left, trim_right, strip_prefix, str_lt}
use tidewise_ai.Json.{
  Json, Items, Fields, null, bool, num, text, arr, obj, nil, cons, end, field, RawMessage, document,
}
use tidewise_ai.Source.{Source, Time}
use tidewise_ai.Prelude.Decimal.{decimal}

-- A decoded value with its numbers in the form `mantissa e exponent`; a map is its fields in the order
-- of the keys.
mutual
  pub data Value : Type 0 where
    null_value : Value
    flag : Bool → Value
    zero_number : Value
    number : Bool → String → ℤ → Value
    word : String → Value
    list_of : Values → Value
    map_of : Entries → Value

  pub data Values : Type 0 where
    no_values : Values
    value_then : Value → Values → Values

  pub data Entries : Type 0 where
    no_entries : Entries
    entry : String → Value → Entries → Entries

-- The text before and behind the first character that meets the test: strings.IndexAny.
unfoldable pub split_at : (ℕ → Bool) → String → String × Option String
split_at p String.[] = (String.[], none)
split_at p (String.◌∷◌ c s) = elim (p (code c)) [
  | true ↦ (String.[], some s)
  | false ↦ let (before, behind) = split_at p s in (String.◌∷◌ c before, behind)
]

abbrev pub is_exponent_mark : ℕ → Bool
is_exponent_mark c = c == b'e' || c == b'E'

abbrev pub is_point : ℕ → Bool
is_point c = c == b'.'

abbrev pub is_zero_digit : ℕ → Bool
is_zero_digit c = c == b'0'

abbrev pub negated : Option ℕ → Option ℤ
negated none = none
negated (some zero) = some (pos 0)
negated (some (suc n)) = some (negsuc n)

abbrev pub unsigned : Option ℕ → Option ℤ
unsigned none = none
unsigned (some n) = some (pos n)

abbrev pub is_empty : String → Bool
is_empty s = str_eq s ""

-- big.Int.SetString in base 10 behind the sign: at least one digit.
digits_of : String → Option ℕ
digits_of s = if is_empty s then none else decimal 0 s

-- big.Int.SetString in base 10.
unfoldable pub exponent_of : Option String → Option ℤ
unfolding digits_of
exponent_of none = some (pos 0)
exponent_of (some s) = elim (strip_prefix "-" s) [
  | some digits ↦ negated (digits_of digits)
  | none ↦ elim (strip_prefix "+" s) [
    | some digits ↦ unsigned (digits_of digits)
    | none ↦ unsigned (digits_of s)
  ]
]

abbrev pub behind_point : Option String → String
behind_point none = ""
behind_point (some fraction) = fraction

-- The number of a mantissa without its sign, at an exponent.
unfoldable pub scaled : Bool → String → ℤ → Value
scaled negative mantissa exponent =
    let (whole, point) = split_at is_point mantissa in
    let fraction = behind_point point in
    let digits = trim_left is_zero_digit (whole ++ fraction) in
    let trimmed = trim_right is_zero_digit digits in
    if is_empty digits
    then zero_number
    else number negative trimmed
        (exponent +ℤ sub_ℕ 0 (len fraction) +ℤ pos (len digits - len trimmed))

abbrev pub signed_mantissa : String → ℤ → Value
signed_mantissa mantissa exponent = elim (strip_prefix "-" mantissa) [
  | some rest ↦ scaled true rest exponent
  | none ↦ scaled false mantissa exponent
]

-- `normalizeJSONNumber`
unfoldable pub normalize_number : String → Option Value
normalize_number raw =
    let (mantissa, exponent_text) = split_at is_exponent_mark raw in
    elim (exponent_of exponent_text) [
      | none ↦ none
      | some exponent ↦ some (signed_mantissa mantissa exponent)
    ]

abbrev pub and_then : {A B : Type 0} → Option A → (A → Option B) → Option B
and_then none f = none
and_then (some a) f = f a

-- An entry put into a decoded map.
unfoldable pub put_entry : String → Value → Entries → Entries
put_entry k v no_entries = entry k v no_entries
put_entry k v (entry j w rest) =
    let later = put_entry k v rest in
    if str_lt k j
    then entry k v (entry j w rest)
    else if str_eq k j
    then entry k v rest
    else entry j w later

unfoldable pub has_entry : String → Entries → Bool
has_entry k no_entries = false
has_entry k (entry j w rest) = str_eq k j || has_entry k rest

abbrev pub put_first : String → Value → Entries → Entries
put_first k v rest = if has_entry k rest then rest else put_entry k v rest

-- `normalizeJSONValue`, from the last field of an object to its first: the later of two fields with
-- one key is kept.
unfoldable mutual
  pub normalize : Json → Option Value
  normalize null = some null_value
  normalize (bool b) = some (flag b)
  normalize (num literal) = normalize_number literal
  normalize (text s) = some (word s)
  normalize (arr items) = and_then (normalize_items items) (λ vs. some (list_of vs))
  normalize (obj fields) = and_then (normalize_fields fields) (λ es. some (map_of es))

  pub normalize_items : Items → Option Values
  normalize_items nil = some no_values
  normalize_items (cons x xs) =
      and_then (normalize x) (λ v. and_then (normalize_items xs) (λ vs. some (value_then v vs)))

  pub normalize_fields : Fields → Option Entries
  normalize_fields end = some no_entries
  normalize_fields (field k x fs) =
      and_then (normalize_fields fs) (λ es. and_then (normalize x) (λ v. some (put_first k v es)))

abbrev pub bool_eq : Bool → Bool → Bool
bool_eq true b = b
bool_eq false b = not b

-- reflect.DeepEqual on decoded values.
unfoldable mutual
  pub deep_equal : Value → Value → Bool
  deep_equal null_value null_value = true
  deep_equal (flag a) (flag b) = bool_eq a b
  deep_equal zero_number zero_number = true
  deep_equal (number s m e) (number t n f) = bool_eq s t && str_eq m n && eqb_ℤ e f
  deep_equal (word s) (word t) = str_eq s t
  deep_equal (list_of vs) (list_of ws) = deep_equal_values vs ws
  deep_equal (map_of es) (map_of fs) = deep_equal_entries es fs
  deep_equal _ _ = false

  pub deep_equal_values : Values → Values → Bool
  deep_equal_values no_values no_values = true
  deep_equal_values (value_then v vs) (value_then w ws) = deep_equal v w && deep_equal_values vs ws
  deep_equal_values _ _ = false

  pub deep_equal_entries : Entries → Entries → Bool
  deep_equal_entries no_entries no_entries = true
  deep_equal_entries (entry k v es) (entry j w fs) =
      str_eq k j && deep_equal v w && deep_equal_entries es fs
  deep_equal_entries _ _ = false

-- `canonicalJSON`
unfoldable pub canonical_json : RawMessage → Option Value
canonical_json (document raw compact value) = normalize value
canonical_json message = none

abbrev pub both_equal : Option Value → Option Value → Bool
both_equal (some v) (some w) = deep_equal v w
both_equal _ _ = false

unfoldable pub same_config : RawMessage → RawMessage → Bool
same_config left right = both_equal (canonical_json left) (canonical_json right)

unfoldable pub same_optional_string : Option String → Option String → Bool
same_optional_string none none = true
same_optional_string (some s) (some t) = str_eq s t
same_optional_string _ _ = false

-- Both times truncated to the microsecond.
unfoldable pub same_postgres_timestamp : Time → Time → Bool
same_postgres_timestamp left right = left / 1000 == right / 1000

unfoldable pub same_source : Source → Source → Bool
same_source left right =
    str_eq left.id right.id
    && str_eq left.code right.code
    && str_eq left.name right.name
    && str_eq left.ownership_type right.ownership_type
    && str_eq left.channel_type right.channel_type
    && str_eq left.adapter_key right.adapter_key
    && bool_eq left.enabled right.enabled
    && str_eq left.endpoint right.endpoint
    && same_optional_string left.app_key right.app_key
    && same_config left.config right.config
    && eqb_ℤ left.priority right.priority
    && eqb_ℤ left.timeout_seconds right.timeout_seconds
    && eqb_ℤ left.max_results right.max_results
    && str_eq left.default_source_level right.default_source_level
    && same_postgres_timestamp left.created_at right.created_at
    && same_postgres_timestamp left.updated_at right.updated_at
