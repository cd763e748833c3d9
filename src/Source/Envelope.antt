-- ===== src/Source/Envelope.antt =====
-- `snapshotEnvelopeSize` and `validateProjectedSet` of biz/source/biz.go: the bytes that a snapshot
-- takes when encoding/json writes it, and the tests on a whole set of Sources.
pub mod Laws
use Prim.Native.Char.{code, len_utf8}
use Prim.Native.String.{len}
use tidewise_ai.Prelude.{
  ℕ, zero, suc, ◌+◌, ◌-◌, ◌*◌, ◌/◌, ◌%◌, ◌^◌, ◌≤◌, String, Bool, true, false, ◌&&◌, ◌||◌, not,
  Option, none, some, List, [], ◌∷◌, map, Result, ok, err, ◌>>=◌, ◌>>◌, reject_if, ltb, leb, ◌==◌,
  str_eq, if◌then◌else◌, length, sum_by,
}
use tidewise_ai.Prelude.Int.{ℤ, pos, negsuc}
use tidewise_ai.Json.{RawMessage, absent, malformed, document}
use tidewise_ai.Source.{
  Error, capacity_exceeded, conflict, Source, Time, channel_web_search, max_sources,
  max_snapshot_envelope_size,
}
use tidewise_ai.Source.Validation.{Environment, validate_source}

-- The bytes of a character in a JSON text: a short escape, \u00XX, or the character itself.
unfoldable pub escaped_size : ℕ → ℕ → ℕ
escaped_size c width =
    if c == b'"' || c == 92 || c == 8 || c == 9 || c == 10 || c == 12 || c == 13
    then 2
    else if ltb c 32 || c == b'<' || c == b'>' || c == b'&' || c == 8232 || c == 8233
    then 6
    else width

unfoldable pub text_bytes : String → ℕ
unfolding escaped_size
text_bytes String.[] = 0
text_bytes (String.◌∷◌ c s) = escaped_size (code c) (len_utf8 c) + text_bytes s

-- A text with its quotes.
unfoldable pub string_size : String → ℕ
unfolding text_bytes
string_size s = 2 + text_bytes s

-- A compacted message inside a document: the characters < > & U+2028 U+2029 are escaped.
unfoldable pub html_size : ℕ → ℕ → ℕ
html_size c width =
    if c == b'<' || c == b'>' || c == b'&' || c == 8232 || c == 8233 then 6 else width

unfoldable pub compact_size : String → ℕ
unfolding html_size
compact_size String.[] = 0
compact_size (String.◌∷◌ c s) = html_size (code c) (len_utf8 c) + compact_size s

-- The digits of a number in base 10; the fuel is the number itself, and a digit takes one step.
unfoldable pub decimal_size : ℕ → ℕ → ℕ
decimal_size zero n = 1
decimal_size (suc fuel) n = elim (ltb n 10) [ true ↦ 1 | false ↦ 1 + decimal_size fuel (n / 10) ]

unfoldable pub int_size : ℤ → ℕ
unfolding decimal_size
int_size (pos n) = decimal_size n n
int_size (negsuc n) = 1 + decimal_size (suc n) (suc n)

-- The digits behind the point of RFC3339Nano, which drops trailing zeros; 9 digits at most.
unfoldable pub fraction_digits : ℕ → ℕ → ℕ
fraction_digits zero n = 0
fraction_digits (suc width) n = elim (n % 10 == 0) [
  | true ↦ fraction_digits width (n / 10)
  | false ↦ suc width
]

abbrev pub with_point : ℕ → ℕ
with_point digits = if digits == 0 then 0 else 1 + digits

-- "2006-01-02T15:04:05.999999999Z" with its quotes.
unfoldable pub timestamp_size : Time → ℕ
unfolding fraction_digits
timestamp_size t = 22 + with_point (fraction_digits 9 (t % 10 ^ 9))

-- The first nanosecond of the year 10000, from which on a time.Time cannot be marshalled.
abbrev pub year_10000 : Time
year_10000 = 3652059 * 86400 * 10 ^ 9

-- `time.Date(9999, 12, 31, 23, 59, 59, 999_999_999, time.UTC)` in the place of a zero time.
unfoldable pub measured_time : Time → Time
measured_time t = if t == 0 then year_10000 - 1 else t

abbrev pub bool_size : Bool → ℕ
bool_size true = 4
bool_size false = 5

unfoldable pub app_key_size : Option String → ℕ
app_key_size none = 4
app_key_size (some key) = string_size key

unfoldable pub config_size : RawMessage → ℕ
config_size absent = 4
config_size (malformed raw) = 0
config_size (document raw compact value) = compact_size compact

-- The braces, names, colons and commas of one encoded Source.
abbrev pub source_frame : ℕ
source_frame =
    len
      "{'id':,'code':,'name':,'ownership_type':,'channel_type':,'adapter_key':,'enabled':,'endpoint':,'app_key':,'config':,'priority':,'timeout_seconds':,'max_results':,'default_source_level':,'created_at':,'updated_at':}"

-- One encoded Source, the fields in the order of the struct, but for its configuration and its times.
unfoldable pub source_text_size : Source → ℕ
unfolding app_key_size
source_text_size s =
    source_frame
    + string_size s.id
    + string_size s.code
    + string_size s.name
    + string_size s.ownership_type
    + string_size s.channel_type
    + string_size s.adapter_key
    + bool_size s.enabled
    + string_size s.endpoint
    + app_key_size s.app_key
    + int_size s.priority
    + int_size s.timeout_seconds
    + int_size s.max_results
    + string_size s.default_source_level

unfoldable pub source_size : Source → ℕ
source_size s =
    source_text_size s
    + config_size s.config
    + timestamp_size (measured_time s.created_at)
    + timestamp_size (measured_time s.updated_at)

abbrev pub is_malformed : RawMessage → Bool
is_malformed (malformed raw) = true
is_malformed _ = false

-- What json.Marshal refuses: a configuration that is no JSON, and a time past the year 9999.
unfoldable pub can_marshal : Source → Bool
can_marshal s =
    not (is_malformed s.config) && ltb s.created_at year_10000 && ltb s.updated_at year_10000

unfoldable pub all_marshal : List Source → Bool
all_marshal [] = true
all_marshal (s ∷ items) = can_marshal s && all_marshal items

abbrev pub envelope_frame : ℕ
envelope_frame = len "{'request_id':'','result':{'sources':[]}}" + 128 * 4

-- The envelope with its 128 droplets, the commas between the Sources, and the line's end.
unfoldable pub snapshot_envelope_size : List Source → ℕ
snapshot_envelope_size items =
    if all_marshal items
    then envelope_frame + sum_by source_size items + (length items - 1) + 1
    else max_snapshot_envelope_size + 1

unfoldable pub active_of : List Source → List Source
active_of [] = []
active_of (s ∷ items) = let rest = active_of items in if s.enabled then s ∷ rest else rest

unfoldable pub is_active_web : Source → Bool
is_active_web s = s.enabled && str_eq s.channel_type channel_web_search

abbrev pub bit : Bool → ℕ
bit true = 1
bit false = 0

unfoldable pub active_web : List Source → ℕ
active_web = sum_by (λ s. bit (is_active_web s))

module _ (env : Environment) where
  -- `for _, item := range items { if err := validateSource(item, requireTimestamps) … }`
  unfoldable pub validate_each : Bool → List Source → Result Error Unit
  validate_each require_timestamps [] = ok tt
  validate_each require_timestamps (s ∷ items) =
      validate_source env s require_timestamps >> validate_each require_timestamps items

  unfoldable pub validate_projected_set : List Source → Result Error Unit
  validate_projected_set items = do
    reject_if (ltb max_sources (length items)) capacity_exceeded
    validate_each false items
    reject_if (ltb 1 (active_web items)) conflict
    reject_if
        (ltb max_sources (length (active_of items))
          || ltb max_snapshot_envelope_size (snapshot_envelope_size (active_of items)))
        capacity_exceeded
