-- ===== src/Source/Config.antt =====
-- `compactConfig` and `validateConfig` of biz/source/biz.go.
use Prim.Native.String.{len}
use tidewise_ai.Prelude.{
  ℕ, String, Bool, true, false, ◌&&◌, ◌||◌, not, Option, none, some, List, [], ◌∷◌, Result, ok, err,
  ◌>>◌, reject_if, ltb,
}
use tidewise_ai.Prelude.Text.{is_blank, str_mem}
use tidewise_ai.Prelude.Decimal.{decimal}
use tidewise_ai.Json.{
  Json, Fields, null, num, text, obj, end, field, RawMessage, absent, malformed, document, entries,
  find_field,
}
use tidewise_ai.Source.{Error, validation, max_config_bytes}

unfoldable pub compact_config : RawMessage → RawMessage
compact_config absent = document "{}" "{}" (obj end)
compact_config (malformed raw) = malformed raw
compact_config (document raw compact value) = document compact compact value

abbrev pub message_bytes : RawMessage → ℕ
message_bytes absent = 0
message_bytes (malformed raw) = len raw
message_bytes (document raw compact value) = len raw

abbrev pub source_levels : List String
source_levels = "L1_OFFICIAL" ∷ "L2_WIRE" ∷ "L3_MEDIA" ∷ "L4_SOCIAL" ∷ []

unfoldable pub valid_source_level : String → Bool
valid_source_level value = str_mem value source_levels

-- `json.Unmarshal(maxRaw, &maximum)` and the test of its range. A literal with a sign, a fraction or an
-- exponent is either no int or out of the range; `null` leaves the zero.
abbrev pub in_range : Option ℕ → Bool
in_range none = false
in_range (some maximum) = not (ltb maximum 65_536 || ltb 10_485_760 maximum)

unfoldable pub valid_max_bytes : Json → Bool
valid_max_bytes (num literal) = in_range (decimal 0 literal)
valid_max_bytes _ = false

-- Decoding into `map[string]SourceLevel`: every value is a text, or `null`, which leaves "".
abbrev pub is_level : Json → Bool
is_level null = true
is_level (text level) = true
is_level _ = false

unfoldable pub decodes_to_levels : Fields → Bool
decodes_to_levels end = true
decodes_to_levels (field host level fs) = is_level level && decodes_to_levels fs

abbrev pub level_text : Json → String
level_text (text level) = level
level_text _ = ""

unfoldable pub valid_levels : Fields → Bool
valid_levels end = true
valid_levels (field host level fs) =
    not (is_blank host || not (valid_source_level (level_text level))) && valid_levels fs

unfoldable pub validate_levels : Option Json → Result Error Unit
validate_levels none = ok tt
validate_levels (some null) = ok tt
validate_levels (some (obj fs)) = do
  reject_if (not (decodes_to_levels fs)) (validation "config.source_levels" "must be an object")
  reject_if (not (valid_levels (entries fs)))
      (validation "config.source_levels" "contains an invalid host or Source level")
validate_levels (some value) = err (validation "config.source_levels" "must be an object")

unfoldable pub validate_max_bytes : Option Json → Result Error Unit
validate_max_bytes none = ok tt
validate_max_bytes (some value) =
    reject_if (not (valid_max_bytes value))
      (validation "config.max_bytes" "must be between 65536 and 10485760")

unfoldable pub validate_object : RawMessage → Result Error Unit
validate_object (document raw compact (obj fs)) = do
  validate_levels (find_field "source_levels" (entries fs))
  validate_max_bytes (find_field "max_bytes" (entries fs))
validate_object message = err (validation "config" "must be a JSON object")

unfoldable pub validate_config : RawMessage → Result Error Unit
validate_config raw =
    let compact = compact_config raw in
    do
      reject_if (ltb max_config_bytes (message_bytes compact))
          (validation "config" "compact JSON must contain at most 4096 bytes")
      validate_object compact
