-- ===== src/Source/Validation.antt =====
-- `validateSource` of biz/source/biz.go. net/url is a parameter: what url.Parse finds.
use Prim.Native.Char.{code}
use Prim.Native.String.{count}
use tidewise_ai.Prelude.{
  ℕ, String, Bool, true, false, ◌&&◌, ◌||◌, not, Option, none, some, List, [], ◌∷◌, Result, ◌>>◌,
  reject_if, ltb, leb, ◌==◌, str_eq,
}
use tidewise_ai.Prelude.Int.{ℤ, pos, ltb_ℤ}
use tidewise_ai.Prelude.Text.{is_blank, str_mem, all_chars}
use tidewise_ai.Identity
use tidewise_ai.Identity.{UuidPackage}
use tidewise_ai.Source.{
  Error, validation, Source, ownership_fixed, ownership_dynamic, channel_web_search, channel_api,
  channel_rss, adapter_generic_rss,
}
use tidewise_ai.Source.Config.{validate_config, valid_source_level}

-- The scheme and the host of a URL that url.Parse accepts.
pub record Url : Type 0 where
  pub scheme : String
  pub host : String

-- The packages that are no part of the repository or that read a format of their own.
pub record Environment : Type 0 where
  pub uuid : UuidPackage
  pub parse_url : String → Option Url  -- url.Parse

unfoldable pub is_code_start : ℕ → Bool
is_code_start c = leb b'a' c && leb c b'z' || leb b'0' c && leb c b'9'

unfoldable pub is_code_char : ℕ → Bool
unfolding is_code_start
is_code_char c = is_code_start c || c == b'_' || c == b'-'

-- `^[a-z0-9][a-z0-9_-]{0,63}$`
unfoldable pub matches_code_pattern : String → Bool
unfolding is_code_char
matches_code_pattern String.[] = false
matches_code_pattern (String.◌∷◌ c s) =
    is_code_start (code c) && all_chars is_code_char s && leb (count s) 63

abbrev pub adapters : List String
adapters =
    "bocha" ∷ "tavily" ∷ "parallel" ∷ "cls" ∷ "eastmoney_fast" ∷ "eastmoney_stock" ∷ "stcn"
    ∷ "generic_rss" ∷ []

unfoldable pub valid_adapter : String → Bool
valid_adapter value = str_mem value adapters

-- `parsed.Host == "" || (parsed.Scheme != "http" && parsed.Scheme != "https")`, and the parse error
unfoldable pub bad_url : Option Url → Bool
bad_url none = true
bad_url (some u) = str_eq u.host "" || not (str_eq u.scheme "http") && not (str_eq u.scheme "https")

unfoldable pub bad_app_key : Option String → Bool
bad_app_key none = false
bad_app_key (some key) = is_blank key || ltb 512 (count key)

abbrev pub out_of_range : ℕ → ℤ → Bool
out_of_range high n = ltb_ℤ n (pos 1) || ltb_ℤ (pos high) n

module _ (env : Environment) (item : Source) where
  -- The labels of a Source, in the order of the tests.
  unfoldable pub validate_labels : Result Error Unit
  validate_labels = do
    reject_if (not (Identity.is env.uuid item.id "SRC"))
        (validation "id" "must be a stable Source ID")
    reject_if (not (matches_code_pattern item.code))
        (validation "code" "must match the Source code format")
    reject_if (is_blank item.name || ltb 100 (count item.name))
        (validation "name" "must be nonblank and contain at most 100 characters")
    reject_if
        (not (str_eq item.ownership_type ownership_fixed)
          && not (str_eq item.ownership_type ownership_dynamic))
        (validation "ownership_type" "is invalid")
    reject_if
        (not (str_eq item.channel_type channel_web_search)
          && not (str_eq item.channel_type channel_api)
          && not (str_eq item.channel_type channel_rss))
        (validation "channel_type" "is invalid")
    reject_if (not (valid_adapter item.adapter_key)) (validation "adapter_key" "is invalid")
    reject_if
        (str_eq item.ownership_type ownership_dynamic
          && (not (str_eq item.channel_type channel_rss)
              || not (str_eq item.adapter_key adapter_generic_rss)))
        (validation "adapter_key" "dynamic Sources must use generic_rss")

  -- The endpoint, the credential and the configuration.
  unfoldable pub validate_access : Result Error Unit
  validate_access = do
    reject_if (ltb 2048 (count item.endpoint))
        (validation "endpoint" "must contain at most 2048 characters")
    reject_if (bad_url (env.parse_url item.endpoint))
        (validation "endpoint" "must be an absolute HTTP(S) URL")
    reject_if (bad_app_key item.app_key)
        (validation "app_key" "must be nonblank and contain at most 512 characters when present")
    validate_config item.config

  -- The numbers and the level.
  unfoldable pub validate_limits : Result Error Unit
  validate_limits = do
    reject_if (out_of_range 5 item.priority) (validation "priority" "must be between 1 and 5")
    reject_if (out_of_range 300 item.timeout_seconds)
        (validation "timeout_seconds" "must be between 1 and 300")
    reject_if (out_of_range 100 item.max_results)
        (validation "max_results" "must be between 1 and 100")
    reject_if (not (valid_source_level item.default_source_level))
        (validation "default_source_level" "is invalid")

  -- The two tests under `requireTimestamps`.
  unfoldable pub validate_timestamps : Bool → Result Error Unit
  validate_timestamps require_timestamps = do
    reject_if (require_timestamps && (item.created_at == 0 || item.updated_at == 0))
        (validation "created_at" "persisted Source timestamps are required")
    reject_if (require_timestamps && ltb item.updated_at item.created_at)
        (validation "updated_at" "must not precede created_at")

  unfoldable pub validate_source : Bool → Result Error Unit
  validate_source require_timestamps = do
    validate_labels
    validate_access
    validate_limits
    validate_timestamps require_timestamps
