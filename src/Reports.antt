-- ===== src/Reports.antt =====
-- miniapp/backend/internal/biz/report/biz.go: what the mini app reads of published reports. This file
-- has the errors, the records, the patterns of identities and what the repository has to offer.
pub mod Day
pub mod UseCase
pub mod Publication
pub mod Errors
pub mod Order
pub mod Front
use Prim.Native.Char.{code}
use Prim.Native.String.{len, count}
use tidewise_ai.Prelude.{
  ◌≡◌, refl, ℕ, zero, suc, String, Bool, true, false, not, ◌&&◌, ◌||◌, Option, none, some, List, [],
  ◌∷◌, ◌++◌, Result, ok, err, leb, ltb, ◌==◌, str_eq, if◌then◌else◌, length,
}
use tidewise_ai.Prelude.Int.{ℤ, pos, ltb_ℤ, eqb_ℤ}
use tidewise_ai.Prelude.Text.{trim_space, all_chars, is_blank, str_lt, str_mem, strip_prefix}
use tidewise_ai.Account.{Time}

-- `other` is an error of the repository or the context that is none of the package's.
pub data Error : Type 0 where
  invalid_request report_not_found layer_not_found chain_not_found : Error
  evidence_scope_not_found data_unavailable : Error
  other : String → Error

-- `normalizeRepositoryError`
unfoldable pub normalize_repository_error : Error → Error
normalize_repository_error (other e) = data_unavailable
normalize_repository_error e = e

pub record Summary : Type 0 where
  pub schema_version : String
  pub id : String
  pub publisher_report_id : String
  pub generated_at : Time
  pub published_at : Time
  pub industry_chain_count : ℤ

-- A page of a list.
pub record Page (A : Type 0) : Type 0 where
  pub items : List A
  pub next_cursor : Option String

-- `ListQuery`; the bounds of the publication are there both or neither.
pub record ListQuery : Type 0 where
  pub published : Option (Time × Time)
  pub limit : ℕ
  pub cursor : String

pub record AnalysisQuery : Type 0 where
  pub report_id : String
  pub kind : String
  pub key : String
  pub chain_key : String
  pub cursor : String
  pub limit : ℤ

-- What this package reads of an analysis and of a unit's detail; the rest is passed on.
pub record Projection (C : Type 0) : Type 0 where
  pub schema_version : String
  pub content : C

pub record Detail (C : Type 0) : Type 0 where
  pub summary : Projection C
  pub publication : Option Time

pub record Evidences (C : Type 0) : Type 0 where
  pub report_id : String
  pub scope_token : String
  pub content : C

-- `Repository`, whose answers depend on the number of the call as well, and ctx.Err().
pub record Repository (C : Type 0) : Type 0 where
  pub list_reports : ℕ → ListQuery → Result Error (Page Summary)
  pub list_analyses : ℕ → AnalysisQuery → Result Error (Page (Projection C))
  pub get_analysis : AnalysisQuery → Result Error (Detail C)
  pub list_evidences : String → String → Result Error (Evidences C)
  pub context_error : ℕ → Option Error

-- A pattern of one character class for each character.
unfoldable pub matches : List (ℕ → Bool) → String → Bool
matches [] String.[] = true
matches [] (String.◌∷◌ c s) = false
matches (p ∷ ps) String.[] = false
matches (p ∷ ps) (String.◌∷◌ c s) = p (code c) && matches ps s

abbrev pub is_hex : ℕ → Bool
is_hex c = leb b'0' c && leb c b'9' || leb b'a' c && leb c b'f'

abbrev is_dash : ℕ → Bool
is_dash c = c == b'-'

abbrev is_version : ℕ → Bool
is_version c = leb b'1' c && leb c b'5'

abbrev is_variant : ℕ → Bool
is_variant c = c == b'8' || c == b'9' || c == b'a' || c == b'b'

abbrev run : ℕ → List (ℕ → Bool) → List (ℕ → Bool)
run zero ps = ps
run (suc n) ps = is_hex ∷ run n ps

-- `[0-9a-f]{8}-[0-9a-f]{4}-[1-5][0-9a-f]{3}-[89ab][0-9a-f]{3}-[0-9a-f]{12}`
abbrev uuid_classes : List (ℕ → Bool)
uuid_classes = run 8 (
    is_dash
    ∷ run 4 (is_dash ∷ is_version ∷ run 3 (is_dash ∷ is_variant ∷ run 3 (is_dash ∷ run 12 []))))

abbrev pub matches_uuid : Option String → Bool
matches_uuid none = false
matches_uuid (some rest) = matches uuid_classes rest

-- `reportIDPattern` and `scopeTokenPattern`
abbrev pub matches_report_id : String → Bool
matches_report_id s = matches_uuid (strip_prefix "RPT" s)

abbrev pub matches_scope_token : String → Bool
matches_scope_token s = matches_uuid (strip_prefix "RPE" s)

abbrev is_alphanumeric : ℕ → Bool
is_alphanumeric c = leb b'A' c && leb c b'Z' || leb b'a' c && leb c b'z' || leb b'0' c && leb c b'9'

abbrev is_key_char : ℕ → Bool
is_key_char c = is_alphanumeric c || c == b'.' || c == b'_' || c == b'-'

-- `localKeyPattern`
abbrev pub matches_local_key : String → Bool
matches_local_key String.[] = false
matches_local_key (String.◌∷◌ c s) =
    is_alphanumeric (code c) && all_chars is_key_char s && leb (count s) 127

abbrev pub valid_report_id : String → Bool
valid_report_id s = str_eq s (trim_space s) && matches_report_id s

-- `validateSummaryOrder`: `previous` is the item before.
abbrev pub bad_summary : Summary → Bool
bad_summary s =
    not (valid_report_id s.id)
    || is_blank s.publisher_report_id
    || s.generated_at == 0
    || s.published_at == 0
    || ltb_ℤ s.industry_chain_count (pos 0)
    || str_eq s.schema_version "" && ltb_ℤ s.industry_chain_count (pos 1)

abbrev pub out_of_order : Option Summary → Summary → Bool
out_of_order none s = false
out_of_order (some p) s =
    ltb p.published_at s.published_at || s.published_at == p.published_at && str_lt s.id p.id

unfoldable pub ordered_from : List String → Option Summary → List Summary → Bool
ordered_from seen previous [] = true
ordered_from seen previous (s ∷ items) =
    let rest = ordered_from (s.id ∷ seen) (some s) items in
    if bad_summary s || str_mem s.id seen || out_of_order previous s then false else rest

abbrev pub validate_summary_order : List Summary → Bool
validate_summary_order items = ordered_from [] none items

valid_report_id_test : valid_report_id "RPT0123abcd-0000-4000-8000-0123456789ab" ≡ true
unfolding matches strip_prefix trim_space
valid_report_id_test = refl
