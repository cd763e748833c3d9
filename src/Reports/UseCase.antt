-- ===== src/Reports/UseCase.antt =====
-- miniapp/backend/internal/biz/report/biz.go: `UseCase`, for a use case and a repository that are there.
use Prim.Native.String.{len}
use tidewise_ai.Prelude.{
  ℕ, zero, suc, String, Bool, true, false, not, ◌&&◌, ◌||◌, Option, none, some, List, [], ◌∷◌,
  Result, ok, err, ◌>>=◌, ◌>>◌, reject_if, ltb, ◌==◌, str_eq, if◌then◌else◌, length,
}
use tidewise_ai.Prelude.Int.{pos, ltb_ℤ, eqb_ℤ}
use tidewise_ai.Prelude.Text.{str_mem}
use tidewise_ai.Account.{Time}
use tidewise_ai.Reports.{
  Error, invalid_request, layer_not_found, chain_not_found, data_unavailable,
  normalize_repository_error, Summary, Page, ListQuery, AnalysisQuery, Projection, Detail,
  Evidences, Repository, valid_report_id, matches_scope_token, matches_local_key,
  validate_summary_order,
}
use tidewise_ai.Reports.Day.{Day, shanghai_day}

abbrev pub version_six : String
version_six = "report-publication/v6"

-- `return nil, normalizeRepositoryError(err)`
abbrev pub normalized : {A : Type 0} → Result Error A → Result Error A
normalized (ok a) = ok a
normalized (err e) = err (normalize_repository_error e)

-- `latestSummary`
abbrev pub is_some : {A : Type 0} → Option A → Bool
is_some none = false
is_some (some a) = true

abbrev pub bad_latest : Page Summary → Bool
bad_latest page =
    ltb 1 (length page.items)
    || length page.items == 0 && is_some page.next_cursor
    || not (validate_summary_order page.items)

abbrev pub first_of : {A : Type 0} → List A → Option A
first_of [] = none
first_of (x ∷ xs) = some x

abbrev pub latest_of : Page Summary → Result Error (Option Summary)
latest_of page = reject_if (bad_latest page) data_unavailable >> ok (first_of page.items)

-- The kinds of analyses.
abbrev pub kinds : List String
kinds =
    "geopolitical_stories" ∷ "macroeconomic_stories" ∷ "concept_analyses"
    ∷ "industry_chain_analyses" ∷ []

-- `validAnalysisQuery`
abbrev pub valid_analysis_query : AnalysisQuery → Bool
valid_analysis_query q =
    valid_report_id q.report_id
    && str_mem q.kind kinds
    && not (ltb_ℤ q.limit (pos 0))
    && not (ltb_ℤ (pos 100) q.limit)
    && not (ltb 2048 (len q.cursor))

abbrev pub with_default_limit : AnalysisQuery → AnalysisQuery
with_default_limit q = record q { limit = if eqb_ℤ q.limit (pos 0) then pos 20 else q.limit }

-- `AnalysisGroup`, `Home`, `HomeSelection` and `HomeCollection`.
pub record Group (C : Type 0) : Type 0 where
  pub kind : String
  pub page : Page (Projection C)

pub record Home (C : Type 0) : Type 0 where
  pub report : Summary
  pub groups : List (Group C)

pub record HomeCollection (C : Type 0) : Type 0 where
  pub mode : String
  pub date : String
  pub timezone : String
  pub reports : List (Home C)

-- `reportPublication`: the pages of reports, until the report is found. The fuel counts the pages.
unfoldable pub published_in : String → List Summary → Option Time
published_in id [] = none
published_in id (s ∷ items) =
    let rest = published_in id items in if str_eq s.id id then some s.published_at else rest

abbrev pub bad_cursor : List String → Page Summary → String → Bool
bad_cursor seen page cursor =
    length page.items == 0 || str_eq cursor "" || ltb 2048 (len cursor) || str_mem cursor seen

-- What the loop does with a page: it returns, or it goes on behind a cursor.
pub data Turn : Type 0 where
  returns : Result Error Time → Turn
  goes_on : String → Turn

abbrev pub behind : List String → Page Summary → Option String → Turn
behind seen page none = returns (err data_unavailable)
behind seen page (some cursor) =
    if bad_cursor seen page cursor then returns (err data_unavailable) else goes_on cursor

abbrev pub look : List String → Page Summary → Option Time → Turn
look seen page (some t) = returns (ok t)
look seen page none = behind seen page page.next_cursor

abbrev pub turn_of : String → List String → Result Error (Page Summary) → Turn
turn_of id seen (err e) = returns (err e)
turn_of id seen (ok page) =
    if ltb 100 (length page.items) || not (validate_summary_order page.items)
    then returns (err data_unavailable)
    else look seen page (published_in id page.items)

module _ {C : Type 0} (repository : Repository C) where
  unfoldable pub latest_summary : ℕ → ListQuery → Result Error (Option Summary)
  latest_summary call query = normalized (repository.list_reports call query) >>= latest_of

  -- `Analyses`
  abbrev pub all_version_six : List (Projection C) → Bool
  all_version_six [] = true
  all_version_six (p ∷ ps) = str_eq p.schema_version version_six && all_version_six ps

  abbrev pub checked_analyses : Page (Projection C) → Result Error (Page (Projection C))
  checked_analyses page = reject_if (not (all_version_six page.items)) layer_not_found >> ok page

  unfoldable pub analyses : ℕ → AnalysisQuery → Result Error (Page (Projection C))
  analyses call q =
      reject_if (not (valid_analysis_query q)) invalid_request
      >> (normalized (repository.list_analyses call (with_default_limit q)) >>= checked_analyses)

  -- `readHome`
  abbrev pub group_query : Summary → String → AnalysisQuery
  group_query summary kind = record {
    report_id = summary.id;
    kind = kind;
    key = "";
    chain_key = "";
    cursor = "";
    limit = pos 20;
  }

  unfoldable pub read_groups : Summary → ℕ → List String → Result Error (List (Group C))
  read_groups summary call [] = ok []
  read_groups summary call (kind ∷ rest) = analyses call (group_query summary kind) >>= λ page.
      read_groups summary (suc call) rest >>= λ groups.
      ok (record { kind = kind; page = page } ∷ groups)

  unfoldable pub read_home : Summary → Result Error (Home C)
  read_home summary =
      reject_if (not (str_eq summary.schema_version version_six)) data_unavailable
      >> (read_groups summary 0 kinds >>= λ groups.
          ok (record { report = summary; groups = groups }))

  -- `Home`: the latest report of the day, or else the latest one.
  abbrev pub collection : String → String → List (Home C) → HomeCollection C
  collection mode date reports = record {
    mode = mode;
    date = date;
    timezone = "Asia/Shanghai";
    reports = reports;
  }

  abbrev pub home_of : String → String → Option Summary → Result Error (HomeCollection C)
  home_of mode date none = ok (collection "today" date [])
  home_of mode date (some summary) =
      read_home summary >>= λ home. ok (collection mode date (home ∷ []))

  abbrev pub today_query : Day → ListQuery
  today_query d = record { published = some (d.from, d.to); limit = 1; cursor = "" }

  abbrev pub latest_query : ListQuery
  latest_query = record { published = none; limit = 1; cursor = "" }

  abbrev pub or_latest : String → Option Summary → Result Error (HomeCollection C)
  or_latest date (some summary) = home_of "today" date (some summary)
  or_latest date none = latest_summary 1 latest_query >>= home_of "latest_fallback" date

  unfoldable pub home : Time → Result Error (HomeCollection C)
  home now = latest_summary 0 (today_query (shanghai_day now)) >>= or_latest (shanghai_day now).date

  -- `Evidences`
  unfoldable pub evidences : String → String → Result Error (Evidences C)
  evidences report_id scope_token =
      reject_if (not (valid_report_id report_id) || not (matches_scope_token scope_token))
        invalid_request
      >> (normalized (repository.list_evidences report_id scope_token) >>= λ value.
          reject_if
            (not (str_eq value.report_id report_id) || not (str_eq value.scope_token scope_token))
            data_unavailable
          >> ok value)

  abbrev pub turn : String → List String → ℕ → String → Option Error → Turn
  turn id seen call cursor (some e) = returns (err e)
  turn id seen call cursor none =
      turn_of id seen
        (repository.list_reports call (record { published = none; limit = 100; cursor = cursor }))

  unfoldable pub report_publication :
      ℕ → String → List String → ℕ → String → Option (Result Error Time)
  report_publication zero id seen call cursor = none
  report_publication (suc fuel) id seen call cursor =
      elim (turn id seen call cursor (repository.context_error call)) [
        | returns r ↦ some r
        | goes_on next ↦ report_publication fuel id (next ∷ seen) (suc call) next
      ]

  -- `Analysis`, with the fuel of its loop.
  abbrev pub with_publication : Detail C → Result Error Time → Result Error (Detail C)
  with_publication p (err e) = err (normalize_repository_error e)
  with_publication p (ok t) = ok (record p { publication = some t })

  abbrev pub published : Detail C → Option (Result Error Time) → Option (Result Error (Detail C))
  published p none = none
  published p (some r) = some (with_publication p r)

  abbrev pub detailed : ℕ → String → Result Error (Detail C) → Option (Result Error (Detail C))
  detailed fuel id (err e) = some (err (normalize_repository_error e))
  detailed fuel id (ok p) =
      if not (str_eq p.summary.schema_version version_six)
      then some (err layer_not_found)
      else published p (report_publication fuel id [] 0 "")

  unfoldable pub analysis : ℕ → AnalysisQuery → Option (Result Error (Detail C))
  analysis fuel q =
      if not (valid_analysis_query q) || not (matches_local_key q.key)
      then some (err invalid_request)
      else detailed fuel q.report_id (repository.get_analysis q)

  -- `AnalysisChain`
  abbrev pub analysis_chain : AnalysisQuery → Result Error C
  analysis_chain q =
      reject_if
        (not (valid_analysis_query q)
          || not (matches_local_key q.key)
          || not (matches_local_key q.chain_key))
        invalid_request
      >> err chain_not_found
