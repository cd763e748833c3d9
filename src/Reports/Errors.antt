-- ===== src/Reports/Errors.antt =====
-- The errors of miniapp/backend/internal/biz/report/biz.go: none of the repository's own gets out.
use tidewise_ai.Prelude.{
  ℕ, ◌≡◌, refl, String, Bool, true, false, not, ◌||◌, Option, none, some, List, [], ◌∷◌, Result, ok,
  err, ◌>>=◌, ◌>>◌, reject_if, if◌then◌else◌, suc, str_eq,
}
use tidewise_ai.Account.{Time}
use tidewise_ai.Reports.{
  Error, other, invalid_request, report_not_found, layer_not_found, chain_not_found,
  evidence_scope_not_found, data_unavailable, normalize_repository_error, Summary, ListQuery,
  AnalysisQuery, Detail, Repository, matches_local_key,
}
use tidewise_ai.Reports.UseCase.{
  normalized, latest_summary, bad_latest, analyses, valid_analysis_query, with_default_limit,
  read_groups, read_home, home_of, or_latest, home, evidences, analysis, detailed, published,
  report_publication, kinds, version_six, today_query, latest_query,
}
use tidewise_ai.Reports.Day.{shanghai_day}

-- One of the six errors of the package.
unfoldable pub is_report_error : Error → Bool
is_report_error (other e) = false
is_report_error _ = true

abbrev pub Known : {A : Type 0} → Result Error A → Type 0
Known (ok a) = Unit
Known (err e) = is_report_error e ≡ true

abbrev pub KnownIn : {A : Type 0} → Option (Result Error A) → Type 0
KnownIn none = Unit
KnownIn (some r) = Known r

normalize_known : (e : Error) → is_report_error (normalize_repository_error e) ≡ true
unfolding is_report_error normalize_repository_error
normalize_known invalid_request = refl
normalize_known report_not_found = refl
normalize_known layer_not_found = refl
normalize_known chain_not_found = refl
normalize_known evidence_scope_not_found = refl
normalize_known data_unavailable = refl
normalize_known (other e) = refl

Known-normalized : {A : Type 0} (r : Result Error A) → Known (normalized r)
Known-normalized (ok a) = tt
Known-normalized (err e) = normalize_known e

Known-bind :
    {A B : Type 0} (r : Result Error A) (f : A → Result Error B)
    → Known r
    → ((a : A) → Known (f a))
    → Known (r >>= f)
Known-bind (ok a) f h k = k a
Known-bind (err e) f h k = h

Known-reject :
    {B : Type 0} (b : Bool) (e : Error) (r : Result Error B)
    → is_report_error e ≡ true
    → Known r
    → Known (reject_if b e >> r)
Known-reject true e r h k = h
Known-reject false e r h k = k

module _ {C : Type 0} (repository : Repository C) where
  Known-latest : (call : ℕ) (q : ListQuery) → Known (latest_summary repository call q)
  unfolding latest_summary is_report_error
  Known-latest call q =
      Known-bind _ _ (Known-normalized (repository.list_reports call q))
        λ page. Known-reject (bad_latest page) data_unavailable _ refl tt

  Known-analyses : (call : ℕ) (q : AnalysisQuery) → Known (analyses repository call q)
  unfolding analyses is_report_error
  Known-analyses call q = Known-reject (not (valid_analysis_query q)) invalid_request _ refl (
      Known-bind _ _ (Known-normalized (repository.list_analyses call (with_default_limit q)))
        λ page. Known-reject _ layer_not_found (ok page) refl tt)

  Known-groups :
      (s : Summary) (call : ℕ) (ks : List String) → Known (read_groups repository s call ks)
  unfolding read_groups
  Known-groups s call [] = tt
  Known-groups s call (kind ∷ ks) =
      Known-bind _ _ (Known-analyses call _)
        λ page. Known-bind _ _ (Known-groups s (suc call) ks) λ groups. tt

  Known-home_of : (mode date : String) (o : Option Summary) → Known (home_of repository mode date o)
  unfolding read_home is_report_error
  Known-home_of mode date none = tt
  Known-home_of mode date (some s) =
      Known-bind _ _
        (Known-reject (not (str_eq s.schema_version version_six)) data_unavailable _ refl
          (Known-bind _ _ (Known-groups s 0 kinds) λ groups. tt))
        λ page. tt

  Known-or_latest : (date : String) (o : Option Summary) → Known (or_latest repository date o)
  Known-or_latest date (some s) = Known-home_of "today" date (some s)
  Known-or_latest date none =
      Known-bind _ _ (Known-latest 1 (latest_query repository))
        λ o. Known-home_of "latest_fallback" date o

  Known-home : (now : Time) → Known (home repository now)
  unfolding home
  Known-home now =
      Known-bind _ _ (Known-latest 0 (today_query repository (shanghai_day now)))
        λ o. Known-or_latest (shanghai_day now).date o

  Known-evidences :
      (report_id scope_token : String) → Known (evidences repository report_id scope_token)
  unfolding evidences is_report_error
  Known-evidences report_id scope_token = Known-reject _ invalid_request _ refl (
      Known-bind _ _ (Known-normalized (repository.list_evidences report_id scope_token))
        λ value. Known-reject _ data_unavailable (ok value) refl tt)

  Known-published :
      (p : Detail C) (o : Option (Result Error Time)) → KnownIn (published repository p o)
  Known-published p none = tt
  Known-published p (some (ok t)) = tt
  Known-published p (some (err e)) = normalize_known e

  Known-detailed :
      (fuel : ℕ) (id : String) (r : Result Error (Detail C))
      → KnownIn (detailed repository fuel id r)
  unfolding is_report_error
  Known-detailed fuel id (err e) = normalize_known e
  Known-detailed fuel id (ok p) = at_version (not (str_eq p.summary.schema_version version_six))
    where
      at_version :
          (b : Bool)
          → KnownIn (
              if b
              then some (err layer_not_found)
              else published repository p (report_publication repository fuel id [] 0 ""))
      at_version true = refl
      at_version false = Known-published p (report_publication repository fuel id [] 0 "")

  Known-analysis : (fuel : ℕ) (q : AnalysisQuery) → KnownIn (analysis repository fuel q)
  unfolding analysis is_report_error
  Known-analysis fuel q = at_query (not (valid_analysis_query q) || not (matches_local_key q.key))
    where
      at_query :
          (b : Bool)
          → KnownIn (
              if b
              then some (err invalid_request)
              else detailed repository fuel q.report_id (repository.get_analysis q))
      at_query true = refl
      at_query false = Known-detailed fuel q.report_id (repository.get_analysis q)

  -- Whatever the repository and the context answer, Home, Analyses, Evidences and Analysis return one of
  -- the six errors of the package or none.
  pub home-Known :
      (now : Time) (call fuel : ℕ) (q : AnalysisQuery) (report_id scope_token : String)
      → Known (home repository now)
        × Known (analyses repository call q)
        × Known (evidences repository report_id scope_token)
        × KnownIn (analysis repository fuel q)
  home-Known now call fuel q report_id scope_token = (
    Known-home now,
    Known-analyses call q,
    Known-evidences report_id scope_token,
    Known-analysis fuel q,
  )
