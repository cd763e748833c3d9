-- ===== src/Examples/Reading.antt =====
-- Two published reports on two pages, and the home page of the mini app.
use tidewise_ai.Prelude.{
  ℕ, suc, ◌+◌, ◌*◌, ◌%◌, ◌≤◌, ◌<◌, ◌≡◌, refl, sym, ap, ◌∙◌, String, Bool, true, false, Option, none,
  some, List, [], ◌∷◌, ◌++◌, Result, ok, err, arith, if◌then◌else◌, str_eq, Bool-cases, inl, inr,
  length, ◌⊎◌, ltb,
}
use tidewise_ai.Prelude.Int.{pos}
use tidewise_ai.Prelude.Text.{str_mem, Distinct}
use tidewise_ai.Account.{Time}
use tidewise_ai.Reports.{
  Error, Summary, Page, AnalysisQuery, Repository, ordered_from, matches, data_unavailable,
}
use tidewise_ai.Reports.Day.{hour, day, shanghai_day, shanghai_day-from}
use tidewise_ai.Reports.UseCase.{
  HomeCollection, version_six, report_publication, published_in, home, latest_summary, analyses,
  read_groups, read_home, evidences, analysis,
}
use tidewise_ai.Reports.Publication.{
  CursorsIn, report_publication-Returns, Pages, last, leads, count_pages, answer, Pages-answer,
}
use tidewise_ai.Reports.Errors.{Known, KnownIn, home-Known}
use tidewise_ai.Reports.Order.{ids_of, NewestFirst, validate_summary_order-NewestFirst}

abbrev summary : String → Time → Summary
summary id time = record {
  schema_version = version_six;
  id = id;
  publisher_report_id = "daily";
  generated_at = time;
  published_at = time;
  industry_chain_count = pos 1;
}

abbrev id_a : String
id_a = "RPT0123abcd-0000-4000-8000-0123456789ab"

abbrev id_b : String
id_b = "RPT0123abcd-0000-4000-8000-0123456789ac"

abbrev first_page : Page Summary
first_page = record { items = summary id_a 2000 ∷ []; next_cursor = some "next" }

abbrev second_page : Page Summary
second_page = record { items = summary id_b 1000 ∷ []; next_cursor = none }

abbrev repository : Repository (Unit {0})
repository = record {
  list_reports = λ call q. ok (if str_eq q.cursor "next" then second_page else first_page);
  list_analyses = λ call q. ok (record { items = []; next_cursor = none });
  get_analysis = λ q. err data_unavailable;
  list_evidences = λ id token. err data_unavailable;
  context_error = λ call. none;
}

unfoldable report_code : Unit {0}
unfolding report_publication published_in home latest_summary analyses read_groups read_home
    ordered_from matches str_mem tidewise_ai.Prelude.Text.strip_prefix
    tidewise_ai.Prelude.Text.trim_space tidewise_ai.Prelude.Text.trim_left
    tidewise_ai.Prelude.Text.trim_right tidewise_ai.Prelude.Text.all_chars
report_code = tt

abbrev one_cursor : List String
one_cursor = "next" ∷ []

cursors : CursorsIn repository one_cursor
unfolding report_code
cursors call q page cursor h k short = elim (Bool-cases (str_eq q.cursor "next")) [
  | inl e ↦
      let f : ok second_page ≡ ok page = rw e at h in
      let g : second_page ≡ page = cc in
      let bad : none ≡ some cursor = ap (λ p. p.next_cursor) g ∙ k in absurd (cc)
  | inr e ↦
      let f : ok first_page ≡ ok page = rw e at h in
      let g : first_page ≡ page = cc in
      let next : some "next" ≡ some cursor = ap (λ p. p.next_cursor) g ∙ k in
      let same : cursor ≡ "next" = cc in rw same refl
]

report_publication-Returns_example :
    (r : Result Error Time) × (report_publication repository (suc (length one_cursor)) id_b [] 0 ""
      ≡ some r)
report_publication-Returns_example = report_publication-Returns repository one_cursor id_b cursors

pages : Pages repository 0 "" [] (first_page.items ++ second_page.items)
unfolding report_code
pages = leads first_page "next" refl refl refl refl refl (last second_page refl refl refl refl)

Pages-answer_example :
    report_publication repository (count_pages repository pages) id_b [] 0 ""
    ≡ some (answer repository (published_in id_b (first_page.items ++ second_page.items)))
Pages-answer_example =
    Pages-answer repository id_b 0 "" [] (first_page.items ++ second_page.items) pages

abbrev query : AnalysisQuery
query = record {
  report_id = id_a;
  kind = "concept_analyses";
  key = "unit-1";
  chain_key = "";
  cursor = "";
  limit = pos 0;
}

home-Known_example :
    Known (home repository (20 * hour))
    × Known (analyses repository 0 query)
    × Known (evidences repository id_a "RPE0123abcd-0000-4000-8000-0123456789ab")
    × KnownIn (analysis repository 5 query)
home-Known_example =
    home-Known repository (20 * hour) 0 5 query id_a "RPE0123abcd-0000-4000-8000-0123456789ab"

validate_summary_order-NewestFirst_example :
    Distinct (ids_of (first_page.items ++ second_page.items))
    × NewestFirst none (first_page.items ++ second_page.items)
unfolding report_code
validate_summary_order-NewestFirst_example =
    validate_summary_order-NewestFirst (first_page.items ++ second_page.items) refl

abbrev shown : Result Error (HomeCollection (Unit {0})) → HomeCollection (Unit {0})
shown (ok c) = c
shown (err e) = record { mode = ""; date = ""; timezone = ""; reports = [] }

shanghai_day-from_example :
    ((shanghai_day (20 * hour)).from ≤ 20 * hour)
    × (20 * hour < (shanghai_day (20 * hour)).to)
    × ((shanghai_day (20 * hour)).to ≡ (shanghai_day (20 * hour)).from + day)
    × (((shanghai_day (20 * hour)).from + 8 * hour) % day ≡ 0)
shanghai_day-from_example = shanghai_day-from (20 * hour) (omega arith)
