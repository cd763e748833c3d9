-- ===== src/Examples/Tracked.antt =====
-- A session that follows one of two stocks, and a small hierarchy of industries.
use tidewise_ai.Prelude.{
  ◌≡◌, refl, ap, String, true, false, not, Option, none, some, [], ◌∷◌, Result, ok, err, inl, inr,
  All, str_eq, if◌then◌else◌, sum_by, ℕ,
}
use tidewise_ai.Prelude.Int.{pos}
use tidewise_ai.Prelude.Text.{trim_space, str_mem}
use tidewise_ai.Tracking.{
  Stock, Relations, Page, Filters, Entry, Catalog, FilterOptions, Repository, not_found, company,
  by_id, followed_items, add_child, place_all, search, list, change, filter_options,
}
use tidewise_ai.Tracking.Laws.{Lists, list-Lists}
use tidewise_ai.Tracking.Hierarchy.{Classifies, filter_options-Classifies}

abbrev id_a : String
id_a = "STK0123abcd-0000-0000-0000-0123456789ab"

abbrev id_b : String
id_b = "STK0123abcd-0000-0000-0000-0123456789ac"

abbrev stock : String → String → Stock
stock id name = record {
  id = id;
  name = name;
  symbol = "600000";
  full_name = none;
  industry_l1 = some "Banks";
  industry_l2 = some "Regional banks";
  concepts = [];
}

abbrev entry : String → Option String → Entry
entry id parent = record { id = id; name = id; parent_id = parent }

abbrev catalog : Catalog
catalog = record {
  industries = entry "A1" (some "A") ∷ entry "A" none ∷ entry "B" none ∷ [];
  concepts = [];
  chains = [];
}

abbrev relations : Relations
relations = record { ids = id_b ∷ []; total = 1; next_cursor = "" }

-- The stock that is followed, if there is one.
abbrev repository : Repository (Option String)
repository = record {
  classifications = λ s. ok catalog;
  search = λ q limit offset filters s. ok (stock id_a "First" ∷ stock id_b "Second" ∷ [], false);
  stocks = λ ids s. ok (stock id_b "Second" ∷ []);
  list = λ token cursor limit s. ok relations;
  check = λ token ids s. ok (id_b ∷ []);
  change = λ token id add s. (ok tt, if add then some id else none);
}

abbrev filters : Filters
filters = record { industry_ids = []; concept_ids = []; chain_ids = [] }

unfoldable tracking_code : Unit {0}
unfolding company by_id followed_items add_child place_all search list change str_mem
    tidewise_ai.Prelude.Text.strip_prefix tidewise_ai.Prelude.Text.trim_space
    tidewise_ai.Prelude.Text.trim_left tidewise_ai.Prelude.Text.trim_right
    tidewise_ai.Prelude.Text.has_char tidewise_ai.Stock.Search.matches_stock_id
    tidewise_ai.Stock.Search.match_runs tidewise_ai.Stock.Search.valid_ids
tracking_code = tt

listed : Page
listed = record {
  items = company (stock id_b "Second") true ∷ [];
  total = 1;
  next_cursor = "";
  has_more = false;
}

list_succeeds : list repository "token" "" (pos 20) none ≡ ok listed
unfolding tracking_code listed
list_succeeds = refl

list-Lists_example :
    (r : Relations) × (repository.list "token" "" (pos 20) none ≡ ok r) × Lists repository r listed
list-Lists_example = list-Lists repository "token" "" (pos 20) none listed list_succeeds

follows : change repository "token" id_b true none ≡ (ok tt, some id_b)
unfolding tracking_code
follows = refl

refuses : change repository "token" id_a true none ≡ (err not_found, none)
unfolding tracking_code
refuses = refl

found : Page
found = record {
  items = company (stock id_a "First") false ∷ company (stock id_b "Second") true ∷ [];
  total = 0;
  next_cursor = "";
  has_more = false;
}

options : FilterOptions
options = record {
  industries =
      record { id = "A"; name = "A"; children = entry "A1" (some "A") ∷ [] }
      ∷ record { id = "B"; name = "B"; children = [] }
      ∷ [];
  concepts = [];
  chains = [];
}

options_succeed : filter_options repository none ≡ ok options
unfolding tracking_code options
options_succeed = refl

filter_options-Classifies_example :
    (c : Catalog) × (repository.classifications none ≡ ok c) × Classifies c options
filter_options-Classifies_example =
    filter_options-Classifies repository none options options_succeed
