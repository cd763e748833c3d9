-- ===== src/Tracking/Search.antt =====
-- What `Search` of miniapp/backend/internal/biz/tracking/biz.go shows.
use tidewise_ai.Prelude.{◌≡◌, String, Bool, List, [], ok, ◌⊎◌, All}
use tidewise_ai.Prelude.Text.{str_mem}
use tidewise_ai.Tracking.{Stock, Company, Page, Repository, ids_of}
use tidewise_ai.Tracking.Laws.{ids_in}

-- The mark of a company says whether its identity is among those that were found.
abbrev pub Marks : List String → Company → Type 0
Marks found c = c.is_followed ≡ str_mem c.id found

module _ {S : Type 0} (repo : Repository S) where
  -- What a session follows of some stocks: nothing without a token, else what the user service answers.
  abbrev pub FollowedOf : String → List String → S → List String → Type 0
  FollowedOf token ids s found = ((token ≡ "") × (found ≡ [])) ⊎ (repo.check token ids s ≡ ok found)

  -- A page of companies for some stocks.
  abbrev pub Shows : String → S → List Stock × Bool → Page → Type 0
  Shows token s (stocks, more) page =
      (found : List String) × FollowedOf token (ids_of stocks) s found
      × (ids_in page.items ≡ ids_of stocks)
      × All (Marks found) page.items
      × (page.has_more ≡ more)
