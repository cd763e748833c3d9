-- ===== src/Stock/Search.antt =====
-- `UseCase.Search` of biz/stock/biz.go: the query that reaches the repository.
pub mod Laws
use Prim.Native.Char.{code}
use Prim.Native.String.{count, len}
use mathlib.Core.Path.{subst, sym}
use tidewise_ai.Prelude.{
  ℕ, ◌+◌, ◌≤◌, ◌≡◌, refl, String, Bool, true, false, ◌&&◌, ◌||◌, not, Option, none, some, List, [],
  ◌∷◌, Result, ok, err, ◌>>=◌, ◌>>◌, reject_if, ltb, leb, ◌==◌, str_eq, if◌then◌else◌, length, zero,
  suc, arith, Bool-cases, inl, inr, ◌⊎◌, bind-ok, str_eq_to, str_eq_self,
}
use tidewise_ai.Prelude.Int.{ℤ, pos, ltb_ℤ, eqb_ℤ, ◌≤ℤ◌}
use tidewise_ai.Prelude.Text.{trim_space, has_char, is_control, str_mem, strip_prefix, Distinct}
use tidewise_ai.Identity
use tidewise_ai.Identity.{UuidPackage}
use tidewise_ai.Stock.{Error, invalid, exchange_name}

pub record Query : Type 0 where
  pub text : String
  pub exchange : String
  pub ids : List String
  pub industry_ids : List String
  pub concept_ids : List String
  pub chain_ids : List String
  pub limit : ℤ
  pub offset : ℤ

abbrev pub is_hex : ℕ → Bool
is_hex c = leb b'0' c && leb c b'9' || leb b'a' c && leb c b'f'

-- `[0-9a-f]{n}` at each run of an identity, with a dash behind it but for the last.
unfoldable pub match_runs : ℕ → List ℕ → String → Bool
match_runs zero [] String.[] = true
match_runs zero [] (String.◌∷◌ c s) = false
match_runs zero (run ∷ runs) String.[] = false
match_runs zero (run ∷ runs) (String.◌∷◌ c s) = code c == b'-' && match_runs run runs s
match_runs (suc n) runs String.[] = false
match_runs (suc n) runs (String.◌∷◌ c s) = is_hex (code c) && match_runs n runs s

abbrev behind_prefix : Option String → Bool
behind_prefix none = false
behind_prefix (some rest) = match_runs 8 (4 ∷ 4 ∷ 4 ∷ 12 ∷ []) rest

-- `stockIDPattern`
unfoldable pub matches_stock_id : String → Bool
unfolding match_runs
matches_stock_id id = behind_prefix (strip_prefix "STK" id)

-- A loop over identities with a set of those that were seen: each passes the test, and none twice.
unfoldable pub valid_ids : (String → Bool) → List String → List String → Bool
valid_ids test seen [] = true
valid_ids test seen (id ∷ ids) =
    let rest = valid_ids test (id ∷ seen) ids in
    if not (test id) || str_mem id seen then false else rest

abbrev pub checked_ids : ℕ → (String → Bool) → List String → Result Error (Unit {0})
checked_ids bound test ids =
    reject_if (ltb bound (length ids) || not (valid_ids test [] ids)) invalid

-- What stands beside identities of stocks.
abbrev pub asks_more : Query → Bool
asks_more q =
    ltb 100 (length q.ids)
    || not (str_eq q.text "")
    || not (str_eq q.exchange "")
    || not (eqb_ℤ q.offset (pos 0))

abbrev pub out_of_page : Query → Bool
out_of_page q =
    ltb 64 (count (trim_space q.text))
    || has_char is_control (trim_space q.text)
    || not (str_eq q.exchange "") && str_eq (exchange_name q.exchange) ""
    || ltb_ℤ q.limit (pos 1)
    || ltb_ℤ (pos 100) q.limit
    || ltb_ℤ q.offset (pos 0)
    || ltb_ℤ (pos 10_000) q.offset

abbrev pub mixed : Query → Bool
mixed q =
    ltb 0 (length q.ids)
    && ltb 0 (length q.industry_ids + length q.concept_ids + length q.chain_ids)

module _ (uuid : UuidPackage) where
  abbrev pub by_ids : Query → Result Error Query
  by_ids q = do
    reject_if (asks_more q) invalid
    reject_if (not (valid_ids matches_stock_id [] q.ids)) invalid
    ok (record q { limit = pos 100 })

  abbrev pub by_text : Query → Result Error Query
  by_text q = do reject_if (out_of_page q) invalid; ok (record q { text = trim_space q.text })

  -- The query that is handed to `repo.Search`, or the error that is returned without a search.
  unfoldable pub search_query : Query → Result Error Query
  search_query q = do
    checked_ids 20 (λ id. Identity.is uuid id "SIND") q.industry_ids
    checked_ids 20 (λ id. Identity.is uuid id "SCON") q.concept_ids
    checked_ids 20 (λ id. Identity.is uuid id "SICH") q.chain_ids
    reject_if (mixed q) invalid
    if ltb 0 (length q.ids) then by_ids q else by_text q
