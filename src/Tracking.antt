-- ===== src/Tracking.antt =====
-- miniapp/backend/internal/biz/tracking/biz.go: the stocks that a user follows, as the mini app shows
-- them. The repository, a client of the user service and of the data service, is a parameter.
pub mod Laws
pub mod Hierarchy
pub mod Search
use Prim.Native.Char.{code}
use Prim.Native.String
use Prim.Native.String.{count, len}
use tidewise_ai.Prelude.{
  ℕ, ◌+◌, String, Bool, true, false, not, ◌&&◌, ◌||◌, Option, none, some, List, [], ◌∷◌, ◌++◌,
  Result, ok, err, ◌>>=◌, ◌>>◌, reject_if, ltb, ◌==◌, str_eq, if◌then◌else◌, length,
}
use tidewise_ai.Prelude.Int.{ℤ, pos, ltb_ℤ}
use tidewise_ai.Prelude.Text.{trim_space, has_char, is_control, str_mem, strip_prefix, is_empty}
use tidewise_ai.Stock.Search.{matches_stock_id, valid_ids}
use tidewise_ai.Reports.{matches_uuid}

pub data Error : Type 0 where
  invalid unauthenticated disabled unavailable not_found : Error
  other : String → Error

-- `ValidID`
abbrev pub valid_id : String → Bool
valid_id id = matches_stock_id id

-- `nil` is the empty text where the code reads it by `text`.
pub record Stock : Type 0 where
  pub id : String
  pub name : String
  pub symbol : String
  pub full_name : Option String
  pub industry_l1 : Option String
  pub industry_l2 : Option String
  pub concepts : List String

pub record Company : Type 0 where
  pub id : String
  pub title : String
  pub stock_name : String
  pub symbol : String
  pub industry_label : String
  pub industry_path : String
  pub concepts : List String
  pub is_followed : Bool

pub record Relations : Type 0 where
  pub ids : List String
  pub total : ℕ
  pub next_cursor : String

pub record Page : Type 0 where
  pub items : List Company
  pub total : ℕ
  pub next_cursor : String
  pub has_more : Bool

pub record Filters : Type 0 where
  pub industry_ids : List String
  pub concept_ids : List String
  pub chain_ids : List String

-- `Option` of the source: one entry of a classification.
pub record Entry : Type 0 where
  pub id : String
  pub name : String
  pub parent_id : Option String

pub record Catalog : Type 0 where
  pub industries : List Entry
  pub concepts : List Entry
  pub chains : List Entry

pub record IndustryOption : Type 0 where
  pub id : String
  pub name : String
  pub children : List Entry

pub record FilterOptions : Type 0 where
  pub industries : List IndustryOption
  pub concepts : List Entry
  pub chains : List Entry

-- `Repository`: only Change writes.
pub record Repository (S : Type 0) : Type 0 where
  pub classifications : S → Result Error Catalog
  pub search : String → ℤ → ℤ → Filters → S → Result Error (List Stock × Bool)
  pub stocks : List String → S → Result Error (List Stock)
  pub list : String → String → ℤ → S → Result Error Relations
  pub check : String → List String → S → Result Error (List String)
  pub change : String → String → Bool → S → Result Error (Unit {0}) × S

-- `ValidFilterIDs`
abbrev pub matches_filter_id : String → String → Bool
matches_filter_id prefix id = matches_uuid (strip_prefix prefix id)

abbrev pub valid_filter_ids : List String → String → Bool
valid_filter_ids ids prefix =
    not (ltb 20 (length ids)) && valid_ids (matches_filter_id prefix) [] ids

-- `text` and `company`
abbrev pub text : Option String → String
text none = ""
text (some s) = s

abbrev pub or_else : String → String → String
or_else a b = if str_eq a "" then b else a

-- `strings.Join(parts, " / ")` of the levels that are there.
abbrev pub path_of : String → String → String
path_of a b =
    if str_eq a "" then b else if str_eq b "" then a else String.◌++◌ a (String.◌++◌ " / " b)

unfoldable pub company : Stock → Bool → Company
company s followed = record {
  id = s.id;
  title = or_else (text s.full_name) s.name;
  stock_name = s.name;
  symbol = s.symbol;
  industry_label = or_else (text s.industry_l2) (text s.industry_l1);
  industry_path = path_of (text s.industry_l1) (text s.industry_l2);
  concepts = s.concepts;
  is_followed = followed;
}

abbrev pub ids_of : List Stock → List String
ids_of [] = []
ids_of (s ∷ stocks) = s.id ∷ ids_of stocks

abbrev pub companies : List String → List Stock → List Company
companies followed [] = []
companies followed (s ∷ stocks) = company s (str_mem s.id followed) ∷ companies followed stocks

abbrev pub bad_search : String → ℤ → ℤ → Bool
bad_search q limit offset =
    ltb 64 (count q)
    || has_char is_control q
    || ltb_ℤ limit (pos 1)
    || ltb_ℤ (pos 100) limit
    || ltb_ℤ offset (pos 0)
    || ltb_ℤ (pos 10_000) offset

abbrev pub bad_filters : Filters → Bool
bad_filters f =
    not (valid_filter_ids f.industry_ids "SIND")
    || not (valid_filter_ids f.concept_ids "SCON")
    || not (valid_filter_ids f.chain_ids "SICH")

-- `byID[id]`: the last stock of an identity.
unfoldable pub by_id : String → List Stock → Option Stock
by_id id [] = none
by_id id (s ∷ stocks) = elim (by_id id stocks) [
  | some t ↦ some t
  | none ↦ if str_eq s.id id then some s else none
]

abbrev pub push_company : Option Stock → Result Error (List Company) → Result Error (List Company)
push_company none rest = err unavailable
push_company (some s) rest = rest >>= λ items. ok (company s true ∷ items)

unfoldable pub followed_items : List Stock → List String → Result Error (List Company)
followed_items stocks [] = ok []
followed_items stocks (id ∷ ids) = push_company (by_id id stocks) (followed_items stocks ids)

abbrev pub page_of : Relations → List Company → Page
page_of r items = record {
  items = items;
  total = r.total;
  next_cursor = r.next_cursor;
  has_more = false;
}

module _ {S : Type 0} (repo : Repository S) where
  -- `Search`
  abbrev pub followed_ids : String → List String → S → Result Error (List String)
  followed_ids token ids s = if str_eq token "" then ok [] else repo.check token ids s

  abbrev pub searched : String → List Stock × Bool → S → Result Error Page
  searched token (stocks, more) s = followed_ids token (ids_of stocks) s >>= λ found.
      ok (record { items = companies found stocks; total = 0; next_cursor = ""; has_more = more })

  unfoldable pub search : String → String → ℤ → ℤ → Filters → S → Result Error Page
  search token q limit offset filters s =
      reject_if (bad_filters filters) invalid
      >> (reject_if (bad_search (trim_space q) limit offset) invalid
          >> (repo.search (trim_space q) limit offset filters s >>= λ r. searched token r s))

  -- `List`
  abbrev pub listed : Relations → S → Result Error Page
  listed r s = elim r.ids [
    | [] ↦ ok (page_of r [])
    | id ∷ ids ↦ repo.stocks (id ∷ ids) s >>= λ stocks.
        followed_items stocks (id ∷ ids) >>= λ items. ok (page_of r items)
  ]

  unfoldable pub list : String → String → ℤ → S → Result Error Page
  list token cursor limit s =
      reject_if (str_eq token "") unauthenticated
      >> (reject_if (ltb_ℤ limit (pos 1) || ltb_ℤ (pos 100) limit || ltb 512 (len cursor)) invalid
          >> (repo.list token cursor limit s >>= λ r. listed r s))

  -- `Change`
  abbrev pub is_only : String → List Stock → Bool
  is_only id [] = false
  is_only id (t ∷ []) = str_eq t.id id
  is_only id (t ∷ u ∷ stocks) = false

  abbrev pub may_add : String → String → Bool → S → Result Error (Unit {0})
  may_add token id false s = ok tt
  may_add token id true s =
      repo.check token [] s
      >> (repo.stocks (id ∷ []) s >>= λ items. reject_if (not (is_only id items)) not_found)

  abbrev pub may_change : String → String → Bool → S → Result Error (Unit {0})
  may_change token id add s =
      reject_if (str_eq token "") unauthenticated
      >> (reject_if (not (valid_id id)) invalid >> may_add token id add s)

  abbrev pub write :
      Result Error (Unit {0}) → String → String → Bool → S → Result Error (Unit {0}) × S
  write (err e) token id add s = (err e, s)
  write (ok u) token id add s = repo.change token id add s

  unfoldable pub change : String → String → Bool → S → Result Error (Unit {0}) × S
  change token id add s = write (may_change token id add s) token id add s

-- `FilterOptions`: the roots in their order, then each other industry under the last root of its parent's
-- identity.
abbrev pub roots_of : List Entry → List IndustryOption
roots_of [] = []
roots_of (x ∷ xs) = elim x.parent_id [
  | none ↦ record { id = x.id; name = x.name; children = [] } ∷ roots_of xs
  | some p ↦ roots_of xs
]

abbrev pub with_child : Entry → IndustryOption → IndustryOption
with_child x r = record r { children = r.children ++ x ∷ [] }

unfoldable pub add_child : String → Entry → List IndustryOption → Option (List IndustryOption)
add_child parent x [] = none
add_child parent x (r ∷ rs) = elim (add_child parent x rs) [
  | some more ↦ some (r ∷ more)
  | none ↦ if str_eq r.id parent then some (with_child x r ∷ rs) else none
]

abbrev pub place : Entry → List IndustryOption → Option String → Result Error (List IndustryOption)
place x roots none = ok roots
place x roots (some parent) = elim (add_child parent x roots) [
  | none ↦ err unavailable
  | some more ↦ ok more
]

unfoldable pub place_all : List Entry → List IndustryOption → Result Error (List IndustryOption)
place_all [] roots = ok roots
place_all (x ∷ xs) roots = place x roots x.parent_id >>= place_all xs

abbrev pub options_of : Catalog → Result Error FilterOptions
options_of c = place_all c.industries (roots_of c.industries) >>= λ industries.
    ok (record { industries = industries; concepts = c.concepts; chains = c.chains })

abbrev pub filter_options : {S : Type 0} → Repository S → S → Result Error FilterOptions
filter_options repo s = repo.classifications s >>= options_of
