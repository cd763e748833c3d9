-- ===== src/Stock.antt =====
-- data-service/backend/internal/biz/stock: the stock catalogue. Here its types and the rules for the
-- replacement of a stored stock; the children are the queries, the decimals of quotes and the quotes.
pub mod Search
pub mod Decimal
pub mod Quote
pub mod Publish
pub mod History
use tidewise_ai.Prelude.{
  ℕ, String, Bool, true, false, ◌&&◌, ◌||◌, not, Option, none, some, List, [], ◌∷◌, Result, ok, err,
  ◌>>=◌, ltb, ◌==◌, str_eq, if◌then◌else◌,
}
use tidewise_ai.Prelude.Int.{ℤ}

pub data Error : Type 0 where
  invalid conflict persistence : Error

pub record Stock : Type 0 where
  pub id : String
  pub code : String
  pub name : String
  pub exchange : String
  pub board : String
  pub as_of : ℕ

unfoldable pub exchange_name : String → String
exchange_name code =
    if str_eq code "SH"
    then "上海证券交易所"
    else if str_eq code "SZ"
    then "深圳证券交易所"
    else if str_eq code "BJ"
    then "北京证券交易所"
    else ""

unfoldable pub valid_board : String → String → Bool
valid_board exchange board =
    str_eq exchange "SH" && (str_eq board "主板" || str_eq board "科创板")
    || str_eq exchange "SZ" && (str_eq board "主板" || str_eq board "创业板")
    || str_eq exchange "BJ" && str_eq board "北交所"

unfoldable pub validate_replacement : Stock → Stock → Result Error Unit
validate_replacement previous next =
    if not (str_eq previous.id next.id)
      || ltb next.as_of previous.as_of
      || previous.as_of == next.as_of
        && (not (str_eq previous.name next.name) || not (str_eq previous.board next.board))
    then err conflict
    else ok tt

-- Whether the profile is to be written.
unfoldable pub profile_replacement : Stock → Stock → Bool → Bool → Result Error Bool
unfolding validate_replacement
profile_replacement previous next has_profile different =
    validate_replacement previous next >>= λ checked.
    if previous.as_of == next.as_of
    then (if has_profile && different then err conflict else ok different)
    else ok true
