-- ===== src/Examples/Stocks.antt =====
-- Quotes and queries of a stock.
use tidewise_ai.Prelude.{
  ℕ, ◌≡◌, refl, String, Bool, Option, none, some, List, [], ◌∷◌, ◌++◌, Result, ok, err,
}
use tidewise_ai.Prelude.Int.{pos}
use tidewise_ai.Prelude.Text
use tidewise_ai.Stock.Search.{Query}
use tidewise_ai.Stock.Decimal.{
  canonical_quote_decimal, compare_quote_decimal, equal, split_sign, split_dot, matches_decimal,
  whole_number,
}
use tidewise_ai.Stock.Decimal.Laws.{canonical-equal}
use tidewise_ai.Stock.Quote.{DailyQuote}
use tidewise_ai.Stock.Publish.{Batch, QuoteStore}
use tidewise_ai.Stock.{Stock, validate_replacement}
use tidewise_ai.Stock.History.{stored, replaced, Succeeds, History-Succeeds}

canonical-equal_example : compare_quote_decimal "-12.5" "-12.500" ≡ equal
unfolding canonical_quote_decimal matches_decimal split_sign split_dot whole_number
    tidewise_ai.Prelude.Text.all_chars tidewise_ai.Prelude.Text.trim_left
    tidewise_ai.Prelude.Text.trim_right
canonical-equal_example = canonical-equal "-12.500" 20 6 refl

abbrev quote : DailyQuote
quote = record {
  id = "";
  stock_id = "";
  date = "2024-02-29";
  open_price = some "10.5";
  high = some "11";
  low = some "10.25";
  close = "10.75";
  volume = "1200";
  turnover = some "0.4";
  change_pct = some "-1.25";
  status = "observed";
}

abbrev query : Query
query = record {
  text = " bank ";
  exchange = "SH";
  ids = [];
  industry_ids = [];
  concept_ids = [];
  chain_ids = [];
  limit = pos 20;
  offset = pos 40;
}

abbrev asked : Query
asked = record query { text = "bank" }

-- A store of quotes that has one stock.
abbrev quotes : QuoteStore (List DailyQuote)
quotes = record {
  begin = λ s. ok s;
  stocks = λ symbols s. ok (("600000.SH", "STK610000000000000000000000000000000000") ∷ []);
  existing = λ asked s. ok s;
  insert = λ more s. ok (s ++ more);
  rollback = λ s. none;
  commit = λ s. ok s;
}

abbrev batch : Batch
batch = record {
  symbols = "600000.SH" ∷ [];
  quotes = record { symbol = "600000.SH"; quote = quote } ∷ [];
}

abbrev bank : Stock
bank = record {
  id = "STK610000000000000000000000000000000000";
  code = "600000";
  name = "Bank";
  exchange = "SH";
  board = "主板";
  as_of = 10;
}

abbrev bank_later : Stock
bank_later = record bank { name = "Great Bank"; as_of = 12 }

accepted : validate_replacement bank bank_later ≡ ok tt
unfolding validate_replacement
accepted = refl

History-Succeeds_example : Succeeds bank bank_later
History-Succeeds_example =
    History-Succeeds bank bank_later (replaced bank bank_later stored accepted)
