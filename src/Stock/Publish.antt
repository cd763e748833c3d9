-- ===== src/Stock/Publish.antt =====
-- `PublishDailyQuotes` of biz/stock/transaction.go, and `WithDailyQuoteTransaction` of data/stock/transaction.go,
-- the frame that it runs in. The statements are a parameter.
pub mod Laws
use Prim.Native.String.{◌++◌}
use tidewise_ai.Prelude.{
  ℕ, suc, ◌+◌, ◌≡◌, String, Bool, true, false, ◌&&◌, ◌||◌, not, Option, none, some, List, [], ◌∷◌,
  Result, ok, err, ◌>>=◌, ◌>>◌, reject_if, str_eq, if◌then◌else◌, length, map,
}
use tidewise_ai.Prelude.Text.{str_mem}
use tidewise_ai.Identity
use tidewise_ai.Identity.{UuidPackage, IdError}
use tidewise_ai.Stock.{Error, invalid, conflict, persistence}
use tidewise_ai.Stock.Quote.{DailyQuote, quote_placeholder, validate_daily_quote}

pub record Entry : Type 0 where
  pub symbol : String
  pub quote : DailyQuote

pub record Batch : Type 0 where
  pub symbols : List String
  pub quotes : List Entry

pub record Report : Type 0 where
  pub stocks : ℕ
  pub stocks_with_quotes : ℕ
  pub rows : ℕ
  pub observed : ℕ
  pub placeholders : ℕ
  pub new_rows : ℕ
  pub unchanged : ℕ
  pub applied : Bool
  pub normalizations : List (String × String)

-- What the callback returns: an error of the package, or one of the identities.
pub data Failure : Type 0 where
  stock_error : Error → Failure
  id_error : IdError → Failure

-- The statements of `DailyQuoteTransaction`, with BeginTx, the locks, Commit and Rollback.
pub record QuoteStore (S : Type 0) : Type 0 where
  pub begin : S → Result Failure S
  pub stocks : List String → S → Result Failure (List (String × String))
  pub existing : List DailyQuote → S → Result Failure (List DailyQuote)
  pub insert : List DailyQuote → S → Result Failure S
  pub rollback : S → Option Failure
  pub commit : S → Result Failure S

-- `ids[symbol]`
unfoldable pub id_of : String → List (String × String) → String
id_of symbol [] = ""
id_of symbol ((k, id) ∷ ids) = if str_eq k symbol then id else id_of symbol ids

abbrev pub of_id : Result IdError String → Result Failure String
of_id (ok id) = ok id
of_id (err e) = err (id_error e)

abbrev pub of_stock : Result Error (Unit {0}) → Result Failure (Unit {0})
of_stock (ok u) = ok u
of_stock (err e) = err (stock_error e)

-- `existing[q.StockID + "/" + q.Date]`
abbrev pub key_of : DailyQuote → String
key_of q = q.stock_id ++ ("/" ++ q.date)

unfoldable pub stored_quote : String → List DailyQuote → Option DailyQuote
stored_quote key [] = none
stored_quote key (q ∷ stored) = if str_eq (key_of q) key then some q else stored_quote key stored

abbrev pub same_price : Option String → Option String → Bool
same_price none none = true
same_price (some a) (some b) = str_eq a b
same_price none (some b) = false
same_price (some a) none = false

-- reflect.DeepEqual on quotes
unfoldable pub same_quote : DailyQuote → DailyQuote → Bool
same_quote a b =
    str_eq a.id b.id
    && str_eq a.stock_id b.stock_id
    && str_eq a.date b.date
    && same_price a.open_price b.open_price
    && same_price a.high b.high
    && same_price a.low b.low
    && str_eq a.close b.close
    && str_eq a.volume b.volume
    && same_price a.turnover b.turnover
    && same_price a.change_pct b.change_pct
    && str_eq a.status b.status

-- The loop over what is stored against the batch: what is pending, and how much is unchanged.
abbrev pub compare_stored :
    DailyQuote → Option DailyQuote → List DailyQuote × ℕ → Result Failure (List DailyQuote × ℕ)
compare_stored q none rest = ok (q ∷ rest.0, rest.1)
compare_stored q (some old) rest =
    if same_quote q old then ok (rest.0, suc rest.1) else err (stock_error conflict)

unfoldable pub split_pending :
    List DailyQuote → List DailyQuote → Result Failure (List DailyQuote × ℕ)
unfolding stored_quote same_quote
split_pending stored [] = ok ([], 0)
split_pending stored (q ∷ quotes) =
    split_pending stored quotes >>= λ rest. compare_stored q (stored_quote (key_of q) stored) rest

abbrev pub is_placeholder : DailyQuote → Bool
is_placeholder q = str_eq q.status quote_placeholder

unfoldable pub count_status : Bool → List DailyQuote → ℕ
count_status placeholder [] = 0
count_status placeholder (q ∷ quotes) =
    let rest = count_status placeholder quotes in
    if is_placeholder q
    then (if placeholder then suc rest else rest)
    else (if placeholder then rest else suc rest)

-- `len(withQuotes)`: the keys of a map that the loop sets.
unfoldable pub count_distinct : List String → ℕ
count_distinct [] = 0
count_distinct (k ∷ ks) = let rest = count_distinct ks in if str_mem k ks then rest else suc rest

unfoldable pub normalizations_of : List Entry → List (String × String)
normalizations_of [] = []
normalizations_of (e ∷ entries) =
    let rest = normalizations_of entries in
    if is_placeholder e.quote then (e.symbol, e.quote.date) ∷ rest else rest

abbrev pub symbol_of : Entry → String
symbol_of e = e.symbol

module _ (uuid : UuidPackage) where
  -- The first loop: every symbol of the batch is a stock.
  unfoldable pub check_symbols : List (String × String) → List String → Result Failure (Unit {0})
  unfolding id_of
  check_symbols ids [] = ok tt
  check_symbols ids (symbol ∷ symbols) =
      let rest = check_symbols ids symbols in
      if Identity.is uuid (id_of symbol ids) "STK" then rest else err (stock_error invalid)

  abbrev pub identified : DailyQuote → String → String → DailyQuote
  identified q stock_id id = record q { stock_id = stock_id; id = id }

  abbrev pub prepare_entry : List (String × String) → Entry → Result Failure DailyQuote
  prepare_entry ids e = do
    of_stock (validate_daily_quote e.quote)
    reject_if (not (Identity.is uuid (id_of e.symbol ids) "STK")) (stock_error invalid)
    id ←
        of_id
          (Identity.derive uuid "SDQ" "stock-daily-quote" (id_of e.symbol ids ∷ e.quote.date ∷ []))
    ok (identified e.quote (id_of e.symbol ids) id)

  abbrev pub prepared :
      (List String → Result Failure (List DailyQuote))
      → List String
      → DailyQuote
      → Result Failure (List DailyQuote)
  prepared rest seen q = do
    reject_if (str_mem q.id seen) (stock_error invalid)
    quotes ← rest (q.id ∷ seen)
    ok (q ∷ quotes)

  -- The second loop: each quote with its identities, none of them twice.
  unfoldable pub prepare_quotes :
      List (String × String) → List Entry → List String → Result Failure (List DailyQuote)
  unfolding id_of
  prepare_quotes ids [] seen = ok []
  prepare_quotes ids (e ∷ entries) seen =
      prepare_entry ids e >>= λ q. prepared (λ more. prepare_quotes ids entries more) seen q

  abbrev pub refused : DailyQuote → Bool
  refused q =
      not (Identity.is uuid q.id "SDQ")
      || not (Identity.is uuid q.stock_id "STK")
      || (elim (validate_daily_quote q) [ ok u ↦ false | err e ↦ true ])

  -- The loop over the stored quotes.
  unfoldable pub check_stored : List String → List DailyQuote → Result Failure (Unit {0})
  check_stored seen [] = ok tt
  check_stored seen (q ∷ stored) =
      let rest = check_stored (key_of q ∷ seen) stored in
      if refused q || str_mem (key_of q) seen then err (stock_error persistence) else rest

  abbrev pub report_of : Batch → List DailyQuote → List DailyQuote × ℕ → Bool → Report
  report_of batch quotes split apply = record {
    stocks = length batch.symbols;
    stocks_with_quotes = count_distinct (map symbol_of batch.quotes);
    rows = length batch.quotes;
    observed = count_status false quotes;
    placeholders = count_status true quotes;
    new_rows = length split.0;
    unchanged = split.1;
    applied = apply;
    normalizations = normalizations_of batch.quotes;
  }

  module _ {S : Type 0} (store : QuoteStore S) where
    abbrev pub written : Bool → Report → List DailyQuote → S → Result Failure (Report × S)
    written apply report pending s =
        if apply then (store.insert pending s >>= λ t. ok (report, t)) else ok (report, s)

    -- The callback.
    unfoldable pub publish_in_tx : Batch → Bool → S → Result Failure (Report × S)
    unfolding check_symbols prepare_quotes check_stored split_pending count_distinct
        normalizations_of
    publish_in_tx batch apply s = do
      ids ← store.stocks batch.symbols s
      check_symbols ids batch.symbols
      quotes ← prepare_quotes ids batch.quotes []
      stored ← store.existing quotes s
      check_stored [] stored
      split ← split_pending stored quotes
      written apply (report_of batch quotes split apply) split.0 s

    abbrev pub committed : Report → S → Result Failure S → Result Failure Report × S
    committed report s (ok t) = (ok report, t)
    committed report s (err e) = (err e, s)

    abbrev pub rolled_back : Report → S → Option Failure → Result Failure Report × S
    rolled_back report s none = (ok report, s)
    rolled_back report s (some e) = (err e, s)

    abbrev pub finish : Bool → S → Result Failure (Report × S) → Result Failure Report × S
    finish apply s (err e) = (err e, s)
    finish true s (ok (report, t)) = committed report s (store.commit t)
    finish false s (ok (report, t)) = rolled_back report s (store.rollback t)

    abbrev pub with_transaction :
        Bool → (S → Result Failure (Report × S)) → S → Result Failure S → Result Failure Report × S
    with_transaction apply run s (err e) = (err e, s)
    with_transaction apply run s (ok begun) = finish apply s (run begun)

    unfoldable pub publish_daily_quotes : Batch → Bool → S → Result Failure Report × S
    unfolding publish_in_tx
    publish_daily_quotes batch apply s =
        with_transaction apply (publish_in_tx batch apply) s (store.begin s)
