-- ===== src/Stock/Quote/Laws.antt =====
-- What a daily quote is that passes.
use tidewise_ai.Prelude.{◌≡◌, String, true, false, none, some, ◌⊎◌}
use tidewise_ai.Stock.Quote.{DailyQuote, quote_observed, quote_placeholder, below, above, differs}

-- A day with prices in order, or a day without trade.
abbrev pub Shape : DailyQuote → Type 0
Shape q =
    ((q.status ≡ quote_placeholder)
      × ((q.open_price ≡ none) × (q.high ≡ none) × (q.low ≡ none) × (differs q.volume "0" ≡ false)))
    ⊎ ((o h l : String) × (q.status ≡ quote_observed)
        × (q.open_price ≡ some o)
        × (q.high ≡ some h)
        × (q.low ≡ some l)
        × (above l "0" ≡ true)
        × (below h l ≡ false)
        × (below o l ≡ false)
        × (above o h ≡ false)
        × (below q.close l ≡ false)
        × (above q.close h ≡ false))
