-- ===== src/Stock/Publish/Laws.antt =====
-- What `PublishDailyQuotes` does to the stored quotes and what it reports.
use tidewise_ai.Prelude.{
  ℕ, ◌+◌, ◌≡◌, Bool, true, false, none, some, List, Result, ok, err, ◌⊎◌, length, All,
}
use tidewise_ai.Identity.{UuidPackage}
use tidewise_ai.Stock.Quote.{DailyQuote}
use tidewise_ai.Stock.Publish.{Batch, Report, Failure, QuoteStore, key_of, stored_quote, same_quote}

-- A quote that has no stored one for its stock and date.
abbrev pub Fresh : List DailyQuote → DailyQuote → Type 0
Fresh stored q = stored_quote (key_of q) stored ≡ none

-- A quote whose stored one is the same.
abbrev pub Replayed : List DailyQuote → DailyQuote → Type 0
Replayed stored q =
    (old : DailyQuote) × (stored_quote (key_of q) stored ≡ some old) × (same_quote q old ≡ true)

abbrev pub SplitOf : List DailyQuote → List DailyQuote → List DailyQuote × ℕ → Type 0
SplitOf stored quotes split =
    All (Fresh stored) split.0
    × All (λ q. Fresh stored q ⊎ Replayed stored q) quotes
    × (length split.0 + split.1 ≡ length quotes)

module _ (uuid : UuidPackage) where
  module _ {S : Type 0} (store : QuoteStore S) where
    -- What the callback has read and split when it succeeds.
    abbrev pub Published : Batch → Bool → S → Report → S → Type 0
    Published batch apply s r t =
        (quotes stored pending : List DailyQuote) × (store.existing quotes s ≡ ok stored)
        × All (Fresh stored) pending
        × All (λ q. Fresh stored q ⊎ Replayed stored q) quotes
        × (length quotes ≡ length batch.quotes)
        × (r.rows ≡ length batch.quotes)
        × (r.new_rows ≡ length pending)
        × (r.new_rows + r.unchanged ≡ r.rows)
        × (r.observed + r.placeholders ≡ r.rows)
        × (((apply ≡ true) × (store.insert pending s ≡ ok t)) ⊎ ((apply ≡ false) × (t ≡ s)))

    -- What the store is after a publication: as it was, or, where it was applied and returned a
    -- report, what the commit made of the callback's state.
    abbrev pub Finished : Batch → Bool → S → Result Failure Report × S → Type 0
    Finished batch apply s out =
        ((e : Failure) × (out.0 ≡ err e) × (out.1 ≡ s))
        ⊎ ((r : Report) × (begun done : S) × (out.0 ≡ ok r)
            × (store.begin s ≡ ok begun)
            × Published batch apply begun r done
            × (((apply ≡ true) × (store.commit done ≡ ok out.1)) ⊎ ((apply ≡ false) × (out.1 ≡ s))))
