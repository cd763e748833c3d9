-- ===== src/Source/Import.antt =====
-- `Import` of biz/source/biz.go, over any store.
use tidewise_ai.Prelude.{
  Bool, true, Option, none, some, List, [], ◌∷◌, Result, ok, err, ◌==◌, if◌then◌else◌, length,
}
use tidewise_ai.Prelude.Text.{str_lt}
use tidewise_ai.Prelude.Sorting.{sort_slice}
use tidewise_ai.Source.{Error, conflict, Source, Store}
use tidewise_ai.Source.Validation.{Environment}
use tidewise_ai.Source.Envelope.{validate_projected_set}
use tidewise_ai.Source.Prepare.{prepare_all, as_given}
use tidewise_ai.Source.Same.{same_source}
use tidewise_ai.Source.Tx.{Tx, pure, fail, ◌>>=◌, in_transaction}
use tidewise_ai.Source.UseCase.{by_code, begin_locked}

unfoldable pub code_less : Source → Source → Bool
code_less a b = str_lt a.code b.code

abbrev pub matched : Bool → Source → Option (List Source) → Option (List Source)
matched true current (some items) = some (current ∷ items)
matched _ current _ = none

-- The loop over a store that is not empty: every item has a stored Source with the same content.
unfoldable pub match_all : List Source → List Source → Option (List Source)
match_all existing [] = some []
match_all existing (item ∷ items) =
    let rest = match_all existing items in
    elim (by_code item.code existing) [
      | none ↦ none
      | some current ↦ matched (same_source current item) current rest
    ]

abbrev pub or_conflict : {S : Type 0} → Option (List Source) → Tx S (List Source)
or_conflict none = fail conflict
or_conflict (some items) = pure items

module _ (env : Environment) {S : Type 0} (store : Store S) where
  unfoldable pub insert_each : List Source → Tx S (List Source)
  insert_each [] = pure []
  insert_each (item ∷ items) =
      let rest = insert_each items in
      do created ← store.tx.insert item; others ← rest; pure (created ∷ others)

  abbrev pub import_into : List Source → List Source → Tx S (List Source)
  import_into prepared [] = insert_each prepared
  import_into prepared (s ∷ stored) =
      if length (s ∷ stored) == length prepared
      then or_conflict (match_all (s ∷ stored) prepared)
      else fail conflict

  unfoldable pub import_in_tx : List Source → Tx S (List Source)
  import_in_tx prepared = do existing ← begin_locked env store; import_into prepared existing

  abbrev pub checked_set : Result Error (List Source) → Result Error (List Source)
  checked_set (err e) = err e
  checked_set (ok prepared) = elim (validate_projected_set env prepared) [
    | ok _ ↦ ok prepared
    | err e ↦ err e
  ]

  unfoldable pub prepare_import : List Source → Result Error (List Source)
  prepare_import input = checked_set (prepare_all env as_given true 0 [] input)

  abbrev pub sorted_result : Result Error (List Source) × S → Result Error (List Source) × S
  sorted_result (err e, s) = (err e, s)
  sorted_result (ok items, s) = (ok (sort_slice code_less items), s)

  abbrev pub import_prepared : Result Error (List Source) → S → Result Error (List Source) × S
  import_prepared (err e) s = (err e, s)
  import_prepared (ok prepared) s = sorted_result (in_transaction store (import_in_tx prepared) s)

  unfoldable pub import : List Source → S → Result Error (List Source) × S
  import input s = import_prepared (prepare_import input) s
