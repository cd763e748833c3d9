-- ===== src/Source/Publish.antt =====
-- `PublishFixed` and `PublishDynamicCatalog` of biz/source/biz.go, over any store.
use tidewise_ai.Prelude.{
  String, Bool, true, false, ◌&&◌, not, Option, none, some, List, [], ◌∷◌, ◌++◌, Result, ok, err,
  reject_if, str_eq, if◌then◌else◌,
}
use tidewise_ai.Prelude.Int.{pos}
use tidewise_ai.Source.{Error, conflict, Source, Store, ownership_fixed}
use tidewise_ai.Source.Prepare.{prepare_all, as_fixed, as_dynamic, is_dynamic_rss}
use tidewise_ai.Source.Validation.{Environment}
use tidewise_ai.Source.Envelope.{validate_projected_set}
use tidewise_ai.Json.{absent}
use tidewise_ai.Source.UseCase.{by_code, begin_locked}
use tidewise_ai.Source.Tx.{Tx, pure, lift, ◌>>=◌, ◌>>◌, in_transaction}

-- `result = append(result, …)` over the prepared Sources.
abbrev pub cons_result : {S : Type 0} → Source → Tx S (List Source) → Tx S (List Source)
cons_result item rest = rest >>= λ items. pure (item ∷ items)

-- What PublishFixed asks of a stored Source with the code of a manifest item.
unfoldable pub same_fixed : Source → Source → Bool
same_fixed current item =
    str_eq current.id item.id
    && str_eq current.ownership_type ownership_fixed
    && str_eq current.channel_type item.channel_type

-- What PublishDynamicCatalog asks of it.
unfoldable pub same_dynamic : Source → Source → Bool
same_dynamic current item = str_eq current.id item.id && is_dynamic_rss current

-- The zero value of a Source, which a map returns for a missing key.
abbrev pub zero_source : Source
zero_source = record {
  id = "";
  code = "";
  name = "";
  ownership_type = "";
  channel_type = "";
  adapter_key = "";
  enabled = false;
  endpoint = "";
  app_key = none;
  config = absent;
  priority = pos 0;
  timeout_seconds = pos 0;
  max_results = pos 0;
  default_source_level = "";
  created_at = 0;
  updated_at = 0;
}

unfoldable pub created_by_code : String → List (String × Source) → Source
created_by_code code [] = zero_source
created_by_code code ((c, s) ∷ created) = if str_eq c code then s else created_by_code code created

module _ (env : Environment) {S : Type 0} (store : Store S) where
  -- One round of the loop of PublishFixed: what is stored stays, what is missing is inserted.
  abbrev pub publish_item : Source → Tx S (List Source) → Option Source → Tx S (List Source)
  publish_item item rest none = do created ← store.tx.insert item; cons_result created rest
  publish_item item rest (some current) = do
    lift (reject_if (not (same_fixed current item)) conflict)
    cons_result current rest

  unfoldable pub publish_fixed_loop : List Source → List Source → Tx S (List Source)
  publish_fixed_loop existing [] = pure []
  publish_fixed_loop existing (item ∷ items) =
      publish_item item (publish_fixed_loop existing items) (by_code item.code existing)

  -- The prepared Sources whose code is not stored, in their order.
  unfoldable pub missing_of : List Source → List Source → List Source
  missing_of existing [] = []
  missing_of existing (item ∷ items) =
      let rest = missing_of existing items in
      elim (by_code item.code existing) [ some current ↦ rest | none ↦ item ∷ rest ]

  -- `projected` is what is stored and then the inserted Sources.
  unfoldable pub publish_fixed_in_tx : List Source → Tx S (List Source)
  publish_fixed_in_tx prepared = do
    existing ← begin_locked env store
    result ← publish_fixed_loop existing prepared
    lift (validate_projected_set env (existing ++ missing_of existing prepared))
    pure result

  abbrev pub run_prepared :
      (List Source → Tx S (List Source))
      → Result Error (List Source)
      → S
      → Result Error (List Source) × S
  run_prepared run (err e) s = (err e, s)
  run_prepared run (ok prepared) s = in_transaction store (run prepared) s

  unfoldable pub publish_fixed : List Source → S → Result Error (List Source) × S
  publish_fixed manifest s =
      run_prepared publish_fixed_in_tx (prepare_all env as_fixed false 0 [] manifest) s

  -- The first loop of PublishDynamicCatalog, for its conflicts.
  unfoldable pub all_same_dynamic : List Source → List Source → Bool
  all_same_dynamic existing [] = true
  all_same_dynamic existing (item ∷ items) =
      let rest = all_same_dynamic existing items in
      elim (by_code item.code existing) [
        | some current ↦ same_dynamic current item && rest
        | none ↦ rest
      ]

  -- The inserts in their order, with what each returns: `createdByCode`.
  unfoldable pub insert_all : List Source → Tx S (List (String × Source))
  insert_all [] = pure []
  insert_all (item ∷ items) =
      let rest = insert_all items in
      do created ← store.tx.insert item; others ← rest; pure ((item.code, created) ∷ others)

  -- The result in the order of the manifest: the stored Source, or the created one.
  unfoldable pub published : List Source → List (String × Source) → List Source → List Source
  published existing created [] = []
  published existing created (item ∷ items) =
      elim (by_code item.code existing) [
        | some current ↦ current
        | none ↦ created_by_code item.code created
      ]
      ∷ published existing created items

  unfoldable pub publish_dynamic_in_tx : List Source → Tx S (List Source)
  publish_dynamic_in_tx prepared = do
    existing ← begin_locked env store
    lift (reject_if (not (all_same_dynamic existing prepared)) conflict)
    lift (validate_projected_set env (existing ++ missing_of existing prepared))
    created ← insert_all (missing_of existing prepared)
    pure (published existing created prepared)

  unfoldable pub publish_dynamic_catalog : List Source → S → Result Error (List Source) × S
  publish_dynamic_catalog manifest s =
      run_prepared publish_dynamic_in_tx (prepare_all env as_dynamic false 0 [] manifest) s
