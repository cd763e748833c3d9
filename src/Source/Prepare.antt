-- ===== src/Source/Prepare.antt =====
-- The checks of biz/source/biz.go before a transaction: `sourceFromMutable`, the head of `CreateDynamic`
-- and `prepareSource` with the loops that call it.
use tidewise_ai.Prelude.{◌≡◌, arith, bind-ok}
use Prim.Native.String.{◌++◌}
use tidewise_ai.Prelude.{
  ℕ, ◌+◌, String, Bool, false, ◌&&◌, not, List, [], ◌∷◌, Result, ok, err, ◌>>=◌, ◌>>◌, reject_if,
  str_eq,
}
use tidewise_ai.Prelude.Text.{str_mem}
use tidewise_ai.Prelude.Decimal.{decimal_text}
use tidewise_ai.Identity
use tidewise_ai.Source.{
  Error, conflict, validation, Source, MutableSource, ownership_fixed, ownership_dynamic,
  channel_rss, adapter_generic_rss,
}
use tidewise_ai.Source.Config.{compact_config}
use tidewise_ai.Source.Validation.{Environment, validate_source}

-- `sourceFromMutable`; the fields that it leaves out have Go's zero value.
unfoldable pub source_from_mutable : MutableSource → Source
source_from_mutable input = record {
  id = "";
  code = input.code;
  name = input.name;
  ownership_type = "";
  channel_type = "";
  adapter_key = input.adapter_key;
  enabled = input.enabled;
  endpoint = input.endpoint;
  app_key = input.app_key;
  config = compact_config input.config;
  priority = input.priority;
  timeout_seconds = input.timeout_seconds;
  max_results = input.max_results;
  default_source_level = input.default_source_level;
  created_at = 0;
  updated_at = 0;
}

unfoldable pub dynamic_candidate : MutableSource → String → Source
dynamic_candidate input id = record (source_from_mutable input) {
  id = id;
  ownership_type = ownership_dynamic;
  channel_type = channel_rss;
  adapter_key = adapter_generic_rss;
}

unfoldable pub derived_id : Error → Result Identity.IdError String → Result Error String
derived_id e (ok id) = ok id
derived_id e (err _) = err e

abbrev pub code_field : ℕ → String
code_field index = "sources[" ++ decimal_text index index ++ "].code"

-- What the callers do with an item before prepareSource: PublishFixed sets the ownership, and
-- PublishDynamicCatalog refuses what is no dynamic RSS Source.
unfoldable pub as_fixed : Source → Result Error Source
as_fixed item = ok (record item { ownership_type = ownership_fixed })

unfoldable pub is_dynamic_rss : Source → Bool
is_dynamic_rss item =
    str_eq item.ownership_type ownership_dynamic
    && str_eq item.channel_type channel_rss
    && str_eq item.adapter_key adapter_generic_rss

unfoldable pub as_dynamic : Source → Result Error Source
as_dynamic item = reject_if (not (is_dynamic_rss item)) conflict >> ok item

unfoldable pub as_given : Source → Result Error Source
as_given item = ok item

module _ (env : Environment) where
  unfoldable pub prepare_dynamic : MutableSource → Result Error Source
  prepare_dynamic input =
      derived_id (validation "code" "must be a stable Source code")
        (Identity.derive env.uuid "SRC" "source" (input.code ∷ []))
      >>= λ id.
          validate_source env (dynamic_candidate input id) false >> ok (dynamic_candidate input id)

  unfoldable pub prepare_source : Source → ℕ → List String → Bool → Result Error Source
  prepare_source item index seen require_timestamps =
      derived_id (validation (code_field index) "must be a stable Source code")
        (Identity.derive env.uuid "SRC" "source" (item.code ∷ []))
      >>= λ id.
          let prepared = record item { id = id; config = compact_config item.config } in
          do
            reject_if (str_mem item.code seen) conflict
            validate_source env prepared require_timestamps
            ok prepared

  -- The loop over a manifest or an import, from an index on, with the codes that were seen.
  unfoldable pub prepare_all :
      (Source → Result Error Source)
      → Bool
      → ℕ
      → List String
      → List Source
      → Result Error (List Source)
  prepare_all adapt require_timestamps index seen [] = ok []
  prepare_all adapt require_timestamps index seen (item ∷ items) =
      let rest = prepare_all adapt require_timestamps (index + 1) (item.code ∷ seen) items in
      do
        adapted ← adapt item
        prepared ← prepare_source adapted index seen require_timestamps
        others ← rest
        ok (prepared ∷ others)

  derived_id-ok :
      (e : Error) (r : Result Identity.IdError String) {id : String}
      → derived_id e r ≡ ok id
      → r ≡ ok id
  unfolding derived_id
  derived_id-ok e (ok id) h = ground arith
  derived_id-ok e (err x) h = absurd (cc)

  -- The candidate of CreateDynamic that passed the checks before the transaction.
  pub prepare_dynamic-ok :
      (input : MutableSource) {c : Source}
      → prepare_dynamic input ≡ ok c
      → (id : String) × (Identity.derive env.uuid "SRC" "source" (input.code ∷ []) ≡ ok id)
        × (validate_source env (dynamic_candidate input id) false ≡ ok tt)
        × (c ≡ dynamic_candidate input id)
  unfolding prepare_dynamic
  prepare_dynamic-ok input {c} h =
      let refused = validation "code" "must be a stable Source code" in
      let (id, d, rest) =
        bind-ok (derived_id refused (Identity.derive env.uuid "SRC" "source" (input.code ∷ []))) _
          h in
      let (_, v, e) = bind-ok (validate_source env (dynamic_candidate input id) false) _ rest in
      (id, derived_id-ok refused _ d, v, cc e)
