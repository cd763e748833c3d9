-- ===== src/Source/UseCase.antt =====
-- The operations of `UseCase` in biz/source/biz.go, over any store. Go copies a Source where it
-- hands one out (`cloneSource`); values need no copy.
use tidewise_ai.Prelude.{
  String, Bool, false, ◌||◌, Option, none, some, List, [], ◌∷◌, ◌++◌, Result, ok, err, reject_if,
  str_eq, if◌then◌else◌,
}
use tidewise_ai.Identity
use tidewise_ai.Source.{
  Error, not_found, conflict, fixed_delete_forbidden, validation, Source, MutableSource, Store,
  ownership_fixed,
}
use tidewise_ai.Source.Prepare.{source_from_mutable, prepare_dynamic}
use tidewise_ai.Source.Validation.{Environment, validate_source}
use tidewise_ai.Source.Envelope.{validate_projected_set}
use tidewise_ai.Source.Tx.{Tx, fail, lift, reads, changes, ◌>>=◌, ◌>>◌, in_transaction}

-- `sourceIndex`, with the element that stands there.
unfoldable pub find_id : String → List Source → Option Source
find_id id [] = none
find_id id (s ∷ items) = if str_eq s.id id then some s else find_id id items

-- `byCode[code]`: of several Sources with one code the last.
unfoldable pub by_code : String → List Source → Option Source
by_code code [] = none
by_code code (s ∷ items) =
    let later = by_code code items in
    elim later [ some t ↦ some t | none ↦ if str_eq s.code code then some s else none ]

-- `items[index] = candidate`, at the first Source with the id.
unfoldable pub replace_id : String → Source → List Source → List Source
replace_id id candidate [] = []
replace_id id candidate (s ∷ items) =
    let rest = replace_id id candidate items in
    if str_eq s.id id then candidate ∷ items else s ∷ rest

-- The loop of CreateDynamic over what is stored.
unfoldable pub clashes : Source → List Source → Bool
clashes candidate [] = false
clashes candidate (s ∷ items) =
    str_eq s.code candidate.code || str_eq s.id candidate.id || clashes candidate items

-- The Source that Update stores: what the input may not change is taken from the stored one.
unfoldable pub update_candidate : MutableSource → Source → Source
update_candidate input stored = record (source_from_mutable input) {
  id = stored.id;
  code = stored.code;
  ownership_type = stored.ownership_type;
  channel_type = stored.channel_type;
  created_at = stored.created_at;
  updated_at = stored.updated_at;
}

module _ (env : Environment) {S : Type 0} (store : Store S) where
  abbrev pub begin_locked : Tx S (List Source)
  begin_locked = do changes store.tx.lock; reads store.tx.list

  abbrev pub create_checked : Source → List Source → Tx S Source
  create_checked candidate existing = do
    lift (reject_if (clashes candidate existing) conflict)
    lift (validate_projected_set env (existing ++ candidate ∷ []))
    store.tx.insert candidate

  unfoldable pub create_in_tx : Source → Tx S Source
  create_in_tx candidate = begin_locked >>= create_checked candidate

  abbrev pub create_candidate : Result Error Source → S → Result Error Source × S
  create_candidate (err e) s = (err e, s)
  create_candidate (ok candidate) s = in_transaction store (create_in_tx candidate) s

  unfoldable pub create_dynamic : MutableSource → S → Result Error Source × S
  create_dynamic input s = create_candidate (prepare_dynamic env input) s

  abbrev pub update_checked : String → MutableSource → List Source → Option Source → Tx S Source
  update_checked id input items none = fail not_found
  update_checked id input items (some stored) = do
    lift (validate_source env (update_candidate input stored) false)
    lift (validate_projected_set env (replace_id id (update_candidate input stored) items))
    store.tx.update (update_candidate input stored)

  unfoldable pub update_in_tx : String → MutableSource → Tx S Source
  update_in_tx id input = begin_locked >>= λ items. update_checked id input items (find_id id items)

  unfoldable pub update : String → MutableSource → S → Result Error Source × S
  update id input s =
      if Identity.is env.uuid id "SRC"
      then in_transaction store (update_in_tx id input) s
      else (err (validation "source_id" "must be a stable Source ID"), s)

  abbrev pub delete_checked : String → Option Source → Tx S Unit
  delete_checked id none = fail not_found
  delete_checked id (some stored) = do
    lift (reject_if (str_eq stored.ownership_type ownership_fixed) fixed_delete_forbidden)
    changes (store.tx.delete id)

  unfoldable pub delete_in_tx : String → Tx S Unit
  delete_in_tx id = begin_locked >>= λ items. delete_checked id (find_id id items)

  unfoldable pub delete : String → S → Result Error Unit × S
  delete id s =
      if Identity.is env.uuid id "SRC"
      then in_transaction store (delete_in_tx id) s
      else (err (validation "source_id" "must be a stable Source ID"), s)
