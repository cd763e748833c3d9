-- ===== src/Source/Changes.antt =====
-- Every operation of the use case keeps the constraints of the table.
use tidewise_ai.Prelude.{
  length, ◌==◌, String, false, Option, none, some, List, [], ◌∷◌, Result, ok, err, Bool-cases, inl,
  inr,
}
use tidewise_ai.Identity
use tidewise_ai.Source.{Error, Time, conflict, Source, MutableSource}
use tidewise_ai.Source.Validation.{Environment}
use tidewise_ai.Source.Tx.{Tx, in_transaction}
use tidewise_ai.Source.Database.{Database, Statement, store}
use tidewise_ai.Source.UseCase.{
  create_in_tx, create_candidate, create_dynamic, update_in_tx, update, delete_in_tx, delete,
  update_checked, delete_checked, by_code,
}
use tidewise_ai.Source.Prepare.{prepare_dynamic, prepare_all, as_fixed, as_dynamic}
use tidewise_ai.Source.Publish.{
  publish_fixed_loop, publish_item, publish_fixed_in_tx, publish_fixed, insert_all,
  publish_dynamic_in_tx, publish_dynamic_catalog, run_prepared,
}
use tidewise_ai.Source.Import.{
  insert_each, import_into, import_in_tx, prepare_import, import_prepared, sorted_result, import,
  or_conflict, match_all,
}
use tidewise_ai.Source.Keeps.{Keeps, Keeps-fail, keeps_rules}
use tidewise_ai.Source.Table.{IsTable, table_rules, in_transaction-IsTable}

module _ (env : Environment) where
  create-Keeps : (candidate : Source) → Keeps IsTable (create_in_tx env store candidate)
  unfolding create_in_tx
  create-Keeps candidate = search table_rules

  update_checked-Keeps :
      (id : String) (input : MutableSource) (items : List Source) (o : Option Source)
      → Keeps IsTable (update_checked env store id input items o)
  update_checked-Keeps id input items none = search table_rules
  update_checked-Keeps id input items (some stored) = search table_rules depth 8

  update-Keeps :
      (id : String) (input : MutableSource) → Keeps IsTable (update_in_tx env store id input)
  unfolding update_in_tx
  update-Keeps id input = search (table_rules, update_checked-Keeps) depth 8

  delete_checked-Keeps :
      (id : String) (o : Option Source) → Keeps IsTable (delete_checked env store id o)
  delete_checked-Keeps id none = search table_rules
  delete_checked-Keeps id (some stored) = search table_rules depth 8

  delete-Keeps : (id : String) → Keeps IsTable (delete_in_tx env store id)
  unfolding delete_in_tx
  delete-Keeps id = search (table_rules, delete_checked-Keeps) depth 8

  publish_item-Keeps :
      (item : Source) (rest : Tx Database (List Source)) (o : Option Source)
      → Keeps IsTable rest
      → Keeps IsTable (publish_item env store item rest o)
  publish_item-Keeps item rest none h = search table_rules depth 8
  publish_item-Keeps item rest (some current) h = search table_rules depth 8

  publish_loop-Keeps :
      (existing prepared : List Source)
      → Keeps IsTable (publish_fixed_loop env store existing prepared)
  unfolding publish_fixed_loop
  publish_loop-Keeps existing [] = search keeps_rules
  publish_loop-Keeps existing (item ∷ items) =
      publish_item-Keeps item (publish_fixed_loop env store existing items)
        (by_code item.code existing) (publish_loop-Keeps existing items)

  publish_fixed-Keeps :
      (prepared : List Source) → Keeps IsTable (publish_fixed_in_tx env store prepared)
  unfolding publish_fixed_in_tx
  publish_fixed-Keeps prepared = search (table_rules, publish_loop-Keeps) depth 8

  insert_all-Keeps : (items : List Source) → Keeps IsTable (insert_all env store items)
  unfolding insert_all
  insert_all-Keeps [] = search keeps_rules
  insert_all-Keeps (item ∷ items) = let rest = insert_all-Keeps items in search table_rules depth 8

  publish_dynamic-Keeps :
      (prepared : List Source) → Keeps IsTable (publish_dynamic_in_tx env store prepared)
  unfolding publish_dynamic_in_tx
  publish_dynamic-Keeps prepared = search (table_rules, insert_all-Keeps) depth 8

  insert_each-Keeps : (items : List Source) → Keeps IsTable (insert_each env store items)
  unfolding insert_each
  insert_each-Keeps [] = search keeps_rules
  insert_each-Keeps (item ∷ items) =
      let rest = insert_each-Keeps items in search table_rules depth 8

  or_conflict-Keeps : (o : Option (List Source)) → Keeps {S = Database} IsTable (or_conflict o)
  or_conflict-Keeps none = search keeps_rules
  or_conflict-Keeps (some items) = search keeps_rules

  import_into-Keeps :
      (prepared existing : List Source) → Keeps IsTable (import_into env store prepared existing)
  import_into-Keeps prepared [] = insert_each-Keeps prepared
  import_into-Keeps prepared (s ∷ stored) =
      elim (Bool-cases (length (s ∷ stored) == length prepared)) [
        | inl e ↦ rw e (or_conflict-Keeps (match_all (s ∷ stored) prepared))
        | inr e ↦ rw e (Keeps-fail conflict)
      ]

  import-Keeps : (prepared : List Source) → Keeps IsTable (import_in_tx env store prepared)
  unfolding import_in_tx
  import-Keeps prepared = search (table_rules, import_into-Keeps) depth 8

  create_candidate-IsTable :
      (r : Result Error Source) (db : Database)
      → IsTable db
      → IsTable (create_candidate env store r db).1
  create_candidate-IsTable (err e) db h = h
  create_candidate-IsTable (ok candidate) db h =
      in_transaction-IsTable (create_in_tx env store candidate) (create-Keeps candidate) db h

  run_prepared-IsTable :
      (run : List Source → Tx Database (List Source))
      → ((prepared : List Source) → Keeps IsTable (run prepared))
      → (r : Result Error (List Source)) (db : Database) → IsTable db
      → IsTable (run_prepared env store run r db).1
  run_prepared-IsTable run keeps (err e) db h = h
  run_prepared-IsTable run keeps (ok prepared) db h =
      in_transaction-IsTable (run prepared) (keeps prepared) db h

  import_prepared-IsTable :
      (r : Result Error (List Source)) (db : Database)
      → IsTable db
      → IsTable (import_prepared env store r db).1
  import_prepared-IsTable (err e) db h = h
  import_prepared-IsTable (ok prepared) db h =
      sorted (in_transaction store (import_in_tx env store prepared) db)
        (in_transaction-IsTable (import_in_tx env store prepared) (import-Keeps prepared) db h)
    where
      sorted :
          (r : Result Error (List Source) × Database)
          → IsTable r.1
          → IsTable (sorted_result env store r).1
      sorted (ok items, t) k = k
      sorted (err e, t) k = k

  update-IsTable :
      (id : String) (input : MutableSource) (db : Database)
      → IsTable db
      → IsTable (update env store id input db).1
  unfolding update
  update-IsTable id input db h = elim (Bool-cases (Identity.is env.uuid id "SRC")) [
    | inl e ↦
        rw e (in_transaction-IsTable (update_in_tx env store id input) (update-Keeps id input) db h)
    | inr e ↦ rw e h
  ]

  delete-IsTable : (id : String) (db : Database) → IsTable db → IsTable (delete env store id db).1
  unfolding delete
  delete-IsTable id db h = elim (Bool-cases (Identity.is env.uuid id "SRC")) [
    | inl e ↦ rw e (in_transaction-IsTable (delete_in_tx env store id) (delete-Keeps id) db h)
    | inr e ↦ rw e h
  ]

  -- A call of the use case, or what happens to the database between two calls: its clock moves, and
  -- its statements fail or work again.
  pub data Step : Database → Database → Type 0 where
    created :
        (input : MutableSource) (db : Database) → Step db (create_dynamic env store input db).1
    updated :
        (id : String) (input : MutableSource) (db : Database)
        → Step db (update env store id input db).1
    deleted : (id : String) (db : Database) → Step db (delete env store id db).1
    fixed :
        (manifest : List Source) (db : Database) → Step db (publish_fixed env store manifest db).1
    catalog :
        (manifest : List Source) (db : Database)
        → Step db (publish_dynamic_catalog env store manifest db).1
    imported : (input : List Source) (db : Database) → Step db (import env store input db).1
    weather :
        (now : Time) (fails : Statement → Option Error) (db : Database)
        → Step db (record db { now = now; fails = fails })

  pub data Reach (s : Database) : Database → Type 0 where
    here : Reach s s
    next : {t u : Database} → Reach s t → Step t u → Reach s u

  Step-IsTable : {s t : Database} → Step s t → IsTable s → IsTable t
  unfolding create_dynamic publish_fixed publish_dynamic_catalog import
  Step-IsTable (created input db) h = create_candidate-IsTable (prepare_dynamic env input) db h
  Step-IsTable (updated id input db) h = update-IsTable id input db h
  Step-IsTable (deleted id db) h = delete-IsTable id db h
  Step-IsTable (fixed manifest db) h =
      run_prepared-IsTable (publish_fixed_in_tx env store) publish_fixed-Keeps
        (prepare_all env as_fixed false 0 [] manifest) db h
  Step-IsTable (catalog manifest db) h =
      run_prepared-IsTable (publish_dynamic_in_tx env store) publish_dynamic-Keeps
        (prepare_all env as_dynamic false 0 [] manifest) db h
  Step-IsTable (imported input db) h = import_prepared-IsTable (prepare_import env store input) db h
  Step-IsTable (weather now fails db) h = record { apart = h.apart; ordered = h.ordered }

  pub Reach-IsTable : {s t : Database} → IsTable s → Reach s t → IsTable t
  Reach-IsTable h here = h
  Reach-IsTable h (next r st) = Step-IsTable st (Reach-IsTable h r)
