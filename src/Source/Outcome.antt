-- ===== src/Source/Outcome.antt =====
-- What CreateDynamic and Update do to the table where they succeed.
use tidewise_ai.Prelude.{
  ◌≡◌, refl, sym, ap, ◌∙◌, true, false, List, [], ◌∷◌, ◌++◌, Result, ok, err, arith,
}
use tidewise_ai.Identity
use tidewise_ai.Identity.Laws.{UuidLaws, is-derive}
use tidewise_ai.Source.{
  Error, Source, MutableSource, ownership_dynamic, channel_rss, adapter_generic_rss,
}
use tidewise_ai.Source.Validation.{Environment}
use tidewise_ai.Source.Prepare.{
  prepare_dynamic, prepare_dynamic-ok, dynamic_candidate, source_from_mutable,
}
use tidewise_ai.Source.UseCase.{create_dynamic, create_candidate, create_in_tx, clashes}
use tidewise_ai.Source.Database.{
  Database, store, inserted_row, insert, remove, unless, delete_row, collides,
}
use tidewise_ai.Source.Database as Sql
use tidewise_ai.Source.Capacity.{insert-ok}
use tidewise_ai.Source.Frame.{run-ok, create_in_tx-ok, listed}

module _ (env : Environment) where
  same_clashes :
      (db : Database) (c : Source) (rows : List Source)
      → clashes (inserted_row db c) rows ≡ clashes c rows
  unfolding clashes inserted_row
  same_clashes db c [] = refl
  same_clashes db c (s ∷ rows) = ground (arith, same_clashes db c rows)

  created_row :
      (laws : UuidLaws env.uuid) (input : MutableSource) (r : Result Error Source) (db : Database)
      {s : Source}
      → ((c : Source) → r ≡ ok c → prepare_dynamic env input ≡ ok c)
      → (create_candidate env store r db).0 ≡ ok s
      → ((create_candidate env store r db).1.rows ≡ db.rows ++ s ∷ [])
        × (clashes s (listed db) ≡ false)
        × (s.code ≡ input.code)
        × (s.ownership_type ≡ ownership_dynamic)
        × (s.channel_type ≡ channel_rss)
        × (s.adapter_key ≡ adapter_generic_rss)
        × (Identity.derive env.uuid "SRC" "source" (input.code ∷ []) ≡ ok s.id)
        × (Identity.is env.uuid s.id "SRC" ≡ true)
  unfolding inserted_row dynamic_candidate source_from_mutable
  created_row laws input (err e) db prepared h = absurd (cc)
  created_row laws input (ok c) db {s} prepared h =
      let (id, derived, _, e) = prepare_dynamic-ok env input (prepared c refl) in
      let (free, _, written) = create_in_tx-ok env c db (run-ok (create_in_tx env store c) db h) in
      let (same, rows, _) = insert-ok c db written in
      let is_row : s ≡ inserted_row db (dynamic_candidate input id) =
        same ∙ ap (inserted_row db) e in
      (
        rw same rows,
        rw same (same_clashes db c (listed db) ∙ free),
        ap (λ r. r.code) is_row,
        ap (λ r. r.ownership_type) is_row,
        ap (λ r. r.channel_type) is_row,
        ap (λ r. r.adapter_key) is_row,
        derived ∙ ap ok (sym (ap (λ r. r.id) is_row)),
        rw (ap (λ r. r.id) is_row)
            (is-derive env.uuid laws "SRC" "source" (input.code ∷ []) derived),
      )

  -- Where UUIDs are written and read as documented and CreateDynamic succeeds, exactly one row is added,
  -- the Source that is returned, behind a table that had neither its code nor its id. It is a dynamic RSS
  -- Source of the generic adapter under the canonical id derived from the code that was asked for.
  pub create_dynamic-row :
      (laws : UuidLaws env.uuid) (input : MutableSource) (db : Database) {s : Source}
      → (create_dynamic env store input db).0 ≡ ok s
      → ((create_dynamic env store input db).1.rows ≡ db.rows ++ s ∷ [])
        × (clashes s (listed db) ≡ false)
        × (s.code ≡ input.code)
        × (s.ownership_type ≡ ownership_dynamic)
        × (s.channel_type ≡ channel_rss)
        × (s.adapter_key ≡ adapter_generic_rss)
        × (Identity.derive env.uuid "SRC" "source" (input.code ∷ []) ≡ ok s.id)
        × (Identity.is env.uuid s.id "SRC" ≡ true)
  unfolding create_dynamic
  create_dynamic-row laws input db {s} h =
      created_row laws input (prepare_dynamic env input) db (λ c e. e) h
