-- ===== src/Source/Published.antt =====
-- What PublishFixed does to the table, and what it returns, where it succeeds.
use mathlib.Core.Path.{subst, ap₂}
use mathlib.Core.List.{append_assoc, append-nil}
use tidewise_ai.Prelude.{
  ℕ, ◌+◌, ◌≡◌, refl, sym, ap, ◌∙◌, String, Bool, false, not, Option, none, some, List, [], ◌∷◌,
  ◌++◌, map, Result, ok, err, reject_if, reject_if-ok, bind-ok, Bool-cases, Option-cases, inl, inr,
  arith, str_eq, str_eq_to, All,
}
use tidewise_ai.Prelude.Text.{str_mem}
use tidewise_ai.Identity
use tidewise_ai.Source.{Error, conflict, validation, Source, ownership_fixed}
use tidewise_ai.Source.Validation.{Environment, validate_source}
use tidewise_ai.Source.Config.{compact_config}
use tidewise_ai.Source.Envelope.{validate_projected_set}
use tidewise_ai.Source.Prepare.{prepare_source, prepare_all, as_fixed, derived_id, code_field}
use tidewise_ai.Source.UseCase.{by_code}
use tidewise_ai.Source.Tx.{Tx, in_transaction, lift}
use tidewise_ai.Source.Tx as Run
use tidewise_ai.Source.Publish.{
  publish_item, publish_fixed_loop, publish_fixed_in_tx, run_prepared, publish_fixed, missing_of,
  same_fixed, cons_result,
}
use tidewise_ai.Source.Database.{Database, store, inserted_row}
use tidewise_ai.Source.Capacity.{insert-ok}
use tidewise_ai.Source.Frame.{run-ok, locked-ok, listed}
use tidewise_ai.Source.Unique.{code_of}

abbrev pub IsFixed : Source → Type 0
IsFixed s = s.ownership_type ≡ ownership_fixed

module _ (env : Environment) where
  prepare_source-ok :
      (item : Source) (index : ℕ) (seen : List String) (stamped : Bool) {c : Source}
      → prepare_source env item index seen stamped ≡ ok c
      → (c.code ≡ item.code) × (c.ownership_type ≡ item.ownership_type)
  unfolding prepare_source
  prepare_source-ok item index seen stamped {c} h =
      let refused = validation (code_field index) "must be a stable Source code" in
      let (id, _, h1) =
        bind-ok (derived_id refused (Identity.derive env.uuid "SRC" "source" (item.code ∷ []))) _
          h in
      let prepared : Source = record item { id = id; config = compact_config item.config } in
      let (_, _, h2) = bind-ok (reject_if (str_mem item.code seen) conflict) _ h1 in
      let (_, _, h3) = bind-ok (validate_source env prepared stamped) _ h2 in
      let taken : prepared ≡ c = cc in
      (ap (λ s. s.code) (sym taken), ap (λ s. s.ownership_type) (sym taken))

  prepare_all-IsFixed :
      (index : ℕ) (seen : List String) (items : List Source) {prepared : List Source}
      → prepare_all env as_fixed false index seen items ≡ ok prepared
      → (map code_of prepared ≡ map code_of items) × All IsFixed prepared
  unfolding prepare_all as_fixed
  prepare_all-IsFixed index seen [] {prepared} h =
      let taken : [] ≡ prepared = cc in
      subst (λ l. (map code_of l ≡ []) × All IsFixed l) taken (refl, tt)
  prepare_all-IsFixed index seen (item ∷ items) {prepared} h =
      let fixed : Source = record item { ownership_type = ownership_fixed } in
      let (c, p, h1) = bind-ok (prepare_source env fixed index seen false) _ h in
      let (others, q, h2) =
        bind-ok (prepare_all env as_fixed false (index + 1) (item.code ∷ seen) items) _ h1 in
      let taken : c ∷ others ≡ prepared = cc in
      let one = prepare_source-ok fixed index seen false p in
      let rest = prepare_all-IsFixed (index + 1) (item.code ∷ seen) items q in
      subst (λ l. (map code_of l ≡ item.code ∷ map code_of items) × All IsFixed l) taken
        (ap₂ ◌∷◌ one.0 rest.0, (one.1, rest.1))

by_code-code :
    (code : String) (items : List Source) {s : Source} → by_code code items ≡ some s → s.code ≡ code
unfolding by_code
by_code-code code [] h = absurd (cc)
by_code-code code (r ∷ items) {s} h = elim (Option-cases (by_code code items)) [
  | inr (t, e) ↦ let later : some t ≡ some s = rw e at h in by_code-code code items (e ∙ later)
  | inl e ↦ elim (Bool-cases (str_eq r.code code)) [
    | inl f ↦
        let it : some r ≡ some s = rw (e, f) at h in
        let same : r ≡ s = cc in ap (λ x. x.code) (sym same) ∙ str_eq_to f
    | inr f ↦ absurd (let bad : none ≡ some s = rw (e, f) at h in cc)
  ]
]

-- What a part of the loop has done: the result has the codes of the items, and rows were added behind.
abbrev pub Published : List Source → Database → List Source × Database → Type 0
Published items db r =
    (map code_of r.0 ≡ map code_of items)
    × All IsFixed r.0
    × ((added : List Source) × (r.1.rows ≡ db.rows ++ added) × All IsFixed added)

same_fixed-IsFixed :
    (current item : Source) → not (same_fixed current item) ≡ false → IsFixed current
unfolding same_fixed
same_fixed-IsFixed current item h = str_eq_to (ground arith)

-- A check in a callback that passed changed nothing.
lifted :
    {A : Type 0} (r : Result Error A) (db : Database) {a : A} {t : Database}
    → lift r db ≡ ok (a, t)
    → (r ≡ ok a) × (t ≡ db)
lifted (ok b) db h = (cc, cc)
lifted (err e) db h = absurd (cc)

module _ (env : Environment) where
  publish_item-ok :
      (existing items : List Source) (item : Source) (o : Option Source)
      (rest : Tx Database (List Source)) (db : Database) {r : List Source × Database}
      → by_code item.code existing ≡ o
      → IsFixed item
      → ((d : Database) (q : List Source × Database) → rest d ≡ ok q → Published items d q)
      → publish_item env store item rest o db ≡ ok r
      → Published (item ∷ items) db r
  unfolding inserted_row
  publish_item-ok existing items item none rest db {r} found fixed k h =
      let (created, t, first, more) =
        Run.bind-ok (store.tx.insert item) (λ c. cons_result c rest) db h in
      let (others, u, second, last) = Run.bind-ok rest (λ l. Run.pure (created ∷ l)) t more in
      let (is_row, rows, _) = insert-ok item db first in
      let (codes, all, (added, behind, all_added)) = k t (others, u) second in
      let taken : (created ∷ others, u) ≡ r = cc in
      let row = inserted_row db item in
      subst (Published (item ∷ items) db) taken (
        ap₂ ◌∷◌ (ap (λ s. s.code) is_row) codes,
        (ap (λ s. s.ownership_type) is_row ∙ fixed, all),
        (
          row ∷ added,
          behind ∙ ap (λ l. l ++ added) rows ∙ append_assoc db.rows (row ∷ []) added,
          (fixed, all_added),
        ),
      )
  publish_item-ok existing items item (some current) rest db {r} found fixed k h =
      let differs = not (same_fixed current item) in
      let (u, t, first, more) =
        Run.bind-ok (lift (reject_if differs conflict)) (λ v. cons_result current rest) db h in
      let (others, w, second, last) = Run.bind-ok rest (λ l. Run.pure (current ∷ l)) t more in
      let (codes, all, adds) = k t (others, w) second in
      let taken : (current ∷ others, w) ≡ r = cc in
      let (agrees, stays) = lifted (reject_if differs conflict) db first in
      let same : differs ≡ false = reject_if-ok differs conflict agrees in
      let back : t ≡ db = stays in
      subst (Published (item ∷ items) db) taken (
        ap₂ ◌∷◌ (by_code-code item.code existing found) codes,
        (same_fixed-IsFixed current item same, all),
        subst (λ d. (added : List Source) × (w.rows ≡ d.rows ++ added) × All IsFixed added) back
            adds,
      )

  publish_fixed_loop-ok :
      (existing items : List Source) (db : Database) (r : List Source × Database)
      → All IsFixed items
      → publish_fixed_loop env store existing items db ≡ ok r
      → Published items db r
  unfolding publish_fixed_loop
  publish_fixed_loop-ok existing [] db r fixed h =
      let taken : ([], db) ≡ r = cc in
      subst (Published [] db) taken (refl, tt, ([], sym (append-nil db.rows), tt))
  publish_fixed_loop-ok existing (item ∷ items) db r fixed h =
      publish_item-ok existing items item (by_code item.code existing)
        (publish_fixed_loop env store existing items) db refl fixed.0
        (λ d q g. publish_fixed_loop-ok existing items d q fixed.1 g) h

  publish_fixed_in_tx-ok :
      (prepared : List Source) (db : Database) {r : List Source × Database}
      → All IsFixed prepared
      → publish_fixed_in_tx env store prepared db ≡ ok r
      → Published prepared db r
  unfolding publish_fixed_in_tx
  publish_fixed_in_tx-ok prepared db {r} fixed h =
      let existing = listed db in
      let checked =
        validate_projected_set env (existing ++ missing_of env store existing prepared) in
      let run = locked-ok env _ db h in
      let (result, t, first, more) =
        Run.bind-ok (publish_fixed_loop env store existing prepared) _ db run in
      let (u, w, second, last) = Run.bind-ok (lift checked) (λ v. Run.pure result) t more in
      let stays : w ≡ t = (lifted checked t second).1 in
      let taken : (result, w) ≡ r = cc in
      subst (Published prepared db) taken (
        subst (λ d. Published prepared db (result, d)) (sym stays)
          (publish_fixed_loop-ok existing prepared db (result, t) fixed first))

  run_prepared-ok :
      (manifest : List Source) (db : Database) (prepared : Result Error (List Source))
      {result : List Source}
      → prepare_all env as_fixed false 0 [] manifest ≡ prepared
      → (run_prepared env store (publish_fixed_in_tx env store) prepared db).0 ≡ ok result
      → Published manifest db
          (result, (run_prepared env store (publish_fixed_in_tx env store) prepared db).1)
  run_prepared-ok manifest db (err e) p h = absurd (cc)
  run_prepared-ok manifest db (ok prepared) p h =
      let (codes, fixed) = prepare_all-IsFixed env 0 [] manifest p in
      let (found, all, adds) =
        publish_fixed_in_tx-ok prepared db fixed
          (run-ok (publish_fixed_in_tx env store prepared) db h) in
      (found ∙ codes, all, adds)

  -- A PublishFixed that succeeds returns, in the order of the manifest, one fixed Source with the code of
  -- each entry; every row that was stored stays as it was, and the rows that are added behind are fixed.
  pub publish_fixed-Published :
      (manifest : List Source) (db : Database) {result : List Source}
      → (publish_fixed env store manifest db).0 ≡ ok result
      → Published manifest db (result, (publish_fixed env store manifest db).1)
  unfolding publish_fixed
  publish_fixed-Published manifest db h =
      run_prepared-ok manifest db (prepare_all env as_fixed false 0 [] manifest) refl h
