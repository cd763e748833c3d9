-- ===== src/Source/Frame.antt =====
-- What a successful transaction over the table `sources` has done.
use mathlib.Core.Path.{subst}
use tidewise_ai.Prelude.{
  ◌≢◌, str_eq_ne, ◌≡◌, refl, sym, ◌∙◌, String, false, Option, none, some, List, [], ◌∷◌, ◌++◌, ok,
  arith,
}
use tidewise_ai.Prelude.Sorting.{sort_slice}
use tidewise_ai.Source.{Source, MutableSource, ownership_fixed}
use tidewise_ai.Source.Validation.{Environment, validate_source}
use tidewise_ai.Source.Envelope.{validate_projected_set}
use tidewise_ai.Source.Tx.{
  Tx, ◌>>=◌, reads, changes, bind-ok, reads-ok, changes-ok, in_transaction, in_transaction-ok,
}
use tidewise_ai.Source.Read.{snapshot_less}
use tidewise_ai.Source.UseCase.{
  begin_locked, create_checked, update_checked, delete_checked, create_in_tx, update_in_tx,
  delete_in_tx, clashes, update_candidate, find_id, replace_id,
}
use tidewise_ai.Source.Table.{unless-ok}
use tidewise_ai.Source.Database.{
  Database, Statement, begin_tx, advisory_lock, select_rows, commit_tx, statement, select, store,
  insert, update, delete,
}

statement-ok : (st : Statement) (db t : Database) → statement st db ≡ ok t → t ≡ db
statement-ok st db t h = ground arith

pub run-ok :
    {A : Type 0} (run : Tx Database A) (db : Database) {a : A}
    → (in_transaction store run db).0 ≡ ok a
    → run db ≡ ok (a, (in_transaction store run db).1)
run-ok run db {a} h =
    let (begun, done, b, r, c) = in_transaction-ok store run db h in
    let p : begun ≡ db = statement-ok begin_tx db begun b in
    let q : (in_transaction store run db).1 ≡ done =
      statement-ok commit_tx done (in_transaction store run db).1 c in
    subst (λ s. run s ≡ ok (a, (in_transaction store run db).1)) p
      (subst (λ t. run begun ≡ ok (a, t)) (sym q) r)

-- The Sources that a transaction lists.
abbrev pub listed : Database → List Source
listed db = sort_slice snapshot_less db.rows

module _ (env : Environment) where
  begin_locked-ok :
      (db : Database) {items : List Source} {t : Database}
      → begin_locked env store db ≡ ok (items, t)
      → (items ≡ listed db) × (t ≡ db)
  begin_locked-ok db {items} {t} h =
      let (_, u, first, rest) =
        bind-ok (changes (statement advisory_lock)) (λ _. reads (select false)) db h in
      let (found, same) = reads-ok (select false) u rest in
      let e : u ≡ db =
        statement-ok advisory_lock db u (changes-ok (statement advisory_lock) db first) in
      let g : ok (listed u) ≡ ok items =
        unless-ok (u.fails select_rows) (ok (listed u)) (unfold select in found) in
      (subst (λ d. items ≡ listed d) e (cc), same ∙ e)

  -- The rest of a callback, after the lock and the list.
  pub locked-ok :
      {A : Type 0} (f : List Source → Tx Database A) (db : Database) {a : A} {t : Database}
      → (begin_locked env store >>= f) db ≡ ok (a, t)
      → f (listed db) db ≡ ok (a, t)
  locked-ok f db {a} {t} h =
      let (items, u, first, rest) = bind-ok (begin_locked env store) f db h in
      let (e, g) = begin_locked-ok db first in
      subst (λ xs. f xs db ≡ ok (a, t)) e (subst (λ d. f items d ≡ ok (a, t)) g rest)

  create_checked-ok :
      (candidate : Source) (existing : List Source) (db : Database) {s : Source} {t : Database}
      → create_checked env store candidate existing db ≡ ok (s, t)
      → (clashes candidate existing ≡ false)
        × (validate_projected_set env (existing ++ candidate ∷ []) ≡ ok tt)
        × (insert candidate db ≡ ok (s, t))
  create_checked-ok candidate existing db h = (ground arith, ground arith, ground arith)

  pub create_in_tx-ok :
      (candidate : Source) (db : Database) {s : Source} {t : Database}
      → create_in_tx env store candidate db ≡ ok (s, t)
      → (clashes candidate (listed db) ≡ false)
        × (validate_projected_set env (listed db ++ candidate ∷ []) ≡ ok tt)
        × (insert candidate db ≡ ok (s, t))
  unfolding create_in_tx
  create_in_tx-ok candidate db h =
      create_checked-ok candidate (listed db) db
        (locked-ok (create_checked env store candidate) db h)

  update_checked-ok :
      (id : String) (input : MutableSource) (items : List Source) (o : Option Source)
      (db : Database) {s : Source} {t : Database}
      → update_checked env store id input items o db ≡ ok (s, t)
      → (stored : Source) × (o ≡ some stored)
        × (validate_source env (update_candidate input stored) false ≡ ok tt)
        × (validate_projected_set env (replace_id id (update_candidate input stored) items) ≡ ok tt)
        × (update (update_candidate input stored) db ≡ ok (s, t))
  update_checked-ok id input items none db h = absurd (cc)
  update_checked-ok id input items (some stored) db h =
      (stored, refl, ground arith, ground arith, ground arith)

  pub update_in_tx-ok :
      (id : String) (input : MutableSource) (db : Database) {s : Source} {t : Database}
      → update_in_tx env store id input db ≡ ok (s, t)
      → (stored : Source) × (find_id id (listed db) ≡ some stored)
        × (validate_source env (update_candidate input stored) false ≡ ok tt)
        × (validate_projected_set env (replace_id id (update_candidate input stored) (listed db))
            ≡ ok tt)
        × (update (update_candidate input stored) db ≡ ok (s, t))
  unfolding update_in_tx
  update_in_tx-ok id input db h =
      update_checked-ok id input (listed db) (find_id id (listed db)) db
        (locked-ok (λ items. update_checked env store id input items (find_id id items)) db h)

  delete_checked-ok :
      (id : String) (o : Option Source) (db : Database) {t : Database}
      → delete_checked env store id o db ≡ ok (tt, t)
      → (stored : Source) × (o ≡ some stored)
        × (stored.ownership_type ≢ ownership_fixed)
        × (delete id db ≡ ok t)
  delete_checked-ok id none db h = absurd (cc)
  delete_checked-ok id (some stored) db h = (stored, refl, str_eq_ne (ground arith), ground arith)

  pub delete_in_tx-ok :
      (id : String) (db : Database) {t : Database}
      → delete_in_tx env store id db ≡ ok (tt, t)
      → (stored : Source) × (find_id id (listed db) ≡ some stored)
        × (stored.ownership_type ≢ ownership_fixed)
        × (delete id db ≡ ok t)
  unfolding delete_in_tx
  delete_in_tx-ok id db h =
      delete_checked-ok id (find_id id (listed db)) db
        (locked-ok (λ items. delete_checked env store id (find_id id items)) db h)
