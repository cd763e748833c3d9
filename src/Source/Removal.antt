-- ===== src/Source/Removal.antt =====
-- What Delete does to the table where it succeeds.
use tidewise_ai.Source.Tx.{in_transaction}
use tidewise_ai.Prelude.{
  ℕ, ◌+◌, ◌≤◌, ◌≡◌, ◌≢◌, refl, sym, ap, ◌∙◌, String, true, false, not, ◌&&◌, Option, none, some,
  List, [], ◌∷◌, ok, Bool-cases, inl, inr, arith, sum_by, str_eq, str_eq_to, if◌then◌else◌, All,
}
use tidewise_ai.Prelude.Sorting.{sum_by-sort_slice}
use tidewise_ai.Identity
use tidewise_ai.Source.{Source, ownership_fixed}
use tidewise_ai.Source.Validation.{Environment}
use tidewise_ai.Source.Envelope.{bit}
use tidewise_ai.Source.Read.{snapshot_less}
use tidewise_ai.Source.Prepare.{}
use tidewise_ai.Source.UseCase.{delete, delete_in_tx, find_id}
use tidewise_ai.Source.Database.{
  Database, store, inserted_row, updated_row, insert, rows_without, row_with_id, remove, unless,
  delete_row, update_row, rewrite, collides,
}
use tidewise_ai.Source.Database as Sql
use tidewise_ai.Source.Table.{IsTable, Apart, unless-ok}
use tidewise_ai.Source.Frame.{run-ok, delete_in_tx-ok, listed}

-- The rows whose ownership is fixed.
unfoldable pub fixed_of : List Source → List Source
fixed_of [] = []
fixed_of (s ∷ rows) =
    let rest = fixed_of rows in if str_eq s.ownership_type ownership_fixed then s ∷ rest else rest

module _ (id : String) where
  named : Source → ℕ
  named s = bit (str_eq s.id id)

  named_fixed : Source → ℕ
  named_fixed s = bit (str_eq s.id id && str_eq s.ownership_type ownership_fixed)

  named_free : Source → ℕ
  named_free s = bit (str_eq s.id id && not (str_eq s.ownership_type ownership_fixed))

  named_parts :
      (rows : List Source) → sum_by named_fixed rows + sum_by named_free rows ≡ sum_by named rows
  unfolding named named_fixed named_free
  named_parts [] = refl
  named_parts (s ∷ rows) = ground (arith, named_parts rows)

  named_later :
      (r : Source) (rows : List Source)
      → str_eq r.id id ≡ true
      → All (λ s. collides r s ≡ false) rows
      → sum_by named rows ≡ 0
  unfolding named collides
  named_later r [] e h = refl
  named_later r (s ∷ rows) e h =
      let same : r.id ≡ id = str_eq_to e in
      let test : str_eq s.id r.id ≡ str_eq s.id id = ap (λ k. str_eq s.id k) same in
      ground (arith, named_later r rows e h.1)

  named_once : (rows : List Source) → Apart rows → sum_by named rows ≤ 1
  unfolding named
  named_once [] h = omega arith
  named_once (r ∷ rows) h = elim (Bool-cases (str_eq r.id id)) [
    | inl e ↦ rw e (omega (arith, named_later r rows e h.0))
    | inr e ↦ rw e (omega (arith, named_once rows h.1))
  ]

  found_free :
      (rows : List Source) {s : Source}
      → find_id id rows ≡ some s
      → str_eq s.ownership_type ownership_fixed ≡ false
      → 1 ≤ sum_by named_free rows
  unfolding find_id named_free
  found_free [] h free = absurd (cc)
  found_free (r ∷ rows) h free = elim (Bool-cases (str_eq r.id id)) [
    | inl e ↦ ground arith
    | inr e ↦ ground (arith, found_free rows (rw e at h) free)
  ]

  fixed_without :
      (rows : List Source)
      → sum_by named_fixed rows ≡ 0
      → fixed_of (rows_without id rows) ≡ fixed_of rows
  unfolding named_fixed fixed_of rows_without
  fixed_without [] h = refl
  fixed_without (r ∷ rows) h = ground (arith, fixed_without rows)

removed :
    (db : Database) (id : String) (o : Option Source) {t : Database}
    → remove db id o ≡ ok t
    → t.rows ≡ rows_without id db.rows
removed db id none h = absurd (cc)
removed db id (some stored) {t} h =
    let e : record db { rows = rows_without id db.rows } ≡ t = cc in ap (λ d. d.rows) (sym e)

delete-rows :
    (id : String) (db : Database) {t : Database}
    → Sql.delete id db ≡ ok t
    → t.rows ≡ rows_without id db.rows
unfolding Sql.delete
delete-rows id db h = removed db id (row_with_id id db.rows) (unless-ok (db.fails delete_row) _ h)

not_fixed : {s t : String} → s ≢ t → str_eq s t ≡ false
not_fixed {s} {t} ne = elim (Bool-cases (str_eq s t)) [
  | inl e ↦ absurd (ne (str_eq_to e))
  | inr e ↦ e
]

module _ (env : Environment) where
  -- A Delete that succeeds on a table that keeps its constraints removes the rows with its id and no other,
  -- and no fixed Source is among them.
  pub delete-fixed_of :
      (id : String) (db : Database)
      → IsTable db
      → (delete env store id db).0 ≡ ok tt
      → ((delete env store id db).1.rows ≡ rows_without id db.rows)
        × (fixed_of (delete env store id db).1.rows ≡ fixed_of db.rows)
  unfolding delete
  delete-fixed_of id db table h = elim (Bool-cases (Identity.is env.uuid id "SRC")) [
    | inr e ↦ absurd (ground arith)
    | inl e ↦
        let ran : (in_transaction store (delete_in_tx env store id) db).0 ≡ ok tt = rw e at h in
        let (stored, found, free, gone) =
          delete_in_tx-ok env id db (run-ok (delete_in_tx env store id) db ran) in
        let rows = delete-rows id db gone in
        let none_fixed : sum_by (named_fixed id) db.rows ≡ 0 = omega (
          arith,
          named_parts id db.rows,
          named_once id db.rows table.apart,
          sum_by-sort_slice snapshot_less (named_free id) db.rows,
          found_free id (listed db) found (not_fixed free),
        ) in
        rw e (rows, ap fixed_of rows ∙ fixed_without id db.rows none_fixed)
  ]
