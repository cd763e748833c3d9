-- ===== src/Source/Table.antt =====
-- The constraints of the table hold after every operation of the use case.
use mathlib.Core.Path.{subst}
use tidewise_ai.Source.Tx.{Tx, changes, in_transaction}
use tidewise_ai.Prelude.{
  sym, Option-cases, ◌≤◌, ◌≡◌, String, false, Option, none, some, List, [], ◌∷◌, ◌++◌, Result, ok,
  err, Bool-cases, inl, inr, arith, str_eq, All, All-append,
}
use tidewise_ai.Source.{Error, Source}
use tidewise_ai.Source.Database.{
  Database, unless, collides, collides_any, row_error, row_with_id, rows_without, write,
  inserted_row, updated_row, insert, rewrite, update, remove, delete, statement, store, Statement,
  begin_tx, commit_tx, advisory_lock, insert_row, update_row, delete_row,
}
use tidewise_ai.Source.Keeps.{Keeps, Keeps-changes, Keeps-in_transaction, Keeps-bind, keeps_rules}

-- No row collides with a later one.
abbrev pub Apart : List Source → Type 0
Apart [] = Unit
Apart (r ∷ rows) = All (λ s. collides r s ≡ false) rows × Apart rows

abbrev pub Ordered : List Source → Type 0
Ordered = All (λ r. r.created_at ≤ r.updated_at)

pub record IsTable (db : Database) : Type 0 where
  pub apart : Apart db.rows
  pub ordered : Ordered db.rows

All-without :
    (P : Source → Type 0) (id : String) (rows : List Source)
    → All P rows
    → All P (rows_without id rows)
unfolding rows_without
All-without P id [] h = tt
All-without P id (r ∷ rows) h = elim (Bool-cases (str_eq r.id id)) [
  | inl e ↦ rw e (All-without P id rows h.1)
  | inr e ↦ rw e (h.0, All-without P id rows h.1)
]

Apart-without : (id : String) (rows : List Source) → Apart rows → Apart (rows_without id rows)
unfolding rows_without
Apart-without id [] h = tt
Apart-without id (r ∷ rows) h = elim (Bool-cases (str_eq r.id id)) [
  | inl e ↦ rw e (Apart-without id rows h.1)
  | inr e ↦ rw e (All-without (λ s. collides r s ≡ false) id rows h.0, Apart-without id rows h.1)
]

Apart-snoc :
    (row : Source) (rows : List Source)
    → collides_any row rows ≡ false
    → Apart rows
    → Apart (rows ++ row ∷ [])
unfolding collides_any
Apart-snoc row [] free h = (tt, tt)
Apart-snoc row (r ∷ rows) free h = (
  All-append (λ s. collides r s ≡ false) rows (row ∷ []) h.0 (ground arith, tt),
  Apart-snoc row rows (ground arith) h.1,
)

row_error-none :
    (row : Source) (rows : List Source)
    → row_error row rows ≡ none
    → (row.created_at ≤ row.updated_at) × (collides_any row rows ≡ false)
unfolding row_error
row_error-none row rows h = (ground arith, ground arith)

-- A write that succeeds adds the row behind the others, and the row violates nothing.
pub write-ok :
    (db : Database) (row : Source) (others : List Source) {r : Source} {t : Database}
    → write db row others ≡ ok (r, t)
    → (r ≡ row)
      × (t ≡ record db { rows = others ++ row ∷ [] })
      × (row.created_at ≤ row.updated_at)
      × (collides_any row others ≡ false)
write-ok db row others {r} {t} h = elim (Option-cases (row_error row others)) [
  | inr (e, p) ↦ let bad : err e ≡ ok (r, t) = rw (p, write) at h in absurd (cc)
  | inl p ↦
      let good : ok (row, record db { rows = others ++ row ∷ [] }) ≡ ok (r, t) =
        rw (p, write) at h in
      let (early, free) = row_error-none row others p in (cc, cc, early, free)
]

write-IsTable :
    (db : Database) (row : Source) (others : List Source) (r : Source) (t : Database)
    → write db row others ≡ ok (r, t)
    → Apart others
    → Ordered others
    → IsTable t
write-IsTable db row others r t h a o =
    let (_, e, early, free) = write-ok db row others h in
    subst IsTable (sym e) (record {
      apart = Apart-snoc row others free a;
      ordered = All-append (λ s. s.created_at ≤ s.updated_at) others (row ∷ []) o (early, tt);
    })

pub unless-ok :
    {A : Type 0} (o : Option Error) (m : Result Error A) {a : A} → unless o m ≡ ok a → m ≡ ok a
unless-ok none m h = h
unless-ok (some e) m h = absurd (cc)

pub insert-Keeps : (value : Source) → Keeps IsTable (insert value)
unfolding insert
insert-Keeps value = record {
  at = λ db r t h p.
      write-IsTable db (inserted_row db value) db.rows r t (unless-ok (db.fails insert_row) _ h)
        p.apart p.ordered;
}

rewrite-IsTable :
    (db : Database) (value : Source) (o : Option Source) (r : Source) (t : Database)
    → rewrite db value o ≡ ok (r, t)
    → IsTable db
    → IsTable t
rewrite-IsTable db value none r t h p = absurd (cc)
rewrite-IsTable db value (some stored) r t h p =
    write-IsTable db (updated_row db value stored) (rows_without value.id db.rows) r t h
      (Apart-without value.id db.rows p.apart)
      (All-without (λ s. s.created_at ≤ s.updated_at) value.id db.rows p.ordered)

pub update-Keeps : (value : Source) → Keeps IsTable (update value)
unfolding update
update-Keeps value = record {
  at = λ db r t h p.
      rewrite-IsTable db value (row_with_id value.id db.rows) r t
        (unless-ok (db.fails update_row) _ h) p;
}

remove-IsTable :
    (db : Database) (id : String) (o : Option Source) (t : Database)
    → remove db id o ≡ ok t
    → IsTable db
    → IsTable t
remove-IsTable db id none t h p = absurd (cc)
remove-IsTable db id (some stored) t h p =
    let e : record db { rows = rows_without id db.rows } ≡ t = cc in
    subst IsTable e (record {
      apart = Apart-without id db.rows p.apart;
      ordered = All-without (λ s. s.created_at ≤ s.updated_at) id db.rows p.ordered;
    })

pub delete-Keeps : (id : String) → Keeps IsTable (changes (delete id))
unfolding delete
delete-Keeps id = Keeps-changes (delete id) λ db t h p.
    remove-IsTable db id (row_with_id id db.rows) t (unless-ok (db.fails delete_row) _ h) p

statement-same :
    (st : Statement) (db t : Database) → statement st db ≡ ok t → IsTable db → IsTable t
statement-same st db t h p =
    let good : ok db ≡ ok t = unless-ok (db.fails st) (ok db) h in subst IsTable (cc) p

pub locked-Keeps : Keeps IsTable (changes (statement advisory_lock))
locked-Keeps = Keeps-changes (statement advisory_lock) (statement-same advisory_lock)

pub ruleset table_rules = (keeps_rules, insert-Keeps, update-Keeps, delete-Keeps, locked-Keeps)

module _ {A : Type 0} (run : Tx Database A) (keeps : Keeps IsTable run) where
  pub in_transaction-IsTable :
      (db : Database) → IsTable db → IsTable (in_transaction store run db).1
  in_transaction-IsTable db p =
      Keeps-in_transaction store (statement-same begin_tx) (statement-same commit_tx) run keeps db p
