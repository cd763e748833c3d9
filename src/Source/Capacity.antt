-- ===== src/Source/Capacity.antt =====
-- The capacity of a snapshot: what the use case checks before a write is enough for the read after it.
use tidewise_ai.Prelude.{
  ℕ, ◌≤◌, ◌≡◌, ap, false, List, [], ◌∷◌, ◌++◌, ok, arith, sum_by, sum_by-append,
}
use tidewise_ai.Prelude.Sorting.{sort_slice, sum_by-sort_slice}
use tidewise_ai.Json.{RawMessage}
use tidewise_ai.Source.{Source, max_snapshot_envelope_size}
use tidewise_ai.Source.Envelope.{is_malformed, snapshot_envelope_size, active_of, config_size}
use tidewise_ai.Source.Envelope.Laws.{weight, blocks, counts, envelope_mono}
use tidewise_ai.Source.Read.{snapshot_less}
use tidewise_ai.Source.Database.{Database, insert, inserted_row, insert_row}
use tidewise_ai.Source.Table.{write-ok, unless-ok}

-- What jsonb may do to a document: it stays one, and takes no more bytes.
pub record KeepsDocuments (jsonb : RawMessage → RawMessage) : Type 0 where
  pub small : (m : RawMessage) → config_size (jsonb m) ≤ config_size m
  pub well_formed : (m : RawMessage) → is_malformed m ≡ false → is_malformed (jsonb m) ≡ false

-- Sources that passed the checks, with one more behind them that is no heavier than the checked one.
module _ (rows : List Source) (candidate row : Source) where
  pub weigh :
      blocks row ≤ blocks candidate
      → weight row ≤ weight candidate
      → counts row ≤ counts candidate
      → snapshot_envelope_size (active_of (sort_slice snapshot_less rows ++ candidate ∷ []))
        ≤ max_snapshot_envelope_size
      → snapshot_envelope_size (active_of (rows ++ row ∷ [])) ≤ max_snapshot_envelope_size
  weigh b w c h =
      envelope_mono (rows ++ row ∷ []) (sort_slice snapshot_less rows ++ candidate ∷ [])
        (grow blocks b) (grow weight w) (grow counts c) h
    where
      grow :
          (f : Source → ℕ)
          → f row ≤ f candidate
          → sum_by f (rows ++ row ∷ []) ≤ sum_by f (sort_slice snapshot_less rows ++ candidate ∷ [])
      grow f h = omega (
        arith,
        h,
        sum_by-append f rows (row ∷ []),
        sum_by-append f (sort_slice snapshot_less rows) (candidate ∷ []),
        sum_by-sort_slice snapshot_less f rows,
      )

pub insert-ok :
    (value : Source) (db : Database) {s : Source} {t : Database}
    → insert value db ≡ ok (s, t)
    → (s ≡ inserted_row db value)
      × (t.rows ≡ db.rows ++ inserted_row db value ∷ [])
      × (t.fails ≡ db.fails)
unfolding insert
insert-ok value db h =
    let (e, f, _, _) =
      write-ok db (inserted_row db value) db.rows (unless-ok (db.fails insert_row) _ h) in
    (e, ap (λ d. d.rows) f, ap (λ d. d.fails) f)
