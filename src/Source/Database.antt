-- ===== src/Source/Database.antt =====
-- data-service/backend/internal/data/source: the store over the table `sources`. PostgreSQL is
-- modelled by what its statements do to the rows, with the constraints of the table
-- (data-service/backend/migrations/000061_add_sources.sql) that the use case does not enforce itself.
use tidewise_ai.Prelude.{
  ◌/◌, ◌*◌, String, Bool, false, ◌&&◌, ◌||◌, Option, none, some, List, [], ◌∷◌, ◌++◌, Result, ok,
  err, ltb, ◌==◌, str_eq, if◌then◌else◌,
}
use tidewise_ai.Prelude.Sorting.{sort_slice}
use tidewise_ai.Json.{RawMessage}
use tidewise_ai.Source.{Error, not_found, conflict, persistence, Source, Time, Transaction, Store}
use tidewise_ai.Source.Envelope.{is_active_web, active_of}
use tidewise_ai.Source.Read.{snapshot_less}

-- The statements that can fail for a reason of their own: the connection, the context, the server.
pub data Statement : Type 0 where
  begin_tx advisory_lock select_rows insert_row update_row delete_row commit_tx : Statement

-- The committed rows, the transaction's now(), what jsonb returns for a document that it is given,
-- and the error that `classify` makes of a statement that fails.
pub record Database : Type 0 where
  pub rows : List Source
  pub now : Time
  pub jsonb : RawMessage → RawMessage
  pub fails : Statement → Option Error

abbrev pub unless : {A : Type 0} → Option Error → Result Error A → Result Error A
unless none r = r
unless (some e) r = err e

-- A timestamptz has whole microseconds.
abbrev pub microseconds : Time → Time
microseconds t = t / 1000 * 1000

-- The row that `Insert` writes: the columns' defaults are now() where the Source has no creation time.
unfoldable pub inserted_row : Database → Source → Source
inserted_row db value = record value {
  config = db.jsonb value.config;
  created_at = if value.created_at == 0 then microseconds db.now else microseconds value.created_at;
  updated_at = if value.created_at == 0 then microseconds db.now else microseconds value.updated_at;
}

-- The row that `Update` writes over a stored one.
unfoldable pub updated_row : Database → Source → Source → Source
updated_row db value stored = record stored {
  name = value.name;
  adapter_key = value.adapter_key;
  enabled = value.enabled;
  endpoint = value.endpoint;
  app_key = value.app_key;
  config = db.jsonb value.config;
  priority = value.priority;
  timeout_seconds = value.timeout_seconds;
  max_results = value.max_results;
  default_source_level = value.default_source_level;
  updated_at = microseconds db.now;
}

-- The keys that a row may not share with another row: the primary key, UNIQUE (code), and the partial
-- index uq_sources_one_enabled_web_search.
unfoldable pub collides : Source → Source → Bool
collides a b = str_eq b.id a.id || str_eq b.code a.code || is_active_web a && is_active_web b

unfoldable pub collides_any : Source → List Source → Bool
collides_any row [] = false
collides_any row (r ∷ rows) = collides r row || collides_any row rows

-- What a written row violates beside the other rows: chk_sources_timestamps, then the unique keys.
unfoldable pub row_error : Source → List Source → Option Error
row_error row rows =
    if ltb row.updated_at row.created_at
    then some persistence
    else if collides_any row rows
    then some conflict
    else none

unfoldable pub row_with_id : String → List Source → Option Source
row_with_id id [] = none
row_with_id id (r ∷ rows) = if str_eq r.id id then some r else row_with_id id rows

unfoldable pub rows_without : String → List Source → List Source
rows_without id [] = []
rows_without id (r ∷ rows) =
    let rest = rows_without id rows in if str_eq r.id id then rest else r ∷ rest

abbrev pub write : Database → Source → List Source → Result Error (Source × Database)
write db row others = elim (row_error row others) [
  | some e ↦ err e
  | none ↦ ok (row, record db { rows = others ++ row ∷ [] })
]

unfoldable pub insert : Source → Database → Result Error (Source × Database)
insert value db = unless (db.fails insert_row) (write db (inserted_row db value) db.rows)

-- WHERE id=$1 with RETURNING: no row is sql.ErrNoRows.
abbrev pub rewrite : Database → Source → Option Source → Result Error (Source × Database)
rewrite db value none = err not_found
rewrite db value (some stored) =
    write db (updated_row db value stored) (rows_without value.id db.rows)

unfoldable pub update : Source → Database → Result Error (Source × Database)
update value db = unless (db.fails update_row) (rewrite db value (row_with_id value.id db.rows))

abbrev pub remove : Database → String → Option Source → Result Error Database
remove db id none = err not_found
remove db id (some stored) = ok (record db { rows = rows_without id db.rows })

unfoldable pub delete : String → Database → Result Error Database
delete id db = unless (db.fails delete_row) (remove db id (row_with_id id db.rows))

-- WHERE NOT $1 OR enabled, ORDER BY channel_type, priority, code, id
unfoldable pub select : Bool → Database → Result Error (List Source)
select active_only db =
    unless (db.fails select_rows)
      (ok (sort_slice snapshot_less (if active_only then active_of db.rows else db.rows)))

abbrev pub statement : Statement → Database → Result Error Database
statement st db = unless (db.fails st) (ok db)

abbrev pub transaction : Transaction Database
transaction = record {
  lock = statement advisory_lock;
  list = select false;
  insert = insert;
  update = update;
  delete = delete;
}

abbrev pub store : Store Database
store = record {
  list = select;
  begin = statement begin_tx;
  commit = statement commit_tx;
  tx = transaction;
}
