-- ===== src/Migration/Readiness.antt =====
-- `RequirePostgresReadyReadOnly` of readiness.go. What the connection answers in the read-only
-- transaction is a parameter.
pub mod Ledger
pub mod Laws
use tidewise_ai.Prelude.{
  ℕ, String, Bool, true, false, ◌&&◌, not, Option, none, some, List, [], ◌∷◌, ◌++◌, Result, ok, err,
  str_eq, if◌then◌else◌, length, ◌==◌, map,
}
use tidewise_ai.Prelude.Int.{ℤ, pos, negsuc}
use tidewise_ai.Prelude.Text.{str_mem}
use tidewise_ai.Prelude.Decimal.{format_06}
use tidewise_ai.Migration.{
  Migration, Failure, begin, check_ledger, read_ledger, commit_ledger, ledger_required,
  ledger_empty, connection_required, invalid_version, unknown_applied, not_ready, GoError,
  ServiceReport, empty_report,
}
use tidewise_ai.Migration.Service.{is_empty}

-- A row of goose_db_version: `version_id` and `is_applied`.
abbrev pub Row : Type 0
Row = ℤ × Bool

-- The answers of BeginTx, of the two queries, of Scan, rows.Err, rows.Close and of Commit.
pub record Connection : Type 0 where
  pub begin_tx : Option Failure
  pub ledger : Result Failure (Option String)
  pub rows : Result Failure (List (Result Failure Row))
  pub rows_err : Option Failure
  pub close_err : Option Failure
  pub commit : Option Failure

-- The map `applied`: `applied[version] = isApplied` and `applied[version]`.
abbrev pub Applied : Type 0
Applied = List (String × Bool)

unfoldable pub put_applied : String → Bool → Applied → Applied
put_applied version b [] = (version, b) ∷ []
put_applied version b ((v, a) ∷ applied) =
    let rest = put_applied version b applied in
    if str_eq v version then (v, b) ∷ applied else (v, a) ∷ rest

unfoldable pub is_applied : String → Applied → Bool
is_applied version [] = false
is_applied version ((v, a) ∷ applied) = if str_eq v version then a else is_applied version applied

abbrev pub record_row : Row → Applied → Applied
record_row (pos n, b) applied = if n == 0 then applied else put_applied (format_06 n) b applied
record_row (negsuc n, b) applied = applied

abbrev pub valid_row : Result Failure Row → Result Failure Row
valid_row (err e) = err (read_ledger e)
valid_row (ok (negsuc n, b)) = err (invalid_version (negsuc n))
valid_row (ok (pos n, b)) = ok (pos n, b)

-- The loop over the rows.
unfoldable pub record_rows : Applied → List (Result Failure Row) → Result Failure Applied
unfolding put_applied format_06
record_rows applied [] = ok applied
record_rows applied (row ∷ rows) = elim (valid_row row) [
  | err e ↦ err e
  | ok r ↦ record_rows (record_row r applied) rows
]

abbrev pub failed : Failure → ServiceReport × GoError
failed e = (empty_report, e ∷ [])

-- `report.Pending` and `report.CurrentVersion` from the loop over the migrations.
unfoldable pub pending_of : Applied → List Migration → List Migration
unfolding is_applied
pending_of applied [] = []
pending_of applied (m ∷ ms) =
    let rest = pending_of applied ms in if is_applied m.version applied then rest else m ∷ rest

unfoldable pub current_of : Applied → String → List Migration → String
unfolding is_applied
current_of applied current [] = current
current_of applied current (m ∷ ms) =
    current_of applied (if is_applied m.version applied then m.version else current) ms

abbrev pub version_of : Migration → String
version_of m = m.version

-- The first applied version that no file has; Go's map gives them in any order.
unfoldable pub first_unknown : List String → Applied → Option String
first_unknown known [] = none
first_unknown known ((v, a) ∷ applied) =
    let rest = first_unknown known applied in if a && not (str_mem v known) then some v else rest

abbrev pub committed : ServiceReport → Option Failure → ServiceReport × GoError
committed report none = (report, [])
committed report (some e) = (report, commit_ledger e ∷ [])

abbrev pub found_report : Applied → List Migration → List Migration → ServiceReport
found_report applied migrations remaining = record {
  current_version = current_of applied "" migrations;
  pending = pending_of applied migrations;
  applied = [];
  remaining = remaining;
}

abbrev pub judged : Connection → Applied → List Migration → Option String → ServiceReport × GoError
judged db applied migrations (some v) = (found_report applied migrations [], unknown_applied v ∷ [])
judged db applied migrations none =
    let pending = pending_of applied migrations in
    let report = found_report applied migrations pending in
    if is_empty pending
    then committed report db.commit
    else (report, not_ready (length pending) ∷ [])

unfoldable pub judge : Connection → Applied → List Migration → ServiceReport × GoError
unfolding first_unknown pending_of current_of
judge db applied migrations =
    judged db applied migrations (first_unknown (map version_of migrations) applied)

abbrev pub behind_close :
    Connection
    → List Migration
    → List (Result Failure Row)
    → Applied
    → Option Failure
    → Option Failure
    → ServiceReport × GoError
behind_close db migrations rows applied (some e) _ = failed (read_ledger e)
behind_close db migrations rows applied none (some e) = failed (read_ledger e)
behind_close db migrations [] applied none none = failed ledger_empty
behind_close db migrations (row ∷ rows) applied none none = judge db applied migrations

abbrev pub recorded :
    Connection
    → List Migration
    → List (Result Failure Row)
    → Result Failure Applied
    → ServiceReport × GoError
recorded db migrations rows (err e) = failed e
recorded db migrations rows (ok applied) =
    behind_close db migrations rows applied db.rows_err db.close_err

abbrev pub queried :
    Connection
    → List Migration
    → Result Failure (List (Result Failure Row))
    → ServiceReport × GoError
queried db migrations (err e) = failed (read_ledger e)
queried db migrations (ok rows) = recorded db migrations rows (record_rows [] rows)

abbrev pub with_ledger :
    Connection → List Migration → Result Failure (Option String) → ServiceReport × GoError
with_ledger db migrations (err e) = failed (check_ledger e)
with_ledger db migrations (ok none) = failed ledger_required
with_ledger db migrations (ok (some name)) =
    if str_eq name "" then failed ledger_required else queried db migrations db.rows

abbrev pub begun : Connection → List Migration → Option Failure → ServiceReport × GoError
begun db migrations (some e) = failed (begin e)
begun db migrations none = with_ledger db migrations db.ledger

-- The connection is nil or not, and what ListMigrations returned.
unfoldable pub require_postgres_ready_read_only :
    Option Connection → Result Failure (List Migration) → ServiceReport × GoError
unfolding judge record_rows
require_postgres_ready_read_only none migrations = failed connection_required
require_postgres_ready_read_only (some db) (err e) = failed e
require_postgres_ready_read_only (some db) (ok migrations) = begun db migrations db.begin_tx
