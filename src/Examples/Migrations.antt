-- ===== src/Examples/Migrations.antt =====
-- Runs of the migration on small databases.
use tidewise_ai.Prelude.{
  ℕ, zero, suc, ◌≡◌, refl, String, true, false, none, some, List, [], ◌∷◌, Result, ok, inl, ◌⊎◌,
}
use tidewise_ai.Prelude.Int.{ℤ, pos}
use tidewise_ai.Prelude.Text.{trim_space, trim_left, trim_right, str_mem}
use tidewise_ai.Prelude.Decimal.{parse_int, decimal, format_int, decimal_text, format_06, digit}
use tidewise_ai.Migration.{
  Migration, Failure, external, GoError, ServiceOptions, Executor, Locker, Call,
}
use tidewise_ai.Migration.Service.{
  check, read_state, applied_migration_difference, applied_loop, remains, validate_applied_state,
  parse_target_version,
}
use tidewise_ai.Migration.Service.Laws.{Reached, Accounted}
use tidewise_ai.Migration.Service.Check.{check-ok, check-Free, on_outside}
use tidewise_ai.Migration.Goose.{Operations, executor, apply}
use tidewise_ai.Migration.Goose.Laws.{RunsOnce, journalled, apply-runs}
use tidewise_ai.Migration.Lock.{Connections, World, locker}
use tidewise_ai.Migration.Lock.Laws.{
  Free, is_free, Held, locking, unlocking, closing, call_all, call_all-balanced,
}
use tidewise_ai.Migration.Readiness.{
  Connection, Row, require_postgres_ready_read_only, judge, record_rows, put_applied, is_applied,
  pending_of, current_of, first_unknown,
}
use tidewise_ai.Migration.Readiness.Laws.{ReadyAt, require_ready_sound}
use tidewise_ai.Migration.Runtime.{SqlExecutor}

abbrev first : Migration
first = record { version = "000001"; name = "000001_init.sql"; path = "migrations/000001_init.sql" }

-- A goose that has one migration; the world is its version.
abbrev version_of_world : ℕ → ℤ
version_of_world w = pos w

abbrev due : ℕ → List Migration
due zero = first ∷ []
due (suc w) = []

abbrev goose : Operations ℕ
goose = record {
  set_dialect = λ w. (none, w);
  version = λ w. (ok (version_of_world w), w);
  collect = λ current w. (ok (due w), w);
  up = λ w. (none, 1);
  up_to = λ target w. (none, 1);
}

-- A pool whose server refuses the second unlock of a connection.
abbrev pool : Connections ℕ ℕ
pool = record {
  connect = λ w. (ok w, w);
  advisory_lock = λ conn w. (none, w);
  advisory_unlock = λ conn w. (ok true, w);
  discard_connection = λ conn w. (none, w);
  close = λ conn w. (some (external "closed already"), w);
}

abbrev fresh : World ℕ ℕ
fresh = record { owned = none; opened = 0; closed = 0; outside = 0 }

abbrev auto : ServiceOptions
auto = record { auto_apply = true; target_version = "1"; rebuild_empty_schema = false }

abbrev silent : Locker ℕ
silent = record { lock = λ w. ([], w); unlock = λ w. ([], w) }

call_all-balanced_example :
    Free (call_all pool (locking ∷ locking ∷ closing ∷ unlocking ∷ []) fresh)
    ⊎ Held (call_all pool (locking ∷ locking ∷ closing ∷ unlocking ∷ []) fresh)
call_all-balanced_example =
    call_all-balanced pool (locking ∷ locking ∷ closing ∷ unlocking ∷ []) fresh
      (inl (is_free refl refl))

check-Free_example : Free (check (on_outside (executor goose)) (locker pool) auto fresh).1
check-Free_example = check-Free pool (executor goose) auto fresh (is_free refl refl)

check-ok_example :
    Reached "1" (check (executor goose) silent auto 0).0.0
    × Accounted (check (executor goose) silent auto 0).0.0
unfolding check read_state applied_migration_difference applied_loop remains validate_applied_state
    parse_target_version parse_int decimal trim_space trim_left trim_right format_int decimal_text
    digit tidewise_ai.Migration.Goose.apply tidewise_ai.Migration.Goose.pending
    tidewise_ai.Migration.Goose.current_version tidewise_ai.Migration.Goose.select_pending
check-ok_example = check-ok (executor goose) silent auto 0 refl refl

apply-runs_example : RunsOnce "1" [] (apply (journalled goose) "1" (0, [])).1.1
apply-runs_example = apply-runs goose "1" (0, [])

abbrev paths : List String
paths = "m/000002_more.sql" ∷ "m/000001_init.sql" ∷ []

abbrev listed : List Migration
listed =
    record { version = "000001"; name = "000001_init.sql"; path = "m/000001_init.sql" }
    ∷ record { version = "000002"; name = "000002_more.sql"; path = "m/000002_more.sql" }
    ∷ []

abbrev ledger_rows : List (Result Failure Row)
ledger_rows = ok (pos 0, true) ∷ ok (pos 2, true) ∷ ok (pos 1, false) ∷ ok (pos 1, true) ∷ []

abbrev database : Connection
database = record {
  begin_tx = none;
  ledger = ok (some "goose_db_version");
  rows = ok ledger_rows;
  rows_err = none;
  close_err = none;
  commit = none;
}

require_ready_sound_example :
    (rows : List (Result Failure Row)) × (database.rows ≡ ok rows) × ReadyAt listed "000002" rows
unfolding require_postgres_ready_read_only judge record_rows put_applied is_applied pending_of
    current_of first_unknown format_06 decimal_text digit str_mem
require_ready_sound_example = require_ready_sound database listed "000002" refl

abbrev schema : SqlExecutor ℕ
schema = record {
  begin_tx = λ w. (none, w);
  exec = λ statement w. (none, w);
  rollback = λ w. (none, w);
  commit = λ w. (none, 0);
}

abbrev rebuilding : ServiceOptions
rebuilding = record { auto_apply = true; target_version = "58"; rebuild_empty_schema = true }
