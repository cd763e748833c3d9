-- ===== src/Migration/Runtime.antt =====
-- runtime.go: `CheckPostgresWithOptions` behind the opening of the connection, and the rebuild of an
-- empty schema.
pub mod Laws
use tidewise_ai.Prelude.{
  ℕ, String, Bool, true, false, ◌&&◌, ◌||◌, not, Option, none, some, List, [], ◌∷◌, ◌++◌, Result,
  ok, err, str_eq, if◌then◌else◌,
}
use tidewise_ai.Migration.{
  Migration, Failure, target_58, auto_58, pending_after_reset, begin, rebuild, commit_rebuild,
  GoError, ServiceOptions, ServiceReport, empty_report, Call, Locker, Executor,
}
use tidewise_ai.Migration.Service.{
  errors_of, applied_migration_difference, validate_applied_state, check,
}

-- `sqlExecutor` and the transaction that it begins.
pub record SqlExecutor (W : Type 0) : Type 0 where
  pub begin_tx : Call W (Option Failure)
  pub exec : String → Call W (Option Failure)
  pub rollback : Call W (Option Failure)
  pub commit : Call W (Option Failure)

abbrev pub reset_statements : List String
reset_statements =
    "DROP SCHEMA public CASCADE" ∷ "CREATE SCHEMA public AUTHORIZATION CURRENT_USER"
    ∷ "GRANT USAGE ON SCHEMA public TO public" ∷ []

abbrev pub to_error : (Failure → Failure) → Option Failure → GoError
to_error message none = []
to_error message (some e) = message e ∷ []

abbrev same_failure : Failure → Failure
same_failure e = e

module _ {W : Type 0} (db : SqlExecutor W) where
  abbrev pub committing : Option Failure × W → GoError × W
  committing (result, w) = (to_error commit_rebuild result, w)

  abbrev pub rolled_back : Failure → Option Failure × W → GoError × W
  rolled_back e (result, w) = (rebuild e ∷ to_error same_failure result, w)

  abbrev pub executed : (W → GoError × W) → Option Failure × W → GoError × W
  executed rest (some e, w) = rolled_back e (db.rollback w)
  executed rest (none, w) = rest w

  -- The loop over the statements, and the commit behind it.
  unfoldable pub execute_all : List String → Call W GoError
  execute_all [] w = committing (db.commit w)
  execute_all (statement ∷ statements) w =
      executed (λ v. execute_all statements v) (db.exec statement w)

  abbrev pub resetting : Option Failure × W → GoError × W
  resetting (some e, w) = (begin e ∷ [], w)
  resetting (none, w) = execute_all reset_statements w

  unfoldable pub reset_public_schema : Call W GoError
  unfolding execute_all
  reset_public_schema w = resetting (db.begin_tx w)

module _ {W : Type 0} (db : SqlExecutor W) (executor : Executor W) (locker : Locker W) where
  abbrev release : ServiceReport → GoError → W → (ServiceReport × GoError) × W
  release report errors w =
      let unlocked = locker.unlock w in ((report, errors ++ unlocked.0), unlocked.1)

  abbrev text_of : Result Failure String → String
  text_of (ok s) = s
  text_of (err e) = ""

  abbrev list_of : Result Failure (List Migration) → List Migration
  list_of (ok ms) = ms
  list_of (err e) = []

  abbrev report_of :
      Result Failure String
      → List Migration
      → List Migration
      → Result Failure (List Migration)
      → ServiceReport
  report_of version before applied after = record {
    current_version = text_of version;
    pending = before;
    applied = applied;
    remaining = list_of after;
  }

  abbrev difference :
      List Migration
      → Result Failure String
      → Result Failure (List Migration)
      → List Migration × GoError
  difference before (ok version) (ok after) = applied_migration_difference before after version
  difference before _ _ = ([], [])

  abbrev validation :
      String
      → Result Failure (List Migration)
      → Result Failure String
      → Result Failure (List Migration)
      → GoError
  validation target (ok applied) (ok version) (ok after) =
      validate_applied_state target version after
  validation target _ _ _ = []

  abbrev pub finish :
      String
      → List Migration
      → Result Failure (List Migration)
      → Result Failure String
      → Result Failure (List Migration) × W
      → (ServiceReport × GoError) × W
  finish target before applied version (after, w) =
      let d = difference before version after in
      release (report_of version before d.0 after)
        (errors_of applied
          ++ (errors_of version
              ++ (errors_of after ++ (d.1 ++ validation target applied version after))))
        w

  abbrev pub read_version :
      String
      → List Migration
      → Result Failure (List Migration)
      → Result Failure String × W
      → (ServiceReport × GoError) × W
  read_version target before applied (version, w) =
      finish target before applied version (executor.pending w)

  abbrev pub apply_all :
      String → List Migration → Result Failure (List Migration) × W → (ServiceReport × GoError) × W
  apply_all target before (applied, w) =
      read_version target before applied (executor.current_version w)

  abbrev pub read_before :
      String → Result Failure (List Migration) × W → (ServiceReport × GoError) × W
  read_before target (err e, w) = release empty_report (pending_after_reset e ∷ []) w
  read_before target (ok before, w) = apply_all target before (executor.apply target w)

  abbrev pub was_reset : String → GoError × W → (ServiceReport × GoError) × W
  was_reset target (e ∷ errors, w) = release empty_report (e ∷ errors) w
  was_reset target ([], w) = read_before target (executor.pending w)

  abbrev pub was_locked : String → GoError × W → (ServiceReport × GoError) × W
  was_locked target (e ∷ errors, w) = ((empty_report, e ∷ errors), w)
  was_locked target ([], w) = was_reset target (reset_public_schema db w)

  unfoldable pub rebuild_empty_postgres_schema : String → Call W (ServiceReport × GoError)
  unfolding reset_public_schema
  rebuild_empty_postgres_schema target w =
      if str_eq target "58"
      then was_locked target (locker.lock w)
      else ((empty_report, target_58 ∷ []), w)

  unfoldable pub validate_postgres_service_options : ServiceOptions → GoError
  validate_postgres_service_options options =
      if options.rebuild_empty_schema
        && (not options.auto_apply || not (str_eq options.target_version "58"))
      then auto_58 ∷ []
      else []

  -- `CheckPostgresWithOptions` on an opened connection
  unfoldable pub check_postgres_with_options : ServiceOptions → Call W (ServiceReport × GoError)
  unfolding check rebuild_empty_postgres_schema validate_postgres_service_options
  check_postgres_with_options options w = elim (validate_postgres_service_options options) [
    | e ∷ errors ↦ ((empty_report, e ∷ errors), w)
    | [] ↦
        if options.rebuild_empty_schema
        then rebuild_empty_postgres_schema options.target_version w
        else check executor locker options w
  ]
