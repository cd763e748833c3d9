-- ===== src/Migration/Service.antt =====
-- `Service.Check`, `readState`, `appliedMigrationDifference`, `validateAppliedState` of service.go and
-- `parseTargetVersion` of postgres.go.
pub mod Laws
pub mod Check
use tidewise_ai.Prelude.{
  ℕ, String, Bool, true, false, ◌&&◌, ◌||◌, Option, none, some, List, [], ◌∷◌, ◌++◌, Result, ok,
  err, ltb, str_eq, if◌then◌else◌, length,
}
use tidewise_ai.Prelude.Int.{ℤ, pos, ltb_ℤ, eqb_ℤ}
use tidewise_ai.Prelude.Text.{trim_space, is_blank, str_mem}
use tidewise_ai.Prelude.Decimal.{parse_int}
use tidewise_ai.Migration.{
  Migration, Failure, bad_current, bad_version, bad_target, inconsistent, still_pending,
  not_reached, read_version, read_pending, GoError, ServiceOptions, ServiceReport, empty_report,
  Call, Locker, Executor,
}

abbrev pub is_empty {ℓ} : {A : Type ℓ} → List A → Bool
is_empty [] = true
is_empty (x ∷ xs) = false

abbrev pub errors_of : {A : Type 0} → Result Failure A → GoError
errors_of (ok a) = []
errors_of (err e) = e ∷ []

-- `remainingVersions[version]`
unfoldable pub remains : String → List Migration → Bool
remains version [] = false
remains version (m ∷ ms) = str_eq m.version version || remains version ms

abbrev pub step_applied :
    Migration → ℤ → Option ℤ → List Migration × GoError → List Migration × GoError
step_applied m current none rest = ([], bad_version m.version ∷ [])
step_applied m current (some version) rest =
    if ltb_ℤ current version
    then ([], inconsistent m.version current ∷ [])
    else (m ∷ rest.0, rest.1)

-- The loop over `before`: what was gathered so far is returned with an error.
unfoldable pub applied_loop : ℤ → List Migration → List Migration → List Migration × GoError
unfolding remains
applied_loop current after [] = ([], [])
applied_loop current after (m ∷ before) =
    let rest = applied_loop current after before in
    if remains m.version after
    then rest
    else step_applied m current (parse_int (trim_space m.version)) rest

unfoldable pub applied_migration_difference :
    List Migration → List Migration → String → List Migration × GoError
unfolding applied_loop
applied_migration_difference before after current_version =
    elim (parse_int (trim_space current_version)) [
      | none ↦ ([], bad_current current_version ∷ [])
      | some current ↦ applied_loop current after before
    ]

unfoldable pub parse_target_version : String → Result Failure ℤ
parse_target_version value = elim (parse_int (trim_space value)) [
  | none ↦ err (bad_target value)
  | some target ↦ if ltb_ℤ target (pos 1) then err (bad_target value) else ok target
]

abbrev pub reached : ℤ → String → Option ℤ → GoError
reached target current_version none = bad_current current_version ∷ []
reached target current_version (some current) =
    if eqb_ℤ current target then [] else not_reached target current ∷ []

unfoldable pub validate_applied_state : String → String → List Migration → GoError
unfolding parse_target_version
validate_applied_state target_version current_version remaining =
    if is_blank target_version
    then (if is_empty remaining then [] else still_pending (length remaining) ∷ [])
    else elim (parse_target_version target_version) [
      | err e ↦ e ∷ []
      | ok target ↦ reached target current_version (parse_int (trim_space current_version))
    ]

module _ {W : Type 0} (executor : Executor W) (locker : Locker W) where
  abbrev pub pending_read :
      String → Result Failure (List Migration) × W → Result Failure (String × List Migration) × W
  pending_read version (err e, w) = (err (read_pending e), w)
  pending_read version (ok pending, w) = (ok (version, pending), w)

  abbrev pub version_read : Result Failure String × W → Result Failure (String × List Migration) × W
  version_read (err e, w) = (err (read_version e), w)
  version_read (ok version, w) = pending_read version (executor.pending w)

  unfoldable pub read_state : Call W (Result Failure (String × List Migration))
  read_state w = version_read (executor.current_version w)

  -- `return report, unlock`, where `errors.Join` keeps the errors that came before.
  abbrev pub release : ServiceReport → GoError → W → (ServiceReport × GoError) × W
  release report errors w =
      let unlocked = locker.unlock w in ((report, errors ++ unlocked.0), unlocked.1)

  abbrev pub report_of : String → List Migration → List Migration → List Migration → ServiceReport
  report_of version pending applied remaining = record {
    current_version = version;
    pending = pending;
    applied = applied;
    remaining = remaining;
  }

  -- What is left to do behind the second `readState`.
  abbrev pub applied :
      ServiceOptions
      → String × List Migration
      → Result Failure (List Migration)
      → Result Failure (String × List Migration) × W
      → (ServiceReport × GoError) × W
  applied options before applied_result (err e, w) =
      release (report_of before.0 before.1 [] before.1) (errors_of applied_result ++ (e ∷ [])) w
  applied options before (err e) (ok after, w) =
      let difference = applied_migration_difference before.1 after.1 after.0 in
      release (report_of after.0 before.1 difference.0 after.1) ((e ∷ []) ++ difference.1) w
  applied options before (ok selected) (ok after, w) =
      let difference = applied_migration_difference before.1 after.1 after.0 in
      release (report_of after.0 before.1 difference.0 after.1)
        (difference.1 ++ validate_applied_state options.target_version after.0 after.1) w

  abbrev pub applying :
      ServiceOptions
      → String × List Migration
      → Result Failure (List Migration) × W
      → (ServiceReport × GoError) × W
  applying options before (result, w) = applied options before result (read_state w)

  abbrev pub locked :
      ServiceOptions → Result Failure (String × List Migration) × W → (ServiceReport × GoError) × W
  locked options (err e, w) = release empty_report (e ∷ []) w
  locked options (ok before, w) =
      if is_empty before.1 && is_blank options.target_version
      then release (report_of before.0 before.1 [] before.1) [] w
      else applying options before (executor.apply options.target_version w)

  abbrev pub check_only :
      Result Failure (String × List Migration) × W → (ServiceReport × GoError) × W
  check_only (err e, w) = ((empty_report, e ∷ []), w)
  check_only (ok state, w) = ((report_of state.0 state.1 [] state.1, []), w)

  abbrev pub after_lock : ServiceOptions → GoError × W → (ServiceReport × GoError) × W
  after_lock options (e ∷ errors, w) = ((empty_report, e ∷ errors), w)
  after_lock options ([], w) = locked options (read_state w)

  unfoldable pub check : ServiceOptions → Call W (ServiceReport × GoError)
  unfolding read_state
  check options w =
      if options.auto_apply then after_lock options (locker.lock w) else check_only (read_state w)
