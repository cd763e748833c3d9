-- ===== src/Migration.antt =====
-- data-service/backend/internal/data/dbmigration: the migration of the PostgreSQL schema. Here its
-- types; the children are the service, the executor, the advisory lock, the files and the readiness check.
pub mod Service
pub mod Goose
pub mod Lock
pub mod Files
pub mod Readiness
pub mod Runtime
use tidewise_ai.Prelude.{ℕ, String, Bool, List, [], ◌∷◌, Result}
use tidewise_ai.Prelude.Int.{ℤ}

pub record Migration : Type 0 where
  pub version : String
  pub name : String
  pub path : String

-- What `fmt.Errorf` and the calls outside the package report.
pub data Failure : Type 0 where
  external : String → Failure
  read_version read_pending pending_after_reset : Failure → Failure
  bad_current bad_version bad_target : String → Failure
  inconsistent : String → ℤ → Failure
  still_pending : ℕ → Failure
  not_reached behind : ℤ → ℤ → Failure
  no_such_target : ℤ → Failure
  already_held not_held not_pinned : Failure
  open_connection acquire release close_connection discard : Failure → Failure
  bad_name : String → Failure
  duplicated : String → String → String → Failure
  find_files begin check_ledger read_ledger commit_ledger : Failure → Failure
  ledger_required ledger_empty connection_required : Failure
  invalid_version : ℤ → Failure
  unknown_applied : String → Failure
  not_ready : ℕ → Failure
  target_58 auto_58 : Failure
  rebuild commit_rebuild : Failure → Failure

-- A Go `error`: nil is the empty list, and errors.Join joins the lists.
abbrev pub GoError : Type 0
GoError = List Failure

pub record ServiceOptions : Type 0 where
  pub auto_apply : Bool
  pub target_version : String
  pub rebuild_empty_schema : Bool

pub record ServiceReport : Type 0 where
  pub current_version : String
  pub pending : List Migration
  pub applied : List Migration
  pub remaining : List Migration

abbrev pub empty_report : ServiceReport
empty_report = record { current_version = ""; pending = []; applied = []; remaining = [] }

-- A call: what it returns and the world behind it.
abbrev pub Call : Type 0 → Type 0 → Type 0
Call W A = W → A × W

pub record Locker (W : Type 0) : Type 0 where
  pub lock : Call W GoError
  pub unlock : Call W GoError

pub record Executor (W : Type 0) : Type 0 where
  pub current_version : Call W (Result Failure String)
  pub pending : Call W (Result Failure (List Migration))
  pub apply : String → Call W (Result Failure (List Migration))
