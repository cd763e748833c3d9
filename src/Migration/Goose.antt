-- ===== src/Migration/Goose.antt =====
-- `GooseExecutor` of postgres.go. The package goose is a parameter, and so is what it does to the world.
pub mod Laws
use tidewise_ai.Prelude.{
  ℕ, String, Bool, true, false, not, ◌||◌, Option, none, some, List, [], ◌∷◌, Result, ok, err,
  if◌then◌else◌, ◌+◌,
}
use tidewise_ai.Prelude.Int.{ℤ, pos, negsuc, ltb_ℤ, eqb_ℤ}
use tidewise_ai.Prelude.Text.{is_blank}
use tidewise_ai.Prelude.Decimal.{parse_int, format_int}
use tidewise_ai.Migration.{
  Migration, Failure, bad_current, bad_version, behind, no_such_target, Call, Executor,
}
use tidewise_ai.Migration.Service.{is_empty, parse_target_version}

-- `gooseOperations`, with goose.SetDialect.
pub record Operations (W : Type 0) : Type 0 where
  pub set_dialect : Call W (Option Failure)
  pub version : Call W (Result Failure ℤ)
  pub collect : ℤ → Call W (Result Failure (List Migration))
  pub up : Call W (Option Failure)
  pub up_to : ℤ → Call W (Option Failure)

-- The pending migrations up to the target, and whether the target is one of them.
abbrev pub add_selected :
    Migration
    → ℤ
    → Option ℤ
    → Result Failure (List Migration × Bool)
    → Result Failure (List Migration × Bool)
add_selected m target none rest = err (bad_version m.version)
add_selected m target (some version) (err e) = err e
add_selected m target (some version) (ok (selected, found)) =
    ok ((if ltb_ℤ target version then selected else m ∷ selected), found || eqb_ℤ version target)

unfoldable pub select_pending : ℤ → List Migration → Result Failure (List Migration × Bool)
select_pending target [] = ok ([], false)
select_pending target (m ∷ ms) =
    add_selected m target (parse_int m.version) (select_pending target ms)

module _ {W : Type 0} (goose : Operations W) where
  abbrev pub formatted : Result Failure ℤ × W → Result Failure String × W
  formatted (err e, w) = (err e, w)
  formatted (ok version, w) = (ok (format_int version), w)

  abbrev pub version_if : Option Failure × W → Result Failure String × W
  version_if (some e, w) = (err e, w)
  version_if (none, w) = formatted (goose.version w)

  unfoldable pub current_version : Call W (Result Failure String)
  current_version w = version_if (goose.set_dialect w)

  abbrev pub collected : Result Failure ℤ × W → Result Failure (List Migration) × W
  collected (err e, w) = (err e, w)
  collected (ok current, w) = goose.collect current w

  abbrev pub pending_if : Option Failure × W → Result Failure (List Migration) × W
  pending_if (some e, w) = (err e, w)
  pending_if (none, w) = collected (goose.version w)

  unfoldable pub pending : Call W (Result Failure (List Migration))
  pending w = pending_if (goose.set_dialect w)

  abbrev pub returning : List Migration → Option Failure × W → Result Failure (List Migration) × W
  returning selected (some e, w) = (err e, w)
  returning selected (none, w) = (ok selected, w)

  abbrev pub run_selected :
      ℤ → Result Failure (List Migration × Bool) → Call W (Result Failure (List Migration))
  run_selected target (err e) w = (err e, w)
  run_selected target (ok (selected, false)) w = (err (no_such_target target), w)
  run_selected target (ok (selected, true)) w = returning selected (goose.up_to target w)

  abbrev pub towards :
      List Migration → ℤ → Result Failure ℤ → Call W (Result Failure (List Migration))
  towards due current (err e) w = (err e, w)
  towards due current (ok target) w =
      if ltb_ℤ target current
      then (err (behind target current), w)
      else if eqb_ℤ target current
      then (ok [], w)
      else run_selected target (select_pending target due) w

  abbrev pub from_current :
      List Migration → String → String → Option ℤ → Call W (Result Failure (List Migration))
  from_current due target_version text none w = (err (bad_current text), w)
  from_current due target_version text (some current) w =
      towards due current (parse_target_version target_version) w

  abbrev pub targeted :
      List Migration → String → Result Failure String × W → Result Failure (List Migration) × W
  targeted due target_version (err e, w) = (err e, w)
  targeted due target_version (ok text, w) = from_current due target_version text (parse_int text) w

  abbrev pub applying :
      String → Result Failure (List Migration) × W → Result Failure (List Migration) × W
  applying target_version (err e, w) = (err e, w)
  applying target_version (ok due, w) =
      if is_blank target_version
      then (if is_empty due then (ok [], w) else returning due (goose.up w))
      else targeted due target_version (current_version w)

  unfoldable pub apply : String → Call W (Result Failure (List Migration))
  unfolding current_version pending select_pending
  apply target_version w = applying target_version (pending w)

  abbrev pub executor : Executor W
  executor = record { current_version = current_version; pending = pending; apply = apply }
