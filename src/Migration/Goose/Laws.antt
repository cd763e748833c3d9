-- ===== src/Migration/Goose/Laws.antt =====
-- Which migration run of the package goose `GooseExecutor.Apply` starts.
use mathlib.Core.Path.{subst}
use tidewise_ai.Prelude.{
  ◌≡◌, refl, String, Bool, true, false, Option, none, some, List, [], ◌∷◌, Result, ok, err, ◌⊎◌,
  inl, inr, Bool-cases, if◌then◌else◌,
}
use tidewise_ai.Prelude.Int.{ℤ, ltb_ℤ, eqb_ℤ}
use tidewise_ai.Prelude.Text.{is_blank}
use tidewise_ai.Prelude.Decimal.{parse_int}
use tidewise_ai.Migration.{Migration, Failure, Call}
use tidewise_ai.Migration.Service.{parse_target_version, is_empty}
use tidewise_ai.Migration.Goose.{
  Operations, select_pending, apply, applying, pending, current_version, pending_if, collected,
  version_if, formatted, targeted, from_current, towards, run_selected, returning,
}

-- A run of goose.UpContext or goose.UpToContext.
pub data Run : Type 0 where
  run_up : Run
  run_up_to : ℤ → Run

-- The package with a journal of the runs, the latest first.
abbrev pub seeing : {W A : Type 0} → Call W A → Call (W × List Run) A
seeing call s = let r = call s.0 in (r.0, (r.1, s.1))

abbrev pub running : {W A : Type 0} → Run → Call W A → Call (W × List Run) A
running run call s = let r = call s.0 in (r.0, (r.1, run ∷ s.1))

abbrev pub journalled : {W : Type 0} → Operations W → Operations (W × List Run)
journalled goose = record {
  set_dialect = seeing goose.set_dialect;
  version = seeing goose.version;
  collect = λ current. seeing (goose.collect current);
  up = running run_up goose.up;
  up_to = λ target. running (run_up_to target) (goose.up_to target);
}

-- What the journal may be after an Apply with this target.
abbrev pub RunsOnce : String → List Run → List Run → Type 0
RunsOnce target before after =
    (after ≡ before)
    ⊎ (((is_blank target ≡ true) × (after ≡ run_up ∷ before))
        ⊎ ((goal : ℤ) × (is_blank target ≡ false)
            × (parse_target_version target ≡ ok goal)
            × (after ≡ run_up_to goal ∷ before)))

module _ {W : Type 0} (goose : Operations W) where
  abbrev ops : Operations (W × List Run)
  ops = journalled goose

  formatted-runs :
      (answer : Result Failure ℤ × (W × List Run)) → (formatted ops answer).1.1 ≡ answer.1.1
  formatted-runs (err e, s) = refl
  formatted-runs (ok v, s) = refl

  version_if-runs :
      (answer : Option Failure × (W × List Run)) → (version_if ops answer).1.1 ≡ answer.1.1
  version_if-runs (some e, s) = refl
  version_if-runs (none, s) = formatted-runs (ops.version s)

  collected-runs :
      (answer : Result Failure ℤ × (W × List Run)) → (collected ops answer).1.1 ≡ answer.1.1
  collected-runs (err e, s) = refl
  collected-runs (ok v, s) = refl

  pending_if-runs :
      (answer : Option Failure × (W × List Run)) → (pending_if ops answer).1.1 ≡ answer.1.1
  pending_if-runs (some e, s) = refl
  pending_if-runs (none, s) = collected-runs (ops.version s)

  returning-runs :
      (selected : List Migration) (answer : Option Failure × (W × List Run))
      → (returning ops selected answer).1.1 ≡ answer.1.1
  returning-runs selected (some e, s) = refl
  returning-runs selected (none, s) = refl

  run_selected-runs :
      (target : ℤ) (selected : Result Failure (List Migration × Bool)) (s : W × List Run)
      → ((run_selected ops target selected s).1.1 ≡ s.1)
        ⊎ ((run_selected ops target selected s).1.1 ≡ run_up_to target ∷ s.1)
  run_selected-runs target (err e) s = inl refl
  run_selected-runs target (ok (selected, false)) s = inl refl
  run_selected-runs target (ok (selected, true)) s =
      inr (returning-runs selected (ops.up_to target s))

  towards-runs :
      (due : List Migration) (current goal : ℤ) (s : W × List Run)
      → ((towards ops due current (ok goal) s).1.1 ≡ s.1)
        ⊎ ((towards ops due current (ok goal) s).1.1 ≡ run_up_to goal ∷ s.1)
  towards-runs due current goal s = elim (Bool-cases (ltb_ℤ goal current)) [
    | inl e ↦ inl (rw e refl)
    | inr e ↦ elim (Bool-cases (eqb_ℤ goal current)) [
      | inl f ↦ inl (rw (e, f) refl)
      | inr f ↦ rw (e, f) (run_selected-runs goal (select_pending goal due) s)
    ]
  ]

  from_parsed :
      (due : List Migration) (target : String) (current : ℤ) (parsed : Result Failure ℤ)
      (s : W × List Run)
      → is_blank target ≡ false
      → parse_target_version target ≡ parsed
      → RunsOnce target s.1 (towards ops due current parsed s).1.1
  from_parsed due target current (err e) s b p = inl refl
  from_parsed due target current (ok goal) s b p = elim (towards-runs due current goal s) [
    | inl h ↦ inl h
    | inr h ↦ inr (inr (goal, b, p, h))
  ]

  from_current-runs :
      (due : List Migration) (target text : String) (current : Option ℤ) (s : W × List Run)
      → is_blank target ≡ false
      → RunsOnce target s.1 (from_current ops due target text current s).1.1
  from_current-runs due target text none s b = inl refl
  from_current-runs due target text (some current) s b =
      from_parsed due target current (parse_target_version target) s b refl

  targeted-runs :
      (due : List Migration) (target : String) (answer : Result Failure String × (W × List Run))
      → is_blank target ≡ false
      → RunsOnce target answer.1.1 (targeted ops due target answer).1.1
  targeted-runs due target (err e, s) b = inl refl
  targeted-runs due target (ok text, s) b = from_current-runs due target text (parse_int text) s b

  up-runs :
      (due : List Migration) (target : String) (s : W × List Run)
      → is_blank target ≡ true
      → RunsOnce target s.1 (if is_empty due then (ok [], s) else returning ops due (ops.up s)).1.1
  up-runs [] target s b = inl refl
  up-runs (m ∷ due) target s b = inr (inl (b, returning-runs (m ∷ due) (ops.up s)))

  by_target :
      (due : List Migration) (target : String) (s : W × List Run) (b : Bool)
      → is_blank target ≡ b
      → RunsOnce target s.1
          (if b
            then (if is_empty due then (ok [], s) else returning ops due (ops.up s))
            else targeted ops due target (current_version ops s)).1.1
  unfolding current_version
  by_target due target s true e = up-runs due target s e
  by_target due target s false e =
      let versioned = current_version ops s in
      subst (λ l. RunsOnce target l (targeted ops due target versioned).1.1)
        (version_if-runs (ops.set_dialect s)) (targeted-runs due target versioned e)

  applying-runs :
      (target : String) (answer : Result Failure (List Migration) × (W × List Run))
      → RunsOnce target answer.1.1 (applying ops target answer).1.1
  applying-runs target (err e, s) = inl refl
  applying-runs target (ok due, s) = by_target due target s (is_blank target) refl

  -- One Apply starts at most one run of goose: without a target an unbounded one, and with a target only
  -- the run up to the very version that the target parses to.
  pub apply-runs :
      (target : String) (s : W × List Run) → RunsOnce target s.1 (apply ops target s).1.1
  unfolding apply current_version pending
  apply-runs target s =
      subst (λ l. RunsOnce target l (apply ops target s).1.1) (pending_if-runs (ops.set_dialect s))
        (applying-runs target (pending ops s))
