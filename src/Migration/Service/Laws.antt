-- ===== src/Migration/Service/Laws.antt =====
-- What `Service.Check` promises of the migrations and of the lock.
use mathlib.Core.Path.{subst}
use tidewise_ai.Prelude.{
  ◌≡◌, refl, sym, String, true, false, ◌&&◌, ◌||◌, Option, none, some, List, [], ◌∷◌, ◌++◌, Result,
  ok, err, ◌⊎◌, inl, inr, arith, str_eq_self, All, All-map, Bool-cases, Option-cases, Result-cases,
}
use tidewise_ai.Prelude.Int.{ℤ, ltb_ℤ, eqb_ℤ}
use tidewise_ai.Prelude.Text.{trim_space, is_blank}
use tidewise_ai.Prelude.Decimal.{parse_int}
use tidewise_ai.Migration.{
  Migration, Failure, inconsistent, bad_current, not_reached, GoError, ServiceOptions,
  ServiceReport, Locker, Executor,
}
use tidewise_ai.Migration.Service.{
  remains, applied_loop, applied_migration_difference, validate_applied_state, parse_target_version,
  is_empty, read_state, applied, step_applied, reached, locked, report_of, errors_of,
}

-- A migration that was pending is accounted for: it still is, or it is among the applied ones.
abbrev Counted : List Migration → List Migration → Migration → Type 0
Counted after done m = (remains m.version after || remains m.version done) ≡ true

-- What is called applied is no longer pending.
abbrev pub Gone : List Migration → Migration → Type 0
Gone after m = remains m.version after ≡ false

remains_more :
    (m d : Migration) (after done : List Migration)
    → Counted after done m
    → Counted after (d ∷ done) m
unfolding remains
remains_more m d after done h = ground arith

remains_head : (m : Migration) (done : List Migration) → remains m.version (m ∷ done) ≡ true
unfolding remains
remains_head m done = rw (str_eq_self m.version) refl

Counted-head : (m : Migration) (after done : List Migration) → Counted after (m ∷ done) m
Counted-head m after done = ground (arith, remains_head m done)

AllAccounted : List Migration → List Migration × GoError → List Migration → Type 0
AllAccounted after r before = All (Counted after r.0) before × All (Gone after) r.0

stepped-ok :
    (current : ℤ) (after before : List Migration) (m : Migration) (version : Option ℤ)
    (rest : List Migration × GoError)
    → remains m.version after ≡ false
    → (step_applied m current version rest).1 ≡ []
    → (rest.1 ≡ [] → AllAccounted after rest before)
    → AllAccounted after (step_applied m current version rest) (m ∷ before)
unfolding AllAccounted
stepped-ok current after before m none rest e h k = absurd (cc)
stepped-ok current after before m (some version) rest e h k =
    elim (Bool-cases (ltb_ℤ current version)) [
      | inl late ↦ absurd (let bad : inconsistent m.version current ∷ [] ≡ [] = rw late at h in cc)
      | inr due ↦
          let r : AllAccounted after rest before = k (rw due at h) in
          let taken : step_applied m current (some version) rest ≡ (m ∷ rest.0, rest.1) =
            rw due refl in
          subst (λ x. AllAccounted after x (m ∷ before)) (sym taken)
            (
              (
                Counted-head m after rest.0,
                All-map (Counted after rest.0) (Counted after (m ∷ rest.0)) before
                    (λ d c. remains_more d m after rest.0 c) r.0,
              ),
              (e, r.1),
            )
    ]

applied_loop-ok :
    (current : ℤ) (after before : List Migration)
    → (applied_loop current after before).1 ≡ []
    → AllAccounted after (applied_loop current after before) before
unfolding applied_loop AllAccounted
applied_loop-ok current after [] h = (tt, tt)
applied_loop-ok current after (m ∷ before) h = elim (Bool-cases (remains m.version after)) [
  | inl e ↦
      let same : applied_loop current after (m ∷ before) ≡ applied_loop current after before =
        rw e refl in
      let k : AllAccounted after (applied_loop current after before) before =
        applied_loop-ok current after before (rw e at h) in
      subst (λ x. AllAccounted after x (m ∷ before)) (sym same) ((ground arith, k.0), k.1)
  | inr e ↦
      let rest = applied_loop current after before in
      let step = step_applied m current (parse_int (trim_space m.version)) rest in
      let same : applied_loop current after (m ∷ before) ≡ step = rw e refl in
      subst (λ x. AllAccounted after x (m ∷ before)) (sym same)
        (stepped-ok current after before m (parse_int (trim_space m.version)) rest e
          (subst (λ x. x.1 ≡ []) same h) (applied_loop-ok current after before))
]

difference-ok :
    (before after : List Migration) (version : String)
    → (applied_migration_difference before after version).1 ≡ []
    → AllAccounted after (applied_migration_difference before after version) before
unfolding applied_migration_difference
difference-ok before after version h = elim (Option-cases (parse_int (trim_space version))) [
  | inl e ↦
      absurd
        (let bad : bad_current version ∷ [] ≡ [] = rw (e, applied_migration_difference) at h in cc)
  | inr (current, e) ↦
      let same : applied_migration_difference before after version
          ≡ applied_loop current after before =
        rw (e, applied_migration_difference) refl in
      subst (λ x. AllAccounted after x before) (sym same)
        (applied_loop-ok current after before (subst (λ x. x.1 ≡ []) same h))
]

append-nil : (xs ys : GoError) → xs ++ ys ≡ [] → (xs ≡ []) × (ys ≡ [])
append-nil [] ys h = (refl, h)
append-nil (x ∷ xs) ys h = absurd (cc)

-- The state that a run reports, judged against the target.
abbrev pub Reached : String → ServiceReport → Type 0
Reached target report =
    ((is_blank target ≡ true) × (report.remaining ≡ []))
    ⊎ ((goal now : ℤ) × (parse_target_version target ≡ ok goal)
        × (parse_int (trim_space report.current_version) ≡ some now)
        × (eqb_ℤ now goal ≡ true))

no_items : {A : Type 0} (xs : List A) → is_empty xs ≡ true → xs ≡ []
no_items [] h = refl
no_items (x ∷ xs) h = absurd (cc)

one_is_reached :
    (target : String) (goal : ℤ) (report : ServiceReport)
    → parse_target_version target ≡ ok goal
    → (now : Option ℤ) → parse_int (trim_space report.current_version) ≡ now
    → reached goal report.current_version now ≡ []
    → Reached target report
one_is_reached target goal report p none q h = absurd (cc)
one_is_reached target goal report p (some now) q h = elim (Bool-cases (eqb_ℤ now goal)) [
  | inl e ↦ inr (goal, now, p, q, e)
  | inr e ↦ absurd (let bad : not_reached goal now ∷ [] ≡ [] = rw e at h in cc)
]

validate-Reached :
    (target : String) (report : ServiceReport)
    → validate_applied_state target report.current_version report.remaining ≡ []
    → Reached target report
unfolding validate_applied_state
validate-Reached target report h = elim (Bool-cases (is_blank target)) [
  | inl e ↦ elim (Bool-cases (is_empty report.remaining)) [
    | inl f ↦ inl (e, no_items report.remaining f)
    | inr f ↦ absurd (ground arith)
  ]
  | inr e ↦ elim (Result-cases (parse_target_version target)) [
    | inr (bad, p) ↦ absurd (ground arith)
    | inl (goal, p) ↦
        one_is_reached target goal report p (parse_int (trim_space report.current_version)) refl
          (ground arith)
  ]
]

-- Every migration that was pending is still pending or was applied, and none is both.
abbrev pub Accounted : ServiceReport → Type 0
Accounted report =
    All (Counted report.remaining report.applied) report.pending
    × All (Gone report.remaining) report.applied

Accounted-difference :
    (before after : List Migration) (version : String)
    → AllAccounted after (applied_migration_difference before after version) before
    → All (Counted after (applied_migration_difference before after version).0) before
      × All (Gone after) (applied_migration_difference before after version).0
unfolding AllAccounted
Accounted-difference before after version h = h

module _ {W : Type 0} (executor : Executor W) (locker : Locker W) where
  applied-ok :
      (options : ServiceOptions) (before : String × List Migration)
      → (result : Result Failure (List Migration))
      → (answer : Result Failure (String × List Migration) × W)
      → (applied executor locker options before result answer).0.1 ≡ []
      → Reached options.target_version (applied executor locker options before result answer).0.0
        × Accounted (applied executor locker options before result answer).0.0
  applied-ok options before result (err e, w) h = absurd (
      let first : errors_of result ++ (e ∷ []) ≡ [] =
        (append-nil (errors_of result ++ (e ∷ [])) (locker.unlock w).0 h).0 in
      let bad : e ∷ [] ≡ [] = (append-nil (errors_of result) (e ∷ []) first).1 in cc)
  applied-ok options before (err e) (ok after, w) h = absurd (cc)
  applied-ok options before (ok selected) (ok after, w) h =
      let difference = applied_migration_difference before.1 after.1 after.0 in
      let report = report_of executor locker after.0 before.1 difference.0 after.1 in
      let judged = validate_applied_state options.target_version after.0 after.1 in
      let first : difference.1 ++ judged ≡ [] =
        (append-nil (difference.1 ++ judged) (locker.unlock w).0 h).0 in
      let parts : (difference.1 ≡ []) × (judged ≡ []) = append-nil difference.1 judged first in
      (
        validate-Reached options.target_version report parts.1,
        Accounted-difference before.1 after.1 after.0
            (difference-ok before.1 after.1 after.0 parts.0),
      )

  nothing_left :
      (target version : String) (pending : List Migration)
      → (is_empty pending && is_blank target) ≡ true
      → Reached target (report_of executor locker version pending [] pending)
        × Accounted (report_of executor locker version pending [] pending)
  nothing_left target version [] h = (inl (h, refl), (tt, tt))
  nothing_left target version (m ∷ ms) h = absurd (cc)

  pub locked-ok :
      (options : ServiceOptions) (answer : Result Failure (String × List Migration) × W)
      → (locked executor locker options answer).0.1 ≡ []
      → Reached options.target_version (locked executor locker options answer).0.0
        × Accounted (locked executor locker options answer).0.0
  locked-ok options (err e, w) h = absurd (cc)
  locked-ok options (ok before, w) h =
      elim (Bool-cases (is_empty before.1 && is_blank options.target_version)) [
        | inl e ↦ rw e (nothing_left options.target_version before.0 before.1 e)
        | inr e ↦
            let run = executor.apply options.target_version w in
            rw e (applied-ok options before run.0 (read_state executor locker run.1) (rw e at h))
      ]
