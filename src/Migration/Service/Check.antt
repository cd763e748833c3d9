-- ===== src/Migration/Service/Check.antt =====
-- `Service.Check` as a whole: what a run without errors means, and that the advisory lock is let go.
use tidewise_ai.Prelude.Text.{is_blank}
use mathlib.Core.Path.{subst}
use tidewise_ai.Prelude.{
  ◌≡◌, sym, ap, ◌&&◌, if◌then◌else◌, String, Bool, true, false, List, [], ◌∷◌, Result, ok, err, inl,
  inr, Bool-cases,
}
use tidewise_ai.Migration.{Migration, Failure, GoError, ServiceOptions, Call, Locker, Executor}
use tidewise_ai.Migration.Service.{
  read_state, version_read, pending_read, applied, locked, after_lock, check, is_empty, check_only,
}
use tidewise_ai.Migration.Service.Laws.{Reached, Accounted, locked-ok}
use tidewise_ai.Migration.Lock.{Connections, World, locker}
use tidewise_ai.Migration.Lock.Laws.{
  Free, is_free, Held, is_held, LockOutcome, lock-cases, unlock-Free,
}

after_lock-ok :
    {W : Type 0} (executor : Executor W) (locker : Locker W)
    → (options : ServiceOptions) (answer : GoError × W)
    → (after_lock executor locker options answer).0.1 ≡ []
    → Reached options.target_version (after_lock executor locker options answer).0.0
      × Accounted (after_lock executor locker options answer).0.0
after_lock-ok executor locker options (e ∷ errors, w) h = absurd (cc)
after_lock-ok executor locker options ([], w) h =
    locked-ok executor locker options (read_state executor locker w) h

-- A Check with AutoApply that returns no error reports the target version as its current version, or,
-- without a target, that nothing remains; and each migration that was pending is either applied or
-- remaining by its version, and no applied one remains.
pub check-ok :
    {W : Type 0} (executor : Executor W) (locker : Locker W)
    → (options : ServiceOptions) (w : W) → options.auto_apply ≡ true
    → (check executor locker options w).0.1 ≡ []
    → Reached options.target_version (check executor locker options w).0.0
      × Accounted (check executor locker options w).0.0
unfolding check
check-ok executor locker options w auto h =
    let same : check executor locker options w
        ≡ after_lock executor locker options (locker.lock w) =
      ap
        (λ b.
          if b
          then after_lock executor locker options (locker.lock w)
          else check_only executor locker (read_state executor locker w))
        auto in
    subst (λ r. Reached options.target_version r.0.0 × Accounted r.0.0) (sym same)
      (after_lock-ok executor locker options (locker.lock w) (subst (λ r. r.0.1 ≡ []) same h))

-- A call that the locker's bookkeeping does not see.
abbrev pub behind : {C W A : Type 0} → Call W A → Call (World C W) A
behind run s = let r = run s.outside in (r.0, record s { outside = r.1 })

abbrev pub on_outside : {C W : Type 0} → Executor W → Executor (World C W)
on_outside executor = record {
  current_version = behind executor.current_version;
  pending = behind executor.pending;
  apply = λ target. behind (executor.apply target);
}

-- A property of the bookkeeping alone.
abbrev pub Kept : {C W : Type 0} → (World C W → Type 0) → Type 0
Kept {C} {W} P = (s : World C W) (w : W) → P s → P (record s { outside = w })

pub Held-Kept : {C W : Type 0} → Kept {C = C} {W = W} Held
Held-Kept s w (is_held conn p q) = is_held conn p q

pub Free-Kept : {C W : Type 0} → Kept {C = C} {W = W} Free
Free-Kept s w (is_free p q) = is_free p q

pub either :
    {C W A : Type 0} (b : Bool) (x y : A × World C W)
    → Free x.1
    → Free y.1
    → Free (if b then x else y).1
either true x y h k = h
either false x y h k = k

module _ {C W : Type 0} (connections : Connections C W) (executor : Executor W) where
  abbrev outer : Executor (World C W)
  outer = on_outside executor

  abbrev inner : Locker (World C W)
  inner = locker connections

  pending_read-keeps :
      (P : World C W → Type 0) (version : String)
      → (answer : Result Failure (List Migration) × World C W) → P answer.1
      → P (pending_read outer inner version answer).1
  pending_read-keeps P version (err e, w) h = h
  pending_read-keeps P version (ok due, w) h = h

  version_read-keeps :
      (P : World C W → Type 0)
      → Kept P
      → (answer : Result Failure String × World C W) → P answer.1
      → P (version_read outer inner answer).1
  version_read-keeps P keep (err e, w) h = h
  version_read-keeps P keep (ok version, w) h =
      pending_read-keeps P version (behind executor.pending w)
        (keep w (executor.pending w.outside).1 h)

  read_state-keeps :
      (P : World C W → Type 0) → Kept P → (s : World C W) → P s → P (read_state outer inner s).1
  unfolding read_state
  read_state-keeps P keep s h =
      version_read-keeps P keep (behind executor.current_version s)
        (keep s (executor.current_version s.outside).1 h)

  applied-Free :
      (options : ServiceOptions) (before : String × List Migration)
      → (result : Result Failure (List Migration))
      → (answer : Result Failure (String × List Migration) × World C W) → Held answer.1
      → Free (applied outer inner options before result answer).1
  applied-Free options before result (err e, w) h = unlock-Free connections w h
  applied-Free options before (err e) (ok after, w) h = unlock-Free connections w h
  applied-Free options before (ok selected) (ok after, w) h = unlock-Free connections w h

  locked-Free :
      (options : ServiceOptions) (answer : Result Failure (String × List Migration) × World C W)
      → Held answer.1
      → Free (locked outer inner options answer).1
  locked-Free options (err e, w) h = unlock-Free connections w h
  locked-Free options (ok before, w) h =
      elim (Bool-cases (is_empty before.1 && is_blank options.target_version)) [
        | inl e ↦ rw e (unlock-Free connections w h)
        | inr e ↦
            let run = behind (executor.apply options.target_version) w in
            let held : Held run.1 = Held-Kept w run.1.outside h in
            rw e (
              applied-Free options before run.0 (read_state outer inner run.1)
                (read_state-keeps Held Held-Kept run.1 held))
      ]

  after_lock-Free :
      (options : ServiceOptions) (answer : GoError × World C W)
      → LockOutcome answer
      → Free (after_lock outer inner options answer).1
  after_lock-Free options ([], w) (inl (p, held)) =
      locked-Free options (read_state outer inner w) (read_state-keeps Held Held-Kept w held)
  after_lock-Free options ([], w) (inr (e, errors, p, free)) = absurd (cc)
  after_lock-Free options (e ∷ errors, w) (inl (p, held)) = absurd (cc)
  after_lock-Free options (e ∷ errors, w) (inr (_, _, p, free)) = free

  check_only-Free :
      (answer : Result Failure (String × List Migration) × World C W)
      → Free answer.1
      → Free (check_only outer inner answer).1
  check_only-Free (err e, w) h = h
  check_only-Free (ok state, w) h = h

  -- A Check lets the advisory lock go and closes its connection on every path: whatever the executor, the
  -- pool and the server answer, a locker that held nothing and had closed what it opened is so afterwards.
  pub check-Free :
      (options : ServiceOptions) (s : World C W) → Free s → Free (check outer inner options s).1
  unfolding check
  check-Free options s h =
      either options.auto_apply (after_lock outer inner options (inner.lock s))
        (check_only outer inner (read_state outer inner s))
        (after_lock-Free options (inner.lock s) (lock-cases connections s h))
        (check_only-Free (read_state outer inner s) (read_state-keeps Free Free-Kept s h))
