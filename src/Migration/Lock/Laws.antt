-- ===== src/Migration/Lock/Laws.antt =====
-- What the advisory locker keeps of its connections.
use mathlib.Core.Path.{subst}
use tidewise_ai.Prelude.{
  sym, suc, ◌≡◌, refl, Bool, true, false, Option, none, some, List, [], ◌∷◌, Result, ok, err, ◌⊎◌,
  inl, inr, ap,
}
use tidewise_ai.Migration.{Failure, GoError, not_held, already_held}
use tidewise_ai.Migration.Lock.{
  Connections, World, lock, unlock, close_locker, discard_and_close, lock_on, connected, unlocked,
  lock_if, close_if,
}

-- A locker that holds nothing has closed every connection it opened; one that holds the lock has one more open.
pub data Free {C W : Type 0} (s : World C W) : Type 0 where
  is_free : s.owned ≡ none → s.opened ≡ s.closed → Free s

pub data Held {C W : Type 0} (s : World C W) : Type 0 where
  is_held : (conn : C) → s.owned ≡ some conn → s.opened ≡ suc s.closed → Held s

-- What a call of Lock returns: the lock, or errors and nothing left open.
abbrev pub LockOutcome : {C W : Type 0} → GoError × World C W → Type 0
LockOutcome r =
    ((r.0 ≡ []) × Held r.1) ⊎ ((e : Failure) × (errors : GoError) × (r.0 ≡ e ∷ errors) × Free r.1)

module _ {C W : Type 0} (connections : Connections C W) where
  lock_on-cases :
      (conn : C) (s : World C W) (answer : Option Failure × W)
      → s.owned ≡ none
      → s.opened ≡ suc s.closed
      → LockOutcome (lock_on connections conn s answer)
  unfolding discard_and_close
  lock_on-cases conn s (none, w) p q = inl (refl, is_held conn refl q)
  lock_on-cases conn s (some e, w) p q = inr (_, _, refl, is_free p q)

  connected-cases :
      (s : World C W) (answer : Result Failure C × W)
      → Free s
      → LockOutcome (connected connections s answer)
  connected-cases s (err e, w) (is_free p q) = inr (_, _, refl, is_free p q)
  connected-cases s (ok conn, w) (is_free p q) =
      lock_on-cases conn (record s { opened = suc s.opened }) (connections.advisory_lock conn w) p
        (ap suc q)

  -- Lock takes the lock, or reports an error and has closed what it opened.
  pub lock-cases : (s : World C W) → Free s → LockOutcome (lock connections s)
  unfolding lock
  lock-cases s (is_free p q) =
      subst (λ o. LockOutcome (lock_if connections o s)) (sym p)
        (connected-cases s (connections.connect s.outside) (is_free p q))

  unlocked-Free :
      (conn : C) (s : World C W) (answer : Result Failure Bool × W)
      → s.owned ≡ none
      → s.opened ≡ suc s.closed
      → Free (unlocked connections conn s answer).1
  unfolding discard_and_close
  unlocked-Free conn s (err e, w) p q = is_free p q
  unlocked-Free conn s (ok false, w) p q = is_free p q
  unlocked-Free conn s (ok true, w) p q = is_free p q

  -- Unlock lets the lock go and closes its connection, whatever the server answers.
  pub unlock-Free : (s : World C W) → Held s → Free (unlock connections s).1
  unfolding unlock
  unlock-Free s (is_held conn p q) = rw p (
      unlocked-Free conn (record s { owned = none }) (connections.advisory_unlock conn s.outside)
        refl q)

  unlock-not_held : (s : World C W) → Free s → unlock connections s ≡ (not_held ∷ [], s)
  unfolding unlock
  unlock-not_held s (is_free p q) = rw p refl

  lock-already_held : (s : World C W) → Held s → lock connections s ≡ (already_held ∷ [], s)
  unfolding lock
  lock-already_held s (is_held conn p q) = rw p refl

  close_locker-Free : (s : World C W) → Free s ⊎ Held s → Free (close_locker connections s).1
  unfolding close_locker discard_and_close
  close_locker-Free s (inl (is_free p q)) =
      subst (λ o. Free (close_if connections o s).1) (sym p) (is_free p q)
  close_locker-Free s (inr (is_held conn p q)) = rw p (is_free refl q)

-- The calls that a locker takes.
pub data CallOfLocker : Type 0 where
  locking unlocking closing : CallOfLocker

unfoldable pub call_all :
    {C W : Type 0} → Connections C W → List CallOfLocker → World C W → World C W
call_all connections [] s = s
call_all connections (locking ∷ calls) s = call_all connections calls (lock connections s).1
call_all connections (unlocking ∷ calls) s = call_all connections calls (unlock connections s).1
call_all connections (closing ∷ calls) s = call_all connections calls (close_locker connections s).1

one_call :
    {C W : Type 0} (connections : Connections C W) (s : World C W)
    → Free s ⊎ Held s
    → (Free (lock connections s).1 ⊎ Held (lock connections s).1)
      × (Free (unlock connections s).1 ⊎ Held (unlock connections s).1)
one_call connections s (inl h) = (
  elim (lock-cases connections s h) [ inl (_, held) ↦ inr held | inr (_, _, _, free) ↦ inl free ],
  inl (rw (unlock-not_held connections s h) h),
)
one_call connections s (inr h) =
    (inr (rw (lock-already_held connections s h) h), inl (unlock-Free connections s h))

-- After any sequence of Lock, Unlock and Close calls, whatever the pool and the server answer, the
-- locker owns no connection and has closed each one it opened, or it owns one and has closed all others.
pub call_all-balanced :
    {C W : Type 0} (connections : Connections C W) (calls : List CallOfLocker) (s : World C W)
    → Free s ⊎ Held s
    → Free (call_all connections calls s) ⊎ Held (call_all connections calls s)
unfolding call_all
call_all-balanced connections [] s h = h
call_all-balanced connections (locking ∷ calls) s h =
    call_all-balanced connections calls (lock connections s).1 (one_call connections s h).0
call_all-balanced connections (unlocking ∷ calls) s h =
    call_all-balanced connections calls (unlock connections s).1 (one_call connections s h).1
call_all-balanced connections (closing ∷ calls) s h =
    call_all-balanced connections calls (close_locker connections s).1
      (inl (close_locker-Free connections s h))
