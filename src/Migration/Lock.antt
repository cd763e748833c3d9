-- ===== src/Migration/Lock.antt =====
-- `PostgresAdvisoryLocker` of postgres.go. A connection of the pool, and what the server answers, is a
-- parameter; the world counts the connections that were opened and closed.
pub mod Laws
use tidewise_ai.Prelude.{
  ℕ, suc, Bool, true, false, Option, none, some, List, [], ◌∷◌, ◌++◌, Result, ok, err,
}
use tidewise_ai.Migration.{
  Failure, already_held, not_held, not_pinned, open_connection, acquire, release, close_connection,
  discard, GoError, Call, Locker,
}

-- `db.Conn` and the methods of `advisoryConnection`; the key is part of the queries.
pub record Connections (C W : Type 0) : Type 0 where
  pub connect : Call W (Result Failure C)
  pub advisory_lock : C → Call W (Option Failure)
  pub advisory_unlock : C → Call W (Result Failure Bool)
  pub discard_connection : C → Call W (Option Failure)
  pub close : C → Call W (Option Failure)

-- The locker's field `owned`, what else there is, and how many connections were opened and closed.
pub record World (C W : Type 0) : Type 0 where
  pub owned : Option C
  pub opened : ℕ
  pub closed : ℕ
  pub outside : W

module _ {C W : Type 0} (connections : Connections C W) where
  abbrev wrapped : (Failure → Failure) → Option Failure → GoError
  wrapped message none = []
  wrapped message (some e) = message e ∷ []

  abbrev pub close_with : C → (Failure → Failure) → Call (World C W) GoError
  close_with conn message s =
      let closing = connections.close conn s.outside in
      (wrapped message closing.0, record s { closed = suc s.closed; outside = closing.1 })

  unfoldable pub discard_and_close : C → Call (World C W) GoError
  discard_and_close conn s =
      let discarding = connections.discard_connection conn s.outside in
      let closing = close_with conn close_connection (record s { outside = discarding.1 }) in
      (wrapped discard discarding.0 ++ closing.0, closing.1)

  abbrev pub failed : GoError → C → Call (World C W) GoError
  failed errors conn s = let cleanup = discard_and_close conn s in (errors ++ cleanup.0, cleanup.1)

  abbrev pub lock_on : C → World C W → Option Failure × W → GoError × World C W
  lock_on conn s (some e, w) = failed (acquire e ∷ []) conn (record s { outside = w })
  lock_on conn s (none, w) = ([], record s { owned = some conn; outside = w })

  abbrev pub connected : World C W → Result Failure C × W → GoError × World C W
  connected s (err e, w) = (open_connection e ∷ [], record s { outside = w })
  connected s (ok conn, w) =
      lock_on conn (record s { opened = suc s.opened }) (connections.advisory_lock conn w)

  abbrev pub lock_if : Option C → Call (World C W) GoError
  lock_if (some conn) s = (already_held ∷ [], s)
  lock_if none s = connected s (connections.connect s.outside)

  unfoldable pub lock : Call (World C W) GoError
  unfolding discard_and_close
  lock s = lock_if s.owned s

  abbrev pub unlocked : C → World C W → Result Failure Bool × W → GoError × World C W
  unlocked conn s (err e, w) = failed (release e ∷ []) conn (record s { outside = w })
  unlocked conn s (ok false, w) = failed (not_pinned ∷ []) conn (record s { outside = w })
  unlocked conn s (ok true, w) = close_with conn close_connection (record s { outside = w })

  abbrev pub unlock_if : Option C → Call (World C W) GoError
  unlock_if none s = (not_held ∷ [], s)
  unlock_if (some conn) s =
      unlocked conn (record s { owned = none }) (connections.advisory_unlock conn s.outside)

  unfoldable pub unlock : Call (World C W) GoError
  unfolding discard_and_close
  unlock s = unlock_if s.owned s

  abbrev pub close_if : Option C → Call (World C W) GoError
  close_if none s = ([], s)
  close_if (some conn) s = discard_and_close conn (record s { owned = none })

  -- `Close` of the locker
  unfoldable pub close_locker : Call (World C W) GoError
  unfolding discard_and_close
  close_locker s = close_if s.owned s

  abbrev pub locker : Locker (World C W)
  locker = record { lock = lock; unlock = unlock }
