-- ===== src/Migration/Runtime/Laws.antt =====
-- The lock and the reset of the schema in `CheckPostgresWithOptions`.
use tidewise_ai.Migration.{Migration, Locker, Executor}
use tidewise_ai.Migration.Lock.{Connections, World, locker}
use tidewise_ai.Migration.Service.Check.{behind, on_outside}
use tidewise_ai.Migration.Runtime.{SqlExecutor}

-- A database that the locker's bookkeeping does not see.
abbrev pub db_outside : {C W : Type 0} → SqlExecutor W → SqlExecutor (World C W)
db_outside db = record {
  begin_tx = behind db.begin_tx;
  exec = λ statement. behind (db.exec statement);
  rollback = behind db.rollback;
  commit = behind db.commit;
}

module _ {C W : Type 0} (connections : Connections C W) (executor : Executor W)
    (db : SqlExecutor W) where
  abbrev outer : Executor (World C W)
  outer = on_outside executor

  abbrev inner : Locker (World C W)
  inner = locker connections

  abbrev outer_db : SqlExecutor (World C W)
  outer_db = db_outside db
