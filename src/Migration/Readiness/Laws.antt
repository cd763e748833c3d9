-- ===== src/Migration/Readiness/Laws.antt =====
-- What a schema is that `RequirePostgresReadyReadOnly` calls ready.
use tidewise_ai.Prelude.{
  ◌≡◌, refl, sym, String, Bool, true, false, not, Option, none, some, List, [], ◌∷◌, Result, ok,
  err, inl, inr, Bool-cases, All, All-map, map, ◌||◌, str_eq, length, ◌∙◌,
}
use tidewise_ai.Prelude.Text.{str_mem}
use tidewise_ai.Migration.{Migration, Failure, not_ready, ledger_required}
use tidewise_ai.Migration.Service.{is_empty}
use tidewise_ai.Migration.Readiness.{
  Row, Connection, Applied, is_applied, record_rows, pending_of, first_unknown, version_of, judge,
  judged, behind_close, recorded, queried, with_ledger, begun, require_postgres_ready_read_only,
}
use tidewise_ai.Migration.Readiness.Ledger.{
  latest, record_rows-latest, nothing_pending, none_unknown, Known-version,
}

-- What a ready schema is, for one version: the last row of each file's version says applied, and the
-- version has a file if its last row says so.
abbrev pub ReadyAt : List Migration → String → List (Result Failure Row) → Type 0
ReadyAt migrations version rows =
    All (λ m. latest m.version false rows ≡ true) migrations
    × ((not (latest version false rows) || str_mem version (map version_of migrations)) ≡ true)

ReadyAt-of :
    (migrations : List Migration) (version : String) (rows : List (Result Failure Row))
    (applied : Applied)
    → record_rows [] rows ≡ ok applied
    → pending_of applied migrations ≡ []
    → first_unknown (map version_of migrations) applied ≡ none
    → ReadyAt migrations version rows
unfolding is_applied
ReadyAt-of migrations version rows applied p q r =
    let known = none_unknown (map version_of migrations) applied r in
    (
      All-map (λ m. is_applied m.version applied ≡ true) (λ m. latest m.version false rows ≡ true)
          migrations (λ m h. sym (record_rows-latest m.version rows [] applied p) ∙ h)
          (nothing_pending applied migrations q),
      elim (Bool-cases (is_applied version applied)) [
        | inl e ↦
            let k : str_mem version (map version_of migrations) ≡ true =
              Known-version (map version_of migrations) version applied known e in
            rw k (or_true (not (latest version false rows)))
        | inr e ↦
            let l : latest version false rows ≡ false =
              sym (record_rows-latest version rows [] applied p) ∙ e in
            rw l refl
      ],
    )
  where
    or_true : (b : Bool) → (b || true) ≡ true
    or_true true = refl
    or_true false = refl

no_pending : (pending : List Migration) → is_empty pending ≡ true → pending ≡ []
no_pending [] h = refl
no_pending (m ∷ ms) h = absurd (cc)

judged-ok :
    (db : Connection) (applied : Applied) (migrations : List Migration) (unknown : Option String)
    → (judged db applied migrations unknown).1 ≡ []
    → (pending_of applied migrations ≡ []) × (unknown ≡ none)
judged-ok db applied migrations (some v) h = absurd (cc)
judged-ok db applied migrations none h =
    elim (Bool-cases (is_empty (pending_of applied migrations))) [
      | inl e ↦ (no_pending (pending_of applied migrations) e, refl)
      | inr e ↦
          absurd (
            let bad : not_ready (length (pending_of applied migrations)) ∷ [] ≡ [] = rw e at h in
            cc)
    ]

behind_close-ok :
    (db : Connection) (migrations : List Migration) (version : String)
    (rows : List (Result Failure Row)) (applied : Applied)
    → (rows_err close_err : Option Failure) → record_rows [] rows ≡ ok applied
    → (behind_close db migrations rows applied rows_err close_err).1 ≡ []
    → ReadyAt migrations version rows
unfolding judge
behind_close-ok db migrations version rows applied (some e) close_err p h = absurd (cc)
behind_close-ok db migrations version rows applied none (some e) p h = absurd (cc)
behind_close-ok db migrations version [] applied none none p h = absurd (cc)
behind_close-ok db migrations version (row ∷ rows) applied none none p h =
    let r = judged-ok db applied migrations (first_unknown (map version_of migrations) applied) h in
    ReadyAt-of migrations version (row ∷ rows) applied p r.0 r.1

recorded-ok :
    (db : Connection) (migrations : List Migration) (version : String)
    (rows : List (Result Failure Row))
    → (applied : Result Failure Applied) → record_rows [] rows ≡ applied
    → (recorded db migrations rows applied).1 ≡ []
    → ReadyAt migrations version rows
recorded-ok db migrations version rows (err e) p h = absurd (cc)
recorded-ok db migrations version rows (ok applied) p h =
    behind_close-ok db migrations version rows applied db.rows_err db.close_err p h

queried-ok :
    (db : Connection) (migrations : List Migration) (version : String)
    → (answer : Result Failure (List (Result Failure Row))) → (queried db migrations answer).1 ≡ []
    → (rows : List (Result Failure Row)) × (answer ≡ ok rows) × ReadyAt migrations version rows
queried-ok db migrations version (err e) h = absurd (cc)
queried-ok db migrations version (ok rows) h =
    (rows, refl, recorded-ok db migrations version rows (record_rows [] rows) refl h)

with_ledger-ok :
    (db : Connection) (migrations : List Migration) (version : String)
    → (ledger : Result Failure (Option String)) → (with_ledger db migrations ledger).1 ≡ []
    → (rows : List (Result Failure Row)) × (db.rows ≡ ok rows) × ReadyAt migrations version rows
with_ledger-ok db migrations version (err e) h = absurd (cc)
with_ledger-ok db migrations version (ok none) h = absurd (cc)
with_ledger-ok db migrations version (ok (some name)) h = elim (Bool-cases (str_eq name "")) [
  | inl e ↦ absurd (let bad : ledger_required ∷ [] ≡ [] = rw e at h in cc)
  | inr e ↦ queried-ok db migrations version db.rows (rw e at h)
]

begun-ok :
    (db : Connection) (migrations : List Migration) (version : String) (begin_tx : Option Failure)
    → (begun db migrations begin_tx).1 ≡ []
    → (rows : List (Result Failure Row)) × (db.rows ≡ ok rows) × ReadyAt migrations version rows
begun-ok db migrations version (some e) h = absurd (cc)
begun-ok db migrations version none h = with_ledger-ok db migrations version db.ledger h

-- A schema that the readiness check passes has a ledger that could be read, the last row of every
-- migration file's version in it says that the version is applied, and any version whose last row says so
-- has a migration file.
pub require_ready_sound :
    (db : Connection) (migrations : List Migration) (version : String)
    → (require_postgres_ready_read_only (some db) (ok migrations)).1 ≡ []
    → (rows : List (Result Failure Row)) × (db.rows ≡ ok rows) × ReadyAt migrations version rows
unfolding require_postgres_ready_read_only
require_ready_sound db migrations version h = begun-ok db migrations version db.begin_tx h
