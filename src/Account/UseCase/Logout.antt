-- ===== src/Account/UseCase/Logout.antt =====
-- A session is rejected for ever after `Revoke` of user-service/backend/internal/biz/identity/biz.go.
use mathlib.Core.Path.{subst}
use tidewise_ai.Prelude.{
  ◌≡◌, refl, sym, ap, ◌∙◌, Bool, true, false, ◌&&◌, String, Option, none, some, List, [], ◌∷◌, map,
  Result, ok, err, Bool-cases, inl, inr, if◌then◌else◌, arith,
}
use tidewise_ai.Account.{Error, Bytes, bytes_eq, Session, Time}
use tidewise_ai.Account.Act.{Tables, World, SessionRow, lift, asks}
use tidewise_ai.Account.Act.Invert.{bind-ok, lift-ok, asks-ok, statement-ok}
use tidewise_ai.Account.Tables.{find_session, ended, is_open, update_sessions}
use tidewise_ai.Account.Sessions.{is_revoked, revoke_session, of_app}
use tidewise_ai.Account.UseCase.{Service, verify, revoke, token_hash}
use tidewise_ai.Account.UseCase.Revoked.{Dead, IsDead, Steps, Steps-Dead, ended_if-hash}
use tidewise_ai.Account.UseCase.Accepted.{Accepted, Accepted-row, verify-Accepted}

abbrev pub is_ok : {A : Type 0} → Result Error A → Bool
is_ok (ok a) = true
is_ok (err e) = false

bytes_eq-found :
    (hash : Bytes) (ss : List SessionRow) {row : SessionRow}
    → find_session hash ss ≡ some row
    → bytes_eq row.hash hash ≡ true
unfolding find_session
bytes_eq-found hash [] h = absurd (cc)
bytes_eq-found hash (s ∷ ss) {row} h = elim (Bool-cases (bytes_eq s.hash hash)) [
  | inl e ↦ let f : some s ≡ some row = rw e at h in let g : s ≡ row = cc in rw (← g) e
  | inr e ↦ bytes_eq-found hash ss (rw e at h)
]

ended_row :
    (b : Bool) (o : Option Time) (s : SessionRow) (t : Time)
    → s.revoked_at ≡ o
    → b ≡ true
    → is_revoked (if b && is_open o then record s { revoked_at = some t } else s).revoked_at ≡ true
ended_row true none s t e h = refl
ended_row true (some x) s t e h = ap is_revoked e
ended_row false o s t e h = absurd (cc)

ended-IsDead :
    (p : SessionRow → Bool) (now : Time) (s : SessionRow)
    → p s ≡ true
    → is_revoked (ended p now s).revoked_at ≡ true
ended-IsDead p now s h = ended_row (p s) s.revoked_at s _ refl h

-- A session that the test meets is revoked by the update.
find_session-dies :
    (hash : Bytes) (p : SessionRow → Bool) (now : Time) (ss : List SessionRow) {row : SessionRow}
    → find_session hash ss ≡ some row
    → p row ≡ true
    → IsDead (find_session hash (map (ended p now) ss))
unfolding find_session
find_session-dies hash p now [] h k = absurd (cc)
find_session-dies hash p now (s ∷ ss) {row} h k =
    subst
      (λ x. IsDead (
        if bytes_eq x hash then some (ended p now s) else find_session hash (map (ended p now) ss)))
      (sym (ended_if-hash _ s _))
      (elim (Bool-cases (bytes_eq s.hash hash)) [
        | inl e ↦
            let f : some s ≡ some row = rw e at h in
            let g : s ≡ row = cc in rw e (ended-IsDead p now s (rw g k))
        | inr e ↦ rw e (find_session-dies hash p now ss (rw e at h) k)
      ])

-- Revoking a session that was accepted.
revoke-Dead :
    (u : Service) (hash : Bytes) (now : Time) (w v : World) {s : Session} {a : Unit {0}}
    → Accepted u hash w.tables s
    → revoke_session u.env hash u.app_id now w ≡ (ok a, v)
    → Dead hash v.tables
unfolding revoke_session
revoke-Dead u hash now w v {s} {a} acc h =
    let (row, found, _, app) = Accepted-row u hash w.tables acc in
    let e : update_sessions (ended (of_app w.tables.identities hash u.app_id) now) w.tables
        ≡ ok (a, v.tables) =
      statement-ok u.env _ w h in
    let f : record w.tables {
      sessions = map (ended (of_app w.tables.identities hash u.app_id) now) w.tables.sessions;
    }
        ≡ v.tables =
      cc in
    subst (Dead hash) f (
      find_session-dies hash (of_app w.tables.identities hash u.app_id) now w.tables.sessions found
        (rw (bytes_eq-found hash w.tables.sessions found, app)))

Dead-rejected :
    (u : Service) (hash : Bytes) (t : Tables) {s : Session} → Dead hash t → Accepted u hash t s → ⊥
Dead-rejected u hash t d a =
    let (row, found, live, _) = Accepted-row u hash t a in
    let gone : is_revoked row.revoked_at ≡ true = subst IsDead found d in (ground arith)

rejected_after :
    (u : Service) (word : String) (hash : Bytes) (y : World)
    → token_hash u.env word ≡ ok hash
    → Dead hash y.tables
    → (x : Result Error Session × World) → verify u word y ≡ x
    → is_ok x.0 ≡ false
rejected_after u word hash y hashed dead (err e, z) h = refl
rejected_after u word hash y hashed dead (ok r, z) h =
    let (hash2, hashed2, acc, _) = verify-Accepted u word y z h in
    let two : hash2 ≡ hash = cc in
    absurd (Dead-rejected u hash y.tables dead (subst (λ q. Accepted u q y.tables r) two acc))

-- A session that was accepted and then revoked is never accepted again, whatever calls come between.
pub revoke-verify :
    (u : Service) (word : String) (w v x y : World) (s : Session)
    → verify u word w ≡ (ok s, v)
    → revoke u word v ≡ (ok tt, x)
    → Steps u x y
    → is_ok (verify u word y).0 ≡ false
unfolding revoke
revoke-verify u word w v x y s h k steps =
    let (hash, hashed, acc, same) = verify-Accepted u word w v h in
    let (hash2, v1, e1, k1) = bind-ok (lift (token_hash u.env word)) _ v k in
    let (e2, e3) = lift-ok _ v e1 in
    let (now, v2, e4, k2) = bind-ok (asks u.env.now) _ v1 k1 in
    let (_, e5) = asks-ok u.env.now v1 e4 in
    let one : hash2 ≡ hash = cc in
    let tables : w.tables ≡ v2.tables = same ∙ ap (λ q. q.tables) e3 ∙ ap (λ q. q.tables) e5 in
    let dead : Dead hash2 x.tables =
      revoke-Dead u hash2 now v2 x {s = s}
        (subst (λ t. Accepted u hash2 t s) tables
          (subst (λ q. Accepted u q w.tables s) (sym one) acc))
        k2 in
    rejected_after u word hash2 y e2 (Steps-Dead hash2 steps dead) (verify u word y) refl
