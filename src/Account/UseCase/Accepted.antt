-- ===== src/Account/UseCase/Accepted.antt =====
-- What `Verify` of user-service/backend/internal/biz/identity/biz.go accepted: the session and its row.
use mathlib.Core.Path.{subst}
use tidewise_ai.Prelude.{
  ◌≡◌, refl, sym, ap, ◌∙◌, Bool, true, false, not, String, Option, none, some, List, Result, ok,
  err, Bool-cases, Option-cases, inl, inr, str_eq, arith, ℕ, ◌⊎◌, str_eq_self, str_eq_to,
}
use tidewise_ai.Account.{Error, unavailable, Bytes, Session, no_session}
use tidewise_ai.Account.Act.{
  Tables, World, Environment, SessionRow, IdentityRow, UserRow, ◌>>=◌, ◌>>◌, pure, lift,
}
use tidewise_ai.Account.Act.Invert.{bind-ok, pure-ok, lift-ok, asks-ok, fail_if-ok, statement-ok}
use tidewise_ai.Account.Tables.{find_session, find_identity, find_user, kept}
use tidewise_ai.Account.Sessions.{
  is_revoked, lookup, scan_session, with_owner, with_user, joined_session, with_identity,
  valid_session, app_of,
}
use tidewise_ai.Account.UseCase.{Service, verify, token_hash, authorized, is_unauthenticated}

pub kept-ok :
    {A : Type 0} (t : Tables) (r : Result Error A) {a : A} {u : Tables}
    → kept t r ≡ ok (a, u)
    → (r ≡ ok a) × (t ≡ u)
kept-ok t (ok b) h = (cc, cc)
kept-ok t (err e) h = absurd (cc)

lookup-ok :
    (env : Environment) (hash : Bytes) (w v : World) {s : Session}
    → lookup env hash w ≡ (ok s, v)
    → (scan_session env w.tables (find_session hash w.tables.sessions) ≡ ok s)
      × (w.tables ≡ v.tables)
unfolding lookup
lookup-ok env hash w v h = kept-ok _ _ (statement-ok env _ w h)

authorized-ok :
    (u : Service) (s : Session) (w v : World) {a : Unit {0}}
    → authorized u s w ≡ (ok a, v)
    → (is_unauthenticated u s (u.env.now w.tick) ≡ false)
      × (not (str_eq s.status "active") ≡ false)
      × (w.tables ≡ v.tables)
authorized-ok u s w v h =
    let (now, w1, e1, k1) = bind-ok _ _ w h in
    let (p, q) = asks-ok u.env.now w e1 in
    let (_, w2, e2, k2) = bind-ok _ _ w1 k1 in
    let (t, x) = fail_if-ok _ _ w1 e2 in
    let (t2, y) = fail_if-ok _ _ w2 k2 in
    (rw p t, t2, ap (λ z. z.tables) q ∙ ap (λ z. z.tables) x ∙ ap (λ z. z.tables) y)

-- What is known of a session that was accepted.
pub record Accepted (u : Service) (hash : Bytes) (t : Tables) (s : Session) : Type 0 where
  pub scanned : scan_session u.env t (find_session hash t.sessions) ≡ ok s
  pub tick : ℕ
  pub passes : is_unauthenticated u s (u.env.now tick) ≡ false
  pub active : not (str_eq s.status "active") ≡ false

Accepted-then :
    (u : Service) (hash : Bytes) (w v : World) (r : Session) {s : Session}
    → scan_session u.env w.tables (find_session hash w.tables.sessions) ≡ ok r
    → (authorized u r >> pure r) w ≡ (ok s, v)
    → Accepted u hash w.tables s × (w.tables ≡ v.tables)
Accepted-then u hash w v r {s} e h =
    let (_, w1, e1, k1) = bind-ok _ _ w h in
    let (p, q, same) = authorized-ok u r w w1 e1 in
    let (t, x) = pure-ok r w1 k1 in
    (
      subst (Accepted u hash w.tables) t
          (record { scanned = e; tick = w.tick; passes = p; active = q }),
      same ∙ ap (λ z. z.tables) x,
    )

verify_then :
    (u : Service) (hash : Bytes) (w v : World) {s : Session}
    → (lookup u.env hash >>= λ r. authorized u r >> pure r) w ≡ (ok s, v)
    → Accepted u hash w.tables s × (w.tables ≡ v.tables)
verify_then u hash w v {s} h =
    let (r, w1, e1, k1) = bind-ok (lookup u.env hash) _ w h in
    let (scan, same) = lookup-ok u.env hash w w1 e1 in
    let (a, b) =
      Accepted-then u hash w1 v r
        (subst (λ t. scan_session u.env t (find_session hash t.sessions) ≡ ok r) same scan) k1 in
    (subst (λ t. Accepted u hash t s) (sym same) a, same ∙ b)

pub verify-Accepted :
    (u : Service) (word : String) (w v : World) {s : Session}
    → verify u word w ≡ (ok s, v)
    → (hash : Bytes) × (token_hash u.env word ≡ ok hash)
      × Accepted u hash w.tables s
      × (w.tables ≡ v.tables)
unfolding verify
verify-Accepted u word w v {s} h =
    let (hash, w1, e1, k1) = bind-ok (lift (token_hash u.env word)) _ w h in
    let (e, x) = lift-ok _ w e1 in
    let (a, b) = verify_then u hash w1 v k1 in
    let same : w.tables ≡ w1.tables = ap (λ z. z.tables) x in
    (hash, e, subst (λ t. Accepted u hash t s) (sym same) a, same ∙ b)

-- What a scan that succeeded says of the row: it has no user, or the row's revocation and its app.
Described : Session → Bool → Option IdentityRow → Type 0
Described s gone i =
    (str_eq s.user_id "" ≡ true) ⊎ ((s.revoked ≡ gone) × (app_of i s.app_id ≡ true))

scan-user :
    (env : Environment) (row : SessionRow) (i : IdentityRow) (o : Option UserRow) {s : Session}
    → with_user env row i o ≡ ok s
    → Described s (is_revoked row.revoked_at) (some i)
unfolding Described
scan-user env row i none {s} h = inl (let e : no_session ≡ s = cc in rw (← e))
scan-user env row i (some x) {s} h =
    elim (Bool-cases (valid_session env (joined_session x i row))) [
      | inl e ↦
          let f : ok (joined_session x i row) ≡ ok s = rw e at h in
          let g : joined_session x i row ≡ s = cc in
          inr (
            sym (ap (λ z. z.revoked) g),
            subst (λ z. app_of (some i) z.app_id ≡ true) g (str_eq_self i.app_id),
          )
      | inr e ↦ absurd (let bad : err unavailable ≡ ok s = rw e at h in cc)
    ]

scan-row :
    (env : Environment) (us : List UserRow) (row : SessionRow) (o : Option IdentityRow)
    {s : Session}
    → with_owner env us row o ≡ ok s
    → Described s (is_revoked row.revoked_at) o
unfolding Described
scan-row env us row none {s} h = inl (let e : no_session ≡ s = cc in rw (← e))
scan-row env us row (some i) h = scan-user env row i (find_user i.user_id us) h

-- The row that an accepted session was read from.
pub Accepted-row :
    (u : Service) (hash : Bytes) (t : Tables) {s : Session}
    → Accepted u hash t s
    → (row : SessionRow) × (find_session hash t.sessions ≡ some row)
      × (is_revoked row.revoked_at ≡ false)
      × (app_of (find_identity (with_identity row.identity_id) t.identities) u.app_id ≡ true)
unfolding Described
Accepted-row u hash t {s} a = elim (Option-cases (find_session hash t.sessions)) [
  | inl e ↦
      let f : ok no_session ≡ ok s = subst (λ o. scan_session u.env t o ≡ ok s) e a.scanned in
      let g : no_session ≡ s = cc in
      let h : str_eq s.user_id "" ≡ true = rw (← g) refl in
      let p = a.passes in absurd (ground arith)
  | inr (row, e) ↦
      let f = subst (λ o. scan_session u.env t o ≡ ok s) e a.scanned in
      let p = a.passes in
      elim (scan-row u.env t.users row _ f) [
        | inl q ↦ absurd (ground arith)
        | inr (q, r) ↦
            let live : s.revoked ≡ false = ground arith in
            let app : s.app_id ≡ u.app_id = str_eq_to (ground arith) in
            (
              row,
              e,
              sym q ∙ live,
              subst
                  (λ x.
                    app_of (find_identity (with_identity row.identity_id) t.identities) x ≡ true)
                  app r,
            )
      ]
]
