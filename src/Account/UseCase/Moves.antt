-- ===== src/Account/UseCase/Moves.antt =====
-- A relation that the statements on sessions keep is kept by every call of the user service.
pub mod Calls
use mathlib.Core.Path.{subst}
use tidewise_ai.Prelude.{
  ap, sym, ◌≡◌, refl, String, Bool, true, false, Option, none, some, List, [], ◌∷◌, ◌++◌, map,
  Result, ok, err, Result-cases, inl, inr, not, ltb, if◌then◌else◌, Bool-cases,
}
use tidewise_ai.Account.{Error, conflict, unavailable, Bytes, Time, State, Session}
use tidewise_ai.Account.Act.{
  Tables, World, UserRow, IdentityRow, SessionRow, Environment, Act, ◌>>=◌, statement,
}
use tidewise_ai.Account.Act.Laws.{Order, Moves, Moves-pure, Moves-bind, Moves-statement}
use tidewise_ai.Account.Tables.{
  find, create, save, kept, ended, has_session, has_user, has_clash, insert_session, insert_user,
  insert_identity, session_row, end_previous, new_user, new_identity, logged_in, linked,
  update_users, update_identities, update_sessions, of_identity,
}
use tidewise_ai.Account.Sessions.{
  lookup, revoke_session, set_nickname, set_avatar, stored_avatar, of_app, put_avatar, avatar_row,
}

-- What the relation has to allow: other columns change freely, sessions end, and one is added under
-- its unique keys.
pub record KeepsSessions (R : Tables → Tables → Type 0) : Type 0 where
  pub order : Order R
  pub aside : (t u : Tables) → u.sessions ≡ t.sessions → R t u
  pub ends :
      (t : Tables) (p : SessionRow → Bool) (now : Time)
      → R t (record t { sessions = map (ended p now) t.sessions })
  pub adds :
      (t : Tables) (s : SessionRow)
      → has_session s t.sessions ≡ false
      → R t (record t { sessions = t.sessions ++ s ∷ [] })

module _ (R : Tables → Tables → Type 0) (k : KeepsSessions R) where
  pub says :
      {A : Type 0} (env : Environment) (q : Tables → Result Error (A × Tables))
      → ((t u : Tables) (a : A) → q t ≡ ok (a, u) → R t u)
      → Moves R (statement env q)
  says env q h = Moves-statement k.order env q h

  -- A statement that only reads.
  pub kept-same :
      {A : Type 0} (t u : Tables) (r : Result Error A) (a : A) → kept t r ≡ ok (a, u) → R t u
  kept-same t u (ok b) a h = let e : t ≡ u = cc in k.aside t u (ap (λ x. x.sessions) (sym e))
  kept-same t u (err e) a h = absurd (cc)

  pub Moves-find : (env : Environment) (app who : String) → Moves R (find env app who)
  unfolding find
  Moves-find env app who = says env _ λ t u a h. kept-same t u _ a h

  pub Moves-lookup : (env : Environment) (hash : Bytes) → Moves R (lookup env hash)
  unfolding lookup
  Moves-lookup env hash = says env _ λ t u a h. kept-same t u _ a h

  pub Moves-stored_avatar : (env : Environment) (user : String) → Moves R (stored_avatar env user)
  unfolding stored_avatar
  Moves-stored_avatar env user = says env _ λ t u a h. kept-same t u _ a h

  pub Moves-revoke_session :
      (env : Environment) (hash : Bytes) (app : String) (now : Time)
      → Moves R (revoke_session env hash app now)
  unfolding revoke_session
  Moves-revoke_session env hash app now = says env _ λ t u a h.
      let e : u
          ≡ record t { sessions = map (ended (of_app t.identities hash app) now) t.sessions } =
        cc in
      subst (λ v. R t v) (sym e) (k.ends t _ now)

  -- Statements on the rows beside the sessions.
  on_users : (env : Environment) (f : UserRow → UserRow) → Moves R (statement env (update_users f))
  on_users env f = says env _ λ t u a h.
      let e : u ≡ record t { users = map f t.users } = cc in k.aside t u (ap (λ x. x.sessions) e)

  on_identities :
      (env : Environment) (f : IdentityRow → IdentityRow)
      → Moves R (statement env (update_identities f))
  on_identities env f = says env _ λ t u a h.
      let e : u ≡ record t { identities = map f t.identities } = cc in
      k.aside t u (ap (λ x. x.sessions) e)

  pub Moves-set_nickname :
      (env : Environment) (user nickname : String) → Moves R (set_nickname env user nickname)
  unfolding set_nickname
  Moves-set_nickname env user nickname = on_users env _

  pub Moves-set_avatar :
      (env : Environment) (user : String) (image : Bytes) (now : Time) (version : String)
      → Moves R (set_avatar env user image now version)
  unfolding set_avatar
  Moves-set_avatar env user image now version = says env _ λ t u a h.
      let e : u ≡ record t { avatars = put_avatar (avatar_row user image now version) t.avatars } =
        cc in
      k.aside t u (ap (λ x. x.sessions) e)

  guarded :
      (t u : Tables) (a : Unit {0}) (b : Bool) (e : Error) (v : Tables)
      → if◌then◌else◌ {A = Result Error (Unit {0} × Tables)} b (err e) (ok (tt, v)) ≡ ok (a, u)
      → (b ≡ false) × (u ≡ v)
  guarded t u a true e v h = absurd (cc)
  guarded t u a false e v h = (refl, cc)

  insert_user-aside :
      (x : UserRow) (t u : Tables) (a : Unit {0}) → insert_user x t ≡ ok (a, u) → R t u
  insert_user-aside x t u a h =
      k.aside t u (ap (λ y. y.sessions) (guarded t u a (has_user x.id t.users) conflict _ h).1)

  insert_identity-aside :
      (x : IdentityRow) (t u : Tables) (a : Unit {0}) → insert_identity x t ≡ ok (a, u) → R t u
  insert_identity-aside x t u a h =
      k.aside t u (ap (λ y. y.sessions) (guarded t u a (has_clash x t.identities) conflict _ h).1)

  pub Moves-create : (env : Environment) (s : State) (now : Time) → Moves R (create env s now)
  unfolding create
  Moves-create env s now =
      Moves-bind k.order (says env _ (insert_user-aside (new_user s now)))
        λ _. says env _ (insert_identity-aside (new_identity s))

  Moves-end_previous :
      (env : Environment) (s : Session) (now : Time) (previous : Bytes)
      → Moves R (end_previous env s now previous)
  unfolding end_previous
  Moves-end_previous env s now [] = Moves-pure k.order tt
  Moves-end_previous env s now (b ∷ bs) = says env _ λ t u a h.
      let e : u ≡ record t {
        sessions = map (ended (of_identity (b ∷ bs) s.identity_id) now) t.sessions;
      } =
        cc in
      subst (λ v. R t v) (sym e) (k.ends t _ now)

  insert_session-adds :
      (s : SessionRow) (t u : Tables) (a : Unit {0}) → insert_session s t ≡ ok (a, u) → R t u
  insert_session-adds s t u a h = elim (Bool-cases (not (ltb s.created_at s.expires_at))) [
    | inl e ↦ absurd (let bad : err unavailable ≡ ok (a, u) = rw e at h in cc)
    | inr e ↦
        let (f, g) = guarded t u a (has_session s t.sessions) conflict _ (rw e at h) in
        subst (λ v. R t v) (sym g) (k.adds t s f)
  ]

  pub Moves-save :
      (env : Environment) (s : Session) (union : String) (now : Time) (previous : Bytes)
      → Moves R (save env s union now previous)
  unfolding save
  Moves-save env s union now previous =
      Moves-bind k.order
        (Moves-bind k.order (Moves-bind k.order (on_users env _) λ _. on_identities env _)
          λ _. Moves-end_previous env s now previous)
        λ _. says env _ (insert_session-adds (session_row s))
