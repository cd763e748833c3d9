-- ===== src/Account/Tables.antt =====
-- user-service/backend/internal/data/identity/transaction.go and data.go: the statements on the
-- tables of migrations/00001_user_identity.sql and 00006_user_avatars.sql. PostgreSQL is modelled by
-- what a statement does to the rows, with the unique keys and the check of a session's expiry.
use Prim.Native.String.{count, len}
use tidewise_ai.Prelude.{
  ℕ, ◌*◌, ◌/◌, String, Bool, true, false, not, ◌&&◌, ◌||◌, Option, none, some, List, [], ◌∷◌, ◌++◌,
  map, Result, ok, err, ltb, leb, ◌==◌, str_eq, if◌then◌else◌,
}
use tidewise_ai.Prelude.Text.{trim_space, has_char}
use tidewise_ai.Account.{Error, unavailable, conflict, Bytes, bytes_eq, Time, State, Session}
use tidewise_ai.Account.Act.{
  UserRow, IdentityRow, SessionRow, Tables, Environment, Act, statement, ◌>>◌, pure,
}

-- A timestamptz has whole microseconds.
abbrev pub stored_time : Time → Time
stored_time t = t / 1000 * 1000

abbrev pub latest : Time → Time → Time
latest a b = if ltb a b then b else a

abbrev pub valid_nickname : String → Bool
valid_nickname s = leb (count s) 32 && str_eq (trim_space s) s

abbrev is_line_break : ℕ → Bool
is_line_break c = c == 0 || c == 10 || c == 13

abbrev pub valid_text : String → Bool
valid_text s =
    ltb 0 (len s) && leb (len s) 256 && str_eq (trim_space s) s && not (has_char is_line_break s)

abbrev pub valid_status : String → Bool
valid_status s = str_eq s "active" || str_eq s "disabled"

unfoldable pub find_user : String → List UserRow → Option UserRow
find_user id [] = none
find_user id (u ∷ us) = let rest = find_user id us in if str_eq u.id id then some u else rest

unfoldable pub find_identity : (IdentityRow → Bool) → List IdentityRow → Option IdentityRow
find_identity p [] = none
find_identity p (i ∷ is) = let rest = find_identity p is in if p i then some i else rest

unfoldable pub find_session : Bytes → List SessionRow → Option SessionRow
find_session h [] = none
find_session h (s ∷ ss) = let rest = find_session h ss in if bytes_eq s.hash h then some s else rest

-- `Find`: no row is the zero State.
abbrev pub no_state : State
no_state = record {
  user_id = "";
  identity_id = "";
  status = "";
  app_id = "";
  open_id = "";
  union_id = "";
  nickname = "";
}

abbrev pub state_of : UserRow → IdentityRow → State
state_of u i = record {
  user_id = u.id;
  identity_id = i.id;
  status = u.status;
  app_id = i.app_id;
  open_id = i.open_id;
  union_id = i.union_id;
  nickname = u.nickname;
}

abbrev pub valid_state : Environment → State → Bool
valid_state env s =
    valid_nickname s.nickname
    && env.valid_uuid s.user_id
    && env.valid_uuid s.identity_id
    && valid_status s.status
    && valid_text s.app_id
    && valid_text s.open_id
    && (str_eq s.union_id "" || valid_text s.union_id)

abbrev pub checked_state : Environment → State → Result Error State
checked_state env s = if valid_state env s then ok s else err unavailable

abbrev pub joined_state : Environment → Option IdentityRow → List UserRow → Result Error State
joined_state env none us = ok no_state
joined_state env (some i) us = elim (find_user i.user_id us) [
  | none ↦ ok no_state
  | some u ↦ checked_state env (state_of u i)
]

abbrev pub kept : {A : Type 0} → Tables → Result Error A → Result Error (A × Tables)
kept t (ok a) = ok (a, t)
kept t (err e) = err e

abbrev pub of_open_id : String → String → IdentityRow → Bool
of_open_id app open_id i = str_eq i.app_id app && str_eq i.open_id open_id

unfoldable pub find : Environment → String → String → Act State
find env app open_id =
    statement env
      λ t. kept t (joined_state env (find_identity (of_open_id app open_id) t.identities) t.users)

-- `Create`: two rows under their unique keys.
abbrev pub has_user : String → List UserRow → Bool
has_user id [] = false
has_user id (u ∷ us) = str_eq u.id id || has_user id us

abbrev pub clashes : IdentityRow → IdentityRow → Bool
clashes a b =
    str_eq a.id b.id
    || str_eq a.app_id b.app_id && str_eq a.open_id b.open_id
    || str_eq a.user_id b.user_id && str_eq a.app_id b.app_id

abbrev pub has_clash : IdentityRow → List IdentityRow → Bool
has_clash i [] = false
has_clash i (j ∷ js) = clashes i j || has_clash i js

abbrev pub insert_user : UserRow → Tables → Result Error (Unit {0} × Tables)
insert_user u t =
    if has_user u.id t.users then err conflict else ok (tt, record t { users = t.users ++ u ∷ [] })

abbrev pub insert_identity : IdentityRow → Tables → Result Error (Unit {0} × Tables)
insert_identity i t =
    if has_clash i t.identities
    then err conflict
    else ok (tt, record t { identities = t.identities ++ i ∷ [] })

abbrev pub new_user : State → Time → UserRow
new_user s now = record {
  id = s.user_id;
  status = s.status;
  nickname = s.nickname;
  phone = none;
  last_login_at = stored_time now;
}

abbrev pub new_identity : State → IdentityRow
new_identity s = record {
  id = s.identity_id;
  user_id = s.user_id;
  app_id = s.app_id;
  open_id = s.open_id;
  union_id = s.union_id;
}

unfoldable pub create : Environment → State → Time → Act (Unit {0})
create env s now =
    statement env (insert_user (new_user s now)) >> statement env (insert_identity (new_identity s))

-- `Save`: the login of a user and an identity, the end of the previous session, the new session.
abbrev pub logged_in : Session → Time → UserRow → UserRow
logged_in s now u =
    if str_eq u.id s.user_id
    then record u {
      phone = if str_eq s.phone "" then u.phone else some s.phone;
      last_login_at = stored_time now;
    }
    else u

abbrev pub linked : Session → String → IdentityRow → IdentityRow
linked s union i =
    if str_eq i.id s.identity_id && str_eq i.union_id "" then record i { union_id = union } else i

abbrev pub is_open : Option Time → Bool
is_open none = true
is_open (some t) = false

-- `UPDATE user_sessions SET revoked_at=GREATEST(now, created_at) WHERE ... AND revoked_at IS NULL`
abbrev pub ended : (SessionRow → Bool) → Time → SessionRow → SessionRow
ended p now s =
    if p s && is_open s.revoked_at
    then record s { revoked_at = some (latest (stored_time now) s.created_at) }
    else s

abbrev pub of_identity : Bytes → String → SessionRow → Bool
of_identity h identity s = bytes_eq s.hash h && str_eq s.identity_id identity

abbrev pub has_session : SessionRow → List SessionRow → Bool
has_session s [] = false
has_session s (r ∷ rs) = str_eq s.id r.id || bytes_eq r.hash s.hash || has_session s rs

abbrev pub insert_session : SessionRow → Tables → Result Error (Unit {0} × Tables)
insert_session s t =
    if not (ltb s.created_at s.expires_at)
    then err unavailable
    else if has_session s t.sessions
    then err conflict
    else ok (tt, record t { sessions = t.sessions ++ s ∷ [] })

abbrev pub session_row : Session → SessionRow
session_row s = record {
  id = s.id;
  identity_id = s.identity_id;
  hash = s.hash;
  created_at = stored_time s.created_at;
  expires_at = stored_time s.expires_at;
  revoked_at = none;
  privacy_version = s.privacy_version;
}

abbrev pub update_users : (UserRow → UserRow) → Tables → Result Error (Unit {0} × Tables)
update_users f t = ok (tt, record t { users = map f t.users })

abbrev pub update_identities :
    (IdentityRow → IdentityRow) → Tables → Result Error (Unit {0} × Tables)
update_identities f t = ok (tt, record t { identities = map f t.identities })

abbrev pub update_sessions : (SessionRow → SessionRow) → Tables → Result Error (Unit {0} × Tables)
update_sessions f t = ok (tt, record t { sessions = map f t.sessions })

unfoldable pub end_previous : Environment → Session → Time → Bytes → Act (Unit {0})
end_previous env s now [] = pure tt
end_previous env s now (b ∷ bs) =
    statement env (update_sessions (ended (of_identity (b ∷ bs) s.identity_id) now))

unfoldable pub save : Environment → Session → String → Time → Bytes → Act (Unit {0})
save env s union now previous =
    statement env (update_users (logged_in s now))
    >> statement env (update_identities (linked s union))
    >> end_previous env s now previous
    >> statement env (insert_session (session_row s))
