-- ===== src/Account/Sessions.antt =====
-- user-service/backend/internal/data/identity: `Lookup`, `LookupSession`, `scanSession`, `Revoke`,
-- `SetNickname`, `SetAvatar` and `Avatar`.
use tidewise_ai.Prelude.{
  ◌*◌, String, Bool, true, false, not, ◌&&◌, ◌||◌, Option, none, some, List, [], ◌∷◌, Result, ok,
  err, ltb, ◌==◌, str_eq, if◌then◌else◌, length,
}
use tidewise_ai.Account.{Error, unavailable, Bytes, bytes_eq, Time, Session, no_session}
use tidewise_ai.Account.Act.{
  UserRow, IdentityRow, SessionRow, AvatarRow, Tables, Environment, Act, statement,
}
use tidewise_ai.Account.Tables.{
  stored_time, valid_nickname, valid_text, valid_status, find_user, find_identity, find_session,
  kept, ended, update_users, update_sessions,
}

abbrev pub with_identity : String → IdentityRow → Bool
with_identity id i = str_eq i.id id

abbrev pub is_revoked : Option Time → Bool
is_revoked none = false
is_revoked (some t) = true

abbrev pub joined_session : UserRow → IdentityRow → SessionRow → Session
joined_session u i s = record no_session {
  id = s.id;
  identity_id = s.identity_id;
  user_id = i.user_id;
  status = u.status;
  app_id = i.app_id;
  nickname = u.nickname;
  created_at = s.created_at;
  expires_at = s.expires_at;
  revoked = is_revoked s.revoked_at;
}

abbrev pub valid_session : Environment → Session → Bool
valid_session env s =
    valid_nickname s.nickname
    && env.valid_uuid s.id
    && env.valid_uuid s.identity_id
    && env.valid_uuid s.user_id
    && valid_text s.app_id
    && valid_status s.status
    && ltb s.created_at s.expires_at

-- `scanSession`: no row is the zero Session.
abbrev pub checked_session : Environment → Session → Result Error Session
checked_session env s = if valid_session env s then ok s else err unavailable

abbrev pub with_user :
    Environment → SessionRow → IdentityRow → Option UserRow → Result Error Session
with_user env s i none = ok no_session
with_user env s i (some u) = checked_session env (joined_session u i s)

abbrev pub with_owner :
    Environment → List UserRow → SessionRow → Option IdentityRow → Result Error Session
with_owner env us s none = ok no_session
with_owner env us s (some i) = with_user env s i (find_user i.user_id us)

abbrev pub scan_session : Environment → Tables → Option SessionRow → Result Error Session
scan_session env t none = ok no_session
scan_session env t (some s) =
    with_owner env t.users s (find_identity (with_identity s.identity_id) t.identities)

-- `Lookup`, and `LookupSession`, which also locks the rows.
unfoldable pub lookup : Environment → Bytes → Act Session
lookup env hash = statement env λ t. kept t (scan_session env t (find_session hash t.sessions))

-- `Revoke`: the session of the hash, where its identity is one of the app.
abbrev pub app_of : Option IdentityRow → String → Bool
app_of none app = false
app_of (some i) app = str_eq i.app_id app

abbrev pub of_app : List IdentityRow → Bytes → String → SessionRow → Bool
of_app is hash app s =
    bytes_eq s.hash hash && app_of (find_identity (with_identity s.identity_id) is) app

unfoldable pub revoke_session : Environment → Bytes → String → Time → Act (Unit {0})
revoke_session env hash app now =
    statement env λ t. update_sessions (ended (of_app t.identities hash app) now) t

abbrev pub renamed : String → String → UserRow → UserRow
renamed user nickname u = if str_eq u.id user then record u { nickname = nickname } else u

unfoldable pub set_nickname : Environment → String → String → Act (Unit {0})
set_nickname env user nickname = statement env (update_users (renamed user nickname))

-- `INSERT ... ON CONFLICT(user_id) DO UPDATE`; the content type is only written by the insertion.
abbrev pub put_avatar : AvatarRow → List AvatarRow → List AvatarRow
put_avatar a [] = a ∷ []
put_avatar a (b ∷ bs) =
    let rest = put_avatar a bs in
    if str_eq b.user_id a.user_id then record a { content_type = b.content_type } ∷ bs else b ∷ rest

abbrev pub avatar_row : String → Bytes → Time → String → AvatarRow
avatar_row user image now version = record {
  user_id = user;
  image = image;
  content_type = "image/jpeg";
  updated_at = stored_time now;
  privacy_version = version;
}

unfoldable pub set_avatar : Environment → String → Bytes → Time → String → Act (Unit {0})
set_avatar env user image now version =
    statement env
      λ t. ok (tt, record t { avatars = put_avatar (avatar_row user image now version) t.avatars })

abbrev pub find_avatar : String → List AvatarRow → Option AvatarRow
find_avatar user [] = none
find_avatar user (a ∷ as_) = if str_eq a.user_id user then some a else find_avatar user as_

abbrev pub read_avatar : Option AvatarRow → Result Error Bytes
read_avatar none = ok []
read_avatar (some a) =
    if not (str_eq a.content_type "image/jpeg")
      || length a.image == 0
      || ltb (128 * 1024) (length a.image)
    then err unavailable
    else ok a.image

-- `Avatar`
unfoldable pub stored_avatar : Environment → String → Act Bytes
stored_avatar env user = statement env λ t. kept t (read_avatar (find_avatar user t.avatars))
