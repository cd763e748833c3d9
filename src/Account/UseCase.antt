-- ===== src/Account/UseCase.antt =====
-- user-service/backend/internal/biz/identity/biz.go: `UseCase`.
pub mod Moves
pub mod Rollback
pub mod ProviderErrors
pub mod Errors
pub mod Revoked
pub mod Accepted
pub mod Logout
use Prim.Native.String.{count, len}
use tidewise_ai.Prelude.{
  ℕ, zero, suc, ◌+◌, String, Bool, true, false, not, ◌&&◌, ◌||◌, Option, none, some, List, [], ◌∷◌,
  Result, ok, err, ltb, ◌==◌, str_eq, if◌then◌else◌, length,
}
use tidewise_ai.Prelude.Text.{trim_space, has_char, is_control}
use tidewise_ai.Account.{
  Error, conflict, unavailable, unauthenticated, disabled, rejected, invalid_nickname, Bytes, Time,
  Profile, State, Session, LoginOptions, valid_privacy_version, current_privacy_version,
}
use tidewise_ai.Account.Base64.{decode, encode}
use tidewise_ai.Account.Act.{
  World, Environment, Act, ◌>>=◌, ◌>>◌, pure, fail, lift, asks, fail_if, within,
}
use tidewise_ai.Account.Tables.{find, create, save}
use tidewise_ai.Account.Sessions.{lookup, revoke_session, set_nickname, set_avatar, stored_avatar}
use tidewise_ai.Account.Avatar.{Codec, normalize_avatar}
use tidewise_ai.Account.Wechat.{Client, exchange, phone}

-- `UseCase`, with the provider's client, the codecs and the environment of its effects.
pub record Service : Type 0 where
  pub app_id : String
  pub ttl : ℕ
  pub client : Client
  pub codec : Codec
  pub env : Environment

pub record LoginResult : Type 0 where
  pub session : Session
  pub token : String

abbrev pub hash_of : Environment → String → Option Bytes → Result Error Bytes
hash_of env token none = err unauthenticated
hash_of env token (some raw) =
    if not (length raw == 32) || not (len token == 43)
    then err unauthenticated
    else ok (env.sha256 token)

unfoldable pub token_hash : Environment → String → Result Error Bytes
token_hash env token = hash_of env token (decode token)

abbrev pub bad_options : LoginOptions → Bool
bad_options opt =
    not (str_eq opt.privacy_version "") && not (valid_privacy_version opt.privacy_version)
    || not (str_eq opt.phone_code "") && not (valid_privacy_version opt.privacy_version)

abbrev pub previous_hash : Environment → String → Result Error Bytes
previous_hash env previous = if str_eq previous "" then ok [] else token_hash env previous

abbrev pub phone_for : Service → LoginOptions → Act String
phone_for u opt = if str_eq opt.phone_code "" then pure "" else phone u.client opt.phone_code

abbrev pub raw_token : Option Bytes → Act Bytes
raw_token none = fail unavailable
raw_token (some raw) = pure raw

-- `hash, _ := TokenHash(token)`
abbrev pub hash_or_nil : Result Error Bytes → Bytes
hash_or_nil (ok hash) = hash
hash_or_nil (err e) = []

abbrev pub new_state : Service → Profile → String → String → State
new_state u who user identity = record {
  user_id = user;
  identity_id = identity;
  status = "active";
  app_id = u.app_id;
  open_id = who.open_id;
  union_id = who.union_id;
  nickname = "";
}

abbrev pub create_state : Service → Profile → Time → Act State
create_state u who now = asks u.env.new_id >>= λ user. asks u.env.new_id >>= λ identity.
    create u.env (new_state u who user identity) now >> pure (new_state u who user identity)

abbrev pub known_or_new : Service → Profile → Time → State → Act State
known_or_new u who now state =
    if str_eq state.identity_id "" then create_state u who now else pure state

abbrev pub other_union : State → Profile → Bool
other_union state who =
    not (str_eq state.union_id "")
    && not (str_eq who.union_id "")
    && not (str_eq state.union_id who.union_id)

-- What the loop's callback closes over.
pub record Login : Type 0 where
  pub who : Profile
  pub phone : String
  pub privacy_version : String
  pub hash : Bytes
  pub previous : Bytes

abbrev pub new_session : Service → Login → State → Time → String → Session
new_session u l state now id = record {
  id = id;
  identity_id = state.identity_id;
  user_id = state.user_id;
  status = state.status;
  app_id = u.app_id;
  nickname = state.nickname;
  hash = l.hash;
  created_at = now;
  expires_at = now + u.ttl;
  phone = l.phone;
  privacy_version = l.privacy_version;
  revoked = false;
}

abbrev pub admit : Service → Login → Time → State → Act Session
admit u l now state =
    fail_if (not (str_eq state.status "active")) disabled
    >> fail_if (other_union state l.who) rejected
    >> (asks u.env.new_id >>= λ id.
        save u.env (new_session u l state now id) l.who.union_id now l.previous
        >> pure (new_session u l state now id))

-- The callback of an attempt.
abbrev pub attempt : Service → Login → Act Session
attempt u l = find u.env u.app_id l.who.open_id >>= λ state.
    asks u.env.now >>= λ now. known_or_new u l.who now state >>= admit u l now

abbrev pub is_conflict : {A : Type 0} → Result Error A → Bool
is_conflict (err conflict) = true
is_conflict _ = false

-- `for attempt := 0; attempt < n; attempt++`, which a conflict alone continues.
unfoldable pub attempts : {A : Type 0} → ℕ → Act A → Act A
attempts zero m w = (err conflict, w)
attempts (suc n) m w = let rest = attempts n m (m w).1 in if is_conflict (m w).0 then rest else m w

abbrev pub conflict_unavailable : {A : Type 0} → Result Error A → Result Error A
conflict_unavailable (err conflict) = err unavailable
conflict_unavailable r = r

unfoldable pub admitted : Service → Login → Act Session
admitted u l w =
    let r = attempts 3 (within u.env (attempt u l)) w in (conflict_unavailable r.0, r.1)

abbrev pub log_in : Service → Login → String → Act LoginResult
log_in u l token = admitted u l >>= λ session. pure (record { session = session; token = token })

abbrev pub login_of : Service → LoginOptions → Bytes → Profile → String → Bytes → Login
login_of u opt previous who number raw = record {
  who = who;
  phone = number;
  privacy_version = opt.privacy_version;
  hash = hash_or_nil (token_hash u.env (encode raw));
  previous = previous;
}

-- `Login`. The reading of the clock in front of the loop is left out: each attempt reads it again.
unfoldable pub login : Service → String → String → LoginOptions → Act LoginResult
login u js_code previous opt =
    fail_if (bad_options opt) rejected
    >> (lift (previous_hash u.env previous) >>= λ ended. exchange u.client js_code >>= λ who.
        phone_for u opt >>= λ number. asks u.env.random >>= raw_token >>= λ raw.
        log_in u (login_of u opt ended who number raw) (encode raw))

-- The tests of `Verify`, `UpdateNickname` and `Avatar` on the session that was found.
abbrev pub is_unauthenticated : Service → Session → Time → Bool
is_unauthenticated u s now =
    str_eq s.user_id "" || s.revoked || not (str_eq s.app_id u.app_id) || not (ltb now s.expires_at)

abbrev pub authorized : Service → Session → Act (Unit {0})
authorized u s = asks u.env.now >>= λ now.
    fail_if (is_unauthenticated u s now) unauthenticated
    >> fail_if (not (str_eq s.status "active")) disabled

unfoldable pub verify : Service → String → Act Session
verify u token =
    lift (token_hash u.env token) >>= λ hash. lookup u.env hash >>= λ s. authorized u s >> pure s

unfoldable pub revoke : Service → String → Act (Unit {0})
revoke u token =
    lift (token_hash u.env token) >>= λ hash. asks u.env.now >>= revoke_session u.env hash u.app_id

abbrev pub bad_nickname : String → Bool
bad_nickname s = ltb (count s) 1 || ltb 32 (count s) || has_char is_control s

abbrev pub normalized : Service → Option Bytes → Result Error (Option Bytes)
normalized u none = ok none
normalized u (some raw) = elim (normalize_avatar u.codec raw) [
  | ok out ↦ ok (some out)
  | err e ↦ err e
]

abbrev pub change_avatar : Service → String → Option Bytes → Act (Unit {0})
change_avatar u user none = pure tt
change_avatar u user (some image) =
    asks u.env.now >>= λ now. set_avatar u.env user image now current_privacy_version

abbrev pub change_profile : Service → Bytes → String → Option Bytes → Act Session
change_profile u hash nickname image = lookup u.env hash >>= λ s.
    authorized u s
    >> (asks u.env.now >>= λ now. set_nickname u.env s.user_id nickname)
    >> change_avatar u s.user_id image
    >> pure (record s { nickname = nickname })

abbrev pub update_trimmed : Service → String → String → Option Bytes → Act Session
update_trimmed u token nickname avatar =
    fail_if (bad_nickname nickname) invalid_nickname
    >> (lift (token_hash u.env token) >>= λ hash.
        lift (normalized u avatar) >>= λ image. within u.env (change_profile u hash nickname image))

unfoldable pub update_nickname : Service → String → String → Option Bytes → Act Session
update_nickname u token nickname avatar = update_trimmed u token (trim_space nickname) avatar

unfoldable pub avatar_of : Service → String → Act Bytes
avatar_of u token = lift (token_hash u.env token) >>= λ hash.
    within u.env (lookup u.env hash >>= λ s. authorized u s >> stored_avatar u.env s.user_id)
