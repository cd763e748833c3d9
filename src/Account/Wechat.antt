-- ===== src/Account/Wechat.antt =====
-- user-service/backend/internal/data/identity/data.go: the `Wechat` provider. What the HTTP client and
-- encoding/json make of a reply is a parameter.
pub mod Moves
pub mod Laws
use Prim.Native.Char.{code}
use Prim.Native.String.{count, len, ◌++◌}
use tidewise_ai.Prelude.{
  ℕ, ◌+◌, ◌-◌, ◌*◌, ◌%◌, ◌^◌, String, Bool, true, false, not, ◌&&◌, ◌||◌, Option, none, some,
  Result, ok, err, ltb, leb, ◌==◌, str_eq, if◌then◌else◌,
}
use tidewise_ai.Prelude.Int.{ℤ, pos, negsuc, ltb_ℤ, eqb_ℤ, pos_part}
use tidewise_ai.Prelude.Text.{all_chars}
use tidewise_ai.Account.{Error, code_invalid, rejected, rate_limited, provider, Profile, Time}
use tidewise_ai.Account.Act.{
  World, Cache, Environment, Act, ◌>>=◌, ◌>>◌, pure, fail, lift, asks, fail_if, ticked,
}
use tidewise_ai.Account.Tables.{valid_text}

-- A reply: its status, the bytes that were read of its body, and the body's fields.
pub record Reply (A : Type 0) : Type 0 where
  pub status : ℕ
  pub size : ℕ
  pub fields : Option A

pub record LoginFields : Type 0 where
  pub open_id : String
  pub union_id : String
  pub session_key : String
  pub errcode : ℤ

pub record TokenFields : Type 0 where
  pub access_token : String
  pub expires_in : ℤ
  pub errcode : ℤ

pub record PhoneFields : Type 0 where
  pub errcode : ℤ
  pub pure_phone_number : String
  pub country_code : String
  pub watermark_app_id : String

-- The requests to api.weixin.qq.com, by the number of the effect; `none` is an error of the client.
-- `cancelled` is ctx.Err(), and `clock` is time.Now().
pub record Client : Type 0 where
  pub app_id : String
  pub jscode2session : ℕ → String → Option (Reply LoginFields)
  pub stable_token : ℕ → Option (Reply TokenFields)
  pub getuserphonenumber : ℕ → String → String → Option (Reply PhoneFields)
  pub cancelled : ℕ → Bool
  pub clock : ℕ → Time

-- A body of at most 16384 bytes with status 200.
abbrev pub body_of : {A : Type 0} → Option (Reply A) → Result Error A
body_of none = err provider
body_of (some r) =
    if not (r.status == 200) || ltb 16384 r.size
    then err provider
    else elim r.fields [ none ↦ err provider | some a ↦ ok a ]

abbrev pub profile_of : LoginFields → Result Error Profile
profile_of r =
    if eqb_ℤ r.errcode (pos 40029)
    then err code_invalid
    else if eqb_ℤ r.errcode (pos 40226)
    then err rejected
    else if eqb_ℤ r.errcode (pos 45011)
    then err rate_limited
    else if not (eqb_ℤ r.errcode (pos 0))
        || not (valid_text r.open_id)
        || not (valid_text r.session_key)
        || not (str_eq r.union_id "") && not (valid_text r.union_id)
    then err provider
    else ok (record { open_id = r.open_id; union_id = r.union_id })

-- `Exchange`
unfoldable pub exchange : Client → String → Act Profile
exchange client js_code = asks (λ n. client.jscode2session n js_code) >>= λ reply.
    lift (body_of reply) >>= λ r. lift (profile_of r)

abbrev pub bad_token : TokenFields → Bool
bad_token r =
    not (eqb_ℤ r.errcode (pos 0)) || str_eq r.access_token "" || not (ltb_ℤ (pos 60) r.expires_in)

-- `now.Add(time.Duration(seconds) * time.Second)`, with the wrap-around of 64 bits; a time before the
-- zero value of Go's times is that zero.
abbrev pub after_duration : Time → ℕ → Time
after_duration now d = if ltb d (2 ^ 63) then now + d else now - (2 ^ 64 - d)

abbrev pub after_seconds : Time → ℕ → Time
after_seconds now seconds = after_duration now (seconds * 1_000_000_000 % 2 ^ 64)

unfoldable pub put_token : TokenFields → Time → Act String
put_token r now w = (
  ok r.access_token,
  record w {
    cache = record {
      access_token = r.access_token;
      token_expires = after_seconds now (pos_part r.expires_in - 60);
    };
  },
)

-- `token`: the cached access token while it lasts, or a new one.
unfoldable pub new_token : Client → Act String
new_token client = asks client.stable_token >>= λ reply. lift (body_of reply) >>= λ r.
    fail_if (bad_token r) provider >> (asks client.clock >>= put_token r)

abbrev pub is_fresh : Cache → Time → Bool
is_fresh cache now = not (str_eq cache.access_token "") && ltb now cache.token_expires

unfoldable pub cached_or_new : Client → Time → Act String
cached_or_new client now w =
    (if is_fresh w.cache now then pure w.cache.access_token else new_token client) w

unfoldable pub token : Client → Act String
token client = asks client.cancelled >>= λ stop.
    fail_if stop provider >> (asks client.clock >>= cached_or_new client)

-- The access token is dropped where WeChat says that it is not valid.
abbrev pub is_stale_code : ℤ → Bool
is_stale_code e = eqb_ℤ e (pos 40001) || eqb_ℤ e (pos 40014) || eqb_ℤ e (pos 42001)

abbrev pub without_token : String → Cache → Cache
without_token used c = record {
  access_token = if str_eq c.access_token used then "" else c.access_token;
  token_expires = c.token_expires;
}

unfoldable pub drop_token : String → Act (Unit {0})
drop_token used w = (ok tt, record w { cache = without_token used w.cache })

abbrev pub is_digit : ℕ → Bool
is_digit c = leb b'0' c && leb c b'9'

-- `^[0-9]{1,4}$`, and `^\+[0-9]{7,15}$` of "+" and what follows.
abbrev pub matches_digits : ℕ → ℕ → String → Bool
matches_digits low high s = all_chars is_digit s && leb low (count s) && leb (count s) high

abbrev pub bad_phone : Client → PhoneFields → Bool
bad_phone client r =
    not (matches_digits 1 4 r.country_code)
    || not (str_eq r.watermark_app_id client.app_id)
    || not (matches_digits 7 15 (r.country_code ++ r.pure_phone_number))

abbrev pub phone_of : Client → String → PhoneFields → Act String
phone_of client used r =
    if eqb_ℤ r.errcode (pos 40029)
    then fail code_invalid
    else if not (eqb_ℤ r.errcode (pos 0))
    then (if is_stale_code r.errcode then drop_token used else pure tt) >> fail provider
    else if bad_phone client r
    then fail provider
    else pure ("+" ++ r.country_code ++ r.pure_phone_number)

-- `Phone`
unfoldable pub phone : Client → String → Act String
phone client phone_code = token client >>= λ used.
    asks (λ n. client.getuserphonenumber n used phone_code) >>= λ reply.
    lift (body_of reply) >>= phone_of client used
