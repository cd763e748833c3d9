-- ===== src/Account/UseCase/ProviderErrors.antt =====
-- Which errors the steps of the login of user-service/backend/internal/biz/identity/biz.go return, before
-- and around its transaction.
use Prim.Native.String.{len}
use tidewise_ai.Account.Base64.{decode}
use tidewise_ai.Prelude.{
  ◌≡◌, refl, Bool, true, false, ◌||◌, not, String, Option, none, some, List, [], Result, ok, err,
  str_eq, length, if◌then◌else◌, ◌==◌, ltb, ◌&&◌,
}
use Prim.Native.String.{◌++◌}
use tidewise_ai.Prelude.Int.{eqb_ℤ, pos}
use tidewise_ai.Account.Act.{UserRow, IdentityRow}
use tidewise_ai.Account.Tables.{no_state, state_of, valid_text}
use tidewise_ai.Account.{
  Error, unavailable, unauthenticated, disabled, code_invalid, rejected, rate_limited, provider,
  Bytes, Time,
}
use tidewise_ai.Account.Act.{Environment, Tables}
use tidewise_ai.Account.Act.Errors.{
  Meets, Raises, Raises-pure, Raises-fail, Raises-lift, Raises-asks, Raises-fail_if, Raises-bind,
  Raises-choice,
}
use tidewise_ai.Account.Tables.{kept, joined_state, checked_state, find_user, valid_state}
use tidewise_ai.Account.Wechat.{
  Client, Reply, LoginFields, TokenFields, PhoneFields, exchange, token, phone, body_of, profile_of,
  put_token, new_token, cached_or_new, phone_of, drop_token, is_fresh, is_stale_code, bad_phone,
}
use tidewise_ai.Account.UseCase.{raw_token, previous_hash, token_hash, hash_of}

-- The errors that a client of the login meets.
unfoldable pub is_login_error : Error → Bool
is_login_error unavailable = true
is_login_error unauthenticated = true
is_login_error disabled = true
is_login_error code_invalid = true
is_login_error rejected = true
is_login_error rate_limited = true
is_login_error provider = true
is_login_error _ = false

-- Results that only fail with one error.
Meets-option :
    {A : Type 0} (b : Bool) (e : Error) (a : A) (p : Error → Bool)
    → p e ≡ true
    → Meets p (if b then ok a else err e)
Meets-option true e a p h = tt
Meets-option false e a p h = h

pub Meets-guard :
    {A : Type 0} (b : Bool) (e : Error) (r : Result Error A) (p : Error → Bool)
    → p e ≡ true
    → Meets p r
    → Meets p (if b then err e else r)
Meets-guard true e r p h k = h
Meets-guard false e r p h k = k

module _ (p : Error → Bool) (all : (e : Error) → is_login_error e ≡ true → p e ≡ true) where
  Meets-hash : (env : Environment) (word : String) → Meets p (token_hash env word)
  unfolding token_hash is_login_error
  Meets-hash env word = of_raw (decode word)
    where
      of_raw : (o : Option Bytes) → Meets p (hash_of env word o)
      of_raw none = all unauthenticated refl
      of_raw (some raw) =
          Meets-guard (not (length raw == 32) || not (len word == 43)) _ _ p
            (all unauthenticated refl) tt

  pub Meets-previous :
      (env : Environment) (previous : String) → Meets p (previous_hash env previous)
  Meets-previous env previous = at_choice (str_eq previous "")
    where
      at_choice : (b : Bool) → Meets p (if b then ok [] else token_hash env previous)
      at_choice true = tt
      at_choice false = Meets-hash env previous

  Meets-body : {A : Type 0} (r : Option (Reply A)) → Meets p (body_of r)
  unfolding is_login_error
  Meets-body none = all provider refl
  Meets-body (some r) =
      Meets-guard (not (r.status == 200) || ltb 16384 r.size) _ _ p (all provider refl)
        (of_fields r.fields)
    where
      of_fields :
          {A : Type 0} (o : Option A) → Meets p (elim o [ none ↦ err provider | some a ↦ ok a ])
      of_fields none = all provider refl
      of_fields (some a) = tt

  Meets-profile : (r : LoginFields) → Meets p (profile_of r)
  unfolding is_login_error
  Meets-profile r = Meets-guard (eqb_ℤ r.errcode (pos 40029)) _ _ p (all code_invalid refl) (
      Meets-guard (eqb_ℤ r.errcode (pos 40226)) _ _ p (all rejected refl) (
        Meets-guard (eqb_ℤ r.errcode (pos 45011)) _ _ p (all rate_limited refl) (
          Meets-guard
            (not (eqb_ℤ r.errcode (pos 0))
              || not (valid_text r.open_id)
              || not (valid_text r.session_key)
              || not (str_eq r.union_id "") && not (valid_text r.union_id))
            _ _ p (all provider refl) tt)))

  pub Raises-exchange : (client : Client) (js_code : String) → Raises p (exchange client js_code)
  unfolding exchange
  Raises-exchange client js_code =
      Raises-bind (Raises-asks _)
        λ reply. Raises-bind (Raises-lift _ (Meets-body reply)) λ r. Raises-lift _ (Meets-profile r)

  Raises-put_token : (r : TokenFields) (now : Time) → Raises p (put_token r now)
  unfolding put_token
  Raises-put_token r now = record { at = λ w. tt }

  Raises-drop_token : (used : String) → Raises p (drop_token used)
  unfolding drop_token
  Raises-drop_token used = record { at = λ w. tt }

  Raises-new_token : (client : Client) → Raises p (new_token client)
  unfolding new_token is_login_error
  Raises-new_token client = Raises-bind (Raises-asks _) λ reply.
      Raises-bind (Raises-lift _ (Meets-body reply)) λ r.
        Raises-bind (Raises-fail_if _ _ (all provider refl))
          λ _. Raises-bind (Raises-asks _) (Raises-put_token r)

  Raises-cached : (client : Client) (now : Time) → Raises p (cached_or_new client now)
  unfolding cached_or_new
  Raises-cached client now = record {
    at = λ w.
        (Raises-choice (is_fresh w.cache now) (Raises-pure w.cache.access_token)
            (Raises-new_token client)).at
          w;
  }

  Raises-phone_of :
      (client : Client) (used : String) (r : PhoneFields) → Raises p (phone_of client used r)
  unfolding is_login_error
  Raises-phone_of client used r =
      Raises-choice (eqb_ℤ r.errcode (pos 40029)) (Raises-fail code_invalid (all code_invalid refl))
        (Raises-choice (not (eqb_ℤ r.errcode (pos 0)))
          (Raises-bind
            (Raises-choice (is_stale_code r.errcode) (Raises-drop_token used) (Raises-pure tt))
            λ _. Raises-fail provider (all provider refl))
          (Raises-choice (bad_phone client r) (Raises-fail provider (all provider refl))
            (Raises-pure ("+" ++ r.country_code ++ r.pure_phone_number))))

  pub Raises-phone : (client : Client) (phone_code : String) → Raises p (phone client phone_code)
  unfolding phone token is_login_error
  Raises-phone client phone_code =
      Raises-bind
        (Raises-bind (Raises-asks _) λ stop.
          Raises-bind (Raises-fail_if _ _ (all provider refl))
            λ _. Raises-bind (Raises-asks _) (Raises-cached client))
        λ used.
          Raises-bind (Raises-asks _)
            λ reply. Raises-bind (Raises-lift _ (Meets-body reply)) (Raises-phone_of client used)

  pub Meets-kept : {A : Type 0} (t : Tables) (r : Result Error A) → Meets p r → Meets p (kept t r)
  Meets-kept t (ok a) h = tt
  Meets-kept t (err e) h = h

  pub Meets-joined :
      (env : Environment) (o : Option IdentityRow) (us : List UserRow)
      → Meets p (joined_state env o us)
  unfolding is_login_error
  Meets-joined env none us = tt
  Meets-joined env (some i) us = of_user (find_user i.user_id us)
    where
      of_user :
          (o : Option UserRow)
          → Meets p (elim o [ none ↦ ok no_state | some u ↦ checked_state env (state_of u i) ])
      of_user none = tt
      of_user (some u) = Meets-option (valid_state env (state_of u i)) _ _ p (all unavailable refl)

  pub Raises-raw_token : (o : Option Bytes) → Raises p (raw_token o)
  unfolding is_login_error
  Raises-raw_token none = Raises-fail unavailable (all unavailable refl)
  Raises-raw_token (some raw) = Raises-pure raw
