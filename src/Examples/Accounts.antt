-- ===== src/Examples/Accounts.antt =====
-- Logins, sessions and thumbnails of the user service.
use tidewise_ai.Prelude.{
  ℕ, ◌+◌, ◌*◌, ◌≤◌, ◌<◌, ◌≡◌, ◌≢◌, refl, String, Bool, false, none, Result, ok, err, arith,
}
use tidewise_ai.Prelude.Text
use tidewise_ai.Account.{Error, disabled, bytes_eq}
use tidewise_ai.Account.Act.{World}
use tidewise_ai.Account.UseCase.{LoginResult, login, verify, revoke}
use tidewise_ai.Account.UseCase.Rollback.{login-rolled_back}
use tidewise_ai.Account.UseCase.Logout.{is_ok, revoke-verify}
use tidewise_ai.Account.Wechat.{phone}
use tidewise_ai.Account.Wechat.Laws.{IsPhone, phone-IsPhone}
use tidewise_ai.Account.Avatar.{scaled_size, sampled}
use tidewise_ai.Account.Avatar.Laws.{InBox, scaled_size-sampled}
use tidewise_ai.Account.Base64.{encode, decode}
use tidewise_ai.Account.UseCase.Revoked.{here, more, logs_in}
use tidewise_ai.Examples.Service.{alice, service, world, word, no_options, session_in}

-- The definitions that a run of the service computes.
unfoldable pub account_code : Unit {0}
unfolding login verify revoke phone tidewise_ai.Account.Wechat.token
    tidewise_ai.Account.Wechat.new_token tidewise_ai.Account.Wechat.put_token
    tidewise_ai.Account.Wechat.cached_or_new tidewise_ai.Account.Wechat.drop_token
    tidewise_ai.Prelude.Text.all_chars tidewise_ai.Account.Act.pure tidewise_ai.Account.Act.fail
    tidewise_ai.Account.Act.lift tidewise_ai.Account.Act.asks tidewise_ai.Account.Act.fail_if
    tidewise_ai.Account.Act.◌>>=◌ tidewise_ai.Account.Act.statement tidewise_ai.Account.Act.within
    tidewise_ai.Account.Wechat.exchange tidewise_ai.Account.UseCase.attempts
    tidewise_ai.Account.UseCase.admitted tidewise_ai.Account.UseCase.token_hash
    tidewise_ai.Account.Base64.decode tidewise_ai.Account.Base64.encode
    tidewise_ai.Account.Base64.letter tidewise_ai.Account.Base64.char_at
    tidewise_ai.Account.Base64.sextet tidewise_ai.Account.Base64.sextets
    tidewise_ai.Account.Base64.join tidewise_ai.Account.Tables.find
    tidewise_ai.Account.Tables.create tidewise_ai.Account.Tables.save
    tidewise_ai.Account.Tables.end_previous tidewise_ai.Account.Tables.find_user
    tidewise_ai.Account.Tables.find_identity tidewise_ai.Account.Tables.find_session
    tidewise_ai.Account.Sessions.lookup tidewise_ai.Account.Sessions.revoke_session bytes_eq
    tidewise_ai.Prelude.Text.trim_space tidewise_ai.Prelude.Text.trim_left
    tidewise_ai.Prelude.Text.trim_right tidewise_ai.Prelude.Text.has_char
account_code = tt

login-rolled_back_example : (login service "open-b" "" no_options world).1.tables ≡ world.tables
unfolding account_code
login-rolled_back_example =
    login-rolled_back service "open-b" "" no_options world _ {e = disabled} refl

abbrev verified : World
verified = (verify service word world).1

abbrev revoked : World
revoked = (revoke service word verified).1

-- After the session was revoked Alice logs in again, with a new token.
abbrev again : World
again = (login service "open-a" "" no_options revoked).1

revoke-verify_example : is_ok (verify service word again).0 ≡ false
unfolding account_code
revoke-verify_example =
    revoke-verify service word world verified revoked again
      (session_in (verify service word world).0) refl refl
      (more here (logs_in "open-a" "" no_options))

-- The token of a login is accepted, and names the user who logged in.
abbrev token_in : Result Error LoginResult → String
token_in (ok r) = r.token
token_in (err e) = ""

abbrev entered : Result Error LoginResult × World
entered = login service "open-a" "" no_options world

logged_in_test : (session_in (verify service (token_in entered.0) entered.1).0).user_id ≡ alice
unfolding account_code
logged_in_test = refl

phone-IsPhone_example : IsPhone "+8613800000000"
unfolding account_code
phone-IsPhone_example =
    phone-IsPhone service.client "code" world (phone service.client "code" world).1 "+8613800000000"
      refl

scaled_size-sampled_example :
    InBox (scaled_size 1024 512)
    × (sampled 0 255 1024 (scaled_size 1024 512).0 < 0 + 1024)
    × (sampled 3 127 512 (scaled_size 1024 512).1 < 3 + 512)
unfolding scaled_size
scaled_size-sampled_example =
    scaled_size-sampled 1024 512 255 127 0 3 (omega arith) (omega arith) (omega arith) (omega arith)
