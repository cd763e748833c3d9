-- ===== src/Account/UseCase/Errors.antt =====
-- Which errors the login of user-service/backend/internal/biz/identity/biz.go returns.
use tidewise_ai.Prelude.{Bool, true, false, ◌||◌}
use tidewise_ai.Account.{Error, conflict}
use tidewise_ai.Account.Act.{Act, Tables}
use tidewise_ai.Account.Wechat.{}
use tidewise_ai.Account.UseCase.ProviderErrors.{is_login_error}

unfoldable is_conflict_error : Error → Bool
is_conflict_error conflict = true
is_conflict_error _ = false

-- The errors within an attempt.
abbrev in_attempt : Error → Bool
in_attempt e = is_login_error e || is_conflict_error e
