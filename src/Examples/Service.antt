-- ===== src/Examples/Service.antt =====
-- A user service with two users, one of them disabled, and one session.
use Prim.Native.String.{count}
use tidewise_ai.Prelude.{
  ℕ, zero, suc, ◌+◌, ◌*◌, String, false, none, some, [], ◌∷◌, Result, ok, err, ◌==◌, str_eq,
  if◌then◌else◌,
}
use tidewise_ai.Prelude.Int.{pos}
use tidewise_ai.Account.{Bytes, Session, no_session, LoginOptions, Error}
use tidewise_ai.Account.Act.{Tables, World, Environment}
use tidewise_ai.Account.Wechat.{Client}
use tidewise_ai.Account.UseCase.{Service}

abbrev pub copies : ℕ → ℕ → Bytes
copies zero b = []
copies (suc n) b = b ∷ copies n b

abbrev pub alice : String
alice = "aaaaaaaa-0000-4000-8000-000000000001"

abbrev pub bob : String
bob = "bbbbbbbb-0000-4000-8000-000000000002"

abbrev pub stock_a : String
stock_a = "STKaaaaaaaa-0000-4000-8000-000000000001"

abbrev pub stock_b : String
stock_b = "STKbbbbbbbb-0000-4000-8000-000000000002"

-- The base64 text of 32 zero bytes.
abbrev pub word : String
word = "AAAAAAAAAAAAAAAAAAAAAAAAAAAAAAAAAAAAAAAAAAA"

abbrev pub environment : Environment
environment = record {
  now = λ n. 5_000_000 + n * 1000;
  fault = λ n. none;
  new_id = λ n.
      if n == 4
      then "cccccccc-0000-4000-8000-000000000004"
      else "cccccccc-0000-4000-8000-000000000009";
  random = λ n. some (copies 32 7);
  sha256 = λ s. if str_eq s word then 1 ∷ [] else count s ∷ 2 ∷ [];
  valid_uuid = λ s. count s == 36;
}

abbrev pub client : Client
client = record {
  app_id = "app";
  jscode2session = λ n js_code. some (record {
    status = 200;
    size = 90;
    fields =
        some (record { open_id = js_code; union_id = ""; session_key = "key"; errcode = pos 0 });
  });
  stable_token = λ n. some (record {
    status = 200;
    size = 60;
    fields = some (record { access_token = "access"; expires_in = pos 7200; errcode = pos 0 });
  });
  getuserphonenumber = λ n access phone_code. some (record {
    status = 200;
    size = 80;
    fields = some (record {
      errcode = pos 0;
      pure_phone_number = "13800000000";
      country_code = "86";
      watermark_app_id = "app";
    });
  });
  cancelled = λ n. false;
  clock = λ n. n;
}

abbrev pub service : Service
service = record {
  app_id = "app";
  ttl = 3_600_000_000_000;
  client = client;
  codec = record { decode_config = λ raw. none; decode = λ raw. none; encode = λ p. none };
  env = environment;
}

abbrev pub tables : Tables
tables = record {
  users =
      record { id = alice; status = "active"; nickname = "Alice"; phone = none; last_login_at = 0 }
      ∷ record { id = bob; status = "disabled"; nickname = "Bob"; phone = none; last_login_at = 0 }
      ∷ [];
  identities =
      record { id = alice; user_id = alice; app_id = "app"; open_id = "open-a"; union_id = "" }
      ∷ record { id = bob; user_id = bob; app_id = "app"; open_id = "open-b"; union_id = "" }
      ∷ [];
  sessions =
      record {
        id = alice;
        identity_id = alice;
        hash = 1 ∷ [];
        created_at = 1000;
        expires_at = 900_000_000;
        revoked_at = none;
        privacy_version = "";
      }
      ∷ [];
  avatars = [];
  watchlist =
      record { user_id = alice; stock_id = stock_a; added_at = 2000 }
      ∷ record { user_id = alice; stock_id = stock_b; added_at = 3000 }
      ∷ [];
}

abbrev pub world : World
world = record {
  tables = tables;
  cache = record { access_token = ""; token_expires = 0 };
  tick = 0;
}

abbrev pub no_options : LoginOptions
no_options = record { phone_code = ""; privacy_version = "" }

abbrev pub session_in : Result Error Session → Session
session_in (ok s) = s
session_in (err e) = no_session
