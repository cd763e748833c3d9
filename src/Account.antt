-- ===== src/Account.antt =====
-- user-service/backend/internal/biz/identity/biz.go and data/identity: users, their WeChat identities
-- and their sessions. This file has the errors and the records.
pub mod Base64
pub mod Act
pub mod Tables
pub mod Sessions
pub mod Avatar
pub mod Wechat
pub mod UseCase
use tidewise_ai.Prelude.{ℕ, String, Bool, false, true, ◌||◌, ◌&&◌, List, [], ◌∷◌, ◌==◌, str_eq}

-- The errors of the package; `invalid_request` is ErrInvalid of biz/watchlist.
pub data Error : Type 0 where
  invalid_avatar invalid_nickname unavailable conflict unauthenticated disabled : Error
  code_invalid rejected rate_limited provider invalid_request : Error

-- `[]byte`, as the values of its bytes.
abbrev pub Bytes : Type 0
Bytes = List ℕ

unfoldable pub bytes_eq : Bytes → Bytes → Bool
bytes_eq [] [] = true
bytes_eq [] (b ∷ bs) = false
bytes_eq (a ∷ rest) [] = false
bytes_eq (a ∷ rest) (b ∷ bs) = a == b && bytes_eq rest bs

-- A time.Time in UTC, in nanoseconds since its zero value.
abbrev pub Time : Type 0
Time = ℕ

-- `Wechat`: who WeChat says the caller is.
pub record Profile : Type 0 where
  pub open_id : String
  pub union_id : String

pub record State : Type 0 where
  pub user_id : String
  pub identity_id : String
  pub status : String
  pub app_id : String
  pub open_id : String
  pub union_id : String
  pub nickname : String

pub record Session : Type 0 where
  pub id : String
  pub identity_id : String
  pub user_id : String
  pub status : String
  pub app_id : String
  pub nickname : String
  pub hash : Bytes
  pub created_at : Time
  pub expires_at : Time
  pub phone : String
  pub privacy_version : String
  pub revoked : Bool

abbrev pub no_session : Session
no_session = record {
  id = "";
  identity_id = "";
  user_id = "";
  status = "";
  app_id = "";
  nickname = "";
  hash = [];
  created_at = 0;
  expires_at = 0;
  phone = "";
  privacy_version = "";
  revoked = false;
}

pub record LoginOptions : Type 0 where
  pub phone_code : String
  pub privacy_version : String

-- `PrivacyVersion`
abbrev pub current_privacy_version : String
current_privacy_version = "2026-09-21.1"

abbrev pub valid_privacy_version : String → Bool
valid_privacy_version v = str_eq v "2026-09-21" || str_eq v current_privacy_version
