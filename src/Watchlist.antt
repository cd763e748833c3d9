-- ===== src/Watchlist.antt =====
-- user-service/backend/internal/biz/watchlist/biz.go and data/watchlist/transaction.go: the stocks that
-- a user watches, listed by pages.
pub mod Calls
pub mod Order
pub mod Pages
pub mod Listed
pub mod Walk
pub mod Change
use tidewise_ai.Prelude.{
  ℕ, zero, suc, ◌+◌, ◌-◌, String, Bool, true, false, not, ◌&&◌, ◌||◌, Option, none, some, List, [],
  ◌∷◌, ◌++◌, map, Result, ok, err, ltb, ◌==◌, str_eq, if◌then◌else◌, length,
}
use tidewise_ai.Prelude.Int.{ℤ, pos, ltb_ℤ, pos_part}
use tidewise_ai.Prelude.Text.{str_lt, str_mem, all_texts}
use tidewise_ai.Prelude.Sorting.{sort_slice}
use tidewise_ai.Stock.Search.{matches_stock_id}
use tidewise_ai.Account.{
  Error, unavailable, unauthenticated, disabled, invalid_request, Bytes, Time,
}
use tidewise_ai.Account.Act.{
  WatchRow, Tables, World, Environment, DatabaseError, other_failure, Act, statement, within, pure,
  fail, lift, asks, fail_if, ◌>>=◌, ◌>>◌,
}
use tidewise_ai.Account.Base64
use tidewise_ai.Account.Tables.{find_session, find_identity, find_user, kept, stored_time}
use tidewise_ai.Account.Sessions.{with_identity, is_revoked}
use tidewise_ai.Account.UseCase.{token_hash}

-- `ValidID`, by the pattern of a stock's identity.
abbrev pub valid_id : String → Bool
valid_id id = matches_stock_id id

pub record Entry : Type 0 where
  pub stock_id : String
  pub added_at : Time

pub record Cursor : Type 0 where
  pub added_at : Time
  pub stock_id : String

pub record Page : Type 0 where
  pub items : List Entry
  pub total : ℕ
  pub next_cursor : String

-- json.Marshal and json.Unmarshal of a Cursor.
pub record CursorJson : Type 0 where
  pub marshal : Cursor → Bytes
  pub unmarshal : Bytes → Option Cursor

-- `UseCase`.
pub record Watch : Type 0 where
  pub app_id : String
  pub env : Environment
  pub json : CursorJson

-- The statements of this package fail with ErrUnavailable, whatever the database says.
abbrev pub hidden : Option DatabaseError → Option DatabaseError
hidden none = none
hidden (some e) = some other_failure

abbrev pub quiet : Environment → Environment
quiet env = record env { fault = λ n. hidden (env.fault n) }

-- What `Session` of the transaction reads.
pub record Owner : Type 0 where
  pub user_id : String
  pub status : String
  pub app_id : String
  pub expires_at : Time
  pub revoked : Bool

abbrev pub owner_of : Tables → Bytes → Result Error Owner
owner_of t hash = elim (find_session hash t.sessions) [
  | none ↦ err unauthenticated
  | some s ↦ elim (find_identity (with_identity s.identity_id) t.identities) [
    | none ↦ err unauthenticated
    | some i ↦ elim (find_user i.user_id t.users) [
      | none ↦ err unauthenticated
      | some u ↦ ok (record {
        user_id = i.user_id;
        status = u.status;
        app_id = i.app_id;
        expires_at = s.expires_at;
        revoked = is_revoked s.revoked_at;
      })
    ]
  ]
]

abbrev pub bad_owner : Watch → Owner → Time → Bool
bad_owner u s now =
    str_eq s.user_id "" || s.revoked || not (str_eq s.app_id u.app_id) || not (ltb now s.expires_at)

-- The callback of `authorized`, and `authorized`.
abbrev pub checked : {A : Type 0} → Watch → Bytes → (String → Act A) → Act A
checked u hash f = statement (quiet u.env) (λ t. kept t (owner_of t hash)) >>= λ s.
    asks u.env.now >>= λ now.
    fail_if (bad_owner u s now) unauthenticated
    >> (fail_if (not (str_eq s.status "active")) disabled >> f s.user_id)

unfoldable pub authorized : {A : Type 0} → Watch → String → (String → Act A) → Act A
authorized u token f =
    lift (token_hash u.env token) >>= λ hash. within (quiet u.env) (checked u hash f)
