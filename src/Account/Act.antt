-- ===== src/Account/Act.antt =====
-- What a call of the user service runs in: the tables, the cached access token of WeChat, and an
-- environment that answers each effect by its number. Calls are state passing; a failed call
-- keeps what it did outside its transaction.
pub mod Laws
pub mod Errors
pub mod Invert
pub mod Forward
use tidewise_ai.Prelude.{
  ℕ, suc, String, Bool, true, false, Option, none, some, List, [], ◌∷◌, Result, ok, err,
}
use tidewise_ai.Account.{Error, unavailable, conflict, Bytes, Time, Profile}

pub record UserRow : Type 0 where
  pub id : String
  pub status : String
  pub nickname : String
  pub phone : Option String
  pub last_login_at : Time

-- `union_id` is empty for NULL.
pub record IdentityRow : Type 0 where
  pub id : String
  pub user_id : String
  pub app_id : String
  pub open_id : String
  pub union_id : String

pub record SessionRow : Type 0 where
  pub id : String
  pub identity_id : String
  pub hash : Bytes
  pub created_at : Time
  pub expires_at : Time
  pub revoked_at : Option Time
  pub privacy_version : String

pub record AvatarRow : Type 0 where
  pub user_id : String
  pub image : Bytes
  pub content_type : String
  pub updated_at : Time
  pub privacy_version : String

pub record WatchRow : Type 0 where
  pub user_id : String
  pub stock_id : String
  pub added_at : Time

pub record Tables : Type 0 where
  pub users : List UserRow
  pub identities : List IdentityRow
  pub sessions : List SessionRow
  pub avatars : List AvatarRow
  pub watchlist : List WatchRow

-- How a statement fails for a reason of its own: with PostgreSQL's code 23505 or otherwise.
pub data DatabaseError : Type 0 where
  unique_violation other_failure : DatabaseError

abbrev pub database_error : DatabaseError → Error
database_error unique_violation = conflict
database_error other_failure = unavailable

-- The cache of `Wechat`: its access token, and when it is no longer used.
pub record Cache : Type 0 where
  pub access_token : String
  pub token_expires : Time

pub record World : Type 0 where
  pub tables : Tables
  pub cache : Cache
  pub tick : ℕ

-- The clock, the failures of statements, the random source and UUIDs, by the number of the effect;
-- SHA-256, and the test of the package google/uuid.
pub record Environment : Type 0 where
  pub now : ℕ → Time
  pub fault : ℕ → Option DatabaseError
  pub new_id : ℕ → String
  pub random : ℕ → Option Bytes
  pub sha256 : String → Bytes
  pub valid_uuid : String → Bool

abbrev pub Act : Type 0 → Type 0
Act A = World → Result Error A × World

-- The world after one more effect.
abbrev pub ticked : World → World
ticked w = record w { tick = suc w.tick }

module _ {A : Type 0} where
  unfoldable pub pure : A → Act A
  pure a w = (ok a, w)

  unfoldable pub fail : Error → Act A
  fail e w = (err e, w)

  unfoldable pub lift : Result Error A → Act A
  lift r w = (r, w)

  -- An effect that the environment answers.
  unfoldable pub asks : (ℕ → A) → Act A
  asks f w = (ok (f w.tick), ticked w)

module _ {A B : Type 0} where
  abbrev pub next : Result Error A × World → (A → Act B) → Result Error B × World
  next (ok a, w) f = f a w
  next (err e, w) f = (err e, w)

  infixl 5 ◌>>=◌ ◌>>◌
  unfoldable pub ◌>>=◌ : Act A → (A → Act B) → Act B
  ◌>>=◌ m f w = next (m w) f

  abbrev pub ◌>>◌ : Act A → Act B → Act B
  m >> k = m >>= λ _. k

unfoldable pub fail_if : Bool → Error → Act (Unit {0})
fail_if true e w = (err e, w)
fail_if false e w = (ok tt, w)

-- A statement: it fails as the environment says, or does its work on the tables.
abbrev pub outcome :
    {A : Type 0} → Option DatabaseError → Result Error (A × Tables) → World → Result Error A × World
outcome (some e) r w = (err (database_error e), w)
outcome none (err e) w = (err e, w)
outcome none (ok (a, t)) w = (ok a, record w { tables = t })

unfoldable pub statement : {A : Type 0} → Environment → (Tables → Result Error (A × Tables)) → Act A
statement env q w = outcome (env.fault w.tick) (q w.tables) (ticked w)

-- `Repository.Within`: the callback between BEGIN and COMMIT; an error rolls the tables back.
abbrev pub rolled_back : World → World → World
rolled_back before after = record after { tables = before.tables }

abbrev pub finished :
    {A : Type 0} → Option DatabaseError → World → A → World → Result Error A × World
finished (some e) before a w = (err (database_error e), ticked (rolled_back before w))
finished none before a w = (ok a, ticked w)

abbrev pub committed :
    {A : Type 0} → Environment → World → Result Error A × World → Result Error A × World
committed env before (err e, w) = (err e, rolled_back before w)
committed env before (ok a, w) = finished (env.fault w.tick) before a w

abbrev pub begun : {A : Type 0} → Environment → Option DatabaseError → Act A → Act A
begun env (some e) m w = (err (database_error e), w)
begun env none m w = committed env w (m w)

unfoldable pub within : {A : Type 0} → Environment → Act A → Act A
within env m w = begun env (env.fault w.tick) m (ticked w)
