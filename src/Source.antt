-- ===== src/Source.antt =====
-- data-service/backend/internal/biz/source/biz.go and transaction.go: the catalogue of Sources.
-- This file has the constants, the errors and the records, and what the store has to offer.
pub mod Config
pub mod Validation
pub mod Envelope
pub mod Tx
pub mod Prepare
pub mod UseCase
pub mod Publish
pub mod Read
pub mod Same
pub mod Import
pub mod Database
pub mod Keeps
pub mod Table
pub mod Changes
pub mod Unique
pub mod Frame
pub mod Capacity
pub mod Outcome
pub mod Removal
pub mod Published
use tidewise_ai.Prelude.{ℕ, ◌*◌, ◌+◌, ◌^◌, String, Bool, Option, List, Result}
use tidewise_ai.Prelude.Int.{ℤ}
use tidewise_ai.Json.{RawMessage}

abbrev pub max_sources : ℕ
max_sources = 200

abbrev pub max_snapshot_envelope_size : ℕ
max_snapshot_envelope_size = 500_000

abbrev pub max_config_bytes : ℕ
max_config_bytes = 4_096

abbrev pub ownership_fixed : String
ownership_fixed = "fixed"

abbrev pub ownership_dynamic : String
ownership_dynamic = "dynamic"

abbrev pub channel_web_search : String
channel_web_search = "web_search"

abbrev pub channel_api : String
channel_api = "api"

abbrev pub channel_rss : String
channel_rss = "rss"

abbrev pub adapter_generic_rss : String
adapter_generic_rss = "generic_rss"

-- The errors of the package. `validation` is *ValidationError with its field and message;
-- `other` is an error of the context or the transport that is passed on unchanged.
pub data Error : Type 0 where
  not_found conflict fixed_delete_forbidden capacity_exceeded persistence : Error
  validation : String → String → Error
  other : String → Error

-- A time.Time in UTC: the nanoseconds since its zero value, 0001-01-01 00:00.
abbrev pub Time : Type 0
Time = ℕ

pub record Source : Type 0 where
  pub id : String
  pub code : String
  pub name : String
  pub ownership_type : String
  pub channel_type : String
  pub adapter_key : String
  pub enabled : Bool
  pub endpoint : String
  pub app_key : Option String
  pub config : RawMessage
  pub priority : ℤ
  pub timeout_seconds : ℤ
  pub max_results : ℤ
  pub default_source_level : String
  pub created_at : Time
  pub updated_at : Time

pub record MutableSource : Type 0 where
  pub code : String
  pub name : String
  pub adapter_key : String
  pub enabled : Bool
  pub endpoint : String
  pub app_key : Option String
  pub config : RawMessage
  pub priority : ℤ
  pub timeout_seconds : ℤ
  pub max_results : ℤ
  pub default_source_level : String

-- `Transaction`: what the callback of InTransaction may do to the state `S` of the store.
pub record Transaction (S : Type 0) : Type 0 where
  pub lock : S → Result Error S
  pub list : S → Result Error (List Source)
  pub insert : Source → S → Result Error (Source × S)
  pub update : Source → S → Result Error (Source × S)
  pub delete : String → S → Result Error S

-- `Store`: reads outside a transaction, and the frame of a transaction.
pub record Store (S : Type 0) : Type 0 where
  pub list : Bool → S → Result Error (List Source)
  pub begin : S → Result Error S
  pub commit : S → Result Error S
  pub tx : Transaction S
