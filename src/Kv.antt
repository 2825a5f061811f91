-- ===== src/Kv.antt =====
-- src/kv.ts: the slots of the key-value store, over plain JSON values. A deep clone is the value.
pub mod Values
pub mod Shape
pub mod Echo
pub mod Mirror
pub mod Load
pub mod Remote
pub mod Write
pub mod Filters
pub mod Steps
pub mod Read
pub mod Guards
pub mod Cleanup
mod Tests
pub mod Reconcile
use libcheloniajs.Base.{ℕ, Bool, List, Option, String}
use libcheloniajs.Base.Throws.{Outcome}
use libcheloniajs.Journal.Json.{Value}
use libcheloniajs.Journal.Redact.{Thrown}

-- What a schema's `parse` returns: a promise, or a value.
pub data Parsed : Type 0 where
  thenable : Parsed
  parsed : Value → Parsed

-- Of a SlotDefinition, what the code reads; `identity` stands for the reference to the object, and
-- an absent default is `undefined`.
pub record SlotDefinition : Type 0 where
  pub identity : ℕ
  pub contract_type : String
  pub key : String
  pub resolved_default : Value
  pub schema : Option (Value → Outcome Thrown Parsed)
  pub encryption_key_name : Option String
  pub signing_key_name : String
  pub auto_subscribe : Bool
  pub auto_load_on_sync : Bool
  pub refresh_on_reconnect : Bool
  pub has_on_update : Bool

pub data KvLoadStatus : Type 0 where
  non_init loading loaded failed : KvLoadStatus
