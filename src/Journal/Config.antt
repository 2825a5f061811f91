-- ===== src/Journal/Config.antt =====
-- src/journal.ts: `resolveJournalConfig`, and `normalizeProcessingError`.
use libcheloniajs.Base.{
  ℕ, Bool, true, false, List, [], ◌∷◌, Option, none, some, String, if◌then◌else◌,
}
use libcheloniajs.Base.Throws.{Outcome, ok, throw}
use libcheloniajs.Journal.Json.{Value}
use libcheloniajs.Journal.Diff.{Patch, default_diff}
use libcheloniajs.Journal.Turtledash.{Turtledash}
use libcheloniajs.Journal.Apply.{ApplyError, default_apply_patch}
use libcheloniajs.Journal.Redact.{Thrown, Redaction}
use libcheloniajs.Journal.Log.{ErrorDetail}

-- An applier of the configuration throws what it likes.
pub data PatchError : Type 0 where
  by_default : ApplyError → PatchError
  by_config : Thrown → PatchError

abbrev pub Differ : Type 0
Differ = Value → Value → Outcome Thrown (List Patch)

abbrev pub Patcher : Type 0
Patcher = Value → List Patch → Outcome PatchError Value

-- JournalConfig, with its optional keys.
pub record JournalConfig : Type 0 where
  pub enabled : Option Bool
  pub snapshot_interval : Option ℕ
  pub contract_ids : Option (List String)
  pub redactions : Option (List Redaction)
  pub diff : Option Differ
  pub apply_patch : Option Patcher

-- What `resolveJournalConfig` returns.
pub record Resolved : Type 0 where
  pub enabled : Bool
  pub snapshot_interval : ℕ
  pub contract_ids : Option (List String)
  pub redactions : List Redaction
  pub diff : Differ
  pub apply_patch : Patcher

abbrev pub default_snapshot_interval : ℕ
default_snapshot_interval = 50

abbrev pub or_default {ℓ} : {A : Type ℓ} → A → Option A → A
or_default d none = d
or_default d (some a) = a

abbrev pub is_enabled : Option Bool → Bool
is_enabled (some true) = true
is_enabled _ = false

-- An absent or empty list stands for every contract.
abbrev pub id_filter : Option (List String) → Option (List String)
id_filter (some (id ∷ ids)) = some (id ∷ ids)
id_filter _ = none

abbrev pub lift_error : Outcome ApplyError Value → Outcome PatchError Value
lift_error (ok v) = ok v
lift_error (throw e) = throw (by_default e)

module _ (t : Turtledash) where
  abbrev pub default_differ : Differ
  default_differ b a = ok (default_diff b a)

  abbrev pub default_patcher : Patcher
  default_patcher v ps = lift_error (default_apply_patch t v ps)

  unfoldable pub resolve_journal_config : Option JournalConfig → Resolved
  resolve_journal_config none = record {
    enabled = false;
    snapshot_interval = default_snapshot_interval;
    contract_ids = none;
    redactions = [];
    diff = default_differ;
    apply_patch = default_patcher;
  }
  resolve_journal_config (some cfg) = record {
    enabled = is_enabled cfg.enabled;
    snapshot_interval = or_default default_snapshot_interval cfg.snapshot_interval;
    contract_ids = id_filter cfg.contract_ids;
    redactions = or_default [] cfg.redactions;
    diff = or_default default_differ cfg.diff;
    apply_patch = or_default default_patcher cfg.apply_patch;
  }

-- A field of a thrown object: text, absent, or another value with what `String` makes of it (none
-- where `String` throws).
pub data FieldText : Type 0 where
  text : String → FieldText
  absent : FieldText
  coerced : Option String → FieldText

-- What contract code throws. An object carries whether it is an `Error`, and its constructor's
-- name; a primitive its `typeof` and what `String` makes of it.
pub data Throwable : Type 0 where
  nullish : Throwable
  thrown_object : FieldText → FieldText → Bool → Option String → Throwable
  primitive : String → Option String → Throwable

abbrev pub name_text : FieldText → Bool → Option String → String
name_text (text s) is_error constructor_name = s
name_text absent is_error constructor_name =
    if is_error then "Error" else or_default "Object" constructor_name
name_text (coerced s) is_error constructor_name = or_default "Error" s

abbrev pub message_text : FieldText → String
message_text (text s) = s
message_text absent = ""
message_text (coerced s) = or_default "" s

-- `normalizeProcessingError` behind its guard `processingErrored && processingError != null`.
unfoldable pub error_detail : Bool → Throwable → Option ErrorDetail
error_detail false e = none
error_detail true nullish = none
error_detail true (thrown_object name message is_error constructor_name) =
    some
      (record { name = name_text name is_error constructor_name; message = message_text message })
error_detail true (primitive type_name s) =
    some (record { name = type_name; message = or_default "" s })
