-- ===== src/Kv/Values.antt =====
-- src/kv.ts: `assertJsonShape` and the checks of values around it.
use libcheloniajs.Base.{ℕ, suc, Bool, true, false, Option, none, some, ltb, if◌then◌else◌}
use libcheloniajs.Base.Throws.{Outcome, ok, throw, ◌>>=◌}
use libcheloniajs.Journal.Json.{
  Value, undefined, null, boolean, number, string, array, object, Items, nil, cons, Fields, end,
  field, magnitude,
}
use libcheloniajs.Journal.Redact.{Thrown}
use libcheloniajs.Kv.{SlotDefinition, Parsed, thenable, parsed}

pub data ShapeError : Type 0 where
  too_deep reserved_sentinel non_finite_number : ShapeError

-- `MAX_JSON_DEPTH`.
abbrev pub max_json_depth : ℕ
max_json_depth = 1000

-- `Number.isFinite`.
unfoldable pub is_finite : ℕ → Bool
is_finite n = ltb (magnitude n) 0x7ff0000000000000

-- The first test of `visit`.
abbrev pub within_depth : ℕ → Outcome ShapeError (Unit {0}) → Outcome ShapeError (Unit {0})
within_depth depth rest = if ltb max_json_depth depth then throw too_deep else rest

unfoldable mutual
  pub visit : Value → ℕ → Outcome ShapeError (Unit {0})
  visit undefined depth = within_depth depth (throw reserved_sentinel)
  visit null depth = within_depth depth (throw reserved_sentinel)
  visit (boolean b) depth = within_depth depth (ok tt)
  visit (string s) depth = within_depth depth (ok tt)
  visit (number n) depth =
      within_depth depth (if is_finite n then ok tt else throw non_finite_number)
  visit (array xs) depth = within_depth depth (visit_items xs (suc depth))
  visit (object fs) depth = within_depth depth (visit_fields fs (suc depth))

  pub visit_items : Items → ℕ → Outcome ShapeError (Unit {0})
  visit_items nil depth = ok tt
  visit_items (cons x xs) depth = visit x depth >>= λ done. visit_items xs depth

  pub visit_fields : Fields → ℕ → Outcome ShapeError (Unit {0})
  visit_fields end depth = ok tt
  visit_fields (field k v fs) depth = visit v depth >>= λ done. visit_fields fs depth

unfoldable pub assert_json_shape : Value → Outcome ShapeError Value
assert_json_shape input = visit input 0 >>= λ done. ok input

-- Why a value is refused. The name and message that `normalizeError` makes of a failure are a
-- parameter of what needs them.
pub data KvFailure : Type 0 where
  get_failed undecodable : Thrown → KvFailure
  schema_threw : Thrown → KvFailure
  async_schema schema_sentinel : KvFailure
  bad_shape : ShapeError → KvFailure

abbrev pub shaped : Outcome ShapeError Value → Outcome KvFailure Value
shaped (ok v) = ok v
shaped (throw e) = throw (bad_shape e)

abbrev pub is_sentinel : Value → Bool
is_sentinel undefined = true
is_sentinel null = true
is_sentinel _ = false

-- `parseSyncSlotValue`, behind the call of the schema.
unfoldable pub check_parsed : Outcome Thrown Parsed → Outcome KvFailure Value
check_parsed (throw e) = throw (schema_threw e)
check_parsed (ok thenable) = throw async_schema
check_parsed (ok (parsed v)) =
    if is_sentinel v then throw schema_sentinel else shaped (assert_json_shape v)

-- A value through the schema of the slot, or through `assertJsonShape` where it has none.
unfoldable pub read_value : SlotDefinition → Value → Outcome KvFailure Value
read_value slot v = elim slot.schema [
  | some parse ↦ check_parsed (parse v)
  | none ↦ shaped (assert_json_shape v)
]

-- What a reducer returns: `KV_NOOP`, another symbol, or a value.
pub data Output : Type 0 where
  kv_noop other_symbol : Output
  output : Value → Output

pub data Validated : Type 0 where
  noop : Validated
  validated : Value → Validated

pub data UpdateError : Type 0 where
  unexpected_symbol empty_output : UpdateError
  kv_validation : KvFailure → UpdateError

abbrev pub as_validated : Outcome KvFailure Value → Outcome UpdateError Validated
as_validated (ok v) = ok (validated v)
as_validated (throw e) = throw (kv_validation e)

unfoldable pub validate_reducer_output : SlotDefinition → Output → Outcome UpdateError Validated
validate_reducer_output slot kv_noop = ok noop
validate_reducer_output slot other_symbol = throw unexpected_symbol
validate_reducer_output slot (output v) =
    if is_sentinel v then throw empty_output else as_validated (read_value slot v)

-- `currentData` of a conflict's cause, none where the cause has no such key.
unfoldable pub normalize_kv_conflict_current_data :
    SlotDefinition → Option Value → Outcome KvFailure (Option Value)
normalize_kv_conflict_current_data slot none = ok none
normalize_kv_conflict_current_data slot (some undefined) = ok (some undefined)
normalize_kv_conflict_current_data slot (some null) = ok (some slot.resolved_default)
normalize_kv_conflict_current_data slot (some v) = read_value slot v >>= λ w. ok (some w)
