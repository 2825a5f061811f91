-- ===== src/Journal/Redact.antt =====
-- src/journal.ts, "Redactions": `applyRedactions` and `walkAndRedact`. The source changes the clone
-- in place; here the walk returns the changed value. A redactor is a function of the configuration,
-- which may throw.
pub mod Literal
use libcheloniajs.Base.{ℕ, suc, List, [], ◌∷◌, ◌++◌, none, some, String, str_eq, ltb, if◌then◌else◌}
use libcheloniajs.Base.Throws.{Outcome, ok, throw}
use libcheloniajs.Journal.Json.{
  Value, undefined, string, array, object, Items, nil, cons, Fields, end, field, clone_value,
  item_count, item_at, set_item, property, safe_define,
}
use libcheloniajs.Journal.Index.{index_text, number_of}
use libcheloniajs.Journal.Pointer.{parse_dotted_path}
use libcheloniajs.Journal.Turtledash.{Turtledash}
use libcheloniajs.Journal.Apply.{put_child}

-- What a function of the configuration throws.
pub data Thrown : Type 0 where
  thrown : String → Thrown

pub record Redaction : Type 0 where
  pub path : String
  pub redact : Value → List String → String → Outcome Thrown Value

abbrev pub redaction_error_sentinel : Value
redaction_error_sentinel = string "[REDACTION_ERROR]"

-- The keys that `*` stands for.
unfoldable pub index_texts : Items → ℕ → List String
index_texts nil i = []
index_texts (cons x xs) i = index_text i ∷ index_texts xs (suc i)

unfoldable pub keys_of : Fields → List String
keys_of end = []
keys_of (field k v fs) = k ∷ keys_of fs

-- `parent[k]`, for a key that names an item or a property.
unfoldable pub read_key : Value → String → Value
read_key (array xs) k = elim (number_of k) [
  | none ↦ undefined
  | some i ↦ elim (item_at xs i) [ none ↦ undefined | some v ↦ v ]
]
read_key (object fs) k = elim (property k fs) [ none ↦ undefined | some v ↦ v ]
read_key v k = undefined

-- The write of a replacement: at a valid index of an array, or as an own property.
unfoldable pub write_key : Value → String → Value → Value
write_key (array xs) k v = elim (number_of k) [
  | none ↦ array xs
  | some i ↦ if ltb i (item_count xs) then array (set_item xs i v) else array xs
]
write_key (object fs) k v = object (safe_define fs k v)
write_key w k v = w

abbrev pub or_sentinel : Outcome Thrown Value → Value
or_sentinel (ok v) = v
or_sentinel (throw e) = redaction_error_sentinel

-- The loop over the keys, with what is done at one.
unfoldable pub each_key : (String → Value → Value) → List String → Value → Value
each_key f [] parent = parent
each_key f (k ∷ ks) parent = each_key f ks (f k parent)

module _ (t : Turtledash) where
  unfoldable pub matching_keys : String → Value → List String
  matching_keys seg (array xs) =
      if str_eq seg "*" then index_texts xs 0 else if t.has (array xs) seg then seg ∷ [] else []
  matching_keys seg (object fs) =
      if str_eq seg "*" then keys_of fs else if t.has (object fs) seg then seg ∷ [] else []
  matching_keys seg v = []

  unfoldable pub walk_and_redact :
      (Value → List String → String → Outcome Thrown Value)
      → String
      → List String
      → List String
      → Value
      → Value
  walk_and_redact redact contract_name [] resolved parent = parent
  walk_and_redact redact contract_name (seg ∷ []) resolved parent =
      each_key
        (λ k p.
          write_key p k (or_sentinel (redact (read_key p k) (resolved ++ k ∷ []) contract_name)))
        (matching_keys seg parent) parent
  walk_and_redact redact contract_name (seg ∷ (next ∷ segments)) resolved parent =
      each_key
        (λ k p. put_child p k (
          walk_and_redact redact contract_name (next ∷ segments) (resolved ++ k ∷ [])
            (read_key p k)))
        (matching_keys seg parent) parent

  unfoldable pub redact_all : List Redaction → String → Value → Value
  redact_all [] contract_name v = v
  redact_all (r ∷ rs) contract_name v =
      redact_all rs contract_name
        (walk_and_redact r.redact contract_name (parse_dotted_path r.path) [] v)

  unfoldable pub apply_redactions : Value → List Redaction → String → Value
  apply_redactions state redactions contract_name =
      redact_all redactions contract_name (clone_value state)
