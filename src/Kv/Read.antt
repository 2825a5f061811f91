-- ===== src/Kv/Read.antt =====
-- src/kv.ts: what the selectors read, status and the seed of an update make of the mirror. Whether
-- the root state has a contract, and its type, are the parameters `is_contract` and `type_of`.
pub mod Status
use libcheloniajs.Base.{
  Bool, true, false, not, ◌&&◌, ◌||◌, List, [], ◌∷◌, Option, none, some, String, str_eq,
  if◌then◌else◌, any, lookup,
}
use libcheloniajs.Base.Throws.{Outcome, ok, throw, ◌>>=◌}
use libcheloniajs.Journal.Json.{Value, undefined, is_undefined}
use libcheloniajs.Kv.{SlotDefinition, KvLoadStatus, non_init, loading, loaded, failed}
use libcheloniajs.Kv.Mirror.{Dict, KvMirrorEntry, KvState, entry_at, slot_at, status_eq}

pub data SlotUnknown : Type 0 where
  not_synced no_resolved_type no_active_slot : SlotUnknown

-- `computeSeedValue`.
unfoldable pub compute_seed_value : SlotDefinition → Option KvMirrorEntry → Bool → Value
compute_seed_value slot none reload_ran = slot.resolved_default
compute_seed_value slot (some e) reload_ran =
    let use_mirror =
      reload_ran || (not (status_eq e.status failed) && not (is_undefined e.value)) in
    if use_mirror && not (is_undefined e.value) then e.value else slot.resolved_default

-- What `read` makes of an entry.
abbrev pub value_read : SlotDefinition → Option KvMirrorEntry → Value
value_read slot none = slot.resolved_default
value_read slot (some e) =
    if is_undefined e.value || status_eq e.status failed then slot.resolved_default else e.value

module _ (is_contract : String → Bool) (type_of : String → Option String) where
  abbrev pub or_unknown : Option SlotDefinition → Outcome SlotUnknown SlotDefinition
  or_unknown none = throw no_active_slot
  or_unknown (some slot) = ok slot

  abbrev pub of_type : Option String → Option SlotDefinition → Outcome SlotUnknown SlotDefinition
  of_type none slot = throw no_resolved_type
  of_type (some t) slot = or_unknown slot

  -- `resolveActiveSlot`.
  unfoldable pub resolve_active_slot :
      String → String → KvState → Outcome SlotUnknown SlotDefinition
  resolve_active_slot contract_id key st =
      if not (is_contract contract_id) || not (any (λ c. str_eq c contract_id) st.subscriptions)
      then throw not_synced
      else of_type (type_of contract_id) (slot_at contract_id key st)

  -- `chelonia/kv/read`.
  unfoldable pub read : String → String → KvState → Outcome SlotUnknown Value
  read contract_id key st = resolve_active_slot contract_id key st >>= λ slot.
      ok (value_read slot (entry_at contract_id key st))

abbrev pub status_or_non_init : Option KvMirrorEntry → KvLoadStatus
status_or_non_init none = non_init
status_or_non_init (some e) = e.status

abbrev pub status_if : Option SlotDefinition → KvLoadStatus → KvLoadStatus
status_if none s = non_init
status_if (some slot) s = s

-- `chelonia/kv/status` of a slot.
unfoldable pub status_of_slot : String → String → KvState → KvLoadStatus
status_of_slot contract_id key st =
    status_if (slot_at contract_id key st) (status_or_non_init (entry_at contract_id key st))

-- The loop of `chelonia/kv/status` over the keys, with `sawLoading` and `sawNonInit`.
unfoldable pub aggregate :
    (String → KvLoadStatus) → Dict SlotDefinition → Bool → Bool → KvLoadStatus
aggregate status [] saw_loading saw_non_init =
    if saw_loading then loading else if saw_non_init then non_init else loaded
aggregate status ((key, slot) ∷ slots) saw_loading saw_non_init = elim (status key) [
  | failed ↦ failed
  | loading ↦ aggregate status slots true saw_non_init
  | non_init ↦ aggregate status slots saw_loading true
  | loaded ↦ aggregate status slots saw_loading saw_non_init
]

abbrev pub aggregate_of : (String → KvLoadStatus) → Option (Dict SlotDefinition) → KvLoadStatus
aggregate_of status none = non_init
aggregate_of status (some []) = non_init
aggregate_of status (some (s ∷ slots)) = aggregate status (s ∷ slots) false false

-- `chelonia/kv/status` of a contract.
unfoldable pub status_of_contract : String → KvState → KvLoadStatus
status_of_contract contract_id st =
    aggregate_of (λ key. status_or_non_init (entry_at contract_id key st))
      (lookup contract_id st.slots)
