-- ===== src/Kv/Reconcile.antt =====
-- src/kv.ts, `chelonia/kv/_reconcileForSlot`: a slot becomes active for a contract, or inactive.
-- `type_of` is the type of a contract that the root state has, and `matches` what the slot's own
-- `match` answers; a load that is scheduled is the Boolean of the answer.
pub mod Dicts
pub mod Active
pub mod Index
pub mod Unflushed
use libcheloniajs.Base.{
  Bool, true, false, not, ◌&&◌, List, [], ◌∷◌, ◌++◌, Option, none, some, String, str_eq,
  if◌then◌else◌, any, lookup, insert, erase,
}
use libcheloniajs.Base.Throws.{Outcome, ok, throw}
use libcheloniajs.Journal.Json.{undefined}
use libcheloniajs.Journal.Redact.{Thrown}
use libcheloniajs.Kv.{SlotDefinition, non_init}
use libcheloniajs.Kv.Echo.{echo_key_of}
use libcheloniajs.Kv.Mirror.{
  Dict, KvMirrorEntry, KvState, find_in, entry_at, slot_at, ensure_contract_kv,
}
use libcheloniajs.Kv.Filters.{Filters, has, add, remove, put_filter, queue_filter_flush, is_some}

pub record Runtime : Type 0 where
  pub store : KvState
  pub filters : Filters

abbrev pub or_nil {ℓ} : {A : Type ℓ} → Option (List A) → List A
or_nil none = []
or_nil (some xs) = xs

abbrev pub is_nil {ℓ} : {A : Type ℓ} → List A → Bool
is_nil [] = true
is_nil (x ∷ xs) = false

-- `outer.get(contractID).set(key, …)`, which makes the inner map, and the removal, which deletes an
-- inner map that is left empty.
unfoldable pub set_in {ℓ} :
    {A : Type ℓ}
    → String
    → String
    → A
    → List (String × List (String × A))
    → List (String × List (String × A))
set_in c k a m = insert c (insert k a (or_nil (lookup c m))) m

unfoldable pub delete_in {ℓ} :
    {A : Type ℓ}
    → String
    → String
    → List (String × List (String × A))
    → List (String × List (String × A))
delete_in c k m = elim (lookup c m) [
  | none ↦ m
  | some inner ↦ if is_nil (erase k inner) then erase c m else insert c (erase k inner) m
]

-- Whether a contract has its last active slot taken.
abbrev pub is_emptied : String → String → Dict (Dict SlotDefinition) → Bool
is_emptied c k m = is_nil (erase k (or_nil (lookup c m)))

abbrev pub set_filter : String → Option (List String) → Filters → Filters
set_filter c keys f = record f { active = put_filter c keys f.active }

-- The filter of a contract that the slot is active for; a new one is empty.
unfoldable pub claim_filter : SlotDefinition → String → Filters → Filters
claim_filter slot c f =
    let keys = or_nil (lookup c f.active) in
    let claimed = set_filter c (some keys) f in
    if slot.auto_subscribe
    then (if has slot.key keys
        then claimed
        else queue_filter_flush c (set_filter c (some (add slot.key keys)) f))
    else (if has slot.key keys
        then queue_filter_flush c (set_filter c (some (remove slot.key keys)) f)
        else (if is_some (lookup c f.active) then claimed else queue_filter_flush c claimed))

-- The entry of the mirror, where there is none, in what `ensureContractKv` makes.
unfoldable pub seed_entry : String → String → Dict (Dict KvMirrorEntry) → Dict (Dict KvMirrorEntry)
seed_entry c k m =
    if is_some (find_in c k m)
    then m
    else set_in c k
        (record { value = undefined; etag = none; status = non_init; last_error = none }) m

unfoldable pub activate : SlotDefinition → String → Runtime → Runtime × Bool
activate slot c rt = (
  record {
    store = record rt.store {
      slots = set_in c slot.key slot rt.store.slots;
      kv = seed_entry c slot.key rt.store.kv;
    };
    filters = claim_filter slot c rt.filters;
  },
  not (is_some (slot_at c slot.key rt.store)) && slot.auto_load_on_sync,
)

-- The filter of a contract without the slot.
unfoldable pub unfilter : SlotDefinition → String → Filters → Filters
unfilter slot c f =
    let keys = or_nil (lookup c f.active) in
    if has slot.key keys
    then queue_filter_flush c (set_filter c (some (remove slot.key keys)) f)
    else f

-- The same, which goes with the contract's last slot.
unfoldable pub release_filter : SlotDefinition → String → Bool → Filters → Filters
release_filter slot c emptied f =
    if emptied then set_filter c none (unfilter slot c f) else unfilter slot c f

abbrev pub unindex : SlotDefinition → String → Runtime → Runtime
unindex slot c rt =
    if is_some (slot_at c slot.key rt.store)
    then record {
      store = record rt.store { slots = delete_in c slot.key rt.store.slots };
      filters = release_filter slot c (is_emptied c slot.key rt.store.slots) rt.filters;
    }
    else rt

unfoldable pub drop_entry : String → String → KvState → KvState
drop_entry c k st = record st {
  kv = delete_in c k st.kv;
  echo_cids = erase (echo_key_of c k) st.echo_cids;
}

unfoldable pub deactivate : SlotDefinition → String → Runtime → Runtime
deactivate slot c rt =
    let rt' = unindex slot c rt in record rt' { store = drop_entry c slot.key rt'.store }

-- A `match` that throws does not match.
abbrev pub does_match : Option (Outcome Thrown Bool) → Bool
does_match none = true
does_match (some (ok b)) = b
does_match (some (throw e)) = false

abbrev pub is_type : String → Option String → Bool
is_type t none = false
is_type t (some u) = str_eq u t

unfoldable pub reconcile_for_slot :
    (type_of : String → Option String) (matches : Option (Outcome Thrown Bool))
    → SlotDefinition
    → String
    → Runtime
    → Runtime × Bool
reconcile_for_slot type_of matches slot c rt =
    if not (any (λ d. str_eq d c) rt.store.subscriptions)
    then (rt, false)
    else if not (is_type slot.contract_type (type_of c))
    then (rt, false)
    else if does_match matches
    then activate slot c rt
    else (deactivate slot c rt, false)
