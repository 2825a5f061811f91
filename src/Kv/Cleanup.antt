-- ===== src/Kv/Cleanup.antt =====
-- src/kv.ts, `chelonia/kv/_cleanupContractRuntime`, and the runtime under reconciliations, new
-- subscriptions and releases in any order. `kvReconnectRefresh` is no part of the state.
use text.Mathlib.Text.{starts_with}
use Prim.Native.String.{◌++◌ as text_append}
use libcheloniajs.Base.{
  ◌≡◌, refl, Bool, List, [], ◌∷◌, Option, none, String, str_eq, if◌then◌else◌, lookup, erase,
  lookup-erase, arith, Bool-cases, inl, inr,
}
use libcheloniajs.Base.Throws.{Outcome}
use libcheloniajs.Journal.Redact.{Thrown}
use libcheloniajs.Kv.{SlotDefinition}
use libcheloniajs.Kv.Echo.{EchoCids}
use libcheloniajs.Kv.Mirror.{Dict, find_in}
use libcheloniajs.Kv.Filters.{Filters, add, remove, queue_filter_flush, is_some, cleanup_filters}
use libcheloniajs.Kv.Filters.Steps.{has-add, has-remove}
use libcheloniajs.Kv.Reconcile.{Runtime, reconcile_for_slot}
use libcheloniajs.Kv.Reconcile.Index.{IsIndexed, reconcile_for_slot-IsIndexed}

-- The echo CIDs without those of the contract's keys.
unfoldable pub drop_echoes : String → EchoCids → EchoCids
drop_echoes prefix [] = []
drop_echoes prefix ((key, cids) ∷ m) =
    let rest = drop_echoes prefix m in if starts_with key prefix then rest else (key, cids) ∷ rest

unfoldable pub cleanup_contract_runtime : String → Runtime → Runtime
cleanup_contract_runtime c rt = record {
  store = record rt.store {
    slots = erase c rt.store.slots;
    echo_cids = drop_echoes (text_append c "::") rt.store.echo_cids;
    kv = erase c rt.store.kv;
  };
  filters = cleanup_filters c rt.filters;
}

pub data RuntimeStep : Type 0 where
  reconciled : Option (Outcome Thrown Bool) → SlotDefinition → String → RuntimeStep
  subscribed : String → RuntimeStep
  -- A release cleans up, and takes the contract off the subscriptions.
  released : String → RuntimeStep

unfoldable pub runtime_step : (String → Option String) → RuntimeStep → Runtime → Runtime
runtime_step type_of (reconciled matches slot c) rt =
    (reconcile_for_slot type_of matches slot c rt).0
runtime_step type_of (subscribed c) rt = record rt {
  store = record rt.store { subscriptions = add c rt.store.subscriptions };
}
runtime_step type_of (released c) rt =
    let cleaned = cleanup_contract_runtime c rt in
    record cleaned {
      store = record cleaned.store { subscriptions = remove c cleaned.store.subscriptions };
    }

abbrev pub run_runtime : (String → Option String) → List RuntimeStep → Runtime → Runtime
run_runtime type_of [] rt = rt
run_runtime type_of (e ∷ es) rt = run_runtime type_of es (runtime_step type_of e rt)

find_in-erase :
    (c d k : String) (m : Dict (Dict SlotDefinition))
    → find_in d k (erase c m) ≡ (if str_eq c d then none else find_in d k m)
unfolding find_in
find_in-erase c d k m = ground (arith, lookup-erase c d m)

cleanup_filters-active :
    (c : String) (f : Filters) → (cleanup_filters c f).active ≡ erase c f.active
unfolding cleanup_filters queue_filter_flush
cleanup_filters-active c f = elim (Bool-cases (is_some (lookup c f.active))) [
  | inl there ↦ simp (there, cleanup_filters) refl
  | inr gone ↦ simp (gone, cleanup_filters) refl
]

released-IsIndexed :
    (type_of : String → Option String) (c : String) (rt : Runtime)
    → IsIndexed type_of rt
    → IsIndexed type_of (runtime_step type_of (released c) rt)
unfolding runtime_step cleanup_contract_runtime
released-IsIndexed type_of c rt inv = record {
  keyed = λ d k s found. ground (
    arith,
    find_in-erase c d k rt.store.slots,
    found,
    inv.keyed d k s,
    has-remove c d rt.store.subscriptions,
  );
  filtered = λ d k s found. ground (
    arith,
    find_in-erase c d k rt.store.slots,
    found,
    inv.filtered d k s,
    cleanup_filters-active c rt.filters,
    lookup-erase c d rt.filters.active,
  );
  owned = λ d k held. ground (
    arith,
    find_in-erase c d k rt.store.slots,
    held,
    inv.owned d k,
    cleanup_filters-active c rt.filters,
    lookup-erase c d rt.filters.active,
  );
}

subscribed-IsIndexed :
    (type_of : String → Option String) (c : String) (rt : Runtime)
    → IsIndexed type_of rt
    → IsIndexed type_of (runtime_step type_of (subscribed c) rt)
unfolding runtime_step
subscribed-IsIndexed type_of c rt inv = record {
  keyed = λ d k s found. ground (arith, inv.keyed d k s found, has-add c d rt.store.subscriptions);
  filtered = inv.filtered;
  owned = inv.owned;
}

-- If the index and the filters are in step at first, then they are so after any reconciliations,
-- new subscriptions and releases of contracts: each active slot stands under its key, for a
-- contract that is subscribed and of its type, whose filter holds the key exactly when the slot
-- subscribes by itself, and a filter has no other keys.
pub run_runtime-IsIndexed :
    (type_of : String → Option String) (es : List RuntimeStep) (rt : Runtime)
    → IsIndexed type_of rt
    → IsIndexed type_of (run_runtime type_of es rt)
unfolding runtime_step
run_runtime-IsIndexed type_of [] rt inv = inv
run_runtime-IsIndexed type_of (reconciled matches slot c ∷ es) rt inv =
    run_runtime-IsIndexed type_of es (reconcile_for_slot type_of matches slot c rt).0
      (reconcile_for_slot-IsIndexed type_of matches slot c rt inv)
run_runtime-IsIndexed type_of (subscribed c ∷ es) rt inv =
    run_runtime-IsIndexed type_of es (runtime_step type_of (subscribed c) rt)
      (subscribed-IsIndexed type_of c rt inv)
run_runtime-IsIndexed type_of (released c ∷ es) rt inv =
    run_runtime-IsIndexed type_of es (runtime_step type_of (released c) rt)
      (released-IsIndexed type_of c rt inv)
