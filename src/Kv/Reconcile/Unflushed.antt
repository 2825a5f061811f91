-- ===== src/Kv/Reconcile/Unflushed.antt =====
-- src/kv.ts: the flushes that a reconciliation queues for the filters that it changes.
use libcheloniajs.Base.{
  ◌≡◌, ◌∙◌, refl, Bool, true, false, not, List, [], Option, none, some, String, str_eq, eq_iff, any,
  lookup, arith, ◌⊎◌, inl, inr,
}
use libcheloniajs.Base.Throws.{Outcome}
use libcheloniajs.Journal.Redact.{Thrown}
use libcheloniajs.Kv.{SlotDefinition}
use libcheloniajs.Kv.Mirror.{slot_at}
use libcheloniajs.Kv.Mirror.Kept.{on_if, on_test}
use libcheloniajs.Kv.Filters.{Filters, has, add, remove, queue_filter_flush, changed, step, is_some}
use libcheloniajs.Kv.Filters.Steps.{
  IsFlushed, FlushedBut-le, pending, lookup-put_filter, step-IsFlushed, has-add,
}
use libcheloniajs.Kv.Reconcile.{
  Runtime, or_nil, is_emptied, set_filter, claim_filter, activate, unfilter, release_filter,
  deactivate, does_match, is_type, reconcile_for_slot,
}
use libcheloniajs.Kv.Reconcile.Index.{IsIndexed}
use libcheloniajs.Kv.Reconcile.Active.{keys_of}

-- A filter may be replaced where its frame is still to come, or by the same.
set_filter-IsFlushed :
    (c : String) (keys : Option (List String)) (f : Filters)
    → (pending c f ≡ true) ⊎ (lookup c f.active ≡ keys)
    → IsFlushed f
    → IsFlushed (set_filter c keys f)
set_filter-IsFlushed c keys f ready inv = record {
  one = inv.one;
  woken = inv.woken;
  timed = inv.timed;
  synced =
      λ d. ground (arith, ready, inv.synced d, eq_iff c d, lookup-put_filter c d keys f.active);
}

queued-IsFlushed :
    (c : String) (keys : Option (List String)) (f : Filters)
    → IsFlushed f
    → IsFlushed (queue_filter_flush c (set_filter c keys f))
unfolding step
queued-IsFlushed c keys f inv =
    FlushedBut-le _ _ _ (λ d h. ground (arith, h)) (step-IsFlushed _ (changed c keys) f inv)

queued-pending : (c : String) (f : Filters) → pending c (queue_filter_flush c f) ≡ true
unfolding queue_filter_flush
queued-pending c f = ground (arith, has-add c c f.dirty, eq_iff c c)

abbrev Flushed : Runtime × Bool → Type 0
Flushed r = IsFlushed r.0.filters

claim_filter-IsFlushed :
    (slot : SlotDefinition) (c : String) (f : Filters)
    → IsFlushed f
    → IsFlushed (claim_filter slot c f)
unfolding claim_filter
claim_filter-IsFlushed slot c f inv =
    on_if IsFlushed slot.auto_subscribe _ _
      (on_test IsFlushed (has slot.key keys) _ _
        (λ held. claimed (some_keys (lookup c f.active) held))
        (λ lacks. queued-IsFlushed c (some (add slot.key keys)) f inv))
      (on_if IsFlushed (has slot.key keys) _ _
        (queued-IsFlushed c (some (remove slot.key keys)) f inv)
        (on_test IsFlushed (is_some (lookup c f.active)) _ _
          (λ there. claimed (some_there (lookup c f.active) there))
          (λ gone. queued-IsFlushed c (some keys) f inv)))
  where
    keys : List String
    keys = keys_of c f

    claimed : lookup c f.active ≡ some keys → IsFlushed (set_filter c (some keys) f)
    claimed same = set_filter-IsFlushed c (some keys) f (inr same) inv

    some_keys : (o : Option (List String)) → has slot.key (or_nil o) ≡ true → o ≡ some (or_nil o)
    some_keys none h = cc
    some_keys (some ks) h = refl

    some_there : (o : Option (List String)) → is_some o ≡ true → o ≡ some (or_nil o)
    some_there none h = cc
    some_there (some ks) h = refl

-- The frame of the contract is on its way when its filter goes, if its last key goes with it.
release_filter-IsFlushed :
    (slot : SlotDefinition) (c : String) (emptied : Bool) (f : Filters)
    → (emptied ≡ true → has slot.key (keys_of c f) ≡ true)
    → IsFlushed f
    → IsFlushed (release_filter slot c emptied f)
unfolding release_filter unfilter
release_filter-IsFlushed slot c emptied f told inv =
    on_test IsFlushed emptied _ _
      (λ last. simp (told last) (set_filter-IsFlushed c none _ (inl (queued-pending c _)) queued))
      (λ more. on_if IsFlushed (has slot.key keys) _ f queued inv)
  where
    keys : List String
    keys = keys_of c f

    queued : IsFlushed (queue_filter_flush c (set_filter c (some (remove slot.key keys)) f))
    queued = queued-IsFlushed c (some (remove slot.key keys)) f inv

-- A reconciliation keeps the filters and what `setFilter` is given in step, unless it takes
-- the last slot of a contract while that slot's key is not in the filter.
pub reconcile_for_slot-IsFlushed :
    (type_of : String → Option String) (matches : Option (Outcome Thrown Bool))
    (slot : SlotDefinition) (c : String) (rt : Runtime)
    → (is_emptied c slot.key rt.store.slots ≡ true → has slot.key (keys_of c rt.filters) ≡ true)
    → IsFlushed rt.filters
    → IsFlushed (reconcile_for_slot type_of matches slot c rt).0.filters
unfolding reconcile_for_slot activate deactivate
reconcile_for_slot-IsFlushed type_of matches slot c rt told inv =
    on_if Flushed (not (any (λ d. str_eq d c) rt.store.subscriptions)) _ _ inv (
      on_if Flushed (not (is_type slot.contract_type (type_of c))) _ _ inv (
        on_if Flushed (does_match matches) _ _ (claim_filter-IsFlushed slot c rt.filters inv) (
          on_if (λ (r : Runtime). IsFlushed r.filters) (is_some (slot_at c slot.key rt.store)) _ _
            (release_filter-IsFlushed slot c (is_emptied c slot.key rt.store.slots) rt.filters told
              inv)
            inv)))

taken :
    (type_of : String → Option String) (matches : Option (Outcome Thrown Bool))
    (slot : SlotDefinition) (c : String) (rt : Runtime)
    → any (λ d. str_eq d c) rt.store.subscriptions ≡ true
    → is_type slot.contract_type (type_of c) ≡ true
    → does_match matches ≡ false
    → slot_at c slot.key rt.store ≡ some slot
    → is_emptied c slot.key rt.store.slots ≡ true
    → has slot.key (keys_of c rt.filters) ≡ false
    → (reconcile_for_slot type_of matches slot c rt).0.filters ≡ set_filter c none rt.filters
unfolding reconcile_for_slot deactivate release_filter unfilter
taken type_of matches slot c rt subscribed typed off found last lacks = simp (
  subscribed, typed, off, found, last, lacks, reconcile_for_slot, deactivate, release_filter,
  unfilter,
)

-- Where the index and the filters are in step, `setFilter` has been given an empty filter for a
-- contract, no frame of the contract is still to come, and `match` no longer holds of the
-- contract's last slot, which does not subscribe by itself, the contract's filter is deleted and
-- no frame is queued: the empty filter stays the last that `setFilter` has been given.
pub reconcile_for_slot-unflushed :
    (type_of : String → Option String) (matches : Option (Outcome Thrown Bool))
    (slot : SlotDefinition) (c : String) (rt : Runtime)
    → IsIndexed type_of rt
    → slot_at c slot.key rt.store ≡ some slot
    → slot.auto_subscribe ≡ false
    → is_emptied c slot.key rt.store.slots ≡ true
    → does_match matches ≡ false
    → pending c rt.filters ≡ false
    → lookup c rt.filters.handed ≡ some []
    → let f = (reconcile_for_slot type_of matches slot c rt).0.filters in
      (lookup c f.active ≡ none) × (pending c f ≡ false) × (lookup c f.handed ≡ some [])
reconcile_for_slot-unflushed type_of matches slot c rt inv found local last off quiet told =
    let (k, subscribed, typed) = inv.keyed c slot.key slot found in
    let lacks : has slot.key (keys_of c rt.filters) ≡ false =
      (inv.filtered c slot.key slot found).1 ∙ local in
    let same = taken type_of matches slot c rt subscribed typed off found last lacks in
    rw same (ground (arith, lookup-put_filter c c none rt.filters.active, eq_iff c c), quiet, told)
