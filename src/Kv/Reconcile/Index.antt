-- ===== src/Kv/Reconcile/Index.antt =====
-- src/kv.ts: the index of the active slots and the filters, which a reconciliation keeps in step.
use libcheloniajs.Base.{
  ◌≡◌, Bool, true, ◌&&◌, Option, none, some, String, str_eq, eq_iff, if◌then◌else◌, any, lookup,
  arith, Bool-cases, inl, inr,
}
use libcheloniajs.Base.Throws.{Outcome}
use libcheloniajs.Journal.Redact.{Thrown}
use libcheloniajs.Kv.{SlotDefinition}
use libcheloniajs.Kv.Mirror.{find_in, slot_at}
use libcheloniajs.Kv.Filters.{has, is_some}
use libcheloniajs.Kv.Reconcile.{
  Runtime, delete_in, is_emptied, activate, unindex, drop_entry, deactivate, does_match, is_type,
  reconcile_for_slot,
}
use libcheloniajs.Kv.Reconcile.Dicts.{find_in-set_in, find_in-delete_in, emptied-find_in}
use libcheloniajs.Kv.Reconcile.Active.{
  keys_of, claim_filter-has, claim_filter-is_some, release_filter-has, release_filter-is_some,
}

-- Each active slot stands under its key, for a contract that is subscribed and of its type, whose
-- filter holds the key exactly when the slot subscribes by itself; and a filter has no other keys.
pub record IsIndexed (type_of : String → Option String) (rt : Runtime) : Type 0 where
  pub keyed :
      (c k : String) (s : SlotDefinition)
      → slot_at c k rt.store ≡ some s
      → (s.key ≡ k)
        × (any (λ d. str_eq d c) rt.store.subscriptions ≡ true)
        × (is_type s.contract_type (type_of c) ≡ true)
  pub filtered :
      (c k : String) (s : SlotDefinition)
      → slot_at c k rt.store ≡ some s
      → (is_some (lookup c rt.filters.active) ≡ true)
        × (has k (keys_of c rt.filters) ≡ s.auto_subscribe)
  pub owned :
      (c k : String) → has k (keys_of c rt.filters) ≡ true → is_some (slot_at c k rt.store) ≡ true

module _ (type_of : String → Option String) (slot : SlotDefinition) (c : String)
    (rt : Runtime) where
  activate-IsIndexed :
      any (λ d. str_eq d c) rt.store.subscriptions ≡ true
      → is_type slot.contract_type (type_of c) ≡ true
      → IsIndexed type_of rt
      → IsIndexed type_of (activate slot c rt).0
  unfolding activate
  activate-IsIndexed subscribed typed inv = record {
    keyed = λ d k s found. ground (
      arith,
      find_in-set_in c slot.key d k slot rt.store.slots,
      eq_iff c d,
      eq_iff slot.key k,
      found,
      inv.keyed d k s,
      subscribed,
      typed,
    );
    filtered = λ d k s found. ground (
      arith,
      find_in-set_in c slot.key d k slot rt.store.slots,
      eq_iff c d,
      eq_iff slot.key k,
      found,
      inv.filtered d k s,
      claim_filter-has slot c d k rt.filters,
      claim_filter-is_some slot c d rt.filters,
    );
    owned = λ d k held. ground (
      arith,
      find_in-set_in c slot.key d k slot rt.store.slots,
      eq_iff c d,
      eq_iff slot.key k,
      held,
      inv.owned d k,
      claim_filter-has slot c d k rt.filters,
    );
  }

  unindex-IsIndexed : IsIndexed type_of rt → IsIndexed type_of (unindex slot c rt)
  unindex-IsIndexed inv = elim (Bool-cases (is_some (slot_at c slot.key rt.store))) [
    | inr inactive ↦ simp inactive inv
    | inl active ↦ simp active (record {
      keyed = λ d k s found.
          ground (arith, gone d k, eq_iff c d, eq_iff slot.key k, found, inv.keyed d k s);
      filtered = λ d k s found. ground (
        arith,
        gone d k,
        eq_iff c d,
        eq_iff slot.key k,
        found,
        inv.filtered d k s,
        emptied-find_in c slot.key k rt.store.slots,
        release_filter-has slot c d k emptied rt.filters,
        release_filter-is_some slot c d emptied rt.filters,
      );
      owned = λ d k held. ground (
        arith,
        gone d k,
        eq_iff c d,
        eq_iff slot.key k,
        held,
        inv.owned d k,
        release_filter-has slot c d k emptied rt.filters,
      );
    })
  ]
    where
      emptied : Bool
      emptied = is_emptied c slot.key rt.store.slots

      gone :
          (d k : String)
          → find_in d k (delete_in c slot.key rt.store.slots)
            ≡ (if str_eq c d && str_eq slot.key k then none else find_in d k rt.store.slots)
      gone d k = find_in-delete_in c slot.key d k rt.store.slots

  deactivate-IsIndexed : IsIndexed type_of rt → IsIndexed type_of (deactivate slot c rt)
  unfolding deactivate drop_entry
  deactivate-IsIndexed inv =
      let inv' = unindex-IsIndexed inv in
      record { keyed = inv'.keyed; filtered = inv'.filtered; owned = inv'.owned }

-- A reconciliation keeps the index and the filters in step, whatever the slot's `match` answers:
-- each active slot stands under its key, for a contract that is subscribed and of its type, whose
-- filter holds the key exactly when the slot subscribes by itself, and a filter has no other keys.
pub reconcile_for_slot-IsIndexed :
    (type_of : String → Option String) (matches : Option (Outcome Thrown Bool))
    (slot : SlotDefinition) (c : String) (rt : Runtime)
    → IsIndexed type_of rt
    → IsIndexed type_of (reconcile_for_slot type_of matches slot c rt).0
unfolding reconcile_for_slot
reconcile_for_slot-IsIndexed type_of matches slot c rt inv =
    elim (Bool-cases (any (λ d. str_eq d c) rt.store.subscriptions)) [
      | inr unsubscribed ↦ simp (unsubscribed, reconcile_for_slot) inv
      | inl subscribed ↦ elim (Bool-cases (is_type slot.contract_type (type_of c))) [
        | inr foreign ↦ simp (subscribed, foreign, reconcile_for_slot) inv
        | inl typed ↦ elim (Bool-cases (does_match matches)) [
          | inl on ↦
              simp (subscribed, typed, on, reconcile_for_slot)
                (activate-IsIndexed type_of slot c rt subscribed typed inv)
          | inr off ↦
              simp (subscribed, typed, off, reconcile_for_slot)
                (deactivate-IsIndexed type_of slot c rt inv)
        ]
      ]
    ]
