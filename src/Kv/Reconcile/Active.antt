-- ===== src/Kv/Reconcile/Active.antt =====
-- src/kv.ts: the active filters after a slot has joined or left them.
use libcheloniajs.Base.{
  ◌≡◌, ◌∙◌, Bool, true, false, ◌&&◌, ◌||◌, List, none, some, String, str_eq, eq_iff, if◌then◌else◌,
  lookup, arith, Option-cases, inl, inr,
}
use libcheloniajs.Kv.{SlotDefinition}
use libcheloniajs.Kv.Filters.{Filters, has, add, remove, queue_filter_flush, is_some}
use libcheloniajs.Kv.Filters.Steps.{has-add, has-remove, lookup-put_filter}
use libcheloniajs.Kv.Reconcile.{or_nil, claim_filter, unfilter, release_filter}

-- The keys of a contract's filter.
abbrev pub keys_of : String → Filters → List String
keys_of c f = or_nil (lookup c f.active)

pub claim_filter-has :
    (slot : SlotDefinition) (c c' k : String) (f : Filters)
    → has k (keys_of c' (claim_filter slot c f))
      ≡ (if str_eq c c' && str_eq slot.key k then slot.auto_subscribe else has k (keys_of c' f))
unfolding claim_filter queue_filter_flush
claim_filter-has slot c c' k f =
    let keys = keys_of c f in
    ground (
      arith,
      eq_iff c c',
      eq_iff slot.key k,
      lookup-put_filter c c' (some keys) f.active,
      lookup-put_filter c c' (some (add slot.key keys)) f.active,
      lookup-put_filter c c' (some (remove slot.key keys)) f.active,
      has-add slot.key k keys,
      has-remove slot.key k keys,
    )

pub claim_filter-is_some :
    (slot : SlotDefinition) (c c' : String) (f : Filters)
    → is_some (lookup c' (claim_filter slot c f).active)
      ≡ (str_eq c c' || is_some (lookup c' f.active))
unfolding claim_filter queue_filter_flush
claim_filter-is_some slot c c' f =
    let keys = keys_of c f in
    ground (
      arith,
      eq_iff c c',
      lookup-put_filter c c' (some keys) f.active,
      lookup-put_filter c c' (some (add slot.key keys)) f.active,
      lookup-put_filter c c' (some (remove slot.key keys)) f.active,
    )

unfilter-has :
    (slot : SlotDefinition) (c c' k : String) (f : Filters)
    → has k (keys_of c' (unfilter slot c f))
      ≡ (if str_eq c c' && str_eq slot.key k then false else has k (keys_of c' f))
unfolding unfilter queue_filter_flush
unfilter-has slot c c' k f =
    let keys = keys_of c f in
    ground (
      arith,
      eq_iff c c',
      eq_iff slot.key k,
      lookup-put_filter c c' (some (remove slot.key keys)) f.active,
      has-remove slot.key k keys,
    )

unfilter-is_some :
    (slot : SlotDefinition) (c c' : String) (f : Filters)
    → is_some (lookup c' (unfilter slot c f).active) ≡ is_some (lookup c' f.active)
unfolding unfilter queue_filter_flush
unfilter-is_some slot c c' f = elim (Option-cases (lookup c f.active)) [
  | inl gone ↦ ground (arith, gone)
  | inr (keys, found) ↦
      ground
        (arith, found, eq_iff c c', lookup-put_filter c c' (some (remove slot.key keys)) f.active)
]

pub release_filter-has :
    (slot : SlotDefinition) (c c' k : String) (emptied : Bool) (f : Filters)
    → has k (keys_of c' (release_filter slot c emptied f))
      ≡ (if str_eq c c' && (emptied || str_eq slot.key k) then false else has k (keys_of c' f))
unfolding release_filter
release_filter-has slot c c' k true f = ground (
  arith,
  eq_iff c c',
  lookup-put_filter c c' none (unfilter slot c f).active,
  unfilter-has slot c c' k f,
)
release_filter-has slot c c' k false f = unfilter-has slot c c' k f

pub release_filter-is_some :
    (slot : SlotDefinition) (c c' : String) (emptied : Bool) (f : Filters)
    → is_some (lookup c' (release_filter slot c emptied f).active)
      ≡ (if str_eq c c' && emptied then false else is_some (lookup c' f.active))
unfolding release_filter
release_filter-is_some slot c c' true f = ground (
  arith,
  eq_iff c c',
  lookup-put_filter c c' none (unfilter slot c f).active,
  unfilter-is_some slot c c' f,
)
release_filter-is_some slot c c' false f = unfilter-is_some slot c c' f ∙ ground arith
