-- ===== src/Kv/Filters.antt =====
-- src/kv.ts: the flush of the filters that are dirty. The runtime's steps are events: a change of a
-- filter, a microtask that runs, a `setFilter` that settles, the timer of the retries. `handed` is
-- what the calls of `setFilter` that did not throw have been given, a call without a filter taking
-- one back; the selector answers silently without a pubsub client, and the client keeps the filter
-- and sends its frame when it is subscribed. Whether the next `setFilter` is dispatched, or throws,
-- is an argument of the event. `chelonia/reset`, which empties all of this, is no event.
pub mod Steps
pub mod Drain
pub mod Retry
use libcheloniajs.Base.{
  ℕ, zero, suc, ◌+◌, ◌-◌, Bool, true, false, not, ◌&&◌, ◌||◌, List, [], ◌∷◌, ◌++◌, Option, none,
  some, String, str_eq, ◌==◌, if◌then◌else◌, any, lookup, insert, erase,
}

-- `kvActiveFilters`, `kvFilterDirty`, `kvFilterRetry`, `kvFilterRetryTimer`, `kvFlushInFlight`; the
-- microtasks that `queueFilterFlush` has queued; the `setFilter` that is awaited, with whether it
-- was dispatched.
pub record Filters : Type 0 where
  pub active : List (String × List String)
  pub dirty : List String
  pub retry : List String
  pub retry_timer : Bool
  pub flush_in_flight : Bool
  pub microtasks : ℕ
  pub awaited : Option (String × Bool)
  pub handed : List (String × List String)

abbrev pub has : String → List String → Bool
has c cs = any (λ d. str_eq d c) cs

-- `Set.add` and `Set.delete`.
unfoldable pub add : String → List String → List String
add c cs = if has c cs then cs else cs ++ c ∷ []

unfoldable pub remove : String → List String → List String
remove c [] = []
remove c (d ∷ cs) = let rest = remove c cs in if str_eq d c then rest else d ∷ rest

abbrev pub is_empty : List String → Bool
is_empty [] = true
is_empty (c ∷ cs) = false

-- A key of `kvActiveFilters` that is set, or deleted where there is none.
unfoldable pub put_filter :
    String → Option (List String) → List (String × List String) → List (String × List String)
put_filter c none m = erase c m
put_filter c (some keys) m = insert c keys m

unfoldable pub queue_filter_flush : String → Filters → Filters
queue_filter_flush contract_id st = record st {
  dirty = add contract_id st.dirty;
  microtasks = if is_empty st.dirty then suc st.microtasks else st.microtasks;
}

unfoldable pub schedule_filter_retry : String → Filters → Filters
schedule_filter_retry contract_id st = record st {
  retry = add contract_id st.retry;
  retry_timer = is_empty st.retry || st.retry_timer;
}

-- The head of the loop of `flushDirtyFilters`, up to the await or to its end.
unfoldable pub next_filter : Bool → List String → Filters → Filters
next_filter dispatched [] st = record st { flush_in_flight = false; awaited = none }
next_filter dispatched (c ∷ cs) st = record st {
  dirty = remove c (c ∷ cs);
  awaited = some (c, dispatched);
  handed = if dispatched then put_filter c (lookup c st.active) st.handed else st.handed;
}

unfoldable pub flush_dirty_filters : Bool → Filters → Filters
flush_dirty_filters dispatched st =
    if st.flush_in_flight
    then st
    else next_filter dispatched st.dirty (record st { flush_in_flight = true })

-- The loop behind its await.
unfoldable pub resume_flush : Bool → String → Bool → Filters → Filters
resume_flush dispatched contract_id succeeded st =
    let st' = if succeeded then st else schedule_filter_retry contract_id st in
    next_filter dispatched st'.dirty st'

abbrev pub add_all : List String → List String → List String
add_all [] cs = cs
add_all (d ∷ ds) cs = add_all ds (add d cs)

-- The callback of the timer.
unfoldable pub retry_filters : Bool → Filters → Filters
retry_filters dispatched st =
    if is_empty st.retry
    then record st { retry_timer = false }
    else flush_dirty_filters dispatched
        (record st { retry_timer = false; dirty = add_all st.retry st.dirty; retry = [] })

abbrev pub is_some {ℓ} : {A : Type ℓ} → Option A → Bool
is_some none = false
is_some (some a) = true

-- What `_cleanupContractRuntime` does to the filters.
unfoldable pub cleanup_filters : String → Filters → Filters
cleanup_filters c f =
    let queued = if is_some (lookup c f.active) then queue_filter_flush c f else f in
    record queued { active = erase c queued.active; retry = remove c queued.retry }

pub data FilterEvent : Type 0 where
  -- The keys of a contract's filter change, and its flush is queued.
  changed : String → Option (List String) → FilterEvent
  -- A contract's last slot goes, and its filter with it, without a flush.
  dropped : String → FilterEvent
  -- A contract is released.
  cleaned : String → FilterEvent
  microtask : Bool → FilterEvent
  settled : Bool → FilterEvent
  timer : Bool → FilterEvent

-- An event that cannot happen changes nothing.
unfoldable pub step : FilterEvent → Filters → Filters
step (changed c keys) st = queue_filter_flush c (record st { active = put_filter c keys st.active })
step (dropped c) st = record st { active = put_filter c none st.active }
step (cleaned c) st = cleanup_filters c st
step (microtask dispatched) st = elim st.microtasks [
  | zero ↦ st
  | suc n ↦ flush_dirty_filters dispatched (record st { microtasks = n })
]
step (settled dispatched) st = elim st.awaited [
  | none ↦ st
  | some (c, succeeded) ↦ resume_flush dispatched c succeeded st
]
step (timer dispatched) st = if st.retry_timer then retry_filters dispatched st else st

abbrev pub run : List FilterEvent → Filters → Filters
run [] st = st
run (e ∷ es) st = run es (step e st)
