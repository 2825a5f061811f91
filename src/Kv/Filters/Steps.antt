-- ===== src/Kv/Filters/Steps.antt =====
-- src/kv.ts: what holds of the filters after every event.
use libcheloniajs.Base.{
  ℕ, zero, suc, ◌≡◌, refl, Bool, true, false, not, ◌&&◌, ◌||◌, List, [], ◌∷◌, ◌++◌, Option, none,
  some, String, str_eq, eq_iff, if◌then◌else◌, lookup, arith, lookup-insert, lookup-erase,
  Bool-cases, ◌⊎◌, inl, inr,
}
use libcheloniajs.Kv.Filters.{
  Filters, has, add, remove, is_empty, put_filter, queue_filter_flush, schedule_filter_retry,
  next_filter, flush_dirty_filters, resume_flush, add_all, retry_filters, FilterEvent, changed,
  dropped, cleaned, microtask, settled, timer, step, is_some, cleanup_filters,
}

has-append : (c d : String) (cs : List String) → has d (cs ++ c ∷ []) ≡ (str_eq c d || has d cs)
has-append c d [] = ground arith
has-append c d (x ∷ cs) = ground (arith, has-append c d cs)

pub has-add : (c d : String) (cs : List String) → has d (add c cs) ≡ (str_eq c d || has d cs)
unfolding add
has-add c d cs = elim (Bool-cases (has c cs)) [
  | inl there ↦ rw there (ground (arith, eq_iff c d, there))
  | inr new ↦ rw new (has-append c d cs)
]

pub has-remove :
    (c d : String) (cs : List String) → has d (remove c cs) ≡ (not (str_eq c d) && has d cs)
unfolding remove
has-remove c d [] = ground arith
has-remove c d (x ∷ cs) = ground (arith, has-remove c d cs, eq_iff x c, eq_iff x d, eq_iff c d)

pub has-add_all :
    (d : String) (ds cs : List String) → has d (add_all ds cs) ≡ (has d ds || has d cs)
has-add_all d [] cs = refl
has-add_all d (x ∷ ds) cs = ground (arith, has-add_all d ds (add x cs), has-add x d cs)

pub lookup-put_filter :
    (c d : String) (keys : Option (List String)) (m : List (String × List String))
    → lookup d (put_filter c keys m) ≡ (if str_eq c d then keys else lookup d m)
unfolding put_filter
lookup-put_filter c d none m = lookup-erase c d m
lookup-put_filter c d (some keys) m = lookup-insert c d keys m

-- The awaited `setFilter` is for the contract, and has failed.
abbrev pub fails : String → Option (String × Bool) → Bool
fails c none = false
fails c (some (d, dispatched)) = not dispatched && str_eq d c

abbrev pub is_awaited : Option (String × Bool) → Bool
is_awaited none = false
is_awaited (some w) = true

-- The contract's frame is still to come.
abbrev pub pending : String → Filters → Bool
pending c st = has c st.dirty || (has c st.retry || fails c st.awaited)

abbrev pub has_task : ℕ → Bool
has_task zero = false
has_task (suc n) = true

-- One flush runs at a time; a dirty contract has a flush that runs or a microtask that starts one;
-- a contract to be retried has a timer; and `setFilter` has been given the active filter of each
-- contract that is not exempt, unless its frame is still to come.
pub record FlushedBut (exempt : String → Bool) (st : Filters) : Type 0 where
  pub one : st.flush_in_flight ≡ is_awaited st.awaited
  pub woken : (is_empty st.dirty || (st.flush_in_flight || has_task st.microtasks)) ≡ true
  pub timed : (is_empty st.retry || st.retry_timer) ≡ true
  pub synced :
      (c : String) → ((exempt c || pending c st) ≡ true) ⊎ (lookup c st.handed ≡ lookup c st.active)

abbrev pub IsFlushed : Filters → Type 0
IsFlushed st = FlushedBut (λ c. false) st

pub FlushedBut-le :
    (exempt more : String → Bool) (st : Filters)
    → ((c : String) → exempt c ≡ true → more c ≡ true)
    → FlushedBut exempt st
    → FlushedBut more st
FlushedBut-le exempt more st le inv = record {
  one = inv.one;
  woken = inv.woken;
  timed = inv.timed;
  synced = λ c. ground (arith, inv.synced c, le c);
}

-- The contracts that are exempt after an event: one whose filter went without a flush, until its
-- filter changes again with one; and one without a filter that is released while its failed frame
-- waits to be retried.
abbrev pub exempt_after : FilterEvent → Filters → (String → Bool) → String → Bool
exempt_after (changed c keys) st exempt d = if str_eq c d then false else exempt d
exempt_after (dropped c) st exempt d = if str_eq c d then true else exempt d
exempt_after (cleaned c) st exempt d =
    if str_eq c d
    then not (is_some (lookup c st.active)) && (exempt d || has c st.retry)
    else exempt d
exempt_after (microtask b) st exempt d = exempt d
exempt_after (settled b) st exempt d = exempt d
exempt_after (timer b) st exempt d = exempt d

-- The head of the loop restores what does not hold of a contract whose `setFilter` has just
-- settled.
next_filter-IsFlushed :
    (exempt : String → Bool) (dispatched : Bool) (cs : List String) (st : Filters)
    → st.dirty ≡ cs
    → st.flush_in_flight ≡ true
    → (is_empty st.retry || st.retry_timer) ≡ true
    → ((c : String)
        → ((exempt c || (has c cs || has c st.retry)) ≡ true)
          ⊎ (lookup c st.handed ≡ lookup c st.active))
    → FlushedBut exempt (next_filter dispatched cs st)
unfolding next_filter
next_filter-IsFlushed exempt dispatched [] st e flight timed synced = record {
  one = refl;
  woken = ground (arith, e);
  timed = timed;
  synced = λ c. ground (arith, e, synced c);
}
next_filter-IsFlushed exempt dispatched (x ∷ cs) st e flight timed synced = record {
  one = ground (arith, flight);
  woken = ground (arith, flight);
  timed = timed;
  synced = λ c. ground (
    arith,
    synced c,
    has-remove x c (x ∷ cs),
    eq_iff x c,
    lookup-put_filter x c (lookup x st.active) st.handed,
  );
}

flush_dirty_filters-IsFlushed :
    (exempt : String → Bool) (dispatched : Bool) (st : Filters)
    → st.flush_in_flight ≡ is_awaited st.awaited
    → (is_empty st.retry || st.retry_timer) ≡ true
    → ((c : String)
        → ((exempt c || pending c st) ≡ true) ⊎ (lookup c st.handed ≡ lookup c st.active))
    → FlushedBut exempt (flush_dirty_filters dispatched st)
unfolding flush_dirty_filters
flush_dirty_filters-IsFlushed exempt dispatched st one timed synced =
    elim (Bool-cases st.flush_in_flight) [
      | inl flight ↦
          simp (flight, flush_dirty_filters)
            (record { one = one; woken = ground (arith, flight); timed = timed; synced = synced })
      | inr idle ↦
          simp (idle, flush_dirty_filters)
            (next_filter-IsFlushed exempt dispatched st.dirty (record st { flush_in_flight = true })
              refl refl timed
              (λ c. ground (arith, synced c, unawaited st.awaited c (ground (arith, one, idle)))))
    ]
  where
    unawaited : (o : Option (String × Bool)) (c : String) → is_awaited o ≡ false → fails c o ≡ false
    unawaited none c h = refl
    unawaited (some w) c h = cc

changed-IsFlushed :
    (exempt : String → Bool) (c : String) (keys : Option (List String)) (st : Filters)
    → FlushedBut exempt st
    → FlushedBut (exempt_after (changed c keys) st exempt) (step (changed c keys) st)
unfolding step queue_filter_flush
changed-IsFlushed exempt c keys st inv = record {
  one = inv.one;
  woken = ground (arith, inv.woken);
  timed = inv.timed;
  synced =
      λ d. ground (arith, inv.synced d, has-add c d st.dirty, lookup-put_filter c d keys st.active);
}

dropped-IsFlushed :
    (exempt : String → Bool) (c : String) (st : Filters)
    → FlushedBut exempt st
    → FlushedBut (exempt_after (dropped c) st exempt) (step (dropped c) st)
unfolding step
dropped-IsFlushed exempt c st inv = record {
  one = inv.one;
  woken = inv.woken;
  timed = inv.timed;
  synced = λ d. ground (arith, inv.synced d, lookup-put_filter c d none st.active);
}

is_empty-remove :
    (c : String) (cs : List String) → is_empty cs ≡ true → is_empty (remove c cs) ≡ true
unfolding remove
is_empty-remove c [] h = refl
is_empty-remove c (d ∷ cs) h = cc

cleaned-IsFlushed :
    (exempt : String → Bool) (c : String) (st : Filters)
    → FlushedBut exempt st
    → FlushedBut (exempt_after (cleaned c) st exempt) (step (cleaned c) st)
unfolding step cleanup_filters queue_filter_flush
cleaned-IsFlushed exempt c st inv = elim (Bool-cases (is_some (lookup c st.active))) [
  | inl there ↦
      simp (there, cleanup_filters)
        (record {
          one = inv.one;
          woken = ground (arith, inv.woken);
          timed = ground (arith, inv.timed, is_empty-remove c st.retry);
          synced = λ d. ground (
            arith,
            inv.synced d,
            there,
            eq_iff c d,
            has-add c d st.dirty,
            has-remove c d st.retry,
            lookup-erase c d st.active,
          );
        })
  | inr gone ↦
      simp (gone, cleanup_filters)
        (record {
          one = inv.one;
          woken = inv.woken;
          timed = ground (arith, inv.timed, is_empty-remove c st.retry);
          synced = λ d. ground (
            arith,
            inv.synced d,
            gone,
            none_there (lookup c st.active) gone,
            eq_iff c d,
            has-remove c d st.retry,
            lookup-erase c d st.active,
          );
        })
]
  where
    none_there : (o : Option (List String)) → is_some o ≡ false → o ≡ none
    none_there none h = refl
    none_there (some ks) h = cc

resume_flush-IsFlushed :
    (exempt : String → Bool) (dispatched succeeded : Bool) (c : String) (st : Filters)
    → st.awaited ≡ some (c, succeeded)
    → FlushedBut exempt st
    → FlushedBut exempt (resume_flush dispatched c succeeded st)
unfolding resume_flush schedule_filter_retry
resume_flush-IsFlushed exempt dispatched true c st waits inv =
    next_filter-IsFlushed exempt dispatched st.dirty st refl (ground (arith, inv.one, waits))
      inv.timed (λ d. ground (arith, inv.synced d, waits))
resume_flush-IsFlushed exempt dispatched false c st waits inv =
    next_filter-IsFlushed exempt dispatched st.dirty (schedule_filter_retry c st) refl
      (ground (arith, inv.one, waits)) (ground (arith, inv.timed))
      (λ d. ground (arith, inv.synced d, waits, has-add c d st.retry))

retry_filters-IsFlushed :
    (exempt : String → Bool) (dispatched : Bool) (st : Filters)
    → FlushedBut exempt st
    → FlushedBut exempt (retry_filters dispatched st)
unfolding retry_filters
retry_filters-IsFlushed exempt dispatched st inv = elim (Bool-cases (is_empty st.retry)) [
  | inl none_left ↦
      simp (none_left, retry_filters)
        (record {
          one = inv.one;
          woken = inv.woken;
          timed = ground (arith, none_left);
          synced = inv.synced;
        })
  | inr some_left ↦
      simp (some_left, retry_filters)
        (flush_dirty_filters-IsFlushed exempt dispatched
          (record st { retry_timer = false; dirty = add_all st.retry st.dirty; retry = [] }) inv.one
          refl (λ c. ground (arith, inv.synced c, has-add_all c st.retry st.dirty)))
]

microtask-IsFlushed :
    (exempt : String → Bool) (dispatched : Bool) (st : Filters)
    → FlushedBut exempt st
    → FlushedBut exempt (step (microtask dispatched) st)
unfolding step
microtask-IsFlushed exempt dispatched st inv = at_count st.microtasks
  where
    at_count :
        (n : ℕ)
        → FlushedBut exempt (elim n [
          | zero ↦ st
          | suc m ↦ flush_dirty_filters dispatched (record st { microtasks = m })
        ])
    at_count zero = inv
    at_count (suc m) =
        flush_dirty_filters-IsFlushed exempt dispatched (record st { microtasks = m }) inv.one
          inv.timed inv.synced

-- Every event keeps the invariant of the filters.
pub step-IsFlushed :
    (exempt : String → Bool) (e : FilterEvent) (st : Filters)
    → FlushedBut exempt st
    → FlushedBut (exempt_after e st exempt) (step e st)
unfolding step
step-IsFlushed exempt (changed c keys) st inv = changed-IsFlushed exempt c keys st inv
step-IsFlushed exempt (dropped c) st inv = dropped-IsFlushed exempt c st inv
step-IsFlushed exempt (cleaned c) st inv = cleaned-IsFlushed exempt c st inv
step-IsFlushed exempt (microtask dispatched) st inv = microtask-IsFlushed exempt dispatched st inv
step-IsFlushed exempt (settled dispatched) st inv = at_awaited st.awaited refl
  where
    at_awaited :
        (o : Option (String × Bool))
        → st.awaited ≡ o
        → FlushedBut exempt
            (elim o [ none ↦ st | some (c, succeeded) ↦ resume_flush dispatched c succeeded st ])
    at_awaited none waits = inv
    at_awaited (some (c, succeeded)) waits =
        resume_flush-IsFlushed exempt dispatched succeeded c st waits inv
step-IsFlushed exempt (timer dispatched) st inv = elim (Bool-cases st.retry_timer) [
  | inl set ↦ simp (set, step) (retry_filters-IsFlushed exempt dispatched st inv)
  | inr unset ↦ simp (unset, step) inv
]
