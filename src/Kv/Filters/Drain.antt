-- ===== src/Kv/Filters/Drain.antt =====
-- src/kv.ts: the filters after any events, and the end of the flush.
use libcheloniajs.Base.{
  ◌≤◌, ◌<◌, ◌≡◌, refl, Bool, true, false, List, [], ◌∷◌, Option, none, some, String, eq_iff, arith,
  length, inr,
}
use libcheloniajs.Kv.Filters.{
  Filters, remove, schedule_filter_retry, next_filter, resume_flush, FilterEvent, settled, step,
  run,
}
use libcheloniajs.Kv.Filters.Steps.{IsFlushed, FlushedBut, exempt_after, is_awaited, step-IsFlushed}

abbrev pub no_filters : Filters
no_filters = record {
  active = [];
  dirty = [];
  retry = [];
  retry_timer = false;
  flush_in_flight = false;
  microtasks = 0;
  awaited = none;
  handed = [];
}

-- The contracts that are exempt after some events.
abbrev pub exempt_in : List FilterEvent → Filters → (String → Bool) → String → Bool
exempt_in [] st exempt = exempt
exempt_in (e ∷ es) st exempt = exempt_in es (step e st) (exempt_after e st exempt)

pub run-IsFlushed :
    (exempt : String → Bool) (es : List FilterEvent) (st : Filters)
    → FlushedBut exempt st
    → FlushedBut (exempt_in es st exempt) (run es st)
run-IsFlushed exempt [] st inv = inv
run-IsFlushed exempt (e ∷ es) st inv =
    run-IsFlushed (exempt_after e st exempt) es (step e st) (step-IsFlushed exempt e st inv)

no_filters-IsFlushed : IsFlushed no_filters
no_filters-IsFlushed = record { one = refl; woken = refl; timed = refl; synced = λ c. inr refl }

-- Without filters at first, after any of the events: at most one flush runs; a dirty contract has
-- a flush that runs or a microtask that will start one, and one to be retried a timer; and
-- `setFilter` has been given the active filter of every contract, unless its frame is still to
-- come or the contract is exempt, that is, its filter was dropped without a flush and has not
-- changed with one since, or it had no filter and a failed frame to be retried when it was
-- released.
pub run-no_filters-IsFlushed :
    (es : List FilterEvent) → FlushedBut (exempt_in es no_filters (λ c. false)) (run es no_filters)
run-no_filters-IsFlushed es = run-IsFlushed (λ c. false) es no_filters no_filters-IsFlushed

length-remove : (c : String) (cs : List String) → length (remove c cs) ≤ length cs
unfolding remove
length-remove c [] = omega arith
length-remove c (d ∷ cs) = ground (arith, length-remove c cs)

length-remove_head : (c : String) (cs : List String) → length (remove c (c ∷ cs)) ≤ length cs
unfolding remove
length-remove_head c cs = ground (arith, eq_iff c c, length-remove c cs)

abbrev pub settle_all : List Bool → List FilterEvent
settle_all [] = []
settle_all (d ∷ ds) = settled d ∷ settle_all ds

-- No flush runs, and nothing is dirty.
pub record IsIdle (st : Filters) : Type 0 where
  pub clean : st.dirty ≡ []
  pub unawaited : st.awaited ≡ none
  pub landed : st.flush_in_flight ≡ false

pub run-settle_all-IsIdle :
    (ds : List Bool) (st : Filters) → IsIdle st → IsIdle (run (settle_all ds) st)
unfolding step
run-settle_all-IsIdle [] st idle = idle
run-settle_all-IsIdle (d ∷ ds) st idle = run-settle_all-IsIdle ds (step (settled d) st) (record {
  clean = ground (arith, idle.clean, idle.unawaited);
  unawaited = ground (arith, idle.unawaited);
  landed = ground (arith, idle.landed, idle.unawaited);
})

-- What the head of the loop leaves: an idle flush, or one contract less.
pub data IsNext (cs : List String) (st : Filters) : Type 0 where
  ended : IsIdle st → IsNext cs st
  fewer :
      length st.dirty < length cs
      → st.flush_in_flight ≡ true
      → is_awaited st.awaited ≡ true
      → IsNext cs st

pub next_filter-IsNext :
    (d : Bool) (cs : List String) (st : Filters)
    → st.dirty ≡ cs
    → st.flush_in_flight ≡ true
    → IsNext cs (next_filter d cs st)
unfolding next_filter
next_filter-IsNext d [] st e flight = ended (record { clean = e; unawaited = refl; landed = refl })
next_filter-IsNext d (c ∷ cs) st e flight =
    fewer (omega (arith, length-remove_head c cs)) flight refl

pub settled-IsNext :
    (d : Bool) (st : Filters)
    → st.flush_in_flight ≡ true
    → is_awaited st.awaited ≡ true
    → IsNext st.dirty (step (settled d) st)
unfolding step resume_flush schedule_filter_retry
settled-IsNext d st flight waits = at_awaited st.awaited waits
  where
    resumed : (c : String) (succeeded : Bool) → IsNext st.dirty (resume_flush d c succeeded st)
    resumed c true = next_filter-IsNext d st.dirty st refl flight
    resumed c false = next_filter-IsNext d st.dirty (schedule_filter_retry c st) refl flight

    at_awaited :
        (o : Option (String × Bool))
        → is_awaited o ≡ true
        → IsNext st.dirty
            (elim o [ none ↦ st | some (c, succeeded) ↦ resume_flush d c succeeded st ])
    at_awaited none h = cc
    at_awaited (some (c, succeeded)) h = resumed c succeeded

-- A flush that awaits a `setFilter` ends when as many of them have settled as contracts are dirty,
-- and one more, whether they fail or not, if nothing else happens meanwhile: then nothing is
-- dirty, and no flush runs.
pub run-settle_all-ends :
    (ds : List Bool) (st : Filters)
    → st.flush_in_flight ≡ true
    → is_awaited st.awaited ≡ true
    → length st.dirty < length ds
    → IsIdle (run (settle_all ds) st)
run-settle_all-ends [] st flight waits more = absurd (omega (arith, more))
run-settle_all-ends (d ∷ ds) st flight waits more = elim (settled-IsNext d st flight waits) [
  | ended idle ↦ run-settle_all-IsIdle ds (step (settled d) st) idle
  | fewer less flight' waits' ↦
      run-settle_all-ends ds (step (settled d) st) flight' waits' (omega (arith, less, more))
]
