-- ===== src/Kv/Filters/Retry.antt =====
-- src/kv.ts: what becomes of the filters whose `setFilter` has failed.
use libcheloniajs.Base.{
  ℕ, zero, suc, ◌+◌, ◌≤◌, ◌<◌, ◌≡◌, refl, Bool, true, false, ◌||◌, List, [], ◌∷◌, Option, none,
  some, String, eq_iff, lookup, arith, length, length-append, Bool-cases, ◌⊎◌, inl, inr,
}
use libcheloniajs.Kv.Filters.{
  Filters, has, add, is_empty, next_filter, flush_dirty_filters, resume_flush, add_all,
  retry_filters, FilterEvent, settled, timer, step, run,
}
use libcheloniajs.Kv.Filters.Steps.{FlushedBut, is_awaited, fails}
use libcheloniajs.Kv.Filters.Drain.{
  exempt_in, run-IsFlushed, IsIdle, ended, fewer, run-settle_all-IsIdle, next_filter-IsNext,
  settled-IsNext,
}

-- Nothing is to be retried, and what is awaited has not failed.
record IsCalm (st : Filters) : Type 0 where
  retried : st.retry ≡ []
  dispatched : (c : String) → fails c st.awaited ≡ false

next_filter-IsCalm :
    (cs : List String) (st : Filters) → st.retry ≡ [] → IsCalm (next_filter true cs st)
unfolding next_filter
next_filter-IsCalm [] st none_left = record { retried = none_left; dispatched = λ c. refl }
next_filter-IsCalm (d ∷ cs) st none_left = record { retried = none_left; dispatched = λ c. refl }

settled-IsCalm : (st : Filters) → IsCalm st → IsCalm (step (settled true) st)
unfolding step resume_flush
settled-IsCalm st calm = at_awaited st.awaited refl
  where
    at_awaited :
        (o : Option (String × Bool))
        → st.awaited ≡ o
        → IsCalm (elim o [ none ↦ st | some (c, succeeded) ↦ resume_flush true c succeeded st ])
    at_awaited none waits = calm
    at_awaited (some (c, true)) waits = next_filter-IsCalm st.dirty st calm.retried
    at_awaited (some (c, false)) waits =
        let bad : true ≡ false = ground (arith, waits, eq_iff c c, calm.dispatched c) in cc

abbrev pub all_dispatched : ℕ → List FilterEvent
all_dispatched zero = []
all_dispatched (suc n) = settled true ∷ all_dispatched n

IsCalm-ends :
    (n : ℕ) (st : Filters)
    → IsCalm st
    → (IsIdle st)
      ⊎ ((st.flush_in_flight ≡ true) × (is_awaited st.awaited ≡ true) × (length st.dirty < n))
    → IsCalm (run (all_dispatched n) st) × IsIdle (run (all_dispatched n) st)
IsCalm-ends zero st calm (inl idle) = (calm, idle)
IsCalm-ends zero st calm (inr (flight, waits, less)) = absurd (omega (arith, less))
IsCalm-ends (suc n) st calm (inl idle) =
    IsCalm-ends n (step (settled true) st) (settled-IsCalm st calm)
      (inl (run-settle_all-IsIdle (true ∷ []) st idle))
IsCalm-ends (suc n) st calm (inr (flight, waits, less)) =
    elim (settled-IsNext true st flight waits) [
      | ended idle ↦ IsCalm-ends n (step (settled true) st) (settled-IsCalm st calm) (inl idle)
      | fewer fewer_left flight' waits' ↦
          IsCalm-ends n (step (settled true) st) (settled-IsCalm st calm)
            (inr (flight', waits', omega (arith, less, fewer_left)))
    ]

length-add : (c : String) (cs : List String) → length (add c cs) ≤ suc (length cs)
unfolding add
length-add c cs = elim (Bool-cases (has c cs)) [
  | inl there ↦ rw there (omega arith)
  | inr new ↦ rw (new, length-append cs (c ∷ [])) (omega arith)
]

length-add_all : (ds cs : List String) → length (add_all ds cs) ≤ length ds + length cs
length-add_all [] cs = omega arith
length-add_all (d ∷ ds) cs = omega (arith, length-add_all ds (add d cs), length-add d cs)

-- A calm state that is idle, or has fewer dirty contracts than the bound.
abbrev Begun : ℕ → Filters → Type 0
Begun n st =
    IsCalm st
    × (IsIdle st
        ⊎ ((st.flush_in_flight ≡ true) × (is_awaited st.awaited ≡ true) × (length st.dirty < n)))

retried-Begun :
    (n : ℕ) (st : Filters)
    → IsIdle st
    → length st.retry ≤ n
    → Begun n (
        flush_dirty_filters true
          (record st { retry_timer = false; dirty = add_all st.retry st.dirty; retry = [] }))
unfolding flush_dirty_filters
retried-Begun n st idle enough =
    let cs = add_all st.retry st.dirty in
    let st' : Filters = record st {
      retry_timer = false;
      dirty = cs;
      retry = [];
      flush_in_flight = true;
    } in
    let bound = length-add_all st.retry st.dirty in
    let none_dirty : length st.dirty ≡ 0 = rw idle.clean in
    simp (idle.landed, flush_dirty_filters)
      (
        next_filter-IsCalm cs st' refl,
        elim (next_filter-IsNext true cs st' refl refl) [
          | ended ends ↦ inl ends
          | fewer less flight waits ↦
              inr (flight, waits, omega (arith, less, bound, none_dirty, enough))
        ],
      )

timer-Begun :
    (n : ℕ) (st : Filters)
    → IsIdle st
    → (is_empty st.retry || st.retry_timer) ≡ true
    → length st.retry ≤ n
    → Begun n (step (timer true) st)
unfolding step retry_filters
timer-Begun n st idle timed enough = elim (Bool-cases (is_empty st.retry)) [
  | inl nothing ↦
      let settled_already : Begun n (record st { retry_timer = false }) =
        (unset_timer (calm nothing), inl idle') in
      elim (Bool-cases st.retry_timer) [
        | inl set ↦ simp (set, nothing, step, retry_filters) settled_already
        | inr unset ↦ simp (unset, step) (calm nothing, inl idle)
      ]
  | inr some_left ↦
      let set : st.retry_timer ≡ true = ground (arith, timed, some_left) in
      simp (set, some_left, step, retry_filters) (retried-Begun n st idle enough)
]
  where
    idle' : IsIdle (record st { retry_timer = false })
    idle' = record { clean = idle.clean; unawaited = idle.unawaited; landed = idle.landed }

    unset_timer : IsCalm st → IsCalm (record st { retry_timer = false })
    unset_timer k = record { retried = k.retried; dispatched = k.dispatched }

    is_empty-eq : (cs : List String) → is_empty cs ≡ true → cs ≡ []
    is_empty-eq [] h = refl
    is_empty-eq (c ∷ cs) h = cc

    calm : is_empty st.retry ≡ true → IsCalm st
    calm h = record { retried = is_empty-eq st.retry h; dispatched = λ c. rw idle.unawaited }

exempt_in-all_dispatched :
    (n : ℕ) (exempt : String → Bool) (st : Filters) (c : String)
    → exempt_in (all_dispatched n) st exempt c ≡ exempt c
exempt_in-all_dispatched zero exempt st c = refl
exempt_in-all_dispatched (suc n) exempt st c =
    exempt_in-all_dispatched n exempt (step (settled true) st) c

-- From a state that keeps the invariant of the filters, where no flush runs and nothing is dirty,
-- the failed frames are sent again: the timer's flush, with every `setFilter` dispatched from
-- then on, ends when as many of them have settled as contracts were to be retried, and then
-- `setFilter` has been given the active filter of every contract that is not exempt.
pub timer-converges :
    (exempt : String → Bool) (n : ℕ) (st : Filters)
    → FlushedBut exempt st
    → IsIdle st
    → length st.retry ≤ n
    → let st' = run (timer true ∷ all_dispatched n) st in
      IsIdle st' × ((c : String) → (exempt c ≡ true) ⊎ (lookup c st'.handed ≡ lookup c st'.active))
timer-converges exempt n st inv idle enough =
    let (calm, begun) = timer-Begun n st idle inv.timed enough in
    let (calm', idle') = IsCalm-ends n (step (timer true) st) calm begun in
    let inv' = run-IsFlushed exempt (timer true ∷ all_dispatched n) st inv in
    (
      idle',
      λ c. ground (
        arith,
        inv'.synced c,
        exempt_in-all_dispatched n exempt (step (timer true) st) c,
        idle'.clean,
        calm'.retried,
        calm'.dispatched c,
      ),
    )
