-- ===== src/Reingest/Waiting.antt =====
-- src/internals.ts: a message that waits for its gap to be filled, while others are checked,
-- heights are recorded and the timers of re-syncs end.
use libcheloniajs.Base.Throws.{Outcome, ok, throw}
use libcheloniajs.Base.{
  ℕ, ◌+◌, ◌<◌, ◌≡◌, ◌≢◌, refl, Bool, true, ◌&&◌, ◌||◌, List, [], ◌∷◌, ◌++◌, some, String, str_eq,
  ◌==◌, any, eq_iff, ==_iff, arith, lookup, insert, Option-cases, inl, inr,
}
use libcheloniajs.Reingest.{
  Trackers, Note, added, duplicate, TrackerError, unrecoverable, Entry, has_hash, delete_hash,
  keep_above, note_future_event, note_reingest_success,
}
use libcheloniajs.Reingest.Laws.{
  entries, entries-note_future_event, entries-note_reingest_success, entries-prune_stale_entries,
}
use libcheloniajs.Reingest.Ordering.{
  Message, State, reprocess_debounced, debounce_fires, after_note, in_order, check_height,
  check_message_ordering,
}

-- The contract's height, which the caller records when a message has been processed.
abbrev pub record_height : String → ℕ → State → State
record_height c h st = record st { heights = insert c h st.heights }

pub data OrderingStep : Type 0 where
  checked : Bool → Message → OrderingStep
  recorded : String → ℕ → OrderingStep
  fired : String → OrderingStep

abbrev pub order_step : OrderingStep → State → State
order_step (checked strict m) st = (check_message_ordering strict m st).0
order_step (recorded c h) st = record_height c h st
order_step (fired c) st = debounce_fires c st

abbrev pub order_steps : List OrderingStep → State → State
order_steps [] st = st
order_steps (e ∷ es) st = order_steps es (order_step e st)

-- The contract's latest height is known, and more than one below `h`.
abbrev pub GapOpen : String → ℕ → State → Type 0
GapOpen c h st = (l : ℕ) × (lookup c st.heights ≡ some l) × (l + 1 < h)

abbrev pub IsOther : String → String → OrderingStep → Type 0
IsOther c hash (checked strict m) = m.contract_id ≡ c → m.hash ≢ hash
IsOther c hash (recorded d h) = Unit {0}
IsOther c hash (fired d) = Unit {0}

-- No step checks the message, and none fills the gap below it.
abbrev pub Unfilled : String → String → ℕ → List OrderingStep → State → Type 0
Unfilled c hash h [] st = Unit {0}
Unfilled c hash h (e ∷ es) st =
    IsOther c hash e × GapOpen c h (order_step e st) × Unfilled c hash h es (order_step e st)

-- The pending entry of the hash and the height.
unfoldable pub waits : String → ℕ → List Entry → Bool
waits hash h s = any (λ e. str_eq e.hash hash && (e.height == h)) s

pub waits-has_hash :
    (hash : String) (h : ℕ) (s : List Entry) → waits hash h s ≡ true → has_hash hash s ≡ true
unfolding waits has_hash
waits-has_hash hash h [] w = cc
waits-has_hash hash h (e ∷ s) w = ground (arith, waits-has_hash hash h s)

pub waits-concat :
    (hash : String) (h : ℕ) (s : List Entry) (e : Entry)
    → waits hash h (s ++ e ∷ []) ≡ (waits hash h s || (str_eq e.hash hash && (e.height == h)))
unfolding waits
waits-concat hash h [] e = ground arith
waits-concat hash h (x ∷ s) e = ground (arith, waits-concat hash h s e)

waits-delete_hash :
    (k hash : String) (h : ℕ) (s : List Entry)
    → k ≢ hash
    → waits hash h (delete_hash k s) ≡ waits hash h s
unfolding waits delete_hash
waits-delete_hash k hash h [] other = refl
waits-delete_hash k hash h (x ∷ s) other =
    ground (arith, waits-delete_hash k hash h s, eq_iff x.hash k, eq_iff x.hash hash)

waits-keep_above :
    (n : ℕ) (hash : String) (h : ℕ) (s : List Entry)
    → n < h
    → waits hash h (keep_above n s) ≡ waits hash h s
unfolding waits keep_above
waits-keep_above n hash h [] lt = refl
waits-keep_above n hash h (x ∷ s) lt =
    ground (arith, waits-keep_above n hash h s, ==_iff x.height h)

pub trackers-after_note :
    (c : String) (st : State) (r : Trackers × Outcome TrackerError Note)
    → (after_note c st r).0.trackers ≡ r.0
unfolding after_note reprocess_debounced
trackers-after_note c st (ts, ok added) = refl
trackers-after_note c st (ts, ok duplicate) = refl
trackers-after_note c st (ts, throw unrecoverable) = refl

checked-waits :
    (strict : Bool) (m : Message) (c hash : String) (h : ℕ) (st : State)
    → GapOpen c h st
    → (m.contract_id ≡ c → m.hash ≢ hash)
    → waits hash h (entries c st.trackers) ≡ true
    → waits hash h (entries c (check_message_ordering strict m st).0.trackers) ≡ true
unfolding check_message_ordering
checked-waits strict m c hash h st (l, known, gap) other w = elim (Option-cases m.height) [
  | inl e ↦ rw (e, check_message_ordering) w
  | inr (n, e) ↦ rw (e, check_message_ordering) (at_height n)
]
  where
    at_height : (n : ℕ) → waits hash h (entries c (check_height strict m n st).0.trackers) ≡ true
    at_height n =
        unfold check_height in_order in
        ground (
          arith,
          known,
          gap,
          other,
          w,
          eq_iff m.contract_id c,
          trackers-after_note m.contract_id st
              (note_future_event m.contract_id m.hash n st.trackers),
          entries-note_future_event m.contract_id c m.hash n st.trackers,
          entries-prune_stale_entries m.contract_id c n
              (note_reingest_success m.contract_id m.hash st.trackers).0,
          entries-note_reingest_success m.contract_id c m.hash st.trackers,
          waits-concat hash h (entries c st.trackers) (record { hash = m.hash; height = n }),
          waits-keep_above n hash h (delete_hash m.hash (entries c st.trackers)),
          waits-delete_hash m.hash hash h (entries c st.trackers),
        )

order_step-waits :
    (e : OrderingStep) (c hash : String) (h : ℕ) (st : State)
    → GapOpen c h st
    → IsOther c hash e
    → waits hash h (entries c st.trackers) ≡ true
    → waits hash h (entries c (order_step e st).trackers) ≡ true
unfolding debounce_fires
order_step-waits (checked strict m) c hash h st opened other w =
    checked-waits strict m c hash h st opened other w
order_step-waits (recorded d n) c hash h st opened other w = w
order_step-waits (fired d) c hash h st opened other w = w

-- The entry stays while the gap is open.
pub order_steps-waits :
    (c hash : String) (h : ℕ) (es : List OrderingStep) (st : State)
    → GapOpen c h st
    → Unfilled c hash h es st
    → waits hash h (entries c st.trackers) ≡ true
    → GapOpen c h (order_steps es st)
      × (waits hash h (entries c (order_steps es st).trackers) ≡ true)
order_steps-waits c hash h [] st opened unfilled w = (opened, w)
order_steps-waits c hash h (e ∷ es) st opened (other, opened', unfilled) w =
    order_steps-waits c hash h es (order_step e st) opened' unfilled
      (order_step-waits e c hash h st opened other w)
