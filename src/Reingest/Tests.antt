-- ===== src/Reingest/Tests.antt =====
-- Witnesses and tests of the tracker and of the ordering check.
use libcheloniajs.Base.{
  ℕ, ◌≡◌, ◌≢◌, refl, ◌↔◌, true, false, List, insert, [], ◌∷◌, ◌++◌, none, some, String, lookup,
  arith, eq_iff,
}
use libcheloniajs.Base.Throws.{ok, throw}
use libcheloniajs.Reingest.{
  prune_stale_entries, note_reingest_success, store, keep_above, ensure, has_hash,
  note_future_event,
}
use libcheloniajs.Reingest.Laws.{entries}
use libcheloniajs.Reingest.Ordering.{
  Message, State, proceed, ignored, already_reingested, check_message_ordering, check_height,
  in_order, after_note, armed, debounce_fires, reprocess_debounced,
}
use libcheloniajs.Reingest.Waiting.{OrderingStep, checked, recorded, fired, order_steps, Unfilled}
use libcheloniajs.Reingest.Gaps.{
  Follows, IsTracked, check_message_ordering-proceed_iff, check_message_ordering-IsTracked,
}
use libcheloniajs.Reingest.Redelivery.{
  check_message_ordering-isolated, check_message_ordering-pending,
  check_message_ordering-redelivered, check_message_ordering-caught_up,
}

-- Contract "c" is at height 4, with one event of height 9 pending.
abbrev behind : State
behind = record {
  heights = ("c", 4) ∷ [];
  trackers = ("c", record { hash = "h9"; height = 9 } ∷ []) ∷ [];
  debounces = [];
  calls = [];
}

abbrev event : String → ℕ → Message
event hash height = record {
  contract_id = "c";
  hash = hash;
  height = some height;
  is_first_message = false;
}

behind-IsTracked : IsTracked 4 (entries "c" behind.trackers)
unfolding lookup has_hash
behind-IsTracked = record { fresh = (refl, omega arith, tt); capped = omega arith }

next_proceeds : (check_message_ordering false (event "h5" 5) behind).1 ≡ ok proceed
unfolding check_message_ordering check_height in_order lookup
next_proceeds = refl

gap_ignored : (check_message_ordering false (event "h7" 7) behind).1 ≡ ok ignored
unfolding check_message_ordering check_height after_note note_future_event lookup has_hash ensure
gap_ignored = refl

check_message_ordering-proceed_iff_example :
    ((check_message_ordering false (event "h5" 5) behind).1 ≡ ok proceed)
    ↔ Follows false (lookup "c" behind.heights) 5
check_message_ordering-proceed_iff_example =
    check_message_ordering-proceed_iff false (event "h5" 5) 5 behind refl

check_message_ordering-IsTracked_example :
    IsTracked 5 (entries "c" (check_message_ordering false (event "h5" 5) behind).0.trackers)
unfolding check_message_ordering check_height in_order lookup
check_message_ordering-IsTracked_example =
    check_message_ordering-IsTracked false (event "h5" 5) 4 5 behind refl refl behind-IsTracked

check_message_ordering-isolated_example :
    entries "d" (check_message_ordering false (event "h7" 7) behind).0.trackers
    ≡ entries "d" behind.trackers
check_message_ordering-isolated_example =
    check_message_ordering-isolated false (event "h7" 7) behind "d" (ground (arith, eq_iff "c" "d"))

check_message_ordering-pending_example :
    let st' = (check_message_ordering false (event "h7" 7) behind).0 in
    (has_hash "h7" (entries "c" st'.trackers) ≡ true)
    × (lookup "c" st'.debounces ≢ none)
    × (st'.calls ≡ behind.calls ++ armed "c" ∷ [])
unfolding lookup
check_message_ordering-pending_example =
    check_message_ordering-pending (event "h7" 7) 4 7 behind refl refl refl (omega arith)
      gap_ignored

-- Meanwhile the next message goes on, its height is recorded, and another gap is met.
abbrev meanwhile : List OrderingStep
meanwhile =
    checked true (event "h5" 5) ∷ recorded "c" 5 ∷ checked false (event "h8" 8) ∷ fired "c" ∷ []

meanwhile-Unfilled :
    Unfilled "c" "h7" 7 meanwhile (check_message_ordering false (event "h7" 7) behind).0
unfolding check_message_ordering check_height in_order after_note note_future_event lookup has_hash
    ensure insert debounce_fires reprocess_debounced prune_stale_entries note_reingest_success store
    keep_above
meanwhile-Unfilled = (
  λ same. ground (arith, eq_iff "h5" "h7"),
  (4, refl, omega arith),
  (
    tt,
    (5, refl, omega arith),
    (
      λ same. ground (arith, eq_iff "h8" "h7"),
      (5, refl, omega arith),
      (tt, (5, refl, omega arith), tt),
    ),
  ),
)

check_message_ordering-redelivered_example :
    (check_message_ordering false
      (event "h7" 7)
      (order_steps meanwhile (check_message_ordering false (event "h7" 7) behind).0)).1
    ≡ throw already_reingested
unfolding lookup
check_message_ordering-redelivered_example =
    check_message_ordering-redelivered (event "h7" 7) 4 7 behind refl refl refl (omega arith)
      gap_ignored meanwhile meanwhile-Unfilled

check_message_ordering-caught_up_example :
    has_hash "h5" (entries "c" (check_message_ordering false (event "h5" 5) behind).0.trackers)
    ≡ false
check_message_ordering-caught_up_example =
    check_message_ordering-caught_up false (event "h5" 5) 4 5 behind refl behind-IsTracked.fresh
      next_proceeds
