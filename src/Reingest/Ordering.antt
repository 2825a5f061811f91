-- ===== src/Reingest/Ordering.antt =====
-- src/internals.ts: `checkMessageOrdering`, the client of the tracker, with the map of pending
-- forced re-syncs (`reprocessDebounced` and the functions that clear it). The debounced functions
-- are the `debounce` of a library: the calls of them, and of the sync, are the log `calls`.
use libcheloniajs.Base.{
  ℕ, ◌+◌, Bool, true, false, not, List, [], ◌∷◌, ◌++◌, Option, none, some, String, ltb,
  if◌then◌else◌, lookup, insert, erase, map,
}
use libcheloniajs.Base.Throws.{Outcome, ok, throw}
use libcheloniajs.Reingest.{
  Trackers, Note, added, duplicate, TrackerError, unrecoverable, note_future_event,
  note_reingest_success, prune_stale_entries,
}

-- What the check reads of an `SPMessage`; `height` is none where it is no safe integer.
pub record Message : Type 0 where
  pub contract_id : String
  pub hash : String
  pub height : Option ℕ
  pub is_first_message : Bool

-- `armed`, `cleared`: a debounced function is called, or its timer dropped. `force_sync`: the
-- selector chelonia/private/in/sync is called with { force: true }.
pub data Call : Type 0 where
  armed cleared force_sync : String → Call

-- `heights` is `state.contracts[…].height`, `debounces` the keys of `reprocessDebounceMap`.
pub record State : Type 0 where
  pub heights : List (String × ℕ)
  pub trackers : Trackers
  pub debounces : List (String × Unit {0})
  pub calls : List Call

pub data OrderingError : Type 0 where
  invalid_height already_processed height_too_high already_reingested wedged : OrderingError

-- `proceed` is the return of undefined, `ignored` that of false.
pub data Verdict : Type 0 where
  proceed ignored : Verdict

abbrev pub Answer : Type 0
Answer = State × Outcome OrderingError Verdict

unfoldable pub reprocess_debounced : String → State → State
reprocess_debounced c st = record st {
  debounces = elim (lookup c st.debounces) [
    | none ↦ insert c tt st.debounces
    | some _ ↦ st.debounces
  ];
  calls = st.calls ++ armed c ∷ [];
}

-- The debounced function runs when its timer ends.
unfoldable pub debounce_fires : String → State → State
debounce_fires c st = record st {
  debounces = erase c st.debounces;
  calls = st.calls ++ force_sync c ∷ [];
}

unfoldable pub clear_reprocess_debounce_for_contract : String → State → State
clear_reprocess_debounce_for_contract c st = elim (lookup c st.debounces) [
  | none ↦ st
  | some _ ↦ record st { debounces = erase c st.debounces; calls = st.calls ++ cleared c ∷ [] }
]

unfoldable pub clear_reprocess_debounce_all : State → State
clear_reprocess_debounce_all st = record st {
  debounces = [];
  calls = st.calls ++ map (λ d. cleared d.0) st.debounces;
}

-- The first message must find no height; any other must find a lower one. A missing height is
-- `undefined`, below nothing.
abbrev pub is_processed : Bool → Option ℕ → ℕ → Bool
is_processed true none h = false
is_processed true (some l) h = true
is_processed false none h = true
is_processed false (some l) h = not (ltb l h)

-- `latestProcessedHeight + 1 < height`; with `undefined` the sum is NaN.
abbrev pub is_future : Option ℕ → ℕ → Bool
is_future none h = false
is_future (some l) h = ltb (l + 1) h

unfoldable pub after_note : String → State → Trackers × Outcome TrackerError Note → Answer
after_note c st (ts, ok added) = (reprocess_debounced c (record st { trackers = ts }), ok ignored)
after_note c st (ts, ok duplicate) = (record st { trackers = ts }, throw already_reingested)
after_note c st (ts, throw unrecoverable) = (record st { trackers = ts }, throw wedged)

-- The tail of the check, for a message in order.
unfoldable pub in_order : String → String → ℕ → State → Answer
in_order c hash h st =
    let found = note_reingest_success c hash st.trackers in
    (record st { trackers = (prune_stale_entries c h found.0).0 }, ok proceed)

unfoldable pub check_height : Bool → Message → ℕ → State → Answer
check_height strict m h st =
    let latest = lookup m.contract_id st.heights in
    if is_processed m.is_first_message latest h
    then (st, if strict then throw already_processed else ok ignored)
    else if is_future latest h
    then (if strict
        then (st, throw height_too_high)
        else after_note m.contract_id st (note_future_event m.contract_id m.hash h st.trackers))
    else in_order m.contract_id m.hash h st

unfoldable pub check_message_ordering : Bool → Message → State → Answer
check_message_ordering strict m st = elim m.height [
  | none ↦ (st, throw invalid_height)
  | some h ↦ check_height strict m h st
]
