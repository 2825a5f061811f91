-- ===== src/Reingest/Redelivery.antt =====
-- src/internals.ts, `checkMessageOrdering`: a message delivered again, and two contracts.
use libcheloniajs.Base.{
  ℕ, ◌+◌, ◌<◌, ◌≡◌, refl, inl, inr, ◌≢◌, Bool, true, false, [], ◌∷◌, ◌++◌, none, some, String,
  eq_iff, ==_iff, List, arith, lookup, lookup-insert, Option-cases,
}
use libcheloniajs.Base.Throws.{Outcome, ok, throw}
use libcheloniajs.Reingest.{
  Trackers, Note, added, duplicate, TrackerError, unrecoverable, has_hash, note_future_event,
  note_reingest_success, delete_hash,
}
use libcheloniajs.Reingest.Laws.{
  entries, Fresh, entries-note_future_event, entries-note_reingest_success,
  entries-prune_stale_entries, has_hash-concat, delete_hash-gone, has_hash-keep_above,
}
use libcheloniajs.Reingest.Waiting.{
  trackers-after_note, OrderingStep, order_steps, GapOpen, Unfilled, waits, waits-has_hash,
  waits-concat, order_steps-waits,
}
use libcheloniajs.Reingest.Gaps.{check_message_ordering-gap, after_note-ne-proceed}
use libcheloniajs.Reingest.Ordering.{
  Message, State, already_reingested, proceed, ignored, reprocess_debounced, after_note, in_order,
  check_height, check_message_ordering, armed,
}

module _ (strict : Bool) (m : Message) (st : State) where
  -- The check of one contract's message leaves the pending hashes of every other contract.
  pub check_message_ordering-isolated :
      (d : String)
      → m.contract_id ≢ d
      → entries d (check_message_ordering strict m st).0.trackers ≡ entries d st.trackers
  unfolding check_message_ordering
  check_message_ordering-isolated d other = elim (Option-cases m.height) [
    | inl e ↦ rw (e, check_message_ordering)
    | inr (h, e) ↦ rw (e, check_message_ordering) (at_height h)
  ]
    where
      at_height :
          (h : ℕ) → entries d (check_height strict m h st).0.trackers ≡ entries d st.trackers
      at_height h =
          unfold check_height in_order in
          ground (
            arith,
            other,
            eq_iff m.contract_id d,
            trackers-after_note m.contract_id st
                (note_future_event m.contract_id m.hash h st.trackers),
            entries-note_future_event m.contract_id d m.hash h st.trackers,
            entries-prune_stale_entries m.contract_id d h
                (note_reingest_success m.contract_id m.hash st.trackers).0,
            entries-note_reingest_success m.contract_id d m.hash st.trackers,
          )

-- An ignored note has added the hash and armed a re-sync.
ignored_note :
    (c : String) (st : State) (r : Trackers × Outcome TrackerError Note)
    → (after_note c st r).1 ≡ ok ignored
    → (after_note c st r).0 ≡ reprocess_debounced c (record st { trackers = r.0 })
unfolding after_note
ignored_note c st (ts, ok added) e = refl
ignored_note c st (ts, ok duplicate) e = cc
ignored_note c st (ts, throw unrecoverable) e = cc

debounces-reprocess_debounced :
    (c : String) (st : State) → lookup c (reprocess_debounced c st).debounces ≢ none
unfolding reprocess_debounced
debounces-reprocess_debounced c st = elim (Option-cases (lookup c st.debounces)) [
  | inl e ↦ ground (arith, e, lookup-insert c c tt st.debounces, eq_iff c c)
  | inr (x, e) ↦ ground (arith, e)
]

module _ (m : Message) (l h : ℕ) (st : State) (valid : m.height ≡ some h)
    (later : m.is_first_message ≡ false) (known : lookup m.contract_id st.heights ≡ some l)
    (gap : l + 1 < h) (answer : (check_message_ordering false m st).1 ≡ ok ignored) where
  gap_state :
      (check_message_ordering false m st).0
      ≡ reprocess_debounced m.contract_id
          (record st { trackers = (note_future_event m.contract_id m.hash h st.trackers).0 })
  unfolding check_message_ordering check_height
  gap_state = ground (
    arith,
    valid,
    later,
    known,
    answer,
    ignored_note m.contract_id st (note_future_event m.contract_id m.hash h st.trackers),
  )

  -- A gap that is ignored leaves its hash pending, and a forced re-sync of the contract armed.
  pub check_message_ordering-pending :
      let st' = (check_message_ordering false m st).0 in
      (has_hash m.hash (entries m.contract_id st'.trackers) ≡ true)
      × (lookup m.contract_id st'.debounces ≢ none)
      × (st'.calls ≡ st.calls ++ armed m.contract_id ∷ [])
  check_message_ordering-pending = rw gap_state (
    unfold reprocess_debounced in
        ground (
          arith,
          answer,
          check_message_ordering-gap false m l h st valid later known gap,
          entries-note_future_event m.contract_id m.contract_id m.hash h st.trackers,
          eq_iff m.contract_id m.contract_id,
          eq_iff m.hash m.hash,
          has_hash-concat m.hash (entries m.contract_id st.trackers)
              (record { hash = m.hash; height = h }),
        ),
    debounces-reprocess_debounced m.contract_id _,
    unfold reprocess_debounced in refl,
  )

  gap_waits :
      waits m.hash h (entries m.contract_id (check_message_ordering false m st).0.trackers) ≡ true
  gap_waits = rw gap_state (
      unfold reprocess_debounced in
      ground (
        arith,
        answer,
        check_message_ordering-gap false m l h st valid later known gap,
        entries-note_future_event m.contract_id m.contract_id m.hash h st.trackers,
        eq_iff m.contract_id m.contract_id,
        eq_iff m.hash m.hash,
        ==_iff h h,
        waits-concat m.hash h (entries m.contract_id st.trackers)
            (record { hash = m.hash; height = h }),
      ))

  -- A message that was ignored for its gap, and is delivered again without strict ordering while
  -- the gap is open, is an error, whatever checks of messages, strict or not, heights that are
  -- recorded and timers of re-syncs come in between, if no message of its contract with its hash
  -- is checked meanwhile, and the contract's latest height stays more than one below its height.
  pub check_message_ordering-redelivered :
      (es : List OrderingStep)
      → Unfilled m.contract_id m.hash h es (check_message_ordering false m st).0
      → (check_message_ordering false m (order_steps es (check_message_ordering false m st).0)).1
        ≡ throw already_reingested
  check_message_ordering-redelivered es unfilled =
      let opened : GapOpen m.contract_id h (check_message_ordering false m st).0 =
        (l, rw gap_state (unfold reprocess_debounced in known), gap) in
      let ((l', known', gap'), waiting) =
        order_steps-waits m.contract_id m.hash h es _ opened unfilled gap_waits in
      let st' = order_steps es (check_message_ordering false m st).0 in
      ground (
        arith,
        check_message_ordering-gap false m l' h st' valid later known' gap',
        waits-has_hash m.hash h (entries m.contract_id st'.trackers) waiting,
      )

-- If the pending hashes of a contract are distinct and above some height, as the check keeps them,
-- then the hash of a message of a valid height that goes on is not pending afterwards.
pub check_message_ordering-caught_up :
    (strict : Bool) (m : Message) (l h : ℕ) (st : State)
    → m.height ≡ some h
    → Fresh l (entries m.contract_id st.trackers)
    → (check_message_ordering strict m st).1 ≡ ok proceed
    → has_hash m.hash (entries m.contract_id (check_message_ordering strict m st).0.trackers)
      ≡ false
unfolding check_message_ordering check_height in_order
check_message_ordering-caught_up strict m l h st valid fresh answer = ground (
  arith,
  valid,
  answer,
  after_note-ne-proceed m.contract_id st (note_future_event m.contract_id m.hash h st.trackers),
  eq_iff m.contract_id m.contract_id,
  entries-prune_stale_entries m.contract_id m.contract_id h
      (note_reingest_success m.contract_id m.hash st.trackers).0,
  entries-note_reingest_success m.contract_id m.contract_id m.hash st.trackers,
  has_hash-keep_above h m.hash (delete_hash m.hash (entries m.contract_id st.trackers)),
  delete_hash-gone l m.hash (entries m.contract_id st.trackers) fresh,
)
