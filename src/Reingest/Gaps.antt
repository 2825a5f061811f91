-- ===== src/Reingest/Gaps.antt =====
-- src/internals.ts, `checkMessageOrdering`: which messages go on, and what becomes of the gaps.
use libcheloniajs.Base.{
  ℕ, ◌+◌, ◌≤◌, ◌<◌, ◌≡◌, refl, inl, inr, ◌↔◌, ◌≢◌, Bool, true, false, List, [], ◌∷◌, Option, none,
  some, String, eq_iff, arith, if◌then◌else◌, leb, ltb, length, length-append, lookup, Option-cases,
  Bool-cases,
}
use libcheloniajs.Base.Throws.{Outcome, ok, throw}
use libcheloniajs.Reingest.{
  Entry, Trackers, Note, added, duplicate, TrackerError, unrecoverable, reingest_per_contract_cap,
  has_hash, ensure, note_future_event, note_reingest_success, prune_stale_entries, delete_hash,
}
use libcheloniajs.Reingest.Laws.{
  entries, Fresh, entries-note_future_event, entries-note_reingest_success,
  entries-prune_stale_entries, Fresh-concat, Fresh-keep_above, Fresh-delete_hash,
  length-delete_hash-le, count_stale-keep_above,
}
use libcheloniajs.Reingest.Ordering.{
  Message, State, Answer, OrderingError, already_processed, height_too_high, already_reingested,
  wedged, Verdict, proceed, ignored, reprocess_debounced, is_processed, after_note, in_order,
  check_height, check_message_ordering,
}

-- The message is the next one: the first of an unknown contract, or one above the latest height.
abbrev pub Follows : Bool → Option ℕ → ℕ → Type 0
Follows true none h = Unit {0}
Follows true (some l) h = ⊥
Follows false none h = ⊥
Follows false (some l) h = h ≡ l + 1

pub after_note-ne-proceed :
    (c : String) (st : State) (r : Trackers × Outcome TrackerError Note)
    → (after_note c st r).1 ≢ ok proceed
unfolding after_note
after_note-ne-proceed c st (ts, ok added) e = cc
after_note-ne-proceed c st (ts, ok duplicate) e = cc
after_note-ne-proceed c st (ts, throw unrecoverable) e = cc

proceed_iff :
    (strict first : Bool) (l : Option ℕ) (h : ℕ) (m : Message) (st : State)
    → m.is_first_message ≡ first
    → lookup m.contract_id st.heights ≡ l
    → ((check_height strict m h st).1 ≡ ok proceed) ↔ Follows first l h
unfolding check_height in_order
proceed_iff strict true none h m st ef el = rw (ef, el) ((λ _. tt), (λ _. refl))
proceed_iff strict true (some l) h m st ef el = ground (arith, ef, el)
proceed_iff strict false none h m st ef el = ground (arith, ef, el)
proceed_iff strict false (some l) h m st ef el = ground (
  arith,
  ef,
  el,
  after_note-ne-proceed m.contract_id st (note_future_event m.contract_id m.hash h st.trackers),
)

-- With or without strict ordering, the check lets a message of a valid height go on exactly when
-- it is the next one of its contract.
pub check_message_ordering-proceed_iff :
    (strict : Bool) (m : Message) (h : ℕ) (st : State)
    → m.height ≡ some h
    → ((check_message_ordering strict m st).1 ≡ ok proceed)
      ↔ Follows m.is_first_message (lookup m.contract_id st.heights) h
unfolding check_message_ordering
check_message_ordering-proceed_iff strict m h st e =
    rw (e, check_message_ordering) (proceed_iff strict _ _ h m st refl refl)

-- A contract's pending entries are within the cap, with distinct hashes, all above the height `l`.
pub record IsTracked (l : ℕ) (s : List Entry) : Type 0 where
  pub fresh : Fresh l s
  pub capped : length s ≤ reingest_per_contract_cap

note-IsTracked :
    (c hash : String) (l h : ℕ) (ts : Trackers)
    → l < h
    → IsTracked l (entries c ts)
    → IsTracked l (entries c (note_future_event c hash h ts).0)
note-IsTracked c hash l h ts lt v = record {
  fresh = ground (
    arith,
    entries-note_future_event c c hash h ts,
    v.fresh,
    Fresh-concat l (entries c ts) (record { hash = hash; height = h }),
  );
  capped = ground (
    arith,
    entries-note_future_event c c hash h ts,
    v.capped,
    length-append (entries c ts) (record { hash = hash; height = h } ∷ []),
  );
}

-- A message in order leaves only entries above its own height.
in_order-IsTracked :
    (c hash : String) (l h : ℕ) (ts : Trackers)
    → IsTracked l (entries c ts)
    → IsTracked h (entries c (prune_stale_entries c h (note_reingest_success c hash ts).0).0)
in_order-IsTracked c hash l h ts v = record {
  fresh = ground (
    arith,
    eq_iff c c,
    entries-prune_stale_entries c c h (note_reingest_success c hash ts).0,
    entries-note_reingest_success c c hash ts,
    Fresh-keep_above l h (delete_hash hash (entries c ts)),
    Fresh-delete_hash l hash (entries c ts) v.fresh,
  );
  capped = ground (
    arith,
    eq_iff c c,
    entries-prune_stale_entries c c h (note_reingest_success c hash ts).0,
    entries-note_reingest_success c c hash ts,
    v.capped,
    count_stale-keep_above h (delete_hash hash (entries c ts)),
    length-delete_hash-le hash (entries c ts),
  );
}

-- The latest height that the caller records after the check.
abbrev pub height_after : Outcome OrderingError Verdict → ℕ → ℕ → ℕ
height_after (ok proceed) l h = h
height_after (ok ignored) l h = l
height_after (throw e) l h = l

after_note-IsTracked :
    (c : String) (l h : ℕ) (st : State) (r : Trackers × Outcome TrackerError Note)
    → IsTracked l (entries c r.0)
    → IsTracked (height_after (after_note c st r).1 l h) (entries c (after_note c st r).0.trackers)
unfolding after_note reprocess_debounced
after_note-IsTracked c l h st (ts, ok added) v = v
after_note-IsTracked c l h st (ts, ok duplicate) v = v
after_note-IsTracked c l h st (ts, throw unrecoverable) v = v

-- A message that does not go on leaves the height as it was, strict or not.
refused-IsTracked :
    (strict : Bool) (l h : ℕ) (s : List Entry) (e : OrderingError)
    → IsTracked l s
    → IsTracked (height_after (if strict then throw e else ok ignored) l h) s
refused-IsTracked true l h s e v = v
refused-IsTracked false l h s e v = v

gap-IsTracked :
    (strict : Bool) (m : Message) (l h : ℕ) (st : State)
    → l < h
    → IsTracked l (entries m.contract_id st.trackers)
    → let a : Answer =
        if strict
        then (st, throw height_too_high)
        else after_note m.contract_id st (note_future_event m.contract_id m.hash h st.trackers) in
      IsTracked (height_after a.1 l h) (entries m.contract_id a.0.trackers)
gap-IsTracked true m l h st lt v = v
gap-IsTracked false m l h st lt v =
    after_note-IsTracked m.contract_id l h st _
      (note-IsTracked m.contract_id m.hash l h st.trackers lt v)

check_height-IsTracked :
    (strict : Bool) (m : Message) (l h : ℕ) (st : State)
    → lookup m.contract_id st.heights ≡ some l
    → IsTracked l (entries m.contract_id st.trackers)
    → let a = check_height strict m h st in
      IsTracked (height_after a.1 l h) (entries m.contract_id a.0.trackers)
unfolding check_height in_order
check_height-IsTracked strict m l h st e v =
    elim (Bool-cases (is_processed m.is_first_message (some l) h)) [
      | inl old ↦ rw (e, old) (split strict)
      | inr new ↦ elim (Bool-cases (ltb (l + 1) h)) [
        | inl gap ↦ rw (e, new, gap) (gap-IsTracked strict m l h st (ground arith) v)
        | inr next ↦ rw (e, new, next) (in_order-IsTracked m.contract_id m.hash l h st.trackers v)
      ]
    ]
  where
    split :
        (b : Bool)
        → IsTracked
            (height_after (if b then throw already_processed else ok ignored) l h)
            (entries m.contract_id st.trackers)
    split b = refused-IsTracked b l h _ already_processed v

-- Whatever the check answers, the pending hashes of the message's contract stay distinct, within
-- the cap, and above the contract's height as it stands after the message.
pub check_message_ordering-IsTracked :
    (strict : Bool) (m : Message) (l h : ℕ) (st : State)
    → m.height ≡ some h
    → lookup m.contract_id st.heights ≡ some l
    → IsTracked l (entries m.contract_id st.trackers)
    → let a = check_message_ordering strict m st in
      IsTracked (height_after a.1 l h) (entries m.contract_id a.0.trackers)
unfolding check_message_ordering
check_message_ordering-IsTracked strict m l h st eh e v =
    rw (eh, check_message_ordering) (check_height-IsTracked strict m l h st e v)

-- What a gap is answered, on every branch.
abbrev gap_answer : Bool → Bool → ℕ → Outcome OrderingError Verdict
gap_answer strict pending count =
    if strict
    then throw height_too_high
    else if pending
    then throw already_reingested
    else if leb reingest_per_contract_cap count
    then throw wedged
    else ok ignored

note_outcome :
    (c hash : String) (h : ℕ) (st : State)
    → (after_note c st (note_future_event c hash h st.trackers)).1
      ≡ gap_answer false (has_hash hash (entries c st.trackers)) (length (entries c st.trackers))
unfolding after_note note_future_event ensure has_hash
note_outcome c hash h st = elim (Option-cases (lookup c st.trackers)) [
  | inl e ↦ ground (arith, e)
  | inr (s, e) ↦ ground (arith, e)
]

-- A message that is no first message and lies more than one above the latest height is refused
-- under strict ordering; otherwise it throws if its hash is already pending, throws if the
-- contract has as many pending hashes as the cap, and is ignored if neither.
pub check_message_ordering-gap :
    (strict : Bool) (m : Message) (l h : ℕ) (st : State)
    → m.height ≡ some h
    → m.is_first_message ≡ false
    → lookup m.contract_id st.heights ≡ some l
    → l + 1 < h
    → let s = entries m.contract_id st.trackers in
      (check_message_ordering strict m st).1 ≡ gap_answer strict (has_hash m.hash s) (length s)
unfolding check_message_ordering check_height
check_message_ordering-gap strict m l h st eh ef e gap =
    ground (arith, eh, ef, e, note_outcome m.contract_id m.hash h st)
