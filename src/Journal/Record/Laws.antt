-- ===== src/Journal/Record/Laws.antt =====
-- src/journal.ts, recordEvent and the selectors that read and clear the journal.
use libcheloniajs.Base.{
  ℕ, zero, suc, ◌<◌, ◌≡◌, ◌≢◌, refl, ap, ◌∙◌, Bool, true, false, not, List, [], ◌∷◌, ◌++◌, Option,
  none, some, String, eq_iff, arith, length, Option-cases, Bool-cases, ◌⊎◌, inl, inr, leb,
  if◌then◌else◌, ◌&&◌, lookup, insert, lookup-insert, ==_iff,
}
use libcheloniajs.Journal.Json.{Value, is_undefined}
use libcheloniajs.Journal.Turtledash.{Turtledash}
use libcheloniajs.Journal.Config.{or_default, Resolved, Throwable}
use libcheloniajs.Journal.Log.{
  JournalEntry, append_and_trim, push_snapshot, trim, drop_entries, auto_snapshot,
  index_of_last_snapshot, is_snapshot, patches_since,
}
use libcheloniajs.Journal.Log.Window.{index_of_last_snapshot-lt}
use libcheloniajs.Journal.Record.{
  Event, ContractMeta, Contracts, last_entry, entries_of, is_duplicate, is_first_or_resync,
  next_entries, record_in_meta, is_selected, record_event, get_journal, clear_all, clear_journal,
  has_journal,
}

-- The last entry is for the event.
abbrev pub IsFor : Event → Option JournalEntry → Type 0
IsFor ev none = ⊥
IsFor ev (some e) = (e.hash ≡ ev.hash) × (e.height ≡ ev.height)

last_entry-concat : (es : List JournalEntry) (e : JournalEntry) → last_entry (es ++ e ∷ []) ≡ some e
last_entry-concat [] e = refl
last_entry-concat (x ∷ []) e = refl
last_entry-concat (x ∷ (y ∷ es)) e = last_entry-concat (y ∷ es) e

last_entry-drop_entries :
    (n : ℕ) (es : List JournalEntry)
    → n < length es
    → last_entry (drop_entries n es) ≡ last_entry es
last_entry-drop_entries zero es h = refl
last_entry-drop_entries (suc n) [] h = absurd (omega arith)
last_entry-drop_entries (suc n) (x ∷ []) h = absurd (omega arith)
last_entry-drop_entries (suc n) (x ∷ (y ∷ es)) h = last_entry-drop_entries n (y ∷ es) (omega arith)

last_entry-trim :
    (es : List JournalEntry) (interval : ℕ) → last_entry (trim es interval) ≡ last_entry es
unfolding trim
last_entry-trim es interval = elim (Option-cases (index_of_last_snapshot es)) [
  | inl e ↦ ground (arith, e)
  | inr (i, e) ↦ ground (arith, e, last_entry-drop_entries i es (index_of_last_snapshot-lt es i e))
]

append_and_trim-IsFor :
    (ev : Event) (es : List JournalEntry) (e : JournalEntry) (interval : ℕ) (post : Option Value)
    → IsFor ev (some e)
    → IsFor ev (last_entry (append_and_trim es e interval post))
unfolding append_and_trim push_snapshot
append_and_trim-IsFor ev es e interval none h =
    rw (last_entry-trim (es ++ e ∷ []) interval, last_entry-concat es e) h
append_and_trim-IsFor ev es e interval (some state) h =
    elim (Bool-cases (
      not (is_undefined state)
      && (not (is_snapshot e) && leb interval (patches_since (es ++ e ∷ []))))) [
        | inl full ↦
            rw
              (
                full,
                last_entry-trim ((es ++ e ∷ []) ++ auto_snapshot e state ∷ []) interval,
                last_entry-concat (es ++ e ∷ []) (auto_snapshot e state),
              )
              h
        | inr few ↦ rw (few, last_entry-trim (es ++ e ∷ []) interval, last_entry-concat es e) h
      ]

next_entries-IsFor :
    (t : Turtledash) (cfg : Resolved) (name : String) (es : List JournalEntry) (ev : Event)
    (before after : Option Value) (errored : Bool) (error : Throwable)
    → IsFor ev (last_entry (next_entries t cfg name es ev before after errored error))
unfolding next_entries
next_entries-IsFor t cfg name es ev before after errored error =
    elim (Bool-cases (is_first_or_resync ev (last_entry es))) [
      | inl first ↦ rw first (refl, refl)
      | inr later ↦ rw later (append_and_trim-IsFor ev es _ cfg.snapshot_interval _ (refl, refl))
    ]

IsFor-duplicate : (ev : Event) (o : Option JournalEntry) → IsFor ev o → is_duplicate ev o ≡ true
IsFor-duplicate ev none h = absurd h
IsFor-duplicate ev (some e) h = ground (arith, h, eq_iff e.hash ev.hash, ==_iff ev.height e.height)

record_twice :
    (t : Turtledash) (cfg : Resolved) (meta : ContractMeta) (ev : Event)
    (before after : Option Value) (errored : Bool) (error : Throwable)
    → record_in_meta t cfg
        (record_in_meta t cfg meta ev before after errored error)
        ev
        before
        after
        errored
        error
      ≡ record_in_meta t cfg meta ev before after errored error
record_twice t cfg meta ev before after errored error =
    elim (Bool-cases (is_duplicate ev (last_entry (entries_of meta)))) [
      | inl old ↦ rw (old, old)
      | inr new ↦ rw (
        new,
        IsFor-duplicate ev _ (
            next_entries-IsFor t cfg (or_default "" meta.contract_type) (entries_of meta) ev before
              after errored error),
      )
    ]

insert_same {ℓ} :
    {V : Type ℓ} (k : String) (v : V) (m : List (String × V))
    → insert k v (insert k v m) ≡ insert k v m
unfolding insert
insert_same k v [] = ground (arith, eq_iff k k)
insert_same k v ((j, w) ∷ m) = ground (arith, eq_iff k k, eq_iff j k, insert_same k v m)

module _ (t : Turtledash) (cfg : Resolved) (id : String) (ev : Event) (before after : Option Value)
    (errored : Bool) (error : Throwable) where
  record_event_at :
      (contracts : Contracts) (meta : ContractMeta)
      → (cfg.enabled && is_selected t cfg id) ≡ true
      → lookup id contracts ≡ some meta
      → record_event t cfg id ev before after errored error contracts
        ≡ insert id (record_in_meta t cfg meta ev before after errored error) contracts
  unfolding record_event
  record_event_at contracts meta on e = rw (on, e)

  record_event_not :
      (contracts : Contracts)
      → ((cfg.enabled && is_selected t cfg id) ≡ false) ⊎ (lookup id contracts ≡ none)
      → record_event t cfg id ev before after errored error contracts ≡ contracts
  unfolding record_event
  record_event_not contracts (inl off) = rw off
  record_event_not contracts (inr e) = ground (arith, e)

  record_again :
      (contracts : Contracts) (meta : ContractMeta)
      → (cfg.enabled && is_selected t cfg id) ≡ true
      → lookup id contracts ≡ some meta
      → let m = record_in_meta t cfg meta ev before after errored error in
        record_event t cfg id ev before after errored error (insert id m contracts)
        ≡ insert id m contracts
  record_again contracts meta on e =
      let m = record_in_meta t cfg meta ev before after errored error in
      let found : lookup id (insert id m contracts) ≡ some m =
        ground (arith, lookup-insert id id m contracts, eq_iff id id) in
      record_event_at (insert id m contracts) m on found
      ∙ ap (λ n. insert id n (insert id m contracts))
          (record_twice t cfg meta ev before after errored error)
      ∙ insert_same id m contracts

  -- Recording the same event again, right after it, changes nothing.
  pub record_event_idempotent :
      (contracts : Contracts)
      → let once = record_event t cfg id ev before after errored error contracts in
        record_event t cfg id ev before after errored error once ≡ once
  record_event_idempotent contracts = elim (Bool-cases (cfg.enabled && is_selected t cfg id)) [
    | inr off ↦ record_event_not _ (inl off)
    | inl on ↦ elim (Option-cases (lookup id contracts)) [
      | inl e ↦
          let same = record_event_not contracts (inr e) in
          ap (record_event t cfg id ev before after errored error) same
      | inr (meta, e) ↦ rw (record_event_at contracts meta on e) (record_again contracts meta on e)
    ]
  ]

-- Recording an event of one contract leaves the journal of every other as it was.
pub record_event-isolated :
    (t : Turtledash) (cfg : Resolved) (id other : String) (ev : Event) (before after : Option Value)
    (errored : Bool) (error : Throwable) (contracts : Contracts)
    → id ≢ other
    → get_journal other (record_event t cfg id ev before after errored error contracts)
      ≡ get_journal other contracts
unfolding record_event get_journal
record_event-isolated t cfg id other ev before after errored error contracts ne =
    elim (Option-cases (lookup id contracts)) [
      | inl e ↦ ground (arith, e)
      | inr (meta, e) ↦ ground (
        arith,
        e,
        ne,
        eq_iff id other,
        lookup-insert id other (record_in_meta t cfg meta ev before after errored error) contracts,
      )
    ]

no_journals : (contracts : Contracts) (id : String) → get_journal id (clear_all contracts).0 ≡ none
unfolding get_journal clear_all lookup
no_journals [] id = refl
no_journals ((k, meta) ∷ contracts) id = ground (arith, no_journals contracts id)

-- The number of contracts that have a journal.
abbrev pub journal_count : Contracts → ℕ
journal_count [] = 0
journal_count ((id, meta) ∷ contracts) =
    let n = journal_count contracts in if has_journal meta then suc n else n

clear_all_count : (contracts : Contracts) → (clear_all contracts).1 ≡ journal_count contracts
unfolding clear_all
clear_all_count [] = refl
clear_all_count ((id, meta) ∷ contracts) = ground (arith, clear_all_count contracts)

-- Clearing with no identifier leaves no contract with a journal, and answers how many had one.
pub clear_journal_all :
    (contracts : Contracts) (id : String)
    → (get_journal id (clear_journal none contracts).0 ≡ none)
      × ((clear_journal none contracts).1 ≡ journal_count contracts)
unfolding clear_journal
clear_journal_all contracts id = (no_journals contracts id, clear_all_count contracts)
