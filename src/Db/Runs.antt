-- ===== src/Db/Runs.antt =====
-- src/db.ts: `addEntry`, and any sequence of its calls, on the logs of the contracts.
use libcheloniajs.Base.{
  ◌≡◌, ◌∙◌, sym, ap, subst, refl, Bool, true, false, List, [], ◌∷◌, ◌++◌, Option, none, some,
  String, All, lookup, arith, Bool-cases, inl, inr, eq_iff, lookup-insert,
}
use mathlib.Core.List.{append_assoc}
use libcheloniajs.Base.Throws.{Outcome, ok, throw}
use libcheloniajs.Journal.Redact.{Thrown}
use libcheloniajs.Db.{
  Entry, Store, Key, hash_key, log_head, height_index, BadHead, DbError, contract_id_of, is_text,
  join, latest_head_info, check_head, write_entry, write_head, write_meta, write_checked,
  put_entry_text, put_head, refusal, add_entry, failure,
}
use libcheloniajs.Db.Chain.{Chain, is_next, head_of, IsLog}
use libcheloniajs.Db.Refinement.{
  Grown, check_head-is_next, write_entry-Grown, put_head-IsLog, write_meta-IsLog,
}

abbrev pub Faults : Type 0
Faults = Key → Store → Option Thrown

-- The calls of `addEntry`, one after the other, each with the failures of its writes.
abbrev pub run_entries : Bool → (Thrown → Bool) → List (Entry × Faults) → Store → Store
run_entries saves is_error_db [] s = s
run_entries saves is_error_db ((e, faults) ∷ calls) s =
    run_entries saves is_error_db calls (add_entry saves is_error_db faults e s).0

-- An entry has a text.
abbrev pub HasText : Entry × Faults → Type 0
HasText (e, faults) = is_text (some e.serialized) ≡ true

abbrev pub no_faults : Faults
no_faults key s = none

-- The writes of the heads fail, and no other.
abbrev pub head_fails : Thrown → Faults
head_fails t (log_head c) s = some t
head_fails t (hash_key h) s = none
head_fails t (height_index c n) s = none

module _ (saves : Bool) (is_error_db : Thrown → Bool) where
  checked-Grown :
      (faults : Faults) (c : String) (e : Entry) (es : Chain) (s : Store)
      (o : Outcome BadHead (Unit {0}))
      → is_text (some e.serialized) ≡ true
      → is_text (lookup e.hash s.entries) ≡ false
      → (o ≡ ok tt → contract_id_of e ≡ c → is_next e es ≡ true)
      → IsLog c es s
      → Grown c es (write_checked saves is_error_db faults e s o).0
  checked-Grown faults c e es s (throw b) text new next log = ([], log)
  checked-Grown faults c e es s (ok tt) text new next log =
      write_entry-Grown saves is_error_db faults c e es s text new (next refl) log

  -- The checks against the head of the entry's own contract.
  checked-is_next :
      (c : String) (e : Entry) (es : Chain) (s : Store)
      → IsLog c es s
      → check_head e (latest_head_info (contract_id_of e) s) ≡ ok tt
      → contract_id_of e ≡ c
      → is_next e es ≡ true
  unfolding latest_head_info
  checked-is_next c e es s log passed mine = elim (check_head-is_next e es) [
    | inl (pass, next) ↦ next
    | inr (b, stop, other) ↦
        let same : join (lookup (contract_id_of e) s.heads) ≡ head_of es =
          ap (λ d. join (lookup d s.heads)) mine ∙ log.head in
        cc (passed, same, stop)
  ]

  add_entry-Grown :
      (faults : Faults) (c : String) (e : Entry) (es : Chain) (s : Store)
      → is_text (some e.serialized) ≡ true
      → IsLog c es s
      → Grown c es (add_entry saves is_error_db faults e s).0
  unfolding add_entry
  add_entry-Grown faults c e es s text log = elim (Bool-cases (is_text (lookup e.hash s.entries))) [
    | inl there ↦ rw (there, add_entry) ([], log)
    | inr new ↦
        rw (new, add_entry)
          (checked-Grown faults c e es s (check_head e (latest_head_info (contract_id_of e) s)) text
            new (checked-is_next c e es s log) log)
  ]

  -- Where the store holds a chain as the log of a contract, then whatever entries that have a text
  -- are added, of this contract or another, and whichever of their writes fail, the log only
  -- grows: the store holds a chain that ends in the one held before and follows on from the first
  -- message, each entry naming the one before it, the newest key operation and its own height.
  pub run_entries-Grown :
      (c : String) (calls : List (Entry × Faults)) (es : Chain) (s : Store)
      → All HasText calls
      → IsLog c es s
      → Grown c es (run_entries saves is_error_db calls s)
  run_entries-Grown c [] es s texts log = ([], log)
  run_entries-Grown c ((e, faults) ∷ calls) es s (text, texts) log =
      let (more, log') = add_entry-Grown faults c e es s text log in
      let (later, log'') =
        run_entries-Grown c calls (more ++ es) (add_entry saves is_error_db faults e s).0 texts
          log' in
      (
        later ++ more,
        subst
            (λ chain.
              IsLog c chain
                (run_entries saves is_error_db calls (add_entry saves is_error_db faults e s).0))
            (sym (append_assoc later more es)) log'',
      )

  write_meta-ok :
      (e : Entry) (s : Store)
      → write_meta saves is_error_db no_faults e s
        ≡ ((write_meta saves is_error_db no_faults e s).0, ok e.hash)
  unfolding write_meta
  write_meta-ok e s = elim (Bool-cases saves) [
    | inl saved ↦ rw (saved, write_meta)
    | inr unsaved ↦ rw (unsaved, write_meta)
  ]

  -- Where no write fails and the store holds a chain as the contract's log, an entry of the
  -- contract that has a text, and no text under its hash yet, is added exactly when it is the next
  -- one of the chain: then the answer is its hash and the log has it as its newest, and otherwise
  -- the answer is an error and the store stays as it is.
  pub add_entry-is_next :
      (c : String) (e : Entry) (es : Chain) (s : Store)
      → is_text (some e.serialized) ≡ true
      → is_text (lookup e.hash s.entries) ≡ false
      → contract_id_of e ≡ c
      → IsLog c es s
      → (is_next e es ≡ true
          → (s' : Store) × (add_entry saves is_error_db no_faults e s ≡ (s', ok e.hash))
            × IsLog c (e ∷ es) s')
        × (is_next e es ≡ false
            → (error : DbError) × (add_entry saves is_error_db no_faults e s ≡ (s, throw error)))
  unfolding add_entry latest_head_info write_entry write_head
  add_entry-is_next c e es s text new mine log =
      let same : join (lookup (contract_id_of e) s.heads) ≡ head_of es =
        ap (λ d. join (lookup d s.heads)) mine ∙ log.head in
      elim (check_head-is_next e es) [
        | inl (pass, next) ↦ (
          λ h. (
            (write_meta saves is_error_db no_faults e (put_head e (put_entry_text e s))).0,
            rw (new, add_entry, same, pass) (write_meta-ok e (put_head e (put_entry_text e s))),
            write_meta-IsLog saves is_error_db no_faults c e (e ∷ es)
                (put_head e (put_entry_text e s)) (put_head-IsLog c e es s mine text new next log),
          ),
          λ h. absurd (ground (arith, h, next)),
        )
        | inr (b, stop, other) ↦ (
          λ h. absurd (ground (arith, h, other)),
          λ h. (refusal b, rw (new, add_entry, same, stop) refl),
        )
      ]

  -- Where a new entry passes the checks and the write of the head fails, the call is refused but
  -- the entry's text stays: adding the same entry again answers its hash as if it had been added,
  -- writes nothing, and the head of every contract is what it was before the first call.
  pub add_entry-orphan :
      (t : Thrown) (faults : Faults) (e : Entry) (s : Store)
      → is_text (some e.serialized) ≡ true
      → is_text (lookup e.hash s.entries) ≡ false
      → check_head e (latest_head_info (contract_id_of e) s) ≡ ok tt
      → let r = add_entry saves is_error_db (head_fails t) e s in
        (r.1 ≡ throw (failure saves is_error_db (head_fails t) t))
        × (add_entry saves is_error_db faults e r.0 ≡ (r.0, ok e.hash))
        × ((c : String) → latest_head_info c r.0 ≡ latest_head_info c s)
  unfolding add_entry write_entry write_head latest_head_info
  add_entry-orphan t faults e s text new passed =
      rw (new, add_entry, passed) (refl, again, λ c. refl)
    where
      again :
          add_entry saves is_error_db faults e (put_entry_text e s)
          ≡ (put_entry_text e s, ok e.hash)
      again =
          rw (
            lookup-insert e.hash e.hash e.serialized s.entries,
            (eq_iff e.hash e.hash).1 refl,
            text,
          )
