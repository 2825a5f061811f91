-- ===== src/Db/Tests.antt =====
-- Witnesses and tests of the database.
use libcheloniajs.Base.{◌≡◌, refl, Bool, true, false, [], ◌∷◌, none, some, String, lookup, insert}
use libcheloniajs.Base.Throws.{ok, throw}
use libcheloniajs.Journal.Redact.{Thrown, thrown}
use libcheloniajs.Db.{
  Entry, Store, DbError, latest_head_info, check_head, add_entry, write_entry, write_head,
  write_meta, failure, head_info_of, is_text,
}
use libcheloniajs.Db.Chain.{is_next, IsLinked, IsLog}
use libcheloniajs.Db.Refinement.{Grown}
use libcheloniajs.Db.Runs.{
  no_faults, head_fails, run_entries, run_entries-Grown, add_entry-is_next, add_entry-orphan,
}

abbrev no_entries : Store
no_entries = record { entries = []; heads = []; metas = [] }

abbrev first : Entry
first = record {
  hash = "C";
  head_contract_id = none;
  previous_head = none;
  previous_key_op = none;
  height = some 0;
  is_key_op = true;
  serialized = "{}";
}

abbrev second : Entry
second = record {
  hash = "h1";
  head_contract_id = some "C";
  previous_head = some "C";
  previous_key_op = some "C";
  height = some 1;
  is_key_op = false;
  serialized = "{}";
}

abbrev never : Thrown → Bool
never t = false

no_entries-IsLog : IsLog "C" [] no_entries
unfolding lookup IsLinked
no_entries-IsLog = record { head = refl; linked = tt; stored = tt }

new : is_text (lookup "C" no_entries.entries) ≡ false
unfolding lookup
new = refl

passed : check_head first (latest_head_info "C" no_entries) ≡ ok tt
unfolding lookup check_head latest_head_info
passed = refl

heads :
    latest_head_info "C"
      (run_entries true never ((first, no_faults) ∷ (second, no_faults) ∷ []) no_entries)
    ≡ some (record { head = "h1"; previous_key_op = some "C"; height = 1 })
unfolding lookup insert add_entry check_head latest_head_info write_entry write_head write_meta
    head_info_of
heads = refl

run_entries-Grown_example : Grown "C" [] (
    run_entries true never
      ((first, no_faults) ∷ (second, head_fails (thrown "full")) ∷ (second, no_faults) ∷ [])
      no_entries)
run_entries-Grown_example =
    run_entries-Grown true never "C"
      ((first, no_faults) ∷ (second, head_fails (thrown "full")) ∷ (second, no_faults) ∷ []) []
      no_entries (refl, (refl, (refl, tt))) no_entries-IsLog

add_entry-is_next_example :
    (is_next first [] ≡ true
      → (s' : Store) × (add_entry true never no_faults first no_entries ≡ (s', ok "C"))
        × IsLog "C" (first ∷ []) s')
    × (is_next first [] ≡ false
        → (error : DbError) × (add_entry true never no_faults first no_entries
            ≡ (no_entries, throw error)))
add_entry-is_next_example =
    add_entry-is_next true never "C" first [] no_entries refl new refl no_entries-IsLog

add_entry-orphan_example :
    let r = add_entry true never (head_fails (thrown "full")) first no_entries in
    (r.1 ≡ throw (failure true never (head_fails (thrown "full")) (thrown "full")))
    × (add_entry true never no_faults first r.0 ≡ (r.0, ok "C"))
    × ((c : String) → latest_head_info c r.0 ≡ latest_head_info c no_entries)
add_entry-orphan_example =
    add_entry-orphan true never (thrown "full") no_faults first no_entries refl new passed
