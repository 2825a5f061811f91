-- ===== src/Journal/Record/Tests.antt =====
-- Witnesses of the journal's records: journals of one and two entries, and a configuration that
-- diffs by replacing the root.
use libcheloniajs.Base.{
  ℕ, ◌*◌, ◌≤◌, ◌≡◌, refl, true, false, List, [], ◌∷◌, none, some, arith, length, ◌⊎◌,
}
use libcheloniajs.Base.Throws.{Outcome, ok}
use libcheloniajs.Journal.Json.{
  Value, undefined, null, number, object, field, end, owns, clone_value_lem, clone_value,
}
use libcheloniajs.Journal.Pointer.{segments_to_pointer, pointer_to_segments}
use libcheloniajs.Journal.Diff.{Patch, replace, patch}
use libcheloniajs.Journal.Turtledash.{own_turtledash}
use libcheloniajs.Journal.Apply.{
  default_apply_patch, apply_all, apply_one, check_patch, apply_at, edit as edit_last,
}
use libcheloniajs.Journal.Config.{Resolved, nullish, default_patcher}
use libcheloniajs.Journal.Redact.{Thrown, apply_redactions, redact_all}
use libcheloniajs.Journal.Same.{IsJson, Same, Same-refl}
use libcheloniajs.Journal.Log.{
  snapshot, patches, JournalEntry, append_and_trim, reconstruct, replay, replay_body,
  index_of_last_snapshot,
}
use libcheloniajs.Journal.Log.Window.{length-append_and_trim-le}
use libcheloniajs.Journal.Log.Replay.{reconstruct-append_and_trim}
use libcheloniajs.Journal.Record.{
  Event, ContractMeta, Contracts, redacted, next_entries, or_no_patch, entry_of, record_event,
}
use libcheloniajs.Journal.Record.Current.{with_defaults, Current, next_entries-Current}
use libcheloniajs.Journal.Record.Laws.{record_event_idempotent}

abbrev by_root : Value → Value → Outcome Thrown (List Patch)
by_root b a = ok (patch replace [] (some a) ∷ [])

abbrev cfg : Resolved
cfg = record {
  enabled = true;
  snapshot_interval = 2;
  contract_ids = none;
  redactions = [];
  diff = by_root;
  apply_patch = default_patcher own_turtledash;
}

abbrev event : ℕ → Event
event h = record { hash = "h"; height = h; op_type = "ae"; description = none }

abbrev journal : List JournalEntry
journal =
    entry_of (event 0) (snapshot (number 1)) none
    ∷ entry_of (event 1) (patches (patch replace [] (some (number 2)) ∷ [])) none
    ∷ []

abbrev entry : JournalEntry
entry = entry_of (event 2) (patches (patch replace [] (some (number 3)) ∷ [])) none

abbrev meta_a : ContractMeta
meta_a = record { contract_type = some "type"; journal = some journal }

abbrev contracts : Contracts
contracts = ("a", meta_a) ∷ ("b", meta_a) ∷ []

replace_root : (s a : Value) → cfg.apply_patch s (or_no_patch (by_root s a)) ≡ ok a
unfolding default_apply_patch apply_all apply_one check_patch apply_at segments_to_pointer
    pointer_to_segments
replace_root s a = rw (clone_value_lem a)

reads_2 : reconstruct cfg.apply_patch journal ≡ ok (some (number 2))
unfolding reconstruct index_of_last_snapshot replay replay_body default_apply_patch apply_all
    apply_one check_patch apply_at segments_to_pointer pointer_to_segments clone_value
reads_2 = refl

length-append_and_trim-le_example :
    length (append_and_trim journal entry 2 (some (number 3))) ≤ 2 * 2
length-append_and_trim-le_example =
    length-append_and_trim-le journal entry 2 (number 3) refl refl (omega arith)

reconstruct-append_and_trim_example :
    (w : Value) × (reconstruct cfg.apply_patch (append_and_trim journal entry 2 (some (number 3)))
      ≡ ok (some w))
    × ((w ≡ number 3) ⊎ (w ≡ number 3))
reconstruct-append_and_trim_example =
    reconstruct-append_and_trim cfg.apply_patch journal entry 2 (number 3) (number 2) (number 3)
      (patch replace [] (some (number 3)) ∷ []) refl reads_2 (replace_root (number 2) (number 3))

record_event_idempotent_example :
    record_event own_turtledash cfg "a"
      (event 2)
      (some (number 2))
      (some (number 3))
      false
      nullish
      (record_event own_turtledash cfg "a"
        (event 2)
        (some (number 2))
        (some (number 3))
        false
        nullish
        contracts)
    ≡ record_event own_turtledash cfg "a"
        (event 2)
        (some (number 2))
        (some (number 3))
        false
        nullish
        contracts
record_event_idempotent_example =
    record_event_idempotent own_turtledash cfg "a" (event 2) (some (number 2)) (some (number 3))
      false nullish contracts

-- { "a": 1 }, and { "b": 2, "a": 1 }.
abbrev one_key : Value
one_key = object (field "a" (number 1) end)

abbrev two_keys : Value
two_keys = object (field "b" (number 2) (field "a" (number 1) end))

abbrev begun : List JournalEntry
begun = entry_of (event 1) (snapshot one_key) none ∷ []

begun-Current :
    Current own_turtledash begun (redacted own_turtledash cfg "type" undefined (some one_key))
unfolding reconstruct index_of_last_snapshot replay apply_redactions redact_all clone_value
begun-Current = (one_key, refl, Same-refl one_key)

states-IsJson :
    IsJson (redacted own_turtledash cfg "type" undefined (some one_key))
    × IsJson (redacted own_turtledash cfg "type" null (some two_keys))
unfolding apply_redactions redact_all clone_value owns
states-IsJson = ((refl, tt, tt), (refl, tt, (refl, tt, tt)))

next_entries-Current_example :
    Current own_turtledash
      (next_entries own_turtledash
        (with_defaults own_turtledash cfg)
        "type"
        begun
        (event 2)
        (some one_key)
        (some two_keys)
        false
        nullish)
      (redacted own_turtledash cfg "type" null (some two_keys))
next_entries-Current_example =
    next_entries-Current own_turtledash cfg "type" begun (event 2) (some one_key) (some two_keys)
      false nullish (λ later. (states-IsJson.0, states-IsJson.1, begun-Current))
      (λ failed. cc failed)

-- { "a": 1, "b": 2 }.
abbrev two_keys_sorted : Value
two_keys_sorted = object (field "a" (number 1) (field "b" (number 2) end))
