-- ===== src/Kv/Write.antt =====
-- src/kv.ts, `chelonia/kv/update`: from what the reducer has returned last, over the answer of the
-- write, to the end of the call. The write itself, `chelonia/kv/set`, has come back with the etag,
-- maybe after conflicts; the counter of pending writes is left out.
pub mod Storable
pub mod Read
use libcheloniajs.Base.{ℕ, Bool, not, Option, none, some, String, if◌then◌else◌}
use libcheloniajs.Base.Throws.{Outcome, ok, throw}
use libcheloniajs.Journal.Json.{Value}
use libcheloniajs.Kv.{SlotDefinition, loaded}
use libcheloniajs.Kv.Values.{
  Output, Validated, noop, validated, UpdateError, validate_reducer_output,
}
use libcheloniajs.Kv.Echo.{record_echo_cid}
use libcheloniajs.Kv.Mirror.{
  KvMirrorEntry, on_local, updated, KvState, call, entry_at, ensure_contract_kv, put_entry,
  set_slot_status, status_eq, slot_is_current, safe_on_update_guarded,
}

-- The call resolves with the value, or with undefined, or is rejected.
pub data UpdateEnd : Type 0 where
  committed : Value → UpdateEnd
  no_write aborted : UpdateEnd
  refused : UpdateError → UpdateEnd

unfoldable pub store_written :
    String → SlotDefinition → Value → Option String → KvMirrorEntry → KvState → KvState
store_written contract_id slot next etag e st =
    let told =
      call (updated contract_id slot.key next e.value on_local etag)
        (put_entry contract_id slot.key (record e { value = next; etag = etag }) st) in
    let st' =
      if status_eq e.status loaded
      then told
      else set_slot_status contract_id slot.key loaded none told in
    if slot_is_current contract_id slot st'
    then safe_on_update_guarded contract_id slot next e.value on_local etag st'
    else st'

abbrev pub store_in_entry :
    String → SlotDefinition → Value → Option String → Option KvMirrorEntry → KvState → KvState
store_in_entry contract_id slot next etag none st = st
store_in_entry contract_id slot next etag (some e) st =
    store_written contract_id slot next etag e st

-- The CID is recorded first, whatever becomes of the call.
unfoldable pub finish_write :
    ℕ
    → String
    → SlotDefinition
    → Value
    → Option String
    → Bool
    → Bool
    → KvState
    → KvState × UpdateEnd
finish_write now contract_id slot next etag saw_conflict is_aborted st =
    let recorded : KvState = record st {
      echo_cids = record_echo_cid now contract_id slot.key etag saw_conflict st.echo_cids;
    } in
    if is_aborted
    then (recorded, aborted)
    else if not (slot_is_current contract_id slot recorded)
    then (recorded, committed next)
    else (let ensured = ensure_contract_kv contract_id recorded in
        (
          store_in_entry contract_id slot next etag (entry_at contract_id slot.key ensured) ensured,
          committed next,
        ))

abbrev pub write_validated :
    ℕ
    → String
    → SlotDefinition
    → Outcome UpdateError Validated
    → Option String
    → Bool
    → Bool
    → KvState
    → KvState × UpdateEnd
write_validated now c slot (throw e) etag saw_conflict is_aborted st = (st, refused e)
write_validated now c slot (ok noop) etag saw_conflict is_aborted st = (st, no_write)
write_validated now c slot (ok (validated v)) etag saw_conflict is_aborted st =
    finish_write now c slot v etag saw_conflict is_aborted st

unfoldable pub answer_write :
    ℕ
    → String
    → SlotDefinition
    → Output
    → Option String
    → Bool
    → Bool
    → KvState
    → KvState × UpdateEnd
answer_write now contract_id slot out etag saw_conflict is_aborted st =
    write_validated now contract_id slot (validate_reducer_output slot out) etag saw_conflict
      is_aborted st
