-- ===== src/Kv/Write/Storable.antt =====
-- src/kv.ts, `chelonia/kv/update`: the values that a write leaves in the mirror.
use libcheloniajs.Base.{
  ℕ, ◌≡◌, refl, Bool, not, Option, none, some, String, if◌then◌else◌, arith, inr,
}
use libcheloniajs.Base.Throws.{Outcome, ok, throw}
use libcheloniajs.Journal.Json.{Value}
use libcheloniajs.Kv.{SlotDefinition, loaded}
use libcheloniajs.Kv.Values.{
  Output, kv_noop, other_symbol, output, Validated, noop, validated, UpdateError, KvFailure,
  as_validated, read_value, validate_reducer_output,
}
use libcheloniajs.Kv.Shape.{IsStorable, read_value-IsStorable}
use libcheloniajs.Kv.Echo.{record_echo_cid}
use libcheloniajs.Kv.Echo.Record.{record_echo_cid-IsBounded}
use libcheloniajs.Kv.Mirror.{
  KvMirrorEntry, on_local, updated, KvState, call, entry_at, ensure_contract_kv, put_entry,
  set_slot_status, status_eq, slot_is_current,
}
use libcheloniajs.Kv.Mirror.Kept.{
  on_if, IsSound, IsSound-set_slot_status, IsSound-safe_on_update_guarded, IsSound-put_entry,
  IsSound-ensure_contract_kv,
}
use libcheloniajs.Kv.Write.{
  UpdateEnd, store_written, store_in_entry, finish_write, write_validated, answer_write,
}

as_validated-eq :
    (o : Outcome KvFailure Value) (v : Value) → as_validated o ≡ ok (validated v) → o ≡ ok v
as_validated-eq (ok w) v h = ground (arith, h)
as_validated-eq (throw e) v h = cc

-- What a reducer returns is written only if it is storable.
pub validate_reducer_output-IsStorable :
    (slot : SlotDefinition) (o : Output) (v : Value)
    → validate_reducer_output slot o ≡ ok (validated v)
    → IsStorable v
unfolding validate_reducer_output
validate_reducer_output-IsStorable slot kv_noop v h = cc
validate_reducer_output-IsStorable slot other_symbol v h = cc
validate_reducer_output-IsStorable slot (output w) v h =
    read_value-IsStorable slot w v (as_validated-eq (read_value slot w) v (ground (arith, h)))

abbrev KeptEnd : KvState × UpdateEnd → Type 0
KeptEnd r = IsSound r.0

module _ (c : String) (slot : SlotDefinition) (next : Value) (etag : Option String)
    (storable : IsStorable next) where
  store_written-IsSound :
      (e : KvMirrorEntry) (st : KvState)
      → entry_at c slot.key st ≡ some e
      → IsSound st
      → IsSound (store_written c slot next etag e st)
  unfolding store_written
  store_written-IsSound e st found sound =
      let e' : KvMirrorEntry = record e { value = next; etag = etag } in
      let told =
        call (updated c slot.key next e.value on_local etag) (put_entry c slot.key e' st) in
      let told_sound : IsSound told =
        IsSound-put_entry c slot.key e e' st found (inr storable) sound in
      let st' =
        if status_eq e.status loaded then told else set_slot_status c slot.key loaded none told in
      let sound' : IsSound st' =
        on_if IsSound (status_eq e.status loaded) told _ told_sound
          (IsSound-set_slot_status c slot.key loaded none told told_sound) in
      on_if IsSound (slot_is_current c slot st') _ st'
        (IsSound-safe_on_update_guarded c slot next e.value on_local etag st' sound') sound'

  store_in_entry-IsSound :
      (o : Option KvMirrorEntry) (st : KvState)
      → entry_at c slot.key st ≡ o
      → IsSound st
      → IsSound (store_in_entry c slot next etag o st)
  store_in_entry-IsSound none st found sound = sound
  store_in_entry-IsSound (some e) st found sound = store_written-IsSound e st found sound

  finish_write-IsSound :
      (now : ℕ) (conflict is_aborted : Bool) (st : KvState)
      → IsSound st
      → IsSound (finish_write now c slot next etag conflict is_aborted st).0
  unfolding finish_write
  finish_write-IsSound now conflict is_aborted st sound =
      let recorded : KvState = record st {
        echo_cids = record_echo_cid now c slot.key etag conflict st.echo_cids;
      } in
      let sound' : IsSound recorded =
        (sound.0, record_echo_cid-IsBounded now c slot.key etag conflict st.echo_cids sound.1) in
      let ensured = ensure_contract_kv c recorded in
      on_if KeptEnd is_aborted _ _ sound' (
        on_if KeptEnd (not (slot_is_current c slot recorded)) _ _ sound' (
          store_in_entry-IsSound (entry_at c slot.key ensured) ensured refl
            (IsSound-ensure_contract_kv c recorded sound')))

-- The end of an update leaves in the mirror only values that are absent or storable, if it was so
-- when the write was answered.
pub answer_write-IsSound :
    (now : ℕ) (c : String) (slot : SlotDefinition) (out : Output) (etag : Option String)
    (conflict is_aborted : Bool) (st : KvState)
    → IsSound st
    → IsSound (answer_write now c slot out etag conflict is_aborted st).0
unfolding answer_write
answer_write-IsSound now c slot out etag conflict is_aborted st sound =
    at_output (validate_reducer_output slot out) refl
  where
    at_output :
        (o : Outcome UpdateError Validated)
        → validate_reducer_output slot out ≡ o
        → IsSound (write_validated now c slot o etag conflict is_aborted st).0
    at_output (throw e) h = sound
    at_output (ok noop) h = sound
    at_output (ok (validated v)) h =
        finish_write-IsSound c slot v etag (validate_reducer_output-IsStorable slot out v h) now
          conflict is_aborted st sound
