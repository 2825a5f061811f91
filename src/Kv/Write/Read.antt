-- ===== src/Kv/Write/Read.antt =====
-- src/kv.ts: what `chelonia/kv/read` answers after `chelonia/kv/update`.
use libcheloniajs.Base.{
  ℕ, ◌≡◌, refl, ◌∙◌, Bool, true, false, ◌&&◌, Option, none, some, String, if◌then◌else◌, arith,
  eq_iff, ==_iff, inl, inr, lookup, Option-cases,
}
use libcheloniajs.Base.Throws.{ok}
use libcheloniajs.Journal.Json.{
  Value, undefined, null, boolean, number, string, array, object, is_undefined,
}
use libcheloniajs.Kv.{SlotDefinition, KvLoadStatus, non_init, loading, loaded, failed}
use libcheloniajs.Kv.Values.{Output, validated, validate_reducer_output}
use libcheloniajs.Kv.Shape.{IsStorable}
use libcheloniajs.Kv.Echo.{record_echo_cid}
use libcheloniajs.Kv.Mirror.{
  KvMirrorEntry, on_local, updated, KvState, call, entry_at, slot_at, ensure_contract_kv, put_entry,
  set_status_of, set_slot_status, status_eq, same_error, slot_is_current, safe_on_update_guarded,
  find_in,
}
use libcheloniajs.Kv.Mirror.Kept.{on_if, on_test}
use libcheloniajs.Kv.Mirror.Content.{find_in-put_in}
use libcheloniajs.Kv.Read.{resolve_active_slot, of_type, read}
use libcheloniajs.Kv.Write.{committed, store_written, finish_write, answer_write}
use libcheloniajs.Kv.Write.Storable.{validate_reducer_output-IsStorable}

-- The slot's entry is loaded and has the value; the slots and the subscriptions are the given ones.
record Reads (c k : String) (v : Value) (st st' : KvState) : Type 0 where
  entry : KvMirrorEntry
  there : entry_at c k st' ≡ some entry
  value_is : entry.value ≡ v
  status_is : entry.status ≡ loaded
  slots_kept : st'.slots ≡ st.slots
  subscriptions_kept : st'.subscriptions ≡ st.subscriptions

status_eq-loaded : (s : KvLoadStatus) → status_eq s loaded ≡ true → s ≡ loaded
status_eq-loaded non_init h = cc
status_eq-loaded loading h = cc
status_eq-loaded loaded h = refl
status_eq-loaded failed h = cc

set_status_of-Reads :
    (c k : String) (e : KvMirrorEntry) (st : KvState)
    → entry_at c k st ≡ some e
    → Reads c k e.value st (set_status_of c k loaded none e st)
unfolding set_status_of
set_status_of-Reads c k e st found =
    on_test (Reads c k e.value st) (status_eq e.status loaded && same_error none e.last_error) _ _
      (λ same. record {
        entry = e;
        there = found;
        value_is = refl;
        status_is = status_eq-loaded e.status (ground (arith, same));
        slots_kept = refl;
        subscriptions_kept = refl;
      })
      (λ other. record {
        entry = record e { status = loaded; last_error = none };
        there =
            find_in-put_in c k c k (record e { status = loaded; last_error = none }) st.kv e found
            ∙ ground (arith, eq_iff c c, eq_iff k k);
        value_is = refl;
        status_is = refl;
        slots_kept = refl;
        subscriptions_kept = refl;
      })

set_slot_status-Reads :
    (c k : String) (e : KvMirrorEntry) (st : KvState)
    → entry_at c k st ≡ some e
    → Reads c k e.value st (set_slot_status c k loaded none st)
unfolding set_slot_status
set_slot_status-Reads c k e st found =
    rw (found, set_slot_status) (set_status_of-Reads c k e st found)

module _ (c : String) (slot : SlotDefinition) (v : Value) (etag : Option String) where
  store_written-Reads :
      (e : KvMirrorEntry) (st : KvState)
      → entry_at c slot.key st ≡ some e
      → Reads c slot.key v st (store_written c slot v etag e st)
  unfolding store_written safe_on_update_guarded
  store_written-Reads e st found =
      let st' =
        if status_eq e.status loaded then told else set_slot_status c slot.key loaded none told in
      let reads : Reads c slot.key v st st' =
        on_test (Reads c slot.key v st) (status_eq e.status loaded) _ _
          (λ was. record {
            entry = e';
            there = told_there;
            value_is = refl;
            status_is = status_eq-loaded e.status was;
            slots_kept = refl;
            subscriptions_kept = refl;
          })
          (λ was.
            let r = set_slot_status-Reads c slot.key e' told told_there in
            record {
              entry = r.entry;
              there = r.there;
              value_is = r.value_is;
              status_is = r.status_is;
              slots_kept = r.slots_kept;
              subscriptions_kept = r.subscriptions_kept;
            }) in
      on_if (Reads c slot.key v st) (slot_is_current c slot st') _ st'
        (on_if (Reads c slot.key v st) slot.has_on_update _ st'
          (record {
            entry = reads.entry;
            there = reads.there;
            value_is = reads.value_is;
            status_is = reads.status_is;
            slots_kept = reads.slots_kept;
            subscriptions_kept = reads.subscriptions_kept;
          })
          reads)
        reads
    where
      e' : KvMirrorEntry
      e' = record e { value = v; etag = etag }

      told : KvState
      told = call (updated c slot.key v e.value on_local etag) (put_entry c slot.key e' st)

      told_there : entry_at c slot.key told ≡ some e'
      told_there =
          find_in-put_in c slot.key c slot.key e' st.kv e found
          ∙ ground (arith, eq_iff c c, eq_iff slot.key slot.key)

ensure-kept :
    (c k : String) (e : KvMirrorEntry) (st : KvState)
    → entry_at c k st ≡ some e
    → ensure_contract_kv c st ≡ st
unfolding ensure_contract_kv find_in
ensure-kept c k e st found = elim (Option-cases (lookup c st.kv)) [
  | inl gone ↦ absurd (ground (arith, gone, found))
  | inr (inner, there) ↦ rw (there, ensure_contract_kv)
]

is_undefined-storable : (v : Value) → IsStorable v → is_undefined v ≡ false
is_undefined-storable undefined h = absurd h.0
is_undefined-storable null h = refl
is_undefined-storable (boolean b) h = refl
is_undefined-storable (number n) h = refl
is_undefined-storable (string t) h = refl
is_undefined-storable (array xs) h = refl
is_undefined-storable (object fs) h = refl

current :
    (slot : SlotDefinition) (c : String) (st : KvState)
    → slot_at c slot.key st ≡ some slot
    → slot_is_current c slot st ≡ true
current slot c st found = rw found (ground (arith, ==_iff slot.identity slot.identity))

module _ (is_contract : String → Bool) (type_of : String → Option String) where
  -- The selector's slot is the one in the index.
  resolved-slot_at :
      (c k : String) (slot : SlotDefinition) (st : KvState)
      → resolve_active_slot is_contract type_of c k st ≡ ok slot
      → slot_at c k st ≡ some slot
  unfolding resolve_active_slot
  resolved-slot_at c k slot st h = ground (arith, h, of_type-some (type_of c) (slot_at c k st))
    where
      of_type-some :
          (t : Option String) (o : Option SlotDefinition)
          → of_type is_contract type_of t o ≡ ok slot
          → o ≡ some slot
      of_type-some none o e = cc
      of_type-some (some t) none e = cc
      of_type-some (some t) (some s) e = ground (arith, e)

  resolved-same :
      (c k : String) (st st' : KvState)
      → st'.slots ≡ st.slots
      → st'.subscriptions ≡ st.subscriptions
      → resolve_active_slot is_contract type_of c k st'
        ≡ resolve_active_slot is_contract type_of c k st
  unfolding resolve_active_slot
  resolved-same c k st st' slots subscriptions = rw (slots, subscriptions)

  read-Reads :
      (c k : String) (v : Value) (slot : SlotDefinition) (st st' : KvState)
      → IsStorable v
      → resolve_active_slot is_contract type_of c k st ≡ ok slot
      → Reads c k v st st'
      → read is_contract type_of c k st' ≡ ok v
  unfolding read
  read-Reads c k v slot st st' storable active r =
      rw (resolved-same c k st st' r.slots_kept r.subscriptions_kept ∙ active, r.there, read)
        (ground (arith, is_undefined-storable v storable, r.value_is, r.status_is))

  -- After an update whose reducer's last answer passes its validation, and which is not aborted, of
  -- a slot that is active and has an entry in the mirror, `read` answers the value that was
  -- written, whatever the status of the slot was, and the update resolves with it.
  pub read-answer_write :
      (now : ℕ) (c : String) (slot : SlotDefinition) (out : Output) (v : Value)
      (etag : Option String) (conflict : Bool) (e : KvMirrorEntry) (st : KvState)
      → validate_reducer_output slot out ≡ ok (validated v)
      → resolve_active_slot is_contract type_of c slot.key st ≡ ok slot
      → entry_at c slot.key st ≡ some e
      → let r = answer_write now c slot out etag conflict false st in
        (read is_contract type_of c slot.key r.0 ≡ ok v) × (r.1 ≡ committed v)
  unfolding answer_write finish_write resolve_active_slot
  read-answer_write now c slot out v etag conflict e st valid active found =
      let recorded : KvState = record st {
        echo_cids = record_echo_cid now c slot.key etag conflict st.echo_cids;
      } in
      let is_current = current slot c recorded (resolved-slot_at c slot.key slot st active) in
      let same = ensure-kept c slot.key e recorded found in
      let r = store_written-Reads c slot v etag e recorded found in
      rw (valid, answer_write, is_current, finish_write, same, found)
        (
          read-Reads c slot.key v slot recorded _
              (validate_reducer_output-IsStorable slot out v valid) active r,
          refl,
        )
