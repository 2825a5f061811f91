-- ===== src/Kv/Remote/Storable.antt =====
-- src/kv.ts, `_handleRemote`: the values that it leaves in the mirror.
use libcheloniajs.Base.{ℕ, ◌≡◌, refl, List, [], ◌∷◌, Option, none, some, String, str_eq, lookup}
use libcheloniajs.Base.Throws.{Outcome, ok, throw}
use libcheloniajs.Journal.Json.{Value}
use libcheloniajs.Journal.Log.{ErrorDetail}
use libcheloniajs.Kv.{SlotDefinition, KvLoadStatus, failed}
use libcheloniajs.Kv.Values.{KvFailure}
use libcheloniajs.Kv.Echo.{EchoEntry, Bucket, echo_key_of, bucket_of, has_cid}
use libcheloniajs.Kv.Echo.Record.{erase-IsBounded, purge-IsBounded}
use libcheloniajs.Kv.Mirror.{
  KvMirrorEntry, KvState, updated, validation_error, on_remote, call, entry_at, slot_at,
  ensure_contract_kv, put_entry, set_slot_status, slot_is_current,
}
use libcheloniajs.Kv.Mirror.Kept.{
  on_if, Kept, IsSound, IsSound-set_slot_status, IsSound-safe_on_update_guarded, IsSound-put_entry,
  IsSound-ensure_contract_kv,
}
use libcheloniajs.Kv.Load.{read_wire, settled_status}
use libcheloniajs.Kv.Load.Storable.{read_wire-Kept}
use libcheloniajs.Kv.Remote.{
  Frame, every, RemoteNext, settled, get_then, conflict_cids, cid_or_none, fail_remote_validation,
  store_remote, read_frame, apply_to_entry, apply_frame, drop_echo, apply_foreign, pending_echo,
  handle_cid, purge_at, handle_frame, handle_remote,
}

abbrev KeptNext : KvState × RemoteNext → Type 0
KeptNext r = IsSound r.0

module _ (c k : String) (slot : SlotDefinition) where
  store_remote-IsSound :
      (s : KvLoadStatus) (t : Option String) (e : KvMirrorEntry) (next stored : Value)
      (st : KvState)
      → entry_at c k st ≡ some e
      → Kept stored
      → IsSound st
      → IsSound (store_remote c k slot s t e (next, stored) st)
  unfolding store_remote
  store_remote-IsSound s t e next stored st found fit kept =
      let e' : KvMirrorEntry = record e { value = stored; etag = t } in
      let told = call (updated c k stored e.value on_remote t) (put_entry c k e' st) in
      let st' = set_slot_status c k s none told in
      let kept' : IsSound st' =
        IsSound-set_slot_status c k s none told (IsSound-put_entry c k e e' st found fit kept) in
      on_if IsSound (slot_is_current c slot st') _ st'
        (IsSound-safe_on_update_guarded c slot next e.value on_remote t st' kept') kept'

  module _ (detail : KvFailure → ErrorDetail) (frame : Frame) where
    read_frame-IsSound :
        (e : KvMirrorEntry) (r : Outcome KvFailure (Value × Value)) (st : KvState)
        → entry_at c k st ≡ some e
        → ((n s : Value) → r ≡ ok (n, s) → Kept s)
        → IsSound st
        → IsSound (read_frame detail c k slot frame e r st)
    unfolding fail_remote_validation
    read_frame-IsSound e (throw f) st found fit kept =
        IsSound-set_slot_status c k failed (some (detail f))
          (call (validation_error c k f on_remote) st) kept
    read_frame-IsSound e (ok (n, s)) st found fit kept =
        store_remote-IsSound (settled_status frame.body) (cid_or_none frame.cid) e n s st found
          (fit n s refl) kept

    apply_to_entry-IsSound :
        (e : KvMirrorEntry) (st : KvState)
        → entry_at c k st ≡ some e
        → IsSound st
        → IsSound (apply_to_entry detail c k slot frame e st).0
    unfolding apply_to_entry
    apply_to_entry-IsSound e st found kept =
        on_if KeptNext (has_cid frame.cid) _ _ applied (at_etag e.etag)
      where
        applied : IsSound (read_frame detail c k slot frame e (read_wire slot frame.body) st)
        applied =
            read_frame-IsSound e (read_wire slot frame.body) st found
              (read_wire-Kept slot frame.body) kept

        at_etag :
            (o : Option String)
            → KeptNext (elim o [
              | some t ↦ (st, get_then every)
              | none ↦ (read_frame detail c k slot frame e (read_wire slot frame.body) st, settled)
            ])
        at_etag none = applied
        at_etag (some t) = kept

    apply_frame-IsSound :
        (st : KvState) → IsSound st → IsSound (apply_frame detail c k slot frame st).0
    unfolding apply_frame
    apply_frame-IsSound st kept = at_entry (entry_at c k st') refl
      where
        st' : KvState
        st' = ensure_contract_kv c st

        kept' : IsSound st'
        kept' = IsSound-ensure_contract_kv c st kept

        at_entry :
            (o : Option KvMirrorEntry)
            → entry_at c k st' ≡ o
            → KeptNext (elim o [
              | none ↦ (st', settled)
              | some e ↦ apply_to_entry detail c k slot frame e st'
            ])
        at_entry none found = kept'
        at_entry (some e) found = apply_to_entry-IsSound e st' found kept'

    apply_foreign-IsSound :
        (cids : List String) (st : KvState)
        → IsSound st
        → IsSound (apply_foreign detail c k slot frame cids st).0
    apply_foreign-IsSound [] st kept = apply_frame-IsSound st kept
    apply_foreign-IsSound (x ∷ xs) st kept = kept

    handle_cid-IsSound :
        (now : ℕ) (cid : String) (st : KvState)
        → IsSound st
        → IsSound (handle_cid detail now c k slot frame cid st).0
    unfolding handle_cid
    handle_cid-IsSound now cid st kept = at_echo (pending_echo now (lookup cid cids))
      where
        cids : Bucket
        cids = bucket_of (echo_key_of c k) st.echo_cids

        at_echo :
            (o : Option EchoEntry)
            → KeptNext (elim o [
              | some e ↦ (drop_echo (echo_key_of c k) cid e st, settled)
              | none ↦ apply_foreign detail c k slot frame (conflict_cids cids) st
            ])
        at_echo none = apply_foreign-IsSound (conflict_cids cids) st kept
        at_echo (some e) =
            on_if IsSound e.from_conflict st _ kept
              (kept.0, erase-IsBounded (echo_key_of c k) cid st.echo_cids kept.1)

    handle_frame-IsSound :
        (now : ℕ) (cid : Option String) (st : KvState)
        → IsSound st
        → IsSound (handle_frame detail now c k slot frame cid st).0
    unfolding handle_frame
    handle_frame-IsSound now none st kept = apply_frame-IsSound st kept
    handle_frame-IsSound now (some cid) st kept =
        on_if KeptNext (str_eq cid "") _ _ (apply_frame-IsSound st kept) (
          handle_cid-IsSound now cid (purge_at now c k st)
            (kept.0, purge-IsBounded (echo_key_of c k) now st.echo_cids kept.1))

-- Whatever the frame and the schema hold, a frame that is handled leaves every value of the mirror
-- absent or storable, if it was so before.
pub handle_remote-IsSound :
    (detail : KvFailure → ErrorDetail) (now : ℕ) (c k : String) (frame : Frame) (st : KvState)
    → IsSound st
    → IsSound (handle_remote detail now c k frame st).0
unfolding handle_remote
handle_remote-IsSound detail now c k frame st kept = at_slot (slot_at c k st)
  where
    at_slot :
        (o : Option SlotDefinition)
        → KeptNext (elim o [
          | none ↦ (st, settled)
          | some slot ↦ handle_frame detail now c k slot frame frame.cid st
        ])
    at_slot none = kept
    at_slot (some slot) = handle_frame-IsSound c k slot detail frame now frame.cid st kept
