-- ===== src/Kv/Load/Storable.antt =====
-- src/kv.ts, `_loadSlotNow`: the values that it leaves in the mirror.
use libcheloniajs.Base.{
  ◌≡◌, refl, not, ◌&&◌, Option, none, some, String, if◌then◌else◌, arith, Bool-cases, inl, inr,
  subst, any, str_eq,
}
use libcheloniajs.Base.Throws.{Outcome, ok, throw, ◌>>=◌, >>=-eq-ok}
use libcheloniajs.Journal.Json.{Value, undefined, is_undefined}
use libcheloniajs.Journal.Log.{ErrorDetail}
use libcheloniajs.Journal.Redact.{Thrown}
use libcheloniajs.Kv.{SlotDefinition, KvLoadStatus, non_init, loading, loaded, failed}
use libcheloniajs.Kv.Values.{
  KvFailure, get_failed, undecodable, read_value, async_schema, schema_sentinel, schema_threw,
  bad_shape,
}
use libcheloniajs.Kv.Shape.{IsStorable, read_value-IsStorable}
use libcheloniajs.Kv.Mirror.{
  KvMirrorEntry, KvState, validation_error, call, entry_at, put_entry, slot_is_current, status_eq,
  increment,
}
use libcheloniajs.Kv.Mirror.Kept.{
  on_if, Kept, IsSound, IsSound-set_slot_status, IsSound-safe_on_update_guarded, IsSound-put_entry,
}
use libcheloniajs.Kv.Load.{
  Load, GetResult, Settled, resolved, is_null, read_wire, settled_status, set_status, begin_load,
  finish, restore_prior_status, fail_get, fail_load_validation, tell_update, run_on_update,
  reset_entry, finish_absent, store_loaded, store_read, finish_present, answer_load, finish_load,
}

-- What is read off the wire is stored as undefined, or is storable.
pub read_wire-Kept :
    (slot : SlotDefinition) (o : Outcome Thrown Value) (n s : Value)
    → read_wire slot o ≡ ok (n, s)
    → Kept s
unfolding read_wire
read_wire-Kept slot (throw e) n s h = cc
read_wire-Kept slot (ok v) n s h = elim (Bool-cases (is_null v)) [
  | inl cleared ↦ inl (ground (arith, cleared, h))
  | inr value ↦
      let h' : (read_value slot v >>= λ w. ok (w, w)) ≡ ok (n, s) = rw value at h in
      let (w, read, same) = >>=-eq-ok (read_value slot v) _ h' in
      inr (subst IsStorable (ground (arith, same)) (read_value-IsStorable slot v w read))
]

module _ (l : Load) where
  set_status-IsSound :
      (s : KvLoadStatus) (err : Option ErrorDetail) (st : KvState)
      → IsSound st
      → IsSound (set_status l s err st)
  unfolding set_status
  set_status-IsSound s err st kept =
      on_if IsSound l.flags.silent st _ kept
        (IsSound-set_slot_status l.contract_id l.slot.key s err st kept)

  restore-IsSound :
      (prior : KvLoadStatus) (st : KvState) → IsSound st → IsSound (restore_prior_status l prior st)
  unfolding restore_prior_status
  restore-IsSound prior st kept = at_entry (entry_at l.contract_id l.slot.key st)
    where
      at_entry :
          (o : Option KvMirrorEntry)
          → IsSound (elim o [
            | none ↦ st
            | some e ↦ if status_eq e.status loading then set_status l prior none st else st
          ])
      at_entry none = kept
      at_entry (some e) =
          on_if IsSound (status_eq e.status loading) (set_status l prior none st) st
            (set_status-IsSound prior none st kept) kept

  run_on_update-IsSound :
      (v p : Value) (t : Option String) (st : KvState)
      → IsSound st
      → IsSound (run_on_update l v p t st)
  run_on_update-IsSound v p t st kept =
      on_if IsSound (not l.flags.silent && slot_is_current l.contract_id l.slot st) _ st
        (IsSound-safe_on_update_guarded l.contract_id l.slot v p l.reason t st kept) kept

  tell_update-IsSound :
      (v p : Value) (t : Option String) (st : KvState)
      → IsSound st
      → IsSound (tell_update l v p t st)
  tell_update-IsSound v p t st kept = on_if IsSound l.flags.silent st _ kept kept

  pub begin_load-IsSound : (st : KvState) → IsSound st → IsSound (begin_load l st).0
  unfolding begin_load
  begin_load-IsSound st kept = at_entry (
      if any (λ c. str_eq c l.contract_id) st.subscriptions
      then entry_at l.contract_id l.slot.key st
      else none)
    where
      counted : KvState
      counted = record st { pending_loads = increment l.contract_id st.pending_loads }

      begun : Option KvMirrorEntry → KvState × Option KvLoadStatus
      begun at = elim at [
        | none ↦ (finish l.contract_id counted, none)
        | some e ↦ (
          if l.flags.suppress_loading_status && status_eq e.status loaded
              then counted
              else set_status l loading none counted,
          some e.status,
        )
      ]

      at_entry : (at : Option KvMirrorEntry) → IsSound (begun at).0
      at_entry none = kept
      at_entry (some e) =
          on_if IsSound (l.flags.suppress_loading_status && status_eq e.status loaded) counted _
            kept (set_status-IsSound loading none counted kept)

abbrev KeptSettled : KvState × Settled → Type 0
KeptSettled r = IsSound r.0

module _ (l : Load) where
  reset_entry-IsSound :
      (e : KvMirrorEntry) (st : KvState)
      → entry_at l.contract_id l.slot.key st ≡ some e
      → IsSound st
      → IsSound (reset_entry l e st)
  unfolding reset_entry
  reset_entry-IsSound e st found kept =
      let e' : KvMirrorEntry = record e { value = undefined; etag = none } in
      let st' = put_entry l.contract_id l.slot.key e' st in
      let kept' : IsSound st' =
        IsSound-put_entry l.contract_id l.slot.key e e' st found (inl refl) kept in
      let told = tell_update l undefined e.value none st' in
      on_if IsSound (is_undefined e.value) _ _ (set_status-IsSound l non_init none st' kept') (
        run_on_update-IsSound l l.slot.resolved_default e.value none
          (set_status l non_init none told)
          (set_status-IsSound l non_init none told
            (tell_update-IsSound l undefined e.value none st' kept')))

  store_loaded-IsSound :
      (s : KvLoadStatus) (t : Option String) (e : KvMirrorEntry) (next stored : Value)
      (st : KvState)
      → entry_at l.contract_id l.slot.key st ≡ some e
      → Kept stored
      → IsSound st
      → IsSound (store_loaded l s t e (next, stored) st)
  unfolding store_loaded
  store_loaded-IsSound s t e next stored st found fit kept =
      let e' : KvMirrorEntry = record e { value = stored; etag = t } in
      let st' = put_entry l.contract_id l.slot.key e' st in
      let told = tell_update l stored e.value t st' in
      run_on_update-IsSound l next e.value t (set_status l s none told) (
        set_status-IsSound l s none told (
          tell_update-IsSound l stored e.value t st'
            (IsSound-put_entry l.contract_id l.slot.key e e' st found fit kept)))

  finish_absent-IsSound :
      (prior : KvLoadStatus) (st : KvState) → IsSound st → IsSound (finish_absent l prior st).0
  unfolding finish_absent
  finish_absent-IsSound prior st kept =
      on_if KeptSettled (not (slot_is_current l.contract_id l.slot st)) _ _
        (restore-IsSound l prior st kept) (at_entry (entry_at l.contract_id l.slot.key st) refl)
    where
      at_entry :
          (o : Option KvMirrorEntry)
          → entry_at l.contract_id l.slot.key st ≡ o
          → KeptSettled (elim o [
            | none ↦ (set_status l non_init none st, resolved)
            | some e ↦ (reset_entry l e st, resolved)
          ])
      at_entry none found = set_status-IsSound l non_init none st kept
      at_entry (some e) found = reset_entry-IsSound e st found kept

module _ (detail : KvFailure → ErrorDetail) (l : Load) (prior : KvLoadStatus) where
  fail_get-IsSound :
      (e : KvFailure) (st : KvState) → IsSound st → IsSound (fail_get detail l prior e st).0
  unfolding fail_get
  fail_get-IsSound e st kept =
      let restored = restore-IsSound l prior st kept in
      on_if KeptSettled (not (slot_is_current l.contract_id l.slot st)) _ _ restored (
        on_if KeptSettled l.flags.preserve_status_on_error _ _ restored
          (set_status-IsSound l failed (some (detail e)) st kept))

  fail_load_validation-IsSound :
      (e : KvFailure) (st : KvState)
      → IsSound st
      → IsSound (fail_load_validation detail l prior e st).0
  unfolding fail_load_validation
  fail_load_validation-IsSound e st kept =
      let told = call (validation_error l.contract_id l.slot.key e l.reason) st in
      on_if IsSound l.flags.preserve_status_on_error _ _ (restore-IsSound l prior told kept)
        (set_status-IsSound l failed (some (detail e)) told kept)

  store_read-IsSound :
      (g : GetResult) (o : Option KvMirrorEntry) (r : Outcome KvFailure (Value × Value))
      (st : KvState)
      → entry_at l.contract_id l.slot.key st ≡ o
      → ((n s : Value) → r ≡ ok (n, s) → Kept s)
      → IsSound st
      → IsSound (store_read detail l prior g o r st).0
  store_read-IsSound g none (throw (undecodable e)) st found fit kept =
      fail_load_validation-IsSound (undecodable e) st kept
  store_read-IsSound g none (throw (get_failed e)) st found fit kept = kept
  store_read-IsSound g none (throw (schema_threw e)) st found fit kept = kept
  store_read-IsSound g none (throw async_schema) st found fit kept = kept
  store_read-IsSound g none (throw schema_sentinel) st found fit kept = kept
  store_read-IsSound g none (throw (bad_shape e)) st found fit kept = kept
  store_read-IsSound g none (ok w) st found fit kept = kept
  store_read-IsSound g (some e) (throw f) st found fit kept = fail_load_validation-IsSound f st kept
  store_read-IsSound g (some e) (ok (n, s)) st found fit kept =
      store_loaded-IsSound l (settled_status g.body) g.etag e n s st found (fit n s refl) kept

  answer_load-IsSound :
      (answer : Outcome Thrown (Option GetResult)) (st : KvState)
      → IsSound st
      → IsSound (answer_load detail l prior answer st).0
  unfolding answer_load finish_present
  answer_load-IsSound (throw e) st kept = fail_get-IsSound (get_failed e) st kept
  answer_load-IsSound (ok none) st kept = finish_absent-IsSound l prior st kept
  answer_load-IsSound (ok (some g)) st kept =
      on_if KeptSettled (not (slot_is_current l.contract_id l.slot st)) _ _
        (restore-IsSound l prior st kept)
        (store_read-IsSound g (entry_at l.contract_id l.slot.key st) (read_wire l.slot g.body) st
          refl (read_wire-Kept l.slot g.body) kept)

  -- Whatever the server and the schema answer, a load that ends leaves every value of the mirror
  -- absent or storable, if it was so when the answer came.
  pub finish_load-IsSound :
      (answer : Outcome Thrown (Option GetResult)) (st : KvState)
      → IsSound st
      → IsSound (finish_load detail l prior answer st).0
  unfolding finish_load
  finish_load-IsSound answer st kept = answer_load-IsSound answer st kept
