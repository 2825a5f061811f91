-- ===== src/Kv/Load.antt =====
-- src/kv.ts, `chelonia/kv/_loadSlotNow`: what it does before its GET, and what it does with the
-- answer. Other work may come between the two. `detail` is the name and the message that
-- `normalizeError` makes of a failure.
pub mod Storable
use libcheloniajs.Base.{
  ℕ, suc, ◌+◌, Bool, true, false, not, ◌&&◌, ◌||◌, List, [], ◌∷◌, Option, none, some, String,
  str_eq, if◌then◌else◌, any,
}
use libcheloniajs.Base.Throws.{Outcome, ok, throw, ◌>>=◌}
use libcheloniajs.Journal.Json.{Value, undefined, null, is_undefined}
use libcheloniajs.Journal.Log.{ErrorDetail}
use libcheloniajs.Journal.Redact.{Thrown}
use libcheloniajs.Kv.{SlotDefinition, KvLoadStatus, non_init, loading, loaded, failed}
use libcheloniajs.Kv.Values.{KvFailure, get_failed, undecodable, read_value}
use libcheloniajs.Kv.Mirror.{
  KvMirrorEntry, KvUpdateReason, KvState, updated, validation_error, call, entry_at, put_entry,
  set_slot_status, increment, decrement, status_eq, slot_is_current, safe_on_update_guarded,
}

pub record LoadFlags : Type 0 where
  pub suppress_loading_status : Bool
  pub preserve_status_on_error : Bool
  pub silent : Bool

-- The call of the selector.
pub record Load : Type 0 where
  pub contract_id : String
  pub slot : SlotDefinition
  pub reason : KvUpdateReason
  pub flags : LoadFlags

-- The answer of `chelonia/kv/get`; `body` is read lazily and may throw.
pub record GetResult : Type 0 where
  pub body : Outcome Thrown Value
  pub etag : Option String

pub data Settled : Type 0 where
  resolved : Settled
  rejected : KvFailure → Settled

abbrev pub is_null : Value → Bool
is_null null = true
is_null _ = false

-- `null` on the wire stands for a cleared value: it is read as the default, and stored as undefined.
unfoldable pub read_wire : SlotDefinition → Outcome Thrown Value → Outcome KvFailure (Value × Value)
read_wire slot (throw e) = throw (undecodable e)
read_wire slot (ok v) =
    if is_null v
    then ok (slot.resolved_default, undefined)
    else read_value slot v >>= λ w. ok (w, w)

abbrev pub settled_status : Outcome Thrown Value → KvLoadStatus
settled_status (ok v) = if is_null v then non_init else loaded
settled_status (throw e) = loaded

abbrev pub finish : String → KvState → KvState
finish contract_id st = record st { pending_loads = decrement contract_id st.pending_loads }

-- `setStatus`, which does nothing in a silent load.
unfoldable pub set_status : Load → KvLoadStatus → Option ErrorDetail → KvState → KvState
set_status l status err st =
    if l.flags.silent then st else set_slot_status l.contract_id l.slot.key status err st

-- Up to the GET; none where it returns before.
unfoldable pub begin_load : Load → KvState → KvState × Option KvLoadStatus
begin_load l st =
    let counted = record st { pending_loads = increment l.contract_id st.pending_loads } in
    let at =
      if any (λ c. str_eq c l.contract_id) st.subscriptions
      then entry_at l.contract_id l.slot.key st
      else none in
    elim at [
      | none ↦ (finish l.contract_id counted, none)
      | some e ↦ (
        if l.flags.suppress_loading_status && status_eq e.status loaded
            then counted
            else set_status l loading none counted,
        some e.status,
      )
    ]

-- `restorePriorStatusIfStale`.
unfoldable pub restore_prior_status : Load → KvLoadStatus → KvState → KvState
restore_prior_status l prior st = elim (entry_at l.contract_id l.slot.key st) [
  | none ↦ st
  | some e ↦ if status_eq e.status loading then set_status l prior none st else st
]

abbrev pub tell_update : Load → Value → Value → Option String → KvState → KvState
tell_update l value previous etag st =
    if l.flags.silent
    then st
    else call (updated l.contract_id l.slot.key value previous l.reason etag) st

abbrev pub run_on_update : Load → Value → Value → Option String → KvState → KvState
run_on_update l value previous etag st =
    if not l.flags.silent && slot_is_current l.contract_id l.slot st
    then safe_on_update_guarded l.contract_id l.slot value previous l.reason etag st
    else st

-- The server has no value.
unfoldable pub reset_entry : Load → KvMirrorEntry → KvState → KvState
reset_entry l e st =
    let st' = put_entry l.contract_id l.slot.key (record e { value = undefined; etag = none }) st in
    if is_undefined e.value
    then set_status l non_init none st'
    else run_on_update l l.slot.resolved_default e.value none
        (set_status l non_init none (tell_update l undefined e.value none st'))

unfoldable pub finish_absent : Load → KvLoadStatus → KvState → KvState × Settled
finish_absent l prior st =
    if not (slot_is_current l.contract_id l.slot st)
    then (restore_prior_status l prior st, resolved)
    else elim (entry_at l.contract_id l.slot.key st) [
      | none ↦ (set_status l non_init none st, resolved)
      | some e ↦ (reset_entry l e st, resolved)
    ]

-- A value that has been read.
unfoldable pub store_loaded :
    Load → KvLoadStatus → Option String → KvMirrorEntry → Value × Value → KvState → KvState
store_loaded l status etag e (next, stored) st = run_on_update l next e.value etag (
    set_status l status none (
      tell_update l stored e.value etag
        (put_entry l.contract_id l.slot.key (record e { value = stored; etag = etag }) st)))

module _ (detail : KvFailure → ErrorDetail) where
  -- The GET has failed.
  unfoldable pub fail_get : Load → KvLoadStatus → KvFailure → KvState → KvState × Settled
  fail_get l prior e st =
      if not (slot_is_current l.contract_id l.slot st)
      then (restore_prior_status l prior st, resolved)
      else if l.flags.preserve_status_on_error
      then (restore_prior_status l prior st, rejected e)
      else (set_status l failed (some (detail e)) st, rejected e)

  -- `failLoadValidation`.
  unfoldable pub fail_load_validation :
      Load → KvLoadStatus → KvFailure → KvState → KvState × Settled
  fail_load_validation l prior e st =
      let told = call (validation_error l.contract_id l.slot.key e l.reason) st in
      (
        if l.flags.preserve_status_on_error
            then restore_prior_status l prior told
            else set_status l failed (some (detail e)) told,
        rejected e,
      )

  abbrev pub store_read :
      Load
      → KvLoadStatus
      → GetResult
      → Option KvMirrorEntry
      → Outcome KvFailure (Value × Value)
      → KvState
      → KvState × Settled
  store_read l prior g none (throw (undecodable e)) st =
      fail_load_validation l prior (undecodable e) st
  store_read l prior g none read st = (st, resolved)
  store_read l prior g (some e) (throw f) st = fail_load_validation l prior f st
  store_read l prior g (some e) (ok w) st =
      (store_loaded l (settled_status g.body) g.etag e w st, resolved)

  unfoldable pub finish_present : Load → KvLoadStatus → GetResult → KvState → KvState × Settled
  finish_present l prior g st =
      if not (slot_is_current l.contract_id l.slot st)
      then (restore_prior_status l prior st, resolved)
      else store_read l prior g (entry_at l.contract_id l.slot.key st) (read_wire l.slot g.body) st

  unfoldable pub answer_load :
      Load → KvLoadStatus → Outcome Thrown (Option GetResult) → KvState → KvState × Settled
  answer_load l prior (throw e) st = fail_get l prior (get_failed e) st
  answer_load l prior (ok none) st = finish_absent l prior st
  answer_load l prior (ok (some g)) st = finish_present l prior g st

  -- From the answer of the GET on.
  unfoldable pub finish_load :
      Load → KvLoadStatus → Outcome Thrown (Option GetResult) → KvState → KvState × Settled
  finish_load l prior answer st =
      let r = answer_load l prior answer st in (finish l.contract_id r.0, r.1)
