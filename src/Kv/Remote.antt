-- ===== src/Kv/Remote.antt =====
-- src/kv.ts, `chelonia/kv/_handleRemote`: a frame of another client, or the echo of an own write.
-- Where the source starts an authoritative GET, the answer says so, with the markers that are
-- demoted when the GET has settled.
pub mod Markers
pub mod Echo
pub mod Storable
use libcheloniajs.Base.{
  ℕ, suc, Bool, true, false, not, ◌&&◌, List, [], ◌∷◌, Option, none, some, String, str_eq, ltb,
  if◌then◌else◌, any, lookup, insert, erase,
}
use libcheloniajs.Base.Throws.{Outcome, ok, throw}
use libcheloniajs.Journal.Json.{Value}
use libcheloniajs.Journal.Log.{ErrorDetail}
use libcheloniajs.Journal.Redact.{Thrown}
use libcheloniajs.Kv.{SlotDefinition, KvLoadStatus, failed}
use libcheloniajs.Kv.Values.{KvFailure}
use libcheloniajs.Kv.Echo.{
  EchoEntry, Bucket, echo_key_of, purge_expired_echo_cids, bucket_of, store_bucket, has_cid,
}
use libcheloniajs.Kv.Mirror.{
  KvMirrorEntry, KvState, updated, validation_error, on_remote, call, entry_at, slot_at,
  ensure_contract_kv, put_entry, set_slot_status, slot_is_current, safe_on_update_guarded,
}
use libcheloniajs.Kv.Load.{read_wire, settled_status}

pub record Frame : Type 0 where
  pub body : Outcome Thrown Value
  pub cid : Option String

-- Which markers `demoteConflictMarkers` clears.
pub data Demotion : Type 0 where
  listed : List String → Demotion
  every : Demotion

pub data RemoteNext : Type 0 where
  settled : RemoteNext
  get_then : Demotion → RemoteNext

abbrev pub in_demotion : Demotion → String → Bool
in_demotion every cid = true
in_demotion (listed cids) cid = any (λ c. str_eq c cid) cids

unfoldable pub demote : Demotion → Bucket → Bucket
demote d [] = []
demote d ((cid, e) ∷ cids) =
    (cid, (if in_demotion d cid then record e { from_conflict = false } else e)) ∷ demote d cids

-- `demoteConflictMarkers`, when the GET has settled.
unfoldable pub demote_conflict_markers : String → Demotion → KvState → KvState
demote_conflict_markers echo_key d st = elim (lookup echo_key st.echo_cids) [
  | none ↦ st
  | some cids ↦ record st { echo_cids = insert echo_key (demote d cids) st.echo_cids }
]

unfoldable pub conflict_cids : Bucket → List String
conflict_cids [] = []
conflict_cids ((cid, e) ∷ cids) =
    let rest = conflict_cids cids in if e.from_conflict then cid ∷ rest else rest

abbrev pub cid_or_none : Option String → Option String
cid_or_none cid = if has_cid cid then cid else none

-- The write of a value that has been read.
unfoldable pub store_remote :
    String
    → String
    → SlotDefinition
    → KvLoadStatus
    → Option String
    → KvMirrorEntry
    → Value × Value
    → KvState
    → KvState
store_remote contract_id key slot status etag e (next, stored) st =
    let st' = set_slot_status contract_id key status none (
      call (updated contract_id key stored e.value on_remote etag)
        (put_entry contract_id key (record e { value = stored; etag = etag }) st)) in
    if slot_is_current contract_id slot st'
    then safe_on_update_guarded contract_id slot next e.value on_remote etag st'
    else st'

-- An own echo: the marker of a conflict stays, any other is used up.
abbrev pub drop_echo : String → String → EchoEntry → KvState → KvState
drop_echo echo_key cid e st = if e.from_conflict then st else record st {
  echo_cids = store_bucket echo_key (erase cid (bucket_of echo_key st.echo_cids)) st.echo_cids;
}

abbrev pub pending_echo : ℕ → Option EchoEntry → Option EchoEntry
pending_echo now none = none
pending_echo now (some e) = if ltb now e.expiry then some e else none

abbrev pub purge_at : ℕ → String → String → KvState → KvState
purge_at now contract_id key st = record st {
  echo_cids = purge_expired_echo_cids (echo_key_of contract_id key) now st.echo_cids;
}

module _ (detail : KvFailure → ErrorDetail) where
  -- `failRemoteValidation`.
  unfoldable pub fail_remote_validation : String → String → KvFailure → KvState → KvState
  fail_remote_validation contract_id key e st =
      set_slot_status contract_id key failed (some (detail e))
        (call (validation_error contract_id key e on_remote) st)

  abbrev pub read_frame :
      String
      → String
      → SlotDefinition
      → Frame
      → KvMirrorEntry
      → Outcome KvFailure (Value × Value)
      → KvState
      → KvState
  read_frame contract_id key slot frame e (throw f) st = fail_remote_validation contract_id key f st
  read_frame contract_id key slot frame e (ok w) st =
      store_remote contract_id key slot (settled_status frame.body) (cid_or_none frame.cid) e w st

  -- The frame is applied to the entry, unless it has no CID and the entry an etag.
  unfoldable pub apply_to_entry :
      String → String → SlotDefinition → Frame → KvMirrorEntry → KvState → KvState × RemoteNext
  apply_to_entry contract_id key slot frame e st =
      let applied = read_frame contract_id key slot frame e (read_wire slot frame.body) st in
      if has_cid frame.cid
      then (applied, settled)
      else elim e.etag [ some t ↦ (st, get_then every) | none ↦ (applied, settled) ]

  unfoldable pub apply_frame :
      String → String → SlotDefinition → Frame → KvState → KvState × RemoteNext
  apply_frame contract_id key slot frame st =
      let st' = ensure_contract_kv contract_id st in
      elim (entry_at contract_id key st') [
        | none ↦ (st', settled)
        | some e ↦ apply_to_entry contract_id key slot frame e st'
      ]

  abbrev pub apply_foreign :
      String → String → SlotDefinition → Frame → List String → KvState → KvState × RemoteNext
  apply_foreign contract_id key slot frame [] st = apply_frame contract_id key slot frame st
  apply_foreign contract_id key slot frame (c ∷ cs) st = (st, get_then (listed (c ∷ cs)))

  -- A frame with a CID, behind the purge.
  unfoldable pub handle_cid :
      ℕ → String → String → SlotDefinition → Frame → String → KvState → KvState × RemoteNext
  handle_cid now contract_id key slot frame cid st =
      let echo_key = echo_key_of contract_id key in
      let cids = bucket_of echo_key st.echo_cids in
      elim (pending_echo now (lookup cid cids)) [
        | some e ↦ (drop_echo echo_key cid e st, settled)
        | none ↦ apply_foreign contract_id key slot frame (conflict_cids cids) st
      ]

  unfoldable pub handle_frame :
      ℕ → String → String → SlotDefinition → Frame → Option String → KvState → KvState × RemoteNext
  handle_frame now contract_id key slot frame none st = apply_frame contract_id key slot frame st
  handle_frame now contract_id key slot frame (some cid) st =
      if str_eq cid ""
      then apply_frame contract_id key slot frame st
      else handle_cid now contract_id key slot frame cid (purge_at now contract_id key st)

  unfoldable pub handle_remote : ℕ → String → String → Frame → KvState → KvState × RemoteNext
  handle_remote now contract_id key frame st = elim (slot_at contract_id key st) [
    | none ↦ (st, settled)
    | some slot ↦ handle_frame now contract_id key slot frame frame.cid st
  ]
