-- ===== src/Kv/Mirror.antt =====
-- src/kv.ts: the mirror of the slots, `rootState._kv`, with its status, the counters, and what is
-- called of the outside: the events and the `onUpdate` callbacks are the log `calls`. A missing
-- `_kv` is an empty dictionary. `setSlotStatus` is that of the production build.
pub mod Content
pub mod Kept
use libcheloniajs.Base.{
  ℕ, suc, ◌+◌, ◌-◌, Bool, true, false, not, ◌&&◌, ◌||◌, List, [], ◌∷◌, ◌++◌, Option, none, some,
  String, str_eq, ◌==◌, if◌then◌else◌, lookup, insert, erase,
}
use libcheloniajs.Journal.Json.{Value, undefined}
use libcheloniajs.Journal.Log.{ErrorDetail}
use libcheloniajs.Kv.{SlotDefinition, KvLoadStatus, non_init, loading, loaded, failed}
use libcheloniajs.Kv.Values.{KvFailure}
use libcheloniajs.Kv.Echo.{EchoCids}

pub record KvMirrorEntry : Type 0 where
  pub value : Value
  pub etag : Option String
  pub status : KvLoadStatus
  pub last_error : Option ErrorDetail

pub data KvUpdateReason : Type 0 where
  on_load on_remote on_local on_reconnect : KvUpdateReason

pub data KvCall : Type 0 where
  status_changed : String → String → KvLoadStatus → KvLoadStatus → Option ErrorDetail → KvCall
  updated : String → String → Value → Value → KvUpdateReason → Option String → KvCall
  validation_error : String → String → KvFailure → KvUpdateReason → KvCall
  on_update : String → String → Value → Value → KvUpdateReason → Option String → KvCall

abbrev pub Dict : Type 0 → Type 0
Dict A = List (String × A)

-- Of the context and the root state, what the code below reads and writes.
pub record KvState : Type 0 where
  pub kv : Dict (Dict KvMirrorEntry)
  pub slots : Dict (Dict SlotDefinition)
  pub subscriptions : List String
  pub echo_cids : EchoCids
  pub pending_loads : Dict ℕ
  pub on_update_active : Dict ℕ
  pub calls : List KvCall

abbrev pub call : KvCall → KvState → KvState
call c st = record st { calls = st.calls ++ c ∷ [] }

-- `outer.get(contractID)?.get(key)`.
unfoldable pub find_in {ℓ} :
    {A : Type ℓ} → String → String → List (String × List (String × A)) → Option A
find_in contract_id key m = elim (lookup contract_id m) [
  | none ↦ none
  | some inner ↦ lookup key inner
]

abbrev pub entry_at : String → String → KvState → Option KvMirrorEntry
entry_at contract_id key st = find_in contract_id key st.kv

abbrev pub slot_at : String → String → KvState → Option SlotDefinition
slot_at contract_id key st = find_in contract_id key st.slots

-- `ensureContractKv`.
unfoldable pub ensure_contract_kv : String → KvState → KvState
ensure_contract_kv contract_id st = elim (lookup contract_id st.kv) [
  | none ↦ record st { kv = insert contract_id [] st.kv }
  | some inner ↦ st
]

-- The write to a field of an entry, which the source reaches through the reference.
unfoldable pub put_in :
    String → String → KvMirrorEntry → Dict (Dict KvMirrorEntry) → Dict (Dict KvMirrorEntry)
put_in contract_id key e m = elim (lookup contract_id m) [
  | none ↦ m
  | some inner ↦ insert contract_id (insert key e inner) m
]

abbrev pub put_entry : String → String → KvMirrorEntry → KvState → KvState
put_entry contract_id key e st = record st { kv = put_in contract_id key e st.kv }

abbrev pub status_eq : KvLoadStatus → KvLoadStatus → Bool
status_eq non_init non_init = true
status_eq loading loading = true
status_eq loaded loaded = true
status_eq failed failed = true
status_eq _ _ = false

abbrev pub same_error : Option ErrorDetail → Option ErrorDetail → Bool
same_error none none = true
same_error (some a) (some b) = str_eq a.name b.name && str_eq a.message b.message
same_error _ _ = false

unfoldable pub set_status_of :
    String → String → KvLoadStatus → Option ErrorDetail → KvMirrorEntry → KvState → KvState
set_status_of contract_id key status last_error e st =
    if status_eq e.status status && same_error last_error e.last_error
    then st
    else call (status_changed contract_id key status e.status last_error)
        (put_entry contract_id key (record e { status = status; last_error = last_error }) st)

unfoldable pub set_slot_status :
    String → String → KvLoadStatus → Option ErrorDetail → KvState → KvState
set_slot_status contract_id key status last_error st = elim (entry_at contract_id key st) [
  | none ↦ st
  | some e ↦ set_status_of contract_id key status last_error e st
]

-- `incrementPending` and the like, over their maps.
unfoldable pub increment : String → Dict ℕ → Dict ℕ
increment contract_id m = elim (lookup contract_id m) [
  | none ↦ insert contract_id 1 m
  | some n ↦ insert contract_id (n + 1) m
]

abbrev pub store_count : String → ℕ → Dict ℕ → Dict ℕ
store_count contract_id n m = if n == 0 then erase contract_id m else insert contract_id n m

unfoldable pub decrement : String → Dict ℕ → Dict ℕ
decrement contract_id m = elim (lookup contract_id m) [
  | none ↦ erase contract_id m
  | some n ↦ store_count contract_id (n - 1) m
]

abbrev pub is_current_in : SlotDefinition → Option SlotDefinition → Bool
is_current_in slot none = false
is_current_in slot (some s) = s.identity == slot.identity

-- `slotIsCurrent`.
abbrev pub slot_is_current : String → SlotDefinition → KvState → Bool
slot_is_current contract_id slot st = is_current_in slot (slot_at contract_id slot.key st)

-- `safeOnUpdateGuarded`, with the call of the callback between the two counts.
unfoldable pub safe_on_update_guarded :
    String → SlotDefinition → Value → Value → KvUpdateReason → Option String → KvState → KvState
safe_on_update_guarded contract_id slot value previous reason etag st =
    if slot.has_on_update
    then call (on_update contract_id slot.key value previous reason etag) (record st {
      on_update_active = decrement contract_id (increment contract_id st.on_update_active);
    })
    else st

-- `assertNotReentrant`: whether it lets the call through.
unfoldable pub is_not_reentrant : String → KvState → Bool
is_not_reentrant contract_id st = elim (lookup contract_id st.on_update_active) [
  | none ↦ true
  | some n ↦ n == 0
]
