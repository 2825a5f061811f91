-- ===== src/Kv/Mirror/Content.antt =====
-- src/kv.ts: the values and etags of the mirror, which a change of status leaves alone.
use libcheloniajs.Base.{
  ℕ, ◌+◌, ◌-◌, ◌≡◌, ◌&&◌, [], Option, none, some, String, str_eq, eq_iff, if◌then◌else◌, lookup,
  insert, arith, lookup-insert, lookup-erase, Bool-cases, Option-cases, inl, inr,
}
use libcheloniajs.Journal.Json.{Value}
use libcheloniajs.Journal.Log.{ErrorDetail}
use libcheloniajs.Kv.{SlotDefinition, KvLoadStatus}
use libcheloniajs.Kv.Mirror.{
  KvMirrorEntry, KvUpdateReason, KvState, Dict, find_in, entry_at, ensure_contract_kv, put_in,
  set_status_of, set_slot_status, increment, decrement, safe_on_update_guarded, status_eq,
  same_error,
}

abbrev pub content : Option KvMirrorEntry → Option (Value × Option String)
content none = none
content (some e) = some (e.value, e.etag)

-- The value and the etag of a slot.
abbrev pub content_at : String → String → KvState → Option (Value × Option String)
content_at c k st = content (entry_at c k st)

pub find_in-put_in :
    (c k c' k' : String) (e : KvMirrorEntry) (m : Dict (Dict KvMirrorEntry)) (old : KvMirrorEntry)
    → find_in c k m ≡ some old
    → find_in c' k' (put_in c k e m)
      ≡ (if str_eq c c' && str_eq k k' then some e else find_in c' k' m)
unfolding find_in put_in
find_in-put_in c k c' k' e m old h = elim (Option-cases (lookup c m)) [
  | inl gone ↦ ground (arith, gone, h)
  | inr (inner, found) ↦ ground (
    arith,
    found,
    eq_iff c c',
    lookup-insert c c' (insert k e inner) m,
    lookup-insert k k' e inner,
  )
]

content_at-set_status_of :
    (c k c' k' : String) (s : KvLoadStatus) (err : Option ErrorDetail) (e : KvMirrorEntry)
    (st : KvState)
    → entry_at c k st ≡ some e
    → content_at c' k' (set_status_of c k s err e st) ≡ content_at c' k' st
unfolding set_status_of
content_at-set_status_of c k c' k' s err e st found =
    elim (Bool-cases (status_eq e.status s && same_error err e.last_error)) [
      | inl same ↦ rw (same, set_status_of)
      | inr changed ↦
          rw
            (
              changed,
              set_status_of,
              find_in-put_in c k c' k' (record e { status = s; last_error = err }) st.kv e found,
            )
            (ground (arith, found, eq_iff c c', eq_iff k k'))
    ]

pub content_at-set_slot_status :
    (c k c' k' : String) (s : KvLoadStatus) (err : Option ErrorDetail) (st : KvState)
    → content_at c' k' (set_slot_status c k s err st) ≡ content_at c' k' st
unfolding set_slot_status
content_at-set_slot_status c k c' k' s err st = elim (Option-cases (entry_at c k st)) [
  | inl gone ↦ rw (gone, set_slot_status)
  | inr (e, found) ↦
      rw (found, set_slot_status) (content_at-set_status_of c k c' k' s err e st found)
]

pub content_at-ensure_contract_kv :
    (c c' k' : String) (st : KvState)
    → content_at c' k' (ensure_contract_kv c st) ≡ content_at c' k' st
unfolding ensure_contract_kv find_in lookup
content_at-ensure_contract_kv c c' k' st = elim (Option-cases (lookup c st.kv)) [
  | inl gone ↦ ground (arith, gone, eq_iff c c', lookup-insert c c' [] st.kv)
  | inr (inner, found) ↦ rw (found, ensure_contract_kv)
]

pub content_at-safe_on_update_guarded :
    (c c' k' : String) (slot : SlotDefinition) (v p : Value) (r : KvUpdateReason)
    (t : Option String) (st : KvState)
    → content_at c' k' (safe_on_update_guarded c slot v p r t st) ≡ content_at c' k' st
unfolding safe_on_update_guarded
content_at-safe_on_update_guarded c c' k' slot v p r t st = elim (Bool-cases slot.has_on_update) [
  | inl has ↦ rw (has, safe_on_update_guarded)
  | inr lacks ↦ rw (lacks, safe_on_update_guarded)
]

-- The count of a contract, 0 where it has none.
abbrev pub count_of : String → Dict ℕ → ℕ
count_of c m = elim (lookup c m) [ none ↦ 0 | some n ↦ n ]

-- A decrement takes back an increment, of every contract's count.
pub decrement-increment :
    (c c' : String) (m : Dict ℕ) → count_of c' (decrement c (increment c m)) ≡ count_of c' m
unfolding decrement increment
decrement-increment c c' m = elim (Option-cases (lookup c m)) [
  | inl gone ↦ ground (
    arith,
    gone,
    eq_iff c c',
    eq_iff c c,
    lookup-insert c c 1 m,
    lookup-insert c c' 1 m,
    lookup-erase c c' (insert c 1 m),
  )
  | inr (n, found) ↦ ground (
    arith,
    found,
    eq_iff c c',
    eq_iff c c,
    lookup-insert c c (n + 1) m,
    lookup-insert c c' (n + 1) m,
    lookup-insert c c' (n + 1 - 1) (insert c (n + 1) m),
    lookup-erase c c' (insert c (n + 1) m),
  )
]
