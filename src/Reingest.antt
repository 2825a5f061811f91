-- ===== src/Reingest.antt =====
-- src/reingestTracker.ts: the hashes of events "from the future", per contract.
-- The module's `trackers` map is the state that every function takes and returns. A `Set` of
-- entry objects is the list of its entries in insertion order; a height is a natural number.
pub mod Laws
pub mod Ordering
pub mod Waiting
pub mod Gaps
pub mod Redelivery
mod Tests
use libcheloniajs.Base.{
  ℕ, suc, ◌+◌, Bool, true, false, List, [], ◌∷◌, ◌++◌, Option, none, some, String, leb, str_eq,
  if◌then◌else◌, length, lookup, insert, erase,
}
use libcheloniajs.Base.Throws.{Outcome, ok, throw}

pub record Entry : Type 0 where
  pub hash : String
  pub height : ℕ

abbrev pub Trackers : Type 0
Trackers = List (String × List Entry)

pub data Note : Type 0 where
  added duplicate : Note

-- `ChelErrorUnrecoverable`, the only error that the tracker throws.
pub data TrackerError : Type 0 where
  unrecoverable : TrackerError

abbrev pub reingest_per_contract_cap : ℕ
reingest_per_contract_cap = 20

-- The loop `for (const entry of s) if (entry.hash === hash) …`.
unfoldable pub has_hash : String → List Entry → Bool
has_hash hash [] = false
has_hash hash (e ∷ s) = if str_eq e.hash hash then true else has_hash hash s

-- The set for a contract, made on demand.
unfoldable pub ensure : String → Trackers → List Entry × Trackers
ensure contract_id ts = elim (lookup contract_id ts) [
  | none ↦ ([], insert contract_id [] ts)
  | some s ↦ (s, ts)
]

abbrev record_entry :
    String → String → ℕ → List Entry × Trackers → Trackers × Outcome TrackerError Note
record_entry contract_id hash height (s, ts) =
    if has_hash hash s
    then (ts, ok duplicate)
    else if leb reingest_per_contract_cap (length s)
    then (ts, throw unrecoverable)
    else (insert contract_id (s ++ record { hash = hash; height = height } ∷ []) ts, ok added)

unfoldable pub note_future_event :
    String → String → ℕ → Trackers → Trackers × Outcome TrackerError Note
note_future_event contract_id hash height ts =
    record_entry contract_id hash height (ensure contract_id ts)

-- `s.delete(entry)` for the first entry with the hash.
unfoldable pub delete_hash : String → List Entry → List Entry
delete_hash hash [] = []
delete_hash hash (e ∷ s) = if str_eq e.hash hash then s else e ∷ delete_hash hash s

-- The set after a deletion: an empty one is dropped from the map.
unfoldable pub store : String → List Entry → Trackers → Trackers
store contract_id [] ts = erase contract_id ts
store contract_id (e ∷ s) ts = insert contract_id (e ∷ s) ts

unfoldable pub note_reingest_success : String → String → Trackers → Trackers × Bool
note_reingest_success contract_id hash ts = elim (lookup contract_id ts) [
  | none ↦ (ts, false)
  | some s ↦
      if has_hash hash s then (store contract_id (delete_hash hash s) ts, true) else (ts, false)
]

-- The loop of `pruneStaleEntries`: what stays in the set, and how many entries go.
unfoldable pub keep_above : ℕ → List Entry → List Entry
keep_above processed [] = []
keep_above processed (e ∷ s) =
    let rest = keep_above processed s in if leb e.height processed then rest else e ∷ rest

unfoldable pub count_stale : ℕ → List Entry → ℕ
count_stale processed [] = 0
count_stale processed (e ∷ s) =
    let rest = count_stale processed s in if leb e.height processed then suc rest else rest

unfoldable pub prune_stale_entries : String → ℕ → Trackers → Trackers × ℕ
prune_stale_entries contract_id processed ts = elim (lookup contract_id ts) [
  | none ↦ (ts, 0)
  | some s ↦ (store contract_id (keep_above processed s) ts, count_stale processed s)
]

unfoldable pub has_pending_reingest : String → String → Trackers → Bool
has_pending_reingest contract_id hash ts = elim (lookup contract_id ts) [
  | none ↦ false
  | some s ↦ has_hash hash s
]

unfoldable pub pending_reingest_count : String → Trackers → ℕ
pending_reingest_count contract_id ts = elim (lookup contract_id ts) [
  | none ↦ 0
  | some s ↦ length s
]

unfoldable pub clear_reingest_tracker_for_contract : String → Trackers → Trackers
clear_reingest_tracker_for_contract contract_id ts = erase contract_id ts

unfoldable pub clear_reingest_tracker_all : Trackers → Trackers
clear_reingest_tracker_all ts = []
