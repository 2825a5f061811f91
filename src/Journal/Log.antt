-- ===== src/Journal/Log.antt =====
-- src/journal.ts, "SBP integration": the entries of the journal, `appendAndTrim` and what replays
-- them. The JournalEntry union is a record with a body for each kind.
pub mod Window
pub mod Replay
use libcheloniajs.Base.{
  ℕ, zero, suc, ◌+◌, ◌-◌, ◌*◌, Bool, true, false, not, ◌&&◌, List, [], ◌∷◌, ◌++◌, Option, none,
  some, String, ltb, leb, if◌then◌else◌, length,
}
use libcheloniajs.Base.Throws.{Outcome, ok, throw, ◌>>=◌}
use libcheloniajs.Journal.Json.{Value, is_undefined}
use libcheloniajs.Journal.Diff.{Patch}

pub record ErrorDetail : Type 0 where
  pub name : String
  pub message : String

pub data Body : Type 0 where
  snapshot : Value → Body
  patches : List Patch → Body

pub record JournalEntry : Type 0 where
  pub hash : String
  pub height : ℕ
  pub op_type : String
  pub description : Option String
  pub body : Body
  pub error : Option ErrorDetail

abbrev pub is_snapshot_body : Body → Bool
is_snapshot_body (snapshot v) = true
is_snapshot_body (patches ps) = false

abbrev pub is_snapshot : JournalEntry → Bool
is_snapshot e = is_snapshot_body e.body

-- `indexOfLastSnapshot`; none is -1.
unfoldable pub index_of_last_snapshot : List JournalEntry → Option ℕ
index_of_last_snapshot [] = none
index_of_last_snapshot (e ∷ es) = elim (index_of_last_snapshot es) [
  | some i ↦ some (suc i)
  | none ↦ if is_snapshot e then some 0 else none
]

-- `entries.length - 1 - lastSnapIdx`.
abbrev pub patches_since : List JournalEntry → ℕ
patches_since es = elim (index_of_last_snapshot es) [
  | none ↦ length es
  | some i ↦ length es - 1 - i
]

abbrev pub auto_snapshot : JournalEntry → Value → JournalEntry
auto_snapshot entry state = record entry { body = snapshot state }

-- The snapshot at the boundary.
unfoldable pub push_snapshot :
    List JournalEntry → JournalEntry → ℕ → Option Value → List JournalEntry
push_snapshot es entry interval none = es
push_snapshot es entry interval (some state) =
    if not (is_undefined state) && (not (is_snapshot entry) && leb interval (patches_since es))
    then es ++ auto_snapshot entry state ∷ []
    else es

-- `entries.splice(0, n)`.
abbrev pub drop_entries : ℕ → List JournalEntry → List JournalEntry
drop_entries zero es = es
drop_entries (suc n) [] = []
drop_entries (suc n) (e ∷ es) = drop_entries n es

unfoldable pub trim : List JournalEntry → ℕ → List JournalEntry
trim es interval =
    if ltb (2 * interval) (length es)
    then elim (index_of_last_snapshot es) [ none ↦ es | some i ↦ drop_entries i es ]
    else es

unfoldable pub append_and_trim :
    List JournalEntry → JournalEntry → ℕ → Option Value → List JournalEntry
append_and_trim entries entry interval post =
    trim (push_snapshot (entries ++ entry ∷ []) entry interval post) interval

-- The loop of `chelonia/journal/reconstruct`, from the entry behind the snapshot: the index counts
-- the entries, and an error carries the index of the entry that failed.
pub record CorruptError (E : Type 0) : Type 0 where
  pub entry_index : ℕ
  pub cause : E

abbrev pub corrupt {ℓ} : {E : Type 0} {A : Type ℓ} → ℕ → Outcome E A → Outcome (CorruptError E) A
corrupt i (ok a) = ok a
corrupt i (throw e) = throw (record { entry_index = i; cause = e })

module _ {E : Type 0} (apply_patch : Value → List Patch → Outcome E Value) where
  -- One round of the loop.
  unfoldable pub replay_body : Body → ℕ → Value → Outcome (CorruptError E) Value
  replay_body (snapshot v) i state = ok state
  replay_body (patches ps) i state = corrupt i (apply_patch state ps)

  unfoldable pub replay : List JournalEntry → ℕ → Value → Outcome (CorruptError E) Value
  replay [] i state = ok state
  replay (e ∷ es) i state = replay_body e.body i state >>= replay es (suc i)

  abbrev pub start_from : Body → List JournalEntry → ℕ → Outcome (CorruptError E) (Option Value)
  start_from (snapshot v) es i = replay es (suc i) v >>= λ s. ok (some s)
  start_from (patches ps) es i = ok none

  abbrev pub replay_from : List JournalEntry → ℕ → Outcome (CorruptError E) (Option Value)
  replay_from [] i = ok none
  replay_from (e ∷ es) i = start_from e.body es i

  abbrev pub resume : Option ℕ → List JournalEntry → Outcome (CorruptError E) (Option Value)
  resume none es = ok none
  resume (some i) es = replay_from (drop_entries i es) i

  -- The body of `chelonia/journal/reconstruct`: none is the return of undefined.
  unfoldable pub reconstruct : List JournalEntry → Outcome (CorruptError E) (Option Value)
  reconstruct es = resume (index_of_last_snapshot es) es
