-- ===== src/Journal/Record.antt =====
-- src/journal.ts, "SBP integration": the selectors recordEvent, get, reconstruct and clear. The
-- state is `rootState.contracts`: of each contract its type and its journal. The `reactiveSet` and
-- `reactiveDel` of the configuration set and delete a property.
pub mod Laws
pub mod Current
mod Tests
use libcheloniajs.Base.{
  ℕ, suc, ◌+◌, Bool, true, false, not, ◌&&◌, ◌||◌, List, [], ◌∷◌, ◌++◌, Option, none, some, String,
  str_eq, ltb, ◌==◌, if◌then◌else◌, lookup, insert, any,
}
use libcheloniajs.Base.Throws.{Outcome, ok, throw}
use libcheloniajs.Journal.Json.{Value, undefined, null}
use libcheloniajs.Journal.Diff.{Patch, default_diff}
use libcheloniajs.Journal.Turtledash.{Turtledash}
use libcheloniajs.Journal.Apply.{ApplyError, default_apply_patch}
use libcheloniajs.Journal.Redact.{Thrown, Redaction, apply_redactions}
use libcheloniajs.Journal.Log.{
  ErrorDetail, Body, snapshot, patches, JournalEntry, append_and_trim, CorruptError, reconstruct,
}
use libcheloniajs.Journal.Config.{Resolved, Throwable, error_detail, PatchError, or_default}

-- What is read of the SPMessage; a `description()` that throws is none.
pub record Event : Type 0 where
  pub hash : String
  pub height : ℕ
  pub op_type : String
  pub description : Option String

pub record ContractMeta : Type 0 where
  pub contract_type : Option String
  pub journal : Option (List JournalEntry)

abbrev pub Contracts : Type 0
Contracts = List (String × ContractMeta)

abbrev pub last_entry : List JournalEntry → Option JournalEntry
last_entry [] = none
last_entry (e ∷ []) = some e
last_entry (e ∷ (f ∷ es)) = last_entry (f ∷ es)

abbrev pub entries_of : ContractMeta → List JournalEntry
entries_of meta = or_default [] meta.journal

-- The same event once more.
abbrev pub is_duplicate : Event → Option JournalEntry → Bool
is_duplicate ev none = false
is_duplicate ev (some last) = str_eq last.hash ev.hash && (ev.height == last.height)

-- `isFirstOrResync`: no entry yet, or a height that goes back or leaves a gap.
abbrev pub is_first_or_resync : Event → Option JournalEntry → Bool
is_first_or_resync ev none = true
is_first_or_resync ev (some last) = ltb ev.height last.height || ltb (last.height + 1) ev.height

abbrev pub redacted : Turtledash → Resolved → String → Value → Option Value → Value
redacted t cfg name missing none = missing
redacted t cfg name missing (some state) = apply_redactions t state cfg.redactions name

abbrev pub or_no_patch : Outcome Thrown (List Patch) → List Patch
or_no_patch (ok ps) = ps
or_no_patch (throw e) = []

abbrev pub entry_of : Event → Body → Option ErrorDetail → JournalEntry
entry_of ev body error = record {
  hash = ev.hash;
  height = ev.height;
  op_type = ev.op_type;
  description = ev.description;
  body = body;
  error = error;
}

module _ (t : Turtledash) (cfg : Resolved) where
  -- The entries after an event that is no duplicate.
  unfoldable pub next_entries :
      String
      → List JournalEntry
      → Event
      → Option Value
      → Option Value
      → Bool
      → Throwable
      → List JournalEntry
  next_entries name existing ev before after errored error =
      let redacted_after = redacted t cfg name null after in
      let redacted_before = redacted t cfg name undefined before in
      let detail = error_detail errored error in
      if is_first_or_resync ev (last_entry existing)
      then entry_of ev (snapshot redacted_after) detail ∷ []
      else append_and_trim existing
          (entry_of ev
            (patches
              (if errored then [] else or_no_patch (cfg.diff redacted_before redacted_after)))
            detail)
          cfg.snapshot_interval (some redacted_after)

  abbrev pub record_in_meta :
      ContractMeta → Event → Option Value → Option Value → Bool → Throwable → ContractMeta
  record_in_meta meta ev before after errored error =
      if is_duplicate ev (last_entry (entries_of meta)) then meta else record meta {
        journal = some (
            next_entries (or_default "" meta.contract_type) (entries_of meta) ev before after
              errored error);
      }

  abbrev pub is_selected : String → Bool
  is_selected contract_id = elim cfg.contract_ids [
    | none ↦ true
    | some ids ↦ any (λ id. str_eq id contract_id) ids
  ]

  -- `chelonia/private/journal/recordEvent`; nothing in the model's body throws.
  unfoldable pub record_event :
      String → Event → Option Value → Option Value → Bool → Throwable → Contracts → Contracts
  record_event contract_id ev before after errored error contracts =
      if cfg.enabled && is_selected contract_id
      then elim (lookup contract_id contracts) [
        | none ↦ contracts
        | some meta ↦
            insert contract_id (record_in_meta meta ev before after errored error) contracts
      ]
      else contracts

  -- `chelonia/journal/reconstruct`.
  unfoldable pub reconstruct_contract :
      String → Contracts → Outcome (CorruptError PatchError) (Option Value)
  reconstruct_contract contract_id contracts = elim (lookup contract_id contracts) [
    | none ↦ ok none
    | some meta ↦ reconstruct cfg.apply_patch (entries_of meta)
  ]

-- `chelonia/journal/get`, a clone of the journal.
unfoldable pub get_journal : String → Contracts → Option (List JournalEntry)
get_journal contract_id contracts = elim (lookup contract_id contracts) [
  | none ↦ none
  | some meta ↦ meta.journal
]

abbrev pub without_journal : ContractMeta → ContractMeta
without_journal meta = record meta { journal = none }

abbrev pub has_journal : ContractMeta → Bool
has_journal meta = elim meta.journal [ none ↦ false | some es ↦ true ]

unfoldable pub clear_all : Contracts → Contracts × ℕ
clear_all [] = ([], 0)
clear_all ((id, meta) ∷ contracts) =
    let (rest, n) = clear_all contracts in
    if has_journal meta then ((id, without_journal meta) ∷ rest, suc n) else ((id, meta) ∷ rest, n)

-- `chelonia/journal/clear` for one contract.
unfoldable pub clear_one : String → Contracts → Contracts × ℕ
clear_one contract_id contracts = elim (lookup contract_id contracts) [
  | none ↦ (contracts, 0)
  | some meta ↦
      if has_journal meta
      then (insert contract_id (without_journal meta) contracts, 1)
      else (contracts, 0)
]

-- An absent or empty identifier clears every journal.
unfoldable pub clear_journal : Option String → Contracts → Contracts × ℕ
clear_journal none contracts = clear_all contracts
clear_journal (some id) contracts =
    if str_eq id "" then clear_all contracts else clear_one id contracts
