-- ===== src/Db/Chain.antt =====
-- src/db.ts: what the log of a contract is meant to be, a chain of entries that only grows, and how
-- a store represents it.
use libcheloniajs.Base.{
  ℕ, suc, ◌≡◌, Bool, true, false, not, ◌&&◌, List, [], ◌∷◌, Option, none, some, String, All, lookup,
  if◌then◌else◌,
}
use libcheloniajs.Db.{
  Entry, HeadInfo, Store, is_first_message, contract_id_of, same_text, is_height, is_text, join,
}

-- The newest entry first.
abbrev pub Chain : Type 0
Chain = List Entry

-- The hash of the chain's newest key operation, as its newest entry tells it.
abbrev pub latest_key_op : Chain → Option String
latest_key_op [] = none
latest_key_op (e ∷ es) = if e.is_key_op then some e.hash else e.previous_key_op

abbrev pub last_hash : Chain → Option String
last_hash [] = none
last_hash (e ∷ es) = some e.hash

abbrev pub length_of : Chain → ℕ
length_of [] = 0
length_of (e ∷ es) = suc (length_of es)

abbrev pub is_new : Chain → Bool
is_new [] = true
is_new (e ∷ es) = false

-- Whether an entry is the next one of a chain: the first message begins it, and any other names
-- the newest entry and the newest key operation; its height is the number of entries before it.
unfoldable pub is_next : Entry → Chain → Bool
is_next e [] = is_first_message e && is_height 0 e.height
is_next e (p ∷ es) =
    not (is_first_message e)
    && (same_text e.previous_head (last_hash (p ∷ es))
        && (same_text e.previous_key_op (latest_key_op (p ∷ es))
            && is_height (length_of (p ∷ es)) e.height))

-- The entries of a chain follow each other, from the first message on.
unfoldable pub IsLinked : Chain → Type 0
IsLinked [] = Unit {0}
IsLinked (e ∷ es) = (is_next e es ≡ true) × IsLinked es

-- The head that a chain has.
abbrev pub head_of : Chain → Option HeadInfo
head_of [] = none
head_of (e ∷ es) =
    some (record { head = e.hash; previous_key_op = latest_key_op (e ∷ es); height = length_of es })

-- The text of an entry of the contract is in the store, under the entry's hash.
pub record IsStored (c : String) (s : Store) (e : Entry) : Type 0 where
  pub of_contract : contract_id_of e ≡ c
  pub nonempty : is_text (some e.serialized) ≡ true
  pub stored : lookup e.hash s.entries ≡ some e.serialized

-- The store holds the chain as the log of the contract.
pub record IsLog (c : String) (chain : Chain) (s : Store) : Type 0 where
  pub head : join (lookup c s.heads) ≡ head_of chain
  pub linked : IsLinked chain
  pub stored : All (IsStored c s) chain
