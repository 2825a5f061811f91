-- ===== src/Db.antt =====
-- src/db.ts: the log of each contract's messages, over a store of texts. The store is what the
-- selectors `chelonia.db/get` and `chelonia.db/set` of the full client reach; its keys are of three
-- kinds, which their prefixes tell apart, and JSON is the value that it prints. A `set` may fail:
-- `set_error` is what it throws, if it does. `is_error_db` is whether an error's name has "ErrorDB".
pub mod Chain
pub mod Refinement
pub mod Runs
mod Tests
use libcheloniajs.Base.{
  ℕ, suc, ◌+◌, Bool, true, false, not, ◌&&◌, List, [], ◌∷◌, Option, none, some, String, str_eq,
  ◌==◌, if◌then◌else◌, lookup, insert, erase,
}
use libcheloniajs.Base.Throws.{Outcome, ok, throw}
use libcheloniajs.Journal.Redact.{Thrown}

-- Of an SPMessage, what the code reads: the `contractID` of its head, which the first message has
-- not, and its height, none where it is no safe integer.
pub record Entry : Type 0 where
  pub hash : String
  pub head_contract_id : Option String
  pub previous_head : Option String
  pub previous_key_op : Option String
  pub height : Option ℕ
  pub is_key_op : Bool
  pub serialized : String

-- HEADinfo.
pub record HeadInfo : Type 0 where
  pub head : String
  pub previous_key_op : Option String
  pub height : ℕ

pub record EntryMeta : Type 0 where
  pub contract_id : String
  pub height : ℕ
  pub hash : String
  pub is_key_op : Bool

pub data Key : Type 0 where
  hash_key : String → Key
  log_head : String → Key
  height_index : String → ℕ → Key

-- The entries by their hash; the heads, none standing for the empty text; and the metadata, of
-- which the newest of a contract and height counts.
pub record Store : Type 0 where
  pub entries : List (String × String)
  pub heads : List (String × Option HeadInfo)
  pub metas : List EntryMeta

pub data BadHead : Type 0 where
  no_latest_head previous_head_differs previous_key_op_differs height_differs : BadHead
  head_exists height_not_zero : BadHead

pub data DbError : Type 0 where
  bad_previous_head : BadHead → DbError
  connection : Option Thrown → DbError
  rethrown : Thrown → DbError

abbrev pub is_text : Option String → Bool
is_text none = false
is_text (some t) = not (str_eq t "")

abbrev pub is_first_message : Entry → Bool
is_first_message e = not (is_text e.head_contract_id)

abbrev pub id_or : String → Option String → String
id_or hash none = hash
id_or hash (some c) = if str_eq c "" then hash else c

abbrev pub contract_id_of : Entry → String
contract_id_of e = id_or e.hash e.head_contract_id

abbrev pub same_text : Option String → Option String → Bool
same_text none none = true
same_text (some a) (some b) = str_eq a b
same_text _ _ = false

abbrev pub is_height : ℕ → Option ℕ → Bool
is_height n none = false
is_height n (some h) = h == n

abbrev pub join {ℓ} : {A : Type ℓ} → Option (Option A) → Option A
join none = none
join (some a) = a

-- `chelonia/db/latestHEADinfo`, and its removal.
unfoldable pub latest_head_info : String → Store → Option HeadInfo
latest_head_info contract_id s = join (lookup contract_id s.heads)

unfoldable pub delete_latest_head_info : String → Store → Store
delete_latest_head_info contract_id s = record s { heads = insert contract_id none s.heads }

-- The checks of an entry against the head.
abbrev pub check_next : Entry → HeadInfo → Outcome BadHead (Unit {0})
check_next e i =
    if not (same_text e.previous_head (some i.head))
    then throw previous_head_differs
    else if not (same_text e.previous_key_op i.previous_key_op)
    then throw previous_key_op_differs
    else if not (is_height (i.height + 1) e.height)
    then throw height_differs
    else ok tt

unfoldable pub check_head : Entry → Option HeadInfo → Outcome BadHead (Unit {0})
check_head e none =
    if is_first_message e
    then (if is_height 0 e.height then ok tt else throw height_not_zero)
    else throw no_latest_head
check_head e (some i) = if is_first_message e then throw head_exists else check_next e i

abbrev pub or_zero : Option ℕ → ℕ
or_zero none = 0
or_zero (some h) = h

-- What the head is after an entry.
unfoldable pub head_info_of : Entry → HeadInfo
head_info_of e = record {
  head = e.hash;
  previous_key_op = if e.is_key_op then some e.hash else e.previous_key_op;
  height = or_zero e.height;
}

abbrev pub put_entry_text : Entry → Store → Store
put_entry_text e s = record s { entries = insert e.hash e.serialized s.entries }

abbrev pub put_head : Entry → Store → Store
put_head e s = record s { heads = insert (contract_id_of e) (some (head_info_of e)) s.heads }

abbrev pub put_meta : Entry → Store → Store
put_meta e s = record s {
  metas =
      record {
        contract_id = contract_id_of e;
        height = or_zero e.height;
        hash = e.hash;
        is_key_op = e.is_key_op;
      }
      ∷ s.metas;
}

-- An error that is no ErrorDB is wrapped: "No latest HEAD" is a plain Error.
abbrev pub refusal : BadHead → DbError
refusal no_latest_head = connection none
refusal b = bad_previous_head b

module _ (save_message_metadata : Bool) (is_error_db : Thrown → Bool)
    (set_error : Key → Store → Option Thrown) where
  abbrev pub failure : Thrown → DbError
  failure t = if is_error_db t then rethrown t else connection (some t)

  -- A `set`, and what follows it.
  abbrev pub set_then :
      Option Thrown → Store → (Store × Outcome DbError String) → Store × Outcome DbError String
  set_then none s rest = rest
  set_then (some t) s rest = (s, throw (failure t))

  -- `setEntryMeta`, and the answer.
  unfoldable pub write_meta : Entry → Store → Store × Outcome DbError String
  write_meta e s =
      if save_message_metadata
      then set_then (set_error (height_index (contract_id_of e) (or_zero e.height)) s) s
          (put_meta e s, ok e.hash)
      else (s, ok e.hash)

  unfoldable pub write_head : Entry → Store → Store × Outcome DbError String
  write_head e s =
      set_then (set_error (log_head (contract_id_of e)) s) s (write_meta e (put_head e s))

  -- The three writes, each of which may fail.
  unfoldable pub write_entry : Entry → Store → Store × Outcome DbError String
  write_entry e s = set_then (set_error (hash_key e.hash) s) s (write_head e (put_entry_text e s))

  abbrev pub write_checked :
      Entry → Store → Outcome BadHead (Unit {0}) → Store × Outcome DbError String
  write_checked e s (throw b) = (s, throw (refusal b))
  write_checked e s (ok u) = write_entry e s

  unfoldable pub add_entry : Entry → Store → Store × Outcome DbError String
  add_entry e s =
      if is_text (lookup e.hash s.entries)
      then (s, ok e.hash)
      else write_checked e s (check_head e (latest_head_info (contract_id_of e) s))
