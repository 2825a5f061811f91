-- ===== src/Kv/Echo.antt =====
-- src/kv.ts: the server-issued CIDs whose echoes are dropped, `kvLocalEchoCIDs`. The two maps are
-- dictionaries in insertion order; the clock is an argument, in whole milliseconds.
pub mod Laws
pub mod Bound
pub mod Record
use Prim.Native.String.{◌++◌ as text_append}
use libcheloniajs.Base.{
  ℕ, zero, suc, ◌+◌, ◌-◌, Bool, true, false, not, ◌&&◌, List, [], ◌∷◌, Option, none, some, String,
  str_eq, leb, ltb, if◌then◌else◌, length, lookup, insert, erase,
}

pub record EchoEntry : Type 0 where
  pub expiry : ℕ
  pub from_conflict : Bool

abbrev pub Bucket : Type 0
Bucket = List (String × EchoEntry)

abbrev pub EchoCids : Type 0
EchoCids = List (String × Bucket)

abbrev pub kv_echo_cid_max : ℕ
kv_echo_cid_max = 128

abbrev pub kv_echo_ttl_ms : ℕ
kv_echo_ttl_ms = 300000

abbrev pub echo_key_of : String → String → String
echo_key_of contract_id key = text_append contract_id (text_append "::" key)

-- The loop of `purgeExpiredEchoCIDs`.
unfoldable pub keep_pending : ℕ → Bucket → Bucket
keep_pending now [] = []
keep_pending now ((cid, e) ∷ cids) =
    let rest = keep_pending now cids in if leb e.expiry now then rest else (cid, e) ∷ rest

-- An empty bucket is deleted.
unfoldable pub store_bucket : String → Bucket → EchoCids → EchoCids
store_bucket echo_key [] m = erase echo_key m
store_bucket echo_key (c ∷ cids) m = insert echo_key (c ∷ cids) m

unfoldable pub purge_expired_echo_cids : String → ℕ → EchoCids → EchoCids
purge_expired_echo_cids echo_key now m = elim (lookup echo_key m) [
  | none ↦ m
  | some cids ↦ store_bucket echo_key (keep_pending now cids) m
]

unfoldable pub bucket_of : String → EchoCids → Bucket
bucket_of echo_key m = elim (lookup echo_key m) [ none ↦ [] | some cids ↦ cids ]

-- `(a, b) => …` of the sort, as whether `a` may stand before `b`.
unfoldable pub evicted_first : EchoEntry → EchoEntry → Bool
evicted_first a b =
    if a.from_conflict
    then (if b.from_conflict then leb a.expiry b.expiry else false)
    else (if b.from_conflict then true else leb a.expiry b.expiry)

unfoldable pub insert_target : String → EchoEntry → Bucket → Bucket
insert_target cid e [] = (cid, e) ∷ []
insert_target cid e ((d, f) ∷ cids) =
    let rest = insert_target cid e cids in
    if evicted_first e f then (cid, e) ∷ ((d, f) ∷ cids) else (d, f) ∷ rest

unfoldable pub sort_targets : Bucket → Bucket
sort_targets [] = []
sort_targets ((cid, e) ∷ cids) = insert_target cid e (sort_targets cids)

abbrev pub take_targets : ℕ → Bucket → Bucket
take_targets zero cids = []
take_targets (suc n) [] = []
take_targets (suc n) (c ∷ cids) = c ∷ take_targets n cids

-- The loop that deletes the targets.
unfoldable pub delete_targets : Bucket → Bucket → Bucket
delete_targets [] cids = cids
delete_targets ((cid, e) ∷ targets) cids = delete_targets targets (erase cid cids)

-- The eviction behind `cids.set(cid, …)`; the filter leaves out `cid` alone.
unfoldable pub evict : String → Bucket → Bucket
evict cid cids =
    if ltb kv_echo_cid_max (length cids)
    then delete_targets
        (take_targets (length cids - kv_echo_cid_max) (sort_targets (erase cid cids))) cids
    else cids

abbrev pub has_cid : Option String → Bool
has_cid none = false
has_cid (some cid) = not (str_eq cid "")

abbrev pub record_cid : ℕ → String → Bool → Bucket → Bucket
record_cid now cid from_conflict cids =
    evict cid
      (insert cid (record { expiry = now + kv_echo_ttl_ms; from_conflict = from_conflict }) cids)

-- `recordEchoCID` for a CID, and for what may be none.
unfoldable pub record_echo_cid_of : ℕ → String → String → Bool → EchoCids → EchoCids
record_echo_cid_of now echo_key cid from_conflict m =
    let purged = purge_expired_echo_cids echo_key now m in
    insert echo_key (record_cid now cid from_conflict (bucket_of echo_key purged)) purged

unfoldable pub record_echo_cid : ℕ → String → String → Option String → Bool → EchoCids → EchoCids
record_echo_cid now contract_id key none from_conflict m = m
record_echo_cid now contract_id key (some cid) from_conflict m =
    if str_eq cid ""
    then m
    else record_echo_cid_of now (echo_key_of contract_id key) cid from_conflict m
