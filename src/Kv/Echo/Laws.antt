-- ===== src/Kv/Echo/Laws.antt =====
-- src/kv.ts: what stays of a bucket of echo CIDs when it is purged and when it is full.
use libcheloniajs.Base.{
  ℕ, ◌≤◌, ◌<◌, ◌≡◌, ◌∙◌, refl, [], ◌∷◌, none, some, String, str_eq, eq_iff, leb, if◌then◌else◌,
  length, lookup, insert, erase, arith, lookup-insert, lookup-erase, Bool-cases, Option-cases, inl,
  inr,
}
use libcheloniajs.Kv.Echo.{
  EchoEntry, Bucket, EchoCids, keep_pending, store_bucket, purge_expired_echo_cids, bucket_of,
  evicted_first, insert_target, sort_targets,
}

-- No CID stands twice in a bucket.
abbrev pub Distinct : Bucket → Type 0
Distinct [] = Unit {0}
Distinct ((cid, e) ∷ cids) = (lookup cid cids ≡ none) × Distinct cids

pub lookup-insert_target :
    (cid other : String) (e : EchoEntry) (cids : Bucket)
    → lookup cid cids ≡ none
    → lookup other (insert_target cid e cids)
      ≡ (if str_eq cid other then some e else lookup other cids)
unfolding lookup insert_target
lookup-insert_target cid other e [] h = refl
lookup-insert_target cid other e ((d, f) ∷ cids) h = ground (
  arith,
  h,
  eq_iff cid other,
  eq_iff d other,
  eq_iff d cid,
  lookup-insert_target cid other e cids,
)

pub Distinct-insert_target :
    (cid : String) (e : EchoEntry) (cids : Bucket)
    → lookup cid cids ≡ none
    → Distinct cids
    → Distinct (insert_target cid e cids)
unfolding lookup insert_target
Distinct-insert_target cid e [] h d = (refl, tt)
Distinct-insert_target cid e ((c, f) ∷ cids) h d = elim (Bool-cases (evicted_first e f)) [
  | inl now ↦ rw now (h, d)
  | inr later ↦ rw later (
    ground (arith, h, d.0, eq_iff c cid, eq_iff cid c, lookup-insert_target cid c e cids),
    Distinct-insert_target cid e cids (ground (arith, h)) d.1,
  )
]

pub lookup-sort_targets :
    (cids : Bucket) (other : String)
    → Distinct cids
    → lookup other (sort_targets cids) ≡ lookup other cids
unfolding lookup sort_targets
lookup-sort_targets [] other d = refl
lookup-sort_targets ((cid, e) ∷ cids) other d = ground (
  arith,
  d.0,
  lookup-sort_targets cids other d.1,
  lookup-sort_targets cids cid d.1,
  lookup-insert_target cid other e (sort_targets cids),
)

pub Distinct-sort_targets : (cids : Bucket) → Distinct cids → Distinct (sort_targets cids)
unfolding sort_targets
Distinct-sort_targets [] d = tt
Distinct-sort_targets ((cid, e) ∷ cids) d =
    Distinct-insert_target cid e (sort_targets cids) (lookup-sort_targets cids cid d.1 ∙ d.0)
      (Distinct-sort_targets cids d.1)

pub Distinct-erase : (cid : String) (cids : Bucket) → Distinct cids → Distinct (erase cid cids)
unfolding erase
Distinct-erase cid [] d = tt
Distinct-erase cid ((c, e) ∷ cids) d = elim (Bool-cases (str_eq c cid)) [
  | inl same ↦ rw same (Distinct-erase cid cids d.1)
  | inr other ↦ rw other (ground (arith, d.0, lookup-erase cid c cids), Distinct-erase cid cids d.1)
]

pub Distinct-insert :
    (cid : String) (e : EchoEntry) (cids : Bucket) → Distinct cids → Distinct (insert cid e cids)
unfolding insert lookup
Distinct-insert cid e [] d = (refl, tt)
Distinct-insert cid e ((c, f) ∷ cids) d = elim (Bool-cases (str_eq c cid)) [
  | inl same ↦ rw same (ground (arith, same, eq_iff c cid, d.0), d.1)
  | inr other ↦ rw other (
    ground (arith, d.0, other, eq_iff c cid, eq_iff cid c, lookup-insert cid c e cids),
    Distinct-insert cid e cids d.1,
  )
]

pub lookup-keep_pending-none :
    (now : ℕ) (cids : Bucket) (cid : String)
    → lookup cid cids ≡ none
    → lookup cid (keep_pending now cids) ≡ none
unfolding lookup keep_pending
lookup-keep_pending-none now [] cid h = refl
lookup-keep_pending-none now ((c, e) ∷ cids) cid h =
    ground (arith, h, lookup-keep_pending-none now cids cid)

pub Distinct-keep_pending :
    (now : ℕ) (cids : Bucket) → Distinct cids → Distinct (keep_pending now cids)
unfolding keep_pending
Distinct-keep_pending now [] d = tt
Distinct-keep_pending now ((c, e) ∷ cids) d = elim (Bool-cases (leb e.expiry now)) [
  | inl stale ↦ rw stale (Distinct-keep_pending now cids d.1)
  | inr live ↦ rw live (lookup-keep_pending-none now cids c d.0, Distinct-keep_pending now cids d.1)
]

-- An entry that has not expired is kept.
pub lookup-keep_pending :
    (now : ℕ) (cids : Bucket) (cid : String) (e : EchoEntry)
    → lookup cid cids ≡ some e
    → now < e.expiry
    → lookup cid (keep_pending now cids) ≡ some e
unfolding lookup keep_pending
lookup-keep_pending now [] cid e h live = cc
lookup-keep_pending now ((c, f) ∷ cids) cid e h live =
    ground (arith, h, live, lookup-keep_pending now cids cid e)

pub length-keep_pending : (now : ℕ) (cids : Bucket) → length (keep_pending now cids) ≤ length cids
unfolding keep_pending
length-keep_pending now [] = omega arith
length-keep_pending now ((c, e) ∷ cids) = ground (arith, length-keep_pending now cids)

pub bucket_of-store_bucket :
    (k j : String) (cids : Bucket) (m : EchoCids)
    → bucket_of j (store_bucket k cids m) ≡ (if str_eq k j then cids else bucket_of j m)
unfolding store_bucket bucket_of
bucket_of-store_bucket k j [] m = ground (arith, lookup-erase k j m)
bucket_of-store_bucket k j (c ∷ cids) m = ground (arith, lookup-insert k j (c ∷ cids) m)

pub bucket_of-purge_expired_echo_cids :
    (k j : String) (now : ℕ) (m : EchoCids)
    → bucket_of j (purge_expired_echo_cids k now m)
      ≡ (if str_eq k j then keep_pending now (bucket_of j m) else bucket_of j m)
unfolding purge_expired_echo_cids keep_pending bucket_of
bucket_of-purge_expired_echo_cids k j now m = elim (Option-cases (lookup k m)) [
  | inl e ↦ ground (arith, e, eq_iff k j)
  | inr (cids, e) ↦
      ground (arith, e, eq_iff k j, bucket_of-store_bucket k j (keep_pending now cids) m)
]

pub bucket_of-insert :
    (k j : String) (cids : Bucket) (m : EchoCids)
    → bucket_of j (insert k cids m) ≡ (if str_eq k j then cids else bucket_of j m)
unfolding bucket_of
bucket_of-insert k j cids m = ground (arith, lookup-insert k j cids m)
