-- ===== src/Kv/Echo/Record.antt =====
-- src/kv.ts, `recordEchoCID`: all buckets after it, and the entry that it makes.
use libcheloniajs.Base.{
  ℕ, ◌+◌, ◌≤◌, ◌≡◌, ◌≢◌, ◌∙◌, refl, Bool, true, false, Option, none, some, String, str_eq, eq_iff,
  length, lookup, insert, erase, arith, lookup-insert, Bool-cases, inl, inr,
}
use libcheloniajs.Kv.Echo.{
  EchoEntry, Bucket, EchoCids, kv_echo_cid_max, kv_echo_ttl_ms, echo_key_of, store_bucket,
  purge_expired_echo_cids, bucket_of, record_cid, record_echo_cid_of, record_echo_cid,
}
use libcheloniajs.Kv.Echo.Laws.{
  Distinct, Distinct-insert, Distinct-erase, bucket_of-store_bucket, Distinct-keep_pending,
  length-keep_pending, bucket_of-purge_expired_echo_cids, bucket_of-insert,
}
use libcheloniajs.Kv.Echo.Bound.{length-erase-le, length-evict-le, lookup-evict, Distinct-evict}

-- No bucket holds a CID twice, or more CIDs than the cap.
pub record IsBounded (m : EchoCids) : Type 0 where
  pub distinct : (k : String) → Distinct (bucket_of k m)
  pub bounded : (k : String) → length (bucket_of k m) ≤ kv_echo_cid_max

abbrev pub fresh : ℕ → Bool → EchoEntry
fresh now from_conflict = record { expiry = now + kv_echo_ttl_ms; from_conflict = from_conflict }

pub purge-IsBounded :
    (k : String) (now : ℕ) (m : EchoCids)
    → IsBounded m
    → IsBounded (purge_expired_echo_cids k now m)
purge-IsBounded k now m b = record {
  distinct = λ j. elim (Bool-cases (str_eq k j)) [
    | inl same ↦
        rw (bucket_of-purge_expired_echo_cids k j now m, same)
          (Distinct-keep_pending now (bucket_of j m) (b.distinct j))
    | inr other ↦ rw (bucket_of-purge_expired_echo_cids k j now m, other) (b.distinct j)
  ];
  bounded = λ j. ground (
    arith,
    b.bounded j,
    bucket_of-purge_expired_echo_cids k j now m,
    length-keep_pending now (bucket_of j m),
  );
}

pub store-IsBounded :
    (k : String) (cids : Bucket) (m : EchoCids)
    → Distinct cids
    → length cids ≤ kv_echo_cid_max
    → IsBounded m
    → IsBounded (insert k cids m)
store-IsBounded k cids m d l b = record {
  distinct = λ j. elim (Bool-cases (str_eq k j)) [
    | inl same ↦ rw (bucket_of-insert k j cids m, same) d
    | inr other ↦ rw (bucket_of-insert k j cids m, other) (b.distinct j)
  ];
  bounded = λ j. ground (arith, b.bounded j, bucket_of-insert k j cids m);
}

-- Where a marker is used up, a bucket that is left empty goes.
pub erase-IsBounded :
    (k cid : String) (m : EchoCids)
    → IsBounded m
    → IsBounded (store_bucket k (erase cid (bucket_of k m)) m)
erase-IsBounded k cid m b =
    let left = erase cid (bucket_of k m) in
    record {
      distinct = λ j. elim (Bool-cases (str_eq k j)) [
        | inl same ↦
            rw (bucket_of-store_bucket k j left m, same)
              (Distinct-erase cid (bucket_of k m) (b.distinct k))
        | inr other ↦ rw (bucket_of-store_bucket k j left m, other) (b.distinct j)
      ];
      bounded = λ j. ground (
        arith,
        b.bounded j,
        b.bounded k,
        bucket_of-store_bucket k j left m,
        length-erase-le cid (bucket_of k m),
      );
    }

record_of-IsBounded :
    (now : ℕ) (k cid : String) (conflict : Bool) (m : EchoCids)
    → IsBounded m
    → IsBounded (record_echo_cid_of now k cid conflict m)
unfolding record_echo_cid_of
record_of-IsBounded now k cid conflict m b =
    let purged = purge_expired_echo_cids k now m in
    let p = purge-IsBounded k now m b in
    let d = Distinct-insert cid (fresh now conflict) (bucket_of k purged) (p.distinct k) in
    store-IsBounded k _ purged (Distinct-evict cid _ d) (length-evict-le cid _ d) p

-- Recording a CID keeps every bucket within the cap of 128 entries, with no CID twice.
pub record_echo_cid-IsBounded :
    (now : ℕ) (contract_id key : String) (cid : Option String) (conflict : Bool) (m : EchoCids)
    → IsBounded m
    → IsBounded (record_echo_cid now contract_id key cid conflict m)
unfolding record_echo_cid
record_echo_cid-IsBounded now contract_id key none conflict m b = b
record_echo_cid-IsBounded now contract_id key (some cid) conflict m b =
    elim (Bool-cases (str_eq cid "")) [
      | inl empty ↦ rw empty b
      | inr present ↦
          rw present (record_of-IsBounded now (echo_key_of contract_id key) cid conflict m b)
    ]

-- The CID that is recorded is in its bucket afterwards, even of a full bucket, with the full time
-- to live.
pub record_echo_cid-lookup :
    (now : ℕ) (contract_id key cid : String) (conflict : Bool) (m : EchoCids)
    → IsBounded m
    → cid ≢ ""
    → lookup cid (
        bucket_of
          (echo_key_of contract_id key)
          (record_echo_cid now contract_id key (some cid) conflict m))
      ≡ some (fresh now conflict)
unfolding record_echo_cid record_echo_cid_of
record_echo_cid-lookup now contract_id key cid conflict m b ne =
    let k = echo_key_of contract_id key in
    let purged = purge_expired_echo_cids k now m in
    let old = bucket_of k purged in
    let d = Distinct-insert cid (fresh now conflict) old ((purge-IsBounded k now m b).distinct k) in
    let present : str_eq cid "" ≡ false = ground (arith, ne, eq_iff cid "") in
    let here : str_eq k k ≡ true = (eq_iff k k).1 refl in
    rw
      (
        present,
        record_echo_cid_of,
        bucket_of-insert k k (record_cid now cid conflict old) purged,
        here,
      )
      (lookup-evict cid _ d
        ∙ ground (arith, eq_iff cid cid, lookup-insert cid cid (fresh now conflict) old))
