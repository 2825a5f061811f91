-- ===== src/Kv/Remote/Markers.antt =====
-- src/kv.ts, `_handleRemote`: what becomes of the markers.
use libcheloniajs.Base.{
  ℕ, ◌≡◌, refl, true, List, [], ◌∷◌, none, some, String, str_eq, eq_iff, if◌then◌else◌, any, lookup,
  arith, lookup-erase, erase, Bool-cases, inl, inr,
}
use libcheloniajs.Kv.Echo.{
  EchoEntry, Bucket, EchoCids, keep_pending, purge_expired_echo_cids, store_bucket, bucket_of,
}
use libcheloniajs.Kv.Echo.Laws.{bucket_of-store_bucket, bucket_of-purge_expired_echo_cids}
use libcheloniajs.Kv.Mirror.{KvState}
use libcheloniajs.Kv.Remote.{listed, demote, conflict_cids, drop_echo}

pub purged_bucket :
    (k : String) (now : ℕ) (m : EchoCids)
    → bucket_of k (purge_expired_echo_cids k now m) ≡ keep_pending now (bucket_of k m)
purged_bucket k now m = ground (arith, bucket_of-purge_expired_echo_cids k k now m, eq_iff k k)

-- Dropping an echo touches the markers alone: one of a conflict stays, any other is used up.
pub drop_echo-same :
    (k cid : String) (e : EchoEntry) (st : KvState)
    → lookup cid (bucket_of k st.echo_cids) ≡ some e
    → (m : EchoCids) × (drop_echo k cid e st ≡ record st { echo_cids = m })
      × (lookup cid (bucket_of k m) ≡ (if e.from_conflict then some e else none))
drop_echo-same k cid e st found = elim (Bool-cases e.from_conflict) [
  | inl conflict ↦ (st.echo_cids, rw conflict, simp conflict found)
  | inr plain ↦
      let left = erase cid (bucket_of k st.echo_cids) in
      (
        store_bucket k left st.echo_cids,
        rw plain,
        rw plain (
            ground (
              arith,
              bucket_of-store_bucket k k left st.echo_cids,
              eq_iff k k,
              eq_iff cid cid,
              lookup-erase cid cid (bucket_of k st.echo_cids),
            )),
      )
]

pub conflict_cids-holds :
    (cids : Bucket) (cid : String) (e : EchoEntry)
    → lookup cid cids ≡ some e
    → e.from_conflict ≡ true
    → any (λ d. str_eq d cid) (conflict_cids cids) ≡ true
unfolding lookup conflict_cids
conflict_cids-holds [] cid e found conflict = cc
conflict_cids-holds ((d, f) ∷ cids) cid e found conflict =
    ground (arith, found, conflict, conflict_cids-holds cids cid e)

conflict_cids-demote_of :
    (cids : Bucket) (listed_cids : List String)
    → ((c : String)
        → any (λ d. str_eq d c) (conflict_cids cids) ≡ true
        → any (λ d. str_eq d c) listed_cids ≡ true)
    → conflict_cids (demote (listed listed_cids) cids) ≡ []
unfolding conflict_cids demote
conflict_cids-demote_of [] all h = refl
conflict_cids-demote_of ((c, e) ∷ cids) all h = elim (Bool-cases e.from_conflict) [
  | inl conflict ↦
      let rest =
        conflict_cids-demote_of cids all (λ d held. h d (ground (arith, held, conflict))) in
      ground (arith, conflict, rest, h c (ground (arith, conflict, eq_iff c c)))
  | inr plain ↦
      let rest = conflict_cids-demote_of cids all (λ d held. h d (ground (arith, held, plain))) in
      ground (arith, plain, rest)
]

-- Clearing the conflict markers of the CIDs that a bucket held them for leaves it without any.
pub conflict_cids-demote :
    (cids : Bucket) → conflict_cids (demote (listed (conflict_cids cids)) cids) ≡ []
conflict_cids-demote cids = conflict_cids-demote_of cids (conflict_cids cids) (λ c h. h)
