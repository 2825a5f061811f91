-- ===== src/Kv/Echo/Bound.antt =====
-- src/kv.ts, `recordEchoCID`: the size of a bucket, and what the eviction spares.
use libcheloniajs.Base.{
  ℕ, zero, suc, ◌+◌, ◌-◌, ◌≤◌, ◌<◌, ◌≡◌, ◌≢◌, ◌∙◌, ap, sym, refl, [], ◌∷◌, none, String, str_eq,
  eq_iff, ltb, length, lookup, erase, arith, lookup-erase, Bool-cases, inl, inr,
}
use libcheloniajs.Kv.Echo.{
  EchoEntry, Bucket, kv_echo_cid_max, insert_target, sort_targets, take_targets, delete_targets,
  evict,
}
use libcheloniajs.Kv.Echo.Laws.{
  Distinct, lookup-sort_targets, Distinct-sort_targets, Distinct-erase,
}

pub length-erase-le : (cid : String) (cids : Bucket) → length (erase cid cids) ≤ length cids
unfolding erase
length-erase-le cid [] = omega arith
length-erase-le cid ((c, e) ∷ cids) = ground (arith, length-erase-le cid cids)

length-erase-lt :
    (cid : String) (cids : Bucket) → lookup cid cids ≢ none → length (erase cid cids) < length cids
unfolding lookup erase
length-erase-lt cid [] h = absurd (h refl)
length-erase-lt cid ((c, e) ∷ cids) h = elim (Bool-cases (str_eq c cid)) [
  | inl same ↦ ground (arith, same, length-erase-le cid cids)
  | inr other ↦ ground (arith, other, length-erase-lt cid cids (λ none'. h (rw other none')))
]

-- The erasure of a CID that stands once takes one entry at most.
length-erase-le_suc :
    (cid : String) (cids : Bucket) → Distinct cids → length cids ≤ suc (length (erase cid cids))
unfolding lookup erase
length-erase-le_suc cid [] d = omega arith
length-erase-le_suc cid ((c, e) ∷ cids) d = elim (Bool-cases (str_eq c cid)) [
  | inl same ↦
      let name : c ≡ cid = ground (arith, eq_iff c cid, same) in
      ground (arith, same, erase_absent cid cids (ap (λ k. lookup k cids) (sym name) ∙ d.0))
  | inr other ↦ ground (arith, other, length-erase-le_suc cid cids d.1)
]
  where
    erase_absent : (cid : String) (cids : Bucket) → lookup cid cids ≡ none → erase cid cids ≡ cids
    erase_absent cid [] h = refl
    erase_absent cid ((c, e) ∷ cids) h = ground (arith, h, erase_absent cid cids)

length-insert_target :
    (cid : String) (e : EchoEntry) (cids : Bucket)
    → length (insert_target cid e cids) ≡ suc (length cids)
unfolding insert_target
length-insert_target cid e [] = refl
length-insert_target cid e ((d, f) ∷ cids) = ground (arith, length-insert_target cid e cids)

length-sort_targets : (cids : Bucket) → length (sort_targets cids) ≡ length cids
unfolding sort_targets
length-sort_targets [] = refl
length-sort_targets ((cid, e) ∷ cids) =
    omega (arith, length-insert_target cid e (sort_targets cids), length-sort_targets cids)

length-take_targets : (n : ℕ) (cids : Bucket) → n ≤ length cids → length (take_targets n cids) ≡ n
length-take_targets zero cids h = refl
length-take_targets (suc n) [] h = absurd (omega arith)
length-take_targets (suc n) (c ∷ cids) h = omega (arith, length-take_targets n cids (omega arith))

lookup-take_targets :
    (n : ℕ) (cids : Bucket) (cid : String)
    → lookup cid cids ≡ none
    → lookup cid (take_targets n cids) ≡ none
unfolding lookup
lookup-take_targets zero cids cid h = refl
lookup-take_targets (suc n) [] cid h = refl
lookup-take_targets (suc n) ((c, e) ∷ cids) cid h =
    ground (arith, h, lookup-take_targets n cids cid)

Distinct-take_targets : (n : ℕ) (cids : Bucket) → Distinct cids → Distinct (take_targets n cids)
Distinct-take_targets zero cids d = tt
Distinct-take_targets (suc n) [] d = tt
Distinct-take_targets (suc n) ((c, e) ∷ cids) d =
    (lookup-take_targets n cids c d.0, Distinct-take_targets n cids d.1)

-- What is not in `cids` is not among the targets.
abbrev Within : Bucket → Bucket → Type 0
Within targets cids = (k : String) → lookup k cids ≡ none → lookup k targets ≡ none

length-delete_targets :
    (targets cids : Bucket)
    → Distinct targets
    → Within targets cids
    → length (delete_targets targets cids) + length targets ≤ length cids
unfolding delete_targets lookup
length-delete_targets [] cids d w = omega arith
length-delete_targets ((cid, e) ∷ targets) cids d w = omega (
  arith,
  length-erase-lt cid cids (λ gone. ground (arith, w cid gone, eq_iff cid cid)),
  length-delete_targets targets (erase cid cids) d.1
      (λ k gone. ground (arith, gone, w k, d.0, eq_iff cid k, lookup-erase cid k cids)),
)

-- The deletion of other CIDs leaves an entry as it is.
lookup-delete_targets :
    (targets cids : Bucket) (cid : String)
    → lookup cid targets ≡ none
    → lookup cid (delete_targets targets cids) ≡ lookup cid cids
unfolding delete_targets lookup
lookup-delete_targets [] cids cid h = refl
lookup-delete_targets ((c, e) ∷ targets) cids cid h =
    ground (arith, h, lookup-delete_targets targets (erase c cids) cid, lookup-erase c cid cids)

Distinct-delete_targets :
    (targets cids : Bucket) → Distinct cids → Distinct (delete_targets targets cids)
unfolding delete_targets
Distinct-delete_targets [] cids d = d
Distinct-delete_targets ((c, e) ∷ targets) cids d =
    Distinct-delete_targets targets (erase c cids) (Distinct-erase c cids d)

module _ (cid : String) (cids : Bucket) (d : Distinct cids) where
  sorted_Within : Within (sort_targets (erase cid cids)) cids
  sorted_Within k gone =
      lookup-sort_targets (erase cid cids) k (Distinct-erase cid cids d)
      ∙ ground (arith, gone, lookup-erase cid k cids)

  pub length-evict-le : length (evict cid cids) ≤ kv_echo_cid_max
  unfolding evict
  length-evict-le = elim (Bool-cases (ltb kv_echo_cid_max (length cids))) [
    | inr fits ↦ rw fits (ground (arith, fits))
    | inl full ↦
        let n = length cids - kv_echo_cid_max in
        let sorted = sort_targets (erase cid cids) in
        let some_left : n ≤ length sorted =
          ground
            (arith, full, length-sort_targets (erase cid cids), length-erase-le_suc cid cids d) in
        let gone =
          length-delete_targets (take_targets n sorted) cids
            (Distinct-take_targets n sorted
              (Distinct-sort_targets (erase cid cids) (Distinct-erase cid cids d)))
            (λ k absent. lookup-take_targets n sorted k (sorted_Within k absent)) in
        rw full (ground (arith, full, gone, length-take_targets n sorted some_left))
  ]

  pub lookup-evict : lookup cid (evict cid cids) ≡ lookup cid cids
  unfolding evict
  lookup-evict = elim (Bool-cases (ltb kv_echo_cid_max (length cids))) [
    | inr fits ↦ rw fits
    | inl full ↦
        let sorted = sort_targets (erase cid cids) in
        let spared : lookup cid sorted ≡ none =
          lookup-sort_targets (erase cid cids) cid (Distinct-erase cid cids d)
          ∙ ground (arith, lookup-erase cid cid cids, eq_iff cid cid) in
        rw full (lookup-delete_targets _ cids cid (lookup-take_targets _ sorted cid spared))
  ]

  pub Distinct-evict : Distinct (evict cid cids)
  unfolding evict
  Distinct-evict = elim (Bool-cases (ltb kv_echo_cid_max (length cids))) [
    | inr fits ↦ rw fits d
    | inl full ↦ rw full (Distinct-delete_targets _ cids d)
  ]
