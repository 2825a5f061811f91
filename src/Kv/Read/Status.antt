-- ===== src/Kv/Read/Status.antt =====
-- src/kv.ts: reading a slot against the seed of an update, and the status of a contract against the
-- statuses of its slots.
use libcheloniajs.Base.{
  ◌≡◌, ◌≢◌, refl, Bool, true, false, ◌||◌, [], ◌∷◌, Option, none, some, String, any, lookup, arith,
}
use libcheloniajs.Base.Throws.{ok}
use libcheloniajs.Kv.{SlotDefinition, KvLoadStatus, non_init, loading, loaded, failed}
use libcheloniajs.Kv.Mirror.{Dict, KvMirrorEntry, KvState, entry_at, status_eq}
use libcheloniajs.Kv.Read.{
  compute_seed_value, value_read, resolve_active_slot, read, status_or_non_init, aggregate,
  status_of_contract,
}

value_read-compute_seed_value :
    (slot : SlotDefinition) (o : Option KvMirrorEntry)
    → compute_seed_value slot o false ≡ value_read slot o
unfolding compute_seed_value
value_read-compute_seed_value slot none = refl
value_read-compute_seed_value slot (some e) = ground arith

-- A key of the contract's slots has the status.
abbrev pub some_slot : KvLoadStatus → (String → KvLoadStatus) → Dict SlotDefinition → Bool
some_slot s status slots = any (λ (p : String × SlotDefinition). status_eq (status p.0) s) slots

-- The statuses by their precedence.
abbrev pub worst : Bool → Bool → Bool → KvLoadStatus
worst true l n = failed
worst false true n = loading
worst false false true = non_init
worst false false false = loaded

aggregate-worst :
    (status : String → KvLoadStatus) (slots : Dict SlotDefinition) (l n : Bool)
    → aggregate status slots l n
      ≡ worst
          (some_slot failed status slots)
          (l || some_slot loading status slots)
          (n || some_slot non_init status slots)
unfolding aggregate
aggregate-worst status [] true n = refl
aggregate-worst status [] false true = refl
aggregate-worst status [] false false = refl
aggregate-worst status ((k, slot) ∷ slots) l n = at_status (status k) (aggregate-worst status slots)
  where
    at_status :
        (x : KvLoadStatus)
        → ((l n : Bool)
            → aggregate status slots l n
              ≡ worst
                  (some_slot failed status slots)
                  (l || some_slot loading status slots)
                  (n || some_slot non_init status slots))
        → ◌≡◌ {A = KvLoadStatus}
            (elim x [
              | failed ↦ failed
              | loading ↦ aggregate status slots true n
              | non_init ↦ aggregate status slots l true
              | loaded ↦ aggregate status slots l n
            ])
            (worst
              (status_eq x failed || some_slot failed status slots)
              (l || (status_eq x loading || some_slot loading status slots))
              (n || (status_eq x non_init || some_slot non_init status slots)))
    at_status failed ih = refl
    at_status loading ih = ground (arith, ih true n)
    at_status non_init ih = ground (arith, ih l true)
    at_status loaded ih = ih l n

-- The status of a contract that has active slots is the worst of theirs: failed if one is failed,
-- else loading if one is loading, else non-init if one is, and else loaded.
pub status_of_contract-worst :
    (c : String) (slots : Dict SlotDefinition) (st : KvState)
    → lookup c st.slots ≡ some slots
    → slots ≢ []
    → let status = λ (k : String). status_or_non_init (entry_at c k st) in
      status_of_contract c st
      ≡ worst
          (some_slot failed status slots)
          (some_slot loading status slots)
          (some_slot non_init status slots)
unfolding status_of_contract
status_of_contract-worst c [] st found more = absurd (more refl)
status_of_contract-worst c (s ∷ slots) st found more =
    rw (found, status_of_contract)
      (aggregate-worst (λ k. status_or_non_init (entry_at c k st)) (s ∷ slots) false false)

-- What an update starts from, where it has not reloaded the slot, is what reading the slot answers.
pub read-compute_seed_value :
    (is_contract : String → Bool) (type_of : String → Option String) (c k : String)
    (slot : SlotDefinition) (st : KvState)
    → resolve_active_slot is_contract type_of c k st ≡ ok slot
    → read is_contract type_of c k st ≡ ok (compute_seed_value slot (entry_at c k st) false)
unfolding read
read-compute_seed_value is_contract type_of c k slot st found =
    rw (found, value_read-compute_seed_value slot (entry_at c k st))
