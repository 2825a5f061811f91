-- ===== src/Keys/Escalation.antt =====
-- src/utils.ts: what the validation of added and updated keys guarantees of them.
use libcheloniajs.Base.{
  ℕ, ◌≤◌, ◌≡◌, refl, sym, ap, Bool, true, false, not, ◌||◌, List, [], ◌∷◌, Option, none, some,
  String, str_eq, eq_iff, arith, All, all, lookup, ltb, Option-cases, Bool-cases, inl, inr, subst,
}
use libcheloniajs.Base.Throws.{Outcome, ok, throw, ◌>>=◌, >>=-eq-ok}
use libcheloniajs.Keys.{
  ChelContractKey, Keys, Granted, everything, only, includes, grants, grants_action, truthy,
}
use libcheloniajs.Keys.Changes.{
  Unwrapped, KeyUpdate, KeyError, is_safe_integer, permissions_within, actions_within, check_grants,
  check_added, check_each, validate_key_add_permissions, updated_key, check_update, update_each,
  plain, validate_key_update_permissions, record_id,
}

all-includes :
    (ps qs : List String) (p : String)
    → all (λ q. includes q ps) qs ≡ true
    → includes p qs ≡ true
    → includes p ps ≡ true
all-includes ps [] p h i = cc
all-includes ps (q ∷ qs) p h i = elim (Bool-cases (str_eq q p)) [
  | inl e ↦
      let same : q ≡ p = ground (arith, eq_iff q p, e) in
      subst (λ r. includes r ps ≡ true) same (ground (arith, h))
  | inr e ↦ all-includes ps qs p (ground (arith, h)) (ground (arith, i, e))
]

permissions_within-grants :
    (s g : Granted) (p : String)
    → permissions_within s g ≡ true
    → grants g p ≡ true
    → grants s p ≡ true
unfolding permissions_within
permissions_within-grants everything g p h i = refl
permissions_within-grants (only ps) everything p h i = cc
permissions_within-grants (only ps) (only qs) p h i = all-includes ps qs p h i

actions_within-grants :
    (s g : Option Granted) (p : String)
    → actions_within s g ≡ true
    → grants_action g p ≡ true
    → grants_action s p ≡ true
unfolding actions_within
actions_within-grants s none p h i = cc
actions_within-grants none (some g) p h i = cc
actions_within-grants (some s) (some g) p h i = permissions_within-grants s g p h i

-- A key has nothing that the signing key, of the ring level `level`, has not.
pub record NoMore (signing_key : ChelContractKey) (level : ℕ) (k : ChelContractKey) : Type 0 where
  pub level_kept : level ≤ k.ring_level
  pub level_safe : k.ring_level ≤ 9007199254740991
  pub permissions_kept :
      (p : String) → grants k.permissions p ≡ true → grants signing_key.permissions p ≡ true
  pub actions_kept :
      (a : String)
      → grants_action k.allowed_actions a ≡ true
      → grants_action signing_key.allowed_actions a ≡ true

record Checks (signing_key : ChelContractKey) (level : ℕ) (k : ChelContractKey) : Type 0 where
  in_level : (not (is_safe_integer k.ring_level) || ltb k.ring_level level) ≡ false
  in_permissions : permissions_within signing_key.permissions k.permissions ≡ true
  in_actions : actions_within signing_key.allowed_actions k.allowed_actions ≡ true

check_grants-Checks :
    (s : ChelContractKey) (level : ℕ) (k : ChelContractKey)
    → check_grants s level k ≡ ok tt
    → Checks s level k
unfolding check_grants
check_grants-Checks s level k h = record {
  in_level = ground (arith, h);
  in_permissions = ground (arith, h);
  in_actions = ground (arith, h);
}

check_grants-NoMore :
    (s : ChelContractKey) (level : ℕ) (k : ChelContractKey)
    → check_grants s level k ≡ ok tt
    → NoMore s level k
unfolding is_safe_integer
check_grants-NoMore s level k h =
    let c = check_grants-Checks s level k h in
    record {
      level_kept = ground (arith, c.in_level);
      level_safe = ground (arith, c.in_level);
      permissions_kept = λ p. permissions_within-grants _ _ p c.in_permissions;
      actions_kept = λ a. actions_within-grants _ _ a c.in_actions;
    }

-- Of a key that can be read.
abbrev pub Admitted : Bool → ChelContractKey → ℕ → Option (Unwrapped ChelContractKey) → Type 0
Admitted skip s level none = Unit {0}
Admitted skip s level (some d) =
    NoMore s level d.data_read
    × (skip ≡ false → truthy s.private_mark ≡ true → truthy d.encryption_key_id ≡ true)

check_added-Admitted :
    (skip : Bool) (s : ChelContractKey) (level : ℕ) (o : Option (Unwrapped ChelContractKey))
    → check_added skip s level o ≡ ok tt
    → Admitted skip s level o
unfolding check_added
check_added-Admitted skip s level none h = tt
check_added-Admitted skip s level (some d) h =
    (check_grants-NoMore s level d.data_read (ground (arith, h)), λ e p. ground (arith, h, e, p))

module _ {W : Type 0} (unwrap : W → Option (Unwrapped ChelContractKey)) where
  check_each-All :
      (skip : Bool) (s : ChelContractKey) (level : ℕ) (v : List W)
      → check_each unwrap skip s level v ≡ ok tt
      → All (λ w. Admitted skip s level (unwrap w)) v
  unfolding check_each
  check_each-All skip s level [] h = tt
  check_each-All skip s level (w ∷ v) h =
      let (u, first, rest) = >>=-eq-ok (check_added skip s level (unwrap w)) _ h in
      (check_added-Admitted skip s level (unwrap w) first, check_each-All skip s level v rest)

  -- If the validation of added keys succeeds, then the signing key is in the state, and each key
  -- that can be read has a safe ring level no lower than the one the signing key has there, and no
  -- permission and no allowed action that the signing key lacks. Unless the check is skipped, what
  -- a private signing key adds is encrypted.
  pub validate_key_add_permissions-Admitted :
      (s : ChelContractKey) (keys : Keys) (v : List W) (skip : Bool)
      → validate_key_add_permissions unwrap s keys v skip ≡ ok tt
      → (l : ChelContractKey) × (lookup s.id keys ≡ some l)
        × All (λ w. Admitted skip s l.ring_level (unwrap w)) v
  unfolding validate_key_add_permissions
  validate_key_add_permissions-Admitted s keys v skip h = elim (Option-cases (lookup s.id keys)) [
    | inl e ↦ ground (arith, e, h)
    | inr (l, e) ↦
        let checked : check_each unwrap skip s l.ring_level v ≡ ok tt = ground (arith, e, h) in
        (l, e, check_each-All skip s l.ring_level v checked)
  ]

-- An updated key is one of the state's, of the same name, ring level and privacy.
abbrev pub Updates : Keys → ChelContractKey → Type 0
Updates keys k =
    (id : String) × (old : ChelContractKey) × (lookup id keys ≡ some old)
    × (k.name ≡ old.name)
    × (k.ring_level ≡ old.ring_level)
    × (k.private_mark ≡ old.private_mark)

check_update-eq :
    (e : Option String) (uk : KeyUpdate) (old k : ChelContractKey)
    → check_update e uk (some old) ≡ ok k
    → updated_key old uk ≡ k
unfolding check_update
check_update-eq e uk old k h = ground (arith, h)

absent_old_key :
    (e : Option String) (uk : KeyUpdate) (k : ChelContractKey) → check_update e uk none ≡ ok k → ⊥
unfolding check_update
absent_old_key e uk k h = cc

check_update-Updates :
    (keys : Keys) (e : Option String) (uk : KeyUpdate) (k : ChelContractKey)
    → check_update e uk (lookup uk.old_key_id keys) ≡ ok k
    → Updates keys k
unfolding updated_key
check_update-Updates keys e uk k h = elim (Option-cases (lookup uk.old_key_id keys)) [
  | inl gone ↦ absurd (absent_old_key e uk k (subst (λ o. check_update e uk o ≡ ok k) gone h))
  | inr (old, found) ↦
      let same = check_update-eq e uk old k (subst (λ o. check_update e uk o ≡ ok k) found h) in
      (
        uk.old_key_id,
        old,
        found,
        sym (ap (λ x. x.name) same),
        sym (ap (λ x. x.ring_level) same),
        sym (ap (λ x. x.private_mark) same),
      )
]

All-plain :
    (s : ChelContractKey) (level : ℕ) (ks : List ChelContractKey)
    → All (λ k. Admitted true s level (plain k)) ks
    → All (NoMore s level) ks
All-plain s level [] h = tt
All-plain s level (k ∷ ks) h = (h.0.0, All-plain s level ks h.1)

abbrev Updated : Type 0
Updated = List ChelContractKey × List (String × String)

abbrev AllUpdates : Keys → Outcome KeyError Updated → Type 0
AllUpdates keys (ok r) = All (Updates keys) r.0
AllUpdates keys (throw e) = ⊥

module _ {W : Type 0} (unwrap : W → Option (Unwrapped KeyUpdate)) where
  read_update-All :
      (keys : Keys) (v : List W) (m : List (String × String)) (r : Updated)
      → ((n : List (String × String)) (q : Updated)
          → update_each unwrap keys v n ≡ ok q
          → All (Updates keys) q.0)
      → (o : Option (Unwrapped KeyUpdate))
      → elim o [
        | none ↦ update_each unwrap keys v m
        | some d ↦
            check_update d.encryption_key_id d.data_read (lookup d.data_read.old_key_id keys)
            >>= λ k. update_each unwrap keys v (record_id d.data_read m) >>= λ q. ok (k ∷ q.0, q.1)
      ]
        ≡ ok r
      → All (Updates keys) r.0
  read_update-All keys v m r ih none i = ih m r i
  read_update-All keys v m r ih (some d) i =
      let (k, first, more) =
        >>=-eq-ok
          (check_update d.encryption_key_id d.data_read (lookup d.data_read.old_key_id keys)) _ i in
      let (q, rest, same) =
        >>=-eq-ok (update_each unwrap keys v (record_id d.data_read m)) _ more in
      subst (AllUpdates keys) same
        (check_update-Updates keys _ _ k first, ih (record_id d.data_read m) q rest)

  update_each-All :
      (keys : Keys) (v : List W) (m : List (String × String)) (r : Updated)
      → update_each unwrap keys v m ≡ ok r
      → All (Updates keys) r.0
  unfolding update_each
  update_each-All keys [] m r h = subst (AllUpdates keys) h tt
  update_each-All keys (w ∷ v) m r h =
      read_update-All keys v m r (update_each-All keys v) (unwrap w) h

  -- If the validation of key updates succeeds, then the signing key is in the state; each key that
  -- it returns has the name, the ring level and the privacy of a key in the state; and each has a
  -- safe ring level no lower than that of the signing key, and no permission and no allowed action
  -- that the signing key lacks.
  pub validate_key_update_permissions-Updates :
      (s : ChelContractKey) (keys : Keys) (v : List W) (ks : List ChelContractKey)
      (m : List (String × String))
      → validate_key_update_permissions unwrap s keys v ≡ ok (ks, m)
      → All (Updates keys) ks
        × ((l : ChelContractKey) × (lookup s.id keys ≡ some l) × All (NoMore s l.ring_level) ks)
  unfolding validate_key_update_permissions
  validate_key_update_permissions-Updates s keys v ks m h =
      let (r, first, more) = >>=-eq-ok (update_each unwrap keys v []) _ h in
      let (u, second, same) =
        >>=-eq-ok (validate_key_add_permissions plain s keys r.0 true) _ more in
      let (l, found, admitted) =
        validate_key_add_permissions-Admitted plain s keys r.0 true second in
      let same_keys : r.0 ≡ ks = ground (arith, same) in
      (
        subst (All (Updates keys)) same_keys (update_each-All keys v [] r first),
        (
          l,
          found,
          subst (All (NoMore s l.ring_level)) same_keys (All-plain s l.ring_level r.0 admitted),
        ),
      )
