-- ===== src/Keys/Deletion.antt =====
-- src/utils.ts, `deleteKeyHelper`: the keys and the pending revocations after it.
use libcheloniajs.Base.{
  ℕ, ◌≡◌, refl, Bool, true, List, [], ◌∷◌, Option, none, some, String, str_eq, eq_iff, arith,
  lookup, erase, lookup-insert, lookup-erase, if◌then◌else◌, Option-cases, Bool-cases, inl, inr,
  subst, sym,
}
use libcheloniajs.Keys.{ChelContractKey, Keys, includes, values, ids, select}
use libcheloniajs.Keys.Rotation.{
  KeyState, names_to_check, all_ids_for_names, clear_pending, delete_key, delete_each,
  delete_key_helper,
}

abbrev pub expired : ℕ → Option ChelContractKey → Option ChelContractKey
expired height none = none
expired height (some k) = some (record k { not_after_height = some height })

expired_twice :
    (height : ℕ) (o : Option ChelContractKey) → expired height (expired height o) ≡ expired height o
expired_twice height none = refl
expired_twice height (some k) = refl

lookup-delete_key :
    (f : String → List String) (height : ℕ) (id j : String) (st : KeyState)
    → lookup j (delete_key f height id st).authorized_keys ≡ (
        if str_eq id j
        then expired height (lookup j st.authorized_keys)
        else lookup j st.authorized_keys)
unfolding delete_key
lookup-delete_key f height id j st = elim (Option-cases (lookup id st.authorized_keys)) [
  | inl e ↦ ground (arith, e, eq_iff id j)
  | inr (k, e) ↦ ground (
    arith,
    e,
    eq_iff id j,
    lookup-insert id j (record k { not_after_height = some height }) st.authorized_keys,
  )
]

lookup-delete_each :
    (f : String → List String) (height : ℕ) (key_ids : List String) (j : String) (st : KeyState)
    → lookup j (delete_each f height key_ids st).authorized_keys ≡ (
        if includes j key_ids
        then expired height (lookup j st.authorized_keys)
        else lookup j st.authorized_keys)
unfolding delete_each
lookup-delete_each f height [] j st = refl
lookup-delete_each f height (id ∷ key_ids) j st = ground (
  arith,
  lookup-delete_each f height key_ids j (delete_key f height id st),
  lookup-delete_key f height id j st,
  expired_twice height (lookup j st.authorized_keys),
)

-- The keys with the given identifiers get the height as their last one, and every other key stays
-- as it was; no key is added or removed.
pub lookup-delete_key_helper :
    (st : KeyState) (height : ℕ) (key_ids : List String) (j : String)
    → lookup j (delete_key_helper st height key_ids).authorized_keys ≡ (
        if includes j key_ids
        then expired height (lookup j st.authorized_keys)
        else lookup j st.authorized_keys)
unfolding delete_key_helper
lookup-delete_key_helper st height key_ids j =
    lookup-delete_each (all_ids_for_names st.authorized_keys key_ids) height key_ids j st

lookup-clear_pending :
    (key_ids : List String) (j : String) (m : List (String × Bool))
    → lookup j (clear_pending key_ids m) ≡ (if includes j key_ids then none else lookup j m)
unfolding clear_pending
lookup-clear_pending [] j m = refl
lookup-clear_pending (id ∷ key_ids) j m =
    ground (arith, lookup-clear_pending key_ids j (erase id m), lookup-erase id j m)

module _ (f : String → List String) (height : ℕ) (j : String) where
  -- What is not pending stays so.
  delete_key-none :
      (id : String) (st : KeyState)
      → lookup j st.pending ≡ none
      → lookup j (delete_key f height id st).pending ≡ none
  unfolding delete_key
  delete_key-none id st h = elim (Option-cases (lookup id st.authorized_keys)) [
    | inl e ↦ ground (arith, e, h)
    | inr (k, e) ↦ ground (arith, e, h, lookup-clear_pending (f k.name) j st.pending)
  ]

  delete_each-none :
      (key_ids : List String) (st : KeyState)
      → lookup j st.pending ≡ none
      → lookup j (delete_each f height key_ids st).pending ≡ none
  unfolding delete_each
  delete_each-none [] st h = h
  delete_each-none (id ∷ key_ids) st h =
      delete_each-none key_ids (delete_key f height id st) (delete_key-none id st h)

  delete_key-clears :
      (id : String) (k : ChelContractKey) (st : KeyState)
      → lookup id st.authorized_keys ≡ some k
      → includes j (f k.name) ≡ true
      → lookup j (delete_key f height id st).pending ≡ none
  unfolding delete_key
  delete_key-clears id k st e h = ground (arith, e, h, lookup-clear_pending (f k.name) j st.pending)

  -- A key keeps its name on the way.
  named_after :
      (id i : String) (k : ChelContractKey) (st : KeyState)
      → lookup id st.authorized_keys ≡ some k
      → (l : ChelContractKey) × (lookup id (delete_key f height i st).authorized_keys ≡ some l)
        × (l.name ≡ k.name)
  named_after id i k st e = elim (Bool-cases (str_eq i id)) [
    | inl same ↦ (
      record k { not_after_height = some height },
      ground (arith, lookup-delete_key f height i id st, same, e),
      refl,
    )
    | inr not_same ↦ (k, ground (arith, lookup-delete_key f height i id st, not_same, e), refl)
  ]

  delete_each-clears :
      (id : String) (key_ids : List String) (k : ChelContractKey) (st : KeyState)
      → includes id key_ids ≡ true
      → lookup id st.authorized_keys ≡ some k
      → includes j (f k.name) ≡ true
      → lookup j (delete_each f height key_ids st).pending ≡ none
  unfolding delete_each
  delete_each-clears id [] k st i e h = cc
  delete_each-clears id (x ∷ key_ids) k st i e h = elim (Bool-cases (str_eq x id)) [
    | inl same ↦
        let x_id : x ≡ id = ground (arith, eq_iff x id, same) in
        delete_each-none key_ids (delete_key f height x st) (
          delete_key-clears x k st (subst (λ y. lookup y st.authorized_keys ≡ some k) (sym x_id) e)
            h)
    | inr not_same ↦
        let (l, found, name) = named_after id x k st e in
        delete_each-clears id key_ids l (delete_key f height x st) (ground (arith, i, not_same))
          found (subst (λ n. includes j (f n) ≡ true) (sym name) h)
  ]

names_to_check-includes :
    (keys : Keys) (key_ids : List String) (id : String) (k : ChelContractKey)
    → includes id key_ids ≡ true
    → lookup id keys ≡ some k
    → includes k.name (names_to_check keys key_ids) ≡ true
unfolding names_to_check
names_to_check-includes keys [] id k i e = cc
names_to_check-includes keys (x ∷ key_ids) id k i e = elim (Option-cases (lookup x keys)) [
  | inl gone ↦ ground (arith, gone, e, i, eq_iff x id, names_to_check-includes keys key_ids id k)
  | inr (l, found) ↦ ground (
    arith,
    found,
    e,
    i,
    eq_iff x id,
    eq_iff l.name k.name,
    names_to_check-includes keys key_ids id k,
  )
]

select-select :
    (names : List String) (name j : String) (ks : List ChelContractKey)
    → includes name names ≡ true
    → includes j (ids (select (λ k. str_eq k.name name) ks)) ≡ true
    → includes j (ids (select (λ k. str_eq k.name name) (select (λ k. includes k.name names) ks)))
      ≡ true
select-select names name j [] i h = h
select-select names name j (k ∷ ks) i h = elim (Bool-cases (str_eq k.name name)) [
  | inl same ↦
      let named : k.name ≡ name = ground (arith, eq_iff k.name name, same) in
      ground (arith, same, named, i, h, select-select names name j ks i)
  | inr not_same ↦ ground (arith, not_same, h, select-select names name j ks i)
]

-- No key with the name of a key in the state that is deleted has a pending revocation left.
pub delete_key_helper-pending :
    (st : KeyState) (height : ℕ) (key_ids : List String) (id j : String) (k : ChelContractKey)
    → includes id key_ids ≡ true
    → lookup id st.authorized_keys ≡ some k
    → includes j (ids (select (λ l. str_eq l.name k.name) (values st.authorized_keys))) ≡ true
    → lookup j (delete_key_helper st height key_ids).pending ≡ none
unfolding delete_key_helper all_ids_for_names
delete_key_helper-pending st height key_ids id j k i e h =
    delete_each-clears _ height j id key_ids k st i e (
      select-select (names_to_check st.authorized_keys key_ids) k.name j (values st.authorized_keys)
        (names_to_check-includes st.authorized_keys key_ids id k i e) h)
