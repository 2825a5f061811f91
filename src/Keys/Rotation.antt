-- ===== src/Keys/Rotation.antt =====
-- src/utils.ts: `deleteKeyHelper`, and `updateKey` with `extendKeyField`. `union` of the library
-- turtledash is a parameter, with what its documentation says: the union of two lists has exactly
-- the elements of both.
use libcheloniajs.Base.{
  ℕ, ◌≡◌, refl, Bool, true, false, ◌||◌, List, [], ◌∷◌, ◌++◌, Option, none, some, String, str_eq,
  arith, lookup, insert, erase,
}
use libcheloniajs.Keys.{
  ChelContractKey, Keys, Granted, everything, only, includes, grants, grants_action, values, ids,
  select,
}

pub record Union : Type 0 where
  pub union : List String → List String → List String
  pub union_includes :
      (xs ys : List String) (s : String)
      → includes s (union xs ys) ≡ (includes s xs || includes s ys)

pub includes-concat :
    (xs ys : List String) (s : String) → includes s (xs ++ ys) ≡ (includes s xs || includes s ys)
includes-concat [] ys s = refl
includes-concat (x ∷ xs) ys s = ground (arith, includes-concat xs ys s)

module _ (u : Union) where
  unfoldable pub extend_key_field : Option Granted → Granted → Granted
  extend_key_field none everything = everything
  extend_key_field none (only qs) = only (u.union [] qs)
  extend_key_field (some everything) g = everything
  extend_key_field (some (only ps)) everything = everything
  extend_key_field (some (only ps)) (only qs) = only (u.union ps qs)

  abbrev pub extend_optional : Option Granted → Option Granted → Option Granted
  extend_optional a none = a
  extend_optional a (some b) = some (extend_key_field a b)

  unfoldable pub update_key : ChelContractKey → ChelContractKey → ChelContractKey
  update_key key updated = record key {
    purpose = u.union key.purpose updated.purpose;
    permissions = extend_key_field (some key.permissions) updated.permissions;
    allowed_actions = extend_optional key.allowed_actions updated.allowed_actions;
    meta = elim updated.meta [ none ↦ key.meta | some m ↦ some m ];
  }

  extend_key_field-grants :
      (a : Option Granted) (b : Granted) (p : String)
      → grants (extend_key_field a b) p ≡ (grants_action a p || grants b p)
  unfolding extend_key_field
  extend_key_field-grants none everything p = refl
  extend_key_field-grants none (only qs) p = u.union_includes [] qs p
  extend_key_field-grants (some everything) g p = refl
  extend_key_field-grants (some (only ps)) everything p = or_true (includes p ps)
    where
      or_true : (b : Bool) → true ≡ (b || true)
      or_true true = refl
      or_true false = refl
  extend_key_field-grants (some (only ps)) (only qs) p = u.union_includes ps qs p

  extend_optional-grants :
      (a b : Option Granted) (p : String)
      → grants_action (extend_optional a b) p ≡ (grants_action a p || grants_action b p)
  extend_optional-grants a none p = or_false (grants_action a p)
    where
      or_false : (b : Bool) → b ≡ (b || false)
      or_false true = refl
      or_false false = refl
  extend_optional-grants a (some b) p = extend_key_field-grants a b p

  -- An updated key grants a permission, allows an action and has a purpose exactly when the old key
  -- or the update does; its identifier, name and ring level are those of the old key.
  pub update_key-grants :
      (key updated : ChelContractKey) (p : String)
      → (grants (update_key key updated).permissions p
          ≡ (grants key.permissions p || grants updated.permissions p))
        × (grants_action (update_key key updated).allowed_actions p
            ≡ (grants_action key.allowed_actions p || grants_action updated.allowed_actions p))
        × (includes p (update_key key updated).purpose
            ≡ (includes p key.purpose || includes p updated.purpose))
        × ((update_key key updated).id ≡ key.id)
        × ((update_key key updated).name ≡ key.name)
        × ((update_key key updated).ring_level ≡ key.ring_level)
  unfolding update_key
  update_key-grants key updated p = (
    extend_key_field-grants (some key.permissions) updated.permissions p,
    extend_optional-grants key.allowed_actions updated.allowed_actions p,
    u.union_includes key.purpose updated.purpose p,
    refl,
    refl,
    refl,
  )

-- What deleteKeyHelper changes of the state; the keys of `pending` are those of
-- `_volatile.pendingKeyRevocations`, which the caller has made.
pub record KeyState : Type 0 where
  pub authorized_keys : Keys
  pub pending : List (String × Bool)

-- `namesToCheck`.
unfoldable pub names_to_check : Keys → List String → List String
names_to_check keys [] = []
names_to_check keys (id ∷ key_ids) =
    let rest = names_to_check keys key_ids in
    elim (lookup id keys) [ none ↦ rest | some k ↦ k.name ∷ rest ]

-- `allIdsForNames[name]`.
unfoldable pub all_ids_for_names : Keys → List String → String → List String
all_ids_for_names keys key_ids name = ids (
    select (λ k. str_eq k.name name)
      (select (λ k. includes k.name (names_to_check keys key_ids)) (values keys)))

unfoldable pub clear_pending : List String → List (String × Bool) → List (String × Bool)
clear_pending [] m = m
clear_pending (id ∷ key_ids) m = clear_pending key_ids (erase id m)

-- One round of the loop over the identifiers.
unfoldable pub delete_key : (String → List String) → ℕ → String → KeyState → KeyState
delete_key all_ids height id st = elim (lookup id st.authorized_keys) [
  | none ↦ st
  | some k ↦ record {
    authorized_keys = insert id (record k { not_after_height = some height }) st.authorized_keys;
    pending = clear_pending (all_ids k.name) st.pending;
  }
]

unfoldable pub delete_each : (String → List String) → ℕ → List String → KeyState → KeyState
delete_each all_ids height [] st = st
delete_each all_ids height (id ∷ key_ids) st =
    delete_each all_ids height key_ids (delete_key all_ids height id st)

unfoldable pub delete_key_helper : KeyState → ℕ → List String → KeyState
delete_key_helper st height key_ids =
    delete_each (all_ids_for_names st.authorized_keys key_ids) height key_ids st
