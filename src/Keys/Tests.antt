-- ===== src/Keys/Tests.antt =====
-- Witnesses of the keys: a signing key "s" of level 1, and a key "k" of level 2 that has less.
use libcheloniajs.Base.{
  ◌↔◌, ℕ, ◌≡◌, refl, true, false, ◌||◌, List, [], ◌∷◌, ◌++◌, Option, none, some, String, lookup,
  insert, All, if◌then◌else◌,
}
use libcheloniajs.Base.Throws.{ok}
use libcheloniajs.Keys.{
  ChelContractKey, Keys, only, includes, grants, grants_action, values, Operation,
  validate_key_permissions, find_suitable_secret_key_id,
}
use libcheloniajs.Keys.Changes.{
  Unwrapped, KeyUpdate, is_safe_integer, permissions_within, actions_within, check_grants,
  check_added, check_each, validate_key_add_permissions, updated_key, check_update, update_each,
  validate_key_update_permissions, plain,
}
use libcheloniajs.Keys.Escalation.{
  NoMore, Admitted, validate_key_add_permissions-Admitted, Updates,
  validate_key_update_permissions-Updates,
}
use libcheloniajs.Keys.Authority.{IsTyped, HasNoMore, validate_key_permissions-HasNoMore_iff}
use libcheloniajs.Keys.Rotation.{
  Union, includes-concat, update_key, update_key-grants, KeyState, delete_key_helper,
}
use libcheloniajs.Keys.Deletion.{expired, lookup-delete_key_helper, delete_key_helper-pending}
use libcheloniajs.Keys.Suitable.{IsHighest, passes, find_suitable_secret_key_id-IsHighest}

abbrev key : String → ℕ → List String → ChelContractKey
key id level permissions = record {
  id = id;
  name = "n";
  purpose = "sig" ∷ [];
  ring_level = level;
  permissions = only permissions;
  allowed_actions = some (only ("act" ∷ []));
  not_before_height = some 0;
  not_after_height = none;
  private_mark = none;
  foreign_key = none;
  meta = none;
  data_text = "d";
}

abbrev s_key : ChelContractKey
s_key = key "s" 1 ("au" ∷ "ka" ∷ [])

abbrev k_key : ChelContractKey
k_key = key "k" 2 ("au" ∷ [])

abbrev keys : Keys
keys = ("s", s_key) ∷ ("k", k_key) ∷ []

abbrev update_of_k : KeyUpdate
update_of_k = record {
  name = "n";
  id = some "k2";
  old_key_id = "k";
  data_text = some "d2";
  purpose = none;
  permissions = some (only ("ka" ∷ []));
  allowed_actions = none;
  meta = none;
}

abbrev read_update : KeyUpdate → Option (Unwrapped KeyUpdate)
read_update uk = some (record { encryption_key_id = none; data_read = uk })

added : validate_key_add_permissions plain s_key keys (k_key ∷ []) false ≡ ok tt
unfolding validate_key_add_permissions check_each check_added check_grants is_safe_integer
    permissions_within actions_within lookup insert
added = refl

updated :
    validate_key_update_permissions read_update s_key keys (update_of_k ∷ [])
    ≡ ok (updated_key k_key update_of_k ∷ [], ("k2", "k") ∷ [])
unfolding validate_key_update_permissions update_each check_update updated_key
    validate_key_add_permissions check_each check_added check_grants is_safe_integer
    permissions_within actions_within lookup insert
updated = refl

abbrev appending : Union
appending = record { union = λ xs ys. xs ++ ys; union_includes = includes-concat }

abbrev before : KeyState
before = record { authorized_keys = keys; pending = ("k", false) ∷ [] }

at_s : lookup "s" keys ≡ some s_key
unfolding lookup
at_s = refl

at_k : lookup "k" keys ≡ some k_key
unfolding lookup
at_k = refl

validate_key_add_permissions-Admitted_example :
    (l : ChelContractKey) × (lookup "s" keys ≡ some l)
    × All (λ w. Admitted false s_key l.ring_level (plain w)) (k_key ∷ [])
validate_key_add_permissions-Admitted_example =
    validate_key_add_permissions-Admitted plain s_key keys (k_key ∷ []) false added

validate_key_update_permissions-Updates_example :
    All (Updates keys) (updated_key k_key update_of_k ∷ [])
    × ((l : ChelContractKey) × (lookup "s" keys ≡ some l)
        × All (NoMore s_key l.ring_level) (updated_key k_key update_of_k ∷ []))
validate_key_update_permissions-Updates_example =
    validate_key_update_permissions-Updates read_update s_key keys (update_of_k ∷ [])
      (updated_key k_key update_of_k ∷ []) (("k2", "k") ∷ []) updated

validate_key_permissions-HasNoMore_iff_example :
    ((o : Operation)
      → IsTyped o
      → validate_key_permissions false false keys "k" o ≡ ok true
      → validate_key_permissions false false keys "s" o ≡ ok true)
    ↔ HasNoMore false k_key s_key
validate_key_permissions-HasNoMore_iff_example =
    validate_key_permissions-HasNoMore_iff false false keys s_key k_key refl refl at_s at_k

update_key-grants_example :
    (grants (update_key appending k_key s_key).permissions "ka"
      ≡ (grants k_key.permissions "ka" || grants s_key.permissions "ka"))
    × (grants_action (update_key appending k_key s_key).allowed_actions "ka"
        ≡ (grants_action k_key.allowed_actions "ka" || grants_action s_key.allowed_actions "ka"))
    × (includes "ka" (update_key appending k_key s_key).purpose
        ≡ (includes "ka" k_key.purpose || includes "ka" s_key.purpose))
    × ((update_key appending k_key s_key).id ≡ "k")
    × ((update_key appending k_key s_key).name ≡ "n")
    × ((update_key appending k_key s_key).ring_level ≡ 2)
update_key-grants_example = update_key-grants appending k_key s_key "ka"

lookup-delete_key_helper_example :
    lookup "k" (delete_key_helper before 7 ("k" ∷ [])).authorized_keys
    ≡ (if includes "k" ("k" ∷ []) then expired 7 (lookup "k" keys) else lookup "k" keys)
lookup-delete_key_helper_example = lookup-delete_key_helper before 7 ("k" ∷ []) "k"

delete_key_helper-pending_example :
    lookup "k" (delete_key_helper before 7 ("s" ∷ [])).pending ≡ none
delete_key_helper-pending_example =
    delete_key_helper-pending before 7 ("s" ∷ []) "s" "k" s_key refl at_s refl

find_suitable_secret_key_id-IsHighest_example :
    IsHighest
      (passes (λ id. true) (only ("au" ∷ [])) ("sig" ∷ []) none none)
      (find_suitable_secret_key_id
        (λ id. true)
        (some keys)
        (only ("au" ∷ []))
        ("sig" ∷ [])
        none
        none)
      (values keys)
find_suitable_secret_key_id-IsHighest_example =
    find_suitable_secret_key_id-IsHighest (λ id. true) keys (only ("au" ∷ [])) ("sig" ∷ []) none
      none
