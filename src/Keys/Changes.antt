-- ===== src/Keys/Changes.antt =====
-- src/utils.ts: the validation of operations that add, delete or update keys, the update of a key,
-- and deleteKeyHelper. `unwrap` is `config.unwrapMaybeEncryptedData`; none is what cannot be read.
-- An error is the value of the constructor named for its message.
use libcheloniajs.Base.{
  ℕ, Bool, true, false, not, ◌&&◌, ◌||◌, List, [], ◌∷◌, Option, none, some, String, str_eq, leb,
  ltb, if◌then◌else◌, lookup, insert, all,
}
use libcheloniajs.Base.Throws.{Outcome, ok, throw, ◌>>=◌}
use libcheloniajs.Keys.{ChelContractKey, Keys, Meta, Granted, everything, only, includes, truthy}

pub data KeyError : Type 0 where
  missing_signing_key adds_public_key level_too_low more_permissions more_actions : KeyError
  nonexisting_key private_signing_key private_not_preserved : KeyError
  missing_old_key name_updated id_without_data missing_private : KeyError

-- The answer of `unwrapMaybeEncryptedData` on data that can be read.
pub record Unwrapped (A : Type 0) : Type 0 where
  pub encryption_key_id : Option String
  pub data_read : A

-- An SPKeyUpdate.
pub record KeyUpdate : Type 0 where
  pub name : String
  pub id : Option String
  pub old_key_id : String
  pub data_text : Option String
  pub purpose : Option (List String)
  pub permissions : Option Granted
  pub allowed_actions : Option Granted
  pub meta : Option Meta

-- `Number.isSafeInteger`, of a natural number.
unfoldable pub is_safe_integer : ℕ → Bool
is_safe_integer n = leb n 9007199254740991

-- A key may get only permissions of the signing key.
unfoldable pub permissions_within : Granted → Granted → Bool
permissions_within everything g = true
permissions_within (only ps) everything = false
permissions_within (only ps) (only qs) = all (λ q. includes q ps) qs

unfoldable pub actions_within : Option Granted → Option Granted → Bool
actions_within s none = true
actions_within none (some g) = false
actions_within (some s) (some g) = permissions_within s g

-- The checks of one key that is added or updated, after the one on private keys.
unfoldable pub check_grants : ChelContractKey → ℕ → ChelContractKey → Outcome KeyError (Unit {0})
check_grants signing_key level k =
    if not (is_safe_integer k.ring_level) || ltb k.ring_level level
    then throw level_too_low
    else if not (permissions_within signing_key.permissions k.permissions)
    then throw more_permissions
    else if not (actions_within signing_key.allowed_actions k.allowed_actions)
    then throw more_actions
    else ok tt

unfoldable pub check_added :
    Bool → ChelContractKey → ℕ → Option (Unwrapped ChelContractKey) → Outcome KeyError (Unit {0})
check_added skip signing_key level none = ok tt
check_added skip signing_key level (some d) =
    if not skip && (truthy signing_key.private_mark && not (truthy d.encryption_key_id))
    then throw adds_public_key
    else check_grants signing_key level d.data_read

abbrev pub with_signing_key {ℓ} :
    {A : Type ℓ} → ChelContractKey → Keys → (ℕ → Outcome KeyError A) → Outcome KeyError A
with_signing_key signing_key keys f = elim (lookup signing_key.id keys) [
  | none ↦ throw missing_signing_key
  | some local_key ↦ f local_key.ring_level
]

module _ {W : Type 0} (unwrap : W → Option (Unwrapped ChelContractKey)) where
  unfoldable pub check_each : Bool → ChelContractKey → ℕ → List W → Outcome KeyError (Unit {0})
  check_each skip signing_key level [] = ok tt
  check_each skip signing_key level (w ∷ v) =
      check_added skip signing_key level (unwrap w) >>= λ done. check_each skip signing_key level v

  unfoldable pub validate_key_add_permissions :
      ChelContractKey → Keys → List W → Bool → Outcome KeyError (Unit {0})
  validate_key_add_permissions signing_key keys v skip =
      with_signing_key signing_key keys (λ level. check_each skip signing_key level v)

-- The checks of one key that is deleted.
unfoldable pub check_deleted :
    ChelContractKey → ℕ → Option String → Option ChelContractKey → Outcome KeyError (Unit {0})
check_deleted signing_key level encryption none = throw nonexisting_key
check_deleted signing_key level encryption (some k) =
    if truthy signing_key.private_mark
    then throw private_signing_key
    else if (truthy k.private_mark && not (truthy encryption))
        || (not (truthy k.private_mark) && truthy encryption)
    then throw private_not_preserved
    else if not (is_safe_integer k.ring_level) || ltb k.ring_level level
    then throw level_too_low
    else ok tt

abbrev pub check_deletion :
    ChelContractKey → Keys → ℕ → Option (Unwrapped String) → Outcome KeyError (Unit {0})
check_deletion signing_key keys level none = ok tt
check_deletion signing_key keys level (some d) =
    check_deleted signing_key level d.encryption_key_id (lookup d.data_read keys)

module _ {W : Type 0} (unwrap : W → Option (Unwrapped String)) where
  unfoldable pub check_deletions : ChelContractKey → Keys → ℕ → List W → Outcome KeyError (Unit {0})
  check_deletions signing_key keys level [] = ok tt
  check_deletions signing_key keys level (w ∷ v) =
      check_deletion signing_key keys level (unwrap w) >>= λ done.
      check_deletions signing_key keys level v

  unfoldable pub validate_key_del_permissions :
      ChelContractKey → Keys → List W → Outcome KeyError (Unit {0})
  validate_key_del_permissions signing_key keys v =
      with_signing_key signing_key keys (λ level. check_deletions signing_key keys level v)

-- The key that an update makes of an existing one.
abbrev pub or_kept {ℓ} : {A : Type ℓ} → Option A → A → A
or_kept none a = a
or_kept (some b) a = b

abbrev pub or_kept_text : Option String → String → String
or_kept_text none a = a
or_kept_text (some s) a = if str_eq s "" then a else s

abbrev pub or_kept_option {ℓ} : {A : Type ℓ} → Option A → Option A → Option A
or_kept_option none a = a
or_kept_option (some b) a = some b

unfoldable pub updated_key : ChelContractKey → KeyUpdate → ChelContractKey
updated_key k uk = record k {
  id = or_kept_text uk.id k.id;
  purpose = or_kept uk.purpose k.purpose;
  permissions = or_kept uk.permissions k.permissions;
  allowed_actions = or_kept_option uk.allowed_actions k.allowed_actions;
  not_before_height = none;
  not_after_height = none;
  meta = or_kept_option uk.meta k.meta;
  data_text = or_kept_text uk.data_text k.data_text;
}

abbrev pub has_private : Option Meta → Bool
has_private none = false
has_private (some m) = m.private

-- `updatedMap[uk.id] = uk.oldKeyId`.
abbrev pub record_id : KeyUpdate → List (String × String) → List (String × String)
record_id uk m = elim uk.id [
  | none ↦ m
  | some id ↦
      if not (str_eq id "") && not (str_eq id uk.old_key_id) then insert id uk.old_key_id m else m
]

unfoldable pub check_update :
    Option String → KeyUpdate → Option ChelContractKey → Outcome KeyError ChelContractKey
check_update encryption uk none = throw missing_old_key
check_update encryption uk (some k) =
    if (truthy k.private_mark && not (truthy encryption))
      || (not (truthy k.private_mark) && truthy encryption)
    then throw private_not_preserved
    else if not (str_eq uk.name k.name)
    then throw name_updated
    else if (truthy uk.id && not (truthy uk.data_text))
        || (not (truthy uk.id) && truthy uk.data_text)
    then throw id_without_data
    else if truthy uk.data_text && (has_private k.meta && not (has_private uk.meta))
    then throw missing_private
    else ok (updated_key k uk)

-- What `unwrap` answers on a key that is not wrapped.
abbrev pub plain : ChelContractKey → Option (Unwrapped ChelContractKey)
plain k = some (record { encryption_key_id = none; data_read = k })

module _ {W : Type 0} (unwrap : W → Option (Unwrapped KeyUpdate)) where
  -- The map over the updates, with `updatedMap` as the state.
  unfoldable pub update_each :
      Keys
      → List W
      → List (String × String)
      → Outcome KeyError (List ChelContractKey × List (String × String))
  update_each keys [] m = ok ([], m)
  update_each keys (w ∷ v) m = elim (unwrap w) [
    | none ↦ update_each keys v m
    | some d ↦
        check_update d.encryption_key_id d.data_read (lookup d.data_read.old_key_id keys) >>= λ k.
        update_each keys v (record_id d.data_read m) >>= λ r. ok (k ∷ r.0, r.1)
  ]

  unfoldable pub validate_key_update_permissions :
      ChelContractKey
      → Keys
      → List W
      → Outcome KeyError (List ChelContractKey × List (String × String))
  validate_key_update_permissions signing_key keys v = update_each keys v [] >>= λ r.
      validate_key_add_permissions plain signing_key keys r.0 true >>= λ done. ok r
