-- ===== src/Keys.antt =====
-- src/utils.ts: the keys of a contract, their look-ups, and the permissions that an operation and
-- its inner signature need. `Object.values` of the authorized keys is the list of a dictionary's
-- values, and `sort` a stable insertion sort.
pub mod Changes
pub mod Escalation
pub mod Rotation
pub mod Authority
pub mod Deletion
pub mod Suitable
mod Tests
use Prim.Native.String.{◌++◌ as text_append}
use libcheloniajs.Base.{
  ℕ, ◌+◌, Bool, true, false, not, ◌&&◌, ◌||◌, List, [], ◌∷◌, ◌++◌, Option, none, some, String,
  str_eq, leb, if◌then◌else◌, lookup, all, any, map,
}
use libcheloniajs.Base.Throws.{Outcome, ok, throw}

-- The type `'*' | string[]`.
pub data Granted : Type 0 where
  everything : Granted
  only : List String → Granted

-- Of `meta`, whether it has a `private` part, and the rest as text.
pub record Meta : Type 0 where
  pub private : Bool
  pub rest : String

pub record ChelContractKey : Type 0 where
  pub id : String
  pub name : String
  pub purpose : List String
  pub ring_level : ℕ
  pub permissions : Granted
  pub allowed_actions : Option Granted
  pub not_before_height : Option ℕ
  pub not_after_height : Option ℕ
  pub private_mark : Option String
  pub foreign_key : Option String
  pub meta : Option Meta
  pub data_text : String

abbrev pub Keys : Type 0
Keys = List (String × ChelContractKey)

abbrev pub values : Keys → List ChelContractKey
values [] = []
values ((id, k) ∷ keys) = k ∷ values keys

abbrev pub includes : String → List String → Bool
includes s [] = false
includes s (x ∷ xs) = if str_eq x s then true else includes s xs

-- `x === '*' || x.includes(p)`.
abbrev pub grants : Granted → String → Bool
grants everything p = true
grants (only ps) p = includes p ps

-- The same of an optional field, where an absent one grants nothing.
abbrev pub grants_action : Option Granted → String → Bool
grants_action none p = false
grants_action (some g) p = grants g p

-- What an optional text counts as in a condition.
abbrev pub truthy : Option String → Bool
truthy none = false
truthy (some s) = not (str_eq s "")

abbrev pub is_current : ChelContractKey → Bool
is_current k = elim k.not_after_height [ none ↦ true | some h ↦ false ]

abbrev pub select : (ChelContractKey → Bool) → List ChelContractKey → List ChelContractKey
select p [] = []
select p (k ∷ ks) = let rest = select p ks in if p k then k ∷ rest else rest

abbrev pub ids : List ChelContractKey → List String
ids [] = []
ids (k ∷ ks) = k.id ∷ ids ks

abbrev pub first_id : List ChelContractKey → Option String
first_id [] = none
first_id (k ∷ ks) = some k.id

abbrev pub on_keys {ℓ} : {A : Type ℓ} → (List ChelContractKey → A) → Option Keys → Option A
on_keys f none = none
on_keys f (some keys) = some (f (values keys))

unfoldable pub find_key_id_by_name : Option Keys → String → Option String
find_key_id_by_name none name = none
find_key_id_by_name (some keys) name =
    first_id (select (λ k. str_eq k.name name && is_current k) (values keys))

unfoldable pub find_revoked_key_ids_by_name : Option Keys → String → Option (List String)
find_revoked_key_ids_by_name keys name =
    on_keys (λ ks. ids (select (λ k. str_eq k.name name && not (is_current k)) ks)) keys

-- `k.foreignKey?.includes(contractID)`; `occurs` is the substring test of texts.
unfoldable pub find_foreign_keys_by_contract_id :
    (String → String → Bool) → Option Keys → String → Option (List String)
find_foreign_keys_by_contract_id occurs keys contract_id =
    on_keys
      (λ ks. ids (
        select
          (λ k.
            is_current k && elim k.foreign_key [ none ↦ false | some fk ↦ occurs contract_id fk ])
          ks))
      keys

-- An absent ring level is infinity.
abbrev pub within_level : Option ℕ → ChelContractKey → Bool
within_level none k = true
within_level (some l) k = leb k.ring_level l

abbrev pub has_permissions : Granted → ChelContractKey → Bool
has_permissions everything k = elim k.permissions [ everything ↦ true | only ps ↦ false ]
has_permissions (only ps) k = all (λ p. grants k.permissions p) ps

abbrev pub has_purposes : List String → ChelContractKey → Bool
has_purposes purposes k = all (λ p. includes p k.purpose) purposes

abbrev pub is_everything : Option Granted → Bool
is_everything (some everything) = true
is_everything _ = false

abbrev pub allows_actions : Option Granted → ChelContractKey → Bool
allows_actions none k = true
allows_actions (some everything) k = is_everything k.allowed_actions
allows_actions (some (only actions)) k = all (λ a. grants_action k.allowed_actions a) actions

unfoldable pub is_suitable : Granted → List String → Option ℕ → ChelContractKey → Bool
is_suitable permissions purposes level k =
    is_current k
    && (within_level level k && (has_permissions permissions k && has_purposes purposes k))

-- `sort((a, b) => b.ringLevel - a.ringLevel)`.
unfoldable pub insert_by_level : ChelContractKey → List ChelContractKey → List ChelContractKey
insert_by_level k [] = k ∷ []
insert_by_level k (x ∷ ks) =
    let rest = insert_by_level k ks in
    if leb x.ring_level k.ring_level then k ∷ (x ∷ ks) else x ∷ rest

unfoldable pub sort_by_level : List ChelContractKey → List ChelContractKey
sort_by_level [] = []
sort_by_level (k ∷ ks) = insert_by_level k (sort_by_level ks)

-- `have_secret_key` is the selector `chelonia/haveSecretKey`.
unfoldable pub find_suitable_secret_key_id :
    (String → Bool)
    → Option Keys
    → Granted
    → List String
    → Option ℕ
    → Option Granted
    → Option String
find_suitable_secret_key_id have_secret_key none permissions purposes level actions = none
find_suitable_secret_key_id have_secret_key (some keys) permissions purposes level actions =
    first_id (
      sort_by_level (
        select
          (λ k.
            is_suitable permissions purposes level k
            && (have_secret_key k.id && allows_actions actions k))
          (values keys)))

unfoldable pub find_suitable_public_key_ids :
    Option Keys → Granted → List String → Option ℕ → Option (List String)
find_suitable_public_key_ids keys permissions purposes level =
    on_keys (λ ks. ids (sort_by_level (select (is_suitable permissions purposes level) ks))) keys

-- An action, with the key of its inner signature where `isSignedData` holds.
pub record Action : Type 0 where
  pub action : String
  pub inner_signing_key_id : Option String

-- An operation: the value of an encrypted one may fail to decrypt.
pub data Operation : Type 0 where
  action_unencrypted : Action → Operation
  action_encrypted : Outcome String Action → Operation
  other_operation : String → Operation

abbrev pub op_type : Operation → String
op_type (action_unencrypted a) = "au"
op_type (action_encrypted a) = "ae"
op_type (other_operation t) = t

unfoldable pub may_sign : Option ChelContractKey → String → Bool
may_sign none permission = false
may_sign (some k) permission = includes "sig" k.purpose && grants k.permissions permission

-- The inner signature; an outgoing message may use a key that is not in the state.
unfoldable pub validate_inner : Bool → Option ChelContractKey → String → Action → Bool
validate_inner outgoing none op a = outgoing
validate_inner outgoing (some k) op a =
    may_sign (some k) (text_append op "#inner")
    && grants_action k.allowed_actions (text_append a.action "#inner")

unfoldable pub validate_action_permissions : Bool → ChelContractKey → Keys → String → Action → Bool
validate_action_permissions outgoing signing_key keys op a =
    grants_action signing_key.allowed_actions a.action && elim a.inner_signing_key_id [
      | none ↦ true
      | some id ↦ validate_inner outgoing (lookup id keys) op a
    ]

abbrev pub validate_decrypted :
    Bool → ChelContractKey → Keys → Outcome String Action → Outcome String Bool
validate_decrypted outgoing k keys (ok a) = ok (validate_action_permissions outgoing k keys "ae" a)
validate_decrypted outgoing k keys (throw e) = throw e

abbrev pub validate_operation :
    Bool → Bool → ChelContractKey → Keys → Operation → Outcome String Bool
validate_operation outgoing skip k keys (action_unencrypted a) =
    ok (validate_action_permissions outgoing k keys "au" a)
validate_operation outgoing skip k keys (action_encrypted a) =
    if skip then ok true else validate_decrypted outgoing k keys a
validate_operation outgoing skip k keys (other_operation t) = ok true

abbrev pub validate_signer :
    Bool → Bool → Option ChelContractKey → Keys → Operation → Outcome String Bool
validate_signer outgoing skip none keys o = ok false
validate_signer outgoing skip (some k) keys o =
    if may_sign (some k) (op_type o) then validate_operation outgoing skip k keys o else ok false

-- `skip` is `config.skipActionProcessing`.
unfoldable pub validate_key_permissions :
    Bool → Bool → Keys → String → Operation → Outcome String Bool
validate_key_permissions outgoing skip keys signing_key_id o =
    validate_signer outgoing skip (lookup signing_key_id keys) keys o
