-- ===== src/Keys/Authority.antt =====
-- src/utils.ts: validateKeyPermissions of two keys for signatures, one that has no more than the
-- other.
use libcheloniajs.Base.{
  ◌≡◌, ◌↔◌, Bool, true, false, not, ◌&&◌, ◌||◌, none, some, String, str_eq, eq_iff, arith, lookup,
}
use libcheloniajs.Base.Throws.{ok, throw}
use libcheloniajs.Keys.{
  ChelContractKey, Keys, includes, grants, grants_action, may_sign, Action, Operation,
  action_unencrypted, action_encrypted, other_operation, validate_action_permissions,
  validate_key_permissions,
}

-- The types whose operations are judged by their type alone; with `skip` the actions of encrypted
-- operations are not looked at.
abbrev pub is_plain : Bool → String → Bool
is_plain skip t = not (str_eq t "au") && (skip || not (str_eq t "ae"))

-- An operation with an action has its own case.
abbrev pub IsTyped : Operation → Type 0
IsTyped (action_unencrypted a) = Unit {0}
IsTyped (action_encrypted a) = Unit {0}
IsTyped (other_operation t) = (str_eq t "au" || str_eq t "ae") ≡ false

-- The key may do the action in an operation of the type.
abbrev pub acts : String → ChelContractKey → String → Bool
acts t k a = grants k.permissions t && grants_action k.allowed_actions a

abbrev pub HasNoMore : Bool → ChelContractKey → ChelContractKey → Type 0
HasNoMore skip k s =
    ((t : String)
      → is_plain skip t ≡ true
      → grants k.permissions t ≡ true
      → grants s.permissions t ≡ true)
    × ((a : String) → acts "au" k a ≡ true → acts "au" s a ≡ true)
    × ((a : String) → skip ≡ false → acts "ae" k a ≡ true → acts "ae" s a ≡ true)

module _ (outgoing skip : Bool) (keys : Keys) (s k : ChelContractKey)
    (s_signs : includes "sig" s.purpose ≡ true) (k_signs : includes "sig" k.purpose ≡ true)
    (at_s : lookup s.id keys ≡ some s) (at_k : lookup k.id keys ≡ some k) where
  allowed :
      (o : Operation)
      → IsTyped o
      → HasNoMore skip k s
      → validate_key_permissions outgoing skip keys k.id o ≡ ok true
      → validate_key_permissions outgoing skip keys s.id o ≡ ok true
  unfolding validate_key_permissions may_sign validate_action_permissions
  allowed (action_unencrypted a) typed (plain, open_kept, encrypted_kept) h =
      ground (arith, at_s, at_k, s_signs, k_signs, h, open_kept a.action)
  allowed (action_encrypted (ok a)) typed (plain, open_kept, encrypted_kept) h =
      ground (arith, at_s, at_k, s_signs, k_signs, h, plain "ae", encrypted_kept a.action)
  allowed (action_encrypted (throw e)) typed (plain, open_kept, encrypted_kept) h =
      ground (arith, at_s, at_k, s_signs, k_signs, h, plain "ae")
  allowed (other_operation t) typed (plain, open_kept, encrypted_kept) h =
      ground (arith, at_s, at_k, s_signs, k_signs, h, typed, plain t)

  -- The operation without an inner signature that does a given action.
  abbrev plain_action : String → Action
  plain_action a = record { action = a; inner_signing_key_id = none }

  abbrev Allowed : Type 0
  Allowed =
      (o : Operation)
      → IsTyped o
      → validate_key_permissions outgoing skip keys k.id o ≡ ok true
      → validate_key_permissions outgoing skip keys s.id o ≡ ok true

  no_more : Allowed → HasNoMore skip k s
  unfolding validate_key_permissions may_sign validate_action_permissions
  no_more all_kept = (
    λ t plain h. ground (
      arith,
      at_s,
      at_k,
      s_signs,
      k_signs,
      h,
      plain,
      eq_iff t "ae",
      all_kept (other_operation t),
      all_kept (action_encrypted (throw "")) tt,
    ),
    λ a h.
        ground (
          arith,
          at_s,
          at_k,
          s_signs,
          k_signs,
          h,
          all_kept (action_unencrypted (plain_action a)) tt,
        ),
    λ a looked h. ground (
      arith,
      at_s,
      at_k,
      s_signs,
      k_signs,
      h,
      looked,
      all_kept (action_encrypted (ok (plain_action a))) tt,
    ),
  )

  -- Of two keys for signatures in the state, the second may sign every operation that the first may
  -- sign exactly when it has the permission for each type of the first one's that is judged by its
  -- type alone, and may do each action that the first may do, in an operation that is not encrypted
  -- and, where encrypted actions are looked at, in one that is.
  pub validate_key_permissions-HasNoMore_iff :
      ((o : Operation)
        → IsTyped o
        → validate_key_permissions outgoing skip keys k.id o ≡ ok true
        → validate_key_permissions outgoing skip keys s.id o ≡ ok true)
      ↔ HasNoMore skip k s
  validate_key_permissions-HasNoMore_iff = (no_more, λ more o typed. allowed o typed more)
