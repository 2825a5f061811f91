-- ===== src/Kv/Reconcile/Dicts.antt =====
-- src/kv.ts: maps of maps, as the index of the slots and the mirror are.
use libcheloniajs.Base.{
  ◌≡◌, refl, true, false, ◌&&◌, List, [], ◌∷◌, none, some, String, str_eq, eq_iff, if◌then◌else◌,
  lookup, insert, erase, arith, lookup-insert, lookup-erase, Bool-cases, Option-cases, inl, inr,
}
use libcheloniajs.Kv.Mirror.{find_in}
use libcheloniajs.Kv.Reconcile.{or_nil, is_nil, set_in, delete_in}

module _ {ℓ} {A : Type ℓ} where
  pub find_in-set_in :
      (c k c' k' : String) (a : A) (m : List (String × List (String × A)))
      → find_in c' k' (set_in c k a m)
        ≡ (if str_eq c c' && str_eq k k' then some a else find_in c' k' m)
  unfolding find_in set_in lookup
  find_in-set_in c k c' k' a m = elim (Option-cases (lookup c m)) [
    | inl gone ↦ ground (
      arith,
      gone,
      eq_iff c c',
      eq_iff k k',
      lookup-insert c c' (insert k a []) m,
      lookup-insert k k' a [],
    )
    | inr (inner, found) ↦ ground (
      arith,
      found,
      eq_iff c c',
      lookup-insert c c' (insert k a inner) m,
      lookup-insert k k' a inner,
    )
  ]

  lookup-nil : (k' : String) (xs : List (String × A)) → is_nil xs ≡ true → lookup k' xs ≡ none
  unfolding lookup
  lookup-nil k' [] h = refl
  lookup-nil k' (x ∷ xs) h = cc

  pub find_in-delete_in :
      (c k c' k' : String) (m : List (String × List (String × A)))
      → find_in c' k' (delete_in c k m)
        ≡ (if str_eq c c' && str_eq k k' then none else find_in c' k' m)
  unfolding find_in delete_in
  find_in-delete_in c k c' k' m = elim (Option-cases (lookup c m)) [
    | inl gone ↦ ground (arith, gone, eq_iff c c')
    | inr (inner, found) ↦ elim (Bool-cases (is_nil (erase k inner))) [
      | inl empty ↦ ground (
        arith,
        found,
        empty,
        eq_iff c c',
        lookup-erase c c' m,
        lookup-erase k k' inner,
        lookup-nil k' (erase k inner) empty,
      )
      | inr left ↦ ground (
        arith,
        found,
        left,
        eq_iff c c',
        lookup-insert c c' (erase k inner) m,
        lookup-erase k k' inner,
      )
    ]
  ]

  pub emptied-find_in :
      (c k k' : String) (m : List (String × List (String × A)))
      → is_nil (erase k (or_nil (lookup c m))) ≡ true
      → str_eq k k' ≡ false
      → find_in c k' m ≡ none
  unfolding find_in
  emptied-find_in c k k' m empty other = elim (Option-cases (lookup c m)) [
    | inl gone ↦ ground (arith, gone)
    | inr (inner, found) ↦
        let nil : is_nil (erase k inner) ≡ true = ground (arith, found, empty) in
        ground (arith, found, other, lookup-nil k' (erase k inner) nil, lookup-erase k k' inner)
  ]
