-- ===== src/Keys/Suitable.antt =====
-- src/utils.ts, `findSuitableSecretKeyId`: which of the suitable keys it finds.
use libcheloniajs.Base.{
  ℕ, ◌≤◌, ◌≡◌, refl, Bool, true, false, ◌&&◌, List, [], ◌∷◌, Option, none, some, String, arith, leb,
  All, if◌then◌else◌, Bool-cases, ◌⊎◌, inl, inr, ap, sym, ◌∙◌,
}
use libcheloniajs.Keys.{
  ChelContractKey, Keys, Granted, values, select, first_id, is_suitable, allows_actions,
  insert_by_level, sort_by_level, find_suitable_secret_key_id,
}

abbrev pub In : ChelContractKey → List ChelContractKey → Type 0
In k [] = ⊥
In k (x ∷ ks) = (x ≡ k) ⊎ In k ks

-- What heads a sorted list of the keys `ks`.
abbrev Top : List ChelContractKey → List ChelContractKey → Type 0
Top [] ks = ks ≡ []
Top (k ∷ rest) ks = In k ks × All (λ l. l.ring_level ≤ k.ring_level) ks

All-le :
    (m n : ℕ) (ks : List ChelContractKey)
    → m ≤ n
    → All (λ l. l.ring_level ≤ m) ks
    → All (λ l. l.ring_level ≤ n) ks
All-le m n [] h a = tt
All-le m n (k ∷ ks) h a =
    let first : k.ring_level ≤ m = a.0 in (omega (arith, first, h), All-le m n ks h a.1)

none_above : (n : ℕ) (ks : List ChelContractKey) → ks ≡ [] → All (λ l. l.ring_level ≤ n) ks
none_above n [] e = tt
none_above n (k ∷ ks) e = cc

insert_by_level-Top :
    (k : ChelContractKey) (sorted ks : List ChelContractKey)
    → Top sorted ks
    → Top (insert_by_level k sorted) (k ∷ ks)
unfolding insert_by_level
insert_by_level-Top k [] ks t = (inl refl, (omega arith, none_above k.ring_level ks t))
insert_by_level-Top k (x ∷ rest) ks t = elim (Bool-cases (leb x.ring_level k.ring_level)) [
  | inl above ↦
      rw above
        (inl refl, (omega arith, All-le x.ring_level k.ring_level ks (ground (arith, above)) t.1))
  | inr below ↦ rw below (inr t.0, (ground (arith, below), t.1))
]

sort_by_level-Top : (ks : List ChelContractKey) → Top (sort_by_level ks) ks
unfolding sort_by_level
sort_by_level-Top [] = refl
sort_by_level-Top (k ∷ ks) = insert_by_level-Top k (sort_by_level ks) ks (sort_by_level-Top ks)

module _ (p : ChelContractKey → Bool) where
  In-step :
      (k x : ChelContractKey) (ks : List ChelContractKey) (b : Bool)
      → p x ≡ b
      → (In k (select p ks) → In k ks × (p k ≡ true))
      → In k (if b then x ∷ select p ks else select p ks)
      → In k (x ∷ ks) × (p k ≡ true)
  In-step k x ks true e ih (inl same) = (inl same, ap p (sym same) ∙ e)
  In-step k x ks true e ih (inr later) = let r = ih later in (inr r.0, r.1)
  In-step k x ks false e ih later = let r = ih later in (inr r.0, r.1)

  In-select :
      (k : ChelContractKey) (ks : List ChelContractKey)
      → In k (select p ks)
      → In k ks × (p k ≡ true)
  In-select k [] i = absurd i
  In-select k (x ∷ ks) i = In-step k x ks (p x) refl (In-select k ks) i

  All-step :
      (n : ℕ) (x : ChelContractKey) (ks : List ChelContractKey) (b : Bool)
      → p x ≡ b
      → (All (λ l. l.ring_level ≤ n) (select p ks) → All (λ l. p l ≡ true → l.ring_level ≤ n) ks)
      → All (λ l. l.ring_level ≤ n) (if b then x ∷ select p ks else select p ks)
      → All (λ l. p l ≡ true → l.ring_level ≤ n) (x ∷ ks)
  All-step n x ks true e ih a = (λ passes. a.0, ih a.1)
  All-step n x ks false e ih a = (λ passes. cc (passes, e), ih a)

  All-select :
      (n : ℕ) (ks : List ChelContractKey)
      → All (λ l. l.ring_level ≤ n) (select p ks)
      → All (λ l. p l ≡ true → l.ring_level ≤ n) ks
  All-select n [] a = tt
  All-select n (x ∷ ks) a = All-step n x ks (p x) refl (All-select n ks) a

  select-eq-nil : (ks : List ChelContractKey) → select p ks ≡ [] → All (λ l. p l ≡ false) ks
  select-eq-nil [] e = tt
  select-eq-nil (x ∷ ks) e = (ground (arith, e), select-eq-nil ks (ground (arith, e)))

  -- The answer is none where no key passes; otherwise it is the identifier of a key that passes,
  -- and no key that passes has a higher ring level.
  abbrev pub IsHighest : Option String → List ChelContractKey → Type 0
  IsHighest none ks = All (λ l. p l ≡ false) ks
  IsHighest (some id) ks =
      (k : ChelContractKey) × In k ks
      × (k.id ≡ id)
      × (p k ≡ true)
      × All (λ l. p l ≡ true → l.ring_level ≤ k.ring_level) ks

  first_id-IsHighest :
      (sorted ks : List ChelContractKey) → Top sorted (select p ks) → IsHighest (first_id sorted) ks
  first_id-IsHighest [] ks t = select-eq-nil ks t
  first_id-IsHighest (k ∷ rest) ks t =
      let found = In-select k ks t.0 in (k, found.0, refl, found.1, All-select k.ring_level ks t.1)

-- The conditions on a key of `findSuitableSecretKeyId`.
abbrev pub passes :
    (String → Bool) → Granted → List String → Option ℕ → Option Granted → ChelContractKey → Bool
passes have permissions purposes level actions k =
    is_suitable permissions purposes level k && (have k.id && allows_actions actions k)

-- The answer is none where no key meets the conditions; otherwise it is the identifier of a key
-- that meets them, and no key that meets them has a higher ring level.
pub find_suitable_secret_key_id-IsHighest :
    (have : String → Bool) (keys : Keys) (permissions : Granted) (purposes : List String)
    (level : Option ℕ) (actions : Option Granted)
    → IsHighest
        (passes have permissions purposes level actions)
        (find_suitable_secret_key_id have (some keys) permissions purposes level actions)
        (values keys)
unfolding find_suitable_secret_key_id
find_suitable_secret_key_id-IsHighest have keys permissions purposes level actions =
    first_id-IsHighest (passes have permissions purposes level actions) _ (values keys)
      (sort_by_level-Top (select (passes have permissions purposes level actions) (values keys)))
