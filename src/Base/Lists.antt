-- ===== src/Base/Lists.antt =====
-- Lists measured by native numbers, and dictionaries with text keys.
use Prim.Native.Nat.{ℕ, suc, ◌+◌}
use Prim.Native.String.{String}
use mathlib.Core.Path.{◌≡◌, refl}
use mathlib.Core.Bool.{Bool, true, false, ◌&&◌, ◌||◌}
use mathlib.Core.Option.{Option, none, some}
use mathlib.Core.List.{List, [], ◌∷◌, ◌++◌}
use native.Mathlib.Omega.{arith}
use text.Mathlib.Text.{◌==◌}
use text.Mathlib.TextEquality.{eq_iff}
use libcheloniajs.Base.Tests.{if◌then◌else◌}

module _ {ℓ} {A : Type ℓ} where
  abbrev pub length : List A → ℕ
  length [] = 0
  length (x ∷ xs) = suc (length xs)

  pub length-append : (xs ys : List A) → length (xs ++ ys) ≡ length xs + length ys
  length-append [] ys = omega arith
  length-append (x ∷ xs) ys = omega (arith, length-append xs ys)

  abbrev pub all : (A → Bool) → List A → Bool
  all p [] = true
  all p (x ∷ xs) = p x && all p xs

  abbrev pub any : (A → Bool) → List A → Bool
  any p [] = false
  any p (x ∷ xs) = p x || any p xs

  abbrev pub All {κ} : (A → Type κ) → List A → Type κ
  All P [] = Unit
  All P (x ∷ xs) = P x × All P xs

-- A dictionary: a JavaScript `Map`, or an object used as one.
module _ {ℓ} {V : Type ℓ} where
  unfoldable pub lookup : (name : String) → List (String × V) → Option V
  lookup name [] = none
  lookup name ((key, value) ∷ rest) = if key == name then some value else lookup name rest

  -- The assignment to a key: a new one comes last.
  unfoldable pub insert : (name : String) → V → List (String × V) → List (String × V)
  insert name new [] = (name, new) ∷ []
  insert name new ((key, old) ∷ rest) =
      if key == name then (name, new) ∷ rest else (key, old) ∷ insert name new rest

  -- `delete` on the dictionary.
  unfoldable pub erase : (name : String) → List (String × V) → List (String × V)
  erase name [] = []
  erase name ((key, old) ∷ rest) =
      let kept = erase name rest in if key == name then kept else (key, old) ∷ kept

  pub lookup-insert :
      (name other : String) (new : V) (dict : List (String × V))
      → lookup other (insert name new dict)
        ≡ (if name == other then some new else lookup other dict)
  unfolding lookup insert
  lookup-insert name other new [] = refl
  lookup-insert name other new ((key, old) ∷ rest) =
      let later = lookup-insert name other new rest in
      ground (arith, later, eq_iff key name, eq_iff key other, eq_iff name other)

  pub lookup-erase :
      (name other : String) (dict : List (String × V))
      → lookup other (erase name dict) ≡ (if name == other then none else lookup other dict)
  unfolding lookup erase
  lookup-erase name other [] = ground arith
  lookup-erase name other ((key, old) ∷ rest) =
      let later = lookup-erase name other rest in
      ground (arith, later, eq_iff key name, eq_iff key other, eq_iff name other)
