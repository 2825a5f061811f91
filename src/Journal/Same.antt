-- ===== src/Journal/Same.antt =====
-- Equality of values as the journal keeps it: numbers up to NaN and the sign of zero, objects up to
-- the order of their keys. And the plain JSON values: no `undefined`, and no key twice.
use libcheloniajs.Base.{
  ℕ, ◌≡◌, refl, Bool, true, false, ◌||◌, ◌&&◌, Option, none, some, String, arith, str_eq,
  if◌then◌else◌, ==_iff,
}
use text.Mathlib.TextPositions.{eq_refl}
use libcheloniajs.Journal.Json.{
  Value, undefined, null, boolean, number, string, array, object, Items, nil, cons, Fields, end,
  field, number_eq, is_nan, strict_eq, shallow_equal_primitives, property, owns,
}

abbrev mutual
  pub IsJson : Value → Type 0
  IsJson undefined = ⊥
  IsJson null = Unit {0}
  IsJson (boolean b) = Unit {0}
  IsJson (number n) = Unit {0}
  IsJson (string s) = Unit {0}
  IsJson (array xs) = AllJson xs
  IsJson (object fs) = EachJson fs

  pub AllJson : Items → Type 0
  AllJson nil = Unit {0}
  AllJson (cons x xs) = IsJson x × AllJson xs

  pub EachJson : Fields → Type 0
  EachJson end = Unit {0}
  EachJson (field k v fs) = (owns fs k ≡ false) × IsJson v × EachJson fs

mutual
  pub data Same : Value → Value → Type 0 where
    scalar : {v w : Value} → shallow_equal_primitives v w ≡ true → Same v w
    arrays : {xs ys : Items} → SameItems xs ys → Same (array xs) (array ys)
    objects :
        {fs gs : Fields}
        → ((k : String) → SameProperty (property k fs) (property k gs))
        → Same (object fs) (object gs)

  pub data SameItems : Items → Items → Type 0 where
    none_left : SameItems nil nil
    both :
        {x y : Value} {xs ys : Items}
        → Same x y
        → SameItems xs ys
        → SameItems (cons x xs) (cons y ys)

  pub data SameProperty : Option Value → Option Value → Type 0 where
    absent : SameProperty none none
    present : {x y : Value} → Same x y → SameProperty (some x) (some y)

number_eq_refl : (n : ℕ) → (number_eq n n || (is_nan n && is_nan n)) ≡ true
unfolding number_eq
number_eq_refl n = ground (arith, ==_iff n n)

Same-if :
    (b : Bool) {x : Value} {rest : Option Value}
    → Same x x
    → SameProperty rest rest
    → SameProperty (if b then some x else rest) (if b then some x else rest)
Same-if true s r = present s
Same-if false s r = r

mutual
  unfolding shallow_equal_primitives strict_eq property

  same : (v : Value) → Same v v
  same undefined = scalar refl
  same null = scalar refl
  same (boolean true) = scalar refl
  same (boolean false) = scalar refl
  same (number n) = scalar (number_eq_refl n)
  same (string s) = scalar (eq_refl s)
  same (array xs) = arrays (same_items xs)
  same (object fs) = objects (same_fields fs)

  same_items : (xs : Items) → SameItems xs xs
  same_items nil = none_left
  same_items (cons x xs) = both (same x) (same_items xs)

  same_fields : (fs : Fields) (k : String) → SameProperty (property k fs) (property k fs)
  same_fields end k = absent
  same_fields (field j v fs) k = Same-if (str_eq j k) (same v) (same_fields fs k)

pub Same-refl : (v : Value) → Same v v
Same-refl v = same v
