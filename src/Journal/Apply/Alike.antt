-- ===== src/Journal/Apply/Alike.antt =====
-- src/journal.ts: the changes that the applier makes to arrays and objects, on equal ones.
use libcheloniajs.Base.{
  ℕ, zero, suc, ◌≡◌, refl, ap, ◌∙◌, sym, Bool, true, false, Option, none, some, String,
  if◌then◌else◌, str_eq,
}
use libcheloniajs.Base.Throws.{Outcome, ok}
use libcheloniajs.Journal.Json.{
  Value, Items, Fields, item_count, item_at, set_item, insert_item, remove_item, property, owns,
  safe_define, delete_property,
}
use libcheloniajs.Journal.Shapes.{property-safe_define, property-delete_property, owns_of_property}
use libcheloniajs.Journal.Same.{Same, SameItems, none_left, both, SameProperty, absent, present}

-- What the outcome on the right gives, the one on the left gives too, up to equality.
abbrev pub Alike {ℓ} : {E : Type ℓ} → Outcome E Value → Outcome E Value → Type ℓ
Alike o' o = (u : Value) → o ≡ ok u → (u' : Value) × (o' ≡ ok u') × Same u' u

pub items_count : {xs ys : Items} → SameItems xs ys → item_count xs ≡ item_count ys
unfolding item_count
items_count none_left = refl
items_count (both s ss) = ap suc (items_count ss)

pub items_at :
    {xs ys : Items} (i : ℕ) → SameItems xs ys → SameProperty (item_at xs i) (item_at ys i)
unfolding item_at
items_at i none_left = absent
items_at zero (both s ss) = present s
items_at (suc i) (both s ss) = items_at i ss

pub items_set :
    {xs ys : Items} {v w : Value} (i : ℕ)
    → Same v w
    → SameItems xs ys
    → SameItems (set_item xs i v) (set_item ys i w)
unfolding set_item
items_set i new none_left = none_left
items_set zero new (both s ss) = both new ss
items_set (suc i) new (both s ss) = both s (items_set i new ss)

pub items_insert :
    {xs ys : Items} {v w : Value} (i : ℕ)
    → Same v w
    → SameItems xs ys
    → SameItems (insert_item xs i v) (insert_item ys i w)
unfolding insert_item
items_insert i new none_left = both new none_left
items_insert zero new (both s ss) = both new (both s ss)
items_insert (suc i) new (both s ss) = both s (items_insert i new ss)

pub items_remove :
    {xs ys : Items} (i : ℕ) → SameItems xs ys → SameItems (remove_item xs i) (remove_item ys i)
unfolding remove_item
items_remove i none_left = none_left
items_remove zero (both s ss) = ss
items_remove (suc i) (both s ss) = both s (items_remove i ss)

abbrev pub AlikeFields : Fields → Fields → Type 0
AlikeFields fs gs = (k : String) → SameProperty (property k fs) (property k gs)

on_both :
    (b : Bool) (o p q r : Option Value)
    → SameProperty o p
    → SameProperty q r
    → SameProperty (if b then o else q) (if b then p else r)
on_both true o p q r s t = s
on_both false o p q r s t = t

pub fields_define :
    (fs gs : Fields) (key : String) (v w : Value)
    → Same v w
    → AlikeFields fs gs
    → AlikeFields (safe_define fs key v) (safe_define gs key w)
fields_define fs gs key v w new alike k =
    rw (property-safe_define fs key k v, property-safe_define gs key k w)
      (on_both (str_eq key k) _ _ _ _ (present new) (alike k))

pub fields_delete :
    (fs gs : Fields) (key : String)
    → AlikeFields fs gs
    → AlikeFields (delete_property fs key) (delete_property gs key)
fields_delete fs gs key alike k =
    rw (property-delete_property fs key k, property-delete_property gs key k)
      (on_both (str_eq key k) _ _ _ _ absent (alike k))

owned_both :
    (o p : Option Value)
    → SameProperty o p
    → ◌≡◌ {A = Bool}
        (elim o [ none ↦ false | some v ↦ true ])
        (elim p [ none ↦ false | some v ↦ true ])
owned_both o o' absent = refl
owned_both o o' (present s) = refl

pub fields_owns : (fs gs : Fields) (key : String) → AlikeFields fs gs → owns fs key ≡ owns gs key
fields_owns fs gs key alike =
    owns_of_property fs key ∙ owned_both _ _ (alike key) ∙ sym (owns_of_property gs key)
