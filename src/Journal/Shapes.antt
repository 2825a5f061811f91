-- ===== src/Journal/Shapes.antt =====
-- Laws of the arrays and objects of Journal.Json.
use libcheloniajs.Base.{
  ℕ, zero, suc, ◌+◌, ◌<◌, ◌≤◌, ◌≡◌, refl, ap, true, false, none, some, String, str_eq, eq_iff,
  if◌then◌else◌, arith, Bool-cases, inl, inr, subst,
}
use libcheloniajs.Journal.Json.{
  Value, Items, nil, cons, Fields, end, field, item_count, item_at, set_item, insert_item,
  remove_item, append_items, property, owns, safe_define, delete_property,
}
use libcheloniajs.Journal.Same.{IsJson, EachJson}

pub item_count_of_item_at :
    (xs : Items) (i : ℕ) {v : Value} → item_at xs i ≡ some v → i < item_count xs
unfolding item_at item_count
item_count_of_item_at nil i e = cc
item_count_of_item_at (cons x xs) zero e = omega arith
item_count_of_item_at (cons x xs) (suc i) e = omega (arith, item_count_of_item_at xs i e)

pub item_at-set_item :
    (xs : Items) (i : ℕ) {v : Value} (w : Value)
    → item_at xs i ≡ some v
    → item_at (set_item xs i w) i ≡ some w
unfolding item_at set_item
item_at-set_item nil i w e = cc
item_at-set_item (cons x xs) zero w e = refl
item_at-set_item (cons x xs) (suc i) w e = item_at-set_item xs i w e

pub set_item-set_item :
    (xs : Items) (i : ℕ) (v w : Value) → set_item (set_item xs i v) i w ≡ set_item xs i w
unfolding set_item
set_item-set_item nil i v w = refl
set_item-set_item (cons x xs) zero v w = refl
set_item-set_item (cons x xs) (suc i) v w = ap (cons x) (set_item-set_item xs i v w)

pub set_item_same : (xs : Items) (i : ℕ) {v : Value} → item_at xs i ≡ some v → set_item xs i v ≡ xs
unfolding item_at set_item
set_item_same nil i e = refl
set_item_same (cons x xs) zero e = ground arith
set_item_same (cons x xs) (suc i) e = ap (cons x) (set_item_same xs i e)

-- The item behind a prefix.
pub item_at-append :
    (pre : Items) (x : Value) (xs : Items)
    → item_at (append_items pre (cons x xs)) (item_count pre) ≡ some x
unfolding item_at append_items item_count
item_at-append nil x xs = refl
item_at-append (cons y pre) x xs = item_at-append pre x xs

pub set_item-append :
    (pre : Items) (x v : Value) (xs : Items)
    → set_item (append_items pre (cons x xs)) (item_count pre) v
      ≡ append_items (append_items pre (cons v nil)) xs
unfolding set_item append_items item_count
set_item-append nil x v xs = refl
set_item-append (cons y pre) x v xs = ap (cons y) (set_item-append pre x v xs)

pub append_concat :
    (pre : Items) (v : Value) (xs : Items)
    → append_items (append_items pre (cons v nil)) xs ≡ append_items pre (cons v xs)
unfolding append_items
append_concat nil v xs = refl
append_concat (cons y pre) v xs = ap (cons y) (append_concat pre v xs)

pub append_nil : (pre : Items) → append_items pre nil ≡ pre
unfolding append_items
append_nil nil = refl
append_nil (cons y pre) = ap (cons y) (append_nil pre)

pub item_count-append :
    (xs ys : Items) → item_count (append_items xs ys) ≡ item_count xs + item_count ys
unfolding item_count append_items
item_count-append nil ys = omega arith
item_count-append (cons x xs) ys = omega (arith, item_count-append xs ys)

pub item_count_concat :
    (pre : Items) (v : Value) → item_count (append_items pre (cons v nil)) ≡ suc (item_count pre)
unfolding item_count
item_count_concat pre v = omega (arith, item_count-append pre (cons v nil))

pub insert_item_end :
    (pre : Items) (v : Value) → insert_item pre (item_count pre) v ≡ append_items pre (cons v nil)
unfolding insert_item item_count append_items
insert_item_end nil v = refl
insert_item_end (cons y pre) v = ap (cons y) (insert_item_end pre v)

-- The first items.
abbrev pub take_items : ℕ → Items → Items
take_items zero xs = nil
take_items (suc n) nil = nil
take_items (suc n) (cons x xs) = cons x (take_items n xs)

pub remove_item_last :
    (n : ℕ) (xs : Items) → item_count xs ≡ suc n → remove_item xs n ≡ take_items n xs
unfolding remove_item item_count
remove_item_last n nil e = absurd (omega arith)
remove_item_last zero (cons x nil) e = refl
remove_item_last zero (cons x (cons y xs)) e = absurd (omega arith)
remove_item_last (suc n) (cons x xs) e = ap (cons x) (remove_item_last n xs (omega arith))

pub take_items_all : (xs : Items) → take_items (item_count xs) xs ≡ xs
unfolding item_count
take_items_all nil = refl
take_items_all (cons x xs) = ap (cons x) (take_items_all xs)

pub item_count-take_items :
    (n m : ℕ) (xs : Items) → item_count xs ≡ n + m → item_count (take_items n xs) ≡ n
unfolding item_count
item_count-take_items zero m xs e = refl
item_count-take_items (suc n) m nil e = absurd (omega arith)
item_count-take_items (suc n) m (cons x xs) e = ap suc (item_count-take_items n m xs (omega arith))

pub take_items-take_items :
    (n k : ℕ) (xs : Items) → n ≤ k → take_items n (take_items k xs) ≡ take_items n xs
take_items-take_items zero k xs h = refl
take_items-take_items (suc n) zero xs h = absurd (omega arith)
take_items-take_items (suc n) (suc k) nil h = refl
take_items-take_items (suc n) (suc k) (cons x xs) h =
    ap (cons x) (take_items-take_items n k xs (omega arith))

pub take_items-append : (pre xs : Items) → take_items (item_count pre) (append_items pre xs) ≡ pre
unfolding item_count append_items
take_items-append nil xs = refl
take_items-append (cons y pre) xs = ap (cons y) (take_items-append pre xs)

-- Objects.
pub property-safe_define :
    (fs : Fields) (k j : String) (v : Value)
    → property j (safe_define fs k v) ≡ (if str_eq k j then some v else property j fs)
unfolding property safe_define
property-safe_define end k j v = refl
property-safe_define (field i w fs) k j v =
    ground (arith, eq_iff k j, eq_iff i k, eq_iff i j, property-safe_define fs k j v)

pub property-delete_property :
    (fs : Fields) (k j : String)
    → property j (delete_property fs k) ≡ (if str_eq k j then none else property j fs)
unfolding property delete_property
property-delete_property end k j = ground arith
property-delete_property (field i w fs) k j =
    ground (arith, eq_iff k j, eq_iff i k, eq_iff i j, property-delete_property fs k j)

pub safe_define-safe_define :
    (fs : Fields) (k : String) (v w : Value)
    → safe_define (safe_define fs k v) k w ≡ safe_define fs k w
unfolding safe_define
safe_define-safe_define end k v w = ground (arith, eq_iff k k)
safe_define-safe_define (field i u fs) k v w =
    ground (arith, eq_iff i k, safe_define-safe_define fs k v w)

pub safe_define_same :
    (fs : Fields) (k : String) (v : Value) → property k fs ≡ some v → safe_define fs k v ≡ fs
unfolding safe_define property
safe_define_same end k v e = cc
safe_define_same (field i u fs) k v e = ground (arith, eq_iff i k, safe_define_same fs k v)

-- A key is owned exactly when it has a property.
pub owns_of_property :
    (fs : Fields) (k : String) → owns fs k ≡ (elim (property k fs) [ none ↦ false | some v ↦ true ])
unfolding owns property
owns_of_property end k = refl
owns_of_property (field i u fs) k = ground (arith, owns_of_property fs k)

pub property-IsJson :
    (fs : Fields) (k : String) (v : Value) → EachJson fs → property k fs ≡ some v → IsJson v
unfolding property
property-IsJson end k v j e = cc
property-IsJson (field i u fs) k v j e = elim (Bool-cases (str_eq i k)) [
  | inl hit ↦ let found : u ≡ v = ground (arith, hit) in subst IsJson found j.1
  | inr miss ↦ property-IsJson fs k v j.2 (rw miss at e)
]
