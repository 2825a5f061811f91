-- ===== src/Journal/Json.antt =====
-- The JavaScript values that src/journal.ts handles: plain JSON data, and `undefined`.
-- A number is the bit pattern of its double, so that NaN and the two zeros are told apart as `===`
-- tells them; an object is the list of its own enumerable properties in the order of their insertion
-- (the engine lists integer keys first). Two containers are two references: `===` on them is false;
-- what it is for one reference is said in Journal.Diff. Prototypes, functions, dates, maps and
-- cycles are not modelled.
use libcheloniajs.Base.{
  ℕ, zero, suc, ◌%◌, ◌≡◌, refl, Bool, true, false, not, ◌&&◌, ◌||◌, Option, none, some, String,
  str_eq, ltb, ◌==◌, if◌then◌else◌, ap,
}
use mathlib.Core.Path.{ap₂}

mutual
  pub data Value : Type 0 where
    undefined null : Value
    boolean : Bool → Value
    number : ℕ → Value
    string : String → Value
    array : Items → Value
    object : Fields → Value

  pub data Fields : Type 0 where
    end : Fields
    field : String → Value → Fields → Fields

  pub data Items : Type 0 where
    nil : Items
    cons : Value → Items → Items

-- The pattern without its sign bit, 2 ^ 63.
abbrev pub magnitude : ℕ → ℕ
magnitude b = b % 0x8000000000000000

-- `Number.isNaN`: the magnitude is above that of infinity.
unfoldable pub is_nan : ℕ → Bool
is_nan b = ltb 0x7ff0000000000000 (magnitude b)

-- `===` on numbers: NaN equals nothing, and 0 equals -0.
unfoldable pub number_eq : ℕ → ℕ → Bool
number_eq a b =
    if is_nan a || is_nan b then false else a == b || (magnitude a == 0 && magnitude b == 0)

abbrev pub bool_eq : Bool → Bool → Bool
bool_eq true b = b
bool_eq false b = not b

-- `===`.
unfoldable pub strict_eq : Value → Value → Bool
strict_eq undefined undefined = true
strict_eq null null = true
strict_eq (boolean a) (boolean b) = bool_eq a b
strict_eq (number a) (number b) = number_eq a b
strict_eq (string a) (string b) = str_eq a b
strict_eq _ _ = false

-- `shallowEqualPrimitives`.
unfoldable pub shallow_equal_primitives : Value → Value → Bool
shallow_equal_primitives (number a) (number b) = number_eq a b || (is_nan a && is_nan b)
shallow_equal_primitives a b = strict_eq a b

abbrev pub is_undefined : Value → Bool
is_undefined undefined = true
is_undefined _ = false

-- `Array.isArray`.
abbrev pub is_array : Value → Bool
is_array (array xs) = true
is_array _ = false

unfoldable pub is_plain_object : Value → Bool
is_plain_object (object fs) = true
is_plain_object _ = false

-- `v !== undefined && v !== null && typeof v === 'object'`.
unfoldable pub is_container : Value → Bool
is_container (array xs) = true
is_container (object fs) = true
is_container _ = false

unfoldable mutual
  pub clone_value : Value → Value
  clone_value undefined = undefined
  clone_value null = null
  clone_value (boolean b) = boolean b
  clone_value (number n) = number n
  clone_value (string s) = string s
  clone_value (array xs) = array (clone_items xs)
  clone_value (object fs) = object (clone_fields fs)

  pub clone_items : Items → Items
  clone_items nil = nil
  clone_items (cons x xs) = cons (clone_value x) (clone_items xs)

  pub clone_fields : Fields → Fields
  clone_fields end = end
  clone_fields (field k v fs) = field k (clone_value v) (clone_fields fs)

mutual
  unfolding clone_value clone_items clone_fields

  clone : (v : Value) → clone_value v ≡ v
  clone undefined = refl
  clone null = refl
  clone (boolean b) = refl
  clone (number n) = refl
  clone (string s) = refl
  clone (array xs) = ap array (clone_all xs)
  clone (object fs) = ap object (clone_each fs)

  clone_all : (xs : Items) → clone_items xs ≡ xs
  clone_all nil = refl
  clone_all (cons x xs) = ap₂ cons (clone x) (clone_all xs)

  clone_each : (fs : Fields) → clone_fields fs ≡ fs
  clone_each end = refl
  clone_each (field k v fs) = ap₂ (field k) (clone v) (clone_each fs)

-- A clone is equal to the value.
pub clone_value_lem : (v : Value) → clone_value v ≡ v
clone_value_lem v = clone v

-- Arrays.
unfoldable pub item_count : Items → ℕ
item_count nil = 0
item_count (cons x xs) = suc (item_count xs)

unfoldable pub item_at : Items → ℕ → Option Value
item_at nil i = none
item_at (cons x xs) zero = some x
item_at (cons x xs) (suc i) = item_at xs i

unfoldable pub set_item : Items → ℕ → Value → Items
set_item nil i v = nil
set_item (cons x xs) zero v = cons v xs
set_item (cons x xs) (suc i) v = cons x (set_item xs i v)

-- `splice(i, 0, v)` and `splice(i, 1)`; past the end, the first appends and the second does nothing.
unfoldable pub insert_item : Items → ℕ → Value → Items
insert_item nil i v = cons v nil
insert_item (cons x xs) zero v = cons v (cons x xs)
insert_item (cons x xs) (suc i) v = cons x (insert_item xs i v)

unfoldable pub remove_item : Items → ℕ → Items
remove_item nil i = nil
remove_item (cons x xs) zero = xs
remove_item (cons x xs) (suc i) = cons x (remove_item xs i)

unfoldable pub append_items : Items → Items → Items
append_items nil ys = ys
append_items (cons x xs) ys = cons x (append_items xs ys)

-- Objects.
unfoldable pub property : String → Fields → Option Value
property k end = none
property k (field j v fs) = if str_eq j k then some v else property k fs

unfoldable pub owns : Fields → String → Bool
owns end k = false
owns (field j v fs) k = if str_eq j k then true else owns fs k

-- `Object.defineProperty`: a new key goes to the end.
unfoldable pub safe_define : Fields → String → Value → Fields
safe_define end k v = field k v end
safe_define (field j w fs) k v = if str_eq j k then field j v fs else field j w (safe_define fs k v)

unfoldable pub delete_property : Fields → String → Fields
delete_property end k = end
delete_property (field j w fs) k =
    let rest = delete_property fs k in if str_eq j k then rest else field j w rest
