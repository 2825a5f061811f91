-- ===== src/Journal/Diff.antt =====
-- src/journal.ts, "Diff": `defaultDiff` and `diffInto`. The patches that the source pushes are the
-- returned list, in the order of the pushes. The first test, `before === after`, is that of values:
-- one reference compared with itself has an empty diff in the source, and here too, by the tests
-- below (Journal.RoundTrip.Fixed).
pub mod Edits
use libcheloniajs.Base.{
  ℕ, zero, suc, ◌+◌, Bool, true, false, not, ◌&&◌, ◌||◌, List, [], ◌∷◌, ◌++◌, Option, none, some,
  String, if◌then◌else◌,
}
use libcheloniajs.Journal.Json.{
  Value, undefined, null, boolean, number, string, array, object, Items, nil, cons, Fields, end,
  field, bool_eq, strict_eq, shallow_equal_primitives, is_undefined, is_array, is_plain_object,
  clone_value, property, owns, item_count,
}
use libcheloniajs.Journal.Index.{index_text}
use libcheloniajs.Journal.Pointer.{segments_to_pointer}

-- `other` is an op that the producer never emits.
pub data Op : Type 0 where
  add remove replace : Op
  other : String → Op

-- `value` is none where the patch has no such key.
pub record Patch : Type 0 where
  pub op : Op
  pub path : String
  pub value : Option Value

abbrev pub is_root : List String → Bool
is_root [] = true
is_root (s ∷ ss) = false

abbrev pub patch : Op → List String → Option Value → Patch
patch op segments value = record { op = op; path = segments_to_pointer segments; value = value }

-- The tests of `diffInto` up to the two loops, whose patches are `rest`.
unfoldable pub diff_shape : Value → Value → List String → List Patch → List Patch
diff_shape before after segments rest =
    let b_is_arr = is_array before in
    let a_is_arr = is_array after in
    let b_is_obj = is_plain_object before in
    let a_is_obj = is_plain_object after in
    if strict_eq before after
    then []
    else if is_undefined before
    then patch add segments (some (clone_value after)) ∷ []
    else if is_undefined after
    then (if is_root segments
        then patch replace segments (some null) ∷ []
        else patch remove segments none ∷ [])
    else if not (bool_eq b_is_arr a_is_arr)
        || (not (bool_eq b_is_obj a_is_obj) || (not b_is_arr && not b_is_obj))
    then (if shallow_equal_primitives before after
        then []
        else patch replace segments (some (clone_value after)) ∷ [])
    else rest

-- `for (let i = bArr.length - 1; i >= aArr.length; i--)`, with the number of rounds and the last
-- index.
unfoldable pub remove_tail : ℕ → ℕ → List String → List Patch
remove_tail zero i segments = []
remove_tail (suc n) i segments =
    patch remove (segments ++ index_text (i + n) ∷ []) none ∷ remove_tail n i segments

-- The first loop over objects: the keys of `before` that `after` lacks.
unfoldable pub remove_keys : Fields → Fields → List String → List Patch
remove_keys end after segments = []
remove_keys (field k v before) after segments =
    let rest = remove_keys before after segments in
    if owns after k then rest else patch remove (segments ++ k ∷ []) none ∷ rest

abbrev pub items_of : Value → Items
items_of (array xs) = xs
items_of _ = nil

abbrev pub fields_of : Value → Fields
fields_of (object fs) = fs
fields_of _ = end

unfoldable mutual
  pub diff_into : Value → Value → List String → List Patch
  diff_into before undefined segments = diff_shape before undefined segments []
  diff_into before null segments = diff_shape before null segments []
  diff_into before (boolean b) segments = diff_shape before (boolean b) segments []
  diff_into before (number n) segments = diff_shape before (number n) segments []
  diff_into before (string s) segments = diff_shape before (string s) segments []
  diff_into before (array ys) segments =
      diff_shape before (array ys) segments (diff_items (items_of before) ys 0 segments)
  diff_into before (object gs) segments =
      diff_shape before (object gs) segments
        (remove_keys (fields_of before) gs segments ++ diff_fields (fields_of before) gs segments)

  -- The loops over arrays, from the index `i` on: the common part, then what is longer.
  pub diff_items : Items → Items → ℕ → List String → List Patch
  diff_items xs nil i segments = remove_tail (item_count xs) i segments
  diff_items nil (cons y ys) i segments =
      patch add (segments ++ index_text i ∷ []) (some (clone_value y))
      ∷ diff_items nil ys (suc i) segments
  diff_items (cons x xs) (cons y ys) i segments =
      diff_into x y (segments ++ index_text i ∷ []) ++ diff_items xs ys (suc i) segments

  -- The second loop over objects: the keys of `after`, looked up in `before`.
  pub diff_fields : Fields → Fields → List String → List Patch
  diff_fields before end segments = []
  diff_fields before (field k v after) segments =
      elim (property k before) [
        | none ↦ patch add (segments ++ k ∷ []) (some (clone_value v)) ∷ []
        | some w ↦ diff_into w v (segments ++ k ∷ [])
      ]
      ++ diff_fields before after segments

unfoldable pub default_diff : Value → Value → List Patch
default_diff before after = diff_into before after []
