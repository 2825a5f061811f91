-- ===== src/Journal/Diff/Edits.antt =====
-- The diff of src/journal.ts as edits with paths relative to the value, and the proof that the
-- patches of `diffInto` are these edits under the segments of the value.
use mathlib.Core.List.{map-append, append_assoc, append-nil}
use libcheloniajs.Base.{
  ℕ, zero, suc, ◌+◌, ◌≡◌, refl, ap, sym, ◌∙◌, false, not, ◌&&◌, ◌||◌, List, [], ◌∷◌, ◌++◌, Option,
  none, some, String, if◌then◌else◌, map, arith, inl, inr, Bool-cases,
}
use mathlib.Core.Path.{ap₂}
use libcheloniajs.Journal.Json.{
  Value, undefined, null, boolean, number, string, array, object, Items, nil, cons, Fields, end,
  field, bool_eq, strict_eq, shallow_equal_primitives, is_undefined, is_array, is_plain_object,
  clone_value, clone_value_lem, property, owns, item_count,
}
use libcheloniajs.Journal.Index.{index_text}
use libcheloniajs.Journal.Same.{IsJson, AllJson, EachJson}
use libcheloniajs.Journal.Diff.{
  Op, add, remove, replace, Patch, patch, diff_shape, remove_tail, remove_keys, items_of, fields_of,
  diff_into, diff_items, diff_fields,
}

pub record Edit : Type 0 where
  pub op : Op
  pub segments : List String
  pub value : Option Value

abbrev pub edit : Op → List String → Option Value → Edit
edit op segments value = record { op = op; segments = segments; value = value }

abbrev pub inside : String → Edit → Edit
inside s e = record e { segments = s ∷ e.segments }

abbrev pub render : List String → Edit → Patch
render segments e = patch e.op (segments ++ e.segments) e.value

-- The tests of `diffInto`, for a value after that is not undefined.
unfoldable pub edits_shape : Value → Value → List Edit → List Edit
edits_shape before after rest =
    let b_is_arr = is_array before in
    let a_is_arr = is_array after in
    let b_is_obj = is_plain_object before in
    let a_is_obj = is_plain_object after in
    if strict_eq before after
    then []
    else if is_undefined before
    then edit add [] (some after) ∷ []
    else if not (bool_eq b_is_arr a_is_arr)
        || (not (bool_eq b_is_obj a_is_obj) || (not b_is_arr && not b_is_obj))
    then (if shallow_equal_primitives before after then [] else edit replace [] (some after) ∷ [])
    else rest

unfoldable pub edits_tail : ℕ → ℕ → List Edit
edits_tail zero i = []
edits_tail (suc n) i = edit remove (index_text (i + n) ∷ []) none ∷ edits_tail n i

unfoldable pub edits_keys : Fields → Fields → List Edit
edits_keys end after = []
edits_keys (field k v before) after =
    let rest = edits_keys before after in
    if owns after k then rest else edit remove (k ∷ []) none ∷ rest

unfoldable mutual
  pub edits : Value → Value → List Edit
  edits before undefined = []
  edits before null = edits_shape before null []
  edits before (boolean b) = edits_shape before (boolean b) []
  edits before (number n) = edits_shape before (number n) []
  edits before (string s) = edits_shape before (string s) []
  edits before (array ys) = edits_shape before (array ys) (edits_items (items_of before) ys 0)
  edits before (object gs) =
      edits_shape before (object gs)
        (edits_keys (fields_of before) gs ++ edits_fields (fields_of before) gs)

  pub edits_items : Items → Items → ℕ → List Edit
  edits_items xs nil i = edits_tail (item_count xs) i
  edits_items nil (cons y ys) i = edit add (index_text i ∷ []) (some y) ∷ edits_items nil ys (suc i)
  edits_items (cons x xs) (cons y ys) i =
      map (inside (index_text i)) (edits x y) ++ edits_items xs ys (suc i)

  pub edits_fields : Fields → Fields → List Edit
  edits_fields before end = []
  edits_fields before (field k v after) =
      elim (property k before) [
        | none ↦ edit add (k ∷ []) (some v) ∷ []
        | some w ↦ map (inside k) (edits w v)
      ]
      ++ edits_fields before after

map-render-inside :
    (s : String) (segments : List String) (es : List Edit)
    → map (render (segments ++ s ∷ [])) es ≡ map (render segments) (map (inside s) es)
map-render-inside s segments [] = refl
map-render-inside s segments (e ∷ es) =
    ap₂ ◌∷◌ (ap (λ ss. patch e.op ss e.value) (append_assoc segments (s ∷ []) e.segments))
      (map-render-inside s segments es)

shape_render :
    (b a : Value) (segments : List String) (ps : List Patch) (es : List Edit)
    → is_undefined a ≡ false
    → ps ≡ map (render segments) es
    → diff_shape b a segments ps ≡ map (render segments) (edits_shape b a es)
unfolding diff_shape edits_shape
shape_render b a segments ps es d e =
    rw (e, clone_value_lem a, d) (ground (arith, append-nil segments))

tail_render :
    (n i : ℕ) (segments : List String)
    → remove_tail n i segments ≡ map (render segments) (edits_tail n i)
unfolding remove_tail edits_tail
tail_render zero i segments = refl
tail_render (suc n) i segments =
    ap (◌∷◌ (patch remove (segments ++ index_text (i + n) ∷ []) none)) (tail_render n i segments)

keys_render :
    (fs gs : Fields) (segments : List String)
    → remove_keys fs gs segments ≡ map (render segments) (edits_keys fs gs)
unfolding remove_keys edits_keys
keys_render end gs segments = refl
keys_render (field k v fs) gs segments = elim (Bool-cases (owns gs k)) [
  | inl kept ↦ rw kept (keys_render fs gs segments)
  | inr gone ↦
      rw gone (ap (◌∷◌ (patch remove (segments ++ k ∷ []) none)) (keys_render fs gs segments))
]

-- One key of the second loop over objects.
member_render :
    (o : Option Value) (k : String) (v : Value) (segments : List String)
    → ((w : Value)
        → diff_into w v (segments ++ k ∷ []) ≡ map (render (segments ++ k ∷ [])) (edits w v))
    → (elim o [
      | none ↦ patch add (segments ++ k ∷ []) (some (clone_value v)) ∷ []
      | some w ↦ diff_into w v (segments ++ k ∷ [])
    ])
      ≡ map
          (render segments)
          (elim o [ none ↦ edit add (k ∷ []) (some v) ∷ [] | some w ↦ map (inside k) (edits w v) ])
member_render none k v segments ih =
    ap (λ u. patch add (segments ++ k ∷ []) (some u) ∷ []) (clone_value_lem v)
member_render (some w) k v segments ih = ih w ∙ map-render-inside k segments (edits w v)

mutual
  unfolding diff_into diff_items diff_fields edits edits_items edits_fields

  into_render :
      (b a : Value) (segments : List String)
      → IsJson a
      → diff_into b a segments ≡ map (render segments) (edits b a)
  into_render b undefined segments j = absurd j
  into_render b null segments j = shape_render b null segments [] [] refl refl
  into_render b (boolean x) segments j = shape_render b (boolean x) segments [] [] refl refl
  into_render b (number n) segments j = shape_render b (number n) segments [] [] refl refl
  into_render b (string s) segments j = shape_render b (string s) segments [] [] refl refl
  into_render b (array ys) segments j =
      shape_render b (array ys) segments _ _ refl (items_render (items_of b) ys 0 segments j)
  into_render b (object gs) segments j = shape_render b (object gs) segments _ _ refl (
      ap₂ ◌++◌ (keys_render (fields_of b) gs segments) (fields_render (fields_of b) gs segments j)
      ∙ sym (map-append _ _ _))

  items_render :
      (xs ys : Items) (i : ℕ) (segments : List String)
      → AllJson ys
      → diff_items xs ys i segments ≡ map (render segments) (edits_items xs ys i)
  items_render xs nil i segments j = tail_render (item_count xs) i segments
  items_render nil (cons y ys) i segments j =
      ap₂ ◌∷◌ (ap (λ v. patch add (segments ++ index_text i ∷ []) (some v)) (clone_value_lem y))
        (items_render nil ys (suc i) segments j.1)
  items_render (cons x xs) (cons y ys) i segments j =
      ap₂ ◌++◌
        (into_render x y (segments ++ index_text i ∷ []) j.0
          ∙ map-render-inside (index_text i) segments (edits x y))
        (items_render xs ys (suc i) segments j.1)
      ∙ sym (map-append _ _ _)

  fields_render :
      (fs gs : Fields) (segments : List String)
      → EachJson gs
      → diff_fields fs gs segments ≡ map (render segments) (edits_fields fs gs)
  fields_render fs end segments j = refl
  fields_render fs (field k v gs) segments j =
      ap₂ ◌++◌
        (member_render (property k fs) k v segments (λ w. into_render w v (segments ++ k ∷ []) j.1))
        (fields_render fs gs segments j.2)
      ∙ sym (map-append _ _ _)

-- For a JSON value after, the patches of `diffInto` at some segments are the relative edits under
-- those segments.
pub diff_into-edits :
    (b a : Value) (segments : List String)
    → IsJson a
    → diff_into b a segments ≡ map (render segments) (edits b a)
diff_into-edits b a segments j = into_render b a segments j
