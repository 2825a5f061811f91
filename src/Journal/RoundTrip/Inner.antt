-- ===== src/Journal/RoundTrip/Inner.antt =====
-- The relative edits of a diff of defined values replace the root or lie below it.
use libcheloniajs.Base.{
  ℕ, zero, suc, ◌≡◌, false, List, [], ◌∷◌, ◌++◌, String, map, arith, Bool-cases, Option-cases, inl,
  inr, All,
}
use libcheloniajs.Journal.Json.{
  Value, undefined, null, boolean, number, string, array, object, Items, nil, cons, Fields, end,
  field, is_undefined, property, owns, item_count,
}
use libcheloniajs.Journal.Diff.{items_of, fields_of}
use libcheloniajs.Journal.Diff.Edits.{
  Edit, inside, edits_shape, edits_tail, edits_keys, edits, edits_items, edits_fields,
}
use libcheloniajs.Journal.Apply.Edits.{IsInner}

All-append : (es es' : List Edit) → All IsInner es → All IsInner es' → All IsInner (es ++ es')
All-append [] es' h k = k
All-append (e ∷ es) es' h k = (h.0, All-append es es' h.1 k)

All-inside : (s : String) (es : List Edit) → All IsInner (map (inside s) es)
All-inside s [] = tt
All-inside s (e ∷ es) = (tt, All-inside s es)

All-tail : (n i : ℕ) → All IsInner (edits_tail n i)
unfolding edits_tail
All-tail zero i = tt
All-tail (suc n) i = (tt, All-tail n i)

All-keys : (fs gs : Fields) → All IsInner (edits_keys fs gs)
unfolding edits_keys
All-keys end gs = tt
All-keys (field k v fs) gs = elim (Bool-cases (owns gs k)) [
  | inl kept ↦ rw kept (All-keys fs gs)
  | inr gone ↦ rw gone (tt, All-keys fs gs)
]

All-items : (xs ys : Items) (i : ℕ) → All IsInner (edits_items xs ys i)
unfolding edits_items
All-items xs nil i = All-tail (item_count xs) i
All-items nil (cons y ys) i = (tt, All-items nil ys (suc i))
All-items (cons x xs) (cons y ys) i =
    All-append _ _ (All-inside _ (edits x y)) (All-items xs ys (suc i))

All-fields : (fs gs : Fields) → All IsInner (edits_fields fs gs)
unfolding edits_fields
All-fields fs end = tt
All-fields fs (field k v gs) = elim (Option-cases (property k fs)) [
  | inl e ↦ rw e (tt, All-fields fs gs)
  | inr (w, e) ↦ rw e (All-append _ _ (All-inside k (edits w v)) (All-fields fs gs))
]

All-shape :
    (b a : Value) (es : List Edit)
    → is_undefined b ≡ false
    → All IsInner es
    → All IsInner (edits_shape b a es)
unfolding edits_shape
All-shape b a es d h = ground (arith, d, h)

pub edits-IsInner : (b a : Value) → is_undefined b ≡ false → All IsInner (edits b a)
unfolding edits
edits-IsInner b undefined d = tt
edits-IsInner b null d = All-shape b null [] d tt
edits-IsInner b (boolean x) d = All-shape b (boolean x) [] d tt
edits-IsInner b (number n) d = All-shape b (number n) [] d tt
edits-IsInner b (string s) d = All-shape b (string s) [] d tt
edits-IsInner b (array ys) d = All-shape b (array ys) _ d (All-items (items_of b) ys 0)
edits-IsInner b (object gs) d =
    All-shape b (object gs) _ d
      (All-append _ _ (All-keys (fields_of b) gs) (All-fields (fields_of b) gs))
