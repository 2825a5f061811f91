-- ===== src/Journal/RoundTrip/Fixed.antt =====
-- src/journal.ts: the diff is empty exactly for equal values.
use mathlib.Core.Path.{ap₂}
use libcheloniajs.Base.{
  ℕ, suc, ◌≡◌, refl, ap, ◌∙◌, ◌↔◌, true, false, List, [], ◌++◌, Option, none, some, String, eq_iff,
  map, arith, subst,
}
use libcheloniajs.Journal.Json.{
  Value, undefined, null, boolean, number, string, array, object, Items, nil, cons, Fields, end,
  field, shallow_equal_primitives, is_plain_object, property, owns, clone_value_lem, item_count,
}
use libcheloniajs.Journal.Index.{index_text}
use libcheloniajs.Journal.Shapes.{owns_of_property, property-IsJson}
use libcheloniajs.Journal.Same.{IsJson, AllJson, EachJson, Same, SameItems, SameProperty}
use libcheloniajs.Journal.Unpack.{unpack, unpack_items, unpack_property, found_alike}
use libcheloniajs.Journal.Diff.{default_diff}
use libcheloniajs.Journal.Diff.Edits.{
  Edit, inside, render, edits_shape, edits, edits_items, edits_fields, edits_keys, edits_tail,
  diff_into-edits,
}
use libcheloniajs.Journal.Turtledash.{own_turtledash}
use libcheloniajs.Journal.Apply.{default_apply_patch, apply_all}
use libcheloniajs.Journal.RoundTrip.Rounds.{
  differ, scalar_differs, IsJson-defined, shape_arrays, shape_objects,
}
use libcheloniajs.Journal.RoundTrip.Main.{default_apply_patch-default_diff}

same_leaf :
    (b a : Value) (rest : List Edit)
    → IsJson b
    → differ b a ≡ true
    → shallow_equal_primitives b a ≡ true
    → edits_shape b a rest ≡ []
unfolding edits_shape
same_leaf b a rest j d s = ground (arith, IsJson-defined b j, d, s)

owned_alike : (p q : Option Value) → SameProperty p q → (p ≡ none) ↔ (q ≡ none)
owned_alike none none s = ((λ e. e), (λ e. e))
owned_alike (some x) (some y) s = ((λ e. cc), (λ e. cc))
owned_alike none (some y) s = absurd (unpack_property s)
owned_alike (some x) none s = absurd (unpack_property s)

no_keys :
    (fs gs : Fields) → ((k : String) → owns fs k ≡ true → owns gs k ≡ true) → edits_keys fs gs ≡ []
unfolding edits_keys owns
no_keys end gs own = refl
no_keys (field i v fs) gs own =
    rw (own i (ground (arith, eq_iff i i))) (no_keys fs gs (λ k h. own k (ground (arith, h))))

head_alike :
    (fs gs : Fields) (i : String) (v : Value)
    → ((k : String)
        → owns (field i v gs) k ≡ true
        → SameProperty (property k fs) (property k (field i v gs)))
    → SameProperty (property i fs) (some v)
unfolding owns property
head_alike fs gs i v s =
    let found : property i (field i v gs) ≡ some v = ground (arith, eq_iff i i) in
    subst (SameProperty (property i fs)) found (s i (ground (arith, eq_iff i i)))

tail_alike :
    (fs gs : Fields) (i : String) (v : Value)
    → owns gs i ≡ false
    → ((k : String)
        → owns (field i v gs) k ≡ true
        → SameProperty (property k fs) (property k (field i v gs)))
    → (k : String) → owns gs k ≡ true
    → SameProperty (property k fs) (property k gs)
unfolding owns property
tail_alike fs gs i v fresh s k h =
    let later : property k (field i v gs) ≡ property k gs = ground (arith, eq_iff i k, fresh, h) in
    subst (SameProperty (property k fs)) later (s k (ground (arith, h)))

mutual
  unfolding edits edits_items edits_fields edits_tail item_count is_plain_object

  empty : (b a : Value) → IsJson b → IsJson a → Same b a → edits b a ≡ []
  empty b undefined j k s = refl
  empty b null j k s = same_leaf b null [] j (scalar_differs b null refl refl) (unpack s)
  empty b (boolean x) j k s =
      same_leaf b (boolean x) [] j (scalar_differs b (boolean x) refl refl) (unpack s)
  empty b (number n) j k s =
      same_leaf b (number n) [] j (scalar_differs b (number n) refl refl) (unpack s)
  empty b (string x) j k s =
      same_leaf b (string x) [] j (scalar_differs b (string x) refl refl) (unpack s)
  empty b (array ys) j k s =
      let (xs, e, ss) = unpack s in
      rw e (shape_arrays xs ys _ ∙ empty_items xs ys 0 (subst IsJson e j) k ss)
  empty b (object gs) j k s =
      let (fs, e, ss) = unpack s in
      rw e (
        shape_objects fs gs _
        ∙ ap₂ ◌++◌
            (no_keys fs gs (λ i h.
              ground (
                arith,
                h,
                (owned_alike _ _ (ss i)).1,
                owns_of_property fs i,
                owns_of_property gs i,
              )))
            (empty_fields fs gs (subst IsJson e j) k (λ i _. ss i)))

  empty_items :
      (xs ys : Items) (i : ℕ) → AllJson xs → AllJson ys → SameItems xs ys → edits_items xs ys i ≡ []
  empty_items nil nil i j k s = refl
  empty_items nil (cons y ys) i j k s = absurd (unpack_items s)
  empty_items (cons x xs) nil i j k s = absurd (unpack_items s)
  empty_items (cons x xs) (cons y ys) i j k s =
      let (here, later) = unpack_items s in
      ap₂ (λ es es'. map (inside (index_text i)) es ++ es') (empty x y j.0 k.0 here)
        (empty_items xs ys (suc i) j.1 k.1 later)

  empty_fields :
      (fs gs : Fields)
      → EachJson fs
      → EachJson gs
      → ((k : String) → owns gs k ≡ true → SameProperty (property k fs) (property k gs))
      → edits_fields fs gs ≡ []
  empty_fields fs end j k s = refl
  empty_fields fs (field i v gs) j k s =
      let (w, e, here) = found_alike (property i fs) v (head_alike fs gs i v s) in
      rw e (
        ap₂ (λ es es'. map (inside i) es ++ es') (empty w v (property-IsJson fs i w j e) k.1 here)
          (empty_fields fs gs j k.2 (tail_alike fs gs i v k.0 s)))

diff_of_Same : (b a : Value) → IsJson b → IsJson a → Same b a → default_diff b a ≡ []
unfolding default_diff
diff_of_Same b a j k s = diff_into-edits b a [] k ∙ ap (map (render [])) (empty b a j k s)

Same-of_diff-eq-nil : (b a : Value) → IsJson b → IsJson a → default_diff b a ≡ [] → Same b a
unfolding default_apply_patch apply_all
Same-of_diff-eq-nil b a j k e =
    let (r, done, s) = default_apply_patch-default_diff own_turtledash b a j k in
    let same : r ≡ b = ground (arith, done, e, clone_value_lem b) in subst (λ v. Same v a) same s

-- For JSON values the diff is empty exactly when the two values are equal, up to the order of
-- keys, NaN and the sign of zero.
pub default_diff-eq-nil_iff :
    (before after : Value)
    → IsJson before
    → IsJson after
    → (default_diff before after ≡ []) ↔ Same before after
default_diff-eq-nil_iff b a j k = (Same-of_diff-eq-nil b a j k, diff_of_Same b a j k)
