-- ===== src/Journal/Apply/Edits.antt =====
-- Relative edits (Journal.Diff.Edits) under the applier of src/journal.ts: an edit inside a child
-- changes the child in its container.
use mathlib.Core.Path.{ap₂, fun_ext}
use libcheloniajs.Base.{
  ℕ, ◌≡◌, refl, ap, ◌∙◌, List, [], ◌∷◌, ◌++◌, Option, none, some, String, eq_iff, map, arith, All,
}
use libcheloniajs.Base.Throws.{Outcome, ok, ◌>>=◌, >>=-eq-ok}
use libcheloniajs.Journal.Json.{
  Value, array, object, Items, Fields, is_container, clone_value_lem, item_at, set_item, property,
  safe_define,
}
use libcheloniajs.Journal.Shapes.{
  item_count_of_item_at, item_at-set_item, set_item-set_item, set_item_same, property-safe_define,
  safe_define-safe_define, safe_define_same, owns_of_property,
}
use libcheloniajs.Journal.Index.{index_text, number_of-index_text, index_text-ne-dash}
use libcheloniajs.Journal.Pointer.Laws.{pointer_to_segments_to_pointer}
use libcheloniajs.Journal.Diff.{Op, add, remove, replace, other}
use libcheloniajs.Journal.Diff.Edits.{Edit, edit, inside, render}
use libcheloniajs.Journal.Turtledash.{Turtledash}
use libcheloniajs.Journal.Apply as Applier
use libcheloniajs.Journal.Apply.{
  ApplyError, segments_of, value_or_undefined, check_patch, enter_child, put_child, edit_at,
  edit_array, enter, edit_object, walk, apply_at, apply_one, apply_all,
}

-- An edit that is not at the root of its value, or replaces it.
abbrev pub IsInner : Edit → Type 0
IsInner e = elim e.segments [ [] ↦ e.op ≡ replace | s ∷ ss ↦ Unit {0} ]

module _ (t : Turtledash) where
  unfoldable pub apply_edit : Value → Edit → Outcome ApplyError Value
  apply_edit root e = do
    _ ← check_patch e.op e.value
    apply_at t e.op (value_or_undefined e.value) root e.segments

  unfoldable pub apply_edits : Value → List Edit → Outcome ApplyError Value
  apply_edits current [] = ok current
  apply_edits current (e ∷ es) = do current' ← apply_edit current e; apply_edits current' es

  apply_one-render : (root : Value) (e : Edit) → apply_one t root (render [] e) ≡ apply_edit root e
  unfolding apply_one apply_edit
  apply_one-render root e = ground (arith, pointer_to_segments_to_pointer e.segments)

  -- A rendered edit does what the edit does.
  pub apply_all-render :
      (root : Value) (es : List Edit) → apply_all t root (map (render []) es) ≡ apply_edits root es
  unfolding apply_all apply_edits
  apply_all-render root [] = refl
  apply_all-render root (e ∷ es) =
      ap₂ ◌>>=◌ (apply_one-render root e) (fun_ext λ v. apply_all-render v es)

  pub apply_edits-append :
      (v w : Value) (es es' : List Edit)
      → apply_edits v es ≡ ok w
      → apply_edits v (es ++ es') ≡ apply_edits w es'
  unfolding apply_edits
  apply_edits-append v w [] es' h = ground arith
  apply_edits-append v w (e ∷ es) es' h =
      let (u, first, rest) = >>=-eq-ok (apply_edit v e) (λ u. apply_edits u es) h in
      rw first (apply_edits-append u w es es' rest)

  inside_array :
      (xs : Items) (i : ℕ) (b r : Value) (op : Op) (segments : List String) (value : Option Value)
      → item_at xs i ≡ some b
      → IsInner (edit op segments value)
      → apply_edit b (edit op segments value) ≡ ok r
      → apply_edit (array xs) (inside (index_text i) (edit op segments value))
        ≡ ok (array (set_item xs i r))
  unfolding apply_edit apply_at walk enter put_child Applier.edit edit_array edit_at is_container
      check_patch
  inside_array xs i b r replace [] (some v) at inner h = ground (
    arith,
    at,
    h,
    item_count_of_item_at xs i at,
    number_of-index_text i,
    index_text-ne-dash i,
    clone_value_lem v,
  )
  inside_array xs i b r replace [] none at inner h = cc
  inside_array xs i b r add [] value at inner h = cc
  inside_array xs i b r remove [] value at inner h = cc
  inside_array xs i b r (other op) [] value at inner h = cc
  inside_array xs i b r op (s ∷ ss) value at inner h = ground (arith, at, h, number_of-index_text i)

  inside_object :
      (fs : Fields) (k : String) (b r : Value) (op : Op) (segments : List String)
      (value : Option Value)
      → property k fs ≡ some b
      → IsInner (edit op segments value)
      → apply_edit b (edit op segments value) ≡ ok r
      → apply_edit (object fs) (inside k (edit op segments value))
        ≡ ok (object (safe_define fs k r))
  unfolding apply_edit apply_at walk enter put_child Applier.edit edit_object is_container
      check_patch
  inside_object fs k b r replace [] (some v) at inner h =
      ground (arith, at, h, t.has_own fs k, owns_of_property fs k, clone_value_lem v)
  inside_object fs k b r replace [] none at inner h = cc
  inside_object fs k b r add [] value at inner h = cc
  inside_object fs k b r remove [] value at inner h = cc
  inside_object fs k b r (other op) [] value at inner h = cc
  inside_object fs k b r op (s ∷ ss) value at inner h =
      ground (arith, at, h, t.has_own fs k, owns_of_property fs k)

  -- Edits of an item, made in its array.
  pub apply_edits-inside_array :
      (xs : Items) (i : ℕ) (b r : Value) (es : List Edit)
      → item_at xs i ≡ some b
      → All IsInner es
      → apply_edits b es ≡ ok r
      → apply_edits (array xs) (map (inside (index_text i)) es) ≡ ok (array (set_item xs i r))
  unfolding apply_edits
  apply_edits-inside_array xs i b r [] at inner h = ground (arith, set_item_same xs i at)
  apply_edits-inside_array xs i b r (e ∷ es) at inner h =
      let (u, first, rest) = >>=-eq-ok (apply_edit b e) (λ u. apply_edits u es) h in
      rw (inside_array xs i b u e.op e.segments e.value at inner.0 first) (
        apply_edits-inside_array (set_item xs i u) i u r es (item_at-set_item xs i u at) inner.1
          rest
        ∙ ap (λ ys. ok (array ys)) (set_item-set_item xs i u r))

  -- Edits of a property, made in its object.
  pub apply_edits-inside_object :
      (fs : Fields) (k : String) (b r : Value) (es : List Edit)
      → property k fs ≡ some b
      → All IsInner es
      → apply_edits b es ≡ ok r
      → apply_edits (object fs) (map (inside k) es) ≡ ok (object (safe_define fs k r))
  unfolding apply_edits
  apply_edits-inside_object fs k b r [] at inner h = ground (arith, safe_define_same fs k b at)
  apply_edits-inside_object fs k b r (e ∷ es) at inner h =
      let (u, first, rest) = >>=-eq-ok (apply_edit b e) (λ u. apply_edits u es) h in
      rw (inside_object fs k b u e.op e.segments e.value at inner.0 first) (
        apply_edits-inside_object (safe_define fs k u) k u r es
          (ground (arith, property-safe_define fs k k u, eq_iff k k)) inner.1 rest
        ∙ ap (λ gs. ok (object gs)) (safe_define-safe_define fs k u r))
