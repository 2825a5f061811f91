-- ===== src/Journal/RoundTrip/Main.antt =====
-- src/journal.ts: `defaultApplyPatch(before, defaultDiff(before, after))`.
use libcheloniajs.Base.{◌≡◌, refl, ◌∙◌, true, [], String, Option-cases, inl, inr}
use libcheloniajs.Base.Throws.{ok}
use libcheloniajs.Journal.Json.{
  Value, undefined, null, boolean, number, string, array, object, Items, nil, cons, Fields, end,
  field, is_plain_object, property, owns, safe_define, append_items, clone_value_lem,
}
use libcheloniajs.Journal.Shapes.{property-IsJson}
use libcheloniajs.Journal.Same.{IsJson, AllJson, EachJson, Same}
use libcheloniajs.Journal.Diff.{default_diff}
use libcheloniajs.Journal.Diff.Edits.{edits, edits_fields, diff_into-edits}
use libcheloniajs.Journal.Turtledash.{Turtledash}
use libcheloniajs.Journal.Apply.{default_apply_patch}
use libcheloniajs.Journal.Apply.Edits.{apply_all-render}
use libcheloniajs.Journal.RoundTrip.Rounds.{
  Holds, ItemsHold, FieldsHold, leaf, nil_round, add_round, both_round, new_key, common_key,
  array_case, object_case, no_fields, scalar_differs, agree_next, agree_here,
}

module _ (t : Turtledash) where
  mutual
    unfolding edits edits_fields is_plain_object

    holds : (b a : Value) → IsJson b → IsJson a → Holds t b a
    holds b undefined j k = absurd k
    holds b null j k = leaf t b null [] j (scalar_differs b null refl refl)
    holds b (boolean x) j k = leaf t b (boolean x) [] j (scalar_differs b (boolean x) refl refl)
    holds b (number n) j k = leaf t b (number n) [] j (scalar_differs b (number n) refl refl)
    holds b (string s) j k = leaf t b (string s) [] j (scalar_differs b (string s) refl refl)
    holds (array xs) (array ys) j k = array_case t xs ys (items_hold nil xs ys j k)
    holds b (array ys) j k = leaf t b (array ys) _ j refl
    holds (object fs) (object gs) j k =
        object_case t fs gs j (λ cs agree. fields_hold cs fs gs j k agree)
    holds b (object gs) j k = leaf t b (object gs) _ j refl

    items_hold : (pre xs ys : Items) → AllJson xs → AllJson ys → ItemsHold t pre xs ys
    items_hold pre xs nil j k = nil_round t pre xs
    items_hold pre nil (cons y ys) j k =
        add_round t pre y ys (items_hold (append_items pre (cons y nil)) nil ys j k.1)
    items_hold pre (cons x xs) (cons y ys) j k =
        let h = holds x y j.0 k.0 in
        both_round t pre x xs y ys j.0 h
          (items_hold (append_items pre (cons h.0 nil)) xs ys j.1 k.1)

    fields_hold :
        (cs fs gs : Fields)
        → EachJson fs
        → EachJson gs
        → ((k : String) → owns gs k ≡ true → property k cs ≡ property k fs)
        → FieldsHold t cs fs gs
    fields_hold cs fs end j k agree = no_fields t cs fs
    fields_hold cs fs (field i v gs) j k agree = elim (Option-cases (property i fs)) [
      | inl e ↦
          new_key t cs fs gs i v e k.0
            (fields_hold (safe_define cs i v) fs gs j k.2 (agree_next cs fs gs i v v k.0 agree))
      | inr (w, e) ↦
          let jw = property-IsJson fs i w j e in
          let h = holds w v jw k.1 in
          common_key t cs fs gs i w v e (agree_here cs fs gs i v agree ∙ e) jw k.0 h
            (fields_hold (safe_define cs i h.0) fs gs j k.2 (agree_next cs fs gs i v h.0 k.0 agree))
    ]

-- For JSON values, applying the diff of two values to the first succeeds, and gives the second up
-- to the order of keys, NaN and the sign of zero.
pub default_apply_patch-default_diff :
    (t : Turtledash) (before after : Value)
    → IsJson before
    → IsJson after
    → (r : Value) × (default_apply_patch t before (default_diff before after) ≡ ok r) × Same r after
unfolding default_apply_patch default_diff
default_apply_patch-default_diff t b a j k =
    let (r, done, s) = holds t b a j k in
    (
      r,
      rw (clone_value_lem b, diff_into-edits b a [] k) (apply_all-render t b (edits b a) ∙ done),
      s,
    )
