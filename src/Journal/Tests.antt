-- ===== src/Journal/Tests.antt =====
-- Witnesses and tests of the journal's pointers, diff, applier and redactions.
use libcheloniajs.Base.{◌≡◌, refl, ◌↔◌, [], ◌∷◌, none, some}
use libcheloniajs.Base.Throws.{ok}
use libcheloniajs.Journal.Json.{
  Value, null, number, string, array, object, nil, cons, end, field, owns, strict_eq, number_eq,
  is_nan, shallow_equal_primitives, is_plain_object, clone_value, property, item_count,
}
use libcheloniajs.Journal.Same.{IsJson, Same}
use libcheloniajs.Journal.Index.{index_text}
use libcheloniajs.Journal.Pointer.{
  escape_pointer_segment, escape_tildes, escape_slashes, segments_to_pointer, pointer_to_segments,
  join_slash, parse_dotted_path, split_dots,
}
use libcheloniajs.Journal.Pointer.Laws.{pointer_to_segments_to_pointer}
use libcheloniajs.Journal.Diff.{
  add, remove, replace, patch, diff_shape, diff_into, remove_tail, remove_keys, default_diff,
}
use libcheloniajs.Journal.Turtledash.{own_turtledash}
use libcheloniajs.Journal.Apply.{default_apply_patch}
use libcheloniajs.Journal.RoundTrip.Main.{default_apply_patch-default_diff}
use libcheloniajs.Journal.RoundTrip.Fixed.{default_diff-eq-nil_iff}
use libcheloniajs.Base.{◌≢◌, List, String}
use libcheloniajs.Journal.Json.{Fields}
use libcheloniajs.Base.Throws.{Outcome, throw}
use libcheloniajs.Journal.Redact.{Thrown, thrown, walk_and_redact, redaction_error_sentinel}
use libcheloniajs.Journal.Redact.Literal.{walk_and_redact-literal, walk_and_redact-replaced}

escaped : segments_to_pointer ("a/b" ∷ "~1" ∷ "" ∷ []) ≡ "/a~1b/~01/"
unfolding segments_to_pointer escape_pointer_segment escape_tildes escape_slashes join_slash
escaped = refl

dotted : parse_dotted_path "a.*.b" ≡ "a" ∷ "*" ∷ "b" ∷ []
unfolding parse_dotted_path split_dots
dotted = refl

pointer_to_segments_to_pointer_example :
    pointer_to_segments (segments_to_pointer ("a/b" ∷ "" ∷ [])) ≡ ok ("a/b" ∷ "" ∷ [])
pointer_to_segments_to_pointer_example = pointer_to_segments_to_pointer ("a/b" ∷ "" ∷ [])

-- { "a": [1, 2, 3], "b": null } and { "a": [1, 4], "c/d": "x" }.
abbrev before : Value
before = object (
    field "a" (array (cons (number 1) (cons (number 2) (cons (number 3) nil))))
      (field "b" null end))

abbrev after : Value
after =
    object
      (field "a" (array (cons (number 1) (cons (number 4) nil))) (field "c/d" (string "x") end))

before-IsJson : IsJson before
unfolding owns
before-IsJson = (refl, (tt, (tt, (tt, tt))), (refl, tt, tt))

after-IsJson : IsJson after
unfolding owns
after-IsJson = (refl, (tt, (tt, tt)), (refl, tt, tt))

patches :
    default_diff before after
    ≡ patch remove ("b" ∷ []) none
      ∷ patch replace ("a" ∷ "1" ∷ []) (some (number 4))
      ∷ patch remove ("a" ∷ "2" ∷ []) none
      ∷ patch add ("c/d" ∷ []) (some (string "x"))
      ∷ []
unfolding default_diff diff_into diff_shape remove_keys remove_tail owns property item_count
    strict_eq number_eq is_nan is_plain_object shallow_equal_primitives clone_value index_text
patches = refl

default_apply_patch-default_diff_example :
    (r : Value) × (default_apply_patch own_turtledash before (default_diff before after) ≡ ok r)
    × Same r after
default_apply_patch-default_diff_example =
    default_apply_patch-default_diff own_turtledash before after before-IsJson after-IsJson

default_diff-eq-nil_iff_example : (default_diff before after ≡ []) ↔ Same before after
default_diff-eq-nil_iff_example = default_diff-eq-nil_iff before after before-IsJson after-IsJson

abbrev hide : Value → List String → String → Outcome Thrown Value
hide v path name = throw (thrown "no")

b_is_null : property "b" (field "b" null end) ≡ some null
unfolding property
b_is_null = refl

walk_and_redact-literal_example :
    (gs : Fields) × (walk_and_redact own_turtledash hide "type"
        ("b" ∷ "c" ∷ [])
        []
        (object (field "b" null end))
      ≡ object gs)
    × ((k : String) → "b" ≢ k → property k gs ≡ property k (field "b" null end))
walk_and_redact-literal_example =
    walk_and_redact-literal own_turtledash hide "type" [] (field "b" null end) "b" refl ("c" ∷ [])

walk_and_redact-replaced_example :
    (gs : Fields) × (walk_and_redact own_turtledash hide "type"
        ("b" ∷ [])
        []
        (object (field "b" null end))
      ≡ object gs)
    × (property "b" gs ≡ some redaction_error_sentinel)
walk_and_redact-replaced_example =
    walk_and_redact-replaced own_turtledash hide "type" [] (field "b" null end) "b" refl null
      b_is_null
