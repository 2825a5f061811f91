-- ===== src/Journal/Apply.antt =====
-- src/journal.ts, "Apply": `defaultApplyPatch` and `applyOne`. The source walks to the parent and
-- changes it in place; here the walk puts the changed child back into each container on its way.
pub mod Edits
pub mod Alike
pub mod Steps
pub mod Respects
use libcheloniajs.Base.{
  ℕ, Bool, true, false, List, [], ◌∷◌, Option, none, some, String, str_eq, if◌then◌else◌, ltb,
}
use libcheloniajs.Base.Throws.{Outcome, ok, throw, ◌>>=◌}
use libcheloniajs.Journal.Json.{
  Value, undefined, array, object, Items, Fields, is_container, clone_value, item_count, item_at,
  set_item, insert_item, remove_item, property, safe_define, delete_property,
}
use libcheloniajs.Journal.Index.{number_of}
use libcheloniajs.Journal.Pointer.{PointerError, invalid_pointer, pointer_to_segments}
use libcheloniajs.Journal.Diff.{Op, add, remove, replace, other, Patch}
use libcheloniajs.Journal.Turtledash.{Turtledash}

-- The errors of the applier, one for each message.
pub data ApplyError : Type 0 where
  invalid_path unsupported_op missing_value root_remove non_container_root : ApplyError
  not_a_container invalid_index dash_index out_of_bounds missing_key : ApplyError

abbrev pub segments_of : String → Outcome ApplyError (List String)
segments_of path = elim (pointer_to_segments path) [
  | ok segments ↦ ok segments
  | throw e ↦ throw invalid_path
]

-- The value of the patch, undefined where it has none.
abbrev pub value_or_undefined : Option Value → Value
value_or_undefined none = undefined
value_or_undefined (some v) = v

-- The two checks before any work: an unknown op, and a required value that is missing.
unfoldable pub check_patch : Op → Option Value → Outcome ApplyError (Unit {0})
check_patch (other op) value = throw unsupported_op
check_patch add none = throw missing_value
check_patch replace none = throw missing_value
check_patch _ _ = ok tt

abbrev pub enter_child : Option Value → Outcome ApplyError Value
enter_child none = throw not_a_container
enter_child (some v) = if is_container v then ok v else throw not_a_container

-- The write of a changed child, which the source makes through the reference.
unfoldable pub put_child : Value → String → Value → Value
put_child (array xs) seg v = elim (number_of seg) [
  | none ↦ array xs
  | some i ↦ array (set_item xs i v)
]
put_child (object fs) seg v = object (safe_define fs seg v)
put_child w seg v = w

-- The last step in an array, at `-` and at an index.
unfoldable pub edit_at_dash : Op → Items → Value → Outcome ApplyError Value
edit_at_dash add xs v = ok (array (insert_item xs (item_count xs) (clone_value v)))
edit_at_dash replace xs v = throw dash_index
edit_at_dash remove xs v = throw dash_index
edit_at_dash (other op) xs v = throw unsupported_op

unfoldable pub edit_at : Op → Items → ℕ → Value → Outcome ApplyError Value
edit_at add xs i v =
    if ltb (item_count xs) i
    then throw out_of_bounds
    else ok (array (insert_item xs i (clone_value v)))
edit_at replace xs i v =
    if ltb i (item_count xs)
    then ok (array (set_item xs i (clone_value v)))
    else throw out_of_bounds
edit_at remove xs i v =
    if ltb i (item_count xs) then ok (array (remove_item xs i)) else throw out_of_bounds
edit_at (other op) xs i v = throw unsupported_op

unfoldable pub edit_array : Op → Items → String → Value → Outcome ApplyError Value
edit_array op xs last v =
    if str_eq last "-"
    then edit_at_dash op xs v
    else elim (number_of last) [ none ↦ throw invalid_index | some i ↦ edit_at op xs i v ]

module _ (t : Turtledash) where
  -- One step of the walk to the parent.
  unfoldable pub enter : Value → String → Outcome ApplyError Value
  enter (array xs) seg = elim (number_of seg) [
    | none ↦ throw not_a_container
    | some i ↦ enter_child (item_at xs i)
  ]
  enter (object fs) seg =
      if t.has (object fs) seg then enter_child (property seg fs) else throw not_a_container
  enter v seg = throw not_a_container

  unfoldable pub edit_object : Op → Fields → String → Value → Outcome ApplyError Value
  edit_object add fs last v = ok (object (safe_define fs last (clone_value v)))
  edit_object replace fs last v =
      if t.has (object fs) last
      then ok (object (safe_define fs last (clone_value v)))
      else throw missing_key
  edit_object remove fs last v =
      if t.has (object fs) last then ok (object (delete_property fs last)) else throw missing_key
  edit_object (other op) fs last v = throw unsupported_op

  unfoldable pub edit : Op → Value → String → Value → Outcome ApplyError Value
  edit op (array xs) last v = edit_array op xs last v
  edit op (object fs) last v = edit_object op fs last v
  edit op w last v = throw not_a_container

  -- The walk along the segments, the first one apart.
  unfoldable pub walk : Op → Value → Value → String → List String → Outcome ApplyError Value
  walk op v parent seg [] = edit op parent seg v
  walk op v parent seg (next ∷ segments) = do
    child ← enter parent seg
    child' ← walk op v child next segments
    ok (put_child parent seg child')

  -- The operation at the root, or below it.
  unfoldable pub apply_at : Op → Value → Value → List String → Outcome ApplyError Value
  apply_at remove v root [] = throw root_remove
  apply_at op v root [] = ok (clone_value v)
  apply_at op v root (seg ∷ segments) =
      if is_container root then walk op v root seg segments else throw non_container_root

  unfoldable pub apply_one : Value → Patch → Outcome ApplyError Value
  apply_one root p = do
    segments ← segments_of p.path
    _ ← check_patch p.op p.value
    apply_at p.op (value_or_undefined p.value) root segments

  -- The loop of `defaultApplyPatch`.
  unfoldable pub apply_all : Value → List Patch → Outcome ApplyError Value
  apply_all current [] = ok current
  apply_all current (p ∷ ps) = do current' ← apply_one current p; apply_all current' ps

  unfoldable pub default_apply_patch : Value → List Patch → Outcome ApplyError Value
  default_apply_patch state patches = apply_all (clone_value state) patches
