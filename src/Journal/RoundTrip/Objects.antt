-- ===== src/Journal/RoundTrip/Objects.antt =====
-- The edits of the object loops of `diffInto`, applied.
use libcheloniajs.Base.{
  ◌≡◌, refl, true, false, not, ◌&&◌, [], ◌∷◌, none, some, String, str_eq, eq_iff, if◌then◌else◌,
  arith, Bool-cases, inl, inr,
}
use libcheloniajs.Base.Throws.{ok}
use libcheloniajs.Journal.Json.{
  Value, object, Fields, end, field, property, owns, safe_define, delete_property, clone_value_lem,
  is_container,
}
use libcheloniajs.Journal.Shapes.{property-delete_property, owns_of_property}
use libcheloniajs.Journal.Same.{EachJson}
use libcheloniajs.Journal.Diff.{add, remove}
use libcheloniajs.Journal.Diff.Edits.{edit, edits_keys}
use libcheloniajs.Journal.Turtledash.{Turtledash}
use libcheloniajs.Journal.Apply as Applier
use libcheloniajs.Journal.Apply.{edit_object, walk, apply_at, check_patch}
use libcheloniajs.Journal.Apply.Edits.{apply_edit, apply_edits}

pub owns-delete_property :
    (fs : Fields) (k j : String)
    → owns (delete_property fs k) j ≡ (if str_eq k j then false else owns fs j)
owns-delete_property fs k j = ground (
  arith,
  owns_of_property fs j,
  owns_of_property (delete_property fs k) j,
  property-delete_property fs k j,
)

module _ (t : Turtledash) where
  remove_key :
      (fs : Fields) (k : String)
      → owns fs k ≡ true
      → apply_edit t (object fs) (edit remove (k ∷ []) none) ≡ ok (object (delete_property fs k))
  unfolding apply_edit apply_at walk Applier.edit edit_object is_container check_patch
  remove_key fs k e = ground (arith, e, t.has_own fs k)

  pub add_key :
      (fs : Fields) (k : String) (v : Value)
      → apply_edit t (object fs) (edit add (k ∷ []) (some v)) ≡ ok (object (safe_define fs k v))
  unfolding apply_edit apply_at walk Applier.edit edit_object is_container check_patch
  add_key fs k v = ground (arith, clone_value_lem v)

  -- The removals leave, of the keys in `fs`, those that `gs` has too, and every other property.
  pub apply_edits-keys :
      (cs fs gs : Fields)
      → EachJson fs
      → ((k : String) → owns fs k ≡ true → owns cs k ≡ true)
      → (cs' : Fields) × (apply_edits t (object cs) (edits_keys fs gs) ≡ ok (object cs'))
        × ((k : String)
            → property k cs' ≡ (if owns fs k && not (owns gs k) then none else property k cs))
  unfolding apply_edits edits_keys owns
  apply_edits-keys cs end gs j own = (cs, refl, λ k. refl)
  apply_edits-keys cs (field i v fs) gs j own = elim (Bool-cases (owns gs i)) [
    | inl kept ↦
        let (cs', done, left) = apply_edits-keys cs fs gs j.2 (λ k h. own k (ground (arith, h))) in
        (cs', rw kept done, λ k. ground (arith, left k, kept, eq_iff i k))
    | inr gone ↦
        let (cs', done, left) =
          apply_edits-keys (delete_property cs i) fs gs j.2
            (λ k h. ground (arith, h, j.0, own k, owns-delete_property cs i k, eq_iff i k)) in
        (
          cs',
          rw (gone, remove_key cs i (own i (ground (arith, eq_iff i i)))) done,
          λ k. ground (arith, left k, gone, eq_iff i k, property-delete_property cs i k, j.0),
        )
  ]
