-- ===== src/Journal/RoundTrip/Rounds.antt =====
-- The rounds of the loops of `diffInto`, applied: what one more value adds to the later rounds.
use libcheloniajs.Base.{
  ◌≡◌, refl, ap, ◌∙◌, sym, Bool, true, false, not, ◌&&◌, ◌||◌, List, none, some, String, str_eq,
  eq_iff, arith, Bool-cases, inl, inr,
}
use mathlib.Core.Path.{ap₂}
use libcheloniajs.Base.Throws.{ok}
use libcheloniajs.Journal.Json.{
  Value, undefined, number, array, object, Items, nil, cons, Fields, end, field, bool_eq, strict_eq,
  shallow_equal_primitives, is_undefined, is_array, is_plain_object, property, owns, safe_define,
  item_count, append_items, clone_value_lem,
}
use libcheloniajs.Journal.Shapes.{
  item_count-append, item_count_concat, item_at-append, set_item-append, append_concat, append_nil,
  take_items-append, property-safe_define, owns_of_property,
}
use libcheloniajs.Journal.Same.{
  IsJson, EachJson, Same, scalar, arrays, objects, SameItems, none_left, both, SameProperty, absent,
  present, Same-refl,
}
use libcheloniajs.Journal.Diff.Edits.{Edit, edits_shape, edits, edits_items, edits_fields}
use libcheloniajs.Journal.Turtledash.{Turtledash}
use libcheloniajs.Journal.Apply.{apply_at, check_patch}
use libcheloniajs.Journal.Apply.Edits.{
  apply_edit, apply_edits, apply_edits-append, apply_edits-inside_array, apply_edits-inside_object,
}
use libcheloniajs.Journal.RoundTrip.Inner.{edits-IsInner}
use libcheloniajs.Journal.RoundTrip.Arrays.{add_last, apply_edits-tail}
use libcheloniajs.Journal.RoundTrip.Objects.{add_key, apply_edits-keys}

-- Neither two arrays nor two objects.
abbrev pub differ : Value → Value → Bool
differ b a =
    not (bool_eq (is_array b) (is_array a))
    || (not (bool_eq (is_plain_object b) (is_plain_object a))
        || (not (is_array b) && not (is_plain_object b)))

pub shallow_of_strict : (v w : Value) → strict_eq v w ≡ true → shallow_equal_primitives v w ≡ true
unfolding shallow_equal_primitives strict_eq
shallow_of_strict (number a) (number b) h = ground (arith, h)
shallow_of_strict v w h = h

pub IsJson-defined : (v : Value) → IsJson v → is_undefined v ≡ false
IsJson-defined undefined j = absurd j
IsJson-defined _ j = refl

pub scalar_differs :
    (b a : Value) → is_array a ≡ false → is_plain_object a ≡ false → differ b a ≡ true
scalar_differs b a e f = rw (e, f) (two (is_array b) (is_plain_object b))
  where
    two :
        (p q : Bool) → (not (bool_eq p false) || (not (bool_eq q false) || (not p && not q))) ≡ true
    two true q = refl
    two false true = refl
    two false false = refl

-- The loop over the keys keeps the properties that it has yet to see.
pub agree_next :
    (cs fs gs : Fields) (i : String) (v x : Value)
    → owns gs i ≡ false
    → ((k : String) → owns (field i v gs) k ≡ true → property k cs ≡ property k fs)
    → (k : String) → owns gs k ≡ true
    → property k (safe_define cs i x) ≡ property k fs
unfolding owns
agree_next cs fs gs i v x fresh agree k h =
    ground (arith, agree k, fresh, h, eq_iff i k, property-safe_define cs i k x)

pub agree_here :
    (cs fs gs : Fields) (i : String) (v : Value)
    → ((k : String) → owns (field i v gs) k ≡ true → property k cs ≡ property k fs)
    → property i cs ≡ property i fs
unfolding owns
agree_here cs fs gs i v agree = ground (arith, agree i, eq_iff i i)

pub shape_arrays :
    (xs ys : Items) (rest : List Edit) → edits_shape (array xs) (array ys) rest ≡ rest
unfolding edits_shape strict_eq is_plain_object
shape_arrays xs ys rest = refl

pub shape_objects :
    (fs gs : Fields) (rest : List Edit) → edits_shape (object fs) (object gs) rest ≡ rest
unfolding edits_shape strict_eq is_plain_object
shape_objects fs gs rest = refl

module _ (t : Turtledash) where
  abbrev pub Holds : Value → Value → Type 0
  Holds b a = (r : Value) × (apply_edits t b (edits b a) ≡ ok r) × Same r a

  pub leaf :
      (b a : Value) (rest : List Edit)
      → IsJson b
      → differ b a ≡ true
      → (r : Value) × (apply_edits t b (edits_shape b a rest) ≡ ok r) × Same r a
  unfolding edits_shape apply_edits apply_edit apply_at check_patch
  leaf b a rest j d = elim (Bool-cases (strict_eq b a)) [
    | inl same ↦ (b, rw same, scalar (shallow_of_strict b a same))
    | inr new ↦ elim (Bool-cases (shallow_equal_primitives b a)) [
      | inl same ↦ (b, rw (new, IsJson-defined b j, d, same), scalar same)
      | inr other ↦ (a, rw (new, IsJson-defined b j, d, other, clone_value_lem a), Same-refl a)
    ]
  ]

  abbrev pub ItemsHold : Items → Items → Items → Type 0
  ItemsHold pre xs ys =
      (zs : Items) × (apply_edits t (array (append_items pre xs))
          (edits_items xs ys (item_count pre))
        ≡ ok (array (append_items pre zs)))
      × SameItems zs ys

  -- `cs` is the object as the loop finds it, `gs` the keys of the value after that are left.
  abbrev pub FieldsHold : Fields → Fields → Fields → Type 0
  FieldsHold cs fs gs =
      (cs' : Fields) × (apply_edits t (object cs) (edits_fields fs gs) ≡ ok (object cs'))
      × ((k : String) → owns gs k ≡ true → SameProperty (property k cs') (property k gs))
      × ((k : String) → owns gs k ≡ false → property k cs' ≡ property k cs)

  -- The rounds of the loops, from what the value of the round and the later rounds do.
  pub nil_round : (pre xs : Items) → ItemsHold pre xs nil
  unfolding edits_items
  nil_round pre xs = (
    nil,
    apply_edits-tail t (item_count xs) (item_count pre) (append_items pre xs)
          (item_count-append pre xs)
        ∙ ap (λ ys. ok (array ys)) (take_items-append pre xs ∙ sym (append_nil pre)),
    none_left,
  )

  pub add_round :
      (pre : Items) (y : Value) (ys : Items)
      → ItemsHold (append_items pre (cons y nil)) nil ys
      → ItemsHold pre nil (cons y ys)
  unfolding edits_items apply_edits
  add_round pre y ys (zs, done, s) = (
    cons y zs,
    rw (append_nil pre, add_last t pre y)
        (ap₂ (λ us i. apply_edits t (array us) (edits_items nil ys i))
            (sym (append_nil (append_items pre (cons y nil)))) (sym (item_count_concat pre y))
          ∙ done
          ∙ ap (λ us. ok (array us)) (append_concat pre y zs)),
    both (Same-refl y) s,
  )

  pub both_round :
      (pre : Items) (x : Value) (xs : Items) (y : Value) (ys : Items)
      → IsJson x
      → (h : Holds x y) → ItemsHold (append_items pre (cons h.0 nil)) xs ys
      → ItemsHold pre (cons x xs) (cons y ys)
  unfolding edits_items apply_edits
  both_round pre x xs y ys j (r, one, s) (zs, done, ss) = (
    cons r zs,
    apply_edits-append t _ _ _ _ (
          apply_edits-inside_array t (append_items pre (cons x xs)) (item_count pre) x r (edits x y)
            (item_at-append pre x xs) (edits-IsInner x y (IsJson-defined x j)) one)
        ∙ ap₂ (λ us i. apply_edits t (array us) (edits_items xs ys i)) (set_item-append pre x r xs)
            (sym (item_count_concat pre r))
        ∙ done
        ∙ ap (λ us. ok (array us)) (append_concat pre r zs),
    both s ss,
  )

  -- One more key, with the value `x` in the object and `v` in the value after.
  pub at_key :
      (cs cs' gs : Fields) (k : String) (v x : Value)
      → Same x v
      → owns gs k ≡ false
      → ((i : String) → owns gs i ≡ true → SameProperty (property i cs') (property i gs))
      → ((i : String) → owns gs i ≡ false → property i cs' ≡ property i (safe_define cs k x))
      → (i : String) → owns (field k v gs) i ≡ true
      → SameProperty (property i cs') (property i (field k v gs))
  unfolding owns property
  at_key cs cs' gs k v x s fresh kept left i h = elim (Bool-cases (str_eq k i)) [
    | inl hit ↦
        let found : property i cs' ≡ some x =
          ground (arith, left i, hit, fresh, eq_iff k i, property-safe_define cs k i x) in
        rw (hit, found) (present s)
    | inr miss ↦ rw miss (kept i (rw miss at h))
  ]

  -- A key that the value before lacks.
  pub new_key :
      (cs fs gs : Fields) (k : String) (v : Value)
      → property k fs ≡ none
      → owns gs k ≡ false
      → FieldsHold (safe_define cs k v) fs gs
      → FieldsHold cs fs (field k v gs)
  unfolding edits_fields apply_edits owns property
  new_key cs fs gs k v e fresh (cs', done, kept, left) = (
    cs',
    rw (e, add_key t cs k v) done,
    at_key cs cs' gs k v v (Same-refl v) fresh kept left,
    (λ i h. ground (arith, h, left i, eq_iff k i, property-safe_define cs k i v)),
  )

  -- A key of both: its value is diffed.
  pub common_key :
      (cs fs gs : Fields) (k : String) (w v : Value)
      → property k fs ≡ some w
      → property k cs ≡ some w
      → IsJson w
      → owns gs k ≡ false
      → (h : Holds w v) → FieldsHold (safe_define cs k h.0) fs gs
      → FieldsHold cs fs (field k v gs)
  unfolding edits_fields apply_edits owns property
  common_key cs fs gs k w v e e' j fresh (r, one, s) (cs', done, kept, left) = (
    cs',
    rw e (
        apply_edits-append t _ _ _ _ (
          apply_edits-inside_object t cs k w r (edits w v) e'
            (edits-IsInner w v (IsJson-defined w j)) one)
        ∙ done),
    at_key cs cs' gs k v r s fresh kept left,
    (λ i h. ground (arith, h, left i, eq_iff k i, property-safe_define cs k i r)),
  )

  pub array_case : (xs ys : Items) → ItemsHold nil xs ys → Holds (array xs) (array ys)
  unfolding edits append_items item_count
  array_case xs ys (zs, done, s) = (array zs, rw (shape_arrays xs ys _) done, arrays s)

  pub no_fields : (cs fs : Fields) → FieldsHold cs fs end
  unfolding edits_fields apply_edits owns
  no_fields cs fs = (cs, refl, (λ i h. cc), (λ i h. refl))

  pub object_case :
      (fs gs : Fields)
      → EachJson fs
      → ((cs : Fields)
          → ((k : String) → owns gs k ≡ true → property k cs ≡ property k fs)
          → FieldsHold cs fs gs)
      → Holds (object fs) (object gs)
  unfolding edits
  object_case fs gs j loop =
      let (cs, gone, left) = apply_edits-keys t fs fs gs j (λ k h. h) in
      let (cs', done, kept, same) = loop cs (λ k h. ground (arith, left k, h)) in
      (
        object cs',
        rw (shape_objects fs gs _) (apply_edits-append t _ _ _ _ gone ∙ done),
        objects λ k. elim (Bool-cases (owns gs k)) [
          | inl h ↦ kept k h
          | inr h ↦
              let found : property k cs' ≡ none =
                ground (arith, same k, left k, h, owns_of_property fs k) in
              let sought : property k gs ≡ none = ground (arith, h, owns_of_property gs k) in
              rw (found, sought) absent
        ],
      )
