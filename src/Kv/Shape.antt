-- ===== src/Kv/Shape.antt =====
-- src/kv.ts: which values pass `assertJsonShape`, said without its walk.
use libcheloniajs.Base.{
  ℕ, suc, ◌+◌, ◌≤◌, ◌≡◌, ◌↔◌, refl, true, leb, if◌then◌else◌, arith, Option-cases, ◌⊎◌, inl, inr,
  subst, ◌∙◌,
}
use libcheloniajs.Base.Throws.{Outcome, ok, throw, ◌>>=◌, >>=-eq-ok}
use libcheloniajs.Journal.Json.{
  Value, undefined, null, boolean, number, string, array, object, Items, nil, cons, Fields, end,
  field,
}
use libcheloniajs.Journal.Redact.{Thrown}
use libcheloniajs.Kv.{SlotDefinition, Parsed, thenable, parsed}
use libcheloniajs.Kv.Values.{
  ShapeError, max_json_depth, is_finite, within_depth, visit, visit_items, visit_fields,
  assert_json_shape, shaped, check_parsed, read_value,
}

pub max : ℕ → ℕ → ℕ
max a b = if leb a b then b else a

add-max-le : (d a b n : ℕ) → d + a ≤ n → d + b ≤ n → d + max a b ≤ n
unfolding max
add-max-le d a b n h k = ground arith

le-max : (a b : ℕ) → (a ≤ max a b) × (b ≤ max a b)
unfolding max
le-max a b = ground arith

-- How deep the containers of a value are nested; an empty one counts nothing.
abbrev mutual
  pub depth : Value → ℕ
  depth (array xs) = depth_items xs
  depth (object fs) = depth_fields fs
  depth _ = 0

  pub depth_items : Items → ℕ
  depth_items nil = 0
  depth_items (cons x xs) = max (suc (depth x)) (depth_items xs)

  pub depth_fields : Fields → ℕ
  depth_fields end = 0
  depth_fields (field k v fs) = max (suc (depth v)) (depth_fields fs)

-- JSON, with neither null nor undefined at any depth, and finite numbers only.
abbrev mutual
  pub IsSolid : Value → Type 0
  IsSolid undefined = ⊥
  IsSolid null = ⊥
  IsSolid (number n) = is_finite n ≡ true
  IsSolid (array xs) = AllSolid xs
  IsSolid (object fs) = FieldsSolid fs
  IsSolid _ = Unit {0}

  pub AllSolid : Items → Type 0
  AllSolid nil = Unit {0}
  AllSolid (cons x xs) = IsSolid x × AllSolid xs

  pub FieldsSolid : Fields → Type 0
  FieldsSolid end = Unit {0}
  FieldsSolid (field k v fs) = IsSolid v × FieldsSolid fs

mutual
  unfolding visit visit_items visit_fields

  visit_sound : (v : Value) (d : ℕ) → visit v d ≡ ok tt → IsSolid v × (d + depth v ≤ max_json_depth)
  visit_sound undefined d h = ground (arith, h)
  visit_sound null d h = ground (arith, h)
  visit_sound (boolean b) d h = (tt, ground (arith, h))
  visit_sound (string s) d h = (tt, ground (arith, h))
  visit_sound (number n) d h = (ground (arith, h), ground (arith, h))
  visit_sound (array xs) d h =
      let r = visit_items_sound xs (suc d) (ground (arith, h)) (ground (arith, h)) in
      (r.0, ground (arith, h, r.1))
  visit_sound (object fs) d h =
      let r = visit_fields_sound fs (suc d) (ground (arith, h)) (ground (arith, h)) in
      (r.0, ground (arith, h, r.1))

  visit_items_sound :
      (xs : Items) (d : ℕ)
      → visit_items xs d ≡ ok tt
      → d ≤ suc max_json_depth
      → AllSolid xs × (d + depth_items xs ≤ suc max_json_depth)
  visit_items_sound nil d h le = (tt, omega arith)
  visit_items_sound (cons x xs) d h le =
      let (u, first, rest) = >>=-eq-ok (visit x d) _ h in
      let a = visit_sound x d first in
      let b = visit_items_sound xs d rest le in
      ((a.0, b.0), add-max-le d (suc (depth x)) (depth_items xs) _ (omega (arith, a.1)) b.1)

  visit_fields_sound :
      (fs : Fields) (d : ℕ)
      → visit_fields fs d ≡ ok tt
      → d ≤ suc max_json_depth
      → FieldsSolid fs × (d + depth_fields fs ≤ suc max_json_depth)
  visit_fields_sound end d h le = (tt, omega arith)
  visit_fields_sound (field k v fs) d h le =
      let (u, first, rest) = >>=-eq-ok (visit v d) _ h in
      let a = visit_sound v d first in
      let b = visit_fields_sound fs d rest le in
      ((a.0, b.0), add-max-le d (suc (depth v)) (depth_fields fs) _ (omega (arith, a.1)) b.1)

within_depth_lem :
    (d : ℕ) (rest : Outcome ShapeError (Unit {0})) → d ≤ max_json_depth → within_depth d rest ≡ rest
within_depth_lem d rest le = ground (arith, le)

mutual
  unfolding visit visit_items visit_fields

  visit_complete :
      (v : Value) (d : ℕ) → IsSolid v → d + depth v ≤ max_json_depth → visit v d ≡ ok tt
  visit_complete undefined d s le = absurd s
  visit_complete null d s le = absurd s
  visit_complete (boolean b) d s le = within_depth_lem d _ (omega (arith, le))
  visit_complete (string t) d s le = within_depth_lem d _ (omega (arith, le))
  visit_complete (number n) d s le = within_depth_lem d _ (omega (arith, le)) ∙ rw s
  visit_complete (array xs) d s le =
      within_depth_lem d _ (omega (arith, le))
      ∙ visit_items_complete xs (suc d) s (omega (arith, le))
  visit_complete (object fs) d s le =
      within_depth_lem d _ (omega (arith, le))
      ∙ visit_fields_complete fs (suc d) s (omega (arith, le))

  visit_items_complete :
      (xs : Items) (d : ℕ)
      → AllSolid xs
      → d + depth_items xs ≤ suc max_json_depth
      → visit_items xs d ≡ ok tt
  visit_items_complete nil d s le = refl
  visit_items_complete (cons x xs) d s le =
      let above = le-max (suc (depth x)) (depth_items xs) in
      let first : visit x d ≡ ok tt = visit_complete x d s.0 (omega (arith, le, above.0)) in
      rw first (visit_items_complete xs d s.1 (omega (arith, le, above.1)))

  visit_fields_complete :
      (fs : Fields) (d : ℕ)
      → FieldsSolid fs
      → d + depth_fields fs ≤ suc max_json_depth
      → visit_fields fs d ≡ ok tt
  visit_fields_complete end d s le = refl
  visit_fields_complete (field k v fs) d s le =
      let above = le-max (suc (depth v)) (depth_fields fs) in
      let first : visit v d ≡ ok tt = visit_complete v d s.0 (omega (arith, le, above.0)) in
      rw first (visit_fields_complete fs d s.1 (omega (arith, le, above.1)))

-- What passes is a solid value whose containers are nested at most 1000 deep.
abbrev pub IsStorable : Value → Type 0
IsStorable v = IsSolid v × (depth v ≤ max_json_depth)

-- `assertJsonShape` gives back a value exactly when it is JSON without null and undefined, with
-- finite numbers only, nested at most 1000 deep.
pub assert_json_shape-eq-ok_iff : (v : Value) → (assert_json_shape v ≡ ok v) ↔ IsStorable v
unfolding assert_json_shape
assert_json_shape-eq-ok_iff v = (
  λ h.
      let (u, walked, same) = >>=-eq-ok (visit v 0) _ h in
      let r = visit_sound v 0 walked in (r.0, omega (arith, r.1)),
  λ s. rw (visit_complete v 0 s.0 (omega (arith, s.1))),
)

shaped-IsStorable : (v w : Value) → shaped (assert_json_shape v) ≡ ok w → IsStorable w
unfolding assert_json_shape
shaped-IsStorable v w h = elim (visit-cases (visit v 0)) [
  | inl walked ↦
      let same : v ≡ w = ground (arith, walked, h) in
      subst IsStorable same ((assert_json_shape-eq-ok_iff v).0 (rw walked))
  | inr (e, stopped) ↦ cc (subst (λ o. shaped (o >>= λ done. ok v) ≡ ok w) stopped h)
]
  where
    visit-cases :
        (o : Outcome ShapeError (Unit {0})) → (o ≡ ok tt) ⊎ ((e : ShapeError) × (o ≡ throw e))
    visit-cases (ok tt) = inl refl
    visit-cases (throw e) = inr (e, refl)

pub check_parsed-IsStorable :
    (o : Outcome Thrown Parsed) (w : Value) → check_parsed o ≡ ok w → IsStorable w
unfolding check_parsed
check_parsed-IsStorable (throw e) w h = cc
check_parsed-IsStorable (ok thenable) w h = cc
check_parsed-IsStorable (ok (parsed v)) w h = shaped-IsStorable v w (ground (arith, h))

-- Whatever schema a slot has, a value that is read through it is storable.
pub read_value-IsStorable :
    (slot : SlotDefinition) (v w : Value) → read_value slot v ≡ ok w → IsStorable w
unfolding read_value
read_value-IsStorable slot v w h = elim (Option-cases slot.schema) [
  | inl e ↦ shaped-IsStorable v w (ground (arith, e, h))
  | inr (parse, e) ↦ check_parsed-IsStorable (parse v) w (ground (arith, e, h))
]
