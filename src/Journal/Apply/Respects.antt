-- ===== src/Journal/Apply/Respects.antt =====
-- src/journal.ts: patches do alike to equal values.
use libcheloniajs.Base.{
  ℕ, ◌≡◌, refl, ◌∙◌, sym, subst, false, List, [], ◌∷◌, Option, none, some, String, arith,
}
use libcheloniajs.Base.Throws.{ok, throw, >>=-eq-ok}
use libcheloniajs.Journal.Json.{
  Value, undefined, null, boolean, number, string, array, object, Fields, is_container,
  clone_value_lem, item_at,
}
use libcheloniajs.Journal.Index.{number_of}
use libcheloniajs.Journal.Same.{Same, scalar, arrays, objects}
use libcheloniajs.Journal.Apply.Alike.{
  Alike, items_at, AlikeFields, fields_define, fields_delete, fields_owns,
}
use libcheloniajs.Journal.Apply.Steps.{
  Alike-ok, Alike-throw, Alike-if, container_right, Same-container, clone-Same, edit_array-Alike,
  put_child-Same, enter_child-Alike,
}
use libcheloniajs.Journal.Unpack.{scalar-is_container}
use libcheloniajs.Journal.Diff.{Op, add, remove, replace, other, Patch}
use libcheloniajs.Journal.Turtledash.{Turtledash}
use libcheloniajs.Journal.Apply.{
  not_a_container, value_or_undefined, segments_of, check_patch, enter_child, put_child, enter,
  edit_object, edit as edit_last, walk, apply_at, apply_one, apply_all, default_apply_patch,
}

edit_leaf :
    (t : Turtledash) (op : Op) (w : Value) (last : String) (v : Value)
    → is_container w ≡ false
    → edit_last t op w last v ≡ throw not_a_container
unfolding edit_last is_container
edit_leaf t op undefined last v h = refl
edit_leaf t op null last v h = refl
edit_leaf t op (boolean b) last v h = refl
edit_leaf t op (number n) last v h = refl
edit_leaf t op (string s) last v h = refl
edit_leaf t op (array xs) last v h = cc
edit_leaf t op (object fs) last v h = cc

enter_leaf :
    (t : Turtledash) (w : Value) (seg : String)
    → is_container w ≡ false
    → enter t w seg ≡ throw not_a_container
unfolding enter is_container
enter_leaf t undefined seg h = refl
enter_leaf t null seg h = refl
enter_leaf t (boolean b) seg h = refl
enter_leaf t (number n) seg h = refl
enter_leaf t (string s) seg h = refl
enter_leaf t (array xs) seg h = cc
enter_leaf t (object fs) seg h = cc

module _ (t : Turtledash) where
  has_both :
      (fs gs : Fields) (key : String)
      → AlikeFields fs gs
      → t.has (object fs) key ≡ t.has (object gs) key
  has_both fs gs key alike = t.has_own fs key ∙ fields_owns fs gs key alike ∙ sym (t.has_own gs key)

  edit_object-Alike :
      (op : Op) (fs gs : Fields) (last : String) (v : Value)
      → AlikeFields fs gs
      → Alike (edit_object t op fs last v) (edit_object t op gs last v)
  unfolding edit_object
  edit_object-Alike add fs gs last v alike =
      Alike-ok (objects (fields_define fs gs last _ _ (clone-Same v) alike))
  edit_object-Alike replace fs gs last v alike = rw (has_both fs gs last alike) (
      Alike-if _ (Alike-ok (objects (fields_define fs gs last _ _ (clone-Same v) alike)))
        (Alike-throw _ _))
  edit_object-Alike remove fs gs last v alike =
      rw (has_both fs gs last alike)
        (Alike-if _ (Alike-ok (objects (fields_delete fs gs last alike))) (Alike-throw _ _))
  edit_object-Alike (other op) fs gs last v alike = Alike-throw _ _

  edit-Alike :
      {s b : Value} (op : Op) (last : String) (v : Value)
      → Same s b
      → Alike (edit_last t op s last v) (edit_last t op b last v)
  unfolding edit_last
  edit-Alike op last v (scalar {v = s} {w = b} h) =
      rw (edit_leaf t op b last v (container_right s b (scalar h) (scalar-is_container s b h)))
        (Alike-throw _ _)
  edit-Alike op last v (arrays ss) = edit_array-Alike op last v ss
  edit-Alike op last v (objects {fs} {gs} alike) = edit_object-Alike op fs gs last v alike

  enter-Alike : {s b : Value} (seg : String) → Same s b → Alike (enter t s seg) (enter t b seg)
  unfolding enter
  enter-Alike seg (scalar {v = s} {w = b} h) =
      rw (enter_leaf t b seg (container_right s b (scalar h) (scalar-is_container s b h)))
        (Alike-throw _ _)
  enter-Alike seg (arrays {xs} {ys} ss) = at_number (number_of seg)
    where
      at_number :
          (o : Option ℕ)
          → Alike
              (elim o [ none ↦ throw not_a_container | some i ↦ enter_child (item_at xs i) ])
              (elim o [ none ↦ throw not_a_container | some i ↦ enter_child (item_at ys i) ])
      at_number none = Alike-throw _ _
      at_number (some i) = enter_child-Alike _ _ (items_at i ss)
  enter-Alike seg (objects {fs} {gs} alike) =
      rw (has_both fs gs seg alike)
        (Alike-if _ (enter_child-Alike _ _ (alike seg)) (Alike-throw _ _))

  walk-Alike :
      (op : Op) (v : Value) (segments : List String) (s b : Value) (seg : String)
      → Same s b
      → Alike (walk t op v s seg segments) (walk t op v b seg segments)
  unfolding walk
  walk-Alike op v [] s b seg same u h = edit-Alike op seg v same u h
  walk-Alike op v (next ∷ segments) s b seg same u h =
      let (child, entered, h1) = >>=-eq-ok (enter t b seg) _ h in
      let (child', entered', alike) = enter-Alike seg same child entered in
      let (done, walked, h2) = >>=-eq-ok (walk t op v child next segments) _ h1 in
      let (done', walked', alike') = walk-Alike op v segments child' child next alike done walked in
      (
        put_child s seg done',
        rw (entered', walked') refl,
        subst (Same (put_child s seg done')) (ground (arith, h2))
            (put_child-Same seg done' done same alike'),
      )

  apply_at-Alike :
      {s b : Value} (op : Op) (v : Value) (segments : List String)
      → Same s b
      → Alike (apply_at t op v s segments) (apply_at t op v b segments)
  unfolding apply_at
  apply_at-Alike {s} {b} remove v [] same = Alike-throw _ _
  apply_at-Alike {s} {b} add v [] same = Alike-ok (clone-Same v)
  apply_at-Alike {s} {b} replace v [] same = Alike-ok (clone-Same v)
  apply_at-Alike {s} {b} (other op) v [] same = Alike-ok (clone-Same v)
  apply_at-Alike {s} {b} op v (seg ∷ segments) same =
      rw (Same-container same)
        (Alike-if _ (walk-Alike op v segments s b seg same) (Alike-throw _ _))

  apply_one-Alike : {s b : Value} (p : Patch) → Same s b → Alike (apply_one t s p) (apply_one t b p)
  unfolding apply_one
  apply_one-Alike {s} {b} p same u h =
      let (segments, read, h1) = >>=-eq-ok (segments_of p.path) _ h in
      let (w, checked, h2) = >>=-eq-ok (check_patch p.op p.value) _ h1 in
      let (u', done, alike) = apply_at-Alike p.op (value_or_undefined p.value) segments same u h2 in
      (u', rw (read, checked) done, alike)

  apply_all-Alike :
      (ps : List Patch) (s b : Value) → Same s b → Alike (apply_all t s ps) (apply_all t b ps)
  unfolding apply_all
  apply_all-Alike [] s b same u h = Alike-ok same u h
  apply_all-Alike (p ∷ ps) s b same u h =
      let (next, done, h1) = >>=-eq-ok (apply_one t b p) _ h in
      let (next', done', alike) = apply_one-Alike p same next done in
      let (u', rest, alike') = apply_all-Alike ps next' next alike u h1 in
      (u', rw done' rest, alike')

  pub default_apply_patch-Same :
      (s b u : Value) (ps : List Patch)
      → Same s b
      → default_apply_patch t b ps ≡ ok u
      → (u' : Value) × (default_apply_patch t s ps ≡ ok u') × Same u' u
  unfolding default_apply_patch
  default_apply_patch-Same s b u ps same h =
      rw clone_value_lem (apply_all-Alike ps s b same u (rw clone_value_lem at h))
