-- ===== src/Journal/Apply/Steps.antt =====
-- src/journal.ts: the steps of the applier do alike to equal arrays and entries.
use libcheloniajs.Base.{
  ℕ, ◌≡◌, refl, ap, ◌∙◌, sym, subst, Bool, true, false, Option, none, some, String, arith,
  if◌then◌else◌, str_eq,
}
use libcheloniajs.Base.Throws.{Outcome, ok, throw}
use libcheloniajs.Journal.Json.{
  Value, undefined, null, boolean, number, string, array, object, Items, is_container, clone_value,
  item_count, set_item,
}
use libcheloniajs.Journal.Index.{number_of}
use libcheloniajs.Journal.Same.{
  Same, scalar, arrays, objects, SameItems, SameProperty, absent, present, Same-refl,
}
use libcheloniajs.Journal.Apply.Alike.{
  Alike, items_count, items_set, items_insert, items_remove, fields_define,
}
use libcheloniajs.Journal.Unpack.{scalar-is_container, unpack}
use libcheloniajs.Journal.Diff.{Op, add, remove, replace, other}
use libcheloniajs.Journal.Apply.{
  invalid_index, enter_child, put_child, edit_at_dash, edit_at, edit_array,
}

module _ {E : Type 0} where
  pub Alike-ok : {v w : Value} → Same v w → Alike {E = E} (ok v) (ok w)
  Alike-ok {v} {w} s u h = (v, refl, subst (Same v) (ground (arith, h)) s)

  pub Alike-throw : (o : Outcome E Value) (e : E) → Alike o (throw e)
  Alike-throw o e u h = cc

  pub Alike-if :
      (b : Bool) {x' x y' y : Outcome E Value}
      → Alike x' x
      → Alike y' y
      → Alike (if b then x' else y') (if b then x else y)
  Alike-if true p q = p
  Alike-if false p q = q

pub container_right : (v w : Value) → Same v w → is_container v ≡ false → is_container w ≡ false
unfolding is_container
container_right v undefined s h = refl
container_right v null s h = refl
container_right v (boolean b) s h = refl
container_right v (number n) s h = refl
container_right v (string t) s h = refl
container_right v (array ys) s h = let (xs, is, ss) = unpack s in cc (ap is_container is, h)
container_right v (object gs) s h = let (fs, is, ss) = unpack s in cc (ap is_container is, h)

pub Same-container : {v w : Value} → Same v w → is_container v ≡ is_container w
unfolding is_container
Same-container (scalar {v} {w} h) =
    let leaf = scalar-is_container v w h in leaf ∙ sym (container_right v w (scalar h) leaf)
Same-container (arrays ss) = refl
Same-container (objects alike) = refl

pub clone-Same : (v : Value) → Same (clone_value v) (clone_value v)
clone-Same v = Same-refl (clone_value v)

edit_at-Alike :
    {xs ys : Items} (op : Op) (i : ℕ) (v : Value)
    → SameItems xs ys
    → Alike (edit_at op xs i v) (edit_at op ys i v)
unfolding edit_at
edit_at-Alike add i v ss =
    rw (items_count ss)
      (Alike-if _ (Alike-throw _ _) (Alike-ok (arrays (items_insert i (clone-Same v) ss))))
edit_at-Alike replace i v ss =
    rw (items_count ss)
      (Alike-if _ (Alike-ok (arrays (items_set i (clone-Same v) ss))) (Alike-throw _ _))
edit_at-Alike remove i v ss =
    rw (items_count ss) (Alike-if _ (Alike-ok (arrays (items_remove i ss))) (Alike-throw _ _))
edit_at-Alike (other op) i v ss = Alike-throw _ _

edit_at_dash-Alike :
    {xs ys : Items} (op : Op) (v : Value)
    → SameItems xs ys
    → Alike (edit_at_dash op xs v) (edit_at_dash op ys v)
unfolding edit_at_dash
edit_at_dash-Alike {xs} {ys} add v ss =
    rw (items_count ss) (Alike-ok (arrays (items_insert (item_count ys) (clone-Same v) ss)))
edit_at_dash-Alike replace v ss = Alike-throw _ _
edit_at_dash-Alike remove v ss = Alike-throw _ _
edit_at_dash-Alike (other op) v ss = Alike-throw _ _

pub edit_array-Alike :
    {xs ys : Items} (op : Op) (last : String) (v : Value)
    → SameItems xs ys
    → Alike (edit_array op xs last v) (edit_array op ys last v)
unfolding edit_array
edit_array-Alike {xs} {ys} op last v ss =
    Alike-if (str_eq last "-") (edit_at_dash-Alike op v ss) (at_number (number_of last))
  where
    at_number :
        (o : Option ℕ)
        → Alike
            (elim o [ none ↦ throw invalid_index | some i ↦ edit_at op xs i v ])
            (elim o [ none ↦ throw invalid_index | some i ↦ edit_at op ys i v ])
    at_number none = Alike-throw _ _
    at_number (some i) = edit_at-Alike op i v ss

put_leaf : (w : Value) (seg : String) (v : Value) → is_container w ≡ false → put_child w seg v ≡ w
unfolding put_child is_container
put_leaf undefined seg v h = refl
put_leaf null seg v h = refl
put_leaf (boolean b) seg v h = refl
put_leaf (number n) seg v h = refl
put_leaf (string t) seg v h = refl
put_leaf (array xs) seg v h = cc
put_leaf (object fs) seg v h = cc

pub put_child-Same :
    {s b : Value} (seg : String) (v w : Value)
    → Same s b
    → Same v w
    → Same (put_child s seg v) (put_child b seg w)
unfolding put_child
put_child-Same seg v w (scalar {v = s} {w = b} h) new =
    let leaf = scalar-is_container s b h in
    rw (put_leaf s seg v leaf, put_leaf b seg w (container_right s b (scalar h) leaf)) (scalar h)
put_child-Same seg v w (arrays {xs} {ys} ss) new = at_number (number_of seg)
  where
    at_number :
        (o : Option ℕ)
        → Same
            (elim o [ none ↦ array xs | some i ↦ array (set_item xs i v) ])
            (elim o [ none ↦ array ys | some i ↦ array (set_item ys i w) ])
    at_number none = arrays ss
    at_number (some i) = arrays (items_set i new ss)
put_child-Same seg v w (objects {fs} {gs} alike) new =
    objects (fields_define fs gs seg v w new alike)

pub enter_child-Alike :
    (o p : Option Value) → SameProperty o p → Alike (enter_child o) (enter_child p)
enter_child-Alike o p absent = Alike-throw _ _
enter_child-Alike o p (present s) =
    rw (Same-container s) (Alike-if _ (Alike-ok s) (Alike-throw _ _))
