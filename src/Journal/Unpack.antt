-- ===== src/Journal/Unpack.antt =====
-- What the equality of values says, by the value on the right; and equality is transitive.
use libcheloniajs.Base.{
  ◌≡◌, refl, Bool, true, false, Option, none, some, String, arith, eq_iff, ==_iff, subst, sym,
}
use libcheloniajs.Journal.Json.{
  Value, undefined, null, boolean, number, string, array, object, Items, nil, cons, Fields,
  strict_eq, shallow_equal_primitives, property, number_eq, bool_eq, is_container,
}
use libcheloniajs.Journal.Same.{
  Same, scalar, arrays, objects, SameItems, none_left, both, SameProperty, absent, present,
}

-- What equality says, by the value on the right.
abbrev pub Unpacked : Value → Value → Type 0
Unpacked b (array ys) = (xs : Items) × (b ≡ array xs) × SameItems xs ys
Unpacked b (object gs) =
    (fs : Fields) × (b ≡ object fs) × ((k : String) → SameProperty (property k fs) (property k gs))
Unpacked b a = shallow_equal_primitives b a ≡ true

scalar-Unpacked : (v w : Value) → shallow_equal_primitives v w ≡ true → Unpacked v w
unfolding shallow_equal_primitives strict_eq
scalar-Unpacked undefined (array ys) h = cc
scalar-Unpacked null (array ys) h = cc
scalar-Unpacked (boolean b) (array ys) h = cc
scalar-Unpacked (number n) (array ys) h = cc
scalar-Unpacked (string s) (array ys) h = cc
scalar-Unpacked (array xs) (array ys) h = cc
scalar-Unpacked (object fs) (array ys) h = cc
scalar-Unpacked undefined (object gs) h = cc
scalar-Unpacked null (object gs) h = cc
scalar-Unpacked (boolean b) (object gs) h = cc
scalar-Unpacked (number n) (object gs) h = cc
scalar-Unpacked (string s) (object gs) h = cc
scalar-Unpacked (array xs) (object gs) h = cc
scalar-Unpacked (object fs) (object gs) h = cc
scalar-Unpacked v w h = h

pub unpack : {v w : Value} → Same v w → Unpacked v w
unpack (scalar {v} {w} h) = scalar-Unpacked v w h
unpack (arrays {xs} s) = (xs, refl, s)
unpack (objects {fs} s) = (fs, refl, s)

abbrev pub UnpackedItems : Items → Items → Type 0
UnpackedItems nil nil = Unit {0}
UnpackedItems (cons x xs) (cons y ys) = Same x y × SameItems xs ys
UnpackedItems _ _ = ⊥

pub unpack_items : {xs ys : Items} → SameItems xs ys → UnpackedItems xs ys
unpack_items none_left = tt
unpack_items (both s ss) = (s, ss)

abbrev pub UnpackedProperty : Option Value → Option Value → Type 0
UnpackedProperty none none = Unit {0}
UnpackedProperty (some x) (some y) = Same x y
UnpackedProperty _ _ = ⊥

pub unpack_property : {p q : Option Value} → SameProperty p q → UnpackedProperty p q
unpack_property absent = tt
unpack_property (present s) = s

pub found_alike :
    (p : Option Value) (v : Value) → SameProperty p (some v) → (w : Value) × (p ≡ some w) × Same w v
found_alike none v s = absurd (unpack_property s)
found_alike (some w) v s = (w, refl, unpack_property s)

scalar_trans :
    (u v w : Value)
    → shallow_equal_primitives u v ≡ true
    → shallow_equal_primitives v w ≡ true
    → shallow_equal_primitives u w ≡ true
unfolding shallow_equal_primitives strict_eq number_eq
scalar_trans undefined undefined w h k = k
scalar_trans null null w h k = k
scalar_trans (boolean a) (boolean b) (boolean c) h k = bools a b c h k
  where
    bools : (a b c : Bool) → bool_eq a b ≡ true → bool_eq b c ≡ true → bool_eq a c ≡ true
    bools true true c h k = k
    bools true false c h k = cc
    bools false true c h k = cc
    bools false false c h k = k
scalar_trans (number a) (number b) (number c) h k =
    ground (arith, h, k, ==_iff a b, ==_iff b c, ==_iff a c)
scalar_trans (string a) (string b) (string c) h k =
    ground (arith, eq_iff a b, eq_iff b c, eq_iff a c, h, k)
scalar_trans u v w h k = cc

pub scalar-is_container :
    (v w : Value) → shallow_equal_primitives v w ≡ true → is_container v ≡ false
unfolding shallow_equal_primitives strict_eq is_container
scalar-is_container undefined w h = refl
scalar-is_container null w h = refl
scalar-is_container (boolean b) w h = refl
scalar-is_container (number n) w h = refl
scalar-is_container (string s) w h = refl
scalar-is_container (array xs) undefined h = cc
scalar-is_container (array xs) null h = cc
scalar-is_container (array xs) (boolean c) h = cc
scalar-is_container (array xs) (number m) h = cc
scalar-is_container (array xs) (string t) h = cc
scalar-is_container (array xs) (array ys) h = cc
scalar-is_container (array xs) (object gs) h = cc
scalar-is_container (object fs) undefined h = cc
scalar-is_container (object fs) null h = cc
scalar-is_container (object fs) (boolean c) h = cc
scalar-is_container (object fs) (number m) h = cc
scalar-is_container (object fs) (string t) h = cc
scalar-is_container (object fs) (array ys) h = cc
scalar-is_container (object fs) (object gs) h = cc

leaf-scalar :
    (u v : Value) → is_container v ≡ false → Same u v → shallow_equal_primitives u v ≡ true
unfolding is_container
leaf-scalar u undefined h p = unpack p
leaf-scalar u null h p = unpack p
leaf-scalar u (boolean b) h p = unpack p
leaf-scalar u (number n) h p = unpack p
leaf-scalar u (string s) h p = unpack p
leaf-scalar u (array xs) h p = cc
leaf-scalar u (object fs) h p = cc

mutual
  trans : {v w : Value} (u : Value) → Same u v → Same v w → Same u w
  trans u p (scalar {v} {w} k) =
      scalar (scalar_trans u v w (leaf-scalar u v (scalar-is_container v w k) p) k)
  trans u p (arrays {xs} {ys} qs) =
      let (ws, is, ps) = unpack p in
      subst (λ x. Same x (array ys)) (sym is) (arrays (trans_items ws ps qs))
  trans u p (objects {fs} {gs} qs) =
      let (hs, is, ps) = unpack p in
      subst (λ x. Same x (object gs)) (sym is)
        (objects (λ k. trans_property (property k hs) (ps k) (qs k)))

  trans_items : {ys zs : Items} (xs : Items) → SameItems xs ys → SameItems ys zs → SameItems xs zs
  trans_items xs p none_left = p
  trans_items nil p (both q qs) = absurd (unpack_items p)
  trans_items (cons x xs) p (both q qs) =
      let (s, ss) = unpack_items p in both (trans x s q) (trans_items xs ss qs)

  trans_property :
      {q r : Option Value} (o : Option Value)
      → SameProperty o q
      → SameProperty q r
      → SameProperty o r
  trans_property o p absent = p
  trans_property none p (present t) = absurd (unpack_property p)
  trans_property (some x) p (present t) = present (trans x (unpack_property p) t)

pub Same-trans : (u v w : Value) → Same u v → Same v w → Same u w
Same-trans u v w p q = trans u p q
