-- ===== src/Journal/Redact/Literal.antt =====
-- src/journal.ts, `walkAndRedact`: a path that begins with a key, on an object.
use libcheloniajs.Base.{
  ◌≡◌, ◌≢◌, refl, true, false, List, [], ◌∷◌, ◌++◌, some, String, str_eq, eq_iff, arith, Bool-cases,
  inl, inr, ap,
}
use libcheloniajs.Base.Throws.{Outcome}
use libcheloniajs.Journal.Json.{Value, object, Fields, property, safe_define}
use libcheloniajs.Journal.Shapes.{property-safe_define, owns_of_property}
use libcheloniajs.Journal.Turtledash.{Turtledash}
use libcheloniajs.Journal.Apply.{put_child}
use libcheloniajs.Journal.Redact.{
  Thrown, read_key, write_key, or_sentinel, each_key, matching_keys, walk_and_redact,
}

module _ (t : Turtledash) (redact : Value → List String → String → Outcome Thrown Value)
    (name : String) (resolved : List String) (fs : Fields) (seg : String)
    (literal : str_eq seg "*" ≡ false) where
  -- On an object, a path that begins with a key and not `*` changes no other property, whatever
  -- the redactor does.
  pub walk_and_redact-literal :
      (segments : List String)
      → (gs : Fields) × (walk_and_redact t redact name (seg ∷ segments) resolved (object fs)
          ≡ object gs)
        × ((k : String) → seg ≢ k → property k gs ≡ property k fs)
  unfolding walk_and_redact matching_keys each_key write_key put_child
  walk_and_redact-literal [] = elim (Bool-cases (t.has (object fs) seg)) [
    | inr absent ↦ (fs, rw (literal, absent), λ k ne. refl)
    | inl present ↦ (
      safe_define fs seg
          (or_sentinel (redact (read_key (object fs) seg) (resolved ++ seg ∷ []) name)),
      rw (literal, present),
      λ k ne. ground (
        arith,
        ne,
        eq_iff seg k,
        property-safe_define fs seg k
            (or_sentinel (redact (read_key (object fs) seg) (resolved ++ seg ∷ []) name)),
      ),
    )
  ]
  walk_and_redact-literal (next ∷ segments) = elim (Bool-cases (t.has (object fs) seg)) [
    | inr absent ↦ (fs, rw (literal, absent), λ k ne. refl)
    | inl present ↦ (
      safe_define fs seg (
          walk_and_redact t redact name (next ∷ segments) (resolved ++ seg ∷ [])
            (read_key (object fs) seg)),
      rw (literal, present),
      λ k ne. ground (
        arith,
        ne,
        eq_iff seg k,
        property-safe_define fs seg k (
            walk_and_redact t redact name (next ∷ segments) (resolved ++ seg ∷ [])
              (read_key (object fs) seg)),
      ),
    )
  ]

  -- A path of one key, not `*`, leaves at that key of an object what the redactor answers for the
  -- value there, or the sentinel where it throws.
  pub walk_and_redact-replaced :
      (v : Value)
      → property seg fs ≡ some v
      → (gs : Fields) × (walk_and_redact t redact name (seg ∷ []) resolved (object fs) ≡ object gs)
        × (property seg gs ≡ some (or_sentinel (redact v (resolved ++ seg ∷ []) name)))
  unfolding walk_and_redact matching_keys each_key write_key read_key
  walk_and_redact-replaced v at_seg =
      let present : t.has (object fs) seg ≡ true =
        ground (arith, t.has_own fs seg, owns_of_property fs seg, at_seg) in
      let read : read_key (object fs) seg ≡ v = ground (arith, at_seg) in
      let r : Value = or_sentinel (redact v (resolved ++ seg ∷ []) name) in
      (
        safe_define fs seg r,
        rw (literal, present)
            (ap
              (λ x.
                object (safe_define fs seg (or_sentinel (redact x (resolved ++ seg ∷ []) name))))
              read),
        ground (arith, eq_iff seg seg, property-safe_define fs seg seg r),
      )
