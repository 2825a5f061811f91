-- ===== src/Kv/Guards.antt =====
-- src/kv.ts: the guards that a slot's schema and default pass when the slot is defined, and the
-- key names that a write needs. `deep_equal` is `deepEqualJSONType` of the library turtledash, and
-- `current_key_id` the selector currentKeyIdByName.
use libcheloniajs.Base.{
  ◌≡◌, ◌∙◌, ap, subst, sym, refl, Bool, true, none, some, if◌then◌else◌, arith, Bool-cases, inl,
  inr, ◌⊎◌,
}
use libcheloniajs.Base.Throws.{Outcome, ok, throw, ◌>>=◌, >>=-eq-ok}
use libcheloniajs.Journal.Json.{
  Value, undefined, null, boolean, number, string, array, object, is_undefined,
}
use libcheloniajs.Journal.Redact.{Thrown}
use libcheloniajs.Kv.{SlotDefinition, Parsed, thenable, parsed}
use libcheloniajs.Kv.Values.{KvFailure, ShapeError, assert_json_shape, check_parsed}
use libcheloniajs.Kv.Shape.{IsStorable, check_parsed-IsStorable}

pub data SlotInvalid : Type 0 where
  default_threw null_default : SlotInvalid
  default_not_json : ShapeError → SlotInvalid
  accepts_sentinel async_parser not_idempotent : SlotInvalid
  default_refused : KvFailure → SlotInvalid

-- One pass of guards 1 and 2: the schema must throw.
abbrev pub assert_refused : Outcome Thrown Parsed → Outcome SlotInvalid (Unit {0})
assert_refused (throw e) = ok tt
assert_refused (ok thenable) = throw async_parser
assert_refused (ok (parsed v)) = throw accepts_sentinel

-- The parse of a default, with `assertParsedDefaultValue`.
abbrev pub parse_default : Outcome KvFailure Value → Outcome SlotInvalid Value
parse_default (ok v) = ok v
parse_default (throw e) = throw (default_refused e)

abbrev pub with_default : Value → SlotDefinition → SlotDefinition
with_default v slot = record slot { resolved_default = v }

module _ (deep_equal : Value → Value → Bool) where
  -- Guard 3.
  unfoldable pub round_trip_default :
      (Value → Outcome Thrown Parsed) → SlotDefinition → Outcome SlotInvalid SlotDefinition
  round_trip_default parse slot =
      parse_default (check_parsed (parse slot.resolved_default)) >>= λ first.
      parse_default (check_parsed (parse first)) >>= λ second.
      if deep_equal first second then ok (with_default first slot) else throw not_idempotent

  -- `assertSchemaGuards`, with the slot that it leaves.
  unfoldable pub assert_schema_guards : SlotDefinition → Outcome SlotInvalid SlotDefinition
  assert_schema_guards slot = elim slot.schema [
    | none ↦ ok slot
    | some parse ↦ assert_refused (parse null) >>= λ u. assert_refused (parse undefined) >>= λ w.
        if is_undefined slot.resolved_default then ok slot else round_trip_default parse slot
  ]

  abbrev pub default_shape : Outcome ShapeError Value → Outcome SlotInvalid Value
  default_shape (ok v) = ok v
  default_shape (throw e) = throw (default_not_json e)

  -- The default of `_defineSlotInternal`: what its factory answers, checked.
  unfoldable pub check_default : Outcome Thrown Value → Outcome SlotInvalid Value
  check_default (throw e) = throw default_threw
  check_default (ok null) = throw null_default
  check_default (ok undefined) = ok undefined
  check_default (ok v) = default_shape (assert_json_shape v)

  -- A value that the schema keeps.
  abbrev pub IsReparsed : (Value → Outcome Thrown Parsed) → Value → Type 0
  IsReparsed parse d =
      IsStorable d × ((v : Value) × (check_parsed (parse d) ≡ ok v) × (deep_equal d v ≡ true))

  -- What a slot that has a schema, and has passed the guards, is.
  pub record IsGuarded (parse : Value → Outcome Thrown Parsed) (slot : SlotDefinition)
      : Type 0 where
    pub no_null : (e : Thrown) × (parse null ≡ throw e)
    pub no_undefined : (e : Thrown) × (parse undefined ≡ throw e)
    pub default : (slot.resolved_default ≡ undefined) ⊎ IsReparsed parse slot.resolved_default

  refused-throws :
      (o : Outcome Thrown Parsed) (u : Unit {0})
      → assert_refused o ≡ ok u
      → (e : Thrown) × (o ≡ throw e)
  refused-throws (throw e) u h = (e, refl)
  refused-throws (ok thenable) u h = cc
  refused-throws (ok (parsed v)) u h = cc

  parse_default-ok : (o : Outcome KvFailure Value) (v : Value) → parse_default o ≡ ok v → o ≡ ok v
  parse_default-ok (ok w) v h = ground (arith, h)
  parse_default-ok (throw e) v h = cc

  is_undefined-eq : (v : Value) → is_undefined v ≡ true → v ≡ undefined
  is_undefined-eq undefined h = refl
  is_undefined-eq null h = cc
  is_undefined-eq (boolean b) h = cc
  is_undefined-eq (number n) h = cc
  is_undefined-eq (string t) h = cc
  is_undefined-eq (array xs) h = cc
  is_undefined-eq (object fs) h = cc

  round_trip_default-IsReparsed :
      (parse : Value → Outcome Thrown Parsed) (slot guarded : SlotDefinition)
      → round_trip_default parse slot ≡ ok guarded
      → IsReparsed parse guarded.resolved_default
  unfolding round_trip_default
  round_trip_default-IsReparsed parse slot guarded h =
      let (first, parsed_once, later) =
        >>=-eq-ok (parse_default (check_parsed (parse slot.resolved_default))) _ h in
      let (second, parsed_twice, last) =
        >>=-eq-ok (parse_default (check_parsed (parse first))) _ later in
      let once = parse_default-ok (check_parsed (parse slot.resolved_default)) first parsed_once in
      let twice = parse_default-ok (check_parsed (parse first)) second parsed_twice in
      elim (Bool-cases (deep_equal first second)) [
        | inr other ↦ absurd (ground (arith, other, last))
        | inl same ↦
            let kept : with_default first slot ≡ guarded = ground (arith, same, last) in
            subst (λ (g : SlotDefinition). IsReparsed parse g.resolved_default) kept
              (
                check_parsed-IsStorable (parse slot.resolved_default) first once,
                (second, twice, same),
              )
      ]

  -- A slot with a schema that passes the guards: its schema throws for null and for undefined, and
  -- its default is absent, or is storable and parsed again gives a value equal to it.
  pub assert_schema_guards-IsGuarded :
      (parse : Value → Outcome Thrown Parsed) (slot guarded : SlotDefinition)
      → slot.schema ≡ some parse
      → assert_schema_guards slot ≡ ok guarded
      → IsGuarded parse guarded
  unfolding assert_schema_guards
  assert_schema_guards-IsGuarded parse slot guarded found h =
      let h1 : (assert_refused (parse null) >>= λ u. assert_refused (parse undefined) >>= λ w.
      if is_undefined slot.resolved_default then ok slot else round_trip_default parse slot)
          ≡ ok guarded =
        rw (found, assert_schema_guards) at h in
      let (u, null_refused, h2) = >>=-eq-ok (assert_refused (parse null)) _ h1 in
      let (w, undefined_refused, h3) = >>=-eq-ok (assert_refused (parse undefined)) _ h2 in
      record {
        no_null = refused-throws (parse null) u null_refused;
        no_undefined = refused-throws (parse undefined) w undefined_refused;
        default = elim (Bool-cases (is_undefined slot.resolved_default)) [
          | inl nothing ↦
              let kept : slot ≡ guarded = ground (arith, nothing, h3) in
              inl (
                ap (λ (g : SlotDefinition). g.resolved_default) (sym kept)
                ∙ is_undefined-eq slot.resolved_default nothing)
          | inr something ↦
              inr (round_trip_default-IsReparsed parse slot guarded (rw something at h3))
        ];
      }
