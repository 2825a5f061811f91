-- ===== src/Journal/Turtledash.antt =====
-- What src/journal.ts relies on of the library turtledash: `has`, the test for an own property.
use libcheloniajs.Base.{◌≡◌, refl, Bool, false, String}
use libcheloniajs.Journal.Json.{Value, object, Fields, owns}

pub record Turtledash : Type 0 where
  pub has : Value → String → Bool
  -- On an object it finds the own properties, and no inherited one.
  pub has_own : (fs : Fields) (k : String) → has (object fs) k ≡ owns fs k

abbrev pub own_property : Value → String → Bool
own_property (object fs) k = owns fs k
own_property _ k = false

pub own_property-object : (fs : Fields) (k : String) → own_property (object fs) k ≡ owns fs k
own_property-object fs k = refl

-- An instance of the interface, for tests.
abbrev pub own_turtledash : Turtledash
own_turtledash = record { has = own_property; has_own = own_property-object }
