-- ===== src/Registry/Float.antt =====
-- Python's floats: a type with the operations that the registry uses of it.
use control_ok_a_v.Base.{ℕ, Bool, Option, none, some, if◌then◌else◌}

pub record FloatOps (F : Type 0) : Type 0 where
  pub zero : F
  -- `a <= b`
  pub at_most : F → F → Bool
  -- `a < b`
  pub below : F → F → Bool
  pub plus : F → F → F
  pub minus : F → F → F
  pub times : F → F → F
  pub over : F → F → F
  -- `float(n)`
  pub of_count : ℕ → F

module _ {F : Type 0} (ops : FloatOps F) where
  -- `max(0.0, now - timestamp)`
  abbrev pub age : F → F → F
  age now timestamp =
      let d = ops.minus now timestamp in if ops.below ops.zero d then d else ops.zero

  -- `_age_or_none` and `_age_since`
  abbrev pub age_since : Option F → F → Option F
  age_since none now = none
  age_since (some timestamp) now = some (age now timestamp)
