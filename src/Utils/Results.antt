-- ===== src/Utils/Results.antt =====
-- src/utils/result.ts: the class Result. A value that may be
-- null is an Option of the library here, and so is what the callbacks take and give, since the
-- program hands them null where it has nothing else.
pub mod Laws
use hubble_ui.Prelude.{Bool, true, false, not, Option, none, some, if◌then◌else◌}
use hubble_ui.Prelude.Maps.{is_some}
use hubble_ui.Utils.Options
use hubble_ui.Utils.Options.{Maybe}

-- The class Result
pub record Result (T E : Type 0) : Type 0 where
  pub data_ : Option T
  pub err_ : Option E

-- An exception that unwrap throws: that of Option, or the error itself
pub data Unwrapped (T E : Type 0) : Type 0 where
  value : Option T → Unwrapped T E
  thrown : E → Unwrapped T E

module _ {T E : Type 0} where
  unfoldable pub success : Option T → Result T E
  success d = record { data_ = d; err_ = none }

  unfoldable pub error : E → Result T E
  error err = record { data_ = none; err_ = some err }

  unfoldable pub is_ok : Result T E → Bool
  is_ok r = not (is_some r.err_)

  unfoldable pub is_err : Result T E → Bool
  is_err r = is_some r.err_

  unfoldable pub unwrap : Result T E → Unwrapped T E
  unwrap r = elim r.err_ [ none ↦ value r.data_ | some err ↦ thrown err ]

  unfoldable pub option : Result T E → Maybe T
  unfolding is_err Options.some_of Options.none_of
  option r = if is_err r then Options.none_of else Options.some_of r.data_

module _ {T S E : Type 0} where
  unfoldable pub map : (Option T → Option S) → Result T E → Result S E
  map fn r = record { data_ = elim r.err_ [ none ↦ fn r.data_ | some err ↦ none ]; err_ = r.err_ }

  -- Of an error, the object itself is returned; its data is null.
  unfoldable pub and_then : (Option T → Result S E) → Result T E → Result S E
  and_then fn r = elim r.err_ [
    | none ↦ fn r.data_
    | some err ↦ record { data_ = none; err_ = some err }
  ]

module _ {T E F : Type 0} where
  -- The test is whether the data is null, not whether there is an error.
  unfoldable pub map_err : (Option E → Option F) → Result T E → Result T F
  map_err fn r = record { data_ = r.data_; err_ = if is_some r.data_ then none else fn r.err_ }
