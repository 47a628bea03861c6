-- ===== src/Utils/Options.antt =====
-- src/utils/option.ts: the class Option. A value that may be
-- null is an Option of the library here, and so is what the callbacks take and give, since the
-- program hands them null where it has nothing else.
use hubble_ui.Prelude.{Bool, true, false, Option, none, some, if◌then◌else◌}
use hubble_ui.Prelude.Maps.{is_some}

-- The class Option
pub record Maybe (T : Type 0) : Type 0 where
  pub data_ : Option T
  pub is_none : Bool

module _ {T : Type 0} where
  unfoldable pub some_of : Option T → Maybe T
  some_of d = record { data_ = d; is_none = false }

  unfoldable pub none_of : Maybe T
  none_of = record { data_ = none; is_none = true }

  unfoldable pub from_nullable : Option T → Maybe T
  unfolding some_of none_of
  from_nullable d = if is_some d then some_of d else none_of

  -- No value is the exception.
  unfoldable pub unwrap : Maybe T → Option (Option T)
  unwrap o = if o.is_none then none else some o.data_

  unfoldable pub unwrap_or : Maybe T → Option T → Option T
  unwrap_or o other = if o.is_none then other else o.data_

module _ {T S : Type 0} where
  unfoldable pub map : (Option T → Option S) → Maybe T → Maybe S
  map fn o = record { data_ = if o.is_none then none else fn o.data_; is_none = o.is_none }

  -- Of nothing, the object itself is returned, with its data.
  unfoldable pub and_then : (Option T → Maybe S) → Maybe T → Maybe S
  unfolding none_of
  and_then fn o = if o.is_none then none_of else fn o.data_
