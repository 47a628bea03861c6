-- ===== src/Diff.antt =====
-- src/domain/diff/index.ts: the value before and after a change, with the answer to `changed` kept
-- until the next change; and `clone` and `equals` of src/domain/misc.ts, on which it stands.
-- The nested difference (`diff`, `computeDiff`) is not modelled.
pub mod Laws
use hubble_ui.Prelude.{Bool, true, false, not, Option, none, some}

-- What `clone` and `equals` take from the value's type: its own `equals` method, if it has one, and
-- lodash's `cloneDeep` and `isEqual`.
pub record Value (T : Type 0) : Type 0 where
  pub clone_deep : T → T
  pub equals_method : Option (T → T → Bool)
  pub is_equal : T → T → Bool

module _ {T : Type 0} (lib : Value T) where
  -- `clone` of a value that may be missing
  abbrev pub clone : Option T → Option T
  clone none = none
  clone (some a) = some (lib.clone_deep a)

  -- The comparison of two values that are there
  abbrev pub compare_values : Option (T → T → Bool) → T → T → Bool
  compare_values (some compare_fn) a b = compare_fn a b
  compare_values none a b = elim lib.equals_method [
    | some method ↦ method a b
    | none ↦ lib.is_equal a b
  ]

  unfoldable pub equals : Option T → Option T → Option (T → T → Bool) → Bool
  equals (some a) none compare_fn = false
  equals none (some b) compare_fn = false
  equals none none compare_fn = true
  equals (some a) (some b) compare_fn = compare_values compare_fn a b

pub record Diff (T : Type 0) : Type 0 where
  pub cached : Option Bool
  pub compare_fn : Option (T → T → Bool)
  pub before : Option T
  pub after : Option T

module _ {T : Type 0} (lib : Value T) where
  unfoldable pub new : Option T → Diff T
  new init = record { cached = none; compare_fn = none; before = none; after = clone lib init }

  unfoldable pub compute_changed : Diff T → Bool
  compute_changed d = not (equals lib d.before d.after d.compare_fn)

  -- The getter `changed`, with the state that it leaves
  unfoldable pub changed : Diff T → Bool × Diff T
  changed d = elim d.cached [
    | some answer ↦ (answer, d)
    | none ↦ (compute_changed d, record d { cached = some (compute_changed d) })
  ]

  -- `replace` keeps its own comparator.
  unfoldable pub replace : Diff T → Diff T → Diff T
  replace d rhs = record d {
    before = clone lib rhs.before;
    after = clone lib rhs.after;
    cached = rhs.cached;
  }

  unfoldable pub set_after : Diff T → Option T → Diff T
  set_after d after = record d { after = clone lib after; cached = none }

  unfoldable pub step : Diff T → Option T → Diff T
  step d next_after = record d {
    before = clone lib d.after;
    after = clone lib next_after;
    cached = none;
  }

  -- The comparator is not copied.
  unfoldable pub clone_diff : Diff T → Diff T
  clone_diff d = record {
    cached = d.cached;
    compare_fn = none;
    before = clone lib d.before;
    after = clone lib d.after;
  }

module _ {T : Type 0} where
  unfoldable pub invert : Diff T → Diff T
  invert d = record d { before = d.after; after = d.before; cached = none }

  unfoldable pub set_unchanged : Diff T → Diff T
  set_unchanged d = record d { cached = some false; before = d.after }

  unfoldable pub set_comparator : Diff T → Option (T → T → Bool) → Diff T
  set_comparator d fn = record d { compare_fn = fn }
