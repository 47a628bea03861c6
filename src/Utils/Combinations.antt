-- ===== src/Utils/Combinations.antt =====
-- src/utils/iter-tools/combinations.ts: all tuples of indices, each below a size of its own.
pub mod Laws
use hubble_ui.Prelude.{
  ℕ, zero, suc, ◌+◌, ◌*◌, ◌%◌, Bool, true, false, Option, none, some, List, [], ◌∷◌, map, leb,
  nat_eq, is_empty, if◌then◌else◌,
}
use mathlib.Core.Option

pub record Combinations : Type 0 where
  pub tuple_sizes : List ℕ
  pub indices : List ℕ
  pub stop : Bool
  pub ntuples : ℕ

unfoldable pub product : List ℕ → ℕ
product [] = 1
product (n ∷ ns) = n * product ns

-- `Array(n).fill(0)`
unfoldable pub zeros : List ℕ → List ℕ
zeros = map (λ n. 0)

-- The constructor
unfoldable pub new : List ℕ → Combinations
unfolding product zeros
new sizes = record {
  tuple_sizes = sizes;
  indices = zeros sizes;
  stop = nat_eq (product sizes) 0;
  ntuples = product sizes;
}

-- The loop of `advanceIndices` starts at the last index, with one to add; an index that wraps to 0
-- hands the one on to the index before it. The result says whether the first one wrapped.
unfoldable pub advance : List ℕ → List ℕ → List ℕ × Bool
advance (n ∷ ns) (i ∷ is) =
    let (rest, carry) = advance ns is in
    if carry then ((i + 1) % n ∷ rest, leb n (i + 1)) else (i ∷ rest, false)
advance _ is = (is, true)

-- `carry` is 0 if there is no index at all.
unfoldable pub advance_indices : Combinations → Combinations
unfolding advance
advance_indices c =
    let (indices, carry) = advance c.tuple_sizes c.indices in
    record c {
      indices = indices;
      stop = if is_empty c.indices then c.stop else if carry then true else c.stop;
    }

unfoldable pub next : Combinations → Option (List ℕ) × Combinations
unfolding advance_indices
next c = if c.stop then (none, c) else (some c.indices, advance_indices c)

-- The loop of `asArray`; none if it is not over after as many rounds as the fuel.
unfoldable pub as_array : ℕ → Combinations → Option (List (List ℕ))
unfolding next
as_array zero c = none
as_array (suc fuel) c =
    let rest = as_array fuel (next c).1 in
    elim (next c).0 [ none ↦ some [] | some tuple ↦ Option.map (◌∷◌ tuple) rest ]
