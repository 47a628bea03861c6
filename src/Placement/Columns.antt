-- ===== src/Placement/Columns.antt =====
-- src/ui-layer/service-map/coordinates/placement.ts: the columns of the cards of one kind.
pub mod Laws
use hubble_ui.Prelude.{
  ℕ, ◌+◌, ◌*◌, zero, suc, Bool, false, not, ◌||◌, Option, none, some, List, [], ◌∷◌, ◌++◌, length,
  leb, ltb, ◌==◌, if◌then◌else◌,
}
use hubble_ui.Prelude.Int.{ℤ, int_Eq, leb_ℤ}
use hubble_ui.Prelude.Sorting.{sort}
use hubble_ui.Placement.Groups.{PlacementMeta}

-- The order of the sort: heavier cards go first.
unfoldable pub heavier_first : PlacementMeta → PlacementMeta → Bool
heavier_first a b = leb_ℤ b.weight a.weight

-- `Math.ceil(Math.sqrt(n))`: the first number from `k` on whose square is `n` at least
unfoldable pub ceil_sqrt_from : ℕ → ℕ → ℕ → ℕ
ceil_sqrt_from zero k n = k
ceil_sqrt_from (suc fuel) k n =
    let next = ceil_sqrt_from fuel (suc k) n in if ltb (k * k) n then next else k

unfoldable pub ceil_sqrt : ℕ → ℕ
unfolding ceil_sqrt_from
ceil_sqrt n = ceil_sqrt_from n 0 n

-- Whether a card starts a new column
unfoldable pub starts_column : ℕ → List PlacementMeta → Option ℤ → PlacementMeta → Bool
starts_column max column weight plc =
    leb max (length column) || elim weight [ none ↦ false | some w ↦ not (plc.weight == w) ]

-- The loop over the sorted cards: the columns that are done, the current one and its weight
unfoldable pub fill_columns :
    ℕ
    → List (List PlacementMeta)
    → List PlacementMeta
    → Option ℤ
    → List PlacementMeta
    → List (List PlacementMeta)
unfolding starts_column
fill_columns max columns column weight [] = columns
fill_columns max columns column weight (plc ∷ []) =
    if starts_column max column weight plc
    then columns ++ column ∷ (plc ∷ []) ∷ []
    else columns ++ (column ++ plc ∷ []) ∷ []
fill_columns max columns column weight (plc ∷ next ∷ rest) =
    let flush = starts_column max column weight plc in
    fill_columns max (if flush then columns ++ column ∷ [] else columns)
      (if flush then plc ∷ [] else column ++ plc ∷ []) (some plc.weight) (next ∷ rest)

unfoldable pub build_placement_columns : List PlacementMeta → List (List PlacementMeta)
unfolding fill_columns sort ceil_sqrt heavier_first
build_placement_columns plcs =
    fill_columns (ceil_sqrt (length plcs)) [] [] none (sort heavier_first plcs)
