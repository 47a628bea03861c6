-- ===== src/Placement/Columns/Laws.antt =====
-- src/ui-layer/service-map/coordinates/placement.ts: what the columns of cards hold.
use mathlib.Core.List.{append_assoc, append-nil, Perm}
use mathlib.Core.List.Perm
use hubble_ui.Prelude.{
  ℕ, ◌+◌, ◌*◌, ◌≤◌, zero, suc, ◌≡◌, refl, sym, subst, ◌∙◌, ap, true, false, Option, none, some,
  List, [], ◌∷◌, ◌++◌, length, ltb, All, All-append, arith, ◌<◌, nat_eq, Bool-cases, inl, inr,
  eq_iff, length-append,
}
use hubble_ui.Prelude.Int.{ℤ, int_Eq, ◌≤ℤ◌, leb_ℤ}
use hubble_ui.Prelude.Sorting.{insert, sort, sort-perm, All-insert}
use hubble_ui.Placement.Groups.{PlacementMeta}
use hubble_ui.Placement.Columns.{
  heavier_first, ceil_sqrt_from, ceil_sqrt, starts_column, fill_columns, build_placement_columns,
}

abbrev pub joined : List (List PlacementMeta) → List PlacementMeta
joined [] = []
joined (c ∷ cs) = c ++ joined cs

joined-append : (cs ds : List (List PlacementMeta)) → joined (cs ++ ds) ≡ joined cs ++ joined ds
joined-append [] ds = refl
joined-append (c ∷ cs) ds = simp (joined-append cs ds, append_assoc)

fill_columns-joined :
    (max : ℕ) (columns : List (List PlacementMeta)) (column : List PlacementMeta) (w : Option ℤ)
    (plc : PlacementMeta) (rest : List PlacementMeta)
    → joined (fill_columns max columns column w (plc ∷ rest))
      ≡ joined columns ++ (column ++ plc ∷ rest)
unfolding fill_columns
fill_columns-joined max columns column w plc [] =
    elim (Bool-cases (starts_column max column w plc)) [
      | inl new ↦ rw new (simp (joined-append, append-nil))
      | inr old ↦ rw old (simp (joined-append, append-nil))
    ]
fill_columns-joined max columns column w plc (next ∷ rest) =
    elim (Bool-cases (starts_column max column w plc)) [
      | inl new ↦ rw new (
          fill_columns-joined max (columns ++ column ∷ []) (plc ∷ []) (some plc.weight) next rest
          ∙ simp (joined-append, append-nil, append_assoc))
      | inr old ↦ rw old (
          fill_columns-joined max columns (column ++ plc ∷ []) (some plc.weight) next rest
          ∙ simp (append_assoc))
    ]

-- A column has a card at least, and all its cards have one weight.
pub record IsColumn (max : ℕ) (column : List PlacementMeta) : Type 0 where
  pub filled : 1 ≤ length column
  pub bounded : length column ≤ max
  pub shared_weight : (w : ℤ) × All (λ plc. plc.weight ≡ w) column

-- The current column and its weight
abbrev IsCurrent : ℕ → List PlacementMeta → Option ℤ → Type 0
IsCurrent max column none = column ≡ []
IsCurrent max column (some w) =
    (1 ≤ length column) × (length column ≤ max) × All (λ plc. plc.weight ≡ w) column

current-IsColumn :
    (max : ℕ) (column : List PlacementMeta) (v : ℤ)
    → IsCurrent max column (some v)
    → IsColumn max column
current-IsColumn max column v (filled, bounded, same) = record {
  filled = filled;
  bounded = bounded;
  shared_weight = (v, same);
}

-- A column that is closed is one.
closed-IsColumn :
    (max : ℕ) (column : List PlacementMeta) (w : Option ℤ) (plc : PlacementMeta)
    → 1 ≤ max
    → starts_column max column w plc ≡ true
    → IsCurrent max column w
    → IsColumn max column
unfolding starts_column
closed-IsColumn max column none plc le new empty = absurd (ground (arith, empty))
closed-IsColumn max column (some v) plc le new cur = current-IsColumn max column v cur

-- A column that goes on has the weight of its next card.
extended-IsCurrent :
    (max : ℕ) (column : List PlacementMeta) (w : Option ℤ) (plc : PlacementMeta)
    → starts_column max column w plc ≡ false
    → IsCurrent max column w
    → IsCurrent max (column ++ plc ∷ []) (some plc.weight)
unfolding starts_column
extended-IsCurrent max column none plc old empty =
    let room : 1 ≤ max = ground (arith, empty) in
    subst (λ c. IsCurrent max (c ++ plc ∷ []) (some plc.weight)) (sym empty)
      (omega arith, room, (refl, tt))
extended-IsCurrent max column (some v) plc old (filled, bounded, same) =
    let here : plc.weight ≡ v = (eq_iff plc.weight v).0 (ground arith) in
    let room : length column + 1 ≤ max = ground arith in
    (
      omega (arith, length-append {0} column (plc ∷ [])),
      omega (arith, length-append {0} column (plc ∷ [])),
      subst (λ u. All (λ p. p.weight ≡ u) (column ++ plc ∷ [])) (sym here)
          (All-append (λ p. p.weight ≡ v) column (plc ∷ []) same (here, tt)),
    )

single-IsCurrent :
    (max : ℕ) (plc : PlacementMeta) → 1 ≤ max → IsCurrent max (plc ∷ []) (some plc.weight)
single-IsCurrent max plc le = (omega arith, le, (refl, tt))

fill_columns-IsColumn :
    (max : ℕ) (columns : List (List PlacementMeta)) (column : List PlacementMeta) (w : Option ℤ)
    (plcs : List PlacementMeta)
    → 1 ≤ max
    → All (IsColumn max) columns
    → IsCurrent max column w
    → All (IsColumn max) (fill_columns max columns column w plcs)
unfolding fill_columns
fill_columns-IsColumn max columns column w [] le h cur = h
fill_columns-IsColumn max columns column w (plc ∷ []) le h cur =
    elim (Bool-cases (starts_column max column w plc)) [
      | inl new ↦ rw new (
          All-append (IsColumn max) columns (column ∷ (plc ∷ []) ∷ []) h (
            closed-IsColumn max column w plc le new cur,
            (current-IsColumn max (plc ∷ []) plc.weight (single-IsCurrent max plc le), tt),
          ))
      | inr old ↦ rw old (
          All-append (IsColumn max) columns _ h (
            current-IsColumn max (column ++ plc ∷ []) plc.weight
                (extended-IsCurrent max column w plc old cur),
            tt,
          ))
    ]
fill_columns-IsColumn max columns column w (plc ∷ next ∷ rest) le h cur =
    elim (Bool-cases (starts_column max column w plc)) [
      | inl new ↦ rw new (
          fill_columns-IsColumn max (columns ++ column ∷ []) (plc ∷ []) (some plc.weight)
            (next ∷ rest) le
            (All-append (IsColumn max) columns (column ∷ []) h
              (closed-IsColumn max column w plc le new cur, tt))
            (single-IsCurrent max plc le))
      | inr old ↦ rw old (
          fill_columns-IsColumn max columns (column ++ plc ∷ []) (some plc.weight) (next ∷ rest) le
            h (extended-IsCurrent max column w plc old cur))
    ]

-- No card is heavier than one before it.
abbrev pub IsSorted : List PlacementMeta → Type 0
IsSorted [] = Unit
IsSorted (x ∷ xs) = All (λ y. y.weight ≤ℤ x.weight) xs × IsSorted xs

All-lighter :
    (u v : ℤ) (ys : List PlacementMeta)
    → u ≤ℤ v
    → All (λ y. y.weight ≤ℤ u) ys
    → All (λ y. y.weight ≤ℤ v) ys
All-lighter u v [] le h = tt
All-lighter u v (y ∷ ys) le (hy, hs) = (omega arith, All-lighter u v ys le hs)

insert-IsSorted :
    (x : PlacementMeta) (ys : List PlacementMeta)
    → IsSorted ys
    → IsSorted (insert heavier_first x ys)
unfolding insert heavier_first
insert-IsSorted x [] h = (tt, tt)
insert-IsSorted x (y ∷ ys) (hy, hs) = elim (Bool-cases (leb_ℤ y.weight x.weight)) [
  | inl before ↦
      let le : y.weight ≤ℤ x.weight = ground arith in
      rw before ((le, All-lighter y.weight x.weight ys le hy), (hy, hs))
  | inr later ↦ rw later (
    All-insert heavier_first (λ z. z.weight ≤ℤ y.weight) x ys (ground arith) hy,
    insert-IsSorted x ys hs,
  )
]

sort-IsSorted : (xs : List PlacementMeta) → IsSorted (sort heavier_first xs)
unfolding sort
sort-IsSorted [] = tt
sort-IsSorted (x ∷ xs) = insert-IsSorted x (sort heavier_first xs) (sort-IsSorted xs)

ceil_sqrt_from_lem :
    (fuel k n : ℕ)
    → n ≤ (k + fuel) * (k + fuel)
    → ((j : ℕ) → j < k → j * j < n)
    → (n ≤ ceil_sqrt_from fuel k n * ceil_sqrt_from fuel k n)
      × ((j : ℕ) → j < ceil_sqrt_from fuel k n → j * j < n)
unfolding ceil_sqrt_from
ceil_sqrt_from_lem zero k n le below =
    let same : k + 0 ≡ k = omega arith in (omega (arith, ap (λ (t : ℕ). t * t) same), below)
ceil_sqrt_from_lem (suc fuel) k n le below = elim (Bool-cases (ltb (k * k) n)) [
  | inl more ↦
      let same : k + suc fuel ≡ suc k + fuel = omega arith in
      rw more (
        ceil_sqrt_from_lem fuel (suc k) n (omega (arith, ap (λ (t : ℕ). t * t) same)) (λ j lt.
          elim (Bool-cases (nat_eq j k)) [
            | inl last ↦ ground (arith)
            | inr older ↦ below j (ground arith)
          ]))
  | inr enough ↦ rw enough (ground arith, below)
]

square-le : (n : ℕ) → n ≤ (0 + n) * (0 + n)
square-le zero = omega arith
square-le (suc n) = grind arith

-- The number is the least one whose square is not less.
pub ceil_sqrt_lem :
    (n : ℕ) → (n ≤ ceil_sqrt n * ceil_sqrt n) × ((j : ℕ) → j < ceil_sqrt n → j * j < n)
unfolding ceil_sqrt
ceil_sqrt_lem n = ceil_sqrt_from_lem n 0 n (square-le n) (λ j lt. absurd (omega arith))

fill_columns-all :
    (max : ℕ) (plcs : List PlacementMeta) → joined (fill_columns max [] [] none plcs) ≡ plcs
unfolding fill_columns
fill_columns-all max [] = refl
fill_columns-all max (plc ∷ rest) = fill_columns-joined max [] [] none plc rest

positive_root : (n c : ℕ) → suc n ≤ c * c → 1 ≤ c
positive_root n zero le = absurd (omega arith)
positive_root n (suc c) le = omega arith

-- The columns hold the cards, the heaviest first; each has a card at least and no more than the
-- least number whose square is not less than the number of cards, and its cards have one weight.
pub build_placement_columns-IsColumn :
    (plcs : List PlacementMeta)
    → IsSorted (joined (build_placement_columns plcs))
      × Perm (joined (build_placement_columns plcs)) plcs
      × All (IsColumn (ceil_sqrt (length plcs))) (build_placement_columns plcs)
unfolding build_placement_columns
build_placement_columns-IsColumn [] = unfold sort fill_columns in (tt, Perm.refl [], tt)
build_placement_columns-IsColumn (plc ∷ rest) =
    let plcs = plc ∷ rest in
    let max = ceil_sqrt (length plcs) in
    let root : 1 ≤ max = positive_root (length rest) max (ceil_sqrt_lem (length plcs)).0 in
    (
      rw (fill_columns-all max (sort heavier_first plcs)) (sort-IsSorted plcs),
      rw (fill_columns-all max (sort heavier_first plcs)) (sort-perm heavier_first plcs),
      fill_columns-IsColumn max [] [] none (sort heavier_first plcs) root tt refl,
    )
