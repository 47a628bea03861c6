-- ===== src/Placement/Coordinates/Kinds.antt =====
-- src/ui-layer/service-map/coordinates/placement.ts: the groups that `alignColumns` gives for some kinds.
use hubble_ui.Prelude.{
  ℕ, ◌≤◌, ◌≡◌, refl, true, false, none, List, [], ◌∷◌, ◌++◌, Str, str_Eq, arith, Option-cases, inl,
  inr, eq_iff, eq_refl,
}
use hubble_ui.Prelude.Maps.{get}
use hubble_ui.Prelude.Sets.{has, IsDistinct}
use hubble_ui.Placement.Groups.{PlacementKind, kind_Eq, PlacementMeta}
use hubble_ui.Placement.Coordinates.{
  Wh, PlacementEntry, EntriesGroup, max, place_columns, place_kinds, center_groups, center_columns,
  align_columns, entries_of, height_of,
}
use hubble_ui.Placement.Coordinates.Apart.{InY-weaken}
use hubble_ui.Placement.Coordinates.Align.{
  place_kinds-missing, place_kinds-found, IsPlaced, all_entries, place_kinds-IsPlaced,
}

abbrev pub Groups : Type 0
Groups = List (PlacementKind × EntriesGroup)

-- The entries and the height of the groups of some kinds
abbrev pub entries_by : List PlacementKind → Groups → List PlacementEntry
entries_by [] gs = []
entries_by (k ∷ ks) gs = entries_of (get k gs) ++ entries_by ks gs

abbrev pub height_by : List PlacementKind → Groups → ℕ
height_by [] gs = 0
height_by (k ∷ ks) gs = max (height_of (get k gs)) (height_by ks gs)

-- A group of another kind plays no part.
entries_by-other :
    (k : PlacementKind) (g : EntriesGroup) (ks : List PlacementKind) (gs : Groups)
    → has k ks ≡ false
    → (entries_by ks ((k, g) ∷ gs) ≡ entries_by ks gs)
      × (height_by ks ((k, g) ∷ gs) ≡ height_by ks gs)
unfolding has get
entries_by-other k g [] gs h = (refl, refl)
entries_by-other k g (j ∷ ks) gs h =
    ground (arith, entries_by-other k g ks gs, eq_iff k j, eq_iff j k)

module _ (pixel : ℕ) (dims : List (Str × Wh))
    (columns : List (PlacementKind × List (List PlacementMeta))) where
  place_kinds-none :
      (k : PlacementKind) (x entire height : ℕ) (kinds : List PlacementKind)
      → has k kinds ≡ false
      → get k (center_groups height (place_kinds pixel dims columns x entire kinds).0) ≡ none
  unfolding center_groups has get
  place_kinds-none k x entire height [] h = unfold place_kinds in refl
  place_kinds-none k x entire height (kind ∷ kinds) h = elim (Option-cases (get kind columns)) [
    | inl missing ↦
        rw (place_kinds-missing pixel dims columns x entire kind kinds missing)
          (place_kinds-none k x entire height kinds (ground arith))
    | inr (own, found) ↦
        let placed = place_columns pixel dims true x 0 0 own in
        let rest = place_kinds-none k placed.1 (max entire placed.3) height kinds (ground arith) in
        rw (place_kinds-found pixel dims columns x entire kind kinds own found)
          (ground (arith, rest))
  ]

  place_kinds-by :
      (x entire height : ℕ) (kinds : List PlacementKind)
      → IsDistinct kinds
      → let r = place_kinds pixel dims columns x entire kinds in
        let gs = center_groups height r.0 in
        (entries_by kinds gs ≡ all_entries pixel dims gs) × (r.1 ≤ max entire (height_by kinds gs))
  unfolding center_groups get
  place_kinds-by x entire height [] d = unfold place_kinds in (refl, ground arith)
  place_kinds-by x entire height (kind ∷ kinds) (new, d) = elim (Option-cases (get kind columns)) [
    | inl missing ↦ rw (place_kinds-missing pixel dims columns x entire kind kinds missing) (
        ground (
          arith,
          place_kinds-by x entire height kinds d,
          place_kinds-none kind x entire height kinds new,
        ))
    | inr (own, found) ↦
        let placed = place_columns pixel dims true x 0 0 own in
        let next = max entire placed.3 in
        let gs = center_groups height (place_kinds pixel dims columns placed.1 next kinds).0 in
        let g : EntriesGroup = record {
          entries = center_columns height placed.0;
          x = x;
          w = placed.2;
          h = placed.3;
        } in
        let (same_entries, same_height) = entries_by-other kind g kinds gs new in
        let (ih_entries, ih_height) = place_kinds-by placed.1 next height kinds d in
        rw (place_kinds-found pixel dims columns x entire kind kinds own found) (
          ground (arith, eq_refl kind, same_entries, same_height, ih_entries),
          ground (arith, eq_refl kind, same_height, ih_height),
        )
  ]

  -- The groups of distinct kinds stand side by side, below the height of the highest one.
  pub align_columns-IsPlaced :
      (kinds : List PlacementKind)
      → IsDistinct kinds
      → let gs = align_columns pixel dims columns kinds in
        (hi : ℕ) × IsPlaced 0 hi (height_by kinds gs) (entries_by kinds gs)
  unfolding align_columns
  align_columns-IsPlaced kinds d =
      let r = place_kinds pixel dims columns 0 0 kinds in
      let gs = center_groups r.1 r.0 in
      let (hi, grows, placed) =
        place_kinds-IsPlaced pixel dims columns 0 0 r.1 kinds (omega arith) in
      let (same, le) = place_kinds-by 0 0 r.1 kinds d in
      (
        hi,
        rw same (record {
          in_x = placed.in_x;
          in_y =
              InY-weaken 0 r.1 0 (height_by kinds gs) (all_entries pixel dims gs) (omega arith)
                (ground (arith, le)) placed.in_y;
          apart = placed.apart;
        }),
      )
