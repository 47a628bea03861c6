-- ===== src/Placement/Coordinates/Align.antt =====
-- src/ui-layer/service-map/coordinates/placement.ts: the columns that `alignColumns` makes.
use hubble_ui.Prelude.{
  ℕ, ◌+◌, ◌-◌, ◌/◌, ◌≤◌, ◌≡◌, subst, Bool, true, false, none, some, List, [], ◌∷◌, ◌++◌, Str,
  str_Eq, All, All-append, arith, if◌then◌else◌, Option-cases, inl, inr,
}
use hubble_ui.Prelude.Int.{pos, +ℤ_parts}
use hubble_ui.Prelude.Maps.{get}
use hubble_ui.Placement.Groups.{PlacementKind, kind_Eq, PlacementMeta}
use hubble_ui.Placement.Coordinates.{
  Wh, PlacementEntry, EntriesGroup, max, shift_entries, v_padding, h_padding, wh_of, column_entries,
  column_width, column_height, end_y, place_columns, place_kinds, center_columns, center_groups,
}
use hubble_ui.Placement.Coordinates.Apart.{
  AllApart, InX, InY, All-weaken, AllApart-append, InX-Apart, InX-weaken, InY-weaken,
  shift-AllApart, shift-InY, shift-InX,
}

module _ (pixel : ℕ) (dims : List (Str × Wh)) where
  column_entries-InX :
      (x y : ℕ) (metas : List PlacementMeta)
      → All (InX x (x + column_width pixel dims metas)) (column_entries pixel dims x y metas)
  unfolding column_entries column_width
  column_entries-InX x y [] = tt
  column_entries-InX x y (meta ∷ metas) = (
    (omega arith, ground (arith, +ℤ_parts (pos x) (pos (wh_of pixel dims meta).w))),
    InX-weaken x (x + column_width pixel dims metas) x _ _ (omega arith) (ground arith)
        (column_entries-InX x (y + ((wh_of pixel dims meta).h + v_padding pixel dims)) metas),
  )

  column_height-first :
      (meta : PlacementMeta) (metas : List PlacementMeta)
      → column_height pixel dims false (meta ∷ metas)
        ≡ column_height pixel dims true (meta ∷ metas) + v_padding pixel dims
  unfolding column_height
  column_height-first meta metas = omega arith

  column_height-le :
      (metas : List PlacementMeta)
      → column_height pixel dims true metas ≤ column_height pixel dims false metas
  unfolding column_height
  column_height-le [] = omega arith
  column_height-le (meta ∷ metas) = omega arith

  end_y-column_height :
      (y : ℕ) (metas : List PlacementMeta)
      → end_y pixel dims y metas ≡ y + column_height pixel dims false metas
  unfolding end_y column_height
  end_y-column_height y [] = omega arith
  end_y-column_height y (meta ∷ metas) =
      omega
        (arith, end_y-column_height (y + ((wh_of pixel dims meta).h + v_padding pixel dims)) metas)

  -- The column ends where the offset stops short of the last padding.
  column_height-end_y :
      (metas : List PlacementMeta)
      → column_height pixel dims true metas ≤ end_y pixel dims 0 metas - v_padding pixel dims
  column_height-end_y [] = unfold column_height in omega arith
  column_height-end_y (meta ∷ metas) =
      omega (arith, end_y-column_height 0 (meta ∷ metas), column_height-first meta metas)

  column_entries-InY :
      (x y : ℕ) (metas : List PlacementMeta)
      → All (InY y (y + column_height pixel dims true metas)) (column_entries pixel dims x y metas)
  unfolding column_entries column_height
  column_entries-InY x y [] = tt
  column_entries-InY x y (meta ∷ []) = ((omega arith, omega arith), tt)
  column_entries-InY x y (meta ∷ next ∷ metas) =
      let y' = y + ((wh_of pixel dims meta).h + v_padding pixel dims) in
      (
        (omega arith, omega arith),
        InY-weaken y' (y' + column_height pixel dims true (next ∷ metas)) y
            (y + column_height pixel dims true (meta ∷ next ∷ metas))
            (column_entries pixel dims x y' (next ∷ metas)) (omega arith)
            (omega (arith, column_height-first next metas))
            (column_entries-InY x y' (next ∷ metas)),
      )

  column_entries-AllApart :
      (x y : ℕ) (metas : List PlacementMeta) → AllApart (column_entries pixel dims x y metas)
  unfolding column_entries
  column_entries-AllApart x y [] = tt
  column_entries-AllApart x y (meta ∷ metas) =
      let y' = y + ((wh_of pixel dims meta).h + v_padding pixel dims) in
      (
        All-weaken (column_entries pixel dims x y' metas) (λ f q. inr (inr (inl (omega arith))))
            (column_entries-InY x y' metas),
        column_entries-AllApart x y' metas,
      )

-- Entries that lie between two verticals and below a height, and do not overlap
pub record IsPlaced (lo hi height : ℕ) (es : List PlacementEntry) : Type 0 where
  pub in_x : All (InX lo hi) es
  pub in_y : All (InY 0 height) es
  pub apart : AllApart es

pub append-IsPlaced :
    (lo mid mid' hi height : ℕ) (xs ys : List PlacementEntry)
    → lo ≤ mid'
    → mid ≤ mid'
    → mid ≤ hi
    → IsPlaced lo mid height xs
    → IsPlaced mid' hi height ys
    → IsPlaced lo hi height (xs ++ ys)
append-IsPlaced lo mid mid' hi height xs ys l m u px py = record {
  in_x =
      All-append (InX lo hi) xs ys (InX-weaken lo mid lo hi xs (omega arith) u px.in_x)
        (InX-weaken mid' hi lo hi ys l (omega arith) py.in_x);
  in_y = All-append (InY 0 height) xs ys px.in_y py.in_y;
  apart =
      AllApart-append xs ys px.apart py.apart (InX-Apart lo mid mid' hi xs ys m px.in_x py.in_x);
}

module _ (pixel : ℕ) (dims : List (Str × Wh)) where
  -- The offset and the height of the bounding box do not shrink.
  place_columns-grows :
      (first : Bool) (x w h : ℕ) (columns : List (List PlacementMeta))
      → (x ≤ (place_columns pixel dims first x w h columns).1)
        × (h ≤ (place_columns pixel dims first x w h columns).3)
  unfolding place_columns
  place_columns-grows first x w h [] = (omega arith, omega arith)
  place_columns-grows first x w h (metas ∷ columns) =
      let width = column_width pixel dims metas in
      let (grows, taller) =
        place_columns-grows false (x + (width + h_padding pixel dims))
          (w + (width + (if first then 0 else h_padding pixel dims)))
          (max h (end_y pixel dims 0 metas - v_padding pixel dims)) columns in
      (omega (arith, grows), ground (arith, taller))

  centered-IsPlaced :
      (x height : ℕ) (metas : List PlacementMeta)
      → column_height pixel dims true metas ≤ height
      → IsPlaced x (x + column_width pixel dims metas) height (
          shift_entries
            (pos 0)
            ((height - column_height pixel dims true metas) / 2)
            (column_entries pixel dims x 0 metas))
  centered-IsPlaced x height metas le =
      let es = column_entries pixel dims x 0 metas in
      let own = column_height pixel dims true metas in
      let down = (height - own) / 2 in
      record {
        in_x =
            shift-InX down x (x + column_width pixel dims metas) es
              (column_entries-InX pixel dims x 0 metas);
        in_y =
            InY-weaken (0 + down) (0 + own + down) 0 height (shift_entries (pos 0) down es)
              (omega arith) (omega arith)
              (shift-InY (pos 0) down 0 (0 + own) es (column_entries-InY pixel dims x 0 metas));
        apart = shift-AllApart (pos 0) down es (column_entries-AllApart pixel dims x 0 metas);
      }

  place_columns-IsPlaced :
      (first : Bool) (x w h height : ℕ) (columns : List (List PlacementMeta))
      → (place_columns pixel dims first x w h columns).3 ≤ height
      → IsPlaced x
          (place_columns pixel dims first x w h columns).1
          height
          (center_columns height (place_columns pixel dims first x w h columns).0)
  unfolding place_columns center_columns
  place_columns-IsPlaced first x w h height [] le = record { in_x = tt; in_y = tt; apart = tt }
  place_columns-IsPlaced first x w h height (metas ∷ columns) le =
      let width = column_width pixel dims metas in
      let x' = x + (width + h_padding pixel dims) in
      let w' = w + (width + (if first then 0 else h_padding pixel dims)) in
      let h' = max h (end_y pixel dims 0 metas - v_padding pixel dims) in
      let (grows, taller) = place_columns-grows false x' w' h' columns in
      let fits : column_height pixel dims true metas ≤ height =
        ground (arith, column_height-end_y pixel dims metas, taller, le) in
      append-IsPlaced x (x + width) x' (place_columns pixel dims false x' w' h' columns).1 height _
        _ (omega arith) (omega arith) (omega (arith, grows)) (centered-IsPlaced x height metas fits)
        (place_columns-IsPlaced false x' w' h' height columns le)

  -- The entries of the groups, one after the other
  abbrev pub all_entries : List (PlacementKind × EntriesGroup) → List PlacementEntry
  all_entries [] = []
  all_entries ((_, g) ∷ groups) = g.entries ++ all_entries groups

  abbrev pub Kinds : Type 0
  Kinds = List (PlacementKind × List (List PlacementMeta))

  place_kinds-taller :
      (columns : Kinds) (x entire : ℕ) (kinds : List PlacementKind)
      → entire ≤ (place_kinds pixel dims columns x entire kinds).1
  unfolding place_kinds
  place_kinds-taller columns x entire [] = omega arith
  place_kinds-taller columns x entire (kind ∷ kinds) = elim (Option-cases (get kind columns)) [
    | inl missing ↦ ground (arith, missing, place_kinds-taller columns x entire kinds)
    | inr (own, found) ↦
        let placed = place_columns pixel dims true x 0 0 own in
        ground (arith, found, place_kinds-taller columns placed.1 (max entire placed.3) kinds)
  ]

  pub place_kinds-missing :
      (columns : Kinds) (x entire : ℕ) (kind : PlacementKind) (kinds : List PlacementKind)
      → get kind columns ≡ none
      → place_kinds pixel dims columns x entire (kind ∷ kinds)
        ≡ place_kinds pixel dims columns x entire kinds
  unfolding place_kinds
  place_kinds-missing columns x entire kind kinds e = rw (e, place_kinds)

  pub place_kinds-found :
      (columns : Kinds) (x entire : ℕ) (kind : PlacementKind) (kinds : List PlacementKind)
      (own : List (List PlacementMeta))
      → get kind columns ≡ some own
      → place_kinds pixel dims columns x entire (kind ∷ kinds) ≡ (
          let (placed, x', w, h) = place_columns pixel dims true x 0 0 own in
          let (groups, entire') = place_kinds pixel dims columns x' (max entire h) kinds in
          ((kind, record { columns = placed; x = x; w = w; h = h }) ∷ groups, entire'))
  unfolding place_kinds
  place_kinds-found columns x entire kind kinds own e = rw (e, place_kinds)

  -- The groups stand side by side, and no two of their entries overlap.
  pub place_kinds-IsPlaced :
      (columns : Kinds) (x entire height : ℕ) (kinds : List PlacementKind)
      → (place_kinds pixel dims columns x entire kinds).1 ≤ height
      → (hi : ℕ) × (x ≤ hi)
        × IsPlaced x hi height
            (all_entries (center_groups height (place_kinds pixel dims columns x entire kinds).0))
  unfolding center_groups
  place_kinds-IsPlaced columns x entire height [] le =
      unfold place_kinds center_groups in
      (x, omega arith, record { in_x = tt; in_y = tt; apart = tt })
  place_kinds-IsPlaced columns x entire height (kind ∷ kinds) le =
      elim (Option-cases (get kind columns)) [
        | inl missing ↦
            let same = place_kinds-missing columns x entire kind kinds missing in
            rw same (
              place_kinds-IsPlaced columns x entire height kinds
                (subst (λ r. r.1 ≤ height) same le))
        | inr (own, found) ↦
            let same = place_kinds-found columns x entire kind kinds own found in
            let le' = subst (λ r. r.1 ≤ height) same le in
            let placed = place_columns pixel dims true x 0 0 own in
            let next = max entire placed.3 in
            let taller = place_kinds-taller columns placed.1 next kinds in
            let (hi, grows, rest) = place_kinds-IsPlaced columns placed.1 next height kinds le' in
            let fits : placed.3 ≤ height = ground (arith, taller, le') in
            rw same (
              hi,
              omega (arith, grows, (place_columns-grows true x 0 0 own).0),
              append-IsPlaced x placed.1 placed.1 hi height _ _
                  (place_columns-grows true x 0 0 own).0 (omega arith) grows
                  (place_columns-IsPlaced true x 0 0 height own fits) rest,
            )
      ]
