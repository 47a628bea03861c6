-- ===== src/Placement/Coordinates.antt =====
-- src/ui-layer/service-map/coordinates/placement.ts: the coordinates of the cards. Lengths are natural
-- numbers of a unit, of which a pixel has `pixel`, such that the halves that the code takes are
-- exact; only horizontal coordinates can be negative.
pub mod Apart
pub mod Align
pub mod Kinds
pub mod Laws
use hubble_ui.Prelude.{
  ℕ, ◌+◌, ◌-◌, ◌*◌, ◌/◌, suc, Bool, true, false, not, ◌&&◌, Option, none, some, List, [], ◌∷◌, ◌++◌,
  map, Str, str_Eq, leb, ltb, ◌==◌, if◌then◌else◌,
}
use hubble_ui.Prelude.Int.{ℤ, pos, negsuc, sub_ℕ, ◌+ℤ◌}
use hubble_ui.Prelude.Maps.{get, put}
use hubble_ui.ServiceMap.Card
use hubble_ui.ServiceMap.Card.{Card}
use hubble_ui.Placement.Groups.{
  PlacementKind, kind_Eq, from_world, to_world, another_namespace, inside_with_connections,
  inside_without_connections, PlacementMeta, placement_groups,
}
use hubble_ui.Placement.Columns.{build_placement_columns}

pub record Wh : Type 0 where
  pub w : ℕ
  pub h : ℕ

pub record Xywh : Type 0 where
  pub x : ℤ
  pub y : ℕ
  pub w : ℕ
  pub h : ℕ

pub record PlacementEntry : Type 0 where
  pub kind : PlacementKind
  pub card : Card
  pub geometry : Xywh

-- A column of entries with its height
abbrev pub Column : Type 0
Column = List PlacementEntry × ℕ

-- The columns of one kind; `x`, `w` and `h` are those of its bounding box.
pub record Group : Type 0 where
  pub columns : List Column
  pub x : ℕ
  pub w : ℕ
  pub h : ℕ

abbrev pub max : ℕ → ℕ → ℕ
max a b = if leb a b then b else a

abbrev pub half : ℤ → ℤ
half (pos n) = pos (n / 2)
half (negsuc n) = sub_ℕ 0 (suc n / 2)

unfoldable pub shift_entries : ℤ → ℕ → List PlacementEntry → List PlacementEntry
unfolding ◌+ℤ◌
shift_entries dx dy [] = []
shift_entries dx dy (e ∷ es) =
    record e { geometry = record e.geometry { x = e.geometry.x +ℤ dx; y = e.geometry.y + dy } }
    ∷ shift_entries dx dy es

module _ (pixel : ℕ) (dims : List (Str × Wh)) where
  -- `endpointVPadding` and `endpointHPadding` of src/ui/vars.ts
  abbrev pub v_padding : ℕ
  v_padding = 200 * pixel

  abbrev pub h_padding : ℕ
  h_padding = 200 * pixel

  -- The dimensions of a card, 560 x 0 if they are not known
  abbrev pub wh_of : PlacementMeta → Wh
  wh_of meta = elim (get (Card.id meta.card) dims) [
    | some wh ↦ wh
    | none ↦ record { w = 560 * pixel; h = 0 }
  ]

  -- The loop over one column: its entries from a height on, its width, its height, and where the
  -- offset comes to
  unfoldable pub column_entries : ℕ → ℕ → List PlacementMeta → List PlacementEntry
  unfolding get Card.id
  column_entries x y [] = []
  column_entries x y (meta ∷ metas) =
      let wh = wh_of meta in
      record {
        kind = meta.kind;
        card = meta.card;
        geometry = record { x = pos x; y = y; w = wh.w; h = wh.h };
      }
      ∷ column_entries x (y + (wh.h + v_padding)) metas

  unfoldable pub column_width : List PlacementMeta → ℕ
  unfolding get Card.id
  column_width [] = 0
  column_width (meta ∷ metas) = max (wh_of meta).w (column_width metas)

  unfoldable pub column_height : Bool → List PlacementMeta → ℕ
  unfolding get Card.id
  column_height first [] = 0
  column_height first (meta ∷ metas) =
      (wh_of meta).h + (if first then 0 else v_padding) + column_height false metas

  unfoldable pub end_y : ℕ → List PlacementMeta → ℕ
  unfolding get Card.id
  end_y y [] = y
  end_y y (meta ∷ metas) = end_y (y + ((wh_of meta).h + v_padding)) metas

  -- The loop over the columns of a kind, from an offset on: the columns, where the offset comes to,
  -- and the width and the height of the bounding box
  unfoldable pub place_columns :
      Bool → ℕ → ℕ → ℕ → List (List PlacementMeta) → List Column × ℕ × ℕ × ℕ
  unfolding column_entries column_width column_height end_y
  place_columns first x w h [] = ([], x, w, h)
  place_columns first x w h (metas ∷ columns) =
      let width = column_width metas in
      let (placed, x', w', h') =
        place_columns false (x + (width + h_padding))
          (w + (width + (if first then 0 else h_padding))) (max h (end_y 0 metas - v_padding))
          columns in
      ((column_entries x 0 metas, column_height true metas) ∷ placed, x', w', h')

  -- The loop over the kinds: their groups, and the height of all of them
  unfoldable pub place_kinds :
      List (PlacementKind × List (List PlacementMeta))
      → ℕ
      → ℕ
      → List PlacementKind
      → List (PlacementKind × Group) × ℕ
  unfolding place_columns get
  place_kinds columns x entire [] = ([], entire)
  place_kinds columns x entire (kind ∷ kinds) = elim (get kind columns) [
    | none ↦ place_kinds columns x entire kinds
    | some own ↦
        let (placed, x', w, h) = place_columns true x 0 0 own in
        let (groups, entire') = place_kinds columns x' (max entire h) kinds in
        ((kind, record { columns = placed; x = x; w = w; h = h }) ∷ groups, entire')
  ]

-- Each column is moved to the middle of the height of all.
unfoldable pub center_columns : ℕ → List Column → List PlacementEntry
unfolding shift_entries
center_columns entire [] = []
center_columns entire ((entries, height) ∷ columns) =
    shift_entries (pos 0) ((entire - height) / 2) entries ++ center_columns entire columns

-- What `alignColumns` gives for a kind: the entries, and the bounding box
pub record EntriesGroup : Type 0 where
  pub entries : List PlacementEntry
  pub x : ℕ
  pub w : ℕ
  pub h : ℕ

unfoldable pub center_groups :
    ℕ → List (PlacementKind × Group) → List (PlacementKind × EntriesGroup)
unfolding center_columns
center_groups entire [] = []
center_groups entire ((kind, g) ∷ groups) =
    (kind, record { entries = center_columns entire g.columns; x = g.x; w = g.w; h = g.h })
    ∷ center_groups entire groups

-- The entries of a group, if it is there, moved; and its height
abbrev pub entries_of : Option EntriesGroup → List PlacementEntry
entries_of none = []
entries_of (some g) = g.entries

abbrev pub height_of : Option EntriesGroup → ℕ
height_of none = 0
height_of (some g) = g.h

-- `shiftToInsideCenter`, if the cards inside are there
abbrev pub center_shift : Option EntriesGroup → EntriesGroup → ℤ
center_shift none g = pos 0
center_shift (some inside) g = half (sub_ℕ (inside.x + inside.x + inside.w) (g.x + g.x + g.w))

abbrev pub shift_of : Option EntriesGroup → Option EntriesGroup → ℤ
shift_of inside none = pos 0
shift_of inside (some g) = center_shift inside g

module _ (pixel : ℕ) (dims : List (Str × Wh))
    (columns : List (PlacementKind × List (List PlacementMeta))) where
  unfoldable pub align_columns : List PlacementKind → List (PlacementKind × EntriesGroup)
  unfolding place_kinds center_groups
  align_columns kinds =
      let (groups, entire) = place_kinds pixel dims columns 0 0 kinds in center_groups entire groups

  -- Twice `namespaceBackplatePadding`
  abbrev pub backplate : ℕ
  backplate = 2 * (200 * pixel)

  abbrev pub below : Option EntriesGroup → ℕ
  below none = 0
  below (some g) = g.h + backplate

  -- The entries in the order in which they are put into the map
  unfoldable pub placed_entries : List PlacementEntry
  unfolding align_columns shift_entries get
  placed_entries =
      let to_outside = get to_world (align_columns (to_world ∷ [])) in
      let middle =
        align_columns (from_world ∷ inside_with_connections ∷ inside_without_connections ∷ []) in
      let from_outside = get from_world middle in
      let inside = get inside_with_connections middle in
      let inside_alone = get inside_without_connections middle in
      let another = get another_namespace (align_columns (another_namespace ∷ [])) in
      let top = below to_outside in
      let middle_height =
        max (max (height_of from_outside) (height_of inside)) (height_of inside_alone) in
      let bottom = top + (if ltb 0 middle_height then middle_height + backplate else 0) in
      shift_entries (shift_of inside to_outside) 0 (entries_of to_outside)
      ++ (shift_entries (pos 0) top (entries_of from_outside)
          ++ (shift_entries (pos 0) top (entries_of inside)
              ++ (shift_entries (pos 0) top (entries_of inside_alone)
                  ++ shift_entries (shift_of inside another) bottom (entries_of another))))

-- `placement.set(entry.card.id, entry)`
unfoldable pub put_entries :
    List PlacementEntry → List (Str × PlacementEntry) → List (Str × PlacementEntry)
unfolding put Card.id
put_entries [] m = m
put_entries (e ∷ es) m = put_entries es (put (Card.id e.card) e m)

unfoldable pub assign_coordinates :
    ℕ
    → List (Str × Wh)
    → List (PlacementKind × List (List PlacementMeta))
    → List (Str × PlacementEntry)
unfolding placed_entries put_entries
assign_coordinates pixel dims columns = put_entries (placed_entries pixel dims columns) []

-- The columns of the kinds that are shown
unfoldable pub columns_of :
    Bool
    → List (PlacementKind × List PlacementMeta)
    → List (PlacementKind × List (List PlacementMeta))
unfolding build_placement_columns
columns_of skip [] = []
columns_of skip ((kind, plcs) ∷ groups) =
    let rest = columns_of skip groups in
    if skip && kind == another_namespace then rest else (kind, build_placement_columns plcs) ∷ rest
