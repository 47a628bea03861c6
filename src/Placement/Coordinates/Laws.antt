-- ===== src/Placement/Coordinates/Laws.antt =====
-- src/ui-layer/service-map/coordinates/placement.ts: the placed cards, all in all.
use mathlib.Core.List.{append-nil, append_assoc}
use hubble_ui.Prelude.{
  ℕ, ◌+◌, ◌≤◌, ◌≡◌, refl, subst, true, false, Option, none, some, List, [], ◌∷◌, ◌++◌, Str, str_Eq,
  All, All-append, arith, ltb, if◌then◌else◌, Bool-cases, inl, inr, ◌==◌, ◌⊎◌, eq_iff,
}
use hubble_ui.Prelude.Int.{ℤ, pos}
use hubble_ui.Prelude.Maps.{get, put, get-put}
use hubble_ui.Prelude.Sets.{has, IsDistinct}
use hubble_ui.ServiceMap.Card
use hubble_ui.Placement.Groups.{
  PlacementKind, kind_Eq, PlacementMeta, from_world, to_world, another_namespace,
  inside_with_connections, inside_without_connections,
}
use hubble_ui.Placement.Coordinates.{
  Wh, PlacementEntry, EntriesGroup, max, shift_entries, align_columns, entries_of, height_of, below,
  backplate, shift_of, placed_entries, put_entries, assign_coordinates,
}
use hubble_ui.Placement.Coordinates.Apart.{
  Apart, Apart-sym, AllApart, InY, AllApart-append, InY-Apart, InY-weaken, shift-AllApart,
  shift-InY, shift_entries-append,
}
use hubble_ui.Placement.Coordinates.Align.{IsPlaced}
use hubble_ui.Placement.Coordinates.Kinds.{align_columns-IsPlaced}

-- Three layers, one below the other, do not overlap, however they are moved sideways.
layers-AllApart :
    (dx dx' : ℤ) (top bottom height middle_height another_height : ℕ)
    (xs ys zs : List PlacementEntry)
    → height ≤ top
    → top + middle_height ≤ bottom
    → All (InY 0 height) xs
    → All (InY 0 middle_height) ys
    → All (InY 0 another_height) zs
    → AllApart xs
    → AllApart ys
    → AllApart zs
    → AllApart
        (shift_entries dx 0 xs ++ (shift_entries (pos 0) top ys ++ shift_entries dx' bottom zs))
layers-AllApart dx dx' top bottom height middle_height another_height xs ys zs le le' ix iy iz ax ay
      az =
    let jx = shift-InY dx 0 0 height xs ix in
    let jy = shift-InY (pos 0) top 0 middle_height ys iy in
    let jz = shift-InY dx' bottom 0 another_height zs iz in
    let lower =
      AllApart-append (shift_entries (pos 0) top ys) (shift_entries dx' bottom zs)
        (shift-AllApart (pos 0) top ys ay) (shift-AllApart dx' bottom zs az)
        (InY-Apart (0 + top) (middle_height + top) (0 + bottom) (another_height + bottom) _ _
          (omega arith) jy jz) in
    AllApart-append (shift_entries dx 0 xs) _ (shift-AllApart dx 0 xs ax) lower (
      InY-Apart (0 + 0) (height + 0) top (middle_height + top + (another_height + bottom)) _ _
        (omega arith) jx
        (All-append (InY top _) _ _
          (InY-weaken (0 + top) (middle_height + top) top _ _ (omega arith) (omega arith) jy)
          (InY-weaken (0 + bottom) (another_height + bottom) top _ _ (omega arith) (omega arith)
            jz)))

middle_kinds-IsDistinct :
    IsDistinct (from_world ∷ inside_with_connections ∷ inside_without_connections ∷ [])
unfolding has
middle_kinds-IsDistinct = (refl, (refl, (refl, tt)))

-- The same with a middle layer in three parts
parts-AllApart :
    (dx dx' : ℤ) (top bottom height middle_height another_height : ℕ)
    (xs us vs ws zs : List PlacementEntry)
    → height ≤ top
    → top + middle_height ≤ bottom
    → All (InY 0 height) xs
    → All (InY 0 middle_height) (us ++ (vs ++ (ws ++ [])))
    → All (InY 0 another_height) zs
    → AllApart xs
    → AllApart (us ++ (vs ++ (ws ++ [])))
    → AllApart zs
    → AllApart (
        shift_entries dx 0 xs
        ++ (shift_entries (pos 0) top us
            ++ (shift_entries (pos 0) top vs
                ++ (shift_entries (pos 0) top ws ++ shift_entries dx' bottom zs))))
parts-AllApart dx dx' top bottom height middle_height another_height xs us vs ws zs le le' ix iy iz
      ax ay az =
    let down = shift_entries (pos 0) top in
    let joined : down (us ++ (vs ++ (ws ++ []))) ++ shift_entries dx' bottom zs
        ≡ down us ++ (down vs ++ (down ws ++ shift_entries dx' bottom zs)) =
      simp (shift_entries-append, append_assoc, append-nil) in
    subst (λ es. AllApart (shift_entries dx 0 xs ++ es)) joined
      (layers-AllApart dx dx' top bottom height middle_height another_height xs
        (us ++ (vs ++ (ws ++ []))) zs le le' ix iy iz ax ay az)

max-zero : (n : ℕ) → max n 0 ≡ n
max-zero n = ground arith

-- The lowest layer starts below the middle one.
bottom-le :
    (a b c top margin : ℕ)
    → top + max a (max b (max c 0))
      ≤ top + (if ltb 0 (max (max a b) c) then max (max a b) c + margin else 0)
bottom-le a b c top margin = ground arith

height-le : (g : Option EntriesGroup) (pixel : ℕ) → height_of g ≤ below pixel [] [] g
height-le none pixel = omega arith
height-le (some g) pixel = omega arith

module _ (pixel : ℕ) (dims : List (Str × Wh))
    (columns : List (PlacementKind × List (List PlacementMeta))) where
  single-IsPlaced :
      (kind : PlacementKind)
      → let g = get kind (align_columns pixel dims columns (kind ∷ [])) in
        (hi : ℕ) × IsPlaced 0 hi (height_of g) (entries_of g)
  single-IsPlaced kind =
      let g = get kind (align_columns pixel dims columns (kind ∷ [])) in
      let (hi, placed) =
        align_columns-IsPlaced pixel dims columns (kind ∷ []) (unfold has in (refl, tt)) in
      (
        hi,
        subst (λ es. IsPlaced 0 hi (height_of g) es) (append-nil (entries_of g))
            (subst (λ h. IsPlaced 0 hi h (entries_of g ++ [])) (max-zero (height_of g)) placed),
      )

  placed_entries-AllApart : AllApart (placed_entries pixel dims columns)
  unfolding placed_entries
  placed_entries-AllApart =
      let to_outside = get to_world (align_columns pixel dims columns (to_world ∷ [])) in
      let middle =
        align_columns pixel dims columns
          (from_world ∷ inside_with_connections ∷ inside_without_connections ∷ []) in
      let outside = get from_world middle in
      let inside = get inside_with_connections middle in
      let alone = get inside_without_connections middle in
      let another =
        get another_namespace (align_columns pixel dims columns (another_namespace ∷ [])) in
      let (_, px) = single-IsPlaced to_world in
      let (_, py) =
        align_columns-IsPlaced pixel dims columns
          (from_world ∷ inside_with_connections ∷ inside_without_connections ∷ [])
          middle_kinds-IsDistinct in
      let (_, pz) = single-IsPlaced another_namespace in
      parts-AllApart (shift_of inside to_outside) (shift_of inside another)
        (below pixel dims columns to_outside) _ (height_of to_outside)
        (max (height_of outside) (max (height_of inside) (max (height_of alone) 0)))
        (height_of another) (entries_of to_outside) (entries_of outside) (entries_of inside)
        (entries_of alone) (entries_of another) (height-le to_outside pixel)
        (bottom-le (height_of outside) (height_of inside) (height_of alone)
          (below pixel dims columns to_outside) (backplate pixel dims columns))
        px.in_y py.in_y pz.in_y px.apart py.apart pz.apart

-- Entries under different keys do not overlap, and none overlaps an entry that is still to be put.
record IsClear (es : List PlacementEntry) (m : List (Str × PlacementEntry)) : Type 0 where
  among :
      (i j : Str) (a b : PlacementEntry)
      → (i == j) ≡ false
      → get i m ≡ some a
      → get j m ≡ some b
      → Apart a b
  before : (i : Str) (a : PlacementEntry) → get i m ≡ some a → All (Apart a) es
  ahead : AllApart es

get-put-cases :
    (k i : Str) (e a : PlacementEntry) (m : List (Str × PlacementEntry))
    → get i (put k e m) ≡ some a
    → (((k == i) ≡ true) × (e ≡ a)) ⊎ (get i m ≡ some a)
get-put-cases k i e a m p = elim (Bool-cases (k == i)) [
  | inl this ↦ inl (this, ground (arith, p, get-put k i e m))
  | inr other ↦ inr (ground (arith, p, get-put k i e m))
]

put-IsClear :
    (e : PlacementEntry) (es : List PlacementEntry) (m : List (Str × PlacementEntry))
    → IsClear (e ∷ es) m
    → IsClear es (put (Card.id e.card) e m)
put-IsClear e es m h = record {
  among = λ i j a b ne p q. elim (get-put-cases (Card.id e.card) i e a m p) [
    | inl (here, this) ↦ elim (get-put-cases (Card.id e.card) j e b m q) [
      | inl (there, _) ↦
          absurd (ground (arith, eq_iff (Card.id e.card) i, eq_iff (Card.id e.card) j, eq_iff i j))
      | inr old ↦ subst (λ x. Apart x b) this (Apart-sym b e (h.before j b old).0)
    ]
    | inr older ↦ elim (get-put-cases (Card.id e.card) j e b m q) [
      | inl (there, this) ↦ subst (λ x. Apart a x) this (h.before i a older).0
      | inr old ↦ h.among i j a b ne older old
    ]
  ];
  before = λ i a p. elim (get-put-cases (Card.id e.card) i e a m p) [
    | inl (_, this) ↦ subst (λ x. All (Apart x) es) this h.ahead.0
    | inr older ↦ (h.before i a older).1
  ];
  ahead = h.ahead.1;
}

put_entries-Apart :
    (es : List PlacementEntry) (m : List (Str × PlacementEntry))
    → IsClear es m
    → (i j : Str) (a b : PlacementEntry) → (i == j) ≡ false
    → get i (put_entries es m) ≡ some a
    → get j (put_entries es m) ≡ some b
    → Apart a b
unfolding put_entries
put_entries-Apart [] m h i j a b ne p q = h.among i j a b ne p q
put_entries-Apart (e ∷ es) m h i j a b ne p q =
    put_entries-Apart es (put (Card.id e.card) e m) (put-IsClear e es m h) i j a b ne p q

-- No two cards of the map are placed over one another, whatever their dimensions are: of the places
-- of two different cards, one is left of the other or above it.
pub assign_coordinates-Apart :
    (pixel : ℕ) (dims : List (Str × Wh))
    (columns : List (PlacementKind × List (List PlacementMeta))) (i j : Str) (a b : PlacementEntry)
    → (i == j) ≡ false
    → get i (assign_coordinates pixel dims columns) ≡ some a
    → get j (assign_coordinates pixel dims columns) ≡ some b
    → Apart a b
unfolding assign_coordinates
assign_coordinates-Apart pixel dims columns i j a b ne p q =
    put_entries-Apart (placed_entries pixel dims columns) []
      (record {
        among = λ i j a b ne p q. absurd (ground (arith, p));
        before = λ i a p. absurd (ground (arith, p));
        ahead = placed_entries-AllApart pixel dims columns;
      })
      i j a b ne p q
