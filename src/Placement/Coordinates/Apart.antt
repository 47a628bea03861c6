-- ===== src/Placement/Coordinates/Apart.antt =====
-- src/ui-layer/service-map/coordinates/placement.ts: entries that do not overlap.
use hubble_ui.Prelude.{
  ℕ, ◌+◌, ◌≤◌, ◌≡◌, refl, ◌⊎◌, inl, inr, List, [], ◌∷◌, ◌++◌, All, All-append, arith,
}
use hubble_ui.Prelude.Int.{ℤ, pos, ◌+ℤ◌, ◌≤ℤ◌, +ℤ_parts}
use hubble_ui.Placement.Coordinates.{PlacementEntry, shift_entries}

-- One is left of the other, or above it.
abbrev pub Apart : PlacementEntry → PlacementEntry → Type 0
Apart e f =
    (e.geometry.x +ℤ pos e.geometry.w ≤ℤ f.geometry.x)
    ⊎ ((f.geometry.x +ℤ pos f.geometry.w ≤ℤ e.geometry.x)
        ⊎ ((e.geometry.y + e.geometry.h ≤ f.geometry.y)
            ⊎ (f.geometry.y + f.geometry.h ≤ e.geometry.y)))

-- No two entries of a list overlap.
abbrev pub AllApart : List PlacementEntry → Type 0
AllApart [] = Unit
AllApart (e ∷ es) = All (Apart e) es × AllApart es

-- The entry lies between two heights, or between two verticals.
abbrev pub InY : ℕ → ℕ → PlacementEntry → Type 0
InY lo hi e = (lo ≤ e.geometry.y) × (e.geometry.y + e.geometry.h ≤ hi)

abbrev pub InX : ℕ → ℕ → PlacementEntry → Type 0
InX lo hi e = (pos lo ≤ℤ e.geometry.x) × (e.geometry.x +ℤ pos e.geometry.w ≤ℤ pos hi)

pub Apart-sym : (e f : PlacementEntry) → Apart e f → Apart f e
Apart-sym e f (inl a) = inr (inl a)
Apart-sym e f (inr (inl a)) = inl a
Apart-sym e f (inr (inr (inl a))) = inr (inr (inr a))
Apart-sym e f (inr (inr (inr a))) = inr (inr (inl a))

pub All-weaken {ℓ κ} :
    {P : PlacementEntry → Type ℓ} {Q : PlacementEntry → Type κ} (es : List PlacementEntry)
    → ((e : PlacementEntry) → P e → Q e)
    → All P es
    → All Q es
All-weaken [] f h = tt
All-weaken (e ∷ es) f (p, h) = (f e p, All-weaken es f h)

pub AllApart-append :
    (xs ys : List PlacementEntry)
    → AllApart xs
    → AllApart ys
    → All (λ e. All (Apart e) ys) xs
    → AllApart (xs ++ ys)
AllApart-append [] ys hx hy c = hy
AllApart-append (x ∷ xs) ys (h, hx) hy (c, cs) =
    (All-append (Apart x) xs ys h c, AllApart-append xs ys hx hy cs)

-- What lies above a height is apart from what lies below it.
pub InY-Apart :
    (lo mid mid' hi : ℕ) (xs ys : List PlacementEntry)
    → mid ≤ mid'
    → All (InY lo mid) xs
    → All (InY mid' hi) ys
    → All (λ e. All (Apart e) ys) xs
InY-Apart lo mid mid' hi xs ys le hx hy =
    All-weaken xs (λ e p. All-weaken ys (λ f q. inr (inr (inl (omega arith)))) hy) hx

pub InX-Apart :
    (lo mid mid' hi : ℕ) (xs ys : List PlacementEntry)
    → mid ≤ mid'
    → All (InX lo mid) xs
    → All (InX mid' hi) ys
    → All (λ e. All (Apart e) ys) xs
InX-Apart lo mid mid' hi xs ys le hx hy =
    All-weaken xs (λ e p. All-weaken ys (λ f q. inl (omega arith)) hy) hx

pub InY-weaken :
    (lo hi lo' hi' : ℕ) (es : List PlacementEntry)
    → lo' ≤ lo
    → hi ≤ hi'
    → All (InY lo hi) es
    → All (InY lo' hi') es
InY-weaken lo hi lo' hi' es l h = All-weaken es (λ e p. (omega arith, omega arith))

pub InX-weaken :
    (lo hi lo' hi' : ℕ) (es : List PlacementEntry)
    → lo' ≤ lo
    → hi ≤ hi'
    → All (InX lo hi) es
    → All (InX lo' hi') es
InX-weaken lo hi lo' hi' es l h = All-weaken es (λ e p. (omega arith, omega arith))

-- The same move keeps entries apart.
shift-Apart :
    (dx : ℤ) (dy : ℕ) (e : PlacementEntry) (es : List PlacementEntry)
    → All (Apart e) es
    → All
        (Apart (record e {
          geometry = record e.geometry { x = e.geometry.x +ℤ dx; y = e.geometry.y + dy };
        }))
        (shift_entries dx dy es)
unfolding shift_entries
shift-Apart dx dy e [] h = tt
shift-Apart dx dy e (f ∷ es) (inl a, h) = (inl (omega (arith, +ℤ_parts)), shift-Apart dx dy e es h)
shift-Apart dx dy e (f ∷ es) (inr (inl a), h) =
    (inr (inl (omega (arith, +ℤ_parts))), shift-Apart dx dy e es h)
shift-Apart dx dy e (f ∷ es) (inr (inr (inl a)), h) =
    (inr (inr (inl (omega arith))), shift-Apart dx dy e es h)
shift-Apart dx dy e (f ∷ es) (inr (inr (inr a)), h) =
    (inr (inr (inr (omega arith))), shift-Apart dx dy e es h)

pub shift-AllApart :
    (dx : ℤ) (dy : ℕ) (es : List PlacementEntry) → AllApart es → AllApart (shift_entries dx dy es)
unfolding shift_entries
shift-AllApart dx dy [] h = tt
shift-AllApart dx dy (e ∷ es) (a, h) = (shift-Apart dx dy e es a, shift-AllApart dx dy es h)

pub shift-InY :
    (dx : ℤ) (dy lo hi : ℕ) (es : List PlacementEntry)
    → All (InY lo hi) es
    → All (InY (lo + dy) (hi + dy)) (shift_entries dx dy es)
unfolding shift_entries
shift-InY dx dy lo hi [] h = tt
shift-InY dx dy lo hi (e ∷ es) (p, h) = ((omega arith, omega arith), shift-InY dx dy lo hi es h)

pub shift-InX :
    (dy lo hi : ℕ) (es : List PlacementEntry)
    → All (InX lo hi) es
    → All (InX lo hi) (shift_entries (pos 0) dy es)
unfolding shift_entries
shift-InX dy lo hi [] h = tt
shift-InX dy lo hi (e ∷ es) (p, h) =
    ((omega (arith, +ℤ_parts), omega (arith, +ℤ_parts)), shift-InX dy lo hi es h)

pub shift_entries-append :
    (dx : ℤ) (dy : ℕ) (xs ys : List PlacementEntry)
    → shift_entries dx dy (xs ++ ys) ≡ shift_entries dx dy xs ++ shift_entries dx dy ys
unfolding shift_entries
shift_entries-append dx dy [] ys = refl
shift_entries-append dx dy (x ∷ xs) ys = rw (shift_entries-append dx dy xs ys)
