-- ===== src/Status/Center/Moves.antt =====
-- src/ui-layer/status-center.ts: entries that are moved to the top of the log.
use hubble_ui.Prelude.{
  ℕ, ◌+◌, ◌≡◌, Bool, none, some, List, [], ◌∷◌, ◌++◌, Str, str_Eq, nat_Eq, List-cases, leb, length,
  length-append, arith, Bool-cases, Option-cases, inl, inr, refl, ◌||◌,
}
use hubble_ui.Prelude.Maps.{get, get-delete}
use hubble_ui.Prelude.Sets.{has, has-append}
use hubble_ui.Status.Center.{
  StatusCenter, splice_first, push_limited, append_entry, is_entry, move_existing_entry_to_top,
  move_each,
}
use hubble_ui.Status.Center.Invariant.{IsConsistent}

has-splice_first :
    (p : ℕ → Bool) (xs rest : List ℕ) (x a : ℕ)
    → splice_first p xs ≡ some (x, rest)
    → has a xs ≡ (has a (x ∷ []) || has a rest)
unfolding splice_first has
has-splice_first p [] rest x a e = cc
has-splice_first p (y ∷ ys) rest x a e = elim (Bool-cases (p y)) [
  | inl here ↦ ground arith
  | inr later ↦ elim (Option-cases (splice_first p ys)) [
    | inl nowhere ↦ ground arith
    | inr ((z, zs), found) ↦ ground (arith, has-splice_first p ys zs z a found)
  ]
]

length-splice_first :
    (p : ℕ → Bool) (xs rest : List ℕ) (x : ℕ)
    → splice_first p xs ≡ some (x, rest)
    → length xs ≡ length rest + 1
unfolding splice_first
length-splice_first p [] rest x e = cc
length-splice_first p (y ∷ ys) rest x e = elim (Bool-cases (p y)) [
  | inl here ↦ ground arith
  | inr later ↦ elim (Option-cases (splice_first p ys)) [
    | inl nowhere ↦ ground arith
    | inr ((z, zs), found) ↦ ground (arith, length-splice_first p ys zs z found)
  ]
]

module _ (hash : ℕ → Str) where
  append_moved-IsConsistent :
      (xs : List ℕ) (x : ℕ) (rest : List ℕ) (c : StatusCenter)
      → length c.notifications ≡ length rest + 1
      → ((a : ℕ) → has a c.notifications ≡ (has a (x ∷ []) || has a rest))
      → IsConsistent xs c
      → IsConsistent xs (append_entry x (record c { notifications = rest }))
  unfolding has
  append_moved-IsConsistent xs x rest c same_length same h = record {
    well_keyed = h.well_keyed;
    listed = λ k a g. ground (
      arith,
      h.listed k a g,
      same a,
      has-append a xs c.notifications,
      has-append a xs (rest ++ x ∷ []),
      has-append a rest (x ∷ []),
    );
    made = h.made;
    roomy = h.roomy;
    bounded = omega (arith, h.bounded, same_length, length-append {0} rest (x ∷ []));
  }

  -- The log has room for an entry that was taken out of it.
  move_existing_entry_to_top-IsConsistent :
      (xs : List ℕ) (entry : ℕ) (c : StatusCenter)
      → IsConsistent xs c
      → (c' : StatusCenter) × (move_existing_entry_to_top hash entry c ≡ some c')
        × IsConsistent xs c'
  unfolding move_existing_entry_to_top push_limited
  move_existing_entry_to_top-IsConsistent xs entry c h =
      elim (Option-cases (splice_first (is_entry hash c.heap entry) c.notifications)) [
        | inl nowhere ↦ (c, ground (arith, nowhere), h)
        | inr ((x, rest), found) ↦
            let same_length = length-splice_first _ c.notifications rest x found in
            (
              append_entry x (record c { notifications = rest }),
              ground (arith, found, same_length, h.bounded),
              append_moved-IsConsistent xs x rest c same_length
                  (λ a. has-splice_first _ c.notifications rest x a found) h,
            )
      ]

  pub move_each-IsConsistent :
      (xs entries : List ℕ) (c : StatusCenter)
      → IsConsistent xs c
      → (c' : StatusCenter) × (move_each hash entries c ≡ some c') × IsConsistent xs c'
  unfolding move_each
  move_each-IsConsistent xs [] c h = (c, refl, h)
  move_each-IsConsistent xs (entry ∷ entries) c h =
      let (c1, moved, h1) = move_existing_entry_to_top-IsConsistent xs entry c h in
      let (c2, moved_all, h2) = move_each-IsConsistent xs entries c1 h1 in
      (c2, ground (arith, moved, moved_all), h2)

  pub push_limited-none :
      (n : ℕ) (c c' : StatusCenter) (j : Str)
      → push_limited hash n c ≡ some c'
      → get j c.keyed_entries ≡ none
      → get j c'.keyed_entries ≡ none
  unfolding push_limited
  push_limited-none n c c' j e g =
      elim (Bool-cases (leb (length c.notifications + 1) c.max_notifications)) [
        | inl fits ↦ ground arith
        | inr full ↦ elim (List-cases c.notifications) [
          | inl empty ↦ ground (arith, empty)
          | inr (r, rest, is_full) ↦ elim (Option-cases (c.heap r).key) [
            | inl no_key ↦ ground (arith, is_full, no_key)
            | inr (k, has_key) ↦ ground (arith, is_full, has_key, get-delete k j c.keyed_entries)
          ]
        ]
      ]

  pub move_each-none :
      (entries : List ℕ) (c c' : StatusCenter) (j : Str)
      → move_each hash entries c ≡ some c'
      → get j c.keyed_entries ≡ none
      → get j c'.keyed_entries ≡ none
  unfolding move_each move_existing_entry_to_top
  move_each-none [] c c' j e g = ground arith
  move_each-none (entry ∷ entries) c c' j e g =
      elim (Option-cases (splice_first (is_entry hash c.heap entry) c.notifications)) [
        | inl nowhere ↦ move_each-none entries c c' j (ground (arith, nowhere)) g
        | inr ((x, rest), found) ↦
            elim (Option-cases (push_limited hash x (record c { notifications = rest }))) [
              | inl failed ↦ ground (arith, found, failed)
              | inr (c1, moved) ↦
                  move_each-none entries c1 c' j (ground (arith, found, moved))
                    (push_limited-none x (record c { notifications = rest }) c1 j moved g)
            ]
      ]
