-- ===== src/Status/Center/Completion.antt =====
-- src/ui-layer/status-center.ts: which keys `completeEntryDescendants` completes.
use hubble_ui.Prelude.{
  ℕ, zero, suc, ◌≡◌, true, none, some, List, [], ◌∷◌, ◌++◌, Str, str_Eq, ◌==◌, ◌||◌, Bool-cases,
  eq_iff, eq_refl, arith, refl, sym, ◌∙◌, ◌⊎◌, if◌then◌else◌, Option-cases, inl, inr,
}
use hubble_ui.Prelude.Maps.{get, get-delete}
use hubble_ui.Prelude.Sets.{has}
use hubble_ui.Status.Center.{StatusCenter, push_keys, complete_entry, complete_keys}
use hubble_ui.Status.Center.Invariant.{IsConsistent, complete_entry-IsConsistent}
use hubble_ui.Status.Center.Termination.{
  completes, complete_keys-missing, complete_keys-found, complete_entry-keyed,
  complete_entry-keys_to_complete,
}

-- The keys that some keys lead to: they themselves, and those that the entries under such keys
-- complete
pub data Chain (c : StatusCenter) (keys : List Str) : Str → Type 0 where
  start : (k : Str) → has k keys ≡ true → Chain c keys k
  next :
      (k j : Str) (d : ℕ)
      → Chain c keys k
      → get k c.keyed_entries ≡ some d
      → has j (completes c d) ≡ true
      → Chain c keys j

pub has-push_keys :
    (j : Str) (more keys : List Str) → has j (push_keys more keys) ≡ (has j more || has j keys)
unfolding push_keys has
has-push_keys j [] keys = refl
has-push_keys j (k ∷ more) keys = ground (arith, has-push_keys j more (k ∷ keys))

-- A key that keys lead to is one of them, or the others lead to it.
Chain-missing :
    (c : StatusCenter) (k : Str) (keys : List Str) (j : Str)
    → get k c.keyed_entries ≡ none
    → Chain c (k ∷ keys) j
    → ((k == j) ≡ true) ⊎ Chain c keys j
unfolding has
Chain-missing c k keys j e (start _ m) = elim (Bool-cases (k == j)) [
  | inl same ↦ inl same
  | inr other ↦ inr (start j (ground arith))
]
Chain-missing c k keys j e (next i _ d ch g m) = elim (Chain-missing c k keys i e ch) [
  | inl same ↦ absurd (ground (arith, eq_iff k i))
  | inr rest ↦ inr (next i j d rest g m)
]

Chain-weaken :
    (c : StatusCenter) (k : Str) (keys : List Str) (j : Str) → Chain c keys j → Chain c (k ∷ keys) j
unfolding has
Chain-weaken c k keys j (start _ m) = start j (ground arith)
Chain-weaken c k keys j (next i _ d ch g m) = next i j d (Chain-weaken c k keys i ch) g m

Chain-empty : (c : StatusCenter) (j : Str) → ¬ Chain c [] j
unfolding has
Chain-empty c j (start _ m) = cc
Chain-empty c j (next i _ d ch g m) = Chain-empty c i ch

module _ (hash : ℕ → Str) (c : StatusCenter) (d : ℕ) (k : Str)
    (has_key : (c.heap d).key ≡ some k) where
  get-complete_entry_key :
      (j : Str)
      → get j (complete_entry hash d c).keyed_entries
        ≡ (if k == j then none else get j c.keyed_entries)
  get-complete_entry_key j =
      rw (complete_entry-keyed hash d c k has_key) (get-delete k j c.keyed_entries)

  -- A key that keys lead to is the first of them, or is led to by what is left after its round.
  Chain-found :
      (keys : List Str) (j : Str)
      → get k c.keyed_entries ≡ some d
      → Chain c (k ∷ keys) j
      → ((k == j) ≡ true) ⊎ Chain (complete_entry hash d c) (push_keys (completes c d) keys) j
  unfolding has
  Chain-found keys j found (start _ m) = elim (Bool-cases (k == j)) [
    | inl same ↦ inl same
    | inr other ↦ inr (start j (ground (arith, has-push_keys j (completes c d) keys)))
  ]
  Chain-found keys j found (next i _ b ch g m) = elim (Bool-cases (k == i)) [
    | inl same ↦
        inr (start j (ground (arith, has-push_keys j (completes c d) keys, eq_iff k i, found, g)))
    | inr other ↦ elim (Chain-found keys i found ch) [
      | inl same ↦ absurd (cc)
      | inr rest ↦ inr (
          next i j b rest (ground (arith, get-complete_entry_key i))
            (rw (complete_entry-keys_to_complete hash d c b) m))
    ]
  ]

  Chain-back :
      (keys : List Str) (j : Str)
      → get k c.keyed_entries ≡ some d
      → Chain (complete_entry hash d c) (push_keys (completes c d) keys) j
      → Chain c (k ∷ keys) j
  unfolding has
  Chain-back keys j found (start _ m) = elim (Bool-cases (has j keys)) [
    | inl old ↦ start j (ground arith)
    | inr new ↦
        next k j d (start k (ground (arith, eq_refl k))) found
          (ground (arith, has-push_keys j (completes c d) keys))
  ]
  Chain-back keys j found (next i _ b ch g m) =
      next i j b (Chain-back keys i found ch) (ground (arith, get-complete_entry_key i))
        (rw (← complete_entry-keys_to_complete hash d c b) m)

module _ (hash : ℕ → Str) where
  -- What stands under a key after the loop stood there before.
  complete_keys-old :
      (fuel : ℕ) (keys : List Str) (c : StatusCenter) (pending : List ℕ) (c' : StatusCenter)
      (pending' : List ℕ) (xs : List ℕ) (j : Str)
      → IsConsistent xs c
      → complete_keys hash fuel keys c pending ≡ some (c', pending')
      → get j c.keyed_entries ≡ none
      → get j c'.keyed_entries ≡ none
  unfolding complete_keys
  complete_keys-old fuel [] c pending c' pending' xs j h e g = ground arith
  complete_keys-old zero (k ∷ keys) c pending c' pending' xs j h e g = cc
  complete_keys-old (suc fuel) (k ∷ keys) c pending c' pending' xs j h e g =
      elim (Option-cases (get k c.keyed_entries)) [
        | inl missing ↦
            complete_keys-old fuel keys c pending c' pending' xs j h
              (sym (complete_keys-missing hash fuel k keys c pending missing) ∙ e) g
        | inr (d, found) ↦
            complete_keys-old fuel (push_keys (completes c d) keys) (complete_entry hash d c)
              (if (c.heap d).is_pending then pending ++ d ∷ [] else pending) c' pending' xs j
              (complete_entry-IsConsistent hash xs d c h)
              (sym (complete_keys-found hash fuel k keys c pending d found) ∙ e)
              (ground (arith, get-complete_entry_key hash c d k (h.well_keyed k d found) j))
      ]

  -- No key that the keys lead to stands after the loop.
  pub complete_keys-Chain :
      (fuel : ℕ) (keys : List Str) (c : StatusCenter) (pending : List ℕ) (c' : StatusCenter)
      (pending' : List ℕ) (xs : List ℕ) (j : Str)
      → IsConsistent xs c
      → complete_keys hash fuel keys c pending ≡ some (c', pending')
      → Chain c keys j
      → get j c'.keyed_entries ≡ none
  unfolding complete_keys
  complete_keys-Chain fuel [] c pending c' pending' xs j h e ch = absurd (Chain-empty c j ch)
  complete_keys-Chain zero (k ∷ keys) c pending c' pending' xs j h e ch = cc
  complete_keys-Chain (suc fuel) (k ∷ keys) c pending c' pending' xs j h e ch =
      elim (Option-cases (get k c.keyed_entries)) [
        | inl missing ↦
            let e' = sym (complete_keys-missing hash fuel k keys c pending missing) ∙ e in
            elim (Chain-missing c k keys j missing ch) [
              | inl same ↦
                  complete_keys-old fuel keys c pending c' pending' xs j h e'
                    (ground (arith, eq_iff k j, missing))
              | inr rest ↦ complete_keys-Chain fuel keys c pending c' pending' xs j h e' rest
            ]
        | inr (d, found) ↦
            let has_key = h.well_keyed k d found in
            let e' = sym (complete_keys-found hash fuel k keys c pending d found) ∙ e in
            let h' = complete_entry-IsConsistent hash xs d c h in
            elim (Chain-found hash c d k has_key keys j found ch) [
              | inl same ↦
                  complete_keys-old fuel (push_keys (completes c d) keys) (complete_entry hash d c)
                    _ c' pending' xs j h' e'
                    (ground (arith, get-complete_entry_key hash c d k has_key j))
              | inr rest ↦
                  complete_keys-Chain fuel (push_keys (completes c d) keys)
                    (complete_entry hash d c)
                    (if (c.heap d).is_pending then pending ++ d ∷ [] else pending) c' pending' xs j
                    h' e' rest
            ]
      ]

  -- Any other key keeps its entry.
  pub complete_keys-other :
      (fuel : ℕ) (keys : List Str) (c : StatusCenter) (pending : List ℕ) (c' : StatusCenter)
      (pending' : List ℕ) (xs : List ℕ) (j : Str)
      → IsConsistent xs c
      → complete_keys hash fuel keys c pending ≡ some (c', pending')
      → (get j c'.keyed_entries ≡ get j c.keyed_entries) ⊎ Chain c keys j
  unfolding complete_keys has
  complete_keys-other fuel [] c pending c' pending' xs j h e = inl (ground arith)
  complete_keys-other zero (k ∷ keys) c pending c' pending' xs j h e = cc
  complete_keys-other (suc fuel) (k ∷ keys) c pending c' pending' xs j h e =
      elim (Option-cases (get k c.keyed_entries)) [
        | inl missing ↦
            let e' = sym (complete_keys-missing hash fuel k keys c pending missing) ∙ e in
            elim (complete_keys-other fuel keys c pending c' pending' xs j h e') [
              | inl same ↦ inl same
              | inr ch ↦ inr (Chain-weaken c k keys j ch)
            ]
        | inr (d, found) ↦
            let has_key = h.well_keyed k d found in
            let e' = sym (complete_keys-found hash fuel k keys c pending d found) ∙ e in
            let h' = complete_entry-IsConsistent hash xs d c h in
            elim (complete_keys-other fuel (push_keys (completes c d) keys)
              (complete_entry hash d c)
              (if (c.heap d).is_pending then pending ++ d ∷ [] else pending) c' pending' xs j h'
              e') [
                | inl same ↦ elim (Bool-cases (k == j)) [
                  | inl this ↦ inr (start j (ground arith))
                  | inr other ↦ inl (ground (arith, get-complete_entry_key hash c d k has_key j))
                ]
                | inr ch ↦ inr (Chain-back hash c d k has_key keys j found ch)
              ]
      ]
