-- ===== src/Status/Center/Results.antt =====
-- src/ui-layer/status-center.ts: what a push leaves under the keys.
use hubble_ui.Prelude.{
  ℕ, ◌+◌, ◌<◌, ◌≡◌, Bool, true, none, some, List, [], ◌∷◌, Str, str_Eq, nat_Eq, eq_iff, length,
  arith, Option-cases, Bool-cases, if◌then◌else◌, sym, ◌∙◌, ◌⊎◌, inl, inr,
}
use hubble_ui.Prelude.Maps.{get}
use hubble_ui.Prelude.Sets.{has}
use hubble_ui.Status.Entry.{StatusEntry, occured_again}
use hubble_ui.Status.Center.{
  StatusCenter, NewEntryEvent, try_update_existing_entry, apply_pending_status, finish_push,
  push_limited, last, push_new, allocated, push_entry, complete_entry_descendants, push_keys,
  keys_of, total,
}
use hubble_ui.Status.Center.Invariant.{IsConsistent, apply_pending_status-IsConsistent}
use hubble_ui.Status.Center.Termination.{completes}
use hubble_ui.Status.Center.Completion.{
  Chain, start, next, has-push_keys, complete_keys-Chain, complete_keys-other,
}
use hubble_ui.Status.Center.Pushes.{
  push_entry-IsConsistent, emitted-Updated, try_update_existing_entry-IsConsistent, Updated,
  complete_entry_descendants-IsConsistent,
}
use hubble_ui.Status.Center.Moves.{move_each-IsConsistent, move_each-none, push_limited-none}

-- The order of the keys does not matter to what they lead to.
Chain-same :
    (c : StatusCenter) (keys keys' : List Str) (j : Str)
    → ((k : Str) → has k keys' ≡ has k keys)
    → Chain c keys j
    → Chain c keys' j
Chain-same c keys keys' j same (start _ m) = start j (same j ∙ m)
Chain-same c keys keys' j same (next i _ d ch g m) =
    next i j d (Chain-same c keys keys' i same ch) g m

has-reversed : (keys : List Str) (k : Str) → has k (push_keys keys []) ≡ has k keys
unfolding has
has-reversed keys k = ground (arith, has-push_keys k keys [])

module _ (hash : ℕ → Str) where
  -- When an entry completes others, exactly the keys that it leads to lose their entries: those that
  -- it names, and those that the entries under such keys name in turn.
  pub complete_entry_descendants-Chain :
      (entry : ℕ) (c c' : StatusCenter) (pending xs : List ℕ) (j : Str)
      → IsConsistent xs c
      → complete_entry_descendants hash entry c ≡ some (c', pending)
      → (Chain c (completes c entry) j → get j c'.keyed_entries ≡ none)
        × ((get j c'.keyed_entries ≡ get j c.keyed_entries) ⊎ Chain c (completes c entry) j)
  unfolding complete_entry_descendants push_keys
  complete_entry_descendants-Chain entry c c' pending xs j h e =
      let keys = completes c entry in
      let fuel = length keys + total c.heap c.keyed_entries in
      (
        λ ch.
            complete_keys-Chain hash fuel (push_keys keys []) c [] c' pending xs j h e
              (Chain-same c keys (push_keys keys []) j (has-reversed keys) ch),
        elim (complete_keys-other hash fuel (push_keys keys []) c [] c' pending xs j h e) [
          | inl same ↦ inl same
          | inr ch ↦
              inr (Chain-same c (push_keys keys []) keys j (λ k. sym (has-reversed keys k)) ch)
        ],
      )

  try_update_existing_entry-keys_to_complete :
      (entry a : ℕ) (c : StatusCenter)
      → ((try_update_existing_entry hash entry c).0.heap a).keys_to_complete
        ≡ (c.heap a).keys_to_complete
  unfolding try_update_existing_entry occured_again
  try_update_existing_entry-keys_to_complete entry a c = elim (Option-cases (c.heap entry).key) [
    | inl no_key ↦ elim (Option-cases (last c.notifications)) [
      | inl empty ↦ ground (arith, no_key, empty)
      | inr (top, is_last) ↦ ground (arith, no_key, is_last, eq_iff top a)
    ]
    | inr (k, has_key) ↦ elim (Option-cases (get k c.keyed_entries)) [
      | inl missing ↦ ground (arith, has_key, missing)
      | inr (existing, found) ↦ ground (arith, has_key, found, eq_iff existing a)
    ]
  ]

  finish_push-completes :
      (entry : ℕ) (updated : Bool) (calls calls' : List (ℕ × NewEntryEvent)) (c c' : StatusCenter)
      (j : Str)
      → Updated hash entry (c, updated)
      → finish_push hash entry updated calls c ≡ some (c', calls')
      → has j (completes c entry) ≡ true
      → get j c'.keyed_entries ≡ none
  unfolding finish_push
  finish_push-completes entry updated calls calls' c c' j h e m =
      let (c1, pending, completed, h1) =
        complete_entry_descendants-IsConsistent hash (if updated then [] else entry ∷ []) entry c
          h in
      let (c2, moved, h2) =
        move_each-IsConsistent hash (if updated then [] else entry ∷ []) pending c1 h1 in
      let gone : get j c1.keyed_entries ≡ none =
        (complete_entry_descendants-Chain entry c c1 pending (if updated then [] else entry ∷ []) j
            h completed).0
          (start j m) in
      let still : get j c2.keyed_entries ≡ none = move_each-none hash pending c1 c2 j moved gone in
      elim (Bool-cases updated) [
        | inl yes_updated ↦ ground (arith, completed, moved, yes_updated)
        | inr new_one ↦ elim (Option-cases (push_limited hash entry c2)) [
          | inl failed ↦ ground (arith, completed, moved, new_one, failed)
          | inr (c3, pushed_it) ↦ ground (
            arith,
            completed,
            moved,
            new_one,
            pushed_it,
            push_limited-none hash entry c2 c3 j pushed_it still,
          )
        ]
      ]

  pub allocated-IsConsistent :
      (e : StatusEntry) (c : StatusCenter) → IsConsistent [] c → IsConsistent [] (allocated e c)
  allocated-IsConsistent e c h = record {
    well_keyed = λ k a g. ground (arith, h.well_keyed k a g, h.made k a g);
    listed = h.listed;
    made = λ k a g. omega (arith, h.made k a g);
    roomy = h.roomy;
    bounded = h.bounded;
  }

  pub push_new-IsConsistent :
      (e : StatusEntry) (c : StatusCenter)
      → ((a b : ℕ) → hash a ≡ hash b → a ≡ b)
      → IsConsistent [] c
      → (c' : StatusCenter) × (calls : List (ℕ × NewEntryEvent)) × (push_new hash e c
          ≡ some (c', calls))
        × IsConsistent [] c'
  unfolding push_new
  push_new-IsConsistent e c distinct h =
      push_entry-IsConsistent hash c.next_address (allocated e c) distinct (omega arith)
        (allocated-IsConsistent e c h)

  push_entry-completes :
      (entry : ℕ) (c c' : StatusCenter) (calls : List (ℕ × NewEntryEvent)) (j : Str)
      → ((a b : ℕ) → hash a ≡ hash b → a ≡ b)
      → entry < c.next_address
      → IsConsistent [] c
      → push_entry hash entry c ≡ some (c', calls)
      → has j (completes c entry) ≡ true
      → get j c'.keyed_entries ≡ none
  unfolding push_entry
  push_entry-completes entry c c' calls j distinct lt h q m =
      let applied = (apply_pending_status hash entry c).0 in
      let updated = try_update_existing_entry hash entry applied in
      finish_push-completes entry updated.1 _ calls _ c' j
        (emitted-Updated hash entry _ updated.0 updated.1 (
          try_update_existing_entry-IsConsistent hash entry applied distinct lt
            (apply_pending_status-IsConsistent hash [] entry c h)))
        q (rw (try_update_existing_entry-keys_to_complete entry entry applied) m)

  -- After a push into a center of the program, no entry stands under a key that the pushed entry
  -- completes, its own key included.
  pub push_new-completes :
      (e : StatusEntry) (c c' : StatusCenter) (calls : List (ℕ × NewEntryEvent)) (j : Str)
      → ((a b : ℕ) → hash a ≡ hash b → a ≡ b)
      → IsConsistent [] c
      → push_new hash e c ≡ some (c', calls)
      → has j (keys_of e.keys_to_complete) ≡ true
      → get j c'.keyed_entries ≡ none
  unfolding push_new
  push_new-completes e c c' calls j distinct h q m =
      push_entry-completes c.next_address (allocated e c) c' calls j distinct (omega arith)
        (allocated-IsConsistent e c h) q (ground (arith, m))
