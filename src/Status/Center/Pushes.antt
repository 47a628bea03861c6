-- ===== src/Status/Center/Pushes.antt =====
-- src/ui-layer/status-center.ts: a push as a whole.
use hubble_ui.Prelude.{
  ℕ, ◌+◌, ◌<◌, ◌≡◌, Bool, true, false, some, List, [], ◌∷◌, Str, str_Eq, nat_Eq, ◌==◌, eq_iff,
  eq_refl, length, arith, Bool-cases, Option-cases, inl, inr, ap, sym, ◌∙◌, subst, if◌then◌else◌,
}
use hubble_ui.Prelude.Maps.{get, put, get-put}
use hubble_ui.Prelude.Sets.{has}
use hubble_ui.Utils.Emitter.{Emitter}
use hubble_ui.Status.Entry.{occured_again}
use hubble_ui.Status.Center.{
  StatusCenter, NewEntryEvent, write, last, apply_pending_status, try_update_existing_entry,
  complete_entry_descendants, push_entry, finish_push, push_keys, keys_of, total,
}
use hubble_ui.Status.Center.Invariant.{
  IsConsistent, apply_pending_status-IsConsistent, push_limited-IsConsistent,
}
use hubble_ui.Status.Center.Moves.{move_each-IsConsistent}
use hubble_ui.Status.Center.Termination.{complete_keys-ends, length-push_keys}

module _ (hash : ℕ → Str) where
  -- An existing entry that takes the fields of another one with its own key
  again-IsConsistent :
      (xs : List ℕ) (existing entry : ℕ) (c : StatusCenter)
      → ((c.heap entry).key ≡ (c.heap existing).key)
      → IsConsistent xs c
      → IsConsistent xs (record c {
        heap = write existing (occured_again (c.heap existing) (c.heap entry)) c.heap;
      })
  unfolding occured_again
  again-IsConsistent xs existing entry c same h = record {
    well_keyed = λ k a g. ground (arith, same, h.well_keyed k a g);
    listed = h.listed;
    made = h.made;
    roomy = h.roomy;
    bounded = h.bounded;
  }

  -- One more entry may be listed.
  more-IsConsistent : (x : ℕ) (c : StatusCenter) → IsConsistent [] c → IsConsistent (x ∷ []) c
  unfolding has
  more-IsConsistent x c h = record {
    well_keyed = h.well_keyed;
    listed = λ k a g. ground (arith, h.listed k a g);
    made = h.made;
    roomy = h.roomy;
    bounded = h.bounded;
  }

  put-IsConsistent :
      (k : Str) (entry : ℕ) (c : StatusCenter)
      → (c.heap entry).key ≡ some k
      → entry < c.next_address
      → IsConsistent [] c
      → IsConsistent (entry ∷ []) (record c { keyed_entries = put k entry c.keyed_entries })
  unfolding has
  put-IsConsistent k entry c has_key lt h = record {
    well_keyed = λ j a g.
        ground (arith, get-put k j entry c.keyed_entries, eq_iff k j, h.well_keyed j a, has_key, g);
    listed = λ j a g. ground (arith, get-put k j entry c.keyed_entries, h.listed j a, eq_refl a, g);
    made = λ j a g. ground (arith, get-put k j entry c.keyed_entries, h.made j a, lt, g);
    roomy = h.roomy;
    bounded = h.bounded;
  }

  -- The entry is listed already, or will be.
  abbrev pub Updated : ℕ → StatusCenter × Bool → Type 0
  Updated entry (c, updated) = IsConsistent (if updated then [] else entry ∷ []) c

  Updated-result :
      (entry : ℕ) (c c' : StatusCenter) (updated : Bool)
      → Updated entry (c', updated)
      → try_update_existing_entry hash entry c ≡ (c', updated)
      → Updated entry (try_update_existing_entry hash entry c)
  Updated-result entry c c' updated h e = subst (Updated entry) (sym e) h

  pub try_update_existing_entry-IsConsistent :
      (entry : ℕ) (c : StatusCenter)
      → ((a b : ℕ) → hash a ≡ hash b → a ≡ b)
      → entry < c.next_address
      → IsConsistent [] c
      → Updated entry (try_update_existing_entry hash entry c)
  unfolding try_update_existing_entry
  try_update_existing_entry-IsConsistent entry c distinct lt h =
      elim (Option-cases (c.heap entry).key) [
        | inl no_key ↦ elim (Option-cases (last c.notifications)) [
          | inl empty ↦
              Updated-result entry c c false (more-IsConsistent entry c h)
                (ground (arith, no_key, empty))
          | inr (top, is_last) ↦ elim (Bool-cases (hash top == hash entry)) [
            | inl same ↦
                let this = distinct top entry ((eq_iff (hash top) (hash entry)).0 same) in
                Updated-result entry c _ true
                  (again-IsConsistent [] top entry c (ap (λ (a : ℕ). (c.heap a).key) (sym this)) h)
                  (ground (arith, no_key, is_last, same))
            | inr other ↦
                Updated-result entry c c false (more-IsConsistent entry c h)
                  (ground (arith, no_key, is_last, other))
          ]
        ]
        | inr (k, has_key) ↦ elim (Option-cases (get k c.keyed_entries)) [
          | inl missing ↦
              Updated-result entry c _ false (put-IsConsistent k entry c has_key lt h)
                (ground (arith, has_key, missing))
          | inr (existing, found) ↦
              Updated-result entry c _ true
                (again-IsConsistent [] existing entry c
                  (has_key ∙ sym (h.well_keyed k existing found)) h)
                (ground (arith, has_key, found))
        ]
      ]

  pub emitted-Updated :
      (entry : ℕ) (em : Emitter NewEntryEvent) (c : StatusCenter) (updated : Bool)
      → Updated entry (c, updated)
      → Updated entry (record c { emitter = em }, updated)
  emitted-Updated entry em c updated h = record {
    well_keyed = h.well_keyed;
    listed = h.listed;
    made = h.made;
    roomy = h.roomy;
    bounded = h.bounded;
  }

  pub complete_entry_descendants-IsConsistent :
      (xs : List ℕ) (entry : ℕ) (c : StatusCenter)
      → IsConsistent xs c
      → (c' : StatusCenter) × (pending : List ℕ) × (complete_entry_descendants hash entry c
          ≡ some (c', pending))
        × IsConsistent xs c'
  unfolding complete_entry_descendants push_keys
  complete_entry_descendants-IsConsistent xs entry c h =
      let keys = keys_of (c.heap entry).keys_to_complete in
      complete_keys-ends hash xs (length keys + total c.heap c.keyed_entries) (push_keys keys []) c
        [] (omega (arith, length-push_keys keys [])) h

  finish_push-IsConsistent :
      (entry : ℕ) (updated : Bool) (calls : List (ℕ × NewEntryEvent)) (c : StatusCenter)
      → Updated entry (c, updated)
      → (c' : StatusCenter) × (finish_push hash entry updated calls c ≡ some (c', calls))
        × IsConsistent [] c'
  unfolding finish_push
  finish_push-IsConsistent entry true calls c h =
      let (c1, pending, completed, h1) = complete_entry_descendants-IsConsistent [] entry c h in
      let (c2, moved, h2) = move_each-IsConsistent hash [] pending c1 h1 in
      (c2, ground (arith, completed, moved), h2)
  finish_push-IsConsistent entry false calls c h =
      let (c1, pending, completed, h1) =
        complete_entry_descendants-IsConsistent (entry ∷ []) entry c h in
      let (c2, moved, h2) = move_each-IsConsistent hash (entry ∷ []) pending c1 h1 in
      let (c3, pushed, h3) = push_limited-IsConsistent hash entry c2 h2 in
      (c3, ground (arith, completed, moved, pushed), h3)

  -- A push of an entry that was made ends without an error and keeps the invariant.
  pub push_entry-IsConsistent :
      (entry : ℕ) (c : StatusCenter)
      → ((a b : ℕ) → hash a ≡ hash b → a ≡ b)
      → entry < c.next_address
      → IsConsistent [] c
      → (c' : StatusCenter) × (calls : List (ℕ × NewEntryEvent)) × (push_entry hash entry c
          ≡ some (c', calls))
        × IsConsistent [] c'
  unfolding push_entry
  push_entry-IsConsistent entry c distinct lt h =
      let applied = (apply_pending_status hash entry c).0 in
      let updated = try_update_existing_entry hash entry applied in
      let (c', pushed, h') = finish_push-IsConsistent entry updated.1 _ _ (
        emitted-Updated entry _ updated.0 updated.1 (
          try_update_existing_entry-IsConsistent entry applied distinct lt
            (apply_pending_status-IsConsistent hash [] entry c h))) in
      (c', _, pushed, h')
