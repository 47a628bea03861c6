-- ===== src/Status/Center/Termination.antt =====
-- src/ui-layer/status-center.ts: the loop of `completeEntryDescendants` ends.
use hubble_ui.Prelude.{
  ℕ, ◌+◌, zero, suc, ◌≤◌, ◌≡◌, none, some, List, [], ◌∷◌, ◌++◌, Str, str_Eq, nat_Eq, eq_iff, length,
  arith, refl, if◌then◌else◌, Option-cases, inl, inr,
}
use hubble_ui.Prelude.Maps.{get, delete}
use hubble_ui.Status.Entry.{StatusEntry}
use hubble_ui.Status.Center.{StatusCenter, keys_of, push_keys, complete_entry, complete_keys, total}
use hubble_ui.Status.Center.Invariant.{IsConsistent, complete_entry-IsConsistent}

-- The keys that the entry at an address completes
abbrev pub completes : StatusCenter → ℕ → List Str
completes c a = keys_of (c.heap a).keys_to_complete

pub length-push_keys :
    (more keys : List Str) → length (push_keys more keys) ≡ length more + length keys
unfolding push_keys
length-push_keys [] keys = omega arith
length-push_keys (k ∷ more) keys = omega (arith, length-push_keys more (k ∷ keys))

total_same :
    (heap heap' : ℕ → StatusEntry) (keyed : List (Str × ℕ))
    → ((a : ℕ) → (heap' a).keys_to_complete ≡ (heap a).keys_to_complete)
    → total heap' keyed ≡ total heap keyed
unfolding total
total_same heap heap' [] same = refl
total_same heap heap' ((k, a) ∷ keyed) same =
    ground (arith, same a, total_same heap heap' keyed same)

total-delete_le :
    (heap : ℕ → StatusEntry) (k : Str) (keyed : List (Str × ℕ))
    → total heap (delete k keyed) ≤ total heap keyed
unfolding total delete
total-delete_le heap k [] = omega arith
total-delete_le heap k ((j, a) ∷ keyed) = ground (arith, total-delete_le heap k keyed)

total-delete :
    (heap : ℕ → StatusEntry) (k : Str) (d : ℕ) (keyed : List (Str × ℕ))
    → get k keyed ≡ some d
    → total heap (delete k keyed) + length (keys_of (heap d).keys_to_complete) ≤ total heap keyed
unfolding total delete get
total-delete heap k d [] g = cc
total-delete heap k d ((j, a) ∷ keyed) g =
    ground (arith, total-delete heap k d keyed, total-delete_le heap k keyed)

module _ (hash : ℕ → Str) where
  pub complete_entry-keys_to_complete :
      (d : ℕ) (c : StatusCenter) (a : ℕ)
      → ((complete_entry hash d c).heap a).keys_to_complete ≡ (c.heap a).keys_to_complete
  unfolding complete_entry
  complete_entry-keys_to_complete d c a = ground (arith, (eq_iff d a).0)

  pub complete_entry-keyed :
      (d : ℕ) (c : StatusCenter) (k : Str)
      → (c.heap d).key ≡ some k
      → (complete_entry hash d c).keyed_entries ≡ delete k c.keyed_entries
  unfolding complete_entry
  complete_entry-keyed d c k e = ground (arith, e)

  total-complete_entry :
      (d : ℕ) (c : StatusCenter) (k : Str)
      → (c.heap d).key ≡ some k
      → get k c.keyed_entries ≡ some d
      → total (complete_entry hash d c).heap (complete_entry hash d c).keyed_entries
          + length (completes c d)
        ≤ total c.heap c.keyed_entries
  total-complete_entry d c k e g = rw (complete_entry-keyed d c k e) (
      omega (
        arith,
        total_same c.heap (complete_entry hash d c).heap (delete k c.keyed_entries)
            (complete_entry-keys_to_complete d c),
        total-delete c.heap k d c.keyed_entries g,
      ))

  pub complete_keys-missing :
      (fuel : ℕ) (k : Str) (keys : List Str) (c : StatusCenter) (pending : List ℕ)
      → get k c.keyed_entries ≡ none
      → complete_keys hash (suc fuel) (k ∷ keys) c pending ≡ complete_keys hash fuel keys c pending
  unfolding complete_keys
  complete_keys-missing fuel k keys c pending e = rw (e, complete_keys)

  pub complete_keys-found :
      (fuel : ℕ) (k : Str) (keys : List Str) (c : StatusCenter) (pending : List ℕ) (d : ℕ)
      → get k c.keyed_entries ≡ some d
      → complete_keys hash (suc fuel) (k ∷ keys) c pending
        ≡ complete_keys hash fuel
            (push_keys (completes c d) keys)
            (complete_entry hash d c)
            (if (c.heap d).is_pending then pending ++ d ∷ [] else pending)
  unfolding complete_keys
  complete_keys-found fuel k keys c pending d e = rw (e, complete_keys)

  -- What is left of the fuel after a round that finds an entry is enough for the keys that are left.
  pub fuel-found :
      (fuel : ℕ) (k : Str) (keys : List Str) (c : StatusCenter) (d : ℕ)
      → (c.heap d).key ≡ some k
      → get k c.keyed_entries ≡ some d
      → length (k ∷ keys) + total c.heap c.keyed_entries ≤ suc fuel
      → length (push_keys (completes c d) keys)
          + total (complete_entry hash d c).heap (complete_entry hash d c).keyed_entries
        ≤ fuel
  fuel-found fuel k keys c d e g le =
      omega (arith, length-push_keys (completes c d) keys, total-complete_entry d c k e g)

  -- As many rounds as there are keys to pop and to push are enough, and the loop keeps the invariant.
  pub complete_keys-ends :
      (xs : List ℕ) (fuel : ℕ) (keys : List Str) (c : StatusCenter) (pending : List ℕ)
      → length keys + total c.heap c.keyed_entries ≤ fuel
      → IsConsistent xs c
      → (c' : StatusCenter) × (pending' : List ℕ) × (complete_keys hash fuel keys c pending
          ≡ some (c', pending'))
        × IsConsistent xs c'
  unfolding complete_keys
  complete_keys-ends xs fuel [] c pending le h = (c, pending, refl, h)
  complete_keys-ends xs zero (k ∷ keys) c pending le h = absurd (omega arith)
  complete_keys-ends xs (suc fuel) (k ∷ keys) c pending le h =
      elim (Option-cases (get k c.keyed_entries)) [
        | inl missing ↦
            rw (complete_keys-missing fuel k keys c pending missing)
              (complete_keys-ends xs fuel keys c pending (omega arith) h)
        | inr (d, found) ↦ rw (complete_keys-found fuel k keys c pending d found) (
            complete_keys-ends xs fuel (push_keys (completes c d) keys) (complete_entry hash d c)
              (if (c.heap d).is_pending then pending ++ d ∷ [] else pending)
              (fuel-found fuel k keys c d (h.well_keyed k d found) found le)
              (complete_entry-IsConsistent hash xs d c h))
      ]
