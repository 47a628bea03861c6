-- ===== src/Status/Center/Invariant.antt =====
-- src/ui-layer/status-center.ts: what a push keeps of the center's collections.
use hubble_ui.Prelude.{
  ℕ, ◌+◌, ◌≤◌, ◌<◌, ◌≡◌, true, false, some, List, [], ◌∷◌, ◌++◌, Str, str_Eq, nat_Eq, nat_eq,
  eq_iff, length, length-append, arith, Bool-cases, Option-cases, List-cases, inl, inr, ap, refl,
  leb, ◌∙◌,
}
use hubble_ui.Prelude.Maps.{get, get-delete}
use hubble_ui.Prelude.Sets.{has, has-append}
use hubble_ui.Status.Center.{
  StatusCenter, apply_pending_status, push_limited, append_entry, drop_oldest, complete_entry,
}

-- An entry that stands under a key has it, is in the log or among some further ones, and was made
-- before; the log, which may hold an entry at least, is no longer than it may be.
pub record IsConsistent (extra : List ℕ) (c : StatusCenter) : Type 0 where
  pub well_keyed : (k : Str) (a : ℕ) → get k c.keyed_entries ≡ some a → (c.heap a).key ≡ some k
  pub listed :
      (k : Str) (a : ℕ) → get k c.keyed_entries ≡ some a → has a (extra ++ c.notifications) ≡ true
  pub made : (k : Str) (a : ℕ) → get k c.keyed_entries ≡ some a → a < c.next_address
  pub roomy : 1 ≤ c.max_notifications
  pub bounded : length c.notifications ≤ c.max_notifications

module _ (hash : ℕ → Str) where
  pub apply_pending_status-IsConsistent :
      (xs : List ℕ) (e : ℕ) (c : StatusCenter)
      → IsConsistent xs c
      → IsConsistent xs (apply_pending_status hash e c).0
  unfolding apply_pending_status
  apply_pending_status-IsConsistent xs e c h = record {
    well_keyed = h.well_keyed;
    listed = h.listed;
    made = h.made;
    roomy = h.roomy;
    bounded = h.bounded;
  }

  append_entry-IsConsistent :
      (n : ℕ) (c : StatusCenter)
      → length c.notifications + 1 ≤ c.max_notifications
      → IsConsistent (n ∷ []) c
      → IsConsistent [] (append_entry n c)
  unfolding has
  append_entry-IsConsistent n c fits h = record {
    well_keyed = h.well_keyed;
    listed = λ k a g. ground (arith, h.listed k a g, has-append a c.notifications (n ∷ []));
    made = h.made;
    roomy = h.roomy;
    bounded = omega (arith, length-append {0} c.notifications (n ∷ []));
  }

  -- What stands under a key after the oldest entry is dropped stood there before, and is not it.
  get-drop_oldest :
      (r : ℕ) (rest : List ℕ) (c : StatusCenter)
      → ((k : Str) (a : ℕ) → get k c.keyed_entries ≡ some a → (c.heap a).key ≡ some k)
      → (k : Str) (a : ℕ) → get k (drop_oldest hash r rest c).keyed_entries ≡ some a
      → (get k c.keyed_entries ≡ some a) × (nat_eq r a ≡ false)
  unfolding drop_oldest
  get-drop_oldest r rest c keyed k a g = elim (Option-cases (c.heap r).key) [
    | inl no_key ↦ ground (arith, keyed k a, no_key)
    | inr (j, has_key) ↦
        ground (arith, keyed k a, has_key, get-delete j k c.keyed_entries, eq_iff j k)
  ]

  drop_oldest-IsConsistent :
      (xs : List ℕ) (r : ℕ) (rest : List ℕ) (c : StatusCenter)
      → c.notifications ≡ r ∷ rest
      → IsConsistent xs c
      → IsConsistent xs (drop_oldest hash r rest c)
  unfolding drop_oldest has
  drop_oldest-IsConsistent xs r rest c e h =
      let old = get-drop_oldest r rest c h.well_keyed in
      record {
        well_keyed = λ k a g. h.well_keyed k a (old k a g).0;
        listed = λ k a g. ground (
          arith,
          old k a g,
          h.listed k a (old k a g).0,
          has-append a xs c.notifications,
          has-append a xs rest,
          e,
        );
        made = λ k a g. h.made k a (old k a g).0;
        roomy = h.roomy;
        bounded = omega (arith, h.bounded, ap (λ (ys : List ℕ). length ys) e);
      }

  pub push_limited-IsConsistent :
      (n : ℕ) (c : StatusCenter)
      → IsConsistent (n ∷ []) c
      → (c' : StatusCenter) × (push_limited hash n c ≡ some c') × IsConsistent [] c'
  unfolding push_limited drop_oldest
  push_limited-IsConsistent n c h =
      elim (Bool-cases (leb (length c.notifications + 1) c.max_notifications)) [
        | inl fits ↦
            rw fits (append_entry n c, refl, append_entry-IsConsistent n c (ground arith) h)
        | inr full ↦ elim (List-cases c.notifications) [
          | inl empty ↦ absurd (ground (arith, empty, h.roomy))
          | inr (r, rest, e) ↦ (
            append_entry n (drop_oldest hash r rest c),
            ground (arith, full, e),
            append_entry-IsConsistent n (drop_oldest hash r rest c)
                (omega (arith, h.bounded, ap (λ (ys : List ℕ). length ys) e))
                (drop_oldest-IsConsistent (n ∷ []) r rest c e h),
          )
        ]
      ]

  -- What stands under a key after an entry is completed stood there before, and is another entry.
  get-complete_entry :
      (d : ℕ) (c : StatusCenter)
      → ((k : Str) (a : ℕ) → get k c.keyed_entries ≡ some a → (c.heap a).key ≡ some k)
      → (k : Str) (a : ℕ) → get k (complete_entry hash d c).keyed_entries ≡ some a
      → (get k c.keyed_entries ≡ some a) × (nat_eq d a ≡ false)
  unfolding complete_entry
  get-complete_entry d c keyed k a g = elim (Option-cases (c.heap d).key) [
    | inl no_key ↦ ground (arith, keyed k a, no_key)
    | inr (j, has_key) ↦
        ground (arith, keyed k a, has_key, get-delete j k c.keyed_entries, eq_iff j k)
  ]

  complete_entry-key :
      (d a : ℕ) (c : StatusCenter)
      → nat_eq d a ≡ false
      → ((complete_entry hash d c).heap a).key ≡ (c.heap a).key
  unfolding complete_entry
  complete_entry-key d a c e = ground (arith, e)

  complete_entry-rest :
      (d : ℕ) (c : StatusCenter)
      → ((complete_entry hash d c).notifications ≡ c.notifications)
        × ((complete_entry hash d c).max_notifications ≡ c.max_notifications)
        × ((complete_entry hash d c).next_address ≡ c.next_address)
  unfolding complete_entry
  complete_entry-rest d c = ground arith

  pub complete_entry-IsConsistent :
      (xs : List ℕ) (d : ℕ) (c : StatusCenter)
      → IsConsistent xs c
      → IsConsistent xs (complete_entry hash d c)
  complete_entry-IsConsistent xs d c h =
      let old = get-complete_entry d c h.well_keyed in
      let (same_log, same_max, same_next) = complete_entry-rest d c in
      record {
        well_keyed =
            λ k a g. complete_entry-key d a c (old k a g).1 ∙ h.well_keyed k a (old k a g).0;
        listed = λ k a g. rw same_log (h.listed k a (old k a g).0);
        made = λ k a g. rw same_next (h.made k a (old k a g).0);
        roomy = rw same_max h.roomy;
        bounded = rw (same_log, same_max) h.bounded;
      }
