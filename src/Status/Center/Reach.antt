-- ===== src/Status/Center/Reach.antt =====
-- src/ui-layer/status-center.ts: the centers that the program comes to.
use hubble_ui.Prelude.{ℕ, ◌≤◌, ◌≡◌, some, List, [], Str, str_Eq, nat_Eq, length, arith, subst}
use hubble_ui.Prelude.Maps.{get}
use hubble_ui.Status.Entry.{StatusEntry}
use hubble_ui.Status.Center.{
  StatusCenter, NewEntryEvent, new, push_new, push_changed, rewritten, set_seen, on_new_entry,
}
use hubble_ui.Status.Center.Invariant.{IsConsistent}
use hubble_ui.Status.Center.Pushes.{push_entry-IsConsistent}
use hubble_ui.Status.Center.Results.{push_new-IsConsistent}

module _ (hash : ℕ → Str) where
  -- The centers of the program: new entries are pushed, entries that stand under a key are changed
  -- but for the key and pushed again, handlers are put on, and the user has seen the log.
  pub data Reachable : StatusCenter → Type 0 where
    created : (heap : ℕ → StatusEntry) (max : ℕ) → 1 ≤ max → Reachable (new heap max)
    pushed :
        (e : StatusEntry) (c c' : StatusCenter) (calls : List (ℕ × NewEntryEvent))
        → Reachable c
        → push_new hash e c ≡ some (c', calls)
        → Reachable c'
    changed :
        (k : Str) (a : ℕ) (change : StatusEntry → StatusEntry) (c c' : StatusCenter)
        (calls : List (ℕ × NewEntryEvent))
        → Reachable c
        → get k c.keyed_entries ≡ some a
        → (change (c.heap a)).key ≡ (c.heap a).key
        → push_changed hash a change c ≡ some (c', calls)
        → Reachable c'
    seen : (c : StatusCenter) → Reachable c → Reachable (set_seen c)
    handled : (fn : ℕ) (c : StatusCenter) → Reachable c → Reachable (on_new_entry c fn).0

  push_changed-IsConsistent :
      (k : Str) (a : ℕ) (change : StatusEntry → StatusEntry) (c : StatusCenter)
      → ((a b : ℕ) → hash a ≡ hash b → a ≡ b)
      → IsConsistent [] c
      → get k c.keyed_entries ≡ some a
      → (change (c.heap a)).key ≡ (c.heap a).key
      → (c' : StatusCenter) × (calls : List (ℕ × NewEntryEvent)) × (push_changed hash a change c
          ≡ some (c', calls))
        × IsConsistent [] c'
  unfolding push_changed
  push_changed-IsConsistent k a change c distinct h found same =
      push_entry-IsConsistent hash a (rewritten a (change (c.heap a)) c) distinct (h.made k a found)
        (record {
          well_keyed = λ j b g. ground (arith, h.well_keyed j b g, same);
          listed = h.listed;
          made = h.made;
          roomy = h.roomy;
          bounded = h.bounded;
        })

  -- In every center that the program comes to, if hashes are distinct, an entry that stands under a
  -- key has that key, is in the log and was made before; and the log, which may hold an entry at
  -- least, is no longer than it may be.
  pub Reachable-IsConsistent :
      (c : StatusCenter) → ((a b : ℕ) → hash a ≡ hash b → a ≡ b) → Reachable c → IsConsistent [] c
  unfolding new get set_seen on_new_entry
  Reachable-IsConsistent _ distinct (created heap max le) = record {
    well_keyed = λ k a g. cc;
    listed = λ k a g. cc;
    made = λ k a g. cc;
    roomy = le;
    bounded = omega arith;
  }
  Reachable-IsConsistent _ distinct (pushed e c c' calls r q) =
      let (c1, calls1, q1, h1) =
        push_new-IsConsistent hash e c distinct (Reachable-IsConsistent c distinct r) in
      subst (λ x. IsConsistent [] x) (ground (arith, q, q1)) h1
  Reachable-IsConsistent _ distinct (changed k a change c c' calls r found same q) =
      let (c1, calls1, q1, h1) =
        push_changed-IsConsistent k a change c distinct (Reachable-IsConsistent c distinct r) found
          same in
      subst (λ x. IsConsistent [] x) (ground (arith, q, q1)) h1
  Reachable-IsConsistent _ distinct (seen c r) =
      let h = Reachable-IsConsistent c distinct r in
      record {
        well_keyed = h.well_keyed;
        listed = h.listed;
        made = h.made;
        roomy = h.roomy;
        bounded = h.bounded;
      }
  Reachable-IsConsistent _ distinct (handled fn c r) =
      let h = Reachable-IsConsistent c distinct r in
      record {
        well_keyed = h.well_keyed;
        listed = h.listed;
        made = h.made;
        roomy = h.roomy;
        bounded = h.bounded;
      }

  -- In every center that the program comes to, whatever entry is pushed, the push ends without an
  -- error, if hashes are distinct, comes to such a center again, and the log that it leaves is no
  -- longer than it may be.
  pub push_new-ends :
      (e : StatusEntry) (c : StatusCenter)
      → ((a b : ℕ) → hash a ≡ hash b → a ≡ b)
      → Reachable c
      → (c' : StatusCenter) × (calls : List (ℕ × NewEntryEvent)) × (push_new hash e c
          ≡ some (c', calls))
        × Reachable c'
        × (length c'.notifications ≤ c'.max_notifications)
  push_new-ends e c distinct r =
      let (c', calls, q, h) =
        push_new-IsConsistent hash e c distinct (Reachable-IsConsistent c distinct r) in
      (c', calls, q, pushed e c c' calls r q, h.bounded)
