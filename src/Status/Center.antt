-- ===== src/Status/Center.antt =====
-- src/ui-layer/status-center.ts: the entries that the user is told of. Entries are objects that the
-- center's collections share: they stand in a heap, by their addresses. The hash of an entry is a
-- random text, `hash` of its address. Handlers of new entries are taken not to call the center.
pub mod Completion
pub mod Termination
pub mod Invariant
pub mod Moves
pub mod Pushes
pub mod Results
pub mod Reach
use hubble_ui.Prelude.{
  ℕ, ◌+◌, zero, suc, Bool, true, false, not, ◌&&◌, ◌||◌, Option, none, some, List, [], ◌∷◌, ◌++◌,
  Str, codes, str_Eq, nat_Eq, opt_Eq, nat_eq, ◌==◌, is_empty, length, leb, filter, find,
  if◌then◌else◌,
}
use hubble_ui.Prelude.Maps.{get, put, delete, is_some, values}
use hubble_ui.Utils.Emitter
use hubble_ui.Utils.Emitter.{Emitter, emit, on}
use hubble_ui.Status.Entry.{StatusEntry, is_critical, is_error, occured_again}

pub record NewEntryEvent : Type 0 where
  pub entry : ℕ
  pub is_updated : Bool
  pub was_pending : Bool

-- `notifications` has the latest entry last; `next_address` is that of the next entry made.
pub record StatusCenter : Type 0 where
  pub emitter : Emitter NewEntryEvent
  pub heap : ℕ → StatusEntry
  pub next_address : ℕ
  pub notifications : List ℕ
  pub seen_top : Option ℕ
  pub pending_entries : List (Str × ℕ)
  pub keyed_entries : List (Str × ℕ)
  pub max_notifications : ℕ

-- The constructor, with the objects of the program as they are
unfoldable pub new : (ℕ → StatusEntry) → ℕ → StatusCenter
unfolding Emitter.new
new heap max = record {
  emitter = Emitter.new true;
  heap = heap;
  next_address = 0;
  notifications = [];
  seen_top = none;
  pending_entries = [];
  keyed_entries = [];
  max_notifications = max;
}

abbrev pub write : ℕ → StatusEntry → (ℕ → StatusEntry) → ℕ → StatusEntry
write a e heap b = if nat_eq a b then e else heap b

unfoldable pub on_new_entry : StatusCenter → ℕ → StatusCenter × List (ℕ × NewEntryEvent)
unfolding on
on_new_entry c fn =
    let (em, calls) = on c.emitter (codes "new-entry") fn in (record c { emitter = em }, calls)

-- The last element of an array
unfoldable pub last : List ℕ → Option ℕ
last [] = none
last (x ∷ []) = some x
last (x ∷ y ∷ xs) = last (y ∷ xs)

abbrev pub reversed : List ℕ → List ℕ → List ℕ
reversed [] acc = acc
reversed (x ∷ xs) acc = reversed xs (x ∷ acc)

-- `list`: the latest entry first
unfoldable pub list : StatusCenter → List ℕ
list c = reversed c.notifications []

-- The two loops of `criticalPreview`; the second runs over the latest entries first.
unfoldable pub critical_pending : (ℕ → StatusEntry) → List ℕ → Option ℕ
unfolding find
critical_pending heap = find (λ a. is_critical (heap a) || is_error (heap a))

unfoldable pub critical_unseen : (ℕ → StatusEntry) → Option ℕ → List ℕ → Option ℕ
critical_unseen heap seen [] = none
critical_unseen heap seen (a ∷ older) =
    let rest = critical_unseen heap seen older in
    if seen == some a then none else if is_critical (heap a) then some a else rest

unfoldable pub critical_preview : StatusCenter → Option ℕ
unfolding critical_pending critical_unseen list
critical_preview c = elim c.notifications [
  | [] ↦ none
  | _ ∷ _ ↦ elim (critical_pending c.heap (values c.pending_entries)) [
    | some a ↦ some a
    | none ↦ critical_unseen c.heap c.seen_top (list c)
  ]
]

unfoldable pub pending_entries_list : StatusCenter → List ℕ
pending_entries_list c = reversed (values c.pending_entries) []

unfoldable pub has_unread : StatusCenter → Bool
unfolding last
has_unread c = elim (last c.notifications) [ none ↦ false | some a ↦ not (c.seen_top == some a) ]

unfoldable pub set_seen : StatusCenter → StatusCenter
unfolding find list
set_seen c = record c { seen_top = find (λ a. not (c.heap a).is_persistent) (list c) }

unfoldable pub get_entry_by_key : StatusCenter → Str → Option ℕ
unfolding get
get_entry_by_key c key = get key c.keyed_entries

-- A key that is null or empty counts as none.
abbrev pub key_or : Option Str → Str → Str
key_or none h = h
key_or (some key) h = if is_empty key then h else key

-- `keys.push(...more)`, on a stack whose top is `keys.pop()`
unfoldable pub push_keys : List Str → List Str → List Str
push_keys [] keys = keys
push_keys (k ∷ more) keys = push_keys more (k ∷ keys)

abbrev pub keys_of : Option (List Str) → List Str
keys_of none = []
keys_of (some keys) = keys

-- `splice(findIndex(...), 1)`: the first element that passes, and the others
unfoldable pub splice_first : (ℕ → Bool) → List ℕ → Option (ℕ × List ℕ)
splice_first p [] = none
splice_first p (x ∷ xs) =
    let rest = splice_first p xs in
    if p x then some (x, xs) else elim rest [ none ↦ none | some (y, ys) ↦ some (y, x ∷ ys) ]

-- The keys that the entries under a key complete, all in all
unfoldable pub total : (ℕ → StatusEntry) → List (Str × ℕ) → ℕ
total heap [] = 0
total heap ((_, a) ∷ keyed) = length (keys_of (heap a).keys_to_complete) + total heap keyed

-- `notifications.push(n)`
abbrev pub append_entry : ℕ → StatusCenter → StatusCenter
append_entry n c = record c { notifications = c.notifications ++ n ∷ [] }

-- A new object at the next address, and another value of an object
abbrev pub allocated : StatusEntry → StatusCenter → StatusCenter
allocated e c = record c { heap = write c.next_address e c.heap; next_address = c.next_address + 1 }

abbrev pub rewritten : ℕ → StatusEntry → StatusCenter → StatusCenter
rewritten a e c = record c { heap = write a e c.heap }

module _ (hash : ℕ → Str) where
  unfoldable pub non_pending_entries_list : StatusCenter → List ℕ
  unfolding filter list get
  non_pending_entries_list c =
      filter (λ a. not (is_some (get (key_or (c.heap a).key (hash a)) c.pending_entries))) (list c)

  unfoldable pub apply_pending_status : ℕ → StatusCenter → StatusCenter × Bool
  unfolding get put delete
  apply_pending_status entry c =
      let key = key_or (c.heap entry).key (hash entry) in
      let was_pending = is_some (get key c.pending_entries) in
      let entries =
        if (c.heap entry).is_pending
        then put key entry c.pending_entries
        else delete key c.pending_entries in
      (record c { pending_entries = entries }, was_pending)

  -- An entry without key updates the last entry, if that is the same one.
  unfoldable pub try_update_existing_entry : ℕ → StatusCenter → StatusCenter × Bool
  unfolding get put last occured_again
  try_update_existing_entry entry c =
      let again : ℕ → StatusCenter = λ (existing : ℕ). record c {
        heap = write existing (occured_again (c.heap existing) (c.heap entry)) c.heap;
      } in
      elim (c.heap entry).key [
        | none ↦ elim (last c.notifications) [
          | none ↦ (c, false)
          | some top ↦ if hash top == hash entry then (again top, true) else (c, false)
        ]
        | some key ↦ elim (get key c.keyed_entries) [
          | none ↦ (record c { keyed_entries = put key entry c.keyed_entries }, false)
          | some existing ↦ (again existing, true)
        ]
      ]

  -- The oldest entry leaves the log, the keys and the pending entries.
  unfoldable pub drop_oldest : ℕ → List ℕ → StatusCenter → StatusCenter
  unfolding delete
  drop_oldest removed rest c = record c {
    notifications = rest;
    seen_top = if c.seen_top == some removed then none else c.seen_top;
    keyed_entries = elim (c.heap removed).key [
      | none ↦ c.keyed_entries
      | some key ↦ delete key c.keyed_entries
    ];
    pending_entries = delete (hash removed) c.pending_entries;
  }

  -- `none` stands for the TypeError that an empty list leads to, where no entry is allowed.
  unfoldable pub push_limited : ℕ → StatusCenter → Option StatusCenter
  unfolding drop_oldest
  push_limited n c =
      if leb (length c.notifications + 1) c.max_notifications
      then some (append_entry n c)
      else elim c.notifications [
        | [] ↦ none
        | removed ∷ rest ↦ some (append_entry n (drop_oldest removed rest c))
      ]

  -- Whether `moveExistingEntryToTop` takes the entry `e` for `entry`
  abbrev pub is_entry : (ℕ → StatusEntry) → ℕ → ℕ → Bool
  is_entry heap entry e =
      (hash e == hash entry) || is_some (heap entry).key && ((heap e).key == (heap entry).key)

  unfoldable pub move_existing_entry_to_top : ℕ → StatusCenter → Option StatusCenter
  unfolding splice_first push_limited
  move_existing_entry_to_top entry c = elim (splice_first (is_entry c.heap entry) c.notifications) [
    | none ↦ some c
    | some (removed, rest) ↦ push_limited removed (record c { notifications = rest })
  ]

  unfoldable pub move_each : List ℕ → StatusCenter → Option StatusCenter
  move_each [] c = some c
  move_each (entry ∷ entries) c = elim (move_existing_entry_to_top entry c) [
    | none ↦ none
    | some c' ↦ move_each entries c'
  ]

  -- One round of `completeEntryDescendants` that finds the entry `desc`
  unfoldable pub complete_entry : ℕ → StatusCenter → StatusCenter
  unfolding apply_pending_status delete
  complete_entry desc c =
      let done = record c {
        heap = write desc (record (c.heap desc) { is_pending = false }) c.heap;
      } in
      let applied = (apply_pending_status desc done).0 in
      elim (c.heap desc).key [
        | none ↦ applied
        | some key ↦ record applied {
          keyed_entries = delete key c.keyed_entries;
          heap = write desc (record (applied.heap desc) { key = none }) applied.heap;
        }
      ]

  -- The loop, on fuel, over the stack of keys; the second result are the entries that were pending.
  unfoldable pub complete_keys :
      ℕ → List Str → StatusCenter → List ℕ → Option (StatusCenter × List ℕ)
  unfolding get push_keys
  complete_keys fuel [] c pending = some (c, pending)
  complete_keys zero (key ∷ keys) c pending = none
  complete_keys (suc fuel) (key ∷ keys) c pending = elim (get key c.keyed_entries) [
    | none ↦ complete_keys fuel keys c pending
    | some desc ↦
        complete_keys fuel (push_keys (keys_of (c.heap desc).keys_to_complete) keys)
          (complete_entry desc c)
          (if (c.heap desc).is_pending then pending ++ desc ∷ [] else pending)
  ]

  unfoldable pub complete_entry_descendants : ℕ → StatusCenter → Option (StatusCenter × List ℕ)
  unfolding complete_keys total push_keys
  complete_entry_descendants entry c =
      let keys = keys_of (c.heap entry).keys_to_complete in
      complete_keys (length keys + total c.heap c.keyed_entries) (push_keys keys []) c []

  -- The steps of `pushEntry` after the event
  unfoldable pub finish_push :
      ℕ
      → Bool
      → List (ℕ × NewEntryEvent)
      → StatusCenter
      → Option (StatusCenter × List (ℕ × NewEntryEvent))
  unfolding complete_entry_descendants move_each push_limited
  finish_push entry is_updated calls c = elim (complete_entry_descendants entry c) [
    | none ↦ none
    | some (completed, were_pending) ↦ elim (move_each were_pending completed) [
      | none ↦ none
      | some moved ↦
          if is_updated
          then some (moved, calls)
          else elim (push_limited entry moved) [ none ↦ none | some pushed ↦ some (pushed, calls) ]
    ]
  ]

  unfoldable pub push_entry : ℕ → StatusCenter → Option (StatusCenter × List (ℕ × NewEntryEvent))
  unfolding apply_pending_status try_update_existing_entry emit finish_push
  push_entry entry c =
      let (c1, was_pending) = apply_pending_status entry c in
      let (c2, is_updated) = try_update_existing_entry entry c1 in
      let (em, calls) =
        emit c2.emitter (codes "new-entry")
          (record { entry = entry; is_updated = is_updated; was_pending = was_pending }) in
      finish_push entry is_updated calls (record c2 { emitter = em })

  -- An entry is made, and pushed.
  unfoldable pub push_new :
      StatusEntry → StatusCenter → Option (StatusCenter × List (ℕ × NewEntryEvent))
  unfolding push_entry
  push_new e c = push_entry c.next_address (allocated e c)

  -- An entry is changed in place, and pushed again.
  unfoldable pub push_changed :
      ℕ
      → (StatusEntry → StatusEntry)
      → StatusCenter
      → Option (StatusCenter × List (ℕ × NewEntryEvent))
  unfolding push_entry
  push_changed a change c = push_entry a (rewritten a (change (c.heap a)) c)
