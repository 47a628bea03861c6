-- ===== src/Tests/Notices.antt =====
-- The theorems on the status center, at the entries that tell of the data streams.
use hubble_ui.Prelude.{
  str_Eq, ℕ, ◌≡◌, refl, ◌≤◌, Option, none, some, List, [], ◌∷◌, Str, codes, arith, ◌⊎◌, str_eq,
  length,
}
use hubble_ui.Prelude.Maps.{get}
use hubble_ui.Prelude.Sets.{has, add, add_all}
use hubble_ui.Status.Errors.{StatusCodes}
use hubble_ui.Status.Entry.{empty}
use hubble_ui.Status.Center.{
  StatusCenter, NewEntryEvent, new, push_new, allocated, complete_entry, move_existing_entry_to_top,
  complete_entry_descendants,
}
use hubble_ui.Status.Center.Invariant.{IsConsistent}
use hubble_ui.Status.Center.Termination.{completes}
use hubble_ui.Status.Center.Completion.{Chain}
use hubble_ui.Status.Center.Results.{complete_entry_descendants-Chain, allocated-IsConsistent}
use hubble_ui.Status.Center.Reach.{
  Reachable, created, pushed, push_new-ends, Reachable-IsConsistent,
}
use hubble_ui.Status.Notices.{
  Texts, data_streams_reconnecting, streams_reconnecting, streams_reconnected,
  push_streams_reconnected, push_streams_reconnecting_delay, push_streams_reconnect_failed,
}
use hubble_ui.Status.Notices.Laws.{push_streams_reconnected-quiet}

abbrev grpc_codes : StatusCodes
grpc_codes = record {
  ok = 0;
  canceled = 1;
  unknown = 2;
  invalid_argument = 3;
  deadline_exceeded = 4;
  not_found = 5;
  permission_denied = 7;
  resource_exhausted = 8;
  failed_precondition = 9;
  aborted = 10;
  unimplemented = 12;
  unavailable = 14;
  unauthenticated = 16;
}

-- A number is written as that many strokes here.
abbrev texts : Texts
texts = record {
  to_text = λ n. n ∷ [];
  seconds = λ n. n ∷ [];
  json = λ n. codes "{}";
  code_name = λ n. codes "Internal";
  status_codes = grpc_codes;
}

-- Each address has a hash of its own.
abbrev hash : ℕ → Str
hash a = a ∷ []

hash-distinct : (a b : ℕ) → hash a ≡ hash b → a ≡ b
hash-distinct a b h = cc

abbrev start : StatusCenter
start = new (λ a. empty 0) 2

push_new-ends_example :
    (c' : StatusCenter) × (calls : List (ℕ × NewEntryEvent)) × (push_new hash
        (streams_reconnecting texts 7)
        start
      ≡ some (c', calls))
    × Reachable hash c'
    × (length c'.notifications ≤ c'.max_notifications)
push_new-ends_example =
    push_new-ends hash (streams_reconnecting texts 7) start hash-distinct
      (created (λ a. empty 0) 2 (omega arith))

abbrev begun : Reachable hash start
begun = created (λ a. empty 0) 2 (omega arith)

abbrev ending :
    Option (StatusCenter × List (ℕ × NewEntryEvent)) → StatusCenter × List (ℕ × NewEntryEvent)
ending none = (start, [])
ending (some r) = r

-- The center after the streams are told to be reconnecting
abbrev lost : StatusCenter × List (ℕ × NewEntryEvent)
lost = ending (push_new hash (streams_reconnecting texts 7) start)

lost-pushed : push_new hash (streams_reconnecting texts 7) start ≡ some (lost.0, lost.1)
unfolding push_new str_eq new streams_reconnecting
lost-pushed = refl

abbrev lost-Reachable : Reachable hash lost.0
lost-Reachable = pushed (streams_reconnecting texts 7) start lost.0 lost.1 begun lost-pushed

Reachable-IsConsistent_example : IsConsistent [] lost.0
Reachable-IsConsistent_example = Reachable-IsConsistent hash lost.0 hash-distinct lost-Reachable

abbrev back : StatusCenter × List (ℕ × NewEntryEvent)
back = ending (push_streams_reconnected texts hash 9 lost.0)

back-pushed : push_streams_reconnected texts hash 9 lost.0 ≡ some (back.0, back.1)
unfolding push_streams_reconnected push_new str_eq new streams_reconnecting add_all add has
    move_existing_entry_to_top complete_entry
back-pushed = refl

push_streams_reconnected-quiet_example :
    (push_streams_reconnecting_delay texts hash 1500 back.0 ≡ some (back.0, []))
    × (push_streams_reconnect_failed texts hash none back.0 ≡ some (back.0, []))
push_streams_reconnected-quiet_example =
    push_streams_reconnected-quiet texts hash 9 1500 none lost.0 back.0 back.1 hash-distinct
      lost-Reachable back-pushed

-- The entry that completes that of the streams, before its push
abbrev completing : StatusCenter
completing = allocated (streams_reconnected texts 9 1) lost.0

abbrev nothing_completed : StatusCenter × List ℕ
nothing_completed = (start, [])

abbrev completed : StatusCenter × List ℕ
completed = elim (complete_entry_descendants hash 1 completing) [
  | none ↦ nothing_completed
  | some r ↦ r
]

completing-completed :
    complete_entry_descendants hash 1 completing ≡ some (completed.0, completed.1)
unfolding complete_entry_descendants push_new str_eq new streams_reconnecting streams_reconnected
    add_all add has complete_entry
completing-completed = refl

complete_entry_descendants-Chain_example :
    (Chain completing (completes completing 1) data_streams_reconnecting
      → get data_streams_reconnecting completed.0.keyed_entries ≡ none)
    × ((get data_streams_reconnecting completed.0.keyed_entries
          ≡ get data_streams_reconnecting completing.keyed_entries)
        ⊎ Chain completing (completes completing 1) data_streams_reconnecting)
complete_entry_descendants-Chain_example =
    complete_entry_descendants-Chain hash 1 completing completed.0 completed.1 []
      data_streams_reconnecting
      (allocated-IsConsistent hash (streams_reconnected texts 9 1) lost.0
        (Reachable-IsConsistent hash lost.0 hash-distinct lost-Reachable))
      completing-completed
