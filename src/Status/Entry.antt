-- ===== src/Status/Entry.antt =====
-- src/ui/status-center/index.ts and status-entry-builder.ts: an entry of the status center, and the
-- setters by which one is built. The hash of an entry, a random text, is left to the center.
use hubble_ui.Prelude.{
  ℕ, ◌+◌, Bool, false, Option, none, some, List, [], Str, codes, str_Eq, nat_eq, nat_Eq, ◌==◌, find,
  ◌∷◌,
}
use hubble_ui.Prelude.Sets.{from_list}
use hubble_ui.Status.Errors.{Error}

pub data Intent : Type 0 where
  info success debug warning error critical : Intent

unfoldable pub intent_text : Intent → Str
intent_text info = codes "info"
intent_text success = codes "success"
intent_text debug = codes "debug"
intent_text warning = codes "warning"
intent_text error = codes "error"
intent_text critical = codes "critical"

abbrev intent_number : Intent → ℕ
intent_number info = 0
intent_number success = 1
intent_number debug = 2
intent_number warning = 3
intent_number error = 4
intent_number critical = 5

-- `===` on intents
abbrev pub intent_eq : Intent → Intent → Bool
intent_eq a b = nat_eq (intent_number a) (intent_number b)

-- `component` and `key` may be null; `keysToComplete` may be undefined.
pub record StatusEntry : Type 0 where
  pub intent : Intent
  pub title : Str
  pub details : Option Str
  pub component : Option Str
  pub is_persistent : Bool
  pub is_pending : Bool
  pub cardinality : ℕ
  pub cardinality_prefix : Option Str
  pub underlying_error : Option Error
  pub key : Option Str
  pub keys_to_complete : Option (List Str)
  pub occured_at : ℕ

-- `parseIntent`: the intent that has the text
unfoldable pub parse_intent : Option Str → Option Intent
unfolding find intent_text
parse_intent none = none
parse_intent (some text) =
    find (λ i. intent_text i == text) (info ∷ success ∷ debug ∷ warning ∷ error ∷ critical ∷ [])

-- `new StatusEntry(Intent.Debug, '')` at a time
unfoldable pub empty : ℕ → StatusEntry
empty now = record {
  intent = debug;
  title = [];
  details = none;
  component = some (codes "hubble-ui");
  is_persistent = false;
  is_pending = false;
  cardinality = 1;
  cardinality_prefix = none;
  underlying_error = none;
  key = none;
  keys_to_complete = none;
  occured_at = now;
}

abbrev pub is_critical : StatusEntry → Bool
is_critical e = intent_eq e.intent critical

abbrev pub is_error : StatusEntry → Bool
is_error e = intent_eq e.intent error

-- What the entry is after `occuredAgain(entry)`: all but its persistence and the keys it completes
unfoldable pub occured_again : StatusEntry → StatusEntry → StatusEntry
occured_again e entry = record entry {
  is_persistent = e.is_persistent;
  keys_to_complete = e.keys_to_complete;
}

unfoldable pub set_intent : Intent → StatusEntry → StatusEntry
set_intent i e = record e { intent = i }

unfoldable pub set_title : Option Str → StatusEntry → StatusEntry
set_title none e = record e { title = [] }
set_title (some title) e = record e { title = title }

unfoldable pub set_details : Option Str → StatusEntry → StatusEntry
set_details details e = record e { details = details }

unfoldable pub set_component : Option Str → StatusEntry → StatusEntry
set_component c e = record e { component = c }

unfoldable pub set_persistent : Bool → StatusEntry → StatusEntry
set_persistent val e = record e { is_persistent = val }

-- `!!p`
unfoldable pub set_pending : Option Bool → StatusEntry → StatusEntry
set_pending none e = record e { is_pending = false }
set_pending (some p) e = record e { is_pending = p }

unfoldable pub set_underlying_error : Option Error → StatusEntry → StatusEntry
set_underlying_error err e = record e { underlying_error = err }

unfoldable pub set_time : ℕ → StatusEntry → StatusEntry
set_time d e = record e { occured_at = d }

unfoldable pub set_cardinality : ℕ → StatusEntry → StatusEntry
set_cardinality c e = record e { cardinality = c }

-- Without keys, the set that is there is emptied.
unfoldable pub set_keys_to_complete : Option (List Str) → StatusEntry → StatusEntry
unfolding from_list
set_keys_to_complete (some keys) e = record e { keys_to_complete = some (from_list keys) }
set_keys_to_complete none e = record e {
  keys_to_complete = elim e.keys_to_complete [ none ↦ none | some _ ↦ some [] ];
}

unfoldable pub inc_cardinality : ℕ → StatusEntry → StatusEntry
inc_cardinality di e = record e { cardinality = e.cardinality + di }

unfoldable pub set_cardinality_prefix : Option Str → StatusEntry → StatusEntry
set_cardinality_prefix prefix e = record e { cardinality_prefix = prefix }

unfoldable pub set_key : Option Str → StatusEntry → StatusEntry
set_key key e = record e { key = key }
