-- ===== src/Tests/Verdicts.antt =====
-- The theorems on verdicts as texts and on the location, at concrete verdicts and entries.
use hubble_ui.Prelude.{
  ℕ, ◌-◌, ◌≡◌, true, Option, none, some, [], ◌∷◌, Str, codes, All, refl, inl, trim, trim_start,
  arith,
}
use hubble_ui.Prelude.Sets.{SameElements}
use hubble_ui.Hubble.{verdict_Eq, dropped, forwarded}
use hubble_ui.Helpers.Verdict.{verdict_from_str, to_string}
use hubble_ui.Helpers.Verdict.Laws.{ReadsDigits, verdict_from_str-to_string}
use hubble_ui.Filtering.Entry
use hubble_ui.Filtering.Entry.RoundTrip.{IsListable}
use hubble_ui.Router.Transactions.{
  Router, drop_all, commit, get_route_params, search_params_updated,
}
use hubble_ui.Router.Transactions.Laws.{pending, committed, get_route_params-commit}
use hubble_ui.Tests.{from_ui}

-- `+text` for the texts of one digit
abbrev to_number : Str → Option ℕ
to_number (c ∷ []) = some (c - 48)
to_number _ = none

to_number-ReadsDigits : ReadsDigits to_number
to_number-ReadsDigits v = ground arith

-- A router with a namespace in its location and one change that waits
abbrev router : Router
router = record {
  location = some (codes "/");
  params = (codes "namespace", codes "old") ∷ (codes "verdicts", codes "5") ∷ [];
  transaction = drop_all ∷ [];
}

abbrev same_path : Str → Option Str → Option Str
same_path p base = some p

only_ui-IsListable : All IsListable (from_ui ∷ [])
unfolding Entry.to_string trim trim_start
only_ui-IsListable = ((inl (ground arith, refl), ground arith, refl), tt)

get_route_params-commit_example :
    let changed =
      pending router (some (codes "web")) (dropped ∷ forwarded ∷ []) none (from_ui ∷ []) in
    let emitted = (commit same_path changed).1 in
    let read = get_route_params to_number (search_params_updated router (committed emitted)) in
    (read.namespace ≡ some (codes "web"))
    × SameElements read.verdicts (dropped ∷ forwarded ∷ [])
    × (read.http_status ≡ none)
    × (read.flow_filters ≡ from_ui ∷ [])
get_route_params-commit_example =
    get_route_params-commit same_path to_number router (some (codes "web")) none
      (dropped ∷ forwarded ∷ []) (from_ui ∷ []) to_number-ReadsDigits only_ui-IsListable

verdict_from_str-to_string_example : verdict_from_str (to_string dropped true true) ≡ some dropped
verdict_from_str-to_string_example = verdict_from_str-to_string dropped true true
