-- ===== src/Router.antt =====
-- src/router/router.ts: the filter entries and the verdicts of the location's search parameters.
pub mod Laws
pub mod Transactions
use hubble_ui.Prelude.{ℕ, Option, none, some, List, map, Str, codes, join, is_empty, if◌then◌else◌}
use hubble_ui.Hubble.{Verdict}
use hubble_ui.Helpers.Verdict.{join_verdicts, parse_many_set}
use hubble_ui.Filtering.Entry.{FilterEntry, to_string, parse_many}

-- The value that the handler of `onFlowFiltersChanged` stores: null where there is no text
unfoldable pub flow_filters_param : Option (List FilterEntry) → Option Str
flow_filters_param none = none
flow_filters_param (some entries) =
    let str = join (codes ",") (map to_string entries) in if is_empty str then none else some str

-- The field `flowFilters` of `getRouteParams`
unfoldable pub route_flow_filters : Option Str → List FilterEntry
route_flow_filters param = parse_many param b','

-- The value that the handler of `onVerdictsChanged` stores
unfoldable pub verdicts_param : Option (List Verdict) → Option Str
unfolding join_verdicts
verdicts_param verdicts =
    let param = join_verdicts verdicts b'-' in if is_empty param then none else some param

-- The field `verdicts` of `getRouteParams`
unfoldable pub route_verdicts : (Str → Option ℕ) → Option Str → List Verdict
unfolding parse_many_set
route_verdicts to_number param = parse_many_set to_number param b'-'
