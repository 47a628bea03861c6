-- ===== src/Tests/Entries.antt =====
-- The theorems on filter entries, at concrete entries.
use hubble_ui.Prelude.{
  ◌≡◌, refl, inl, inr, ◌↔◌, false, not, ◌&&◌, ◌||◌, some, [], ◌∷◌, Str, codes, arith, trim,
  trim_start, str_Eq,
}
use hubble_ui.Prelude.Sets.{has, IsDistinct}
use hubble_ui.Filtering.Entry.{to_string, parse}
use hubble_ui.Filtering.Entry.RoundTrip.{IsListable, parse-to_string}
use hubble_ui.Filtering.Entry.Combine.{combine}
use hubble_ui.Filtering.Entry.Combine.Changes.{combine_unchanged_iff}
use hubble_ui.Filtering.Entry.Combine.Laws.{texts, combine_texts}
use hubble_ui.Router.{flow_filters_param, route_flow_filters}
use hubble_ui.Router.Laws.{route_flow_filters-flow_filters_param}
use hubble_ui.Tests.{from_ui, not_to_api, not_db}

from_ui-IsListable : IsListable from_ui
unfolding to_string trim trim_start
from_ui-IsListable = (inl (ground arith, refl), ground arith, refl)

not_to_api-IsListable : IsListable not_to_api
unfolding to_string trim trim_start
not_to_api-IsListable = (inr (codes "Deployment", refl, refl, ground arith), ground arith, refl)

route_flow_filters-flow_filters_param_example :
    route_flow_filters (flow_filters_param (some (from_ui ∷ not_to_api ∷ [])))
    ≡ from_ui ∷ not_to_api ∷ []
route_flow_filters-flow_filters_param_example =
    route_flow_filters-flow_filters_param (from_ui ∷ not_to_api ∷ [])
      (from_ui-IsListable, (not_to_api-IsListable, tt))

parse-to_string_example : parse (to_string not_to_api) ≡ some not_to_api
parse-to_string_example = parse-to_string not_to_api not_to_api-IsListable.0

combine_texts_example :
    let result = (combine (from_ui ∷ not_db ∷ []) (from_ui ∷ not_to_api ∷ []) (not_db ∷ [])).0 in
    IsDistinct (texts result)
    × ((k : Str)
        → has k (texts result) ≡ (
            not (has k (texts (not_db ∷ [])))
            && (has k (texts (from_ui ∷ not_db ∷ []))
                || has k (texts (from_ui ∷ not_to_api ∷ [])))))
combine_texts_example =
    combine_texts (from_ui ∷ not_db ∷ []) (from_ui ∷ not_to_api ∷ []) (not_db ∷ [])

combine_unchanged_iff_example :
    ((combine (from_ui ∷ not_db ∷ []) (from_ui ∷ []) (not_to_api ∷ [])).1 ≡ false)
    ↔ ((combine (from_ui ∷ not_db ∷ []) (from_ui ∷ []) (not_to_api ∷ [])).0 ≡ from_ui ∷ not_db ∷ [])
combine_unchanged_iff_example =
    combine_unchanged_iff (from_ui ∷ not_db ∷ []) (from_ui ∷ []) (not_to_api ∷ [])
