-- ===== src/Router/Laws.antt =====
-- The filter entries on their way through the location, of src/router/router.ts.
use hubble_ui.Prelude.{ℕ, Str, Option, ◌≡◌, refl, some, List, [], ◌∷◌, All, arith, map, codes, join}
use hubble_ui.Prelude.TextLaws.{join-ne-nil}
use hubble_ui.Filtering.Entry.{FilterEntry, to_string, parse_many}
use hubble_ui.Filtering.Entry.RoundTrip.{IsListable, parse_many-join, to_string-ne-nil}
use hubble_ui.Hubble.{Verdict, verdict_Eq}
use hubble_ui.Helpers.Verdict as VerdictTexts
use hubble_ui.Helpers.Verdict.{parse_many_set, join_verdicts, number_text}
use hubble_ui.Helpers.Verdict.Laws.{ReadsDigits, parse_many-join_verdicts}
use hubble_ui.Prelude.Sets.{SameElements, from_list, add_all, has-from_list}
use hubble_ui.Router.{flow_filters_param, route_flow_filters, verdicts_param, route_verdicts}

-- The entries that the router reads from the location are those that it stored there, in order,
-- if each has a readable meta (a text without colon for a workload, none for the other kinds) and
-- a text with no comma and no white space around it.
pub route_flow_filters-flow_filters_param :
    (entries : List FilterEntry)
    → All IsListable entries
    → route_flow_filters (flow_filters_param (some entries)) ≡ entries
unfolding route_flow_filters flow_filters_param
route_flow_filters-flow_filters_param [] h = unfold join parse_many in refl
route_flow_filters-flow_filters_param (e ∷ es) h = ground (
  arith,
  join-ne-nil (codes ",") (to_string e) (map to_string es) (to_string-ne-nil e),
  parse_many-join e es h,
)

-- The verdicts that the router reads from the location are, as a set, those that it stored there, if
-- `+text` reads each digit below eight as its number.
pub route_verdicts-verdicts_param :
    (to_number : Str → Option ℕ) (verdicts : List Verdict)
    → ReadsDigits to_number
    → SameElements (route_verdicts to_number (verdicts_param (some verdicts))) verdicts
unfolding route_verdicts verdicts_param parse_many_set join_verdicts
route_verdicts-verdicts_param to_number [] h k =
    unfold join VerdictTexts.parse_many from_list add_all in refl
route_verdicts-verdicts_param to_number (v ∷ vs) h k = ground (
  arith,
  join-ne-nil (codes "-") (number_text v) (map number_text vs) (ground arith),
  parse_many-join_verdicts to_number v vs h,
  has-from_list k (v ∷ vs),
)
