-- ===== src/Filtering/FilterLink.antt =====
-- src/domain/filtering/filter-link.ts: whether the filters keep a link of the service map.
pub mod Laws
use hubble_ui.Prelude.{
  Bool, true, false, not, ◌&&◌, ◌||◌, List, Str, any, ◌==◌, str_Eq, is_empty, if◌then◌else◌,
}
use hubble_ui.Prelude.Sets.{has}
use hubble_ui.Hubble.{Verdict, verdict_Eq}
use hubble_ui.Link
use hubble_ui.Link.{Link}
use hubble_ui.Filtering.Entry.{FilterEntry, identity, kind_Eq, from_required, to_required}
use hubble_ui.Filtering.Filters.{Filters, or_empty}
use hubble_ui.Filtering.FilterFlow.{decide_entries, is_set}

-- An identity entry that is negative passes at once if an end that it asks for does not match.
unfoldable pub filter_link_by_entry : Link → FilterEntry → Bool
unfolding from_required to_required
filter_link_by_entry l e =
    let source_match = Link.source_id l == e.query in
    let destination_match = Link.destination_id l == e.query in
    if e.kind == identity
    then if from_required e && (not source_match && e.negative)
      then true
      else if to_required e && (not destination_match && e.negative)
      then true
      else e.negative || ((from_required e && source_match) || (to_required e && destination_match))
    else if e.negative && (not source_match && not destination_match)
    then true
    else e.negative || (true || true)

unfoldable pub filter_link : Link → Filters → Bool
unfolding any has decide_entries
filter_link l fs =
    if not (is_empty (or_empty fs.verdicts))
      && not (any (λ verdict. has verdict l.verdicts) (or_empty fs.verdicts))
    then false
    else if Link.is_dns_request l && is_set fs.skip_kube_dns
    then false
    else is_empty (or_empty fs.filters)
      || decide_entries (filter_link_by_entry l) (or_empty fs.filters)
