-- ===== src/Filtering/FilterService.antt =====
-- src/domain/filtering/filter-service.ts: whether the filters keep a service of the service map.
pub mod Laws
use hubble_ui.Prelude.{
  ℕ, Bool, true, false, not, ◌&&◌, ◌||◌, Option, none, some, List, Str, ◌==◌, str_Eq, bool_Eq,
  if◌then◌else◌,
}
use hubble_ui.Prelude.Maps.{is_some}
use hubble_ui.Prelude.Sets.{has}
use hubble_ui.Helpers.Workload.{Workload, includes}
use hubble_ui.ServiceMap.Card
use hubble_ui.ServiceMap.Card.{Card, Service}
use hubble_ui.Labels.Search.{find_kv_by_string}
use hubble_ui.Filtering.Entry.{FilterEntry, label, dns, identity, workload, kind_Eq, as_workload}
use hubble_ui.Filtering.Filters.{Filters}
use hubble_ui.Filtering.FilterFlow.{is_set}

unfoldable pub filter_service : Card → Filters → Bool
filter_service svc filters =
    if is_set filters.skip_host && Card.is_host svc
    then false
    else if is_set filters.skip_remote_node && Card.is_remote_node svc
    then false
    else if is_set filters.skip_prometheus_app && Card.is_prometheus_app svc
    then false
    else true

-- The variable `pass` before the last line
unfoldable pub passes_service : Service → FilterEntry → Bool
unfolding find_kv_by_string has as_workload includes
passes_service service e =
    if e.kind == label
    then is_some (find_kv_by_string service.labels e.query)
    else if e.kind == dns
    then has e.query service.dns_names || service.id == e.query
    else if e.kind == workload
    then elim (as_workload e) [ none ↦ true | some wl ↦ includes service.workloads wl ]
    else true

-- `to_text` writes a number in decimal digits, as `toString` does.
unfoldable pub filter_service_by_entry : (ℕ → Str) → Service → FilterEntry → Bool
unfolding passes_service
filter_service_by_entry to_text service e =
    if e.kind == identity
    then to_text service.identity_number == e.query
    else if e.negative
    then not (e.negative == passes_service service e)
    else passes_service service e
