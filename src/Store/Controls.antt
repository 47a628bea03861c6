-- ===== src/Store/Controls.antt =====
-- src/store/stores/controls.ts: what the user chose. The selected flow is a value.
use hubble_ui.Prelude.{
  Bool, true, false, not, Option, none, some, List, [], ◌∷◌, map, any, filter, Str, str_Eq,
}
use hubble_ui.Prelude.Sets.{has}
use hubble_ui.Hubble.{Verdict}
use hubble_ui.Flow.{Flow}
use hubble_ui.Filtering.Entry.{FilterEntry, to_string}
use hubble_ui.Filtering.Entry.Builders.{is_tcp_flag}
use hubble_ui.Filtering.Filters.{Filters, or_empty}
use hubble_ui.Filtering.FilterFlow.{is_set}

-- The enumeration of src/domain/common
pub data Application : Type 0 where
  service_map : Application

pub record ControlStore : Type 0 where
  pub current_app : Application
  pub selected_table_flow : Option Flow
  pub show_cross_namespace_activity : Bool
  pub verdicts : List Verdict
  pub http_status : Option Str
  pub flow_filters : List FilterEntry
  pub show_host : Bool
  pub show_kube_dns : Bool
  pub show_remote_node : Bool
  pub show_prometheus_app : Bool

unfoldable pub new : ControlStore
new = record {
  current_app = service_map;
  selected_table_flow = none;
  show_cross_namespace_activity = true;
  verdicts = [];
  http_status = none;
  flow_filters = [];
  show_host = false;
  show_kube_dns = false;
  show_remote_node = false;
  show_prometheus_app = false;
}

-- The four flags of what is shown are not copied. A clone of a flow or of an entry is that value.
unfoldable pub clone : ControlStore → ControlStore
unfolding new
clone s = record new {
  current_app = s.current_app;
  selected_table_flow = s.selected_table_flow;
  show_cross_namespace_activity = s.show_cross_namespace_activity;
  verdicts = s.verdicts;
  http_status = s.http_status;
  flow_filters = s.flow_filters;
}

unfoldable pub reset_user_selected : ControlStore → ControlStore
reset_user_selected s = record s {
  selected_table_flow = none;
  verdicts = [];
  http_status = none;
  flow_filters = [];
}

unfoldable pub select_table_flow : ControlStore → Option Flow → ControlStore
select_table_flow s flow = record s { selected_table_flow = flow }

unfoldable pub set_cross_namespace_activity : ControlStore → Bool → ControlStore
set_cross_namespace_activity s v = record s { show_cross_namespace_activity = v }

unfoldable pub toggle_verdict : ControlStore → Option Verdict → ControlStore × List Verdict
toggle_verdict s verdict =
    let next : List Verdict = elim verdict [ none ↦ [] | some v ↦ v ∷ [] ] in
    (record s { verdicts = next }, next)

unfoldable pub set_verdicts : ControlStore → List Verdict → ControlStore
set_verdicts s verdicts = record s { verdicts = verdicts }

-- The setters that return the value from before
unfoldable pub set_http_status : ControlStore → Option Str → ControlStore × Option Str
set_http_status s st = (record s { http_status = st }, s.http_status)

unfoldable pub set_flow_filters : ControlStore → List FilterEntry → ControlStore × List FilterEntry
set_flow_filters s ffs = (record s { flow_filters = ffs }, s.flow_filters)

unfoldable pub set_show_host : ControlStore → Bool → ControlStore × Bool
set_show_host s val = (record s { show_host = val }, val)

unfoldable pub toggle_show_host : ControlStore → ControlStore × Bool
unfolding set_show_host
toggle_show_host s = set_show_host s (not s.show_host)

unfoldable pub set_show_kube_dns : ControlStore → Bool → ControlStore × Bool
set_show_kube_dns s val = (record s { show_kube_dns = val }, val)

unfoldable pub toggle_show_kube_dns : ControlStore → ControlStore × Bool
unfolding set_show_kube_dns
toggle_show_kube_dns s = set_show_kube_dns s (not s.show_kube_dns)

unfoldable pub set_show_remote_node : ControlStore → Bool → ControlStore × Bool
set_show_remote_node s val = (record s { show_remote_node = val }, val)

unfoldable pub toggle_show_remote_node : ControlStore → ControlStore × Bool
unfolding set_show_remote_node
toggle_show_remote_node s = set_show_remote_node s (not s.show_remote_node)

unfoldable pub set_show_prometheus_app : ControlStore → Bool → ControlStore × Bool
set_show_prometheus_app s val = (record s { show_prometheus_app = val }, val)

unfoldable pub toggle_show_prometheus_app : ControlStore → ControlStore × Bool
unfolding set_show_prometheus_app
toggle_show_prometheus_app s = set_show_prometheus_app s (not s.show_prometheus_app)

unfoldable pub set_filters : ControlStore → Filters → ControlStore
set_filters s f = record s {
  verdicts = or_empty f.verdicts;
  http_status = f.http_status;
  flow_filters = or_empty f.filters;
  show_host = not (is_set f.skip_host);
  show_kube_dns = not (is_set f.skip_kube_dns);
  show_remote_node = not (is_set f.skip_remote_node);
  show_prometheus_app = not (is_set f.skip_prometheus_app);
}

unfoldable pub filtered_flow_filters : ControlStore → List FilterEntry
unfolding filter is_tcp_flag
filtered_flow_filters s = filter (λ f. not (is_tcp_flag f)) s.flow_filters

unfoldable pub are_some_filter_entries_enabled : ControlStore → List FilterEntry → Bool
unfolding filtered_flow_filters any has to_string
are_some_filter_entries_enabled s entries =
    any (λ fe. has (to_string fe) (map to_string (filtered_flow_filters s))) entries

unfoldable pub active_verdict : ControlStore → Option Verdict
active_verdict s = elim s.verdicts [ [] ↦ none | v ∷ vs ↦ some v ]
