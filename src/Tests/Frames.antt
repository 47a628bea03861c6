-- ===== src/Tests/Frames.antt =====
-- The theorems on frames, at one link, one card and one flow.
use hubble_ui.Prelude.{◌≡◌, true, false, some, [], ◌∷◌, codes, All}
use hubble_ui.ServiceMap.Card.{from_service}
use hubble_ui.Filtering.FilterService.{filter_service}
use hubble_ui.Store.Links.Laws.{HasDistinctIds}
use hubble_ui.Store.Controls.{ControlStore, service_map}
use hubble_ui.Store.Frames.{StoreFrame, set_filters, get_filters, reset_current_frame}
use hubble_ui.Store.Frames.Laws.{
  filled, get_filters-set_filters, HasOneVerdict, reset_current_frame-passes,
}
use hubble_ui.Tests.{runtime, digit, service, link, ui_to_db, forwarded_only}

abbrev controls : ControlStore
controls = record {
  current_app = service_map;
  selected_table_flow = some ui_to_db;
  show_cross_namespace_activity = true;
  verdicts = [];
  http_status = some (codes "200");
  flow_filters = [];
  show_host = true;
  show_kube_dns = false;
  show_remote_node = true;
  show_prometheus_app = false;
}

abbrev frame : StoreFrame
frame = record {
  links = link ∷ [];
  cards =
      from_service (record service { id = codes "ui" })
      ∷ from_service (record service { id = codes "db" })
      ∷ [];
  namespaces = record { relay_namespaces = []; current_namespace = some (codes "web") };
  controls = controls;
}

get_filters-set_filters_example :
    get_filters
      (set_filters frame forwarded_only).controls
      (set_filters frame forwarded_only).namespaces
    ≡ filled forwarded_only
get_filters-set_filters_example = get_filters-set_filters frame forwarded_only

reset_current_frame-passes_example :
    let made = reset_current_frame digit runtime frame frame (ui_to_db ∷ []) forwarded_only false in
    All (λ card. filter_service card forwarded_only ≡ true) made.cards
    × HasDistinctIds made.links
    × All HasOneVerdict made.links
reset_current_frame-passes_example =
    reset_current_frame-passes runtime digit frame frame (ui_to_db ∷ []) forwarded_only false
