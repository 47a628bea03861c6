-- ===== src/Store/Frames.antt =====
-- src/store/frame.ts and src/store/stores/main.ts: the stores of a frame, and how the current frame
-- is made of the global one. Flows and the endpoints of layer 7 are left out.
pub mod Laws
use hubble_ui.Prelude.{
  ℕ, Bool, true, false, not, Option, none, some, List, [], ◌∷◌, map, Str, if◌then◌else◌,
}
use hubble_ui.Flow.{Flow, Runtime}
use hubble_ui.Link
use hubble_ui.Link.{Link, HubbleLink, Heap}
use hubble_ui.ServiceMap.Card
use hubble_ui.ServiceMap.Card.{Card, Service}
use hubble_ui.Interactions.Endpoints
use hubble_ui.Interactions.LinkConnections.{build_from_links}
use hubble_ui.Filtering.Filters.{Filters}
use hubble_ui.Filtering.MapFilter.{FilterResult, filter_map}
use hubble_ui.Store.Links.{
  StateChange, unknown, deleted, add_links, upsert_links, apply_link_change, move_links,
  clear_links,
}
use hubble_ui.Store.Services
use hubble_ui.Store.Services.{
  change_card, upsert_card, move_cards, apply_service_changes, replace_with_service_map,
  extend_with_service_map,
}
use hubble_ui.Store.Namespaces
use hubble_ui.Store.Namespaces.{NamespaceStore, set_current, current}
use hubble_ui.Store.Controls
use hubble_ui.Store.Controls.{ControlStore}

pub record StoreFrame : Type 0 where
  pub links : List Link
  pub cards : List Card
  pub namespaces : NamespaceStore
  pub controls : ControlStore

unfoldable pub empty_with_shared : ControlStore → NamespaceStore → StoreFrame
empty_with_shared controls nss = record {
  links = [];
  cards = [];
  namespaces = nss;
  controls = controls;
}

-- `flush`, with its option `namespaces`
unfoldable pub flush : StoreFrame → Bool → StoreFrame
unfolding clear_links Namespaces.clear
flush f with_namespaces = record f {
  links = clear_links f.links;
  cards = [];
  namespaces = if with_namespaces then Namespaces.clear f.namespaces else f.namespaces;
}

unfoldable pub set_services : StoreFrame → List Service → StoreFrame
unfolding Services.set
set_services f services = record f { cards = Services.set services }

unfoldable pub set_filters : StoreFrame → Filters → StoreFrame
unfolding Controls.set_filters set_current
set_filters f filters = record f {
  controls = Controls.set_filters f.controls filters;
  namespaces = (set_current f.namespaces filters.namespace).0;
}

-- The getter `filters` of the store, whose frames share its controls and namespaces
unfoldable pub get_filters : ControlStore → NamespaceStore → Filters
unfolding current
get_filters controls namespaces = record {
  namespace = elim (current namespaces) [ none ↦ none | some ns ↦ some ns.namespace ];
  verdicts = some controls.verdicts;
  http_status = controls.http_status;
  filters = some controls.flow_filters;
  skip_host = some (not controls.show_host);
  skip_kube_dns = some (not controls.show_kube_dns);
  skip_remote_node = some (not controls.show_remote_node);
  skip_prometheus_app = some (not controls.show_prometheus_app);
}

module _ (to_text : ℕ → Str) where
  unfoldable pub apply_changes : StoreFrame → List (Service × StateChange) → StoreFrame
  unfolding apply_service_changes
  apply_changes f changes = record f { cards = apply_service_changes to_text f.cards changes }

  -- `extractAccessPoint` of a HubbleLink
  unfoldable pub extract_hubble_point : List Card → HubbleLink → List Card
  unfolding change_card Endpoints.from_hubble_link Card.upsert_access_point
  extract_hubble_point cards hl =
      let ap = Endpoints.from_hubble_link hl in
      change_card ap.service_id (λ card. Card.upsert_access_point to_text card ap) cards

  unfoldable pub apply_service_link_changes :
      Heap → StoreFrame → List (HubbleLink × StateChange) → StoreFrame × Heap
  unfolding apply_link_change extract_hubble_point
  apply_service_link_changes heap f [] = (f, heap)
  apply_service_link_changes heap f ((hl, change) ∷ changes) =
      let (links, heap') = apply_link_change heap f.links hl change in
      apply_service_link_changes heap'
        (record f { links = links; cards = extract_hubble_point f.cards hl }) changes

  -- The frame that `moveServices` and `moveServiceLinks` change
  unfoldable pub move_services : StoreFrame → StoreFrame → StoreFrame
  unfolding move_cards
  move_services f to = record to { cards = move_cards to_text to.cards f.cards }

  unfoldable pub move_service_links : StoreFrame → StoreFrame → StoreFrame
  unfolding move_links
  move_service_links f to = record to { links = (move_links to.links f.links).0 }

  -- The cards and the links of `applyFrame`: the links are cloned, and added by their HubbleLinks.
  unfoldable pub apply_frame : Runtime → StoreFrame → StoreFrame → List Flow → Filters → StoreFrame
  unfolding filter_map build_from_links move_cards add_links Link.clone
  apply_frame rt f rhs flows filters =
      let cards_map = Services.cards_map rhs.cards in
      let result =
        filter_map rt to_text filters flows cards_map (build_from_links to_text rhs.links) in
      record f {
        cards = move_cards to_text f.cards result.services;
        links = add_links f.links (map Link.clone result.links);
      }

  unfoldable pub replace_service_map : StoreFrame → List Service → List Link → Bool → StoreFrame
  unfolding flush add_links replace_with_service_map
  replace_service_map f services links with_namespaces =
      let flushed = flush f with_namespaces in
      record flushed {
        links = add_links flushed.links links;
        cards = replace_with_service_map to_text services links;
      }

  unfoldable pub extend_service_map :
      Heap → StoreFrame → List Service → List Link → StoreFrame × Heap
  unfolding upsert_links extend_with_service_map
  extend_service_map heap f services links =
      let (links', heap') = upsert_links heap f.links links in
      (
        record f { links = links'; cards = extend_with_service_map to_text f.cards services links },
        heap',
      )

  -- `resetCurrentFrame` of the store, with its current and its global frame
  unfoldable pub reset_current_frame :
      Runtime → StoreFrame → StoreFrame → List Flow → Filters → Bool → StoreFrame
  unfolding flush apply_frame
  reset_current_frame rt current_frame global_frame flows filters with_namespaces =
      apply_frame rt (flush current_frame with_namespaces) global_frame flows filters
