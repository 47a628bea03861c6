-- ===== src/ServiceMap/Card.antt =====
-- src/domain/service-map/card.ts: a card of the service map, with its access points by their ids. An
-- access point is a value here: cards are taken to share none.
use hubble_ui.Prelude.{
  ℕ, Bool, true, not, ◌&&◌, ◌||◌, Option, none, some, List, [], ◌∷◌, Str, str_Eq, nat_Eq, codes,
  any, find, is_empty, ◌==◌, if◌then◌else◌,
}
use hubble_ui.Prelude.Maps.{get, put}
use hubble_ui.Helpers.Workload
use hubble_ui.Helpers.Workload.{Workload}
use hubble_ui.Labels.{Kv}
use hubble_ui.Labels.Detect.{LabelsProps, detect}
use hubble_ui.Labels.Search.{find_namespace_in_labels}
use hubble_ui.Link.{Link}
use hubble_ui.Interactions.Endpoints
use hubble_ui.Interactions.Endpoints.{ServiceEndpoint, L7Kind, accumulate_l7_protocol}

-- The fields of HubbleService (src/domain/hubble.ts) that the program reads
pub record Service : Type 0 where
  pub id : Str
  pub service_namespace : Str
  pub labels : List Kv
  pub dns_names : List Str
  pub workloads : List Workload
  pub identity_number : ℕ

pub record Card : Type 0 where
  pub service : Service
  pub access_points : List (Str × ServiceEndpoint)
  pub identity : ℕ

unfoldable pub from_service : Service → Card
from_service srvc = record { service = srvc; access_points = []; identity = srvc.identity_number }

unfoldable pub set_identity : Card → ℕ → Card × Bool
set_identity c identity = (record c { identity = identity }, not (c.identity == identity))

module _ (to_text : ℕ → Str) where
  unfoldable pub upsert_point :
      List (Str × ServiceEndpoint) → ServiceEndpoint → List (Str × ServiceEndpoint)
  unfolding get put
  upsert_point points ap =
      let key = Endpoints.id to_text ap in
      elim (get key points) [
        | none ↦ put key ap points
        | some existing ↦ put key (Endpoints.update existing ap) points
      ]

  unfoldable pub upsert_access_point : Card → ServiceEndpoint → Card
  unfolding upsert_point
  upsert_access_point c ap = record c { access_points = upsert_point c.access_points ap }

  -- The endpoint is made of the HubbleLink, not of the Link.
  unfoldable pub upsert_access_point_from_link : Card → Link → Card
  unfolding upsert_access_point Endpoints.from_hubble_link
  upsert_access_point_from_link c link = upsert_access_point c (Endpoints.from_hubble_link link.ref)

  unfoldable pub upsert_clones :
      List (Str × ServiceEndpoint) → List (Str × ServiceEndpoint) → List (Str × ServiceEndpoint)
  unfolding upsert_point Endpoints.clone
  upsert_clones points [] = points
  upsert_clones points ((key, ap) ∷ aps) =
      upsert_clones (upsert_point points (Endpoints.clone ap)) aps

  unfoldable pub clone : Card → Card
  unfolding upsert_clones from_service set_identity
  clone c = record (from_service c.service) {
    access_points = upsert_clones [] c.access_points;
    identity = c.identity;
  }

unfoldable pub drop_access_points : Card → Card
drop_access_points c = record c { access_points = [] }

unfoldable pub id : Card → Str
id c = c.service.id

unfoldable pub has_workload : Card → Workload → Bool
unfolding any Workload.equals
has_workload c target = any (λ wl. Workload.equals wl target) c.service.workloads

unfoldable pub workload : Card → Option Workload
workload c = elim c.service.workloads [ [] ↦ none | wl ∷ wls ↦ some wl ]

-- The memo `_labelsProps` is left out: a service's labels do not change.
unfoldable pub labels_props : Card → LabelsProps
labels_props c = detect c.service.labels

-- `text || null`
abbrev or_null : Option Str → Option Str
or_null none = none
or_null (some s) = if is_empty s then none else some s

unfoldable pub app_label : Card → Option Str
unfolding labels_props
app_label c = or_null (labels_props c).app_name

unfoldable pub cluster_name : Card → Option Str
unfolding labels_props
cluster_name c = or_null (labels_props c).cluster_name

unfoldable pub domain : Card → Option Str
domain c = elim c.service.dns_names [ [] ↦ none | name ∷ names ↦ some name ]

unfoldable pub workload_name : Card → Option Str
unfolding find
workload_name c = elim (find (λ w. not (is_empty w.name)) c.service.workloads) [
  | none ↦ none
  | some w ↦ some w.name
]

unfoldable pub app_name : Card → Str
unfolding app_label workload_name
app_name c = elim (app_label c) [
  | some label ↦ label
  | none ↦ elim (workload_name c) [ some name ↦ name | none ↦ codes "Unknown App" ]
]

unfoldable pub caption : Card → Str
unfolding labels_props domain app_name
caption c = elim (or_null (domain c)) [
  | some name ↦
      if (labels_props c).is_world
      then name
      else if (labels_props c).is_ingress
      then codes "Ingress"
      else app_name c
  | none ↦ if (labels_props c).is_ingress then codes "Ingress" else app_name c
]

unfoldable pub has_clear_app_name : Card → Bool
unfolding app_name
has_clear_app_name c =
    not (app_name c == codes "Unknown App")
    && (not (app_name c == codes "unmanaged") && not (app_name c == codes "unknown"))

unfoldable pub namespace : Card → Option Str
unfolding find_namespace_in_labels
namespace c =
    if is_empty c.service.service_namespace
    then find_namespace_in_labels c.service.labels true
    else some c.service.service_namespace

unfoldable pub is_world : Card → Bool
unfolding labels_props
is_world c = (labels_props c).is_world

unfoldable pub is_host : Card → Bool
unfolding labels_props
is_host c = (labels_props c).is_host

unfoldable pub is_init : Card → Bool
unfolding labels_props
is_init c = (labels_props c).is_init

unfoldable pub is_remote_node : Card → Bool
unfolding labels_props
is_remote_node c = (labels_props c).is_remote_node

unfoldable pub is_ingress : Card → Bool
unfolding labels_props
is_ingress c = (labels_props c).is_ingress

unfoldable pub is_kube_dns : Card → Bool
unfolding labels_props
is_kube_dns c = (labels_props c).is_kube_dns

unfoldable pub has_dns : Card → Bool
has_dns c = not (is_empty c.service.dns_names)

unfoldable pub is_dns : Card → Bool
unfolding is_world has_dns
is_dns c = is_world c && has_dns c

unfoldable pub is_prometheus_app : Card → Bool
unfolding labels_props
is_prometheus_app c = (labels_props c).is_prometheus_app

-- `l.value` is one of two texts, for some label
unfoldable pub is_covalent_related : Card → Bool
unfolding any
is_covalent_related c =
    any (λ l. l.value == codes "covalent-exporter" || l.value == codes "covalent-agent")
      c.service.labels
