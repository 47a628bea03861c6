-- ===== src/Labels/Detect.antt =====
-- src/domain/labels.ts: `Labels.detect` and the finders `isWorld`, `isHost` and the rest, which it
-- joins in one pass over the labels.
use hubble_ui.Prelude.{
  Bool, true, false, ◌||◌, Option, none, some, List, [], ◌∷◌, Str, ◌==◌, str_Eq, if◌then◌else◌,
}
use hubble_ui.Labels.{
  Kv, host, kube_apiserver, world, health, init, ingress, remote_node, kube_dns, prometheus_app,
  special_text, normalize_label, is_reserved, is_special, have_reserved,
}
use hubble_ui.Labels.Search.{
  truthy, or_undefined, get_app_name_from_label, find_app_name_from_labels_parts,
  is_cluster_name_label,
}

pub record LabelsProps : Type 0 where
  pub is_host : Bool
  pub is_kube_apiserver : Bool
  pub is_world : Bool
  pub is_remote_node : Bool
  pub is_kube_dns : Bool
  pub is_init : Bool
  pub is_health : Bool
  pub is_prometheus_app : Bool
  pub is_ingress : Bool
  pub app_name : Option Str
  pub cluster_name : Option Str

abbrev pub no_props : LabelsProps
no_props = record {
  is_host = false;
  is_kube_apiserver = false;
  is_world = false;
  is_remote_node = false;
  is_kube_dns = false;
  is_init = false;
  is_health = false;
  is_prometheus_app = false;
  is_ingress = false;
  app_name = none;
  cluster_name = none;
}

-- One round of the loop, on the normalised label
unfoldable pub detect_label : LabelsProps → Kv → LabelsProps
detect_label props kv = record {
  is_world = props.is_world || is_reserved kv (some world) false;
  is_kube_apiserver = props.is_kube_apiserver || is_reserved kv (some kube_apiserver) false;
  is_host = props.is_host || is_reserved kv (some host) false;
  is_init = props.is_init || is_reserved kv (some init) false;
  is_health = props.is_health || is_reserved kv (some health) false;
  is_kube_dns = props.is_kube_dns || is_special kv (some kube_dns) true;
  is_ingress = props.is_ingress || is_reserved kv (some ingress) false;
  is_remote_node = props.is_remote_node || is_reserved kv (some remote_node) false;
  is_prometheus_app = props.is_prometheus_app || kv.key == special_text prometheus_app;
  app_name =
      if truthy props.app_name
      then props.app_name
      else or_undefined (get_app_name_from_label kv true);
  cluster_name =
      if truthy props.cluster_name
      then props.cluster_name
      else if is_cluster_name_label kv false
      then some kv.value
      else none;
}

unfoldable pub detect_from : LabelsProps → List Kv → LabelsProps
unfolding detect_label
detect_from props [] = props
detect_from props (lbl ∷ labels) = detect_from (detect_label props (normalize_label lbl)) labels

unfoldable pub detect : List Kv → LabelsProps
unfolding detect_from normalize_label is_reserved is_special get_app_name_from_label
    is_cluster_name_label find_app_name_from_labels_parts
detect labels =
    let props = detect_from no_props labels in
    record props {
      app_name =
          if truthy props.app_name
          then props.app_name
          else or_undefined (find_app_name_from_labels_parts labels true);
    }

unfoldable pub is_world : List Kv → Bool
unfolding have_reserved
is_world labels = have_reserved labels (some world)

unfoldable pub is_host : List Kv → Bool
unfolding have_reserved
is_host labels = have_reserved labels (some host)

unfoldable pub is_kube_apiserver : List Kv → Bool
unfolding have_reserved
is_kube_apiserver labels = have_reserved labels (some kube_apiserver)

unfoldable pub is_init : List Kv → Bool
unfolding have_reserved
is_init labels = have_reserved labels (some init)

unfoldable pub is_health : List Kv → Bool
unfolding have_reserved
is_health labels = have_reserved labels (some health)

unfoldable pub is_remote_node : List Kv → Bool
unfolding have_reserved
is_remote_node labels = have_reserved labels (some remote_node)
