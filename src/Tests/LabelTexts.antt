-- ===== src/Tests/LabelTexts.antt =====
-- The theorems on labels and on kinds of workloads, at concrete texts.
use hubble_ui.Prelude.{◌≡◌, true, some, [], ◌∷◌, any, codes}
use hubble_ui.Labels.{Kv, normalize_label, is_special, kube_dns, ingress, have_reserved}
use hubble_ui.Labels.Detect.{
  detect, is_host, is_kube_apiserver, is_world, is_remote_node, is_init, is_health,
}
use hubble_ui.Labels.Laws.{detect-finders}

abbrev host_label : Kv
host_label = record { key = codes "reserved:host"; value = [] }

abbrev app_label : Kv
app_label = record { key = codes "k8s:app"; value = codes "prometheus" }

detect-finders_example :
    let labels = host_label ∷ app_label ∷ [] in
    let p = detect labels in
    (p.is_host ≡ is_host labels)
    × (p.is_kube_apiserver ≡ is_kube_apiserver labels)
    × (p.is_world ≡ is_world labels)
    × (p.is_remote_node ≡ is_remote_node labels)
    × (p.is_init ≡ is_init labels)
    × (p.is_health ≡ is_health labels)
    × (p.is_ingress ≡ have_reserved labels (some ingress))
    × (p.is_kube_dns ≡ any (λ l. is_special (normalize_label l) (some kube_dns) true) labels)
detect-finders_example = detect-finders (host_label ∷ app_label ∷ [])
