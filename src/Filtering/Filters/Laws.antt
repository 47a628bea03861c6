-- ===== src/Filtering/Filters/Laws.antt =====
-- When two sets of filters are equal.
use hubble_ui.Prelude.{
  Bool, true, false, ◌&&◌, if◌then◌else◌, opt_eq, ◌≡◌, ◌↔◌, List, map, str_Eq, bool_Eq, arith,
  opt_eq_iff, sym, ◌∙◌,
}
use hubble_ui.Prelude.Sets.{
  same_set, same_set_iff, IsDistinct, SameElements, from_list-IsDistinct, has-from_list,
}
use hubble_ui.Hubble.{verdict_Eq}
use hubble_ui.Filtering.Entry.{FilterEntry, to_string}
use hubble_ui.Filtering.Filters.{Filters, or_empty, fingerprints, equals}

-- The sets of texts are equal exactly when both lists have the same texts.
pub same_set-fingerprints_iff :
    (xs ys : List FilterEntry)
    → (same_set (fingerprints xs) (fingerprints ys) ≡ true)
      ↔ SameElements (map to_string xs) (map to_string ys)
same_set-fingerprints_iff xs ys =
    let (to, from) =
      same_set_iff (fingerprints xs) (fingerprints ys) (from_list-IsDistinct (map to_string xs))
        (from_list-IsDistinct (map to_string ys)) in
    (
      λ h k.
          sym (has-from_list k (map to_string xs)) ∙ (to h k ∙ has-from_list k (map to_string ys)),
      λ h. from (λ k.
          has-from_list k (map to_string xs) ∙ (h k ∙ sym (has-from_list k (map to_string ys)))),
    )

all_tests_iff :
    (a b c d e f g h : Bool)
    → ((if a && b && c && d && e && f then g && h else false) ≡ true) ↔ (
        (a ≡ true)
        × (b ≡ true)
        × (c ≡ true)
        × (d ≡ true)
        × (e ≡ true)
        × (f ≡ true)
        × (g ≡ true)
        × (h ≡ true))
all_tests_iff a b c d e f g h = ground arith

-- `equals` holds exactly if the namespaces, statuses and flags are the same, and the verdicts and
-- the texts of the entries are the same sets, in whatever order and however often an entry stands
-- there. The verdicts are sets: no element stands twice.
pub equals_iff :
    (f g : Filters)
    → IsDistinct (or_empty f.verdicts)
    → IsDistinct (or_empty g.verdicts)
    → (equals f g ≡ true) ↔ (
        (f.namespace ≡ g.namespace)
        × (f.http_status ≡ g.http_status)
        × (f.skip_host ≡ g.skip_host)
        × (f.skip_kube_dns ≡ g.skip_kube_dns)
        × (f.skip_remote_node ≡ g.skip_remote_node)
        × (f.skip_prometheus_app ≡ g.skip_prometheus_app)
        × SameElements (or_empty f.verdicts) (or_empty g.verdicts)
        × SameElements (map to_string (or_empty f.filters)) (map to_string (or_empty g.filters)))
unfolding equals
equals_iff f g df dg =
    let (to, from) =
      all_tests_iff (opt_eq f.namespace g.namespace) (opt_eq f.http_status g.http_status)
        (opt_eq f.skip_host g.skip_host) (opt_eq f.skip_kube_dns g.skip_kube_dns)
        (opt_eq f.skip_remote_node g.skip_remote_node)
        (opt_eq f.skip_prometheus_app g.skip_prometheus_app)
        (same_set (or_empty f.verdicts) (or_empty g.verdicts))
        (same_set (fingerprints (or_empty f.filters)) (fingerprints (or_empty g.filters))) in
    let ns = opt_eq_iff f.namespace g.namespace in
    let http = opt_eq_iff f.http_status g.http_status in
    let host = opt_eq_iff f.skip_host g.skip_host in
    let dns = opt_eq_iff f.skip_kube_dns g.skip_kube_dns in
    let node = opt_eq_iff f.skip_remote_node g.skip_remote_node in
    let app = opt_eq_iff f.skip_prometheus_app g.skip_prometheus_app in
    let sets = same_set_iff (or_empty f.verdicts) (or_empty g.verdicts) df dg in
    let entries = same_set-fingerprints_iff (or_empty f.filters) (or_empty g.filters) in
    (
      λ t.
          let h = to t in
          (
            ns.0 h.0,
            http.0 h.1,
            host.0 h.2,
            dns.0 h.3,
            node.0 h.4,
            app.0 h.5,
            sets.0 h.6,
            entries.0 h.7,
          ),
      λ h. from (
        ns.1 h.0,
        http.1 h.1,
        host.1 h.2,
        dns.1 h.3,
        node.1 h.4,
        app.1 h.5,
        sets.1 h.6,
        entries.1 h.7,
      ),
    )
