-- ===== src/Filtering/FilterFlow.antt =====
-- src/domain/filtering/filter-flow.ts: whether the filters keep a flow.
pub mod Laws
use hubble_ui.Prelude.{
  ℕ, Bool, true, false, not, ◌&&◌, ◌||◌, Option, none, some, List, [], ◌∷◌, Str, codes, length,
  drop, to_lower_case, ltb, ◌==◌, ◌-◌, nat_Eq, str_Eq, bool_Eq, opt_eq, is_empty, if◌then◌else◌,
}
use hubble_ui.Prelude.Maps.{is_some}
use hubble_ui.Prelude.Sets.{has}
use hubble_ui.Hubble.{Verdict, verdict_Eq}
use hubble_ui.Flow.{
  Flow, Runtime, ParsedInt, nan, negative, natural, source_label_props, destination_label_props,
  sender_has_label_array, receiver_has_label_array, sender_has_ip, receiver_has_ip,
  sender_has_domain, receiver_has_domain, sender_has_identity, receiver_has_identity, has_tcp_flag,
  sender_pod_is, receiver_pod_is, sender_has_workload, receiver_has_workload, source_namespace,
  destination_namespace, source_port, destination_port, http_status,
}
use hubble_ui.Filtering.Entry.{
  FilterEntry, Kind, label, ip, dns, identity, workload, tcp_flag, pod, from_required, to_required,
  label_key_value, as_workload, kind_Eq,
}
use hubble_ui.Filtering.Filters.{Filters, or_empty}

-- `!!flag`
abbrev pub is_set : Option Bool → Bool
is_set none = false
is_set (some b) = b

-- The loop over the entries, for flows and for links
unfoldable pub decide_entries : (FilterEntry → Bool) → List FilterEntry → Bool
decide_entries pass [] = false
decide_entries pass (e ∷ es) =
    let rest = decide_entries pass es in
    if e.negative && not (pass e) then false else if not e.negative && pass e then true else rest

-- The tests of the sender and of the receiver that an entry makes, by its kind: `fromOk` and `toOk`
-- are false if the entry's direction does not ask for them.
unfoldable pub matches_sender : Runtime → Flow → FilterEntry → Bool
unfolding from_required label_key_value
matches_sender rt f e = from_required e && elim e.kind [
  | label ↦ sender_has_label_array f ((label_key_value e).0) ((label_key_value e).1)
  | ip ↦ sender_has_ip f e.query
  | dns ↦ sender_has_domain f e.query
  | identity ↦ sender_has_identity rt f e.query
  | tcp_flag ↦ false
  | pod ↦ sender_pod_is f e.query
  | workload ↦ elim (as_workload e) [ none ↦ false | some wl ↦ sender_has_workload f wl ]
]

unfoldable pub matches_receiver : Runtime → Flow → FilterEntry → Bool
unfolding to_required label_key_value
matches_receiver rt f e = to_required e && elim e.kind [
  | label ↦ receiver_has_label_array f ((label_key_value e).0) ((label_key_value e).1)
  | ip ↦ receiver_has_ip f e.query
  | dns ↦ receiver_has_domain f e.query
  | identity ↦ receiver_has_identity rt f e.query
  | tcp_flag ↦ false
  | pod ↦ receiver_pod_is f e.query
  | workload ↦ elim (as_workload e) [ none ↦ false | some wl ↦ receiver_has_workload f wl ]
]

unfoldable pub filter_flow_by_entry : Runtime → Flow → FilterEntry → Bool
unfolding matches_sender matches_receiver has_tcp_flag to_lower_case
filter_flow_by_entry rt f e =
    if e.kind == tcp_flag
    then not (e.negative == has_tcp_flag f (to_lower_case e.query))
    else not (e.negative == (matches_sender rt f e || matches_receiver rt f e))

-- `text.slice(-1)`
abbrev last_char : Str → Str
last_char s = drop (length s - 1) s

abbrev at_least : ℕ → ParsedInt → Bool
at_least n (natural m) = not (ltb n m)
at_least n _ = true

abbrev at_most : ℕ → ParsedInt → Bool
at_most n (natural m) = not (ltb m n)
at_most n nan = true
at_most n negative = false

abbrev exactly : ℕ → ParsedInt → Bool
exactly n (natural m) = n == m
exactly n _ = false

-- The status is at least, at most or exactly the number of the filter. No number at all bounds
-- nothing, since every comparison with NaN is false.
unfoldable pub status_matches : Runtime → Option ℕ → Str → Bool
status_matches rt none wanted = false
status_matches rt (some status) wanted =
    if last_char wanted == codes "+"
    then at_least status (rt.parse_int wanted)
    else if last_char wanted == codes "-"
    then at_most status (rt.parse_int wanted)
    else exactly status (rt.parse_int wanted)

-- The conditions before the loop over the entries
unfoldable pub passes_fields : Runtime → Flow → Filters → Bool
unfolding has status_matches
passes_fields rt f fs =
    (not (is_some fs.namespace)
      || (opt_eq (source_namespace f) fs.namespace
          || opt_eq (destination_namespace f) fs.namespace))
    && ((is_empty (or_empty fs.verdicts) || has f.verdict (or_empty fs.verdicts))
        && (not (
              is_set fs.skip_host
              && ((source_label_props f).is_host || (destination_label_props f).is_host))
            && (not (
                  is_set fs.skip_remote_node
                  && ((source_label_props f).is_remote_node
                      || (destination_label_props f).is_remote_node))
                && (not (
                      is_set fs.skip_kube_dns
                      && (opt_eq (source_port f) (some 53)
                          || (opt_eq (destination_port rt f) (some 53)
                              && (destination_label_props f).is_kube_dns)))
                    && elim fs.http_status [
                      | none ↦ true
                      | some wanted ↦ status_matches rt (http_status f) wanted
                    ]))))

unfoldable pub filter_flow : Runtime → Flow → Filters → Bool
unfolding passes_fields decide_entries
filter_flow rt f fs =
    if passes_fields rt f fs
    then is_empty (or_empty fs.filters)
      || decide_entries (filter_flow_by_entry rt f) (or_empty fs.filters)
    else false
