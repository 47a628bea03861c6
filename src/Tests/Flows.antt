-- ===== src/Tests/Flows.antt =====
-- The theorems on what passes the filters, at one flow, one link and one service.
use hubble_ui.Prelude.{
  ◌≡◌, refl, true, false, not, ◌&&◌, any, some, [], ◌∷◌, split, split_by, join, str_eq,
}
use hubble_ui.Prelude.Sets.{has}
use hubble_ui.Labels.{to_kv}
use hubble_ui.Labels.Search.{find_kv_by_array, find_kv_by_string, matches_query}
use hubble_ui.Flow.{
  source_labels, destination_labels, sender_has_label_array, receiver_has_label_array,
  source_namespace, namespace_of,
}
use hubble_ui.Filtering.Entry.{from_required, to_required, label_key_value}
use hubble_ui.Filtering.Filters
use hubble_ui.Filtering.Filters.{default_object}
use hubble_ui.Filtering.FilterFlow.{
  decide_entries, passes_fields, matches_sender, matches_receiver, filter_flow_by_entry,
  filter_flow,
}
use hubble_ui.Filtering.FilterFlow.Laws.{filter_flow-Positive, filter_flow-order}
use hubble_ui.Filtering.FilterLink.{filter_link_by_entry}
use hubble_ui.Filtering.FilterLink.Laws.{decide_entries-link}
use hubble_ui.Tests.{from_ui, not_db, ui_to_db, runtime, forwarded_only, link}

filter_flow-Positive_example : filter_flow runtime ui_to_db forwarded_only ≡ (
    passes_fields runtime ui_to_db forwarded_only
    && any (filter_flow_by_entry runtime ui_to_db) (from_ui ∷ []))
filter_flow-Positive_example =
    filter_flow-Positive runtime ui_to_db forwarded_only from_ui [] refl (refl, tt)

ui_passes : passes_fields runtime ui_to_db forwarded_only ≡ true
unfolding passes_fields has any source_namespace namespace_of str_eq
ui_passes = refl

ui_kept : filter_flow_by_entry runtime ui_to_db from_ui ≡ true
unfolding filter_flow_by_entry matches_sender matches_receiver from_required to_required
    label_key_value has any sender_has_label_array receiver_has_label_array source_labels
    destination_labels find_kv_by_array find_kv_by_string matches_query to_kv split split_by join
    str_eq
ui_kept = refl

db_dropped : filter_flow_by_entry runtime ui_to_db not_db ≡ false
unfolding filter_flow_by_entry matches_sender matches_receiver from_required to_required
    label_key_value has any sender_has_label_array receiver_has_label_array source_labels
    destination_labels find_kv_by_array find_kv_by_string matches_query to_kv split split_by join
    str_eq
db_dropped = refl

filter_flow-order_example :
    (Filters.equals
        (record forwarded_only { filters = some (from_ui ∷ not_db ∷ []) })
        (record forwarded_only { filters = some (not_db ∷ from_ui ∷ []) })
      ≡ true)
    × (filter_flow runtime ui_to_db
          (record forwarded_only { filters = some (from_ui ∷ not_db ∷ []) })
        ≡ true)
    × (filter_flow runtime ui_to_db
          (record forwarded_only { filters = some (not_db ∷ from_ui ∷ []) })
        ≡ false)
filter_flow-order_example =
    filter_flow-order runtime ui_to_db forwarded_only from_ui not_db (unfold has any in refl, tt)
      ui_passes refl ui_kept refl db_dropped

decide_entries-link_example :
    decide_entries (filter_link_by_entry link) (not_db ∷ from_ui ∷ [])
    ≡ any (λ e. not e.negative && filter_link_by_entry link e) (not_db ∷ from_ui ∷ [])
decide_entries-link_example = decide_entries-link link (not_db ∷ from_ui ∷ [])
