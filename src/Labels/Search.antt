-- ===== src/Labels/Search.antt =====
-- src/domain/labels.ts: what is searched for in a list of labels.
use hubble_ui.Prelude.{
  Bool, true, false, ◌&&◌, Option, none, some, List, [], ◌∷◌, ◌++◌, Str, codes, is_empty,
  remove_first, ◌==◌, str_Eq, if◌then◌else◌,
}
use hubble_ui.Labels.{
  Kv, app_name_normalized_keys, cilium_cluster_keys, cnp_uid, special_text, no_options,
  normalized_if, contains_key, contains_key_part, contains_all_key_parts, is_reserved,
}

-- `!!s`, of a text that may be null
abbrev pub truthy : Option Str → Bool
truthy none = false
truthy (some []) = false
truthy (some (_ ∷ _)) = true

-- `s || undefined`
abbrev pub or_undefined : Option Str → Option Str
or_undefined s = if truthy s then s else none

unfoldable pub find_namespace_in_labels : List Kv → Bool → Option Str
unfolding contains_key
find_namespace_in_labels [] normalize = none
find_namespace_in_labels (lbl ∷ labels) normalize =
    let kv = normalized_if normalize lbl in
    if contains_key kv (codes "namespace" ∷ []) no_options
    then some kv.value
    else find_namespace_in_labels labels normalize

unfoldable pub get_reserved_app_name : Kv → Bool → Option Str
unfolding is_reserved remove_first
get_reserved_app_name lbl normalize =
    let kv = normalized_if normalize lbl in
    if is_reserved kv none false then some (remove_first (codes "reserved:") kv.key) else none

unfoldable pub get_app_name_from_label : Kv → Bool → Option Str
unfolding contains_key get_reserved_app_name
get_app_name_from_label lbl normalize =
    let kv = normalized_if normalize lbl in
    if contains_key kv app_name_normalized_keys no_options
    then some kv.value
    else or_undefined (get_reserved_app_name kv false)

unfoldable pub find_app_name_from_labels_parts : List Kv → Bool → Option Str
unfolding contains_key_part
find_app_name_from_labels_parts [] normalize = none
find_app_name_from_labels_parts (lbl ∷ labels) normalize =
    let kv = normalized_if normalize lbl in
    if contains_key_part kv app_name_normalized_keys no_options
    then some kv.value
    else find_app_name_from_labels_parts labels normalize

-- The loop of `findAppNameInLabels`
unfoldable pub first_app_name : List Kv → Bool → Option Str
unfolding get_app_name_from_label
first_app_name [] normalize = none
first_app_name (lbl ∷ labels) normalize =
    let app_name = get_app_name_from_label (normalized_if normalize lbl) false in
    if truthy app_name then app_name else first_app_name labels normalize

unfoldable pub find_app_name_in_labels : List Kv → Bool → Option Str
unfolding first_app_name find_app_name_from_labels_parts
find_app_name_in_labels labels normalize = elim (first_app_name labels normalize) [
  | some name ↦ some name
  | none ↦ find_app_name_from_labels_parts labels true
]

unfoldable pub is_cluster_name_label : Kv → Bool → Bool
unfolding contains_key
is_cluster_name_label lbl normalize =
    contains_key (normalized_if normalize lbl) cilium_cluster_keys no_options

unfoldable pub find_cluster_name_in_labels : List Kv → Bool → Option Str
unfolding is_cluster_name_label
find_cluster_name_in_labels [] normalize = none
find_cluster_name_in_labels (lbl ∷ labels) normalize =
    if is_cluster_name_label lbl normalize
    then some lbl.value
    else find_cluster_name_in_labels labels normalize

-- Whether the query names the label: `key`, if there is no value, or `key=value`.
unfoldable pub matches_query : Kv → Str → Bool
matches_query label query =
    if is_empty label.value && label.key == query
    then true
    else label.key ++ (codes "=" ++ label.value) == query

unfoldable pub find_kv_by_string : List Kv → Str → Option Kv
unfolding matches_query
find_kv_by_string [] query = none
find_kv_by_string (label ∷ labels) query =
    if matches_query label query then some label else find_kv_by_string labels query

unfoldable pub find_kv_by_array : List Kv → Str → Str → Option Kv
unfolding find_kv_by_string
find_kv_by_array labels key value = find_kv_by_string labels (key ++ (codes "=" ++ value))

unfoldable pub get_policy_uuid : Kv → Bool → Option Str
unfolding contains_all_key_parts
get_policy_uuid lbl normalize =
    let kv = normalized_if normalize lbl in
    if contains_all_key_parts kv (special_text cnp_uid ∷ [])
      (record { normalize_label = normalize; normalize_target_keys = true })
    then some kv.value
    else none
