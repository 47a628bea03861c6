-- ===== src/Tests/Differences.antt =====
-- The theorems on the comparison of filters, at concrete filters.
use hubble_ui.Prelude.{
  ◌≡◌, refl, ◌↔◌, true, false, not, none, some, [], ◌∷◌, map, arith, str_Eq, any,
}
use hubble_ui.Prelude.Sets.{has, SameElements}
use hubble_ui.Hubble.{verdict_Eq}
use hubble_ui.Diff
use hubble_ui.Diff.{Value, new, set_comparator}
use hubble_ui.Diff.Laws.{ask, advance, swap, settle, act_all, changed-act_all}
use hubble_ui.Filtering.Entry.{to_string}
use hubble_ui.Filtering.Filters
use hubble_ui.Filtering.Filters.{Filters, default_object, or_empty}
use hubble_ui.Filtering.Filters.Laws.{equals_iff}
use hubble_ui.Filtering.FiltersDiff
use hubble_ui.Filtering.FiltersDiff.{FieldValues, diff}
use hubble_ui.Filtering.FiltersDiff.Laws.{IsLawful, changed-new}
use hubble_ui.Tests.{forwarded_only, field_values}

field_values-IsLawful : IsLawful field_values
field_values-IsLawful = record {
  texts = record { clones = λ a. refl; no_method = refl; exact = λ a b. refl };
  verdict_sets = λ a. refl;
  entry_lists = λ a. refl;
  flags = record { clones = λ a. refl; no_method = refl; exact = λ a b. refl };
}

equals_iff_example : (Filters.equals forwarded_only default_object ≡ true) ↔ (
    (forwarded_only.namespace ≡ default_object.namespace)
    × (forwarded_only.http_status ≡ default_object.http_status)
    × (forwarded_only.skip_host ≡ default_object.skip_host)
    × (forwarded_only.skip_kube_dns ≡ default_object.skip_kube_dns)
    × (forwarded_only.skip_remote_node ≡ default_object.skip_remote_node)
    × (forwarded_only.skip_prometheus_app ≡ default_object.skip_prometheus_app)
    × SameElements (or_empty forwarded_only.verdicts) (or_empty default_object.verdicts)
    × SameElements
        (map to_string (or_empty forwarded_only.filters))
        (map to_string (or_empty default_object.filters)))
equals_iff_example = equals_iff forwarded_only default_object (unfold has any in refl, tt) tt

changed-new_example :
    FiltersDiff.changed field_values
      (FiltersDiff.new field_values (some forwarded_only) (some default_object))
    ≡ not (Filters.equals forwarded_only default_object)
changed-new_example =
    changed-new field_values forwarded_only default_object field_values-IsLawful refl refl

changed-act_all_example :
    let d =
      act_all field_values.flags
        (set_comparator (new field_values.flags (some true)) none)
        (ask ∷ advance (some false) ∷ settle ∷ swap ∷ []) in
    (Diff.changed field_values.flags d).0
    ≡ not (Diff.equals field_values.flags d.before d.after none)
changed-act_all_example =
    changed-act_all field_values.flags none (λ a. ground arith) (some true)
      (ask ∷ advance (some false) ∷ settle ∷ swap ∷ [])
