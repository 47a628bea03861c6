-- ===== src/Filtering/FiltersDiff.antt =====
-- src/domain/filtering/filters-diff.ts: how the filters changed, field by field; and the method
-- `diff` of src/domain/filtering/filters.ts.
pub mod Laws
use hubble_ui.Prelude.{
  Bool, true, false, not, Option, none, some, List, filter, Str, str_Eq, is_empty, ◌==◌,
  if◌then◌else◌,
}
use hubble_ui.Prelude.Sets.{same_set}
use hubble_ui.Hubble.{Verdict, verdict_Eq}
use hubble_ui.Diff
use hubble_ui.Diff.{Diff, Value}
use hubble_ui.Filtering.Entry.{FilterEntry, pod, kind_Eq}
use hubble_ui.Filtering.Filters.{Filters, or_empty, fingerprints}

unfoldable pub filter_entries_equal : List FilterEntry → List FilterEntry → Bool
filter_entries_equal lhs rhs =
    if is_empty lhs
    then is_empty rhs
    else if is_empty rhs
    then false
    else same_set (fingerprints lhs) (fingerprints rhs)

unfoldable pub verdicts_equal : List Verdict → List Verdict → Bool
verdicts_equal lhs rhs =
    if is_empty lhs then is_empty rhs else if is_empty rhs then false else same_set lhs rhs

pub record FiltersDiff : Type 0 where
  pub namespace : Diff Str
  pub verdicts : Diff (List Verdict)
  pub http_status : Diff Str
  pub filters : Diff (List FilterEntry)
  pub skip_host : Diff Bool
  pub skip_kube_dns : Diff Bool
  pub skip_remote_node : Diff Bool
  pub skip_prometheus_app : Diff Bool

-- Cloning and comparing the values of the fields
pub record FieldValues : Type 0 where
  pub texts : Value Str
  pub verdict_sets : Value (List Verdict)
  pub entry_lists : Value (List FilterEntry)
  pub flags : Value Bool

-- A field of filters that may be missing themselves, `f?.field`
abbrev pub field_of : {A : Type 0} → (Filters → Option A) → Option Filters → Option A
field_of field none = none
field_of field (some f) = field f

module _ (lib : FieldValues) where
  unfoldable pub from_filters : Option Filters → FiltersDiff
  from_filters f = record {
    namespace = Diff.new lib.texts (field_of (λ o. o.namespace) f);
    verdicts =
        Diff.set_comparator (Diff.new lib.verdict_sets (field_of (λ o. o.verdicts) f))
          (some verdicts_equal);
    http_status = Diff.new lib.texts (field_of (λ o. o.http_status) f);
    filters =
        Diff.set_comparator (Diff.new lib.entry_lists (field_of (λ o. o.filters) f))
          (some filter_entries_equal);
    skip_host = Diff.new lib.flags (field_of (λ o. o.skip_host) f);
    skip_kube_dns = Diff.new lib.flags (field_of (λ o. o.skip_kube_dns) f);
    skip_remote_node = Diff.new lib.flags (field_of (λ o. o.skip_remote_node) f);
    skip_prometheus_app = Diff.new lib.flags (field_of (λ o. o.skip_prometheus_app) f);
  }

  unfoldable pub step : FiltersDiff → Option Filters → FiltersDiff
  step d rhs = record {
    namespace = Diff.step lib.texts d.namespace (field_of (λ o. o.namespace) rhs);
    verdicts = Diff.step lib.verdict_sets d.verdicts (field_of (λ o. o.verdicts) rhs);
    http_status = Diff.step lib.texts d.http_status (field_of (λ o. o.http_status) rhs);
    filters = Diff.step lib.entry_lists d.filters (field_of (λ o. o.filters) rhs);
    skip_host = Diff.step lib.flags d.skip_host (field_of (λ o. o.skip_host) rhs);
    skip_kube_dns = Diff.step lib.flags d.skip_kube_dns (field_of (λ o. o.skip_kube_dns) rhs);
    skip_remote_node =
        Diff.step lib.flags d.skip_remote_node (field_of (λ o. o.skip_remote_node) rhs);
    skip_prometheus_app =
        Diff.step lib.flags d.skip_prometheus_app (field_of (λ o. o.skip_prometheus_app) rhs);
  }

  unfoldable pub new : Option Filters → Option Filters → FiltersDiff
  unfolding from_filters step
  new lhs rhs = step (from_filters lhs) rhs

  -- The answer of the getter `changed`; its questions stop at the first field that changed, and
  -- what each field keeps of its answer is in Diff.antt.
  unfoldable pub changed : FiltersDiff → Bool
  changed d =
      if (Diff.changed lib.texts d.namespace).0
      then true
      else if (Diff.changed lib.verdict_sets d.verdicts).0
      then true
      else if (Diff.changed lib.texts d.http_status).0
      then true
      else if (Diff.changed lib.entry_lists d.filters).0
      then true
      else if (Diff.changed lib.flags d.skip_host).0
      then true
      else if (Diff.changed lib.flags d.skip_kube_dns).0
      then true
      else if (Diff.changed lib.flags d.skip_remote_node).0
      then true
      else (Diff.changed lib.flags d.skip_prometheus_app).0

  unfoldable pub new_unchanged : FiltersDiff
  unfolding new
  new_unchanged = new none none

  unfoldable pub nothing_changed : FiltersDiff → Bool
  unfolding changed
  nothing_changed d = not (changed d)

unfoldable pub invert : FiltersDiff → FiltersDiff
invert d = record {
  namespace = Diff.invert d.namespace;
  verdicts = Diff.invert d.verdicts;
  http_status = Diff.invert d.http_status;
  filters = Diff.invert d.filters;
  skip_host = Diff.invert d.skip_host;
  skip_kube_dns = Diff.invert d.skip_kube_dns;
  skip_remote_node = Diff.invert d.skip_remote_node;
  skip_prometheus_app = Diff.invert d.skip_prometheus_app;
}

unfoldable pub set_unchanged : FiltersDiff → FiltersDiff
set_unchanged d = record {
  namespace = Diff.set_unchanged d.namespace;
  verdicts = Diff.set_unchanged d.verdicts;
  http_status = Diff.set_unchanged d.http_status;
  filters = Diff.set_unchanged d.filters;
  skip_host = Diff.set_unchanged d.skip_host;
  skip_kube_dns = Diff.set_unchanged d.skip_kube_dns;
  skip_remote_node = Diff.set_unchanged d.skip_remote_node;
  skip_prometheus_app = Diff.set_unchanged d.skip_prometheus_app;
}

unfoldable pub pod_filters_changed : FiltersDiff → Bool
unfolding filter filter_entries_equal
pod_filters_changed d =
    let is_pod : FilterEntry → Bool = λ f. f.kind == pod in
    not (
      filter_entries_equal (filter is_pod (or_empty d.filters.before))
        (filter is_pod (or_empty d.filters.after)))

-- `filters.diff(rhs)`
unfoldable pub diff : FieldValues → Filters → Option Filters → FiltersDiff
diff lib f none = invert (from_filters lib (some f))
diff lib f (some rhs) = new lib (some f) (some rhs)
