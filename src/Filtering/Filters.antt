-- ===== src/Filtering/Filters.antt =====
-- src/domain/filtering/filters.ts: the set of filters that a user chose. A field that is missing or
-- null is `none`; the program compares both loosely, with `!=`.
pub mod Laws
use hubble_ui.Prelude.{
  Bool, true, false, ◌&&◌, Option, none, some, List, [], ◌∷◌, ◌++◌, map, Str, str_Eq, bool_Eq,
  opt_eq, if◌then◌else◌,
}
use hubble_ui.Prelude.Sets.{from_list, same_set}
use hubble_ui.Hubble.{Verdict, verdict_Eq}
use hubble_ui.Filtering.Entry.{FilterEntry, to_string}

pub record Filters : Type 0 where
  pub namespace : Option Str
  pub verdicts : Option (List Verdict)
  pub http_status : Option Str
  pub filters : Option (List FilterEntry)
  pub skip_host : Option Bool
  pub skip_kube_dns : Option Bool
  pub skip_remote_node : Option Bool
  pub skip_prometheus_app : Option Bool

abbrev pub default_object : Filters
default_object = record {
  namespace = none;
  verdicts = some [];
  http_status = none;
  filters = some [];
  skip_host = some false;
  skip_kube_dns = some false;
  skip_remote_node = some false;
  skip_prometheus_app = some false;
}

unfoldable pub assign_filter_props : Filters → Filters → Filters
assign_filter_props to from = record to {
  namespace = from.namespace;
  verdicts = from.verdicts;
  http_status = from.http_status;
  filters = from.filters;
  skip_host = from.skip_host;
  skip_kube_dns = from.skip_kube_dns;
  skip_remote_node = from.skip_remote_node;
  skip_prometheus_app = from.skip_prometheus_app;
}

-- `list || []`, `set ?? new Set()`
abbrev pub or_empty {ℓ} : {A : Type ℓ} → Option (List A) → List A
or_empty none = []
or_empty (some xs) = xs

unfoldable pub set_namespace : Filters → Option Str → Filters
set_namespace f ns = record f { namespace = ns }

unfoldable pub add_filter_entry : Filters → FilterEntry → Filters
add_filter_entry f fe = record f { filters = some (or_empty f.filters ++ fe ∷ []) }

-- The texts of the entries, as the set that `equals` collects
abbrev pub fingerprints : List FilterEntry → List Str
fingerprints entries = from_list (map to_string entries)

unfoldable pub equals : Filters → Filters → Bool
equals f rhs =
    if opt_eq f.namespace rhs.namespace
      && opt_eq f.http_status rhs.http_status
      && opt_eq f.skip_host rhs.skip_host
      && opt_eq f.skip_kube_dns rhs.skip_kube_dns
      && opt_eq f.skip_remote_node rhs.skip_remote_node
      && opt_eq f.skip_prometheus_app rhs.skip_prometheus_app
    then same_set (or_empty f.verdicts) (or_empty rhs.verdicts)
      && same_set (fingerprints (or_empty f.filters)) (fingerprints (or_empty rhs.filters))
    else false

-- A deep clone has a list of entries, though the original may have none.
unfoldable pub clone : Filters → Bool → Filters
clone f deep = if deep then record f { filters = some (or_empty f.filters) } else f
