-- ===== src/Tests.antt =====
-- Concrete entries, filters and flows, on which the children run the theorems.
mod Entries
mod Flows
mod Differences
mod LabelTexts
mod Verdicts
mod Connections
mod Notices
mod Places
mod Tables
mod Numbers
mod Stores
mod Tools
mod Streams
mod Frames
use hubble_ui.Prelude.{
  Bool, true, false, Option, none, some, List, [], ◌∷◌, ℕ, ◌+◌, Str, codes, str_eq, bool_eq,
}
use hubble_ui.Hubble.{forwarded, dropped, tcp, disabled}
use hubble_ui.Link.{HubbleLink, Link}
use hubble_ui.ServiceMap.Card.{Service}
use hubble_ui.Diff.{Value}
use hubble_ui.Flow.{Flow, FlowType, Endpoint, Runtime, nan}
use hubble_ui.Filtering.Entry.{FilterEntry, label, workload, pod, from, to, either}
use hubble_ui.Filtering.Filters.{Filters, default_object}
use hubble_ui.Filtering.FiltersDiff.{FieldValues, filter_entries_equal, verdicts_equal}

-- `from:label=app=ui`
abbrev pub from_ui : FilterEntry
from_ui = record {
  kind = label;
  direction = from;
  query = codes "app=ui";
  meta = none;
  negative = false;
}

-- `!to:workload=Deployment:api`
abbrev pub not_to_api : FilterEntry
not_to_api = record {
  kind = workload;
  direction = to;
  query = codes "api";
  meta = some (codes "Deployment");
  negative = true;
}

-- `!either:label=app=db`
abbrev pub not_db : FilterEntry
not_db = record {
  kind = label;
  direction = either;
  query = codes "app=db";
  meta = none;
  negative = true;
}

abbrev pub ui_endpoint : Endpoint
ui_endpoint = record {
  identity = 7;
  namespace = codes "web";
  labels = codes "app=ui" ∷ [];
  workloads = [];
  pod_name = codes "ui-0";
}

abbrev pub db_endpoint : Endpoint
db_endpoint = record {
  identity = 9;
  namespace = codes "data";
  labels = codes "app=db" ∷ [];
  workloads = [];
  pod_name = codes "db-0";
}

-- A forwarded flow from the user interface to the data base
abbrev pub ui_to_db : Flow
ui_to_db = record {
  flow_type = FlowType.l34;
  verdict = forwarded;
  ip = some (codes "10.0.0.1", codes "10.0.0.2");
  tcp = some (record { source_port = 40000; destination_port = 5432 });
  tcp_flags = (codes "syn", true) ∷ [];
  udp = none;
  source = some ui_endpoint;
  destination = some db_endpoint;
  source_names_list = [];
  destination_names_list = [];
  l7 = none;
}

abbrev pub runtime : Runtime
runtime = record {
  to_number = λ s. none;
  parse_int = λ s. nan;
  url_port = λ s. none;
  url_pathname = λ s. s;
}

abbrev pub forwarded_only : Filters
forwarded_only = record default_object {
  namespace = some (codes "web");
  verdicts = some (forwarded ∷ []);
  filters = some (from_ui ∷ []);
}

-- Values that are immutable, so that a clone is the value itself
abbrev pub field_values : FieldValues
field_values = record {
  texts = record { clone_deep = λ a. a; equals_method = none; is_equal = str_eq };
  verdict_sets = record { clone_deep = λ a. a; equals_method = none; is_equal = verdicts_equal };
  entry_lists = record {
    clone_deep = λ a. a;
    equals_method = none;
    is_equal = filter_entries_equal;
  };
  flags = record { clone_deep = λ a. a; equals_method = none; is_equal = bool_eq };
}

-- The links of the flow's two ends, at the data base's port
abbrev pub hubble_link : HubbleLink
hubble_link = record {
  address = 0;
  id = codes "link-1";
  source_id = codes "ui";
  destination_id = codes "db";
  destination_port = 5432;
  ip_protocol = tcp;
  verdict = forwarded;
  auth_type = disabled;
  is_encrypted = false;
}

abbrev pub link : Link
link = record {
  ref = hubble_link;
  verdicts = forwarded ∷ [];
  auth_types = disabled ∷ [];
  encrypted = false;
}

-- Decimal digits of a number below ten
abbrev pub digit : ℕ → Str
digit n = (48 + n) ∷ []

abbrev pub service : Service
service = record {
  id = codes "9";
  identity_number = 9;
  service_namespace = [];
  labels = record { key = codes "app"; value = codes "db" } ∷ [];
  dns_names = [];
  workloads = [];
}
