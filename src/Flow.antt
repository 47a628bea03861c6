-- ===== src/Flow.antt =====
-- src/domain/flows/index.ts: what the filters read of a flow. A flow is its record `ref`; the
-- getters are computed anew, where the program keeps their first result, since `ref` never changes.
use hubble_ui.Prelude.{
  ℕ, Bool, true, false, ◌&&◌, Option, none, some, List, [], map, Str, any, is_empty, ◌==◌, nat_Eq,
  ◌++◌, codes, ◌∷◌, str_Eq, if◌then◌else◌,
}
use hubble_ui.Prelude.Sets.{has}
use hubble_ui.Prelude.Maps.{is_some}
use hubble_ui.Hubble.{Verdict}
use hubble_ui.Helpers.Workload
use hubble_ui.Helpers.Workload.{Workload}
use hubble_ui.Labels.{Kv, to_kv}
use hubble_ui.Labels.Search.{find_kv_by_array, find_namespace_in_labels}
use hubble_ui.Labels.Detect.{LabelsProps, detect}

-- What `parseInt` reads: no number, a negative one or a natural one
pub data ParsedInt : Type 0 where
  nan negative : ParsedInt
  natural : ℕ → ParsedInt

-- What the program takes of the JavaScript engine and of the package url-parse: `+text`, where it is
-- a natural number, `parseInt(text)`, the port that is written in an URL, as a number, and its pathname.
pub record Runtime : Type 0 where
  pub to_number : Str → Option ℕ
  pub parse_int : Str → ParsedInt
  pub url_port : Str → Option ℕ
  pub url_pathname : Str → Str

-- The type Endpoint of src/domain/hubble.ts, less its number
pub record Endpoint : Type 0 where
  pub identity : ℕ
  pub namespace : Str
  pub labels : List Str
  pub workloads : List Workload
  pub pod_name : Str

pub record Ports : Type 0 where
  pub source_port : ℕ
  pub destination_port : ℕ

pub record Http : Type 0 where
  pub method : Str
  pub code : ℕ
  pub url : Str

-- The query of DNS, the topic of Kafka, and the number of the type
pub record Layer7 : Type 0 where
  pub type_number : ℕ
  pub dns : Option Str
  pub kafka : Option Str
  pub http : Option Http

pub data FlowType : Type 0 where
  unknown l34 l7_type : FlowType

-- The fields of HubbleFlow that are read here. The flags are the fields of `l4.tcp.flags`, by name.
pub record Flow : Type 0 where
  pub flow_type : FlowType
  pub verdict : Verdict
  pub ip : Option (Str × Str)
  pub tcp : Option Ports
  pub tcp_flags : List (Str × Bool)
  pub udp : Option Ports
  pub source : Option Endpoint
  pub destination : Option Endpoint
  pub source_names_list : List Str
  pub destination_names_list : List Str
  pub l7 : Option Layer7

abbrev labels_of : Option Endpoint → List Kv
labels_of none = []
labels_of (some e) = map (λ l. to_kv l false) e.labels

unfoldable pub source_labels : Flow → List Kv
source_labels f = labels_of f.source

unfoldable pub destination_labels : Flow → List Kv
destination_labels f = labels_of f.destination

unfoldable pub source_label_props : Flow → LabelsProps
source_label_props f = detect (source_labels f)

unfoldable pub destination_label_props : Flow → LabelsProps
destination_label_props f = detect (destination_labels f)

unfoldable pub sender_has_label_array : Flow → Str → Str → Bool
sender_has_label_array f key value = is_some (find_kv_by_array (source_labels f) key value)

unfoldable pub receiver_has_label_array : Flow → Str → Str → Bool
receiver_has_label_array f key value = is_some (find_kv_by_array (destination_labels f) key value)

-- `value === text` for a value that may be null
abbrev pub is_just : Option Str → Str → Bool
is_just none t = false
is_just (some s) t = s == t

unfoldable pub source_ip : Flow → Option Str
source_ip f = elim f.ip [ none ↦ none | some (source, _) ↦ some source ]

unfoldable pub destination_ip : Flow → Option Str
destination_ip f = elim f.ip [ none ↦ none | some (_, destination) ↦ some destination ]

unfoldable pub sender_has_ip : Flow → Str → Bool
unfolding source_ip
sender_has_ip f ip = is_just (source_ip f) ip

unfoldable pub receiver_has_ip : Flow → Str → Bool
unfolding destination_ip
receiver_has_ip f ip = is_just (destination_ip f) ip

unfoldable pub sender_has_domain : Flow → Str → Bool
unfolding has
sender_has_domain f domain = has domain f.source_names_list

unfoldable pub receiver_has_domain : Flow → Str → Bool
unfolding has
receiver_has_domain f domain = has domain f.destination_names_list

-- Membership in `enabledTcpFlags`, whose order does not matter for it
unfoldable pub has_tcp_flag : Flow → Str → Bool
unfolding any
has_tcp_flag f flag = any (λ entry. entry.1 && entry.0 == flag) f.tcp_flags

abbrev identity_of : Option Endpoint → Option ℕ
identity_of none = none
identity_of (some e) = some e.identity

-- A text that is no number, or no identity, is none.
abbrev same_number : Option ℕ → Option ℕ → Bool
same_number (some a) (some b) = a == b
same_number _ _ = false

unfoldable pub sender_has_identity : Runtime → Flow → Str → Bool
sender_has_identity rt f identity = same_number (identity_of f.source) (rt.to_number identity)

unfoldable pub receiver_has_identity : Runtime → Flow → Str → Bool
receiver_has_identity rt f identity =
    same_number (identity_of f.destination) (rt.to_number identity)

abbrev pod_name_of : Option Endpoint → Option Str
pod_name_of none = none
pod_name_of (some e) = some e.pod_name

unfoldable pub sender_pod_is : Flow → Str → Bool
sender_pod_is f pod_name = is_just (pod_name_of f.source) pod_name

unfoldable pub receiver_pod_is : Flow → Str → Bool
receiver_pod_is f pod_name = is_just (pod_name_of f.destination) pod_name

abbrev workloads_of : Option Endpoint → List Workload
workloads_of none = []
workloads_of (some e) = e.workloads

unfoldable pub sender_has_workload : Flow → Workload → Bool
unfolding any
sender_has_workload f target = any (λ wl. Workload.equals wl target) (workloads_of f.source)

unfoldable pub receiver_has_workload : Flow → Workload → Bool
unfolding any
receiver_has_workload f target = any (λ wl. Workload.equals wl target) (workloads_of f.destination)

-- The namespace of an endpoint, or that of its labels where it is missing or empty
unfoldable pub namespace_of : Option Endpoint → List Kv → Option Str
namespace_of none labels = find_namespace_in_labels labels true
namespace_of (some e) labels =
    if is_empty e.namespace then find_namespace_in_labels labels true else some e.namespace

unfoldable pub source_namespace : Flow → Option Str
unfolding namespace_of
source_namespace f = namespace_of f.source (source_labels f)

unfoldable pub destination_namespace : Flow → Option Str
unfolding namespace_of
destination_namespace f = namespace_of f.destination (destination_labels f)

unfoldable pub source_port : Flow → Option ℕ
source_port f = elim f.tcp [
  | some tcp ↦ some tcp.source_port
  | none ↦ elim f.udp [ some udp ↦ some udp.source_port | none ↦ none ]
]

-- The port of an application's protocol
unfoldable pub l7_port : Runtime → Option Layer7 → Option ℕ
l7_port rt none = none
l7_port rt (some l7) =
    if is_some l7.dns
    then some 53
    else elim l7.http [ some http ↦ rt.url_port http.url | none ↦ none ]

unfoldable pub destination_port : Runtime → Flow → Option ℕ
unfolding l7_port
destination_port rt f = elim f.tcp [
  | some tcp ↦ some tcp.destination_port
  | none ↦ elim f.udp [ some udp ↦ some udp.destination_port | none ↦ l7_port rt f.l7 ]
]

unfoldable pub http_status : Flow → Option ℕ
http_status f = elim f.l7 [
  | none ↦ none
  | some l7 ↦ elim l7.http [ some http ↦ some http.code | none ↦ none ]
]

unfoldable pub destination_dns : Flow → Option Str
destination_dns f = elim f.destination_names_list [ [] ↦ none | name ∷ names ↦ some name ]

-- `to_text` writes a number in decimal digits.
unfoldable pub destination_service_id : (ℕ → Str) → Flow → Str
unfolding destination_dns destination_label_props
destination_service_id to_text f =
    if (destination_label_props f).is_world
    then elim (destination_dns f) [
      | some dns ↦ dns ++ codes "-receiver"
      | none ↦ codes "world-receiver"
    ]
    else elim f.destination [ some e ↦ to_text e.identity | none ↦ codes "undefined" ]

unfoldable pub has_l7_info : Flow → Bool
has_l7_info f = elim f.flow_type [ l7_type ↦ true | unknown ↦ false | l34 ↦ false ]

unfoldable pub l7_wrapped : Flow → Option Layer7
unfolding has_l7_info
l7_wrapped f = if has_l7_info f then f.l7 else none
