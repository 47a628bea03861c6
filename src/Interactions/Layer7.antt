-- ===== src/Interactions/Layer7.antt =====
-- The endpoints of layer 7: src/domain/interactions/endpoints.ts (the class L7Endpoint),
-- src/domain/helpers/l7.ts, `parseMethod` of src/domain/http/index.ts, and how
-- src/store/stores/interaction.ts reads them of the flows. `to_text` writes a number in decimal digits.
pub mod Laws
use hubble_ui.Prelude.{
  ℕ, Option, none, some, List, [], ◌∷◌, ◌++◌, Str, str_Eq, codes, to_lower_case, find, ◌==◌,
}
use hubble_ui.Prelude.Sets.{add, add_all}
use hubble_ui.Hubble.{Verdict, verdict_Eq}
use hubble_ui.Flow.{Flow, Layer7, Runtime, destination_port, destination_service_id, l7_wrapped}
use hubble_ui.Interactions.Endpoints.{L7Kind, dns, http, kafka, unknown}
use hubble_ui.Interactions.Grouped
use hubble_ui.Interactions.Grouped.{Grouped, endpoint_of}

abbrev pub kind_text : L7Kind → Str
kind_text dns = codes "dns"
kind_text http = codes "http"
kind_text kafka = codes "kafka"
kind_text unknown = codes "unknown"

unfoldable pub get_kind : Layer7 → L7Kind
get_kind l7 = elim l7.http [
  | some _ ↦ http
  | none ↦ elim l7.dns [ some _ ↦ dns | none ↦ elim l7.kafka [ some _ ↦ kafka | none ↦ unknown ] ]
]

-- The texts of the enumeration `Method`
abbrev pub methods : List Str
methods =
    codes "get"
    ∷ codes "post"
    ∷ codes "put"
    ∷ codes "head"
    ∷ codes "delete"
    ∷ codes "options"
    ∷ codes "trace"
    ∷ codes "connect"
    ∷ codes "patch"
    ∷ []

unfoldable pub parse_method : Str → Option Str
unfolding to_lower_case find
parse_method text = find (λ m. to_lower_case text == m) methods

-- A method that is not known is written as `null`.
abbrev pub method_text : Option Str → Str
method_text none = codes "null"
method_text (some m) = m

unfoldable pub http_id_from_parts : Str → Str → Str
http_id_from_parts method pathname = method ++ (codes " " ++ pathname)

pub record L7Endpoint : Type 0 where
  pub l7 : Layer7
  pub verdicts : List Verdict

unfoldable pub new : Layer7 → L7Endpoint
new l7 = record { l7 = l7; verdicts = [] }

unfoldable pub add_verdict : Verdict → L7Endpoint → L7Endpoint
unfolding add
add_verdict v e = record e { verdicts = add v e.verdicts }

unfoldable pub update : L7Endpoint → L7Endpoint → L7Endpoint
unfolding add_all
update old e = record old { verdicts = add_all e.verdicts old.verdicts }

module _ (rt : Runtime) (to_text : ℕ → Str) where
  unfoldable pub get_endpoint_id : Layer7 → Str
  unfolding parse_method http_id_from_parts
  get_endpoint_id l7 = elim l7.dns [
    | some query ↦ codes "DNS " ++ query
    | none ↦ elim l7.kafka [
      | some topic ↦ codes "Kafka " ++ topic
      | none ↦ elim l7.http [
        | some h ↦ http_id_from_parts (method_text (parse_method h.method)) (rt.url_pathname h.url)
        | none ↦ codes "<unknown-l7-of-type-" ++ (to_text l7.type_number ++ codes ">")
      ]
    ]
  ]

  -- The body of the loop of `extractL7Info`
  unfoldable pub extract_flow : Flow → Grouped L7Endpoint → Grouped L7Endpoint
  unfolding get_endpoint_id get_kind new add_verdict update Grouped.upsert
  extract_flow f g = elim (l7_wrapped f) [
    | none ↦ g
    | some l7 ↦ elim (destination_port rt f) [
      | none ↦ g
      | some port ↦
          (Grouped.upsert update g (destination_service_id to_text f) (to_text port)
            (kind_text (get_kind l7)) (get_endpoint_id l7) (add_verdict f.verdict (new l7))).0
    ]
  ]

  unfoldable pub extract_l7_info : List Flow → Grouped L7Endpoint → Grouped L7Endpoint
  unfolding extract_flow
  extract_l7_info [] g = g
  extract_l7_info (f ∷ fs) g = extract_l7_info fs (extract_flow f g)

unfoldable pub get_http_endpoint_by_parts :
    Grouped L7Endpoint → Str → Str → Str → Str → Option L7Endpoint
unfolding endpoint_of http_id_from_parts
get_http_endpoint_by_parts g receiver_id port method url_pathname =
    endpoint_of g receiver_id port (kind_text http) (http_id_from_parts method url_pathname)

-- The verdicts of an endpoint, none if it is missing
abbrev pub verdicts_of : Option L7Endpoint → List Verdict
verdicts_of none = []
verdicts_of (some e) = e.verdicts

unfoldable pub get_http_verdicts : Grouped L7Endpoint → Str → Str → Str → Str → List Verdict
unfolding get_http_endpoint_by_parts
get_http_verdicts g receiver_id port method url_pathname =
    verdicts_of (get_http_endpoint_by_parts g receiver_id port method url_pathname)
