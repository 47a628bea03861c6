-- ===== src/Interactions/Endpoints.antt =====
-- src/domain/interactions/endpoints.ts: a port of a service, with the verdicts met there.
use hubble_ui.Prelude.{ℕ, Option, none, some, List, [], ◌∷◌, ◌++◌, Str, codes, str_Eq}
use hubble_ui.Prelude.Sets.{add_all, from_list}
use hubble_ui.Hubble.{Verdict, verdict_Eq, IpProtocol}
use hubble_ui.Link.{HubbleLink, Link}

-- The enumeration of src/domain/hubble.ts
pub data L7Kind : Type 0 where
  dns http kafka unknown : L7Kind

pub record ServiceEndpoint : Type 0 where
  pub service_id : Str
  pub port : ℕ
  pub l4_protocol : IpProtocol
  pub l7_protocol : Option L7Kind
  pub verdicts : List Verdict

-- `to_text` writes a number in decimal digits.
unfoldable pub generate_id : (ℕ → Str) → Str → ℕ → Str
generate_id to_text service_id port = codes "ap-" ++ (service_id ++ (codes "-" ++ to_text port))

unfoldable pub id : (ℕ → Str) → ServiceEndpoint → Str
unfolding generate_id
id to_text ep = generate_id to_text ep.service_id ep.port

-- The constructor
unfoldable pub new : Str → ℕ → IpProtocol → List Verdict → ServiceEndpoint
unfolding from_list
new service_id port protocol verdicts = record {
  service_id = service_id;
  port = port;
  l4_protocol = protocol;
  l7_protocol = none;
  verdicts = from_list verdicts;
}

-- `fromLink` of a HubbleLink, which has one verdict
unfoldable pub from_hubble_link : HubbleLink → ServiceEndpoint
unfolding new
from_hubble_link link =
    new link.destination_id link.destination_port link.ip_protocol (link.verdict ∷ [])

-- `fromLink` of a Link, which has collected verdicts
unfoldable pub from_link : Link → ServiceEndpoint
unfolding new
from_link link =
    new link.ref.destination_id link.ref.destination_port link.ref.ip_protocol link.verdicts

unfoldable pub update : ServiceEndpoint → ServiceEndpoint → ServiceEndpoint
unfolding add_all
update this e = record this {
  l7_protocol = elim this.l7_protocol [ none ↦ e.l7_protocol | some kind ↦ some kind ];
  verdicts = add_all e.verdicts this.verdicts;
}

unfoldable pub accumulate_l7_protocol : ServiceEndpoint → Option L7Kind → ServiceEndpoint
accumulate_l7_protocol this none = this
accumulate_l7_protocol this (some kind) = record this { l7_protocol = some kind }

-- The verdicts are not copied.
unfoldable pub clone : ServiceEndpoint → ServiceEndpoint
unfolding new accumulate_l7_protocol
clone this =
    accumulate_l7_protocol (new this.service_id this.port this.l4_protocol []) this.l7_protocol
