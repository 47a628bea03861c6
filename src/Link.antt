-- ===== src/Link.antt =====
-- src/domain/link.ts: a link between two services. A Link and its clones refer to one HubbleLink
-- object, whose two counters `updateWithHubbleLink` changes: they are kept in a heap, at the
-- object's address. The other fields of the object never change. Latencies are left out.
pub mod Laws
use hubble_ui.Prelude.{ℕ, ◌+◌, Bool, ◌&&◌, List, [], ◌∷◌, Str, nat_eq, ◌==◌, if◌then◌else◌}
use hubble_ui.Prelude.Sets.{add}
use hubble_ui.Hubble.{Verdict, verdict_Eq, IpProtocol, udp, ip_protocol_eq, AuthType, auth_type_Eq}

pub record HubbleLink : Type 0 where
  pub address : ℕ
  pub id : Str
  pub source_id : Str
  pub destination_id : Str
  pub destination_port : ℕ
  pub ip_protocol : IpProtocol
  pub verdict : Verdict
  pub auth_type : AuthType
  pub is_encrypted : Bool

pub record Traffic : Type 0 where
  pub flow_amount : ℕ
  pub bytes_transfered : ℕ

abbrev pub Heap : Type 0
Heap = ℕ → Traffic

pub record Link : Type 0 where
  pub ref : HubbleLink
  pub verdicts : List Verdict
  pub auth_types : List AuthType
  pub encrypted : Bool

-- `new Link(ref)`
unfoldable pub from_hubble_link : HubbleLink → Link
from_hubble_link hl = record {
  ref = hl;
  verdicts = hl.verdict ∷ [];
  auth_types = hl.auth_type ∷ [];
  encrypted = hl.is_encrypted;
}

unfoldable pub clone : Link → Link
unfolding from_hubble_link
clone l = record (from_hubble_link l.ref) { verdicts = l.verdicts; auth_types = l.auth_types }

-- The counters of one object are added to those of another.
unfoldable pub accumulate : Heap → ℕ → ℕ → Heap
accumulate heap target source a =
    if nat_eq target a
    then record {
      flow_amount = (heap a).flow_amount + (heap source).flow_amount;
      bytes_transfered = (heap a).bytes_transfered + (heap source).bytes_transfered;
    }
    else heap a

unfoldable pub update_with_hubble_link : Heap → Link → HubbleLink → Link × Heap
unfolding clone add accumulate
update_with_hubble_link heap l hl =
    let updated = clone l in
    (
      record updated {
        verdicts = add hl.verdict updated.verdicts;
        auth_types = add hl.auth_type updated.auth_types;
      },
      accumulate heap updated.ref.address hl.address,
    )

unfoldable pub id : Link → Str
id l = l.ref.id

unfoldable pub source_id : Link → Str
source_id l = l.ref.source_id

unfoldable pub destination_id : Link → Str
destination_id l = l.ref.destination_id

unfoldable pub destination_port : Link → ℕ
destination_port l = l.ref.destination_port

unfoldable pub is_dns_request : Link → Bool
is_dns_request l = ip_protocol_eq l.ref.ip_protocol udp && nat_eq l.ref.destination_port 53

-- The counters of `throughput`
unfoldable pub throughput : Heap → Link → Traffic
throughput heap l = heap l.ref.address
