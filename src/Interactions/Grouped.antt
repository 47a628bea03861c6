-- ===== src/Interactions/Grouped.antt =====
-- src/domain/interactions/new-connections.ts: the class GroupedPartialConnections, the endpoints of
-- each receiver by port and kind; and from endpoints.ts the endpoints of an address.
pub mod Laws
use hubble_ui.Prelude.{ℕ, Bool, not, Option, none, some, List, [], ◌∷◌, Str, str_Eq, nat_Eq}
use hubble_ui.Prelude.Maps.{get, put}
use hubble_ui.Prelude.Sets.{has, add, add_all, remove}
use hubble_ui.Interactions.PartialConnections.{PartialConnections, inner}
use hubble_ui.Interactions.Connections
use hubble_ui.Interactions.Connections.{Connections, lookup, upsert_endpoints}

abbrev pub Grouped : Type 0 → Type 0
Grouped E = List (Str × Connections E)

module _ {E : Type 0} where
  -- `g.get(rid)?.get(port)?.get(kind)?.get(eid)`
  unfoldable pub endpoint_of : Grouped E → Str → Str → Str → Str → Option E
  unfolding get lookup
  endpoint_of g rid port kind eid = lookup (inner (get rid g)) port kind eid

module _ {E : Type 0} (update : E → E → E) where
  -- `ensureReceiverId` makes the receiver's connections where they are missing.
  unfoldable pub upsert : Grouped E → Str → Str → Str → Str → E → Grouped E × Bool
  unfolding get put Connections.upsert
  upsert g rid port kind eid ep =
      let (ports, is_new) = Connections.upsert update (inner (get rid g)) port kind eid ep in
      (put rid ports g, is_new)

  -- The inner loop of `ofKind`, over the ports of a receiver
  unfoldable pub of_kind_ports : Str → Str → Connections E → Connections E → Connections E
  unfolding get upsert_endpoints
  of_kind_ports kind rid conns [] = conns
  of_kind_ports kind rid conns ((port, kinds) ∷ ports) = elim (get kind kinds) [
    | none ↦ of_kind_ports kind rid conns ports
    | some endpoints ↦
        of_kind_ports kind rid (upsert_endpoints update conns rid port endpoints) ports
  ]

  unfoldable pub of_kind_from : Str → Connections E → Grouped E → Connections E
  unfolding of_kind_ports
  of_kind_from kind conns [] = conns
  of_kind_from kind conns ((rid, ports) ∷ g) =
      of_kind_from kind (of_kind_ports kind rid conns ports) g

  unfoldable pub of_kind : Str → Grouped E → Connections E
  unfolding of_kind_from
  of_kind kind g = of_kind_from kind [] g

pub record IpEndpoint : Type 0 where
  pub ip : Str
  pub ports : List ℕ

unfoldable pub add_port : IpEndpoint → ℕ → IpEndpoint × Bool
unfolding has add
add_port e port = (record e { ports = add port e.ports }, not (has port e.ports))

unfoldable pub remove_port : IpEndpoint → ℕ → IpEndpoint × Bool
unfolding has remove
remove_port e port = (record e { ports = remove port e.ports }, has port e.ports)

unfoldable pub has_port : IpEndpoint → ℕ → Bool
unfolding has
has_port e port = has port e.ports

unfoldable pub update_ip : IpEndpoint → IpEndpoint → IpEndpoint
unfolding add_all
update_ip this e = record this { ports = add_all e.ports this.ports }
