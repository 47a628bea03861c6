-- ===== src/Interactions/LinkConnections.antt =====
-- src/domain/interactions/connections.ts: the links by sender and by receiver. Links have no method
-- `update`. `to_text` writes a number in decimal digits.
pub mod Laws
use hubble_ui.Prelude.{ℕ, List, [], ◌∷◌, Str}
use hubble_ui.Link
use hubble_ui.Link.{Link}
use hubble_ui.Interactions.Endpoints.{generate_id}
use hubble_ui.Interactions.Connections
use hubble_ui.Interactions.Connections.{Connections, upsert, get_inversed, endpoint_list}

pub record LinkConnections : Type 0 where
  pub outgoings : Connections Link
  pub incomings : Connections Link

abbrev pub no_update : Link → Link → Link
no_update stored given = stored

unfoldable pub add_links : (ℕ → Str) → Connections Link → List Link → Connections Link
add_links to_text outgoings [] = outgoings
add_links to_text outgoings (link ∷ links) =
    let receiver_id = Link.destination_id link in
    let access_point_id = generate_id to_text receiver_id (Link.destination_port link) in
    add_links to_text
      (upsert no_update outgoings (Link.source_id link) receiver_id access_point_id link).0 links

unfoldable pub build_from_links : (ℕ → Str) → List Link → LinkConnections
build_from_links to_text links =
    let outgoings = add_links to_text [] links in
    record { outgoings = outgoings; incomings = get_inversed no_update outgoings }

unfoldable pub links_list : LinkConnections → List Link
unfolding endpoint_list
links_list c = endpoint_list c.outgoings
