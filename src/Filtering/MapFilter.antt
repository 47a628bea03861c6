-- ===== src/Filtering/MapFilter.antt =====
-- src/domain/filtering/index.ts: `filter`, over the flows, the cards and the connections of the
-- service map. The sets and maps that its callbacks fill are the states of the two loops.
pub mod Laws
use hubble_ui.Prelude.{
  ℕ, Bool, true, false, not, ◌&&◌, ◌||◌, Option, none, some, List, [], ◌∷◌, ◌++◌, Str, str_Eq, any,
  filter, is_empty, if◌then◌else◌,
}
use hubble_ui.Prelude.Maps.{get, put, keys, values}
use hubble_ui.Prelude.Sets.{has, add}
use hubble_ui.Flow.{Flow, Runtime}
use hubble_ui.Link
use hubble_ui.Link.{Link}
use hubble_ui.ServiceMap.Card
use hubble_ui.ServiceMap.Card.{Card, Service, drop_access_points, upsert_access_point_from_link}
use hubble_ui.Interactions.PartialConnections.{PartialConnections, inner}
use hubble_ui.Interactions.LinkConnections.{LinkConnections}
use hubble_ui.Filtering.Entry.{FilterEntry, from_required, to_required}
use hubble_ui.Filtering.Filters.{Filters, or_empty}
use hubble_ui.Filtering.FilterFlow.{filter_flow}
use hubble_ui.Filtering.FilterLink.{filter_link}
use hubble_ui.Filtering.FilterService.{filter_service, filter_service_by_entry}

pub record FilterResult : Type 0 where
  pub flows : List Flow
  pub links : List Link
  pub services : List Card

-- `blacklistServices` and `newConnections`: the senders to each receiver
pub record Gathered : Type 0 where
  pub blacklist : List Str
  pub connections : List (Str × List Str)

unfoldable pub add_sender : List (Str × List Str) → Str → Str → List (Str × List Str)
unfolding get put add
add_sender connections receiver_id sender_id =
    put receiver_id (add sender_id (inner (get receiver_id connections))) connections

unfoldable pub add_senders : List (Str × List Str) → Str → List Str → List (Str × List Str)
unfolding add_sender
add_senders connections receiver_id [] = connections
add_senders connections receiver_id (sender_id ∷ ids) =
    add_senders (add_sender connections receiver_id sender_id) receiver_id ids

unfoldable pub add_receivers : List (Str × List Str) → Str → List Str → List (Str × List Str)
unfolding add_sender
add_receivers connections sender_id [] = connections
add_receivers connections sender_id (receiver_id ∷ ids) =
    add_receivers (add_sender connections receiver_id sender_id) sender_id ids

-- `clonedServices`, `filteredLinks` and `blacklistLinks`
pub record Kept : Type 0 where
  pub services : List (Str × Card)
  pub links : List Link
  pub blacklist_links : List Str

module _ (to_text : ℕ → Str) where
  -- The services kept, and the service under the id
  unfoldable pub ensure_service :
      List (Str × Card) → List (Str × Card) → Str → List (Str × Card) × Option Card
  unfolding get put drop_access_points Card.clone
  ensure_service cloned originals id = elim (get id cloned) [
    | some card ↦ (cloned, some card)
    | none ↦ elim (get id originals) [
      | none ↦ (cloned, none)
      | some original ↦
          let card = drop_access_points (Card.clone to_text original) in
          (put id card cloned, some card)
    ]
  ]

  unfoldable pub keep_link : List (Str × Card) → Kept → Str → Str → Link → Kept
  unfolding ensure_service put upsert_access_point_from_link
  keep_link cards k sender_id receiver_id link =
      let (with_sender, sender) = ensure_service k.services cards sender_id in
      let (with_both, receiver) = ensure_service with_sender cards receiver_id in
      elim receiver [
        | none ↦ record k { services = with_both }
        | some card ↦ record k {
          services = put receiver_id (upsert_access_point_from_link to_text card link) with_both;
          links = k.links ++ link ∷ [];
        }
      ]

module _ (to_text : ℕ → Str) (filters : Filters) where
  -- Whether an entry asks for the connections of a service in one direction
  unfoldable pub checks : (FilterEntry → Bool) → Service → Bool
  unfolding any filter_service_by_entry
  checks required service =
      is_empty (or_empty filters.filters)
      || any (λ e. filter_service_by_entry to_text service e && required e)
          (or_empty filters.filters)

  unfoldable pub add_incomings :
      LinkConnections → List (Str × List Str) → Str → Service → List (Str × List Str)
  unfolding checks get add_senders to_required
  add_incomings c connections id service =
      if checks to_required service
      then add_senders connections id (keys (inner (get id c.incomings)))
      else connections

  unfoldable pub add_outgoings :
      LinkConnections → List (Str × List Str) → Str → Service → List (Str × List Str)
  unfolding checks get add_receivers from_required
  add_outgoings c connections id service =
      if checks from_required service
      then add_receivers connections id (keys (inner (get id c.outgoings)))
      else connections

  unfoldable pub gather_card : LinkConnections → Gathered → Str → Card → Gathered
  gather_card c g id card =
      if filter_service card filters
      then record g {
        connections =
            add_outgoings c (add_incomings c g.connections id card.service) id card.service;
      }
      else record g { blacklist = add id g.blacklist }

  unfoldable pub gather : LinkConnections → Gathered → List (Str × Card) → Gathered
  gather c g [] = g
  gather c g ((id, card) ∷ cards) = gather c (gather_card c g id card) cards

  unfoldable pub visit_link : List (Str × Card) → Kept → Str → Str → Link → Kept
  unfolding has filter_link keep_link
  visit_link cards k sender_id receiver_id link =
      if has (Link.id link) k.blacklist_links
      then k
      else if filter_link link filters
      then keep_link to_text cards k sender_id receiver_id link
      else record k { blacklist_links = add (Link.id link) k.blacklist_links }

  unfoldable pub visit_links : List (Str × Card) → Kept → Str → Str → List (Str × Link) → Kept
  visit_links cards k sender_id receiver_id [] = k
  visit_links cards k sender_id receiver_id ((ap_id, link) ∷ links) =
      visit_links cards (visit_link cards k sender_id receiver_id link) sender_id receiver_id links

  unfoldable pub visit_senders :
      List (Str × Card) → List Str → PartialConnections Link → Kept → Str → List Str → Kept
  unfolding has get
  visit_senders cards blacklist incomings k receiver_id [] = k
  visit_senders cards blacklist incomings k receiver_id (sender_id ∷ ids) =
      visit_senders cards blacklist incomings
        (if has sender_id blacklist
          then k
          else visit_links cards k sender_id receiver_id (inner (get sender_id incomings)))
        receiver_id ids

  unfoldable pub visit_receivers :
      List (Str × Card) → LinkConnections → List Str → Kept → List (Str × List Str) → Kept
  unfolding has get
  visit_receivers cards c blacklist k [] = k
  visit_receivers cards c blacklist k ((receiver_id, sender_ids) ∷ connections) =
      visit_receivers cards c blacklist
        (if has receiver_id blacklist
          then k
          else visit_senders cards blacklist (inner (get receiver_id c.incomings)) k receiver_id
              sender_ids)
        connections

unfoldable pub filter_map :
    Runtime → (ℕ → Str) → Filters → List Flow → List (Str × Card) → LinkConnections → FilterResult
unfolding filter filter_flow
filter_map rt to_text filters flows cards c =
    let g = gather to_text filters c (record { blacklist = []; connections = [] }) cards in
    let k =
      visit_receivers to_text filters cards c g.blacklist
        (record { services = []; links = []; blacklist_links = [] }) g.connections in
    record {
      flows = filter (λ f. filter_flow rt f filters) flows;
      links = k.links;
      services = values k.services;
    }
