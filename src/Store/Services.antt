-- ===== src/Store/Services.antt =====
-- src/store/stores/service.ts: the cards of the service store. Cards are values here: a card is taken
-- to be in one store only, and to share no access point with another one. `to_text` writes a number
-- in decimal digits. Warnings on the console are left out.
pub mod Laws
use hubble_ui.Prelude.{
  ℕ, ◌+◌, Bool, true, false, not, ◌&&◌, Option, none, some, List, [], ◌∷◌, ◌++◌, map, any, Str,
  str_Eq, nat_Eq, codes, ◌==◌, length, ltb, is_empty, if◌then◌else◌,
}
use hubble_ui.Prelude.Maps.{get, put, values, is_some}
use hubble_ui.Prelude.Sets.{add}
use hubble_ui.Helpers.Workload.{Workload}
use hubble_ui.Link.{Link, HubbleLink}
use hubble_ui.Interactions.Endpoints
use hubble_ui.Interactions.Endpoints.{ServiceEndpoint}
use hubble_ui.ServiceMap.Card
use hubble_ui.ServiceMap.Card.{Card, Service, from_service, upsert_access_point, set_identity}
use hubble_ui.Filtering.Entry.{FilterEntry, as_workload}
use hubble_ui.Filtering.Entry.Builders.{is_identity, is_dns, is_workload}
use hubble_ui.Store.Links.{StateChange, deleted, modified}

-- The loop of `cardsMap`
unfoldable pub cards_map_from : List (Str × Card) → List Card → List (Str × Card)
unfolding put
cards_map_from m [] = m
cards_map_from m (card ∷ cards) = cards_map_from (put card.service.id card m) cards

unfoldable pub cards_map : List Card → List (Str × Card)
unfolding cards_map_from
cards_map cards = cards_map_from [] cards

-- `cardsMap.get(id)`: of cards with one id, the last.
unfoldable pub card_of : Str → List Card → Option Card
card_of id [] = none
card_of id (c ∷ cs) = elim (card_of id cs) [
  | some later ↦ some later
  | none ↦ if Card.id c == id then some c else none
]

-- The object that `cardsMap.get(id)` is, after a method has changed it
unfoldable pub change_card : Str → (Card → Card) → List Card → List Card
unfolding card_of
change_card id f [] = []
change_card id f (c ∷ cs) =
    let rest = change_card id f cs in
    if Card.id c == id && not (is_some (card_of id cs)) then f c ∷ cs else c ∷ rest

-- `findIndex` and `splice(idx, 1)`
unfoldable pub remove_card : Str → List Card → List Card
remove_card id [] = []
remove_card id (c ∷ cs) = let rest = remove_card id cs in if Card.id c == id then cs else c ∷ rest

unfoldable pub delete_service : List Card → Service → List Card
unfolding card_of remove_card
delete_service cards svc =
    if is_some (card_of svc.id cards) then remove_card svc.id cards else cards

unfoldable pub set : List Service → List Card
set = map from_service

module _ (to_text : ℕ → Str) where
  unfoldable pub upsert_points : Card → List (Str × ServiceEndpoint) → Card
  unfolding upsert_access_point
  upsert_points card [] = card
  upsert_points card ((key, ap) ∷ aps) = upsert_points (upsert_access_point to_text card ap) aps

  -- What `upsertService` does to the card that is there
  unfoldable pub merge_card : Card → Card → Card
  unfolding upsert_points set_identity
  merge_card svc existing =
      let with_points = upsert_points existing svc.access_points in
      if with_points.identity == 0 then (set_identity with_points svc.identity).0 else with_points

  unfoldable pub upsert_card : List Card → Card → List Card
  unfolding card_of change_card merge_card
  upsert_card cards svc =
      if is_some (card_of (Card.id svc) cards)
      then change_card (Card.id svc) (merge_card svc) cards
      else cards ++ svc ∷ []

  unfoldable pub upsert_service : List Card → Service → List Card
  unfolding upsert_card from_service
  upsert_service cards svc = upsert_card cards (from_service svc)

  unfoldable pub apply_service_change : List Card → Service → StateChange → List Card
  unfolding delete_service upsert_service from_service card_of
  apply_service_change cards svc deleted = delete_service cards svc
  apply_service_change cards svc modified = upsert_service cards svc
  apply_service_change cards svc _ =
      if is_some (card_of svc.id cards) then cards else cards ++ from_service svc ∷ []

  unfoldable pub apply_service_changes : List Card → List (Service × StateChange) → List Card
  unfolding apply_service_change
  apply_service_changes cards [] = cards
  apply_service_changes cards ((svc, change) ∷ changes) =
      apply_service_changes (apply_service_change cards svc change) changes

  unfoldable pub move_cards : List Card → List Card → List Card
  unfolding upsert_card
  move_cards cards [] = cards
  move_cards cards (card ∷ given) = move_cards (upsert_card cards card) given

  unfoldable pub extract_access_point : List Card → Link → List Card
  unfolding change_card Endpoints.from_link upsert_access_point
  extract_access_point cards link =
      let ap = Endpoints.from_link link in
      change_card ap.service_id (λ card. upsert_access_point to_text card ap) cards

  unfoldable pub extract_access_points : List Card → List Link → List Card
  unfolding extract_access_point
  extract_access_points cards [] = cards
  extract_access_points cards (link ∷ links) =
      extract_access_points (extract_access_point cards link) links

  unfoldable pub upsert_services : List Card → List Service → List Card
  unfolding upsert_service
  upsert_services cards [] = cards
  upsert_services cards (svc ∷ services) = upsert_services (upsert_service cards svc) services

  unfoldable pub replace_with_service_map : List Service → List Link → List Card
  unfolding set extract_access_points
  replace_with_service_map services links = extract_access_points (set services) links

  unfoldable pub extend_with_service_map : List Card → List Service → List Link → List Card
  unfolding upsert_services extract_access_points
  extend_with_service_map cards services links =
      extract_access_points (upsert_services cards services) links

-- The maps that the getters make: a card stands under its key unless an earlier one does. A card
-- without a key is in none.
unfoldable pub index_from : (Card → Option Str) → List (Str × Card) → List Card → List (Str × Card)
unfolding get put
index_from key m [] = m
index_from key m (card ∷ cards) = elim (key card) [
  | none ↦ index_from key m cards
  | some k ↦
      if is_some (get k m) then index_from key m cards else index_from key (put k card m) cards
]

abbrev pub identity_key : (ℕ → Str) → Card → Option Str
identity_key to_text card = if card.identity == 0 then none else some (to_text card.identity)

abbrev pub domain_key : Card → Option Str
domain_key card = elim (Card.domain card) [
  | none ↦ none
  | some name ↦ if is_empty name then none else some name
]

abbrev pub text_of_workload : Workload → Str
text_of_workload wl = wl.kind ++ (codes "/" ++ wl.name)

abbrev pub workload_key : Card → Option Str
workload_key card = elim (Card.workload card) [ none ↦ none | some wl ↦ some (text_of_workload wl) ]

unfoldable pub cards_identity_map : (ℕ → Str) → List Card → List (Str × Card)
unfolding index_from
cards_identity_map to_text = index_from (identity_key to_text) []

unfoldable pub cards_domain_map : List Card → List (Str × Card)
unfolding index_from Card.domain
cards_domain_map = index_from domain_key []

unfoldable pub card_workloads_map : List Card → List (Str × Card)
unfolding index_from Card.workload
card_workloads_map = index_from workload_key []

unfoldable pub by_workload : List Card → Option Workload → Option Card
unfolding card_workloads_map get
by_workload cards none = none
by_workload cards (some wl) = get (text_of_workload wl) (card_workloads_map cards)

unfoldable pub by_filter_entry : (ℕ → Str) → List Card → FilterEntry → Option Card
unfolding cards_identity_map cards_domain_map by_workload get
by_filter_entry to_text cards e =
    if is_identity e
    then get e.query (cards_identity_map to_text cards)
    else if is_dns e
    then get e.query (cards_domain_map cards)
    else if is_workload e
    then by_workload cards (as_workload e)
    else none

unfoldable pub has_other_cards_with_the_same_caption : List Card → Card → Bool
unfolding any Card.caption
has_other_cards_with_the_same_caption cards card =
    any (λ c. not (Card.id c == Card.id card) && Card.caption card == Card.caption c) cards

-- The loop of `isClusterMeshed`, with the names seen so far
unfoldable pub is_meshed : List Str → List Card → Bool
unfolding add Card.cluster_name
is_meshed seen [] = false
is_meshed seen (card ∷ cards) = elim (Card.cluster_name card) [
  | none ↦ if ltb 1 (length seen) then true else is_meshed seen cards
  | some name ↦ if ltb 1 (length (add name seen)) then true else is_meshed (add name seen) cards
]

unfoldable pub is_cluster_meshed : List Card → Bool
unfolding is_meshed
is_cluster_meshed cards = is_meshed [] cards
