-- ===== src/Placement/Groups.antt =====
-- src/ui-layer/service-map/coordinates/placement.ts: the kind and the weight of each card, by its
-- connections.
use hubble_ui.Prelude.{
  ℕ, ◌+◌, Bool, true, false, not, ◌||◌, Option, none, some, List, [], ◌∷◌, ◌++◌, Str, str_Eq,
  opt_Eq, nat_eq, ltb, any, ◌==◌, Eq, arith, ◌≡◌, ◌↔◌, if◌then◌else◌,
}
use hubble_ui.Prelude.Int.{ℤ, sub_ℕ}
use hubble_ui.Prelude.Maps.{get, put, keys}
use hubble_ui.Link.{Link}
use hubble_ui.Interactions.PartialConnections.{PartialConnections, inner, size}
use hubble_ui.Interactions.LinkConnections.{LinkConnections}
use hubble_ui.ServiceMap.Card
use hubble_ui.ServiceMap.Card.{Card}
use hubble_ui.Store.Services.{cards_map}

pub data PlacementKind : Type 0 where
  from_world to_world another_namespace inside_with_connections : PlacementKind
  inside_without_connections outside_managed : PlacementKind

abbrev kind_number : PlacementKind → ℕ
kind_number from_world = 0
kind_number to_world = 1
kind_number another_namespace = 2
kind_number inside_with_connections = 3
kind_number inside_without_connections = 4
kind_number outside_managed = 5

abbrev pub kind_eq : PlacementKind → PlacementKind → Bool
kind_eq a b = nat_eq (kind_number a) (kind_number b)

pub kind_eq_iff : (a b : PlacementKind) → (kind_eq a b ≡ true) ↔ (a ≡ b)
kind_eq_iff a b = ground arith

instance abbrev pub kind_Eq : Eq PlacementKind
kind_Eq = record { beq = kind_eq; beq_iff = kind_eq_iff }

pub record PlacementMeta : Type 0 where
  pub kind : PlacementKind
  pub card : Card
  pub weight : ℤ

pub record SpecialInteractions : Type 0 where
  pub has_world_as_sender : Bool
  pub has_host_as_sender : Bool
  pub has_world_as_receiver : Bool

-- Whether a card that the store has under one of the ids passes
unfoldable pub any_card : (Card → Bool) → List (Str × Card) → List Str → Bool
unfolding any get
any_card p cards = any (λ id. elim (get id cards) [ none ↦ false | some card ↦ p card ])

-- The connections of a card in one direction
abbrev pub connected : Card → List (Str × PartialConnections Link) → PartialConnections Link
connected card m = inner (get (Card.id card) m)

unfoldable pub find_special_interactions :
    List (Str × Card) → LinkConnections → Card → SpecialInteractions
unfolding any_card get Card.id
find_special_interactions cards conns card = record {
  has_world_as_sender = any_card Card.is_world cards (keys (connected card conns.incomings));
  has_host_as_sender = any_card Card.is_host cards (keys (connected card conns.incomings));
  has_world_as_receiver = any_card Card.is_world cards (keys (connected card conns.outgoings));
}

unfoldable pub kind_of : ℕ → ℕ → Option Str → Card → PlacementKind
unfolding Card.is_world Card.is_host Card.is_remote_node Card.namespace
kind_of incomings_count outgoings_count ns card =
    let in_another_namespace : Bool = elim ns [
      | none ↦ false
      | some name ↦ not (Card.namespace card == some name)
    ] in
    if Card.is_host card || Card.is_remote_node card
    then from_world
    else if Card.is_world card
    then if ltb 0 incomings_count then to_world else from_world
    else if in_another_namespace
    then another_namespace
    else if ltb 0 incomings_count || ltb 0 outgoings_count
    then inside_with_connections
    else inside_without_connections

unfoldable pub get_card_placement_meta :
    List (Str × Card) → LinkConnections → Option Str → Card → PlacementMeta
unfolding find_special_interactions kind_of size get Card.id
get_card_placement_meta cards conns ns card =
    let incomings_count = size (connected card conns.incomings) in
    let outgoings_count = size (connected card conns.outgoings) in
    let props = find_special_interactions cards conns card in
    let from_outside : ℕ =
      if props.has_world_as_sender || props.has_host_as_sender then 1000 else 0 in
    let to_outside : ℕ = if props.has_world_as_receiver then 500 else 0 in
    record {
      kind = kind_of incomings_count outgoings_count ns card;
      card = card;
      weight = sub_ℕ (outgoings_count + from_outside + to_outside) incomings_count;
    }

-- The loop of `placementGroups`; an empty name of a namespace counts as none.
unfoldable pub group_cards :
    List (Str × Card)
    → LinkConnections
    → Option Str
    → List Card
    → List (PlacementKind × List PlacementMeta)
    → List (PlacementKind × List PlacementMeta)
unfolding get_card_placement_meta get put
group_cards cards conns ns [] index = index
group_cards cards conns ns (card ∷ rest) index =
    let meta = get_card_placement_meta cards conns ns card in
    group_cards cards conns ns rest (put meta.kind (inner (get meta.kind index) ++ meta ∷ []) index)

unfoldable pub placement_groups :
    List Card → LinkConnections → Option Str → List (PlacementKind × List PlacementMeta)
unfolding group_cards cards_map
placement_groups cards conns ns = group_cards (cards_map cards) conns ns cards []
