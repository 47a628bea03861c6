-- ===== src/Store/Frames/Laws.antt =====
-- What the current frame shows after it is made anew, and which filters the store gives back.
use hubble_ui.Prelude.{
  ◌≡◌, refl, ◌∙◌, inl, inr, ℕ, Bool, true, false, not, ◌&&◌, Option, none, some, List, [], ◌∷◌, map,
  All, All-append, Str, str_Eq, nat_Eq, ◌==◌, Bool-cases,
}
use hubble_ui.Prelude.Maps.{is_some}
use hubble_ui.Flow.{Flow, Runtime}
use hubble_ui.Link
use hubble_ui.Link.{Link, from_hubble_link}
use hubble_ui.Interactions.Endpoints.{ServiceEndpoint}
use hubble_ui.ServiceMap.Card
use hubble_ui.ServiceMap.Card.{Card, upsert_access_point, set_identity}
use hubble_ui.Interactions.LinkConnections.{build_from_links}
use hubble_ui.Filtering.Filters.{Filters, or_empty}
use hubble_ui.Filtering.FilterFlow.{is_set}
use hubble_ui.Filtering.FilterService.{filter_service}
use hubble_ui.Filtering.MapFilter.{filter_map}
use hubble_ui.Filtering.MapFilter.Laws.{filter_map-passes}
use hubble_ui.Store.Links.{link_of, add_link, add_links, clear_links}
use hubble_ui.Store.Links.Laws.{HasDistinctIds}
use hubble_ui.Store.Links.Invariant.{add_links-HasDistinctIds}
use hubble_ui.Store.Services
use hubble_ui.Store.Services.{
  card_of, change_card, upsert_points, merge_card, upsert_card, move_cards,
}
use hubble_ui.Store.Namespaces.{NamespaceStore, set_current, current, descriptor}
use hubble_ui.Store.Controls
use hubble_ui.Store.Controls.{ControlStore}
use hubble_ui.Store.Frames.{
  StoreFrame, flush, set_filters, get_filters, apply_frame, reset_current_frame,
}

-- The filters with what is missing filled in
abbrev pub filled : Filters → Filters
filled f = record {
  namespace = f.namespace;
  verdicts = some (or_empty f.verdicts);
  http_status = f.http_status;
  filters = some (or_empty f.filters);
  skip_host = some (is_set f.skip_host);
  skip_kube_dns = some (is_set f.skip_kube_dns);
  skip_remote_node = some (is_set f.skip_remote_node);
  skip_prometheus_app = some (is_set f.skip_prometheus_app);
}

not-not : (b : Bool) → not (not b) ≡ b
not-not true = refl
not-not false = refl

-- The store gives back the filters that a frame was set to, with no verdicts, no entries and flags
-- that are false in place of missing ones.
pub get_filters-set_filters :
    (frame : StoreFrame) (f : Filters)
    → get_filters (set_filters frame f).controls (set_filters frame f).namespaces ≡ filled f
unfolding get_filters set_filters Controls.set_filters set_current current descriptor
get_filters-set_filters frame f =
    rw
      (
        not-not (is_set f.skip_host),
        not-not (is_set f.skip_kube_dns),
        not-not (is_set f.skip_remote_node),
        not-not (is_set f.skip_prometheus_app),
        same f.namespace,
      )
      refl
  where
    s : NamespaceStore
    s = (set_current frame.namespaces f.namespace).0

    same :
        (ns : Option Str)
        → elim (descriptor s ns) as (λ x. Option Str) [ none ↦ none | some d ↦ some d.namespace ]
          ≡ ns
    same none = refl
    same (some name) = refl

module _ (to_text : ℕ → Str) (fs : Filters) where
  abbrev Passes : Card → Type 0
  Passes card = filter_service card fs ≡ true

  upsert_points-Passes :
      (c : Card) (aps : List (Str × ServiceEndpoint))
      → filter_service (upsert_points to_text c aps) fs ≡ filter_service c fs
  unfolding upsert_points upsert_access_point filter_service Card.is_host Card.is_remote_node
      Card.is_prometheus_app Card.labels_props
  upsert_points-Passes c [] = refl
  upsert_points-Passes c ((k, ap) ∷ aps) =
      upsert_points-Passes (upsert_access_point to_text c ap) aps

  merge_card-Passes :
      (svc c : Card) → filter_service (merge_card to_text svc c) fs ≡ filter_service c fs
  unfolding merge_card set_identity
  merge_card-Passes svc c =
      elim (Bool-cases ((upsert_points to_text c svc.access_points).identity == 0)) [
        | inl nobody ↦ rw nobody (same _ ∙ upsert_points-Passes c svc.access_points)
        | inr somebody ↦ rw somebody (upsert_points-Passes c svc.access_points)
      ]
    where
      same : (c : Card) → filter_service (set_identity c svc.identity).0 fs ≡ filter_service c fs
      same c =
          unfold filter_service Card.is_host Card.is_remote_node Card.is_prometheus_app
            Card.labels_props in
          refl

  change_card-Passes :
      (id : Str) (svc : Card) (cards : List Card)
      → All Passes cards
      → All Passes (change_card id (merge_card to_text svc) cards)
  unfolding change_card
  change_card-Passes id svc [] h = tt
  change_card-Passes id svc (c ∷ cs) (p, h) =
      elim (Bool-cases (Card.id c == id && not (is_some (card_of id cs)))) [
        | inl here ↦ rw here (merge_card-Passes svc c ∙ p, h)
        | inr later ↦ rw later (p, change_card-Passes id svc cs h)
      ]

  upsert_card-Passes :
      (svc : Card) (cards : List Card)
      → Passes svc
      → All Passes cards
      → All Passes (upsert_card to_text cards svc)
  unfolding upsert_card
  upsert_card-Passes svc cards p h = elim (Bool-cases (is_some (card_of (Card.id svc) cards))) [
    | inl old ↦ rw old (change_card-Passes (Card.id svc) svc cards h)
    | inr new ↦ rw new (All-append Passes cards (svc ∷ []) h (p, tt))
  ]

  move_cards-Passes :
      (cards given : List Card)
      → All Passes given
      → All Passes cards
      → All Passes (move_cards to_text cards given)
  unfolding move_cards
  move_cards-Passes cards [] _ h = h
  move_cards-Passes cards (svc ∷ given) (p, ps) h =
      move_cards-Passes (upsert_card to_text cards svc) given ps (upsert_card-Passes svc cards p h)

-- A link of which the first verdict is the only one
abbrev pub HasOneVerdict : Link → Type 0
HasOneVerdict l = l.verdicts ≡ l.ref.verdict ∷ []

add_links-HasOneVerdict :
    (links given : List Link) → All HasOneVerdict links → All HasOneVerdict (add_links links given)
unfolding add_links add_link
add_links-HasOneVerdict links [] h = h
add_links-HasOneVerdict links (l ∷ ls) h = add_links-HasOneVerdict (add_link links l.ref) ls one
  where
    one : All HasOneVerdict (add_link links l.ref)
    one = elim (Bool-cases (is_some (link_of l.ref.id links))) [
      | inl old ↦ rw old h
      | inr new ↦ rw new (
          All-append HasOneVerdict links (from_hubble_link l.ref ∷ []) h
            (unfold from_hubble_link in refl, tt))
    ]

-- When the current frame is made anew of the global one by some filters, every card in it passes the
-- filters' tests of services, no two links in it have one id, and each link has a single verdict, that
-- of its HubbleLink, whatever verdicts it had collected in the global frame.
pub reset_current_frame-passes :
    (rt : Runtime) (to_text : ℕ → Str) (now global : StoreFrame) (flows : List Flow) (fs : Filters)
    (with_namespaces : Bool)
    → let frame = reset_current_frame to_text rt now global flows fs with_namespaces in
      All (λ card. filter_service card fs ≡ true) frame.cards
      × HasDistinctIds frame.links
      × All HasOneVerdict frame.links
unfolding reset_current_frame flush apply_frame clear_links
reset_current_frame-passes rt to_text now global flows fs with_namespaces =
    let result =
      filter_map rt to_text fs flows (Services.cards_map global.cards)
        (build_from_links to_text global.links) in
    let kept =
      filter_map-passes rt to_text fs flows (Services.cards_map global.cards)
        (build_from_links to_text global.links) in
    (
      move_cards-Passes to_text fs [] result.services kept.2 tt,
      add_links-HasDistinctIds [] (map Link.clone result.links) tt,
      add_links-HasOneVerdict [] (map Link.clone result.links) tt,
    )
