-- ===== src/Filtering/MapFilter/Laws.antt =====
-- What the filter of the service map keeps.
use mathlib.Core.Path.{subst}
use hubble_ui.Prelude.{
  ◌≡◌, refl, ◌∙◌, inl, inr, ℕ, true, false, ◌||◌, some, List, [], ◌∷◌, All, All-append, Str, str_Eq,
  ◌==◌, filter, arith, Bool-cases, Option-cases, if◌then◌else◌,
}
use hubble_ui.Prelude.Maps.{get, values, All-put, All-get}
use hubble_ui.Prelude.Sets.{has, has-add}
use hubble_ui.Flow.{Flow, Runtime}
use hubble_ui.Link
use hubble_ui.Link.{Link}
use hubble_ui.ServiceMap.Card
use hubble_ui.ServiceMap.Card.{Card, drop_access_points, upsert_access_point_from_link}
use hubble_ui.Interactions.PartialConnections.{PartialConnections, inner}
use hubble_ui.Interactions.LinkConnections.{LinkConnections}
use hubble_ui.Filtering.Filters.{Filters}
use hubble_ui.Filtering.FilterFlow.{filter_flow}
use hubble_ui.Filtering.FilterLink.{filter_link}
use hubble_ui.Filtering.FilterService.{filter_service}
use hubble_ui.Filtering.MapFilter.{
  Gathered, Kept, gather_card, gather, ensure_service, keep_link, visit_link, visit_links,
  visit_senders, visit_receivers, filter_map,
}

module _ (to_text : ℕ → Str) (fs : Filters) where
  abbrev Passes : Card → Type 0
  Passes c = filter_service c fs ≡ true

  gather_card-blacklist :
      (c : LinkConnections) (g : Gathered) (id k : Str) (card : Card)
      → has k (gather_card to_text fs c g id card).blacklist
        ≡ (has k g.blacklist || (if filter_service card fs then false else id == k))
  unfolding gather_card
  gather_card-blacklist c g id k card = ground (
    arith,
    has-add k id g.blacklist,
    Bool-cases (filter_service card fs),
    Bool-cases (has k g.blacklist),
  )

  -- Once in the blacklist, an id stays there.
  gather-keeps :
      (c : LinkConnections) (cards : List (Str × Card)) (g : Gathered) (k : Str)
      → has k g.blacklist ≡ true
      → has k (gather to_text fs c g cards).blacklist ≡ true
  unfolding gather
  gather-keeps c [] g k h = h
  gather-keeps c ((id, card) ∷ cards) g k h =
      gather-keeps c cards (gather_card to_text fs c g id card) k
        (ground (arith, gather_card-blacklist c g id k card))

  -- A card whose id is not in the blacklist passes.
  gather-Passes :
      (c : LinkConnections) (cards : List (Str × Card)) (g : Gathered) (k : Str) (card : Card)
      → has k (gather to_text fs c g cards).blacklist ≡ false
      → get k cards ≡ some card
      → Passes card
  unfolding gather get
  gather-Passes c [] g k card free found = cc
  gather-Passes c ((id, card') ∷ cards) g k card free found = elim (Bool-cases (id == k)) [
    | inl same ↦ elim (Bool-cases (filter_service card' fs)) [
      | inl passes ↦ subst Passes (ground (arith, same)) passes
      | inr fails ↦ ground (
        arith,
        gather-keeps c cards (gather_card to_text fs c g id card') k
            (ground (arith, gather_card-blacklist c g id k card')),
      )
    ]
    | inr other ↦
        gather-Passes c cards (gather_card to_text fs c g id card') k card free
          (ground (arith, other))
  ]

  clone_passes :
      (c : Card)
      → filter_service (drop_access_points (Card.clone to_text c)) fs ≡ filter_service c fs
  unfolding filter_service drop_access_points Card.clone Card.from_service Card.is_host
      Card.is_remote_node Card.is_prometheus_app Card.labels_props
  clone_passes c = refl

  upsert_passes :
      (c : Card) (l : Link)
      → filter_service (upsert_access_point_from_link to_text c l) fs ≡ filter_service c fs
  unfolding filter_service upsert_access_point_from_link Card.upsert_access_point Card.is_host
      Card.is_remote_node Card.is_prometheus_app Card.labels_props
  upsert_passes c l = refl

  -- The links and the cards that are kept pass.
  record IsKept (k : Kept) : Type 0 where
    links_pass : All (λ l. filter_link l fs ≡ true) k.links
    services_pass : All (λ p. Passes p.1) k.services

  module _ (cards : List (Str × Card)) where
    -- The services pass after the call, and so does the service that it returns.
    ensure_service-Passes :
        (cloned : List (Str × Card)) (id : Str)
        → ((c : Card) → get id cards ≡ some c → Passes c)
        → All (λ p. Passes p.1) cloned
        → All (λ p. Passes p.1) (ensure_service to_text cloned cards id).0
          × ((c : Card) → (ensure_service to_text cloned cards id).1 ≡ some c → Passes c)
    unfolding ensure_service
    ensure_service-Passes cloned id originals h = elim (Option-cases (get id cloned)) [
      | inl new ↦ elim (Option-cases (get id cards)) [
        | inl missing ↦ rw (new, missing, ensure_service) (h, λ c e. cc)
        | inr (c, found) ↦
            let p : Passes (drop_access_points (Card.clone to_text c)) =
              clone_passes c ∙ originals c found in
            rw (new, found, ensure_service)
              (
                All-put Passes id (drop_access_points (Card.clone to_text c)) cloned h p,
                λ c' e. subst Passes (ground (arith, e)) p,
              )
      ]
      | inr (c, old) ↦
          rw (old, ensure_service)
            (h, λ c' e. subst Passes (ground (arith, e)) (All-get Passes id c cloned h old))
    ]

    keep_link-IsKept :
        (k : Kept) (s r : Str) (l : Link)
        → ((c : Card) → get s cards ≡ some c → Passes c)
        → ((c : Card) → get r cards ≡ some c → Passes c)
        → filter_link l fs ≡ true
        → IsKept k
        → IsKept (keep_link to_text cards k s r l)
    unfolding keep_link
    keep_link-IsKept k s r l hs hr passes v =
        let with_sender = (ensure_service to_text k.services cards s).0 in
        let a = (ensure_service-Passes k.services s hs v.services_pass).0 in
        let (b, card) = ensure_service-Passes with_sender r hr a in
        elim (Option-cases (ensure_service to_text with_sender cards r).1) [
          | inl missing ↦
              rw (missing, keep_link) (record { links_pass = v.links_pass; services_pass = b })
          | inr (c, found) ↦
              rw (found, keep_link)
                (record {
                  links_pass =
                      All-append (λ x. filter_link x fs ≡ true) k.links (l ∷ []) v.links_pass
                        (passes, tt);
                  services_pass =
                      All-put Passes r (upsert_access_point_from_link to_text c l)
                        (ensure_service to_text with_sender cards r).0 b
                        (upsert_passes c l ∙ card c found);
                })
        ]

    visit_link-IsKept :
        (k : Kept) (s r : Str) (l : Link)
        → ((c : Card) → get s cards ≡ some c → Passes c)
        → ((c : Card) → get r cards ≡ some c → Passes c)
        → IsKept k
        → IsKept (visit_link to_text fs cards k s r l)
    unfolding visit_link
    visit_link-IsKept k s r l hs hr v = elim (Bool-cases (has (Link.id l) k.blacklist_links)) [
      | inl known ↦ rw known v
      | inr new ↦ elim (Bool-cases (filter_link l fs)) [
        | inl passes ↦ rw (new, passes) (keep_link-IsKept k s r l hs hr passes v)
        | inr fails ↦
            rw (new, fails) (record { links_pass = v.links_pass; services_pass = v.services_pass })
      ]
    ]

    visit_links-IsKept :
        (links : List (Str × Link)) (k : Kept) (s r : Str)
        → ((c : Card) → get s cards ≡ some c → Passes c)
        → ((c : Card) → get r cards ≡ some c → Passes c)
        → IsKept k
        → IsKept (visit_links to_text fs cards k s r links)
    unfolding visit_links
    visit_links-IsKept [] k s r hs hr v = v
    visit_links-IsKept ((ap_id, l) ∷ links) k s r hs hr v =
        visit_links-IsKept links (visit_link to_text fs cards k s r l) s r hs hr
          (visit_link-IsKept k s r l hs hr v)

    module _ (blacklist : List Str)
        (allowed : (id : Str)
          → has id blacklist ≡ false
          → (c : Card) → get id cards ≡ some c
          → Passes c) where
      visit_senders-IsKept :
          (ids : List Str) (incomings : PartialConnections Link) (k : Kept) (r : Str)
          → has r blacklist ≡ false
          → IsKept k
          → IsKept (visit_senders to_text fs cards blacklist incomings k r ids)
      unfolding visit_senders
      visit_senders-IsKept [] incomings k r free v = v
      visit_senders-IsKept (s ∷ ids) incomings k r free v = elim (Bool-cases (has s blacklist)) [
        | inl black ↦ rw black (visit_senders-IsKept ids incomings k r free v)
        | inr white ↦ rw white (
            visit_senders-IsKept ids incomings
              (visit_links to_text fs cards k s r (inner (get s incomings))) r free
              (visit_links-IsKept (inner (get s incomings)) k s r (allowed s white) (allowed r free)
                v))
      ]

      visit_receivers-IsKept :
          (connections : List (Str × List Str)) (c : LinkConnections) (k : Kept)
          → IsKept k
          → IsKept (visit_receivers to_text fs cards c blacklist k connections)
      unfolding visit_receivers
      visit_receivers-IsKept [] c k v = v
      visit_receivers-IsKept ((r, ids) ∷ connections) c k v = elim (Bool-cases (has r blacklist)) [
        | inl black ↦ rw black (visit_receivers-IsKept connections c k v)
        | inr white ↦ rw white (
            visit_receivers-IsKept connections c
              (visit_senders to_text fs cards blacklist (inner (get r c.incomings)) k r ids)
              (visit_senders-IsKept ids (inner (get r c.incomings)) k r white v))
      ]

  All-values : (m : List (Str × Card)) → All (λ p. Passes p.1) m → All Passes (values m)
  All-values [] h = tt
  All-values ((k, c) ∷ m) (h, hs) = (h, All-values m hs)

-- The flows kept are those that pass, in order. Every link kept passes, and every card kept passes
-- the tests of services (host, remote node, Prometheus), for any cards and connections.
pub filter_map-passes :
    (rt : Runtime) (to_text : ℕ → Str) (fs : Filters) (flows : List Flow)
    (cards : List (Str × Card)) (c : LinkConnections)
    → let result = filter_map rt to_text fs flows cards c in
      (result.flows ≡ filter (λ f. filter_flow rt f fs) flows)
      × All (λ l. filter_link l fs ≡ true) result.links
      × All (λ s. filter_service s fs ≡ true) result.services
unfolding filter_map
filter_map-passes rt to_text fs flows cards c =
    let start : Gathered = record { blacklist = []; connections = [] } in
    let g = gather to_text fs c start cards in
    let v =
      visit_receivers-IsKept to_text fs cards g.blacklist
        (λ id free card found. gather-Passes to_text fs c cards start id card free found)
        g.connections c (record { services = []; links = []; blacklist_links = [] })
        (record { links_pass = tt; services_pass = tt }) in
    (refl, v.links_pass, All-values to_text fs _ v.services_pass)
