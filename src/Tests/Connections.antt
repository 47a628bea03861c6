-- ===== src/Tests/Connections.antt =====
-- The theorems on links, connections and the filter of the service map, at one link and one flow.
use hubble_ui.Prelude.{Str, str_Eq, All, ◌≡◌, ◌+◌, refl, true, filter, find, List, [], ◌∷◌, codes}
use hubble_ui.Prelude.Sets.{has}
use hubble_ui.Link.{Link, Heap}
use hubble_ui.ServiceMap.Card.{Card, from_service}
use hubble_ui.Interactions.Connections.{Connections, lookup, get_inversed}
use hubble_ui.Interactions.Connections.Laws.{IsWellKeyed, lookup-get_inversed}
use hubble_ui.Interactions.LinkConnections.{no_update, build_from_links}
use hubble_ui.Interactions.LinkConnections.Laws.{connects, lookup-build_from_links}
use hubble_ui.Filtering.FilterFlow.{filter_flow}
use hubble_ui.Filtering.FilterLink.{filter_link}
use hubble_ui.Filtering.FilterService.{filter_service}
use hubble_ui.Filtering.MapFilter.{filter_map}
use hubble_ui.Filtering.MapFilter.Laws.{filter_map-passes}
use hubble_ui.Tests.{forwarded_only, link, runtime, service, digit, ui_to_db}

abbrev traffic : Heap
traffic a = record { flow_amount = a + 2; bytes_transfered = 100 }

-- One link from the user interface to the data base
abbrev stored : Connections Link
stored = (codes "ui", (codes "db", (codes "p", link) ∷ []) ∷ []) ∷ []

abbrev stored-IsWellKeyed : IsWellKeyed stored
stored-IsWellKeyed = unfold has in ((refl, tt), (((refl, tt), ((refl, tt), tt)), tt))

lookup-get_inversed_example :
    lookup (get_inversed no_update stored) (codes "db") (codes "ui") (codes "p")
    ≡ lookup stored (codes "ui") (codes "db") (codes "p")
lookup-get_inversed_example =
    lookup-get_inversed no_update stored (codes "ui") (codes "db") (codes "p") stored-IsWellKeyed

lookup-build_from_links_example :
    let c = build_from_links digit (link ∷ []) in
    let first = find (connects digit (codes "ui") (codes "db") (codes "p")) (link ∷ []) in
    (lookup c.outgoings (codes "ui") (codes "db") (codes "p") ≡ first)
    × (lookup c.incomings (codes "db") (codes "ui") (codes "p") ≡ first)
lookup-build_from_links_example =
    lookup-build_from_links digit (link ∷ []) (codes "ui") (codes "db") (codes "p")

abbrev cards : List (Str × Card)
cards =
    (codes "ui", from_service (record service { id = codes "ui" }))
    ∷ (codes "db", from_service (record service { id = codes "db" }))
    ∷ []

filter_map-passes_example :
    let result =
      filter_map runtime digit forwarded_only
        (ui_to_db ∷ [])
        cards
        (build_from_links digit (link ∷ [])) in
    (result.flows ≡ filter (λ f. filter_flow runtime f forwarded_only) (ui_to_db ∷ []))
    × All (λ l. filter_link l forwarded_only ≡ true) result.links
    × All (λ s. filter_service s forwarded_only ≡ true) result.services
filter_map-passes_example =
    filter_map-passes runtime digit forwarded_only (ui_to_db ∷ []) cards
      (build_from_links digit (link ∷ []))
