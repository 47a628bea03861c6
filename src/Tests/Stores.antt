-- ===== src/Tests/Stores.antt =====
-- The theorems on the stores, at one link, two cards and two namespaces.
use hubble_ui.Prelude.{
  str_Eq, [], ◌∷◌, ◌≡◌, refl, ◌+◌, ◌==◌, some, true, codes, find, if◌then◌else◌,
}
use hubble_ui.Prelude.Sets.{has}
use hubble_ui.Link.{Heap}
use hubble_ui.ServiceMap.Card.{Card, from_service}
use hubble_ui.Store.Links.{link_of, apply_link_change, deleted, modified}
use hubble_ui.Store.Links.Laws.{HasDistinctIds, changed_link, link_of-apply_link_change}
use hubble_ui.Store.Links.Invariant.{
  Reachable, start, acted, add, change, act, Reachable-HasDistinctIds,
}
use hubble_ui.Store.Services.{by_filter_entry}
use hubble_ui.Store.Services.Laws.{is_named, by_filter_entry-find}
use hubble_ui.Store.Namespaces.{NamespaceStore}
use hubble_ui.Tests.{hubble_link, link, service, digit, not_to_api}

abbrev traffic : Heap
traffic a = record { flow_amount = a + 2; bytes_transfered = 100 }

abbrev links-HasDistinctIds : HasDistinctIds (link ∷ [])
links-HasDistinctIds = unfold has in (refl, tt)

link_of-apply_link_change_example :
    link_of (codes "link-1") (apply_link_change traffic (link ∷ []) hubble_link deleted).0 ≡ (
      if hubble_link.id == codes "link-1"
      then changed_link traffic hubble_link deleted (link_of (codes "link-1") (link ∷ []))
      else link_of (codes "link-1") (link ∷ []))
link_of-apply_link_change_example =
    link_of-apply_link_change traffic (link ∷ []) hubble_link deleted (codes "link-1")
      links-HasDistinctIds

-- A link is added and then changed.
abbrev history : Reachable (act (change hubble_link modified) (act (add (link ∷ [])) ([], traffic)))
history = acted (change hubble_link modified) _ (acted (add (link ∷ [])) _ (start traffic))

Reachable-HasDistinctIds_example :
    HasDistinctIds (act (change hubble_link modified) (act (add (link ∷ [])) ([], traffic))).0
Reachable-HasDistinctIds_example =
    Reachable-HasDistinctIds
      (act (change hubble_link modified) (act (add (link ∷ [])) ([], traffic))) history

abbrev card : Card
card = from_service service

by_filter_entry-find_example :
    by_filter_entry digit (card ∷ []) not_to_api ≡ find (is_named digit not_to_api) (card ∷ [])
by_filter_entry-find_example = by_filter_entry-find digit (card ∷ []) not_to_api

abbrev namespaces : NamespaceStore
namespaces = record {
  relay_namespaces = (codes "web", record { namespace = codes "web"; relay = true }) ∷ [];
  current_namespace = some (codes "data");
}
