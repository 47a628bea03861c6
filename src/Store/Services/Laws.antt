-- ===== src/Store/Services/Laws.antt =====
-- What card stands under an id after an upsert, and which card a filter entry finds.
use hubble_ui.Prelude.{
  ◌≡◌, refl, inl, inr, ℕ, Bool, false, Option, none, some, List, [], ◌∷◌, ◌++◌, Str, str_Eq, ◌==◌,
  eq_iff, find, arith, Bool-cases, Option-cases, if◌then◌else◌,
}
use hubble_ui.Prelude.Maps.{get, put, get-put}
use hubble_ui.Interactions.Endpoints.{ServiceEndpoint}
use hubble_ui.ServiceMap.Card
use hubble_ui.ServiceMap.Card.{Card, upsert_access_point, set_identity}
use hubble_ui.Filtering.Entry.{FilterEntry, as_workload}
use hubble_ui.Filtering.Entry.Builders.{is_identity, is_dns, is_workload}
use hubble_ui.Store.Services.{
  card_of, change_card, upsert_points, merge_card, upsert_card, index_from, by_filter_entry,
  cards_identity_map, cards_domain_map, card_workloads_map, by_workload, identity_key, domain_key,
  workload_key, text_of_workload,
}

abbrev or_else : Option Card → Option Card → Option Card
or_else none b = b
or_else (some a) b = some a

abbrev changed : (Card → Card) → Option Card → Option Card
changed f none = none
changed f (some c) = some (f c)

card_of-change_card :
    (id k : Str) (f : Card → Card) (cards : List Card)
    → ((c : Card) → Card.id (f c) ≡ Card.id c)
    → card_of k (change_card id f cards)
      ≡ (if id == k then changed f (card_of k cards) else card_of k cards)
unfolding card_of change_card
card_of-change_card id k f [] keeps = ground arith
card_of-change_card id k f (c ∷ cs) keeps = ground (
  arith,
  card_of-change_card id k f cs keeps,
  keeps c,
  eq_iff (Card.id c) id,
  eq_iff (Card.id c) k,
  eq_iff id k,
)

card_of-append :
    (k : Str) (c : Card) (cards : List Card)
    → card_of k (cards ++ c ∷ []) ≡ (if Card.id c == k then some c else card_of k cards)
unfolding card_of
card_of-append k c [] = ground arith
card_of-append k c (x ∷ xs) = ground (arith, card_of-append k c xs)

module _ (to_text : ℕ → Str) where
  id-upsert_points :
      (c : Card) (aps : List (Str × ServiceEndpoint))
      → Card.id (upsert_points to_text c aps) ≡ Card.id c
  unfolding upsert_points upsert_access_point Card.id
  id-upsert_points c [] = refl
  id-upsert_points c ((k, ap) ∷ aps) = id-upsert_points (upsert_access_point to_text c ap) aps

  id-merge_card : (svc c : Card) → Card.id (merge_card to_text svc c) ≡ Card.id c
  unfolding merge_card set_identity Card.id
  id-merge_card svc c = ground (arith, id-upsert_points c svc.access_points)

  -- What an upsert makes of the card under its id
  abbrev pub merged : Card → Option Card → Option Card
  merged svc none = some svc
  merged svc (some existing) = some (merge_card to_text svc existing)

  -- An upsert of a card adds it or merges it into the card under its id, and leaves the cards under
  -- all other ids.
  card_of-upsert_card :
      (cards : List Card) (svc : Card) (k : Str)
      → card_of k (upsert_card to_text cards svc)
        ≡ (if Card.id svc == k then merged svc (card_of k cards) else card_of k cards)
  unfolding upsert_card
  card_of-upsert_card cards svc k = ground (
    arith,
    eq_iff (Card.id svc) k,
    card_of-append k svc cards,
    card_of-change_card (Card.id svc) k (merge_card to_text svc) cards (id-merge_card svc),
  )

-- The key of a card is the one sought.
abbrev pub has_key : Option Str → Str → Bool
has_key none k = false
has_key (some j) k = j == k

get-index_from :
    (key : Card → Option Str) (m : List (Str × Card)) (cards : List Card) (k : Str)
    → get k (index_from key m cards) ≡ or_else (get k m) (find (λ c. has_key (key c) k) cards)
unfolding index_from find
get-index_from key m [] k = ground arith
get-index_from key m (c ∷ cs) k = elim (Option-cases (key c)) [
  | inl missing ↦ ground (arith, missing, get-index_from key m cs k)
  | inr (j, found) ↦ elim (Option-cases (get j m)) [
    | inl free ↦
        ground
          (arith, found, free, get-index_from key (put j c m) cs k, get-put j k c m, eq_iff j k)
    | inr (old, taken) ↦ ground (arith, found, taken, get-index_from key m cs k, eq_iff j k)
  ]
]

-- Whether a card is one that the entry names
abbrev pub is_named : (ℕ → Str) → FilterEntry → Card → Bool
is_named to_text e =
    if is_identity e
    then (λ card. has_key (identity_key to_text card) e.query)
    else if is_dns e
    then (λ card. has_key (domain_key card) e.query)
    else if is_workload e
    then elim (as_workload e) [
      | none ↦ λ card. false
      | some wl ↦ λ card. has_key (workload_key card) (text_of_workload wl)
    ]
    else λ card. false

find_nothing : (cards : List Card) → none ≡ find (λ card. false) cards
unfolding find
find_nothing [] = refl
find_nothing (card ∷ cards) = find_nothing cards

-- The look-up in the map of the entry's kind finds the first card of the store that the entry
-- names: by its identity if that is not zero, by its first domain name, or by its first workload.
pub by_filter_entry-find :
    (to_text : ℕ → Str) (cards : List Card) (e : FilterEntry)
    → by_filter_entry to_text cards e ≡ find (is_named to_text e) cards
unfolding by_filter_entry cards_identity_map cards_domain_map by_workload card_workloads_map get
by_filter_entry-find to_text cards e = elim (Bool-cases (is_identity e)) [
  | inl i ↦ rw (is_named, i) (get-index_from (identity_key to_text) [] cards e.query)
  | inr not_i ↦ elim (Bool-cases (is_dns e)) [
    | inl d ↦ rw (is_named, not_i, d) (get-index_from domain_key [] cards e.query)
    | inr not_d ↦ elim (Bool-cases (is_workload e)) [
      | inl w ↦ elim (Option-cases (as_workload e)) [
        | inl missing ↦ rw (is_named, not_i, not_d, w, missing) (find_nothing cards)
        | inr (wl, found) ↦
            rw (is_named, not_i, not_d, w, found)
              (get-index_from workload_key [] cards (text_of_workload wl))
      ]
      | inr not_w ↦ rw (is_named, not_i, not_d, not_w) (find_nothing cards)
    ]
  ]
]
