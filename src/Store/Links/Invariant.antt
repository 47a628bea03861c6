-- ===== src/Store/Links/Invariant.antt =====
-- The ids of the links of src/store/stores/interaction.ts.
use hubble_ui.Prelude.{
  ◌≡◌, refl, sym, subst, inl, inr, false, none, some, List, [], ◌∷◌, ◌++◌, Str, str_Eq, eq_iff,
  arith, Option-cases,
}
use hubble_ui.Prelude.Sets.{has, IsDistinct, append-IsDistinct}
use hubble_ui.Hubble.{Verdict}
use hubble_ui.Link
use hubble_ui.Link.{Link, HubbleLink, Heap, from_hubble_link, update_with_hubble_link}
use hubble_ui.Store.Links.{
  StateChange, unknown, added, modified, deleted, exists, link_of, add_link, add_links,
  delete_verdict, delete_link, splice, update_link, upsert_hubble_link, upsert_links,
  apply_link_change, add_new_link, move_links, clear_links,
}
use hubble_ui.Store.Links.Laws.{HasDistinctIds, ids, has-ids, link_of_id}

append-HasDistinctIds :
    (links : List Link) (l : Link)
    → link_of (Link.id l) links ≡ none
    → HasDistinctIds links
    → HasDistinctIds (links ++ l ∷ [])
append-HasDistinctIds links l h d =
    rw (map-append links l)
      (append-IsDistinct (Link.id l) (ids links) (ground (arith, has-ids (Link.id l) links)) d)
  where
    map-append :
        (links : List Link) (l : Link) → ids (links ++ l ∷ []) ≡ ids links ++ Link.id l ∷ []
    map-append [] l = refl
    map-append (x ∷ xs) l = rw (map-append xs l) refl

add_missing :
    (links : List Link) (hl : HubbleLink)
    → link_of hl.id links ≡ none
    → HasDistinctIds links
    → HasDistinctIds (links ++ from_hubble_link hl ∷ [])
add_missing links hl h d =
    append-HasDistinctIds links (from_hubble_link hl) (unfold from_hubble_link Link.id in h) d

add_link-HasDistinctIds :
    (links : List Link) (hl : HubbleLink)
    → HasDistinctIds links
    → HasDistinctIds (add_link links hl)
unfolding add_link
add_link-HasDistinctIds links hl d = elim (Option-cases (link_of hl.id links)) [
  | inl missing ↦ rw missing (add_missing links hl missing d)
  | inr (l, found) ↦ rw found d
]

pub add_links-HasDistinctIds :
    (links given : List Link) → HasDistinctIds links → HasDistinctIds (add_links links given)
unfolding add_links
add_links-HasDistinctIds links [] d = d
add_links-HasDistinctIds links (l ∷ ls) d =
    add_links-HasDistinctIds (add_link links l.ref) ls (add_link-HasDistinctIds links l.ref d)

has-delete_verdict :
    (k id : Str) (v : Verdict) (links : List Link)
    → has k (ids links) ≡ false
    → has k (ids (delete_verdict id v links)) ≡ false
unfolding has delete_verdict Link.id
has-delete_verdict k id v [] h = refl
has-delete_verdict k id v (l ∷ ls) h = ground (arith, has-delete_verdict k id v ls)

delete_verdict-HasDistinctIds :
    (id : Str) (v : Verdict) (links : List Link)
    → HasDistinctIds links
    → HasDistinctIds (delete_verdict id v links)
unfolding delete_verdict Link.id
delete_verdict-HasDistinctIds id v [] d = d
delete_verdict-HasDistinctIds id v (l ∷ ls) (new, d) =
    ground (arith, delete_verdict-HasDistinctIds id v ls d, has-delete_verdict l.ref.id id v ls)

-- A link put in place of one with its id changes no id.
ids-splice :
    (id : Str) (link : Link) (links : List Link)
    → Link.id link ≡ id
    → ids (splice id link links) ≡ ids links
unfolding splice
ids-splice id link [] h = refl
ids-splice id link (l ∷ ls) h = ground (arith, ids-splice id link ls h, eq_iff (Link.id l) id)

ids-update_link :
    (heap : Heap) (links : List Link) (hl : HubbleLink) (l : Link)
    → link_of hl.id links ≡ some l
    → ids (update_link heap links hl).0 ≡ ids links
unfolding update_link
ids-update_link heap links hl l found =
    rw (update_link, found)
      (ids-splice hl.id (update_with_hubble_link heap l hl).0 links updated_id)
  where
    updated_id : Link.id (update_with_hubble_link heap l hl).0 ≡ hl.id
    updated_id =
        unfold update_with_hubble_link Link.id Link.clone from_hubble_link in
        link_of_id hl.id links l found

upsert_hubble_link-HasDistinctIds :
    (heap : Heap) (links : List Link) (hl : HubbleLink)
    → HasDistinctIds links
    → HasDistinctIds (upsert_hubble_link heap links hl).0
unfolding upsert_hubble_link
upsert_hubble_link-HasDistinctIds heap links hl d = elim (Option-cases (link_of hl.id links)) [
  | inl missing ↦ rw missing (add_missing links hl missing d)
  | inr (l, found) ↦ subst IsDistinct (sym (ids_kept l found)) d
]
  where
    ids_kept :
        (l : Link)
        → link_of hl.id links ≡ some l
        → ids (upsert_hubble_link heap links hl).0 ≡ ids links
    ids_kept l found = ground (arith, found, ids-update_link heap links hl l found)

upsert_links-HasDistinctIds :
    (heap : Heap) (links given : List Link)
    → HasDistinctIds links
    → HasDistinctIds (upsert_links heap links given).0
unfolding upsert_links
upsert_links-HasDistinctIds heap links [] d = d
upsert_links-HasDistinctIds heap links (l ∷ ls) d =
    upsert_links-HasDistinctIds (upsert_hubble_link heap links l.ref).1 _ ls
      (upsert_hubble_link-HasDistinctIds heap links l.ref d)

move_links-HasDistinctIds :
    (links given : List Link) → HasDistinctIds links → HasDistinctIds (move_links links given).0
unfolding move_links add_new_link
move_links-HasDistinctIds links [] d = d
move_links-HasDistinctIds links (l ∷ ls) d = elim (Option-cases (link_of (Link.id l) links)) [
  | inl missing ↦
      rw missing
        (move_links-HasDistinctIds (links ++ l ∷ []) ls (append-HasDistinctIds links l missing d))
  | inr (_, found) ↦ rw found (move_links-HasDistinctIds links ls d)
]

-- What the program calls of the store's links
pub data Action : Type 0 where
  clear : Action
  add upsert move_from : List Link → Action
  change : HubbleLink → StateChange → Action

unfoldable pub act : Action → List Link × Heap → List Link × Heap
unfolding clear_links add_links upsert_links move_links apply_link_change
act clear (links, heap) = (clear_links links, heap)
act (add given) (links, heap) = (add_links links given, heap)
act (upsert given) (links, heap) = upsert_links heap links given
act (move_from given) (links, heap) = ((move_links links given).0, heap)
act (change hl kind) (links, heap) = apply_link_change heap links hl kind

-- The stores that some actions lead to from an empty one
pub data Reachable : List Link × Heap → Type 0 where
  start : (heap : Heap) → Reachable ([], heap)
  acted : (a : Action) (s : List Link × Heap) → Reachable s → Reachable (act a s)

act-HasDistinctIds :
    (a : Action) (s : List Link × Heap) → HasDistinctIds s.0 → HasDistinctIds (act a s).0
unfolding act clear_links apply_link_change delete_link
act-HasDistinctIds clear s d = tt
act-HasDistinctIds (add given) s d = add_links-HasDistinctIds s.0 given d
act-HasDistinctIds (upsert given) s d = upsert_links-HasDistinctIds s.1 s.0 given d
act-HasDistinctIds (move_from given) s d = move_links-HasDistinctIds s.0 given d
act-HasDistinctIds (change hl unknown) s d = d
act-HasDistinctIds (change hl deleted) s d = delete_verdict-HasDistinctIds hl.id hl.verdict s.0 d
act-HasDistinctIds (change hl added) s d = upsert_hubble_link-HasDistinctIds s.1 s.0 hl d
act-HasDistinctIds (change hl modified) s d = upsert_hubble_link-HasDistinctIds s.1 s.0 hl d
act-HasDistinctIds (change hl exists) s d = upsert_hubble_link-HasDistinctIds s.1 s.0 hl d

-- In each store that actions lead to from an empty one, no two links have one id.
pub Reachable-HasDistinctIds : (s : List Link × Heap) → Reachable s → HasDistinctIds s.0
Reachable-HasDistinctIds _ (start heap) = tt
Reachable-HasDistinctIds _ (acted a s r) = act-HasDistinctIds a s (Reachable-HasDistinctIds s r)
