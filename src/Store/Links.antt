-- ===== src/Store/Links.antt =====
-- src/store/stores/interaction.ts: the links of the interaction store. The counters of the links'
-- objects are the heap of Link. Links are values here: a link is taken to be in one store only.
pub mod Laws
pub mod Invariant
use hubble_ui.Prelude.{
  ℕ, ◌+◌, Bool, true, false, Option, none, some, List, [], ◌∷◌, ◌++◌, Str, str_Eq, ◌==◌, find,
  length, ltb, if◌then◌else◌,
}
use hubble_ui.Prelude.Sets.{remove}
use hubble_ui.Prelude.Maps.{is_some}
use hubble_ui.Hubble.{Verdict, verdict_Eq}
use hubble_ui.Link
use hubble_ui.Link.{Link, HubbleLink, Heap, from_hubble_link, update_with_hubble_link}

-- The enumeration of src/domain/misc.ts
pub data StateChange : Type 0 where
  unknown added modified deleted exists : StateChange

-- `linksMap.get(id)`; of links with one id, `linksMap` has the last, and here is the first.
unfoldable pub link_of : Str → List Link → Option Link
unfolding find
link_of id links = find (λ l. Link.id l == id) links

unfoldable pub add_link : List Link → HubbleLink → List Link
unfolding link_of
add_link links hl =
    if is_some (link_of hl.id links) then links else links ++ from_hubble_link hl ∷ []

-- `addLinks`
unfoldable pub add_links : List Link → List Link → List Link
unfolding add_link
add_links links [] = links
add_links links (link ∷ given) = add_links (add_link links link.ref) given

-- The first link with the id loses the verdict if it has several, and is removed otherwise.
unfoldable pub delete_verdict : Str → Verdict → List Link → List Link
unfolding remove
delete_verdict id verdict [] = []
delete_verdict id verdict (l ∷ ls) =
    let rest = delete_verdict id verdict ls in
    if Link.id l == id
    then (if ltb 1 (length l.verdicts)
        then record l { verdicts = remove verdict l.verdicts } ∷ ls
        else ls)
    else l ∷ rest

unfoldable pub delete_link : List Link → HubbleLink → List Link
unfolding delete_verdict
delete_link links hl = delete_verdict hl.id hl.verdict links

-- `this._links.splice(idx, 1, updatedLink)`
unfoldable pub splice : Str → Link → List Link → List Link
splice id link [] = []
splice id link (l ∷ ls) =
    let rest = splice id link ls in if Link.id l == id then link ∷ ls else l ∷ rest

unfoldable pub update_link : Heap → List Link → HubbleLink → List Link × Heap
unfolding link_of splice update_with_hubble_link
update_link heap links hl = elim (link_of hl.id links) [
  | none ↦ (links, heap)
  | some current ↦
      let (updated, heap') = update_with_hubble_link heap current hl in
      (splice hl.id updated links, heap')
]

unfoldable pub upsert_hubble_link : Heap → List Link → HubbleLink → List Link × Heap
unfolding link_of update_link add_link
upsert_hubble_link heap links hl =
    if is_some (link_of hl.id links) then update_link heap links hl else (add_link links hl, heap)

unfoldable pub upsert_links : Heap → List Link → List Link → List Link × Heap
unfolding upsert_hubble_link
upsert_links heap links [] = (links, heap)
upsert_links heap links (link ∷ given) =
    let (links', heap') = upsert_hubble_link heap links link.ref in upsert_links heap' links' given

unfoldable pub apply_link_change : Heap → List Link → HubbleLink → StateChange → List Link × Heap
unfolding delete_link upsert_hubble_link
apply_link_change heap links hl unknown = (links, heap)
apply_link_change heap links hl deleted = (delete_link links hl, heap)
apply_link_change heap links hl added = upsert_hubble_link heap links hl
apply_link_change heap links hl modified = upsert_hubble_link heap links hl
apply_link_change heap links hl exists = upsert_hubble_link heap links hl

unfoldable pub add_new_link : List Link → Link → List Link × Bool
unfolding link_of
add_new_link links link =
    if is_some (link_of (Link.id link) links) then (links, false) else (links ++ link ∷ [], true)

-- The loop of `moveTo` over the links, with the number of those that are new
unfoldable pub move_links : List Link → List Link → List Link × ℕ
unfolding add_new_link
move_links links [] = (links, 0)
move_links links (link ∷ given) =
    let (links', is_new) = add_new_link links link in
    let (moved, count) = move_links links' given in (moved, if is_new then count + 1 else count)

-- `clearLinks`
unfoldable pub clear_links : List Link → List Link
clear_links links = []
