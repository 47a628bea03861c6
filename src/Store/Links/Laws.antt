-- ===== src/Store/Links/Laws.antt =====
-- What each operation of src/store/stores/interaction.ts makes of the link under an id.
use hubble_ui.Prelude.{
  ◌≡◌, refl, inl, inr, ◌&&◌, Option, none, some, List, [], ◌∷◌, ◌++◌, map, Str, str_Eq, ◌==◌,
  eq_iff, find, length, ltb, arith, Bool-cases, Option-cases, if◌then◌else◌,
}
use hubble_ui.Prelude.Sets.{has, IsDistinct, remove}
use hubble_ui.Prelude.Maps.{is_some}
use hubble_ui.Hubble.{Verdict, verdict_Eq}
use hubble_ui.Link
use hubble_ui.Link.{Link, HubbleLink, Heap, from_hubble_link, update_with_hubble_link}
use hubble_ui.Store.Links.{
  StateChange, unknown, added, modified, deleted, exists, link_of, add_link, delete_verdict,
  delete_link, splice, update_link, upsert_hubble_link, apply_link_change,
}

abbrev pub ids : List Link → List Str
ids = map Link.id

-- No two links have one id.
abbrev pub HasDistinctIds : List Link → Type 0
HasDistinctIds links = IsDistinct (ids links)

abbrev or_else : Option Link → Option Link → Option Link
or_else none b = b
or_else (some a) b = some a

link_of-append :
    (k : Str) (xs ys : List Link) → link_of k (xs ++ ys) ≡ or_else (link_of k xs) (link_of k ys)
unfolding link_of find
link_of-append k [] ys = refl
link_of-append k (x ∷ xs) ys = ground (arith, link_of-append k xs ys)

pub has-ids : (k : Str) (links : List Link) → has k (ids links) ≡ is_some (link_of k links)
unfolding link_of find has
has-ids k [] = refl
has-ids k (l ∷ ls) = ground (arith, has-ids k ls)

-- What is left of a link when a verdict is deleted from it
abbrev pub without_verdict : Verdict → Option Link → Option Link
without_verdict v none = none
without_verdict v (some l) =
    if ltb 1 (length l.verdicts) then some (record l { verdicts = remove v l.verdicts }) else none

link_of-delete_verdict :
    (id k : Str) (v : Verdict) (links : List Link)
    → HasDistinctIds links
    → link_of k (delete_verdict id v links)
      ≡ (if id == k then without_verdict v (link_of k links) else link_of k links)
unfolding link_of find delete_verdict has Link.id
link_of-delete_verdict id k v [] d = ground arith
link_of-delete_verdict id k v (l ∷ ls) (new, d) = ground (
  arith,
  link_of-delete_verdict id k v ls d,
  has-ids k ls,
  eq_iff (Link.id l) id,
  eq_iff (Link.id l) k,
  eq_iff id k,
)

link_of-splice :
    (id k : Str) (link : Link) (links : List Link)
    → Link.id link ≡ id
    → link_of k (splice id link links)
      ≡ (if id == k && is_some (link_of k links) then some link else link_of k links)
unfolding link_of find splice
link_of-splice id k link [] h = ground arith
link_of-splice id k link (l ∷ ls) h =
    ground (
      arith,
      link_of-splice id k link ls h,
      eq_iff (Link.id l) id,
      eq_iff (Link.id l) k,
      eq_iff id k,
    )

-- What a change makes of the link under its id
abbrev pub changed_link : Heap → HubbleLink → StateChange → Option Link → Option Link
changed_link heap hl unknown o = o
changed_link heap hl deleted o = without_verdict hl.verdict o
changed_link heap hl _ none = some (from_hubble_link hl)
changed_link heap hl _ (some l) = some (update_with_hubble_link heap l hl).0

link_of-add_link :
    (k : Str) (links : List Link) (hl : HubbleLink)
    → link_of k (add_link links hl) ≡ (
        if hl.id == k
        then or_else (link_of k links) (some (from_hubble_link hl))
        else link_of k links)
unfolding add_link from_hubble_link Link.id
link_of-add_link k links hl =
    ground (arith, link_of-append k links (from_hubble_link hl ∷ []), eq_iff hl.id k, link_of_one)
  where
    link_of_one :
        link_of k (from_hubble_link hl ∷ [])
        ≡ (if hl.id == k then some (from_hubble_link hl) else none)
    link_of_one = unfold link_of find from_hubble_link Link.id in refl

pub link_of_id : (k : Str) (links : List Link) (l : Link) → link_of k links ≡ some l → Link.id l ≡ k
unfolding link_of find
link_of_id k [] l h = cc
link_of_id k (x ∷ xs) l h = elim (Bool-cases (Link.id x == k)) [
  | inl same ↦ ground (arith, same, eq_iff (Link.id x) k)
  | inr other ↦ link_of_id k xs l (ground (arith, other))
]

link_of-upsert_hubble_link :
    (heap : Heap) (k : Str) (links : List Link) (hl : HubbleLink)
    → link_of k (upsert_hubble_link heap links hl).0
      ≡ (if hl.id == k then changed_link heap hl added (link_of k links) else link_of k links)
unfolding upsert_hubble_link update_link
link_of-upsert_hubble_link heap k links hl = elim (Option-cases (link_of hl.id links)) [
  | inl missing ↦ rw missing (ground (arith, link_of-add_link k links hl, eq_iff hl.id k))
  | inr (l, found) ↦ rw found (
      ground (
        arith,
        eq_iff hl.id k,
        link_of-splice hl.id k (update_with_hubble_link heap l hl).0 links (updated_id l found),
      ))
]
  where
    updated_id :
        (l : Link)
        → link_of hl.id links ≡ some l
        → Link.id (update_with_hubble_link heap l hl).0 ≡ hl.id
    updated_id l found =
        unfold update_with_hubble_link Link.id Link.clone from_hubble_link in
        link_of_id hl.id links l found

-- A change reaches the link under its id and no other: it is added, updated, loses a verdict or is
-- removed, as the map of links by their ids would have it.
pub link_of-apply_link_change :
    (heap : Heap) (links : List Link) (hl : HubbleLink) (change : StateChange) (k : Str)
    → HasDistinctIds links
    → link_of k (apply_link_change heap links hl change).0
      ≡ (if hl.id == k then changed_link heap hl change (link_of k links) else link_of k links)
unfolding apply_link_change delete_link
link_of-apply_link_change heap links hl unknown k d = ground arith
link_of-apply_link_change heap links hl deleted k d =
    link_of-delete_verdict hl.id k hl.verdict links d
link_of-apply_link_change heap links hl added k d = link_of-upsert_hubble_link heap k links hl
link_of-apply_link_change heap links hl modified k d = link_of-upsert_hubble_link heap k links hl
link_of-apply_link_change heap links hl exists k d = link_of-upsert_hubble_link heap k links hl
