-- ===== src/Interactions/LinkConnections/Laws.antt =====
-- Which link stands under a sender, a receiver and an access point.
use hubble_ui.Prelude.{
  ◌≡◌, refl, ◌∙◌, ℕ, Bool, ◌&&◌, Option, none, some, List, [], ◌∷◌, Str, str_Eq, ◌==◌, eq_iff, find,
  arith,
}
use hubble_ui.Prelude.Maps.{get}
use hubble_ui.Link
use hubble_ui.Link.{Link}
use hubble_ui.Interactions.Connections.{Connections, lookup, upsert}
use hubble_ui.Interactions.Connections.Laws.{
  IsWellKeyed, lookup-upsert, lookup-get_inversed, upsert-IsWellKeyed,
}
use hubble_ui.Interactions.Endpoints.{generate_id}
use hubble_ui.Interactions.LinkConnections.{no_update, add_links, build_from_links}

-- The link goes from the sender to the receiver, at the access point.
abbrev pub connects : (ℕ → Str) → Str → Str → Str → Link → Bool
connects to_text s r k l =
    Link.source_id l == s
    && (Link.destination_id l == r
        && generate_id to_text (Link.destination_id l) (Link.destination_port l) == k)

abbrev or_else : Option Link → Option Link → Option Link
or_else none b = b
or_else (some a) b = some a

module _ (to_text : ℕ → Str) where
  lookup-add_links :
      (c : Connections Link) (links : List Link) (s r k : Str)
      → lookup (add_links to_text c links) s r k
        ≡ or_else (lookup c s r k) (find (connects to_text s r k) links)
  unfolding add_links find
  lookup-add_links c [] s r k = ground arith
  lookup-add_links c (l ∷ ls) s r k =
      let key = generate_id to_text (Link.destination_id l) (Link.destination_port l) in
      let c' = (upsert no_update c (Link.source_id l) (Link.destination_id l) key l).0 in
      ground (
        arith,
        lookup-add_links c' ls s r k,
        lookup-upsert no_update c (Link.source_id l) (Link.destination_id l) key s r k l,
        eq_iff (Link.source_id l) s,
        eq_iff (Link.destination_id l) r,
        eq_iff key k,
      )

  add_links-IsWellKeyed :
      (links : List Link) (c : Connections Link)
      → IsWellKeyed c
      → IsWellKeyed (add_links to_text c links)
  unfolding add_links
  add_links-IsWellKeyed [] c w = w
  add_links-IsWellKeyed (l ∷ ls) c w =
      add_links-IsWellKeyed ls _
        (upsert-IsWellKeyed no_update c (Link.source_id l) (Link.destination_id l) _ l w)

  -- Under a sender, a receiver and an access point stands the first of the links that goes from
  -- the one to the other at that access point, in the outgoing connections and, with the sender and
  -- the receiver exchanged, in the incoming ones.
  pub lookup-build_from_links :
      (links : List Link) (s r k : Str)
      → let c = build_from_links to_text links in
        let first = find (connects to_text s r k) links in
        (lookup c.outgoings s r k ≡ first) × (lookup c.incomings r s k ≡ first)
  unfolding build_from_links
  lookup-build_from_links links s r k = (
    outgoing,
    lookup-get_inversed no_update (add_links to_text [] links) s r k
          (add_links-IsWellKeyed links [] (tt, tt))
        ∙ outgoing,
  )
    where
      empty : lookup {E = Link} [] s r k ≡ none
      empty = unfold lookup get in refl

      outgoing : lookup (add_links to_text [] links) s r k ≡ find (connects to_text s r k) links
      outgoing = ground (arith, lookup-add_links [] links s r k, empty)
